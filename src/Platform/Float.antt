-- ===== src/Platform/Float.antt =====
-- The `f32` operations that the sources call. The carrier is abstract; the laws are those that IEEE
-- 754 and the documentation of `f32::min`, `f32::max`, `f32::clamp` and of `as` casts state,
-- NaN included.
use neems_core.Prelude.{ℕ, Bool, true, false, leb, ◌≤◌, ◌≡◌, ◌⊎◌}
use neems_core.Prelude.Int.{ℤ, pos}

pub record Float32 : Type 1 where
  pub F : Type 0
  -- `x as f32`, `-x`, `x + y`, `x - y`, `x * y`, `x / y`
  pub of_int : ℤ → F
  pub neg : F → F
  pub add : F → F → F
  pub sub : F → F → F
  pub mul : F → F → F
  pub div : F → F → F
  -- `x < y`, `x <= y`, `x != 0.0`, `x.is_nan()`
  pub lt : F → F → Bool
  pub le : F → F → Bool
  pub ne : F → F → Bool
  pub is_nan : F → Bool
  pub min : F → F → F
  pub max : F → F → F
  -- `clamp x lo hi` is `x.clamp(lo, hi)`
  pub clamp : F → F → F → F
  -- `x as u16`, `x as i16`, `x as i32`: truncating, saturating, 0 for NaN
  pub to_u16 : F → ℕ
  pub to_i16 : F → ℤ
  pub to_i32 : F → ℤ

-- What is relied on, each law with the restriction to numbers (not NaN) under which it is documented.
pub record IsIeee (fl : Float32) : Type 0 where
  -- `clamp` keeps NaN, and otherwise lands between its bounds and moves no value inside them.
  pub clamp_is_nan :
      (x lo hi : fl.F) → fl.le lo hi ≡ true → fl.is_nan (fl.clamp x lo hi) ≡ fl.is_nan x
  pub clamp_ge :
      (x lo hi : fl.F)
      → fl.is_nan x ≡ false
      → fl.le lo hi ≡ true
      → fl.le lo (fl.clamp x lo hi) ≡ true
  pub clamp_le :
      (x lo hi : fl.F)
      → fl.is_nan x ≡ false
      → fl.le lo hi ≡ true
      → fl.le (fl.clamp x lo hi) hi ≡ true
  pub clamp_inside : (x lo hi : fl.F) → fl.le lo x ≡ true → fl.le x hi ≡ true → fl.clamp x lo hi ≡ x
  -- `min` and `max` return the number where one argument is NaN.
  pub min_le_right : (x y : fl.F) → fl.is_nan y ≡ false → fl.le (fl.min x y) y ≡ true
  pub min_ge : (x y z : fl.F) → fl.le z x ≡ true → fl.le z y ≡ true → fl.le z (fl.min x y) ≡ true
  pub min_le_left : (x y : fl.F) → fl.is_nan x ≡ false → fl.le (fl.min x y) x ≡ true
  pub min_choice : (x y : fl.F) → fl.is_nan y ≡ false → (fl.min x y ≡ x) ⊎ (fl.min x y ≡ y)
  pub max_ge_left : (x y : fl.F) → fl.is_nan x ≡ false → fl.le x (fl.max x y) ≡ true
  pub max_choice : (x y : fl.F) → fl.is_nan y ≡ false → (fl.max x y ≡ x) ⊎ (fl.max x y ≡ y)
  pub max_ge_right : (x y : fl.F) → fl.is_nan y ≡ false → fl.le y (fl.max x y) ≡ true
  pub max_le : (x y z : fl.F) → fl.le x z ≡ true → fl.le y z ≡ true → fl.le (fl.max x y) z ≡ true
  -- A comparison that holds is one of numbers.
  pub le_numbers : (x y : fl.F) → fl.le x y ≡ true → (fl.is_nan x ≡ false) × (fl.is_nan y ≡ false)
  pub le_of_lt : (x y : fl.F) → fl.lt x y ≡ true → fl.le x y ≡ true
  pub le_of_not_lt :
      (x y : fl.F)
      → fl.is_nan x ≡ false
      → fl.is_nan y ≡ false
      → fl.lt x y ≡ false
      → fl.le y x ≡ true
  pub le_refl : (x : fl.F) → fl.is_nan x ≡ false → fl.le x x ≡ true
  pub le_trans : (x y z : fl.F) → fl.le x y ≡ true → fl.le y z ≡ true → fl.le x z ≡ true
  -- Rounding is monotone: adding what is not negative does not lower a number below infinity.
  pub le_add :
      (x y : fl.F)
      → fl.le (fl.of_int (pos 0)) x ≡ true
      → fl.le (fl.of_int (pos 0)) y ≡ true
      → fl.le x (fl.add x y) ≡ true
  -- Subtracting what is not negative does not raise a number below infinity.
  pub sub_le :
      (x y : fl.F)
      → fl.le x (fl.of_int (pos 100)) ≡ true
      → fl.le (fl.of_int (pos 0)) y ≡ true
      → fl.le (fl.sub x y) x ≡ true
  -- Integers up to 2^24 are exact, and casts truncate towards zero.
  pub of_int_le :
      (m n : ℕ)
      → m ≤ 16777216
      → n ≤ 16777216
      → fl.le (fl.of_int (pos m)) (fl.of_int (pos n)) ≡ leb m n
  pub to_u16_nan : (x : fl.F) → fl.is_nan x ≡ true → fl.to_u16 x ≡ 0
  pub to_u16_le : (x : fl.F) (n : ℕ) → fl.le x (fl.of_int (pos n)) ≡ true → fl.to_u16 x ≤ n
