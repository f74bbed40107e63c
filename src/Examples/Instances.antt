-- ===== src/Examples/Instances.antt =====
-- Numbers and instants for the examples: integers for `f32`, and natural numbers of seconds.
use neems_core.Platform.Clock.{Clock, IsOrdered}
use neems_core.Platform.Float.{Float32, IsIeee}
use neems_core.Prelude.{ℕ, refl, false, not, arith, ltb, ◌/◌, if◌then◌else◌}
use neems_core.Prelude.Int.{
  ℤ, pos, negsuc, pos_part, ltb_ℤ, leb_ℤ, clamp_ℤ, eqb_ℤ, ◌+ℤ◌, ◌-ℤ◌, ◌*ℤ◌,
}

abbrev quotient : ℤ → ℤ → ℤ
quotient (pos a) (pos b) = pos (a / b)
quotient (negsuc a) (pos b) = negsuc (a / b)
quotient a (negsuc b) = pos 0

abbrev low_word : ℤ → ℕ
low_word (pos n) = if ltb 65535 n then 65535 else n
low_word (negsuc n) = 0

abbrev min_ℤ : ℤ → ℤ → ℤ
min_ℤ x y = if leb_ℤ x y then x else y

abbrev max_ℤ : ℤ → ℤ → ℤ
max_ℤ x y = if leb_ℤ x y then y else x

abbrev pub int_float : Float32
int_float = record {
  F = ℤ;
  of_int = λ n. n;
  neg = λ x. pos 0 -ℤ x;
  add = λ x y. x +ℤ y;
  sub = λ x y. x -ℤ y;
  mul = λ x y. x *ℤ y;
  div = quotient;
  lt = ltb_ℤ;
  le = leb_ℤ;
  ne = λ x y. not (eqb_ℤ x y);
  is_nan = λ x. false;
  min = min_ℤ;
  max = max_ℤ;
  clamp = clamp_ℤ;
  to_u16 = low_word;
  to_i16 = λ x. x;
  to_i32 = λ x. x;
}

pub int_float-IsIeee : IsIeee int_float
int_float-IsIeee = record {
  clamp_is_nan = λ x lo hi h. refl;
  clamp_ge = λ x lo hi n h. ground arith;
  clamp_le = λ x lo hi n h. ground arith;
  clamp_inside = λ x lo hi h k. ground arith;
  min_le_right = λ x y n. ground arith;
  min_ge = λ x y z h k. ground arith;
  min_le_left = λ x y n. ground arith;
  min_choice = λ x y n. ground arith;
  max_ge_left = λ x y n. ground arith;
  max_choice = λ x y n. ground arith;
  max_ge_right = λ x y n. ground arith;
  max_le = λ x y z h k. ground arith;
  le_numbers = λ x y h. (refl, refl);
  le_of_lt = λ x y h. ground arith;
  le_of_not_lt = λ x y m n h. ground arith;
  le_refl = λ x n. ground arith;
  le_trans = λ x y z h k. ground arith;
  le_add = λ x y h k. ground arith;
  sub_le = λ x y h k. ground arith;
  of_int_le = λ m n h k. ground arith;
  to_u16_nan = λ x h. ground arith;
  to_u16_le = λ x n h. ground arith;
}

abbrev pub seconds : Clock
seconds = record { Time = ℕ; before = ltb; plus_seconds = λ t n. pos_part (pos t +ℤ n) }

pub seconds-IsOrdered : IsOrdered seconds
seconds-IsOrdered = record {
  before_irrefl = λ a. ground arith;
  before_trans = λ a b c h k. ground arith;
}
