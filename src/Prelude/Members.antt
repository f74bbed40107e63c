-- ===== src/Prelude/Members.antt =====
-- Members of a list, and the Boolean searches over it.
use Prim.Native.Nat.{ℕ}
use mathlib.Core.Path.{◌≡◌, refl, sym, ap, subst}
use mathlib.Core.Logic.{inl, inr}
use mathlib.Core.Bool.{Bool, true, false, not, ◌&&◌}
use mathlib.Core.Option.{none, some}
use mathlib.Core.List.{List, [], ◌∷◌, Memᴰ}
use native.Mathlib.Omega.{arith}
use neems_core.Prelude.Tests.{◌==◌, Bool-cases, if-keeps, if◌then◌else◌}
use neems_core.Prelude.Lists.{find, any, all, filter}

module _ {ℓ} {A : Type ℓ} where
  pub all-mem : (p : A → Bool) (xs : List A) (a : A) → all p xs ≡ true → Memᴰ a xs → p a ≡ true
  all-mem p [] a h m = elim m [ ]
  all-mem p (x ∷ xs) a h (Memᴰ.head e) = ground (arith, ap p e)
  all-mem p (x ∷ xs) a h (Memᴰ.tail m) = all-mem p xs a (ground arith) m

  pub mem-all : (p : A → Bool) (xs : List A) → ((a : A) → Memᴰ a xs → p a ≡ true) → all p xs ≡ true
  mem-all p [] h = refl
  mem-all p (x ∷ xs) h =
      ground (arith, h x (Memᴰ.head refl), mem-all p xs (λ a m. h a (Memᴰ.tail m)))

  pub any-mem : (p : A → Bool) (xs : List A) (a : A) → Memᴰ a xs → p a ≡ true → any p xs ≡ true
  any-mem p [] a m h = elim m [ ]
  any-mem p (x ∷ xs) a (Memᴰ.head e) h = ground (arith, ap p e)
  any-mem p (x ∷ xs) a (Memᴰ.tail m) h = ground (arith, any-mem p xs a m h)

  -- What `find` returns passes the test and is in the list.
  pub find-some :
      (p : A → Bool) (xs : List A) (a : A) → find p xs ≡ some a → (p a ≡ true) × Memᴰ a xs
  find-some p [] a h = cc
  find-some p (x ∷ xs) a h = elim (Bool-cases (p x)) [
    | inl hit ↦ let e : x ≡ a = ground arith in (ground (arith, ap p e), Memᴰ.head (sym e))
    | inr miss ↦ let (t, m) = find-some p xs a (ground arith) in (t, Memᴰ.tail m)
  ]

  pub find-none : (p : A → Bool) (xs : List A) (a : A) → find p xs ≡ none → Memᴰ a xs → p a ≡ false
  find-none p [] a h m = elim m [ ]
  find-none p (x ∷ xs) a h (Memᴰ.head e) = ground (arith, ap p e)
  find-none p (x ∷ xs) a h (Memᴰ.tail m) = find-none p xs a (ground arith) m

  -- No two positions of the list have one key.
  abbrev pub distinct : (A → ℕ) → List A → Bool
  distinct key [] = true
  distinct key (x ∷ xs) = all (λ y. not (key y == key x)) xs && distinct key xs

  pub distinct-mem :
      (key : A → ℕ) (xs : List A) (a b : A)
      → distinct key xs ≡ true
      → Memᴰ a xs
      → Memᴰ b xs
      → key a ≡ key b
      → a ≡ b
  distinct-mem key [] a b h m n k = elim m [ ]
  distinct-mem key (x ∷ xs) a b h (Memᴰ.head e) (Memᴰ.head f) k = cc
  distinct-mem key (x ∷ xs) a b h (Memᴰ.head e) (Memᴰ.tail n) k =
      let differs = all-mem (λ y. not (key y == key x)) xs b (ground arith) n in
      ground (arith, ap key e)
  distinct-mem key (x ∷ xs) a b h (Memᴰ.tail m) (Memᴰ.head f) k =
      let differs = all-mem (λ y. not (key y == key x)) xs a (ground arith) m in
      ground (arith, ap key f)
  distinct-mem key (x ∷ xs) a b h (Memᴰ.tail m) (Memᴰ.tail n) k =
      distinct-mem key xs a b (ground arith) m n k

module _ {ℓ} {A : Type ℓ} where
  pub filter-mem :
      (p : A → Bool) (xs : List A) (a : A) → p a ≡ true → Memᴰ a xs → Memᴰ a (filter p xs)
  filter-mem p [] a t m = elim m [ ]
  filter-mem p (x ∷ xs) a t (Memᴰ.head e) =
      let px : p x ≡ true = ground (arith, ap p e) in rw px (Memᴰ.head e)
  filter-mem p (x ∷ xs) a t (Memᴰ.tail m) =
      if-keeps (λ l. Memᴰ a l) (p x) (λ _. Memᴰ.tail (filter-mem p xs a t m))
        (λ _. filter-mem p xs a t m)

  pub mem-filter :
      (p : A → Bool) (xs : List A) (a : A) → Memᴰ a (filter p xs) → (p a ≡ true) × Memᴰ a xs
  mem-filter p [] a m = elim m [ ]
  mem-filter p (x ∷ xs) a m = elim (Bool-cases (p x)) [
    | inl t ↦
        go t (λ n. mem-filter p xs a n)
          (subst (λ b. Memᴰ a (if b then x ∷ filter p xs else filter p xs)) t m)
    | inr f ↦
        let (t, n) =
          mem-filter p xs a
            (subst (λ b. Memᴰ a (if b then x ∷ filter p xs else filter p xs)) f m) in
        (t, Memᴰ.tail n)
  ]
    where
      go :
          p x ≡ true
          → (Memᴰ a (filter p xs) → (p a ≡ true) × Memᴰ a xs)
          → Memᴰ a (x ∷ filter p xs)
          → (p a ≡ true) × Memᴰ a (x ∷ xs)
      go t later (Memᴰ.head e) = (ground (arith, ap p e), Memᴰ.head e)
      go t later (Memᴰ.tail n) = let (u, o) = later n in (u, Memᴰ.tail o)

  pub filter-empty :
      (p : A → Bool) (xs : List A) (a : A) → filter p xs ≡ [] → Memᴰ a xs → p a ≡ false
  filter-empty p xs a e m = elim (Bool-cases (p a)) [
    | inl t ↦ elim (subst (λ l. Memᴰ a l) e (filter-mem p xs a t m)) [ ]
    | inr f ↦ f
  ]
