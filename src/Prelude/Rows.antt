-- ===== src/Prelude/Rows.antt =====
-- The rows of a table: a fresh row appended, rows deleted and rows updated, and what stays true of
-- the others.
use Prim.Native.Nat.{ℕ}
use mathlib.Core.Path.{◌≡◌, refl}
use mathlib.Core.Logic.{◌⊎◌, inl, inr}
use mathlib.Core.Bool.{Bool, true, false, not, ◌||◌}
use mathlib.Core.List.{List, [], ◌∷◌, ◌++◌, map, Memᴰ}
use mathlib.Core.Option.{some}
use native.Mathlib.Omega.{arith}
use neems_core.Prelude.Tests.{◌==◌, Bool-cases, if-keeps, if◌then◌else◌, is_some}
use neems_core.Prelude.Lists.{find, any, all, filter}
use neems_core.Prelude.Members.{distinct, all-mem, any-mem, mem-all, mem-filter, filter-mem}

module _ {ℓ} {A : Type ℓ} where
  pub mem-appended : (xs : List A) (x a : A) → Memᴰ a (xs ++ (x ∷ [])) → Memᴰ a xs ⊎ (a ≡ x)
  mem-appended [] x a (Memᴰ.head e) = inr e
  mem-appended [] x a (Memᴰ.tail m) = elim m [ ]
  mem-appended (y ∷ ys) x a (Memᴰ.head e) = inl (Memᴰ.head e)
  mem-appended (y ∷ ys) x a (Memᴰ.tail m) = elim (mem-appended ys x a m) [
    | inl n ↦ inl (Memᴰ.tail n)
    | inr e ↦ inr e
  ]

  pub if-mem :
      (b : Bool) (xs ys : List A) (z : A)
      → Memᴰ z (if b then xs else ys)
      → ((b ≡ true) × Memᴰ z xs) ⊎ ((b ≡ false) × Memᴰ z ys)
  if-mem true xs ys z m = inl (refl, m)
  if-mem false xs ys z m = inr (refl, m)

  pub append-mem : (xs ys : List A) (a : A) → Memᴰ a (xs ++ ys) → Memᴰ a xs ⊎ Memᴰ a ys
  append-mem [] ys a m = inr m
  append-mem (x ∷ xs) ys a (Memᴰ.head e) = inl (Memᴰ.head e)
  append-mem (x ∷ xs) ys a (Memᴰ.tail m) = elim (append-mem xs ys a m) [
    | inl n ↦ inl (Memᴰ.tail n)
    | inr n ↦ inr n
  ]

  pub mem-left : (xs ys : List A) (a : A) → Memᴰ a xs → Memᴰ a (xs ++ ys)
  mem-left [] ys a m = elim m [ ]
  mem-left (x ∷ xs) ys a (Memᴰ.head e) = Memᴰ.head e
  mem-left (x ∷ xs) ys a (Memᴰ.tail m) = Memᴰ.tail (mem-left xs ys a m)

  pub mem-right : (xs ys : List A) (a : A) → Memᴰ a ys → Memᴰ a (xs ++ ys)
  mem-right [] ys a m = m
  mem-right (x ∷ xs) ys a m = Memᴰ.tail (mem-right xs ys a m)

  pub any-append : (p : A → Bool) (xs ys : List A) → any p (xs ++ ys) ≡ any p xs || any p ys
  any-append p [] ys = refl
  any-append p (x ∷ xs) ys = ground (arith, any-append p xs ys)

  -- What an old row satisfied, a row still does after an append.
  pub any-appended : (p : A → Bool) (xs ys : List A) → any p xs ≡ true → any p (xs ++ ys) ≡ true
  any-appended p xs ys h = ground (arith, any-append p xs ys)

  pub any-own : (p : A → Bool) (xs : List A) (x : A) → p x ≡ true → any p (xs ++ (x ∷ [])) ≡ true
  any-own p xs x h = ground (arith, any-append p xs (x ∷ []), h)

  all-append :
      (p : A → Bool) (xs : List A) (x : A)
      → all p xs ≡ true
      → p x ≡ true
      → all p (xs ++ (x ∷ [])) ≡ true
  all-append p [] x h k = ground (arith, k)
  all-append p (y ∷ ys) x h k = ground (arith, all-append p ys x (ground arith) k)

  -- A row of a fresh id keeps the ids distinct.
  pub distinct-appended :
      (key : A → ℕ) (xs : List A) (x : A)
      → distinct key xs ≡ true
      → ¬ Memᴰ (key x) (map key xs)
      → distinct key (xs ++ (x ∷ [])) ≡ true
  distinct-appended key [] x h fresh = refl
  distinct-appended key (y ∷ ys) x h fresh =
      let later = distinct-appended key ys x (ground arith) (λ m. fresh (Memᴰ.tail m)) in
      let apart : not (key x == key y) ≡ true = elim (Bool-cases (key x == key y)) [
        | inl e ↦ absurd (fresh (Memᴰ.head (ground arith)))
        | inr e ↦ ground arith
      ] in
      ground (arith, later, all-append (λ z. not (key z == key y)) ys x (ground arith) apart)

  pub distinct-filter :
      (key : A → ℕ) (p : A → Bool) (xs : List A)
      → distinct key xs ≡ true
      → distinct key (filter p xs) ≡ true
  distinct-filter key p [] h = refl
  distinct-filter key p (x ∷ xs) h =
      let later = distinct-filter key p xs (ground arith) in
      if-keeps (λ l. distinct key l ≡ true) (p x)
        (λ _. ground (
          arith,
          later,
          mem-all (λ y. not (key y == key x)) (filter p xs)
              (λ a m.
                all-mem (λ y. not (key y == key x)) xs a (ground arith) (mem-filter p xs a m).1),
        ))
        (λ _. later)

  pub any-some : (p : A → Bool) (xs : List A) → any p xs ≡ true → (a : A) × Memᴰ a xs × (p a ≡ true)
  any-some p [] h = cc
  any-some p (x ∷ xs) h = elim (Bool-cases (p x)) [
    | inl t ↦ (x, Memᴰ.head refl, t)
    | inr f ↦ let (a, m, t) = any-some p xs (ground arith) in (a, Memᴰ.tail m, t)
  ]

  -- A row that is not deleted is still found.
  pub any-filter :
      (p keeps : A → Bool) (xs : List A)
      → any p xs ≡ true
      → ((a : A) → p a ≡ true → keeps a ≡ true)
      → any p (filter keeps xs) ≡ true
  any-filter p keeps xs h k =
      let (a, m, t) = any-some p xs h in
      any-mem p (filter keeps xs) a (filter-mem keeps xs a (k a t) m) t

  pub any-none : (p : A → Bool) (xs : List A) (a : A) → any p xs ≡ false → Memᴰ a xs → p a ≡ false
  any-none p xs a h m = elim (Bool-cases (p a)) [
    | inl t ↦ absurd (cc (h, any-mem p xs a m t))
    | inr f ↦ f
  ]

  pub none-any :
      (p : A → Bool) (xs : List A) → ((a : A) → Memᴰ a xs → p a ≡ false) → any p xs ≡ false
  none-any p [] h = refl
  none-any p (x ∷ xs) h =
      ground (arith, h x (Memᴰ.head refl), none-any p xs (λ a m. h a (Memᴰ.tail m)))

  pub find-append :
      (p : A → Bool) (xs ys : List A) → any p xs ≡ true → find p (xs ++ ys) ≡ find p xs
  find-append p [] ys h = cc
  find-append p (x ∷ xs) ys h = elim (Bool-cases (p x)) [
    | inl t ↦ rw t refl
    | inr f ↦ rw f (find-append p xs ys (ground arith))
  ]

  pub find-appended :
      (p : A → Bool) (xs : List A) (x : A)
      → any p xs ≡ false
      → p x ≡ true
      → find p (xs ++ (x ∷ [])) ≡ some x
  find-appended p [] x h t = rw t refl
  find-appended p (y ∷ ys) x h t =
      let f : p y ≡ false = ground arith in rw f (find-appended p ys x (ground arith) t)

  -- A row with a fresh id is none of the old ones.
  pub fresh-any :
      (key : A → ℕ) (xs : List A) (id : ℕ)
      → ¬ Memᴰ id (map key xs)
      → any (λ a. key a == id) xs ≡ false
  fresh-any key [] id h = refl
  fresh-any key (x ∷ xs) id h = elim (Bool-cases (key x == id)) [
    | inl e ↦ absurd (h (Memᴰ.head (ground arith)))
    | inr e ↦ ground (arith, fresh-any key xs id (λ m. h (Memᴰ.tail m)))
  ]

  -- Rows updated in place, with their keys kept.
  pub mem-map :
      (f : A → A) (xs : List A) (b : A) → Memᴰ b (map f xs) → (a : A) × Memᴰ a xs × (b ≡ f a)
  mem-map f [] b m = elim m [ ]
  mem-map f (x ∷ xs) b (Memᴰ.head e) = (x, Memᴰ.head refl, e)
  mem-map f (x ∷ xs) b (Memᴰ.tail m) = let (a, n, e) = mem-map f xs b m in (a, Memᴰ.tail n, e)

  pub any-map :
      (p : A → Bool) (f : A → A) (xs : List A)
      → ((a : A) → p (f a) ≡ p a)
      → any p (map f xs) ≡ any p xs
  any-map p f [] h = refl
  any-map p f (x ∷ xs) h = ground (arith, h x, any-map p f xs h)

  pub distinct-map :
      (key : A → ℕ) (f : A → A) (xs : List A)
      → ((a : A) → key (f a) ≡ key a)
      → distinct key (map f xs) ≡ distinct key xs
  distinct-map key f [] h = refl
  distinct-map key f (x ∷ xs) h = ground (arith, h x, distinct-map key f xs h, apart (key x) xs)
    where
      apart :
          (n : ℕ) (ys : List A)
          → all (λ y. not (key y == n)) (map f ys) ≡ all (λ y. not (key y == n)) ys
      apart n [] = refl
      apart n (y ∷ ys) = ground (arith, h y, apart n ys)

  -- A row that is found is there.
  pub find-any : (p : A → Bool) (xs : List A) → not (is_some (find p xs)) ≡ false → any p xs ≡ true
  find-any p [] h = cc
  find-any p (x ∷ xs) h = elim (Bool-cases (p x)) [
    | inl t ↦ ground (arith, t)
    | inr e ↦ ground (arith, find-any p xs (ground (arith, h, e)))
  ]
