-- ===== src/Prelude/Sort.antt =====
-- `sort_by` of the standard library, a stable sort, for an order that may tie.
use mathlib.Core.Path.{◌≡◌, refl, sym, subst, ◌∙◌}
use mathlib.Core.Logic.{◌⊎◌, inl, inr}
use mathlib.Core.Bool.{Bool, true, false}
use mathlib.Core.List.{List, [], ◌∷◌, Memᴰ, Permᴰ}
use mathlib.Core.List.Permᴰ
use native.Mathlib.Omega.{arith}
use neems_core.Prelude.Tests.{if◌then◌else◌, if-keeps, Bool-cases}

module _ {ℓ} {A : Type ℓ} where
  -- Before the first element that it is not after.
  unfoldable pub insert_by : (A → A → Bool) → A → List A → List A
  insert_by le x [] = x ∷ []
  insert_by le x (y ∷ ys) = if le x y then x ∷ y ∷ ys else y ∷ insert_by le x ys

  unfoldable pub sort_by : (A → A → Bool) → List A → List A
  unfolding insert_by
  sort_by le [] = []
  sort_by le (x ∷ xs) = insert_by le x (sort_by le xs)

  -- Every element is in the relation to all that follow it.
  abbrev pub AreSortedBy : (A → A → Type 0) → List A → Type ℓ
  AreSortedBy r [] = Unit {ℓ}
  AreSortedBy r (x ∷ xs) = ((y : A) → Memᴰ y xs → r x y) × AreSortedBy r xs

  mem-if :
      (b : Bool) (xs ys : List A) (z : A) → Memᴰ z (if b then xs else ys) → Memᴰ z xs ⊎ Memᴰ z ys
  mem-if true xs ys z m = inl m
  mem-if false xs ys z m = inr m

  insert_by-mem :
      (le : A → A → Bool) (x : A) (ys : List A) (z : A)
      → Memᴰ z (insert_by le x ys)
      → (z ≡ x) ⊎ Memᴰ z ys
  unfolding insert_by
  insert_by-mem le x [] z (Memᴰ.head e) = inl e
  insert_by-mem le x [] z (Memᴰ.tail m) = elim m [ ]
  insert_by-mem le x (y ∷ ys) z m =
      later (insert_by-mem le x ys z) (mem-if (le x y) (x ∷ y ∷ ys) (y ∷ insert_by le x ys) z m)
    where
      later :
          (Memᴰ z (insert_by le x ys) → (z ≡ x) ⊎ Memᴰ z ys)
          → Memᴰ z (x ∷ y ∷ ys) ⊎ Memᴰ z (y ∷ insert_by le x ys)
          → (z ≡ x) ⊎ Memᴰ z (y ∷ ys)
      later ih (inl (Memᴰ.head e)) = inl e
      later ih (inl (Memᴰ.tail n)) = inr n
      later ih (inr (Memᴰ.head e)) = inr (Memᴰ.head e)
      later ih (inr (Memᴰ.tail n)) = elim (ih n) [ inl e ↦ inl e | inr o ↦ inr (Memᴰ.tail o) ]

  mem-insert_by :
      (le : A → A → Bool) (x : A) (ys : List A) (z : A)
      → (z ≡ x) ⊎ Memᴰ z ys
      → Memᴰ z (insert_by le x ys)
  unfolding insert_by
  mem-insert_by le x [] z (inl e) = Memᴰ.head e
  mem-insert_by le x [] z (inr m) = elim m [ ]
  mem-insert_by le x (y ∷ ys) z (inl e) =
      if-keeps (Memᴰ z) (le x y) (λ _. Memᴰ.head e)
        (λ _. Memᴰ.tail (mem-insert_by le x ys z (inl e)))
  mem-insert_by le x (y ∷ ys) z (inr (Memᴰ.head e)) =
      if-keeps (Memᴰ z) (le x y) (λ _. Memᴰ.tail (Memᴰ.head e)) (λ _. Memᴰ.head e)
  mem-insert_by le x (y ∷ ys) z (inr (Memᴰ.tail m)) =
      if-keeps (Memᴰ z) (le x y) (λ _. Memᴰ.tail (Memᴰ.tail m))
        (λ _. Memᴰ.tail (mem-insert_by le x ys z (inr m)))

  -- The sort has the elements of the list and no others.
  pub sort_by-mem : (le : A → A → Bool) (xs : List A) (z : A) → Memᴰ z (sort_by le xs) → Memᴰ z xs
  unfolding sort_by
  sort_by-mem le [] z m = m
  sort_by-mem le (x ∷ xs) z m = elim (insert_by-mem le x (sort_by le xs) z m) [
    | inl e ↦ Memᴰ.head e
    | inr n ↦ Memᴰ.tail (sort_by-mem le xs z n)
  ]

  pub mem-sort_by : (le : A → A → Bool) (xs : List A) (z : A) → Memᴰ z xs → Memᴰ z (sort_by le xs)
  unfolding sort_by
  mem-sort_by le [] z m = m
  mem-sort_by le (x ∷ xs) z (Memᴰ.head e) = mem-insert_by le x (sort_by le xs) z (inl e)
  mem-sort_by le (x ∷ xs) z (Memᴰ.tail m) =
      mem-insert_by le x (sort_by le xs) z (inr (mem-sort_by le xs z m))

  -- In order, and elements that tie are in the order of `r`.
  abbrev pub Lex : (A → A → Bool) → (A → A → Type 0) → A → A → Type 0
  Lex le r x y = (le x y ≡ true) × (le y x ≡ true → r x y)

  -- What a comparison needs to sort.
  pub record IsOrder (le : A → A → Bool) : Type ℓ where
    pub total : (x y : A) → le x y ≡ false → le y x ≡ true
    pub transitive : (x y z : A) → le x y ≡ true → le y z ≡ true → le x z ≡ true

  insert_by-AreSorted :
      (le : A → A → Bool) (r : A → A → Type 0) (x : A) (ys : List A)
      → IsOrder le
      → ((y : A) → Memᴰ y ys → r x y)
      → AreSortedBy (Lex le r) ys
      → AreSortedBy (Lex le r) (insert_by le x ys)
  unfolding insert_by
  insert_by-AreSorted le r x [] o first s = ((λ y m. elim m [ ]), tt)
  insert_by-AreSorted le r x (y ∷ ys) o first s =
      if-keeps (AreSortedBy (Lex le r)) (le x y) (λ ahead. (before ahead, s))
        (λ behind.
          (after behind, insert_by-AreSorted le r x ys o (λ z m. first z (Memᴰ.tail m)) s.1))
    where
      before : le x y ≡ true → (z : A) → Memᴰ z (y ∷ ys) → Lex le r x z
      before ahead z (Memᴰ.head e) =
          (subst (λ w. le x w ≡ true) (sym e) ahead, λ _. first z (Memᴰ.head e))
      before ahead z (Memᴰ.tail m) =
          (o.transitive x y z ahead (s.0 z m).0, λ _. first z (Memᴰ.tail m))

      after : le x y ≡ false → (z : A) → Memᴰ z (insert_by le x ys) → Lex le r y z
      after behind z m = elim (insert_by-mem le x ys z m) [
        | inl e ↦ subst (Lex le r y) (sym e) (o.total x y behind, λ h. absurd (ground arith))
        | inr n ↦ s.0 z n
      ]

  -- The sort is in order, and leaves the elements that tie in the order that they had.
  pub sort_by-AreSorted :
      (le : A → A → Bool) (r : A → A → Type 0) (xs : List A)
      → IsOrder le
      → AreSortedBy r xs
      → AreSortedBy (Lex le r) (sort_by le xs)
  unfolding sort_by
  sort_by-AreSorted le r [] o s = tt
  sort_by-AreSorted le r (x ∷ xs) o s =
      insert_by-AreSorted le r x (sort_by le xs) o (λ y m. s.0 y (sort_by-mem le xs y m))
        (sort_by-AreSorted le r xs o s.1)

  insert_by-perm : (le : A → A → Bool) (x : A) (ys : List A) → Permᴰ (insert_by le x ys) (x ∷ ys)
  unfolding insert_by
  insert_by-perm le x [] = Permᴰ.refl _
  insert_by-perm le x (y ∷ ys) =
      if-keeps (λ l. Permᴰ l (x ∷ y ∷ ys)) (le x y) (λ _. Permᴰ.refl _)
        (λ _. Permᴰ.trans (Permᴰ.cons refl (insert_by-perm le x ys)) (Permᴰ.swap refl refl))

  -- The sort is a rearrangement of the list.
  pub sort_by-perm : (le : A → A → Bool) (xs : List A) → Permᴰ (sort_by le xs) xs
  unfolding sort_by
  sort_by-perm le [] = Permᴰ.nil
  sort_by-perm le (x ∷ xs) =
      Permᴰ.trans (insert_by-perm le x (sort_by le xs)) (Permᴰ.cons refl (sort_by-perm le xs))

  unrelated : (xs : List A) → AreSortedBy (λ x y. Unit {0}) xs
  unrelated [] = tt
  unrelated (x ∷ xs) = (λ y m. tt, unrelated xs)

  -- The sort is in order.
  pub sort_by-ordered :
      (le : A → A → Bool) (xs : List A)
      → IsOrder le
      → AreSortedBy (Lex le (λ x y. Unit {0})) (sort_by le xs)
  sort_by-ordered le xs o = sort_by-AreSorted le (λ x y. Unit {0}) xs o (unrelated xs)

  -- The first of the sort is an element of the list, and no other comes before it.
  pub sort_by-first :
      (le : A → A → Bool) (xs : List A) (m : A) (rest : List A)
      → IsOrder le
      → sort_by le xs ≡ m ∷ rest
      → Memᴰ m xs × ((y : A) → Memᴰ y xs → le m y ≡ true)
  sort_by-first le xs m rest o e =
      (sort_by-mem le xs m (subst (Memᴰ m) (sym e) (Memᴰ.head refl)), least)
    where
      sorted : AreSortedBy (Lex le (λ x y. Unit {0})) (m ∷ rest)
      sorted = subst (AreSortedBy (Lex le (λ x y. Unit {0}))) e (sort_by-ordered le xs o)

      own : le m m ≡ true
      own = elim (Bool-cases (le m m)) [ inl t ↦ t | inr f ↦ o.total m m f ]

      least : (y : A) → Memᴰ y xs → le m y ≡ true
      least y n = elim (subst (Memᴰ y) e (mem-sort_by le xs y n)) [
        | Memᴰ.head p ↦ subst (λ z. le m z ≡ true) (sym p) own
        | Memᴰ.tail k ↦ (sorted.0 y k).0
      ]

  -- An empty sort is that of an empty list.
  pub sort_by-empty : (le : A → A → Bool) (xs : List A) (y : A) → sort_by le xs ≡ [] → ¬ Memᴰ y xs
  sort_by-empty le xs y e m = elim (subst (Memᴰ y) e (mem-sort_by le xs y m)) [ ]

  perm-mem : {xs ys : List A} → Permᴰ xs ys → (y : A) → Memᴰ y ys → Memᴰ y xs
  perm-mem Permᴰ.nil y m = m
  perm-mem (Permᴰ.cons e p) y (Memᴰ.head h) = Memᴰ.head (h ∙ sym e)
  perm-mem (Permᴰ.cons e p) y (Memᴰ.tail m) = Memᴰ.tail (perm-mem p y m)
  perm-mem (Permᴰ.swap e e') y (Memᴰ.head h) = Memᴰ.tail (Memᴰ.head (h ∙ sym e'))
  perm-mem (Permᴰ.swap e e') y (Memᴰ.tail (Memᴰ.head h)) = Memᴰ.head (h ∙ sym e)
  perm-mem (Permᴰ.swap e e') y (Memᴰ.tail (Memᴰ.tail m)) = Memᴰ.tail (Memᴰ.tail m)
  perm-mem (Permᴰ.trans p q) y m = perm-mem p y (perm-mem q y m)

  -- A relation between all pairs survives a rearrangement, if it is symmetric.
  pub AreSortedBy-perm :
      (r : A → A → Type 0) {xs ys : List A}
      → ((x y : A) → r x y → r y x)
      → Permᴰ xs ys
      → AreSortedBy r xs
      → AreSortedBy r ys
  AreSortedBy-perm r flip Permᴰ.nil s = s
  AreSortedBy-perm r flip (Permᴰ.cons e p) s =
      ((λ y m. subst (λ x. r x y) e (s.0 y (perm-mem p y m))), AreSortedBy-perm r flip p s.1)
  AreSortedBy-perm r flip (Permᴰ.swap {a} {b} {a'} {b'} {l} e e') s = (
    (λ y m. elim m [
      | Memᴰ.head h ↦
          subst (r a') (e ∙ sym h) (subst (λ x. r x a) e' (flip a b (s.0 b (Memᴰ.head refl))))
      | Memᴰ.tail n ↦ subst (λ x. r x y) e' (s.1.0 y n)
    ]),
    ((λ y m. subst (λ x. r x y) e (s.0 y (Memᴰ.tail m))), s.1.1),
  )
  AreSortedBy-perm r flip (Permᴰ.trans p q) s =
      AreSortedBy-perm r flip q (AreSortedBy-perm r flip p s)
