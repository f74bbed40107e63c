-- ===== src/Prelude/Collect.antt =====
-- `Option` as a monad, and the list functions that keep what a partial function returns.
use mathlib.Core.Path.{◌≡◌, refl, sym, ap, subst, ◌∙◌}
use mathlib.Core.Option.{Option, none, some}
use mathlib.Core.Logic.{◌⊎◌, inl, inr}
use mathlib.Core.Bool.{Bool}
use mathlib.Core.List.{List, [], ◌∷◌, ◌++◌, Memᴰ}
use neems_core.Prelude.Tests.{Bool-cases}
use neems_core.Prelude.Lists.{filter}

infixl 5 ◌>>=◌
abbrev pub ◌>>=◌ {ℓ κ} : {A : Type ℓ} {B : Type κ} → Option A → (A → Option B) → Option B
none >>= f = none
some a >>= f = f a

pub >>=-some {ℓ κ} :
    {A : Type ℓ} {B : Type κ} (m : Option A) (f : A → Option B) (b : B)
    → (m >>= f) ≡ some b
    → (a : A) × (m ≡ some a) × (f a ≡ some b)
>>=-some none f b h = cc
>>=-some (some a) f b h = (a, refl, h)

abbrev pub keep {ℓ} : {A : Type ℓ} → Option A → List A → List A
keep none ys = ys
keep (some b) ys = b ∷ ys

pub keep-mem {ℓ} :
    {A : Type ℓ} (o : Option A) (ys : List A) (b : A)
    → Memᴰ b (keep o ys)
    → (o ≡ some b) ⊎ Memᴰ b ys
keep-mem none ys b m = inr m
keep-mem (some c) ys b (Memᴰ.head e) = inl (ap some (sym e))
keep-mem (some c) ys b (Memᴰ.tail m) = inr m

mem-keep {ℓ} : {A : Type ℓ} (o : Option A) (ys : List A) (b : A) → Memᴰ b ys → Memᴰ b (keep o ys)
mem-keep none ys b m = m
mem-keep (some c) ys b m = Memᴰ.tail m

keep-append {ℓ} : {A : Type ℓ} (o : Option A) (xs ys : List A) → keep o (xs ++ ys) ≡ keep o xs ++ ys
keep-append none xs ys = refl
keep-append (some a) xs ys = refl

pub filter-append {ℓ} :
    {A : Type ℓ} (p : A → Bool) (xs ys : List A) → filter p (xs ++ ys) ≡ filter p xs ++ filter p ys
filter-append p [] ys = refl
filter-append p (x ∷ xs) ys = elim (Bool-cases (p x)) [
  | inl t ↦ rw (t, filter-append p xs ys) refl
  | inr f ↦ rw (f, filter-append p xs ys) refl
]

module _ {ℓ κ} {A : Type ℓ} {B : Type κ} where
  -- `filter_map` of an iterator.
  abbrev pub filter_map : (A → Option B) → List A → List B
  filter_map f [] = []
  filter_map f (x ∷ xs) = keep (f x) (filter_map f xs)

  pub filter_map-mem :
      (f : A → Option B) (xs : List A) (b : B)
      → Memᴰ b (filter_map f xs)
      → (a : A) × Memᴰ a xs × (f a ≡ some b)
  filter_map-mem f [] b m = elim m [ ]
  filter_map-mem f (x ∷ xs) b m = elim (keep-mem (f x) (filter_map f xs) b m) [
    | inl e ↦ (x, Memᴰ.head refl, e)
    | inr n ↦ let (a, k, e) = filter_map-mem f xs b n in (a, Memᴰ.tail k, e)
  ]

  pub mem-filter_map :
      (f : A → Option B) (xs : List A) (a : A) (b : B)
      → Memᴰ a xs
      → f a ≡ some b
      → Memᴰ b (filter_map f xs)
  mem-filter_map f [] a b m h = elim m [ ]
  mem-filter_map f (x ∷ xs) a b (Memᴰ.head e) h =
      subst (λ o. Memᴰ b (keep o (filter_map f xs))) (sym (ap f (sym e) ∙ h)) (Memᴰ.head refl)
  mem-filter_map f (x ∷ xs) a b (Memᴰ.tail m) h =
      mem-keep (f x) (filter_map f xs) b (mem-filter_map f xs a b m h)

  -- `map` then `collect` into an `Option`: none as soon as one element has none.
  abbrev pub collect : (A → Option B) → List A → Option (List B)
  collect f [] = some []
  collect f (x ∷ xs) = f x >>= λ b. collect f xs >>= λ bs. some (b ∷ bs)

  pub filter_map-append :
      (f : A → Option B) (xs ys : List A)
      → filter_map f (xs ++ ys) ≡ filter_map f xs ++ filter_map f ys
  filter_map-append f [] ys = refl
  filter_map-append f (x ∷ xs) ys =
      rw (filter_map-append f xs ys) (keep-append (f x) (filter_map f xs) (filter_map f ys))

  pub filter_map-agree :
      (f g : A → Option B) (xs : List A)
      → ((a : A) → Memᴰ a xs → f a ≡ g a)
      → filter_map f xs ≡ filter_map g xs
  filter_map-agree f g [] h = refl
  filter_map-agree f g (x ∷ xs) h =
      rw (h x (Memᴰ.head refl), filter_map-agree f g xs (λ a m. h a (Memᴰ.tail m))) refl
