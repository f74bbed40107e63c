-- ===== src/Schedules/Library/Valid.antt =====
-- neems-api/src/orm/schedule_library.rs: what `validate_execution_offsets` accepts.
use mathlib.Core.List.Permᴰ
use neems_core.Schedules.Db.{>>=-ok, fail_if, fail_if-ok, invalid_data, ok}
use neems_core.Prelude.Sort.{
  AreSortedBy-perm, sort_by, sort_by-ordered, sort_by-perm, AreSortedBy, IsOrder, Lex,
}
use neems_core.Schedules.Model.{CreateCommandRequest}
use mathlib.Core.List.{Memᴰ}
use neems_core.Schedules.Library.{has_equal_window, validate_execution_offsets}
use mathlib.Core.Path.{subst}
use neems_core.Prelude.Rows.{any-none, none-any}
use neems_core.Prelude.{
  refl, sym, inl, inr, Bool, true, false, List, [], map, arith, Bool-cases, any, ◌≡◌, ◌∙◌, ◌≢◌, ◌↔◌,
  ◌||◌, ◌∷◌,
}
use neems_core.Prelude.Int.{ℤ, pos, negsuc, ltb_ℤ, leb_ℤ, eqb_ℤ, eqb_ℤ→≡}

abbrev pub offset : CreateCommandRequest → ℤ
offset c = c.execution_offset_seconds

abbrev pub is_outside : CreateCommandRequest → Bool
is_outside c =
    ltb_ℤ c.execution_offset_seconds (pos 0) || leb_ℤ (pos 86400) c.execution_offset_seconds

leb_ℤ-IsOrder : IsOrder leb_ℤ
leb_ℤ-IsOrder = record { total = λ x y h. ground arith; transitive = λ x y z h k. ground arith }

leb_ℤ-antisym : (x y : ℤ) → leb_ℤ x y ≡ true → leb_ℤ y x ≡ true → x ≡ y
leb_ℤ-antisym (pos a) (pos b) h k = ground arith
leb_ℤ-antisym (negsuc a) (negsuc b) h k = ground arith
leb_ℤ-antisym (pos a) (negsuc b) h k = ground arith
leb_ℤ-antisym (negsuc a) (pos b) h k = ground arith

eqb_ℤ-refl : (x : ℤ) → eqb_ℤ x x ≡ true
eqb_ℤ-refl (pos a) = ground arith
eqb_ℤ-refl (negsuc a) = ground arith

-- In an ordered list without equal neighbours, all values differ.
has_equal_window-differ :
    (xs : List ℤ)
    → AreSortedBy (Lex leb_ℤ (λ x y. Unit {0})) xs
    → has_equal_window xs ≡ false
    → AreSortedBy (λ x y. x ≢ y) xs
unfolding has_equal_window
has_equal_window-differ [] s h = tt
has_equal_window-differ (x ∷ []) s h = ((λ y m. elim m [ ]), tt)
has_equal_window-differ (x ∷ y ∷ rest) s h =
    let later = has_equal_window-differ (y ∷ rest) s.1 (ground (arith, h)) in
    let unequal : eqb_ℤ x y ≡ false = ground (arith, h) in
    let apart : x ≢ y = λ e. cc (subst (λ z. eqb_ℤ x z ≡ true) e (eqb_ℤ-refl x), unequal) in
    (
      (λ z m. elim m [
        | Memᴰ.head e ↦ λ k. apart (k ∙ e)
        | Memᴰ.tail n ↦ λ k. apart (
            leb_ℤ-antisym x y (s.0 y (Memᴰ.head refl)).0
              (subst (λ v. leb_ℤ y v ≡ true) (sym k) (s.1.0 z n).0))
      ]),
      later,
    )

differ-has_equal_window :
    (xs : List ℤ) → AreSortedBy (λ x y. x ≢ y) xs → has_equal_window xs ≡ false
unfolding has_equal_window
differ-has_equal_window [] s = refl
differ-has_equal_window (x ∷ []) s = refl
differ-has_equal_window (x ∷ y ∷ rest) s =
    let apart : eqb_ℤ x y ≡ false = elim (Bool-cases (eqb_ℤ x y)) [
      | inl t ↦ absurd (s.0 y (Memᴰ.head refl) (eqb_ℤ→≡ x y t))
      | inr f ↦ f
    ] in
    ground (arith, apart, differ-has_equal_window (y ∷ rest) s.1)

-- The validation of a schedule accepts its commands exactly when no offset lies outside the day,
-- of 86400 seconds from 0, and any two commands have different offsets.
pub validate_execution_offsets_iff :
    (commands : List CreateCommandRequest)
    → (validate_execution_offsets commands ≡ ok tt) ↔ (
        ((c : CreateCommandRequest) → Memᴰ c commands → is_outside c ≡ false)
        × AreSortedBy (λ x y. x ≢ y) (map offset commands))
unfolding validate_execution_offsets
validate_execution_offsets_iff commands = (accepted, accepts)
  where
    offsets : List ℤ
    offsets = map offset commands

    accepted :
        validate_execution_offsets commands ≡ ok tt
        → ((c : CreateCommandRequest) → Memᴰ c commands → is_outside c ≡ false)
          × AreSortedBy (λ x y. x ≢ y) offsets
    accepted h =
        let (u, within, windows) = >>=-ok (fail_if (any is_outside commands) invalid_data) _ tt h in
        (
          (λ c m.
              any-none is_outside commands c
                (fail_if-ok (any is_outside commands) invalid_data u within) m),
          AreSortedBy-perm (λ x y. x ≢ y) (λ x y n e. n (sym e)) (sort_by-perm leb_ℤ offsets)
              (has_equal_window-differ (sort_by leb_ℤ offsets)
                (sort_by-ordered leb_ℤ offsets leb_ℤ-IsOrder)
                (fail_if-ok (has_equal_window (sort_by leb_ℤ offsets)) invalid_data tt windows)),
        )

    accepts :
        ((c : CreateCommandRequest) → Memᴰ c commands → is_outside c ≡ false)
          × AreSortedBy (λ x y. x ≢ y) offsets
        → validate_execution_offsets commands ≡ ok tt
    accepts (within, differ) =
        rw
          (
            none-any is_outside commands within,
            differ-has_equal_window (sort_by leb_ℤ offsets) (
                AreSortedBy-perm (λ x y. x ≢ y) (λ x y n e. n (sym e))
                  (Permᴰ.symm (sort_by-perm leb_ℤ offsets)) differ),
          )
          refl
