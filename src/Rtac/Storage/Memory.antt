-- ===== src/Rtac/Storage/Memory.antt =====
-- The in-memory store keeps the latest readings.
use mathlib.Core.List.{append-nil, append_assoc}
use neems_core.Rtac.Storage.{push_reading, write_batch}
use neems_core.Prelude.{
  ℕ, suc, refl, sym, ap, inl, inr, true, List, [], arith, leb, Bool-cases, length, drop,
  length-append, length-drop, drop-append, drop_one-drop, ◌-◌, ◌<◌, ◌≡◌, ◌∙◌, ◌∷◌, ◌++◌,
}

module _ {A : Type 0} where
  latest_of : ℕ → List A → List A
  latest_of m xs = drop (length xs - m) xs

  push_reading-latest_of :
      (m : ℕ) (xs : List A) (a : A)
      → 0 < m
      → push_reading m (latest_of m xs) a ≡ latest_of m (xs ++ a ∷ [])
  unfolding push_reading latest_of
  push_reading-latest_of m xs a h =
      let total = length-append xs (a ∷ []) in
      elim (Bool-cases (leb m (length xs))) [
        | inl full ↦
            let held : leb m (length (drop (length xs - m) xs)) ≡ true =
              ground (arith, length-drop (length xs - m) xs) in
            let index : length (xs ++ a ∷ []) - m ≡ suc (length xs - m) = ground arith in
            rw held (
              rw index (
                ap (λ l. l ++ a ∷ []) (drop_one-drop (length xs - m) xs)
                ∙ sym (drop-append (suc (length xs - m)) xs (a ∷ []) (ground arith))))
        | inr free ↦
            let whole : length xs - m ≡ 0 = ground arith in
            let index : length (xs ++ a ∷ []) - m ≡ 0 = ground arith in
            rw whole (rw index (rw free refl))
      ]

  write_batch-latest_of :
      (m : ℕ) (xs batch : List A)
      → 0 < m
      → write_batch m (latest_of m xs) batch ≡ latest_of m (xs ++ batch)
  unfolding write_batch
  write_batch-latest_of m xs [] h = ap (latest_of m) (sym (append-nil xs))
  write_batch-latest_of m xs (r ∷ batch) h =
      ap (λ stored. write_batch m stored batch) (push_reading-latest_of m xs r h)
      ∙ write_batch-latest_of m (xs ++ r ∷ []) batch h
      ∙ ap (latest_of m) (append_assoc xs (r ∷ []) batch)

  -- A store with room for `m` readings, `m` not 0, that was empty at first holds the last `m`
  -- readings of the two batches written to it, in order.
  pub write_batch-write_batch :
      (m : ℕ) (old new : List A)
      → 0 < m
      → write_batch m (write_batch m [] old) new ≡ drop (length (old ++ new) - m) (old ++ new)
  unfolding latest_of
  write_batch-write_batch m old new h =
      let none_yet : 0 - m ≡ 0 = omega arith in
      let empty : drop (0 - m) [] ≡ [] = ap (λ n. drop n []) none_yet in
      ap (λ stored. write_batch m (write_batch m stored old) new) (sym empty)
      ∙ ap (λ stored. write_batch m stored new) (write_batch-latest_of m [] old h)
      ∙ write_batch-latest_of m old new h
