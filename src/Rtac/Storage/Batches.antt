-- ===== src/Rtac/Storage/Batches.antt =====
-- The writer task: what is received is written, held in the batch, or counted as a failed write.
use neems_core.Platform.Float.{Float32}
use neems_core.Rtac.State.{RtacReading}
use neems_core.Rtac.Storage.{
  storage_reading, StorageReading, DataSampler, feed, StorageConfig, new_writer, push_sample,
  run_storage, sample, store_all, StorageEvent, StorageWriter, flush_batch, flush_tick,
  process_reading, received, store_step,
}
use mathlib.Core.List.{append_assoc, append-nil}
use neems_core.Prelude.{
  ℕ, refl, sym, ap, inl, inr, Bool, true, Option, none, some, List, [], map, arith, leb, Bool-cases,
  if-keeps, length, length-append, ◌+◌, ◌<◌, ◌≡◌, ◌∙◌, ◌∷◌, ◌++◌, ◌==◌,
}

module _ (fl : Float32) {T : Type 0} where
  -- The counters of the writer against its batch and what the backend has accepted.
  pub record IsKept (w : StorageWriter fl.F T) : Type 0 where
    pub room : 0 < w.config.max_batch_size
    pub batch_fits : length w.batch < w.config.max_batch_size
    pub written : w.stats.readings_written ≡ length w.accepted

  flush-IsKept :
      (ok : Bool) (w : StorageWriter fl.F T)
      → 0 < w.config.max_batch_size
      → w.stats.readings_written ≡ length w.accepted
      → IsKept (flush_batch fl ok w) × (length (flush_batch fl ok w).batch ≡ 0)
  unfolding flush_batch
  flush-IsKept ok w room e =
      if-keeps {A = StorageWriter fl.F T} (λ v. IsKept v × (length v.batch ≡ 0))
        (length w.batch == 0)
        (λ empty. (record { room = room; batch_fits = ground arith; written = e }, ground arith))
        (λ _.
          if-keeps {A = StorageWriter fl.F T} (λ v. IsKept v × (length v.batch ≡ 0)) ok
            (λ _. (
              record {
                room = room;
                batch_fits = room;
                written = ground (arith, length-append w.accepted w.batch);
              },
              refl,
            ))
            (λ _. (record { room = room; batch_fits = room; written = e }, refl)))

  pushed-same :
      (w : StorageWriter fl.F T) (o : Option (RtacReading fl.F T))
      → ((push_sample fl w o).config ≡ w.config)
        × ((push_sample fl w o).stats ≡ w.stats)
        × ((push_sample fl w o).accepted ≡ w.accepted)
  unfolding push_sample
  pushed-same w none = (refl, refl, refl)
  pushed-same w (some r) = (refl, refl, refl)

  feed-same :
      (r : RtacReading fl.F T) (w : StorageWriter fl.F T) (o : Option (DataSampler fl.F T))
      → ((feed fl r w o).config ≡ w.config)
        × ((feed fl r w o).stats ≡ w.stats)
        × ((feed fl r w o).accepted ≡ w.accepted)
  unfolding feed
  feed-same r w none = pushed-same w (some r)
  feed-same r w (some s) =
      pushed-same (record w { sampler = some ((sample fl r s).0) }) (sample fl r s).1

  process-same :
      (r : RtacReading fl.F T) (w : StorageWriter fl.F T)
      → ((process_reading fl r w).config ≡ w.config)
        × ((process_reading fl r w).stats ≡ w.stats)
        × ((process_reading fl r w).accepted ≡ w.accepted)
  unfolding process_reading
  process-same r w = feed-same r w w.sampler

  step-IsKept :
      (e : StorageEvent fl.F T) (w : StorageWriter fl.F T) → IsKept w → IsKept (store_step fl e w)
  unfolding store_step
  step-IsKept (flush_tick ok) w h = (flush-IsKept ok w h.room h.written).0
  step-IsKept (received r ok) w h =
      let w1 : StorageWriter fl.F T = record w {
        stats = record (w.stats) { readings_received = w.stats.readings_received + 1 };
      } in
      let (same_config, same_stats, same_accepted) = process-same r w1 in
      let room : 0 < (process_reading fl r w1).config.max_batch_size = rw same_config h.room in
      let counted : (process_reading fl r w1).stats.readings_written
          ≡ length (process_reading fl r w1).accepted =
        rw same_stats (rw same_accepted h.written) in
      if-keeps {A = StorageWriter fl.F T} IsKept
        (leb (process_reading fl r w1).config.max_batch_size
          (length (process_reading fl r w1).batch))
        (λ _. (flush-IsKept ok (process_reading fl r w1) room counted).0)
        (λ short. record { room = room; batch_fits = ground arith; written = counted })

  all-IsKept :
      (es : List (StorageEvent fl.F T)) (w : StorageWriter fl.F T)
      → IsKept w
      → IsKept (store_all fl es w)
  unfolding store_all
  all-IsKept [] w h = h
  all-IsKept (e ∷ es) w h = all-IsKept es (store_step fl e w) (step-IsKept e w h)

  -- A writer whose batch size is not 0, sampling or not, whatever the backend answers: between any
  -- two events its batch is shorter than the batch size, and the count of readings written is the
  -- number of readings that the backend accepted. When the channel closes the batch is empty.
  pub run_storage-IsKept :
      (config : StorageConfig) (decimation : Option ℕ) (es : List (StorageEvent fl.F T)) (ok : Bool)
      → 0 < config.max_batch_size
      → IsKept (store_all fl es (new_writer fl config decimation))
        × IsKept (run_storage fl es ok (new_writer fl config decimation))
        × (length (run_storage fl es ok (new_writer fl config decimation)).batch ≡ 0)
  unfolding run_storage
  run_storage-IsKept config decimation es ok room =
      let h =
        all-IsKept es (new_writer fl config decimation)
          (unfold new_writer in record { room = room; batch_fits = room; written = refl }) in
      let (kept, empty) =
        flush-IsKept ok (store_all fl es (new_writer fl config decimation)) h.room h.written in
      (h, kept, empty)

no_elements {ℓ} : {A : Type ℓ} (xs : List A) → length xs ≡ 0 → xs ≡ []
no_elements [] h = refl
no_elements (x ∷ xs) h = ground arith

module _ (fl : Float32) {T : Type 0} where
  -- The readings of the events, in order.
  abbrev pub readings_in : List (StorageEvent fl.F T) → List (RtacReading fl.F T)
  readings_in [] = []
  readings_in (flush_tick ok ∷ es) = readings_in es
  readings_in (received r ok ∷ es) = r ∷ readings_in es

  -- The backend accepts every batch.
  abbrev pub AllAccepted : List (StorageEvent fl.F T) → Type 0
  AllAccepted [] = Unit {0}
  AllAccepted (flush_tick ok ∷ es) = (ok ≡ true) × AllAccepted es
  AllAccepted (received r ok ∷ es) = (ok ≡ true) × AllAccepted es

  held : StorageWriter fl.F T → List (StorageReading fl.F T)
  held w = w.accepted ++ w.batch

  flush-held :
      (w : StorageWriter fl.F T)
      → (held (flush_batch fl true w) ≡ held w)
        × ((flush_batch fl true w).sampler ≡ w.sampler)
        × ((flush_batch fl true w).batch ≡ [])
  unfolding flush_batch held
  flush-held w = elim (Bool-cases (length w.batch == 0)) [
    | inl empty ↦ rw empty (refl, refl, no_elements w.batch (ground arith))
    | inr full ↦ rw full (append-nil (w.accepted ++ w.batch), refl, refl)
  ]

  process-plain :
      (r : RtacReading fl.F T) (w : StorageWriter fl.F T)
      → w.sampler ≡ none
      → (held (process_reading fl r w) ≡ held w ++ storage_reading r ∷ [])
        × ((process_reading fl r w).sampler ≡ none)
  unfolding process_reading feed push_sample held
  process-plain r w plain =
      let pushed = ap (feed fl r w) plain in
      (
        ap held pushed ∙ sym (append_assoc w.accepted w.batch (storage_reading r ∷ [])),
        ap (λ (v : StorageWriter fl.F T). v.sampler) pushed ∙ plain,
      )

  -- What a step with an accepted flush has done with one more reading.
  step-held :
      (r : RtacReading fl.F T) (w : StorageWriter fl.F T)
      → w.sampler ≡ none
      → (held (store_step fl (received r true) w) ≡ held w ++ storage_reading r ∷ [])
        × ((store_step fl (received r true) w).sampler ≡ none)
  unfolding store_step held
  step-held r w plain =
      let w1 : StorageWriter fl.F T = record w {
        stats = record (w.stats) { readings_received = w.stats.readings_received + 1 };
      } in
      let (more, plain1) = process-plain r w1 plain in
      let (same, sampler, empty) = flush-held (process_reading fl r w1) in
      if-keeps {A = StorageWriter fl.F T}
        (λ v. (held v ≡ held w ++ storage_reading r ∷ []) × (v.sampler ≡ none))
        (leb (process_reading fl r w1).config.max_batch_size
          (length (process_reading fl r w1).batch))
        (λ _. (same ∙ more, sampler ∙ plain1)) (λ _. (more, plain1))

  all-held :
      (es : List (StorageEvent fl.F T)) (w : StorageWriter fl.F T)
      → w.sampler ≡ none
      → AllAccepted es
      → (held (store_all fl es w) ≡ held w ++ map storage_reading (readings_in es))
        × ((store_all fl es w).sampler ≡ none)
  unfolding store_all
  all-held [] w plain ok = (sym (append-nil (held w)), plain)
  all-held (flush_tick b ∷ es) w plain ok = rw (ok.0) (
      let (same, sampler, empty) = flush-held w in
      let (rest, plain') = all-held es (flush_batch fl true w) (sampler ∙ plain) ok.1 in
      (rest ∙ ap (λ l. l ++ map storage_reading (readings_in es)) same, plain'))
  all-held (received r b ∷ es) w plain ok = rw (ok.0) (
      let (more, plain1) = step-held r w plain in
      let (rest, plain2) = all-held es (store_step fl (received r true) w) plain1 ok.1 in
      (
        rest
            ∙ ap (λ l. l ++ map storage_reading (readings_in es)) more
            ∙ append_assoc (held w) (storage_reading r ∷ []) (map storage_reading (readings_in es)),
        plain2,
      ))

  -- Without sampling, and with a backend that accepts every batch, the backend has accepted all the
  -- readings received, in order and each once, when the channel closes.
  pub run_storage-accepted :
      (config : StorageConfig) (es : List (StorageEvent fl.F T))
      → AllAccepted es
      → (run_storage fl es true (new_writer fl config none)).accepted
        ≡ map storage_reading (readings_in es)
  unfolding run_storage held new_writer
  run_storage-accepted config es ok =
      let (all_in, plain) = all-held es (new_writer fl config none) refl ok in
      let (same, sampler, empty) = flush-held (store_all fl es (new_writer fl config none)) in
      let last : StorageWriter fl.F T =
        flush_batch fl true (store_all fl es (new_writer fl config none)) in
      sym (append-nil last.accepted) ∙ ap (λ l. last.accepted ++ l) (sym empty) ∙ same ∙ all_in
