-- ===== src/Examples/Stores.antt =====
-- Examples: the storage of readings.
use neems_core.Rtac.Alarm.Definition.{AlarmDefinition}
use neems_core.Rtac.Storage.Samples.{AreBlocks, any_active, flags_of, take_averaged_lem}
use neems_core.Rtac.Storage.Batches.{IsKept, readings_in, run_storage-IsKept, run_storage-accepted}
use mathlib.Core.List.{Memᴰ}
use neems_core.Rtac.State.{RtacReading, default_state, reading_of_state}
use neems_core.Rtac.Storage.{
  StorageConfig, StorageEvent, flush_tick, new_writer, received, run_storage, storage_reading,
  store_all, take_averaged,
}
use neems_core.Rtac.Worker.Alarms.{after}
use neems_core.Rtac.Alarm.Table.{alarm_definitions}
use neems_core.Rtac.Alarm.Flags.{to_registers, is_alarm_active}
use neems_core.Examples.Instances.{int_float}
use neems_core.Prelude.{
  ℕ, refl, ap, true, false, none, some, List, [], map, arith, length, ◌≡◌, ◌∷◌,
}
use neems_core.Prelude.Int.{ℤ, pos}

abbrev reading : ℕ → RtacReading ℤ ℕ
reading n = record (reading_of_state (default_state (pos 50) n)) { sequence = n }

blocks : AreBlocks (reading 1 ∷ reading 2 ∷ [])
unfolding reading_of_state default_state to_registers
blocks r (Memᴰ.head e) = ap (λ (x : RtacReading ℤ ℕ). length x.alarm_registers) e
blocks r (Memᴰ.tail (Memᴰ.head e)) = ap (λ (x : RtacReading ℤ ℕ). length x.alarm_registers) e
blocks r (Memᴰ.tail (Memᴰ.tail m)) = elim m [ ]

abbrev storage_config : StorageConfig
storage_config = record { max_batch_size = 2 }

abbrev events : List (StorageEvent ℤ ℕ)
events =
    received (reading 1) true
    ∷ received (reading 2) true
    ∷ flush_tick true
    ∷ received (reading 3) true
    ∷ []

run_storage-IsKept_example :
    IsKept int_float (store_all int_float events (new_writer int_float storage_config (some 2)))
    × IsKept int_float
        (run_storage int_float events false (new_writer int_float storage_config (some 2)))
    × (length
          (run_storage int_float events false (new_writer int_float storage_config (some 2))).batch
        ≡ 0)
run_storage-IsKept_example =
    run_storage-IsKept int_float storage_config (some 2) events false (omega arith)

run_storage-accepted_example :
    (run_storage int_float events true (new_writer int_float storage_config none)).accepted
    ≡ map storage_reading (readings_in int_float events)
run_storage-accepted_example =
    run_storage-accepted int_float storage_config events (refl, (refl, (refl, (refl, tt))))

take_averaged_lem_example :
    let (after, result) =
      take_averaged int_float
        (record { readings = reading 1 ∷ reading 2 ∷ []; sample_count = 2 }) in
    (after.readings ≡ [])
    × ((avg : RtacReading ℤ ℕ) × (result ≡ some avg)
        × ((d : AlarmDefinition)
            → Memᴰ d alarm_definitions
            → is_alarm_active (flags_of avg) d ≡ any_active d (reading 1 ∷ reading 2 ∷ [])))
take_averaged_lem_example = take_averaged_lem int_float 2 (reading 1) (reading 2 ∷ []) blocks
