-- ===== src/Rtac/Storage.antt =====
-- neems-data/src/rtac/storage.rs: sampling, batching and storing the readings.
-- A stored reading keeps the reading itself where the source builds JSON from it. A sum of floats
-- starts from 0. The database backend is a parameter: whether it accepts a batch.
pub mod Memory
pub mod Batches
pub mod Samples
use mathlib.Core.Option
use neems_core.Rtac.Protocol.{OperatingMode, standby, charging, discharging, trickle_charge}
use neems_core.Rtac.Alarm.Flags.{AlarmFlags, bitwise_or, from_registers, no_flags, to_registers}
use neems_core.Platform.Float.{Float32}
use neems_core.Rtac.State.{RtacReading}
use neems_core.Rtac.Registers.{lit}
use neems_core.Prelude.{
  ℕ, Bool, Option, none, some, List, [], map, leb, length, drop, ◌+◌, ◌∷◌, ◌++◌, ◌==◌,
  if◌then◌else◌,
}

pub record StorageConfig : Type 0 where
  pub max_batch_size : ℕ

pub record StorageStats : Type 0 where
  pub readings_received : ℕ
  pub readings_written : ℕ
  pub batch_writes : ℕ
  pub failed_writes : ℕ

-- The texts of `soc_state_from_mode`.
pub data SocState : Type 0 where
  soc_charging soc_discharging soc_hold : SocState

unfoldable pub soc_state_from_mode : OperatingMode → SocState
soc_state_from_mode charging = soc_charging
soc_state_from_mode trickle_charge = soc_charging
soc_state_from_mode discharging = soc_discharging
soc_state_from_mode _ = soc_hold

pub record StorageReading (F T : Type 0) : Type 0 where
  pub timestamp : T
  pub level : F
  pub soc_state : SocState
  pub data_of : RtacReading F T

unfoldable pub storage_reading : {F T : Type 0} → RtacReading F T → StorageReading F T
unfolding soc_state_from_mode
storage_reading r = record {
  timestamp = r.timestamp;
  level = r.soc_percent;
  soc_state = soc_state_from_mode r.mode;
  data_of = r;
}

module _ {A : Type 0} where
  -- `InMemoryStorage::write_batch`, one reading and then the loop.
  unfoldable pub push_reading : ℕ → List A → A → List A
  push_reading max_readings stored r =
      if leb max_readings (length stored) then drop 1 stored ++ r ∷ [] else stored ++ r ∷ []

  unfoldable pub write_batch : ℕ → List A → List A → List A
  unfolding push_reading
  write_batch max_readings stored [] = stored
  write_batch max_readings stored (r ∷ batch) =
      write_batch max_readings (push_reading max_readings stored r) batch

pub record DataSampler (F T : Type 0) : Type 0 where
  pub readings : List (RtacReading F T)
  pub sample_count : ℕ

-- `fold` of `|=` over the registers of the readings.
unfoldable pub or_all : {F T : Type 0} → AlarmFlags → List (RtacReading F T) → AlarmFlags
or_all acc [] = acc
or_all acc (r ∷ rs) = or_all (bitwise_or acc (from_registers r.alarm_registers)) rs

-- `last()`, with `r` for the reading before the rest.
unfoldable pub last_of : {A : Type 0} → A → List A → A
last_of r [] = r
last_of r (s ∷ rs) = last_of s rs

unfoldable pub sum : (fl : Float32) → fl.F → List fl.F → fl.F
sum fl acc [] = acc
sum fl acc (x ∷ xs) = sum fl (fl.add acc x) xs

module _ (fl : Float32) {T : Type 0} where
  unfoldable pub average : (RtacReading fl.F T → fl.F) → List (RtacReading fl.F T) → fl.F
  unfolding sum
  average field rs = fl.div (sum fl (lit fl 0) (map field rs)) (lit fl (length rs))

  -- The reading that `take_averaged` makes of one reading and the rest.
  unfoldable pub averaged : RtacReading fl.F T → List (RtacReading fl.F T) → RtacReading fl.F T
  averaged r rs = record {
    timestamp = (last_of r rs).timestamp;
    soc_percent = average (λ s. s.soc_percent) (r ∷ rs);
    power_kw = average (λ s. s.power_kw) (r ∷ rs);
    mode = (last_of r rs).mode;
    voltage_v = average (λ s. s.voltage_v) (r ∷ rs);
    current_a = average (λ s. s.current_a) (r ∷ rs);
    temperature_c = average (λ s. s.temperature_c) (r ∷ rs);
    grid_frequency_hz = average (λ s. s.grid_frequency_hz) (r ∷ rs);
    alarm_registers = to_registers (or_all no_flags (r ∷ rs));
    sequence = (last_of r rs).sequence;
  }

  unfoldable pub take_averaged :
      DataSampler fl.F T → DataSampler fl.F T × Option (RtacReading fl.F T)
  take_averaged s = elim s.readings [
    | [] ↦ (s, none)
    | r ∷ rs ↦ (record s { readings = [] }, some (averaged r rs))
  ]

-- The writer task, with the readings that its backend has accepted.
pub record StorageWriter (F T : Type 0) : Type 0 where
  pub config : StorageConfig
  pub batch : List (StorageReading F T)
  pub stats : StorageStats
  pub sampler : Option (DataSampler F T)
  pub accepted : List (StorageReading F T)

abbrev pub no_storage_stats : StorageStats
no_storage_stats = record {
  readings_received = 0;
  readings_written = 0;
  batch_writes = 0;
  failed_writes = 0;
}

-- What the `select!` of `run` takes up, with what the backend answers to a flush.
pub data StorageEvent (F T : Type 0) : Type 0 where
  flush_tick : Bool → StorageEvent F T
  received : RtacReading F T → Bool → StorageEvent F T

module _ (fl : Float32) {T : Type 0} where
  unfoldable pub new_writer : StorageConfig → Option ℕ → StorageWriter fl.F T
  new_writer config decimation = record {
    config = config;
    batch = [];
    stats = no_storage_stats;
    sampler = Option.map (λ n. record { readings = []; sample_count = n }) decimation;
    accepted = [];
  }

  unfoldable pub flush_batch : Bool → StorageWriter fl.F T → StorageWriter fl.F T
  flush_batch ok w =
      if length w.batch == 0
      then w
      else if ok
      then record w {
        batch = [];
        accepted = w.accepted ++ w.batch;
        stats = record (w.stats) {
          readings_written = w.stats.readings_written + length w.batch;
          batch_writes = w.stats.batch_writes + 1;
        };
      }
      else record w {
        batch = [];
        stats = record (w.stats) { failed_writes = w.stats.failed_writes + 1 };
      }

  -- The sampler after `add`, and what goes into the batch.
  unfoldable pub sample :
      RtacReading fl.F T → DataSampler fl.F T → DataSampler fl.F T × Option (RtacReading fl.F T)
  unfolding take_averaged
  sample r s =
      let added = record s { readings = s.readings ++ r ∷ [] } in
      if leb added.sample_count (length added.readings)
      then take_averaged fl added
      else (added, none)

  unfoldable pub push_sample :
      StorageWriter fl.F T → Option (RtacReading fl.F T) → StorageWriter fl.F T
  push_sample w none = w
  push_sample w (some r) = record w { batch = w.batch ++ storage_reading r ∷ [] }

  unfoldable pub feed :
      RtacReading fl.F T → StorageWriter fl.F T → Option (DataSampler fl.F T) → StorageWriter fl.F T
  unfolding sample push_sample
  feed r w none = push_sample w (some r)
  feed r w (some s) = push_sample (record w { sampler = some ((sample r s).0) }) (sample r s).1

  unfoldable pub process_reading : RtacReading fl.F T → StorageWriter fl.F T → StorageWriter fl.F T
  unfolding feed
  process_reading r w = feed r w w.sampler

  unfoldable pub store_step : StorageEvent fl.F T → StorageWriter fl.F T → StorageWriter fl.F T
  unfolding flush_batch process_reading
  store_step (flush_tick ok) w = flush_batch ok w
  store_step (received r ok) w =
      let w' = process_reading r (record w {
        stats = record (w.stats) { readings_received = w.stats.readings_received + 1 };
      }) in
      if leb w'.config.max_batch_size (length w'.batch) then flush_batch ok w' else w'

  -- The loop until the channel closes, and the last flush with its answer.
  unfoldable pub store_all :
      List (StorageEvent fl.F T) → StorageWriter fl.F T → StorageWriter fl.F T
  unfolding store_step
  store_all [] w = w
  store_all (e ∷ es) w = store_all es (store_step e w)

  unfoldable pub run_storage :
      List (StorageEvent fl.F T) → Bool → StorageWriter fl.F T → StorageWriter fl.F T
  unfolding store_all
  run_storage es ok w = flush_batch ok (store_all es w)
