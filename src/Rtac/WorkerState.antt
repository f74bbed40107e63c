-- ===== src/Rtac/WorkerState.antt =====
-- neems-data/src/rtac/worker.rs: the state of the worker, its channels and what it is told.
-- The change of each alarm between two sets of flags is here too.
use neems_core.Rtac.History.{Alarm, alarm_cleared, alarm_new}
use neems_core.Rtac.Alarm.Definition.{AlarmDefinition}
use neems_core.Rtac.Alarm.Flags.{AlarmFlags, is_alarm_active}
use neems_core.Rtac.Client.{ConnectOutcome, ModbusClient, ReadOutcome, WriteOutcome}
use neems_core.Rtac.State.{PendingCommand, RtacReading, RtacState}
use neems_core.Prelude.{
  ℕ, Bool, true, false, not, Option, List, [], ◌%◌, ◌&&◌, ◌∷◌, ◌++◌, ◌==◌, if◌then◌else◌,
}

pub data ShutdownReason : Type 0 where
  requested storage_channel_closed alarm_channel_closed : ShutdownReason

pub record RtacConfig : Type 0 where
  pub write_every_n_ticks : ℕ
  pub storage_sample_rate : ℕ

pub record WorkerStats : Type 0 where
  pub total_reads : ℕ
  pub successful_reads : ℕ
  pub failed_reads : ℕ
  pub total_writes : ℕ
  pub successful_writes : ℕ
  pub failed_writes : ℕ
  pub reconnect_attempts : ℕ

abbrev pub no_stats : WorkerStats
no_stats = record {
  total_reads = 0;
  successful_reads = 0;
  failed_reads = 0;
  total_writes = 0;
  successful_writes = 0;
  failed_writes = 0;
  reconnect_attempts = 0;
}

-- `Sender::send` on a channel that is open or closed.
abbrev pub send {ℓ} : {A : Type ℓ} → Bool → List A → A → List A
send true sent x = sent ++ x ∷ []
send false sent x = sent

-- `n.is_multiple_of(k)`; by `% 0` leaving `n` as it is, 0 alone is a multiple of 0.
abbrev pub is_multiple_of : ℕ → ℕ → Bool
is_multiple_of n k = n % k == 0

-- What the world answers during one tick.
pub record TickInput (T : Type 0) : Type 0 where
  pub now : T
  pub read : ReadOutcome
  pub write : WriteOutcome
  pub net : ℕ → ConnectOutcome

-- The alarm that the loop of `check_alarms` sends for one row of the table.
unfoldable pub alarm_change :
    {T : Type 0} → AlarmFlags → AlarmFlags → T → AlarmDefinition → List (Alarm T)
alarm_change old new now def =
    let was_active = is_alarm_active old def in
    let is_active' = is_alarm_active new def in
    if not was_active && is_active'
    then alarm_new def now ∷ []
    else if was_active && not is_active'
    then alarm_cleared def now ∷ []
    else []

unfoldable pub alarm_changes :
    {T : Type 0} → AlarmFlags → AlarmFlags → T → List AlarmDefinition → List (Alarm T)
unfolding alarm_change
alarm_changes old new now [] = []
alarm_changes old new now (d ∷ ds) = alarm_change old new now d ++ alarm_changes old new now ds

pub record Worker (F T : Type 0) : Type 0 where
  pub config : RtacConfig
  pub client : ModbusClient
  pub state : RtacState F T
  pub command : Option (PendingCommand T)
  pub storage_open : Bool
  pub storage_sent : List (RtacReading F T)
  pub alarm_open : Bool
  pub alarms_sent : List (Alarm T)
  pub frames_written : List (List ℕ)
  pub stats : WorkerStats
  pub tick_count : ℕ
  pub sequence : ℕ
  pub last_alarm_flags : AlarmFlags

-- Sending each alarm in turn.
abbrev pub send_all {ℓ} : {A : Type ℓ} → Bool → List A → List A → List A
send_all true sent xs = sent ++ xs
send_all false sent xs = sent

-- What `select!` in `run` takes up next.
pub data WorkerEvent (T : Type 0) : Type 0 where
  shutdown_changed : Bool → WorkerEvent T
  shutdown_closed : WorkerEvent T
  interval_tick : TickInput T → WorkerEvent T
  -- The control logic puts a command into the watch channel between two ticks.
  command_sent : Option (PendingCommand T) → WorkerEvent T
