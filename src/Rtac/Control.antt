-- ===== src/Rtac/Control.antt =====
-- neems-data/src/rtac/control.rs: the control logic that turns schedule and state into commands.
-- A provider's `get_active_command` is an argument; `Utc::now()` is `now`. The watch channel is its
-- latest value; sending fails where no receiver is left. Logging is left out.
pub mod Schedule
pub mod Safety
pub mod Decisions
use neems_core.Platform.Clock.{Clock}
use neems_core.Rtac.Protocol.{
  CommandType, OperatingMode, charging, command_eq, discharging, standby,
}
use neems_core.Platform.Float.{Float32}
use neems_core.Rtac.State.{PendingCommand, RtacState, is_available_for_commands, standby_command}
use neems_core.Prelude.{
  Bool, true, false, Option, none, some, List, [], unwrap_or, is_some, filter, ◌&&◌, ◌||◌, ◌∷◌,
  if◌then◌else◌,
}
use neems_core.Prelude.Int.{ℤ, eqb_ℤ}

pub record ControlConfig (F : Type 0) : Type 0 where
  pub default_ramp_duration_seconds : ℤ
  pub low_soc_threshold : F
  pub high_soc_threshold : F
  pub enable_reactive_control : Bool

pub record ScheduledCommand (T : Type 0) : Type 0 where
  pub id : ℤ
  pub command_type : CommandType
  pub starts_at : T
  pub ends_at : Option T
  pub duration_seconds : Option ℤ
  pub target_soc_percent : Option ℤ
  pub ramp_duration_seconds : Option ℤ

module _ (clock : Clock) where
  open clock use {Time, before, plus_seconds}

  runs_at : ScheduledCommand Time → Time → Option Time → Option ℤ → Bool
  runs_at cmd time (some ends_at) duration = before time ends_at
  runs_at cmd time none (some duration) = before time (plus_seconds cmd.starts_at duration)
  runs_at cmd time none none = true

  unfoldable pub is_active_at : ScheduledCommand Time → Time → Bool
  unfolding runs_at
  is_active_at cmd time =
      if before time cmd.starts_at then false else runs_at cmd time cmd.ends_at cmd.duration_seconds

  -- `max_by_key(|cmd| cmd.starts_at)`: the last of the greatest.
  unfoldable pub latest_start : List (ScheduledCommand Time) → Option (ScheduledCommand Time)
  latest_start [] = none
  latest_start (c ∷ cs) = elim (latest_start cs) [
    | none ↦ some c
    | some d ↦ if before d.starts_at c.starts_at then some c else some d
  ]

  -- `InMemoryScheduleProvider::get_active_command`
  unfoldable pub get_active_command :
      List (ScheduledCommand Time) → Time → Option (ScheduledCommand Time)
  unfolding latest_start is_active_at
  get_active_command commands at_time = latest_start (filter (λ c. is_active_at c at_time) commands)

module _ {T : Type 0} where
  unfoldable pub to_pending_command : ScheduledCommand T → ℤ → T → PendingCommand T
  to_pending_command cmd default_ramp now = record {
    command_type = cmd.command_type;
    duration_seconds = cmd.duration_seconds;
    target_soc_percent = cmd.target_soc_percent;
    ramp_duration_seconds = unwrap_or cmd.ramp_duration_seconds default_ramp;
    created_at = now;
    source_id = some cmd.id;
  }

-- `Some(a) == opt` on ids
abbrev pub is_id : ℤ → Option ℤ → Bool
is_id i none = false
is_id i (some j) = eqb_ℤ j i

abbrev pub is_command : CommandType → Option CommandType → Bool
is_command c none = false
is_command c (some d) = command_eq d c

-- The parts of `ControlLogicTask` that change, with the watch channel it sends on.
pub record ControlTask (F T : Type 0) : Type 0 where
  pub config : ControlConfig F
  pub receivers : Bool
  pub channel : Option (PendingCommand T)
  pub last_command_id : Option ℤ
  pub last_reactive_command : Option CommandType

pub data Outcome : Type 0 where
  done send_failed : Outcome

abbrev is_charging : OperatingMode → Bool
is_charging charging = true
is_charging _ = false

abbrev is_discharging : OperatingMode → Bool
is_discharging discharging = true
is_discharging _ = false

module _ {F T : Type 0} where
  unfoldable pub send_reactive_command : CommandType → T → ControlTask F T → ControlTask F T
  send_reactive_command command now t =
      let pending : PendingCommand T = record {
        command_type = command;
        duration_seconds = none;
        target_soc_percent = none;
        ramp_duration_seconds = t.config.default_ramp_duration_seconds;
        created_at = now;
        source_id = none;
      } in
      if is_command command t.last_reactive_command then t else record t {
        channel = if t.receivers then some pending else t.channel;
        last_reactive_command = some command;
        last_command_id = none;
      }

  -- The part of `evaluate` for a system that takes no commands.
  unfoldable pub clear_commands : ControlTask F T → ControlTask F T × Outcome
  clear_commands t =
      if is_some t.last_command_id || is_some t.last_reactive_command
      then if t.receivers
        then (
          record t { channel = none; last_command_id = none; last_reactive_command = none },
          done,
        )
        else (t, send_failed)
      else (t, done)

  -- The part of `evaluate` that follows the schedule.
  unfoldable pub follow_schedule :
      T → Option (ScheduledCommand T) → ControlTask F T → ControlTask F T × Outcome
  unfolding to_pending_command standby_command
  follow_schedule now (some s) t =
      if is_id s.id t.last_command_id
      then (t, done)
      else if t.receivers
      then (
        record t {
          channel = some (to_pending_command s t.config.default_ramp_duration_seconds now);
          last_command_id = some s.id;
        },
        done,
      )
      else (t, send_failed)
  follow_schedule now none t =
      if is_some t.last_command_id
      then if t.receivers
        then (
          record t {
            channel = some (standby_command t.config.default_ramp_duration_seconds now);
            last_command_id = none;
          },
          done,
        )
        else (t, send_failed)
      else (t, done)

  unfoldable pub trigger_manual_command :
      PendingCommand T → ControlTask F T → ControlTask F T × Outcome
  trigger_manual_command cmd t =
      if t.receivers then (record t { channel = some cmd }, done) else (t, send_failed)

module _ (fl : Float32) {T : Type 0} where
  unfoldable pub check_reactive_conditions :
      ControlConfig fl.F → RtacState fl.F T → Option CommandType
  check_reactive_conditions config s =
      if fl.le s.soc_percent config.low_soc_threshold && is_discharging s.mode
      then some CommandType.standby
      else if fl.le config.high_soc_threshold s.soc_percent && is_charging s.mode
      then some CommandType.standby
      else none

  -- What reactive control asks for, if it is enabled.
  unfoldable pub reactive_command : ControlConfig fl.F → RtacState fl.F T → Option CommandType
  unfolding check_reactive_conditions
  reactive_command config s =
      if config.enable_reactive_control then check_reactive_conditions config s else none

  unfoldable pub command_available :
      Option CommandType
      → T
      → Option (ScheduledCommand T)
      → ControlTask fl.F T
      → ControlTask fl.F T × Outcome
  unfolding send_reactive_command follow_schedule
  command_available (some c) now scheduled t = (send_reactive_command c now t, done)
  command_available none now scheduled t =
      follow_schedule now scheduled (record t { last_reactive_command = none })

  -- `evaluate` at one instant, for the state read and the provider's active command.
  unfoldable pub evaluate :
      T
      → RtacState fl.F T
      → Option (ScheduledCommand T)
      → ControlTask fl.F T
      → ControlTask fl.F T × Outcome
  unfolding command_available clear_commands
  evaluate now s scheduled t =
      if is_available_for_commands s
      then command_available (reactive_command t.config s) now scheduled t
      else clear_commands t

  -- The loop of `run`: what each round reads, and the rounds one after the other, whatever they
  -- return.
  unfoldable pub evaluate_all :
      List (T × RtacState fl.F T × Option (ScheduledCommand T))
      → ControlTask fl.F T
      → ControlTask fl.F T
  unfolding evaluate
  evaluate_all [] t = t
  evaluate_all ((now, s, scheduled) ∷ rounds) t = evaluate_all rounds (evaluate now s scheduled t).0
