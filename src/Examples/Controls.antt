-- ===== src/Examples/Controls.antt =====
-- Examples: the control logic.
use neems_core.Rtac.Control.Safety.{evaluated, started}
use neems_core.Rtac.State.{
  PendingCommand, RtacState, default_state, is_available_for_commands, is_connected_status,
  is_healthy, connected,
}
use neems_core.Rtac.Control.{
  to_pending_command, trigger_manual_command, check_reactive_conditions, clear_commands,
  command_available, follow_schedule, reactive_command, ControlConfig, ControlTask,
  ScheduledCommand, evaluate, evaluate_all, get_active_command, is_active_at,
}
use neems_core.Rtac.Control.Safety.{IsIdle, Reached, started}
use mathlib.Core.List.{Memᴰ}
use neems_core.Rtac.Alarm.Table.{find_by_alarm_num}
use neems_core.Rtac.Protocol.{discharge, charge}
use neems_core.Rtac.Control.Decisions.{
  evaluate_all-trigger_manual_command, evaluate-IsIdle, evaluate-scheduled,
}
use neems_core.Rtac.Control.Schedule.{get_active_command_lem}
use neems_core.Examples.Instances.{int_float, seconds, seconds-IsOrdered}
use neems_core.Rtac.Alarm.Flags.{
  has_critical_alarm, is_alarm_num_active, is_estop_active, is_alarm_active,
}
use mathlib.Core.Path.{subst}
use neems_core.Prelude.{
  Option, sym, ℕ, refl, inl, true, false, none, some, List, [], arith, ltb, ◌≡◌, ◌⊎◌, ◌∷◌,
}
use neems_core.Prelude.Int.{ℤ, pos}

abbrev config : ControlConfig ℤ
config = record {
  default_ramp_duration_seconds = pos 120;
  low_soc_threshold = pos 10;
  high_soc_threshold = pos 95;
  enable_reactive_control = true;
}

abbrev charge_at : ℤ → ℕ → ScheduledCommand ℕ
charge_at id starts_at = record {
  id = id;
  command_type = charge;
  starts_at = starts_at;
  ends_at = none;
  duration_seconds = some (pos 3600);
  target_soc_percent = some (pos 80);
  ramp_duration_seconds = none;
}

abbrev task : ControlTask ℤ ℕ
task = record {
  config = config;
  receivers = true;
  channel = none;
  last_command_id = none;
  last_reactive_command = none;
}

abbrev idle_state : RtacState ℤ ℕ
idle_state = record (default_state (pos 50) 0) { connection_status = connected }

abbrev charged_task : ControlTask ℤ ℕ
charged_task = (evaluate int_float 100 idle_state (some (charge_at (pos 4) 60)) task).0

charged_task-Reached : Reached int_float charged_task
charged_task-Reached = evaluated 100 idle_state (some (charge_at (pos 4) 60)) (started config)

offline : is_available_for_commands (default_state {F = ℤ} {T = ℕ} (pos 50) 0) ≡ false
unfolding is_available_for_commands default_state
offline = refl

idle_state-available : is_available_for_commands idle_state ≡ true
unfolding is_available_for_commands is_healthy is_connected_status default_state has_critical_alarm
    is_alarm_active is_estop_active is_alarm_num_active find_by_alarm_num
idle_state-available = refl

no_reaction : reactive_command int_float charged_task.config idle_state ≡ none
unfolding reactive_command check_reactive_conditions evaluate clear_commands command_available
    follow_schedule default_state
no_reaction = ground arith

-- The connection is lost while a charge is in the channel.
evaluate-IsIdle_example :
    IsIdle
      (evaluate int_float 200
        (default_state (pos 50) 0)
        (some (charge_at (pos 4) 60))
        charged_task).0.channel
evaluate-IsIdle_example =
    evaluate-IsIdle int_float charged_task 200 (default_state (pos 50) 0)
      (some (charge_at (pos 4) 60)) charged_task-Reached (inl offline)

evaluate-scheduled_example :
    (c : PendingCommand ℕ) × ((evaluate int_float 200 idle_state
        (some (charge_at (pos 5) 150))
        charged_task).0.channel
      ≡ some c)
    × (c.source_id ≡ some (pos 5))
evaluate-scheduled_example =
    evaluate-scheduled int_float charged_task 200 idle_state (charge_at (pos 5) 150)
      charged_task-Reached idle_state-available no_reaction

abbrev plan : List (ScheduledCommand ℕ)
plan = charge_at (pos 4) 60 ∷ charge_at (pos 5) 150 ∷ charge_at (pos 6) 9000 ∷ []

get_active_command_lem_example :
    ((get_active_command seconds plan 200 ≡ none)
      × ((d : ScheduledCommand ℕ) → Memᴰ d plan → is_active_at seconds d 200 ≡ false))
    ⊎ ((c : ScheduledCommand ℕ) × (get_active_command seconds plan 200 ≡ some c)
        × Memᴰ c plan
        × (is_active_at seconds c 200 ≡ true)
        × ((d : ScheduledCommand ℕ)
            → Memᴰ d plan
            → is_active_at seconds d 200 ≡ true
            → ltb c.starts_at d.starts_at ≡ false))
get_active_command_lem_example = get_active_command_lem seconds seconds-IsOrdered plan 200

abbrev manual_discharge : PendingCommand ℕ
manual_discharge = record (to_pending_command (charge_at (pos 9) 0) (pos 120) 0) {
  command_type = discharge;
  source_id = none;
}

-- A round for a system that is offline.
abbrev offline_round : ℕ × RtacState ℤ ℕ × Option (ScheduledCommand ℕ)
offline_round = (300, default_state (pos 50) 0, some (charge_at (pos 4) 60))

all_offline :
    (r : ℕ × RtacState ℤ ℕ × Option (ScheduledCommand ℕ))
    → Memᴰ r (offline_round ∷ offline_round ∷ [])
    → is_available_for_commands r.1 ≡ false
all_offline r (Memᴰ.head e) =
    subst
      (λ (x : ℕ × RtacState ℤ ℕ × Option (ScheduledCommand ℕ)).
        is_available_for_commands x.1 ≡ false)
      (sym e) offline
all_offline r (Memᴰ.tail (Memᴰ.head e)) =
    subst
      (λ (x : ℕ × RtacState ℤ ℕ × Option (ScheduledCommand ℕ)).
        is_available_for_commands x.1 ≡ false)
      (sym e) offline
all_offline r (Memᴰ.tail (Memᴰ.tail m)) = elim m [ ]

evaluate_all-trigger_manual_command_example :
    (evaluate_all int_float
      (offline_round ∷ offline_round ∷ [])
      (trigger_manual_command manual_discharge
        (evaluate int_float 200 (default_state (pos 50) 0) none task).0).0).channel
    ≡ some manual_discharge
evaluate_all-trigger_manual_command_example =
    evaluate_all-trigger_manual_command int_float task manual_discharge 200
      (default_state (pos 50) 0) none (offline_round ∷ offline_round ∷ []) refl offline all_offline
