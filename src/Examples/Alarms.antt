-- ===== src/Examples/Alarms.antt =====
-- Examples: the alarm table, the alarm flags and the history.
use neems_core.Rtac.History.{Alarm, AlarmHistory, alarm_cleared, alarm_new, new_history, record_all}
use neems_core.Rtac.Alarm.Flags.{
  set_alarm, AlarmFlags, has_critical_alarm, is_alarm_active, is_alarm_num_active, is_estop_active,
  no_flags, set_alarm_num,
}
use neems_core.Rtac.Alarm.Flags.Laws.{IsBlock}
use neems_core.Rtac.History.Latest.{
  active_for, if_active, last_entries, latest, record_all-new_history,
}
use neems_core.Rtac.Alarm.Table.{estop_alarm_num, find_by_alarm_num}
use neems_core.Rtac.Alarm.Table.Wiring.{estop}
use neems_core.Rtac.Alarm.Flags.Severity.{estop-critical}
use neems_core.Rtac.Alarm.Flags.Numbers.{is_alarm_num_active-set_alarm_num}
use neems_core.Prelude.{
  ℕ, zero, suc, refl, true, none, some, [], arith, is_some, get_or, replicate, ◌<◌, ◌≡◌, ◌&&◌, ◌∷◌,
  ◌==◌, if◌then◌else◌,
}

abbrev stop_flags : AlarmFlags
stop_flags = set_alarm_num no_flags estop_alarm_num true

pub zeros : (i n : ℕ) → get_or (replicate n 0) i 0 < 65536
zeros i zero = ground arith
zeros zero (suc n) = ground arith
zeros (suc i) (suc n) = zeros i n

empty-IsBlock : IsBlock no_flags
empty-IsBlock = record { block_length = refl; words = λ i. zeros i 22 }

is_alarm_num_active-set_alarm_num_example :
    is_alarm_num_active (set_alarm_num no_flags estop_alarm_num true) 2 ≡ (
      if is_some (find_by_alarm_num estop_alarm_num) && estop_alarm_num == 2
      then true
      else is_alarm_num_active no_flags 2)
is_alarm_num_active-set_alarm_num_example =
    is_alarm_num_active-set_alarm_num no_flags estop_alarm_num 2 true empty-IsBlock

stop_flags-estop : is_estop_active stop_flags ≡ true
unfolding is_estop_active is_alarm_num_active set_alarm_num find_by_alarm_num is_alarm_active
    set_alarm
stop_flags-estop = refl

stop_flags-critical : has_critical_alarm stop_flags ≡ true
stop_flags-critical = estop-critical stop_flags stop_flags-estop

abbrev raised : Alarm ℕ
raised = alarm_new estop 5

record_all-new_history_example :
    (h : AlarmHistory ℕ) × (record_all (new_history 1) (raised ∷ alarm_cleared estop 9 ∷ [])
      ≡ some h)
    × (h.events ≡ last_entries 1 (raised ∷ alarm_cleared estop 9 ∷ []))
    × ((n : ℕ)
        → active_for n h.active_alarms
          ≡ if_active (latest n none (raised ∷ alarm_cleared estop 9 ∷ [])))
record_all-new_history_example =
    record_all-new_history 1 (raised ∷ alarm_cleared estop 9 ∷ []) (omega arith)
