-- ===== src/Rtac/State/Availability.antt =====
-- When the system takes commands.
use neems_core.Rtac.Alarm.Definition.{AlarmDefinition}
use mathlib.Core.List.{Memᴰ}
use neems_core.Rtac.State.{RtacState, is_available_for_commands, is_connected_status, is_healthy}
use neems_core.Rtac.Alarm.Table.{alarm_definitions}
use neems_core.Rtac.Alarm.Flags.Severity.{has_critical_alarm_iff, estop-critical}
use neems_core.Rtac.Alarm.Flags.{has_critical_alarm, is_alarm_active}
use neems_core.Prelude.{inl, inr, true, false, arith, Bool-cases, ◌≤◌, ◌≡◌, ◌↔◌}

module _ {F T : Type 0} where
  -- The system is available for commands exactly when it is connected and no alarm of the table at
  -- level 1 or 2 is active.
  pub is_available_for_commands_iff :
      (s : RtacState F T)
      → (is_available_for_commands s ≡ true) ↔ (
          (is_connected_status s.connection_status ≡ true)
          × ((d : AlarmDefinition)
              → Memᴰ d alarm_definitions
              → d.level ≤ 2
              → is_alarm_active s.alarms d ≡ false))
  unfolding is_available_for_commands
  is_available_for_commands_iff s = (
    λ h. (
      ground arith,
      λ d m l. elim (Bool-cases (is_alarm_active s.alarms d)) [
        | inl on ↦
            let bad : has_critical_alarm s.alarms ≡ true =
              (has_critical_alarm_iff s.alarms).1 (d, m, l, on) in
            ground arith
        | inr off ↦ off
      ],
    ),
    λ w. elim (Bool-cases (has_critical_alarm s.alarms)) [
      | inl bad ↦
          let (d, m, l, on) = (has_critical_alarm_iff s.alarms).0 bad in
          let off : is_alarm_active s.alarms d ≡ false = w.1 d m l in cc
      | inr fine ↦ ground (arith, estop-critical s.alarms, w.0)
    ],
  )

  -- The separate test for the emergency stop changes nothing: a healthy system has none active.
  pub available-healthy : (s : RtacState F T) → is_available_for_commands s ≡ is_healthy s
  unfolding is_available_for_commands is_healthy
  available-healthy s = ground (arith, estop-critical s.alarms)
