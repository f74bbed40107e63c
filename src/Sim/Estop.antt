-- ===== src/Sim/Estop.antt =====
-- Emergency stop: what halts the simulated device, and what releases it.
use neems_core.Rtac.Protocol.{
  charge, command_eq, discharge, CommandType, OperatingMode, clear_faults, command_from_register,
}
use neems_core.Platform.Float.{Float32}
use neems_core.Rtac.Alarm.Flags.Laws.{IsBlock}
use neems_core.Sim.{reset_faults, run_command, set_idle_electrical, SimState, tick_command}
use neems_core.Rtac.Alarm.Flags.{is_alarm_active, is_alarm_num_active, no_flags, is_estop_active}
use neems_core.Rtac.Registers.{lit}
use neems_core.Sim.{tick}
use neems_core.Rtac.Alarm.Table.{estop_alarm_num}
use neems_core.Rtac.Alarm.Flags.Numbers.{active-known, is_alarm_num_active-set_alarm_num}
use neems_core.Rtac.Alarm.Definition.{AlarmDefinition}
use neems_core.Rtac.Alarm.Table.Wiring.{estop, estop-found}
use neems_core.Prelude.{
  refl, ap, inl, inr, true, false, Option, Bool-cases, unwrap_or, is_some, get_or, [], ◌∷◌, ◌≡◌,
  ◌∙◌, ◌≢◌, ◌&&◌, if◌then◌else◌,
}

pub no_flags-estop : is_estop_active no_flags ≡ false
unfolding is_estop_active is_alarm_active
no_flags-estop = active-known no_flags estop_alarm_num estop estop-found

module _ (fl : Float32) where
  open fl use {F}

  -- The command that a tick reads from the command registers.
  abbrev pub command_of : SimState F → CommandType
  command_of s = unwrap_or (command_from_register (get_or s.cmd_regs 0 0)) CommandType.standby

  halted :
      (c : CommandType) (s : SimState F)
      → is_estop_active s.alarms ≡ true
      → c ≢ CommandType.clear_faults
      → ((tick_command fl c s).soc_percent ≡ s.soc_percent)
        × ((tick_command fl c s).power_kw ≡ lit fl 0)
        × ((tick_command fl c s).alarms ≡ s.alarms)
        × ((tick_command fl c s).cmd_regs ≡ s.cmd_regs)
        × ((tick_command fl c s).mode ≡ OperatingMode.emergency_stop)
  unfolding tick_command command_eq set_idle_electrical
  halted CommandType.standby s stop other = rw stop (refl, refl, refl, refl, refl)
  halted charge s stop other = rw stop (refl, refl, refl, refl, refl)
  halted discharge s stop other = rw stop (refl, refl, refl, refl, refl)
  halted CommandType.trickle_charge s stop other = rw stop (refl, refl, refl, refl, refl)
  halted CommandType.emergency_stop s stop other = rw stop (refl, refl, refl, refl, refl)
  halted CommandType.clear_faults s stop other = elim (other refl) [ ]

  released :
      (s : SimState F)
      → ((tick_command fl CommandType.clear_faults s).soc_percent ≡ s.soc_percent)
        × ((tick_command fl CommandType.clear_faults s).power_kw ≡ lit fl 0)
        × (is_estop_active (tick_command fl CommandType.clear_faults s).alarms ≡ false)
        × ((tick_command fl CommandType.clear_faults s).alarms ≡ no_flags)
        × ((tick_command fl CommandType.clear_faults s).cmd_regs ≡ 0 ∷ 0 ∷ 0 ∷ 0 ∷ 0 ∷ [])
        × ((tick_command fl CommandType.clear_faults s).mode ≡ OperatingMode.standby)
  unfolding tick_command command_eq reset_faults set_idle_electrical
  released s = (refl, refl, no_flags-estop, refl, refl, refl)

  stopped :
      (s : SimState F)
      → IsBlock s.alarms
      → (is_estop_active (tick_command fl CommandType.emergency_stop s).alarms ≡ true)
        × ((tick_command fl CommandType.emergency_stop s).power_kw ≡ lit fl 0)
        × ((tick_command fl CommandType.emergency_stop s).mode ≡ OperatingMode.emergency_stop)
  unfolding tick_command command_eq run_command set_idle_electrical is_estop_active
  stopped s block = elim (Bool-cases (is_estop_active s.alarms)) [
    | inl on ↦ rw on (on, refl, refl)
    | inr off ↦ rw off (
      is_alarm_num_active-set_alarm_num s.alarms estop_alarm_num estop_alarm_num true block
          ∙ ap
              (λ (o : Option AlarmDefinition).
                if is_some o && true then true else is_alarm_num_active s.alarms estop_alarm_num)
              estop-found,
      refl,
      refl,
    )
  ]

  -- For a device with a block of 22 alarm registers of 16 bits: a tick with the emergency-stop
  -- alarm active and any command but ClearFaults moves no charge and no power, keeps the alarms and
  -- the registers, and reports the emergency-stop mode. With ClearFaults it keeps the charge, has
  -- no alarm and only zeros in the five command registers, and returns to standby, power zero. A
  -- tick with the EmergencyStop command halts the device too, and leaves the alarm active.
  pub tick-estop :
      (s : SimState F)
      → IsBlock s.alarms
      → (is_estop_active s.alarms ≡ true
          → command_of s ≢ clear_faults
          → ((tick fl s).soc_percent ≡ s.soc_percent)
            × ((tick fl s).power_kw ≡ lit fl 0)
            × ((tick fl s).alarms ≡ s.alarms)
            × ((tick fl s).cmd_regs ≡ s.cmd_regs)
            × ((tick fl s).mode ≡ OperatingMode.emergency_stop))
        × (command_of s ≡ clear_faults
            → ((tick fl s).soc_percent ≡ s.soc_percent)
              × ((tick fl s).power_kw ≡ lit fl 0)
              × (is_estop_active (tick fl s).alarms ≡ false)
              × ((tick fl s).alarms ≡ no_flags)
              × ((tick fl s).cmd_regs ≡ 0 ∷ 0 ∷ 0 ∷ 0 ∷ 0 ∷ [])
              × ((tick fl s).mode ≡ OperatingMode.standby))
        × (command_of s ≡ CommandType.emergency_stop
            → (is_estop_active (tick fl s).alarms ≡ true)
              × ((tick fl s).power_kw ≡ lit fl 0)
              × ((tick fl s).mode ≡ OperatingMode.emergency_stop))
  unfolding tick
  tick-estop s block =
      (halted (command_of s) s, λ e. rw e (released s), λ e. rw e (stopped s block))
