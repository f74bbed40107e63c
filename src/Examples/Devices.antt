-- ===== src/Examples/Devices.antt =====
-- Examples: the simulated device, the registers, the alarm flags and the phrases.
use neems_core.Sim.{
  tick_command, SimConfig, SimState, new_state, read_registers, set_command, set_idle_electrical,
  target_soc, write_registers, tick,
}
use neems_core.Sim.Soc.{fresh, after, ticked, command_set, Reachable, IsNumeric, reachable-InRange}
use neems_core.Rtac.Protocol.{
  CommandType, OperatingMode, charge, clear_faults, command_from_register, discharge,
}
use neems_core.Rtac.Registers.Bounds.{IsCommandFrame, build_command_registers-IsCommandFrame}
use neems_core.Sim.Movement.{tick-moves, IsSane, MovesDown, MovesUp, tick-moves}
use neems_core.Rtac.Registers.{
  build_command_registers, current_to_register, grid_frequency_to_register, parse_current,
  parse_grid_frequency, parse_i32_from_registers, parse_power_kw, parse_soc, parse_temperature,
  parse_voltage, power_kw_to_registers, soc_to_register, status_from_registers,
  temperature_to_register, voltage_to_register,
}
use neems_core.Rtac.RegisterMap.{cmd_start_address, cmd_write_count, status_read_count}
use neems_core.Rtac.Registers.Words.{command_frame_decodes}
use neems_core.Sim.Estop.{tick-estop, no_flags-estop, command_of}
use neems_core.FixPhrase.{coordinates, decode, encode}
use neems_core.FixPhrase.RoundTrip.{decode-encode}
use neems_core.Examples.Instances.{int_float, int_float-IsIeee}
use neems_core.Rtac.Alarm.Flags.{is_alarm_active, is_alarm_num_active, is_estop_active, no_flags}
use neems_core.Sim.Registers.{status_from_registers-read_registers}
use neems_core.Examples.Alarms.{zeros}
use neems_core.Rtac.Alarm.Flags.Laws.{IsBlock}
use neems_core.Rtac.Alarm.Table.{find_by_alarm_num}
use neems_core.Rtac.State.{PendingCommand}
use neems_core.Rtac.Client.{command_frame}
use neems_core.Sim.Wire.{write_registers-command_frame}
use neems_core.Prelude.{
  ℕ, refl, true, false, none, some, List, map, arith, get_or, take, length, replicate, zero, suc,
  [], ◌∷◌, ◌<◌, ◌≡◌, ◌≢◌,
}
use neems_core.Prelude.Int.{ℤ, pos, negsuc, leb_ℤ}

abbrev config : SimConfig ℤ
config = record {
  initial_soc_percent = pos 50;
  soc_floor_percent = pos 10;
  soc_ceiling_percent = pos 95;
  charge_rate_pct = pos 5;
  discharge_rate_pct = pos 5;
  trickle_rate_pct = pos 1;
  charge_power_kw = pos 500;
  discharge_power_kw = pos 500;
  nominal_voltage_v = pos 800;
  idle_temperature_c = pos 25;
  active_temperature_rise_c = pos 10;
  nominal_frequency_hz = pos 60;
}

abbrev numeric : IsNumeric int_float int_float-IsIeee config
numeric = record { ceiling = refl; floor = refl }

abbrev start : SimState ℤ
start = new_state int_float config

abbrev charging_start : SimState ℤ
charging_start = set_command int_float CommandType.charge start

abbrev charged : SimState ℤ
charged = tick int_float charging_start

abbrev charged-Reachable : Reachable int_float int_float-IsIeee config charged
charged-Reachable =
    after (after fresh (command_set start CommandType.charge)) (ticked charging_start)

reachable-InRange_example :
    (leb_ℤ (pos 0) charged.soc_percent ≡ true) × (leb_ℤ charged.soc_percent (pos 100) ≡ true)
reachable-InRange_example =
    reachable-InRange int_float int_float-IsIeee config charged numeric refl charged-Reachable

abbrev sane : IsSane int_float int_float-IsIeee config
sane = record {
  numeric = numeric;
  ceiling = refl;
  floor = refl;
  charge_rate = refl;
  discharge_rate = refl;
  trickle_rate = refl;
}

tick-moves_example :
    (command_of int_float charging_start ≡ charge
      → MovesUp int_float int_float-IsIeee
          (int_float.min (target_soc int_float charging_start) (pos 95))
          config.charge_rate_pct
          (pos 50)
          (tick int_float charging_start).soc_percent)
    × (command_of int_float charging_start ≡ CommandType.trickle_charge
        → MovesUp int_float int_float-IsIeee
            (int_float.min (target_soc int_float charging_start) (pos 95))
            config.trickle_rate_pct
            (pos 50)
            (tick int_float charging_start).soc_percent)
    × (command_of int_float charging_start ≡ discharge
        → MovesDown int_float int_float-IsIeee
            (pos 10)
            config.discharge_rate_pct
            (pos 50)
            (tick int_float charging_start).soc_percent)
unfolding new_state set_command set_idle_electrical
tick-moves_example =
    tick-moves int_float int_float-IsIeee charging_start sane (refl, refl) no_flags-estop

decode-encode_example :
    (ws : List ℕ) × (encode 1321409 1031482 ≡ some ws)
    × (decode (map some ws) ≡ coordinates 1321409 1031482 10000)
    × (decode (take 3 (map some ws)) ≡ coordinates 13214 10314 100)
    × (decode (take 2 (map some ws)) ≡ coordinates 1321 1031 10)
decode-encode_example = decode-encode 1321409 1031482 (omega arith) (omega arith)

build_command_registers-IsCommandFrame_example :
    IsCommandFrame
      (build_command_registers CommandType.charge (some (pos 250)) (some (negsuc 4)) (pos 70000))
build_command_registers-IsCommandFrame_example =
    build_command_registers-IsCommandFrame CommandType.charge (some (pos 250)) (some (negsuc 4))
      (pos 70000)

command_frame_decodes_example :
    (command_from_register (get_or (build_command_registers discharge none none (pos 30)) 0 0)
      ≡ some discharge)
    × (parse_i32_from_registers
          (get_or (build_command_registers discharge none none (pos 30)) 2 0)
          (get_or (build_command_registers discharge none none (pos 30)) 3 0)
        ≡ pos 0)
command_frame_decodes_example = command_frame_decodes discharge none none (pos 30) (omega arith)

standby_known : (v : ℕ) → OperatingMode.standby ≢ OperatingMode.unknown v
standby_known v e = cc

status_from_registers-read_registers_example :
    status_from_registers int_float (read_registers int_float start 0 status_read_count)
    ≡ some (record {
      mode = OperatingMode.standby;
      soc_percent = parse_soc int_float (soc_to_register int_float (pos 50));
      power_kw =
          parse_power_kw int_float
            (power_kw_to_registers int_float (pos 0)).0
            (power_kw_to_registers int_float (pos 0)).1;
      voltage_v = parse_voltage int_float (voltage_to_register int_float (pos 800));
      current_a = parse_current int_float (current_to_register int_float (pos 0));
      temperature_c = parse_temperature int_float (temperature_to_register int_float (pos 25));
      grid_frequency_hz =
          parse_grid_frequency int_float (grid_frequency_to_register int_float (pos 60));
      alarm_registers = replicate 22 0;
    })
unfolding new_state set_idle_electrical
status_from_registers-read_registers_example =
    status_from_registers-read_registers int_float start refl standby_known

-- A device that charges, with the emergency stop active and the EmergencyStop command written.
abbrev stopped_device : SimState ℤ
stopped_device = record start {
  alarms = record { registers = 0 ∷ 8 ∷ replicate 20 0 };
  cmd_regs = 4 ∷ 0 ∷ 0 ∷ 0 ∷ 0 ∷ [];
}

stopped_device-estop : is_estop_active stopped_device.alarms ≡ true
unfolding is_estop_active is_alarm_num_active find_by_alarm_num is_alarm_active
stopped_device-estop = refl

stopped_device-command : command_of int_float stopped_device ≡ CommandType.emergency_stop
unfolding command_from_register
stopped_device-command = refl

small_words : (i : ℕ) → get_or stopped_device.alarms.registers i 0 < 65536
small_words zero = omega arith
small_words (suc zero) = omega arith
small_words (suc (suc i)) = zeros i 20

stopped_device-IsBlock : IsBlock stopped_device.alarms
stopped_device-IsBlock = record { block_length = refl; words = small_words }

tick-estop_example :
    (is_estop_active stopped_device.alarms ≡ true
      → command_of int_float stopped_device ≢ clear_faults
      → ((tick int_float stopped_device).soc_percent ≡ stopped_device.soc_percent)
        × ((tick int_float stopped_device).power_kw ≡ pos 0)
        × ((tick int_float stopped_device).alarms ≡ stopped_device.alarms)
        × ((tick int_float stopped_device).cmd_regs ≡ stopped_device.cmd_regs)
        × ((tick int_float stopped_device).mode ≡ OperatingMode.emergency_stop))
    × (command_of int_float stopped_device ≡ clear_faults
        → ((tick int_float stopped_device).soc_percent ≡ stopped_device.soc_percent)
          × ((tick int_float stopped_device).power_kw ≡ pos 0)
          × (is_estop_active (tick int_float stopped_device).alarms ≡ false)
          × ((tick int_float stopped_device).alarms ≡ no_flags)
          × ((tick int_float stopped_device).cmd_regs ≡ 0 ∷ 0 ∷ 0 ∷ 0 ∷ 0 ∷ [])
          × ((tick int_float stopped_device).mode ≡ OperatingMode.standby))
    × (command_of int_float stopped_device ≡ CommandType.emergency_stop
        → (is_estop_active (tick int_float stopped_device).alarms ≡ true)
          × ((tick int_float stopped_device).power_kw ≡ pos 0)
          × ((tick int_float stopped_device).mode ≡ OperatingMode.emergency_stop))
tick-estop_example = tick-estop int_float stopped_device stopped_device-IsBlock

abbrev charge_command : PendingCommand ℕ
charge_command = record {
  command_type = CommandType.charge;
  target_soc_percent = some (pos 80);
  duration_seconds = none;
  ramp_duration_seconds = pos 120;
  created_at = 0;
  source_id = none;
}

start-cmd_regs : length start.cmd_regs ≡ cmd_write_count
unfolding new_state
start-cmd_regs = refl

write_registers-command_frame_example :
    ((write_registers int_float cmd_start_address (command_frame charge_command) start).cmd_regs
      ≡ command_frame charge_command)
    × (tick int_float
          (write_registers int_float cmd_start_address (command_frame charge_command) start)
        ≡ tick_command int_float CommandType.charge
            (write_registers int_float cmd_start_address (command_frame charge_command) start))
write_registers-command_frame_example =
    write_registers-command_frame int_float charge_command start start-cmd_regs
