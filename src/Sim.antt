-- ===== src/Sim.antt =====
-- neems-rtac-sim/src/state.rs and config.rs: the simulated device.
-- The bind address and unit id of `SimConfig` belong to the server and are left out, with
-- `summary`.
pub mod Console
pub mod Wire
pub mod Soc
pub mod Estop
pub mod Movement
pub mod Registers
use neems_core.Rtac.Protocol.{
  clear_faults, CommandType, OperatingMode, charge, command_eq, command_from_register,
  command_to_register, discharge, mode_to_register, standby, charging, discharging, trickle_charge,
  emergency_stop,
}
use neems_core.Rtac.Alarm.Flags.{AlarmFlags, is_estop_active, no_flags, set_alarm_num}
use neems_core.Platform.Float.{Float32}
use neems_core.Rtac.History.{active}
use neems_core.Rtac.RegisterMap.{
  status_current, status_grid_frequency, status_mode, status_power_high, status_power_low,
  status_soc, status_temperature, status_voltage, alarm_register_count, cmd_start_address,
  cmd_write_count, status_alarms_start,
}
use neems_core.Rtac.Registers.{
  current_to_register, grid_frequency_to_register, lit, parse_soc, power_kw_to_registers,
  soc_to_register, temperature_to_register, voltage_to_register,
}
use neems_core.Rtac.Alarm.Table.{estop_alarm_num}
use Prim.Native.Nat.{max, min}
use neems_core.Prelude.{
  ℕ, zero, suc, Bool, true, List, [], ltb, leb, unwrap_or, get_or, set, replicate, ◌+◌, ◌-◌, ◌%◌,
  ◌^◌, ◌&&◌, ◌∷◌, ◌==◌, if◌then◌else◌,
}

pub record SimConfig (F : Type 0) : Type 0 where
  pub initial_soc_percent : F
  pub soc_floor_percent : F
  pub soc_ceiling_percent : F
  pub charge_rate_pct : F
  pub discharge_rate_pct : F
  pub trickle_rate_pct : F
  pub charge_power_kw : F
  pub discharge_power_kw : F
  pub nominal_voltage_v : F
  pub idle_temperature_c : F
  pub active_temperature_rise_c : F
  pub nominal_frequency_hz : F

pub record SimState (F : Type 0) : Type 0 where
  pub config : SimConfig F
  pub mode : OperatingMode
  pub soc_percent : F
  pub power_kw : F
  pub voltage_v : F
  pub current_a : F
  pub temperature_c : F
  pub grid_frequency_hz : F
  pub alarms : AlarmFlags
  pub cmd_regs : List ℕ

-- `[0u16; CMD_COUNT]`
abbrev pub no_command : List ℕ
no_command = replicate cmd_write_count 0

module _ (fl : Float32) where
  open fl use {F, add, sub, mul, div, neg, lt, ne, min, max, clamp}

  unfoldable pub set_idle_electrical : SimState F → SimState F
  set_idle_electrical s = record s {
    power_kw = lit fl 0;
    current_a = lit fl 0;
    voltage_v = s.config.nominal_voltage_v;
    temperature_c = s.config.idle_temperature_c;
    grid_frequency_hz = s.config.nominal_frequency_hz;
  }

  unfoldable pub set_active_electrical : F → SimState F → SimState F
  set_active_electrical power s = record s {
    power_kw = power;
    voltage_v = s.config.nominal_voltage_v;
    current_a =
        if ne s.config.nominal_voltage_v (lit fl 0)
        then div (mul power (lit fl 1000)) s.config.nominal_voltage_v
        else lit fl 0;
    temperature_c = add s.config.idle_temperature_c s.config.active_temperature_rise_c;
    grid_frequency_hz = s.config.nominal_frequency_hz;
  }

  -- `SimState::new`
  unfoldable pub new_state : SimConfig F → SimState F
  unfolding set_idle_electrical
  new_state config = set_idle_electrical record {
    config = config;
    mode = standby;
    soc_percent = clamp config.initial_soc_percent (lit fl 0) (lit fl 100);
    power_kw = lit fl 0;
    voltage_v = config.nominal_voltage_v;
    current_a = lit fl 0;
    temperature_c = config.idle_temperature_c;
    grid_frequency_hz = config.nominal_frequency_hz;
    alarms = no_flags;
    cmd_regs = no_command;
  }

  unfoldable pub target_soc : SimState F → F
  target_soc s =
      let raw = get_or s.cmd_regs 1 0 in
      if raw == 0 then s.config.soc_ceiling_percent else parse_soc fl raw

  -- The two charging arms of the match: towards the target at a rate and a power.
  unfoldable pub charge_towards : F → F → F → SimState F → SimState F
  unfolding set_idle_electrical set_active_electrical
  charge_towards target rate power s =
      if lt s.soc_percent target
      then set_active_electrical power
          (record s { soc_percent = min (add s.soc_percent rate) target })
      else set_idle_electrical s

  unfoldable pub discharge_towards : F → F → F → SimState F → SimState F
  unfolding set_idle_electrical set_active_electrical
  discharge_towards floor rate power s =
      if lt floor s.soc_percent
      then set_active_electrical power
          (record s { soc_percent = max (sub s.soc_percent rate) floor })
      else set_idle_electrical s

  -- The match on the command; `0.1` is the quotient of 1 and 10. Its last arm is unreachable in the
  -- source, and here keeps the state.
  unfoldable pub run_command : CommandType → SimState F → SimState F
  unfolding set_idle_electrical charge_towards discharge_towards target_soc
  run_command CommandType.standby s = set_idle_electrical (record s { mode = standby })
  run_command CommandType.charge s =
      charge_towards (min (target_soc s) s.config.soc_ceiling_percent) s.config.charge_rate_pct
        (neg s.config.charge_power_kw) (record s { mode = charging })
  run_command CommandType.discharge s =
      discharge_towards s.config.soc_floor_percent s.config.discharge_rate_pct
        s.config.discharge_power_kw (record s { mode = discharging })
  run_command CommandType.trickle_charge s =
      charge_towards (min (target_soc s) s.config.soc_ceiling_percent) s.config.trickle_rate_pct
        (mul (neg s.config.charge_power_kw) (div (lit fl 1) (lit fl 10)))
        (record s { mode = trickle_charge })
  run_command CommandType.emergency_stop s =
      set_idle_electrical
        (record s { mode = emergency_stop; alarms = set_alarm_num s.alarms estop_alarm_num true })
  run_command CommandType.clear_faults s = s

  unfoldable pub reset_faults : SimState F → SimState F
  unfolding set_idle_electrical
  reset_faults s =
      set_idle_electrical (record s { alarms = no_flags; mode = standby; cmd_regs = no_command })

  -- The part of `tick` after the command is read.
  unfoldable pub tick_command : CommandType → SimState F → SimState F
  unfolding run_command reset_faults set_idle_electrical
  tick_command command s =
      if command_eq command CommandType.clear_faults
      then reset_faults s
      else if is_estop_active s.alarms
      then set_idle_electrical (record s { mode = emergency_stop })
      else let t = run_command command s in
        record t { soc_percent = clamp t.soc_percent (lit fl 0) (lit fl 100) }

  unfoldable pub tick : SimState F → SimState F
  unfolding tick_command
  tick s =
      tick_command (unwrap_or (command_from_register (get_or s.cmd_regs 0 0)) CommandType.standby) s

  -- The arms of the match on the address: a status register, else the alarms, else the command.
  unfoldable pub register_at : SimState F → ℕ → ℕ
  register_at s addr =
      if addr == status_mode
      then mode_to_register s.mode
      else if addr == status_soc
      then soc_to_register fl s.soc_percent
      else if addr == status_power_high
      then (power_kw_to_registers fl s.power_kw).0
      else if addr == status_power_low
      then (power_kw_to_registers fl s.power_kw).1
      else if addr == status_voltage
      then voltage_to_register fl s.voltage_v
      else if addr == status_current
      then current_to_register fl s.current_a
      else if addr == status_temperature
      then temperature_to_register fl s.temperature_c
      else if addr == status_grid_frequency
      then grid_frequency_to_register fl s.grid_frequency_hz
      else if leb status_alarms_start addr && ltb addr (status_alarms_start + alarm_register_count)
      then get_or s.alarms.registers (addr - status_alarms_start) 0
      else if leb cmd_start_address addr && ltb addr (cmd_start_address + cmd_write_count)
      then get_or s.cmd_regs (addr - cmd_start_address) 0
      else 0

  -- `(0..count).map(...)`, from index `i` on: `read_registers` starts with `i = 0`.
  unfoldable pub read_from : SimState F → ℕ → ℕ → ℕ → List ℕ
  read_from s start i zero = []
  read_from s start i (suc count) =
      register_at s ((start + i) % 2 ^ 16) ∷ read_from s start (suc i) count

  unfoldable pub read_registers : SimState F → ℕ → ℕ → List ℕ
  unfolding read_from
  read_registers s start count = read_from s start 0 count

  -- The body of the loop over `values`.
  unfoldable pub write_one : ℕ → ℕ → List ℕ → List ℕ
  write_one addr value regs =
      if leb cmd_start_address addr && ltb addr (cmd_start_address + cmd_write_count)
      then set regs (addr - cmd_start_address) value
      else regs

  -- The loop, from index `i` on.
  unfoldable pub write_from : ℕ → ℕ → List ℕ → List ℕ → List ℕ
  write_from start i [] regs = regs
  write_from start i (value ∷ values) regs =
      write_from start (suc i) values (write_one ((start + i) % 2 ^ 16) value regs)

  unfoldable pub write_registers : ℕ → List ℕ → SimState F → SimState F
  unfolding write_from
  write_registers start values s = record s { cmd_regs = write_from start 0 values s.cmd_regs }

  unfoldable pub set_soc : F → SimState F → SimState F
  set_soc percent s = record s { soc_percent = clamp percent (lit fl 0) (lit fl 100) }

  unfoldable pub set_command : CommandType → SimState F → SimState F
  set_command command s = record s { cmd_regs = set s.cmd_regs 0 (command_to_register command) }

  unfoldable pub set_alarm : ℕ → Bool → SimState F → SimState F
  set_alarm num on s = record s { alarms = set_alarm_num s.alarms num on }
