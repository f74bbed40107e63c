-- ===== src/Rtac/State.antt =====
-- neems-data/src/rtac/state.rs: the shared state, stored readings and pending commands.
-- `F` is the type of 32-bit floats and `T` that of instants; `Utc::now()` is an argument `now`.
use neems_core.Rtac.Alarm.Flags.{
  AlarmFlags, has_critical_alarm, is_estop_active, no_flags, to_registers,
}
use neems_core.Rtac.Protocol.{CommandType, OperatingMode, standby}
use neems_core.Prelude.{ℕ, Bool, true, false, not, Option, none, List, ◌&&◌}
use neems_core.Prelude.Int.{ℤ}
pub mod Availability

pub data ConnectionStatus : Type 0 where
  disconnected connected reconnecting failed : ConnectionStatus

-- `status == ConnectionStatus::Connected`
unfoldable pub is_connected_status : ConnectionStatus → Bool
is_connected_status connected = true
is_connected_status _ = false

pub record RtacState (F T : Type 0) : Type 0 where
  pub timestamp : T
  pub soc_percent : F
  pub power_kw : F
  pub mode : OperatingMode
  pub alarms : AlarmFlags
  pub connection_status : ConnectionStatus
  pub sequence : ℕ
  pub voltage_v : F
  pub current_a : F
  pub temperature_c : F
  pub grid_frequency_hz : F

-- `RtacReading` keeps the mode as text in the source, one text to each mode; here it is the mode.
pub record RtacReading (F T : Type 0) : Type 0 where
  pub timestamp : T
  pub soc_percent : F
  pub power_kw : F
  pub mode : OperatingMode
  pub voltage_v : F
  pub current_a : F
  pub temperature_c : F
  pub grid_frequency_hz : F
  pub alarm_registers : List ℕ
  pub sequence : ℕ

pub record PendingCommand (T : Type 0) : Type 0 where
  pub command_type : CommandType
  pub duration_seconds : Option ℤ
  pub target_soc_percent : Option ℤ
  pub ramp_duration_seconds : ℤ
  pub created_at : T
  pub source_id : Option ℤ

module _ {F T : Type 0} where
  unfoldable pub is_healthy : RtacState F T → Bool
  unfolding is_connected_status
  is_healthy s = is_connected_status s.connection_status && not (has_critical_alarm s.alarms)

  unfoldable pub is_available_for_commands : RtacState F T → Bool
  unfolding is_healthy
  is_available_for_commands s = is_healthy s && not (is_estop_active s.alarms)

  -- `RtacReading::from(&state)`
  unfoldable pub reading_of_state : RtacState F T → RtacReading F T
  reading_of_state s = record {
    timestamp = s.timestamp;
    soc_percent = s.soc_percent;
    power_kw = s.power_kw;
    mode = s.mode;
    voltage_v = s.voltage_v;
    current_a = s.current_a;
    temperature_c = s.temperature_c;
    grid_frequency_hz = s.grid_frequency_hz;
    alarm_registers = to_registers s.alarms;
    sequence = s.sequence;
  }

  -- `RtacState::default()`; `zero_f` is `0.0`.
  unfoldable pub default_state : F → T → RtacState F T
  default_state zero_f now = record {
    timestamp = now;
    soc_percent = zero_f;
    power_kw = zero_f;
    mode = OperatingMode.standby;
    alarms = no_flags;
    connection_status = disconnected;
    sequence = 0;
    voltage_v = zero_f;
    current_a = zero_f;
    temperature_c = zero_f;
    grid_frequency_hz = zero_f;
  }

module _ {T : Type 0} where
  -- `PendingCommand::standby`
  unfoldable pub standby_command : ℤ → T → PendingCommand T
  standby_command ramp now = record {
    command_type = CommandType.standby;
    duration_seconds = none;
    target_soc_percent = none;
    ramp_duration_seconds = ramp;
    created_at = now;
    source_id = none;
  }
