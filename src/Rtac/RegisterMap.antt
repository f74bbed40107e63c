-- ===== src/Rtac/RegisterMap.antt =====
-- `RegisterMap` of neems-data/src/rtac/protocol.rs, and `ALARM_REGISTER_COUNT`.
use neems_core.Prelude.{ℕ, ◌+◌}

abbrev pub alarm_register_count : ℕ
alarm_register_count = 22

abbrev pub status_mode : ℕ
status_mode = 0

abbrev pub status_soc : ℕ
status_soc = 1

abbrev pub status_power_high : ℕ
status_power_high = 2

abbrev pub status_power_low : ℕ
status_power_low = 3

abbrev pub status_voltage : ℕ
status_voltage = 4

abbrev pub status_current : ℕ
status_current = 5

abbrev pub status_temperature : ℕ
status_temperature = 6

abbrev pub status_grid_frequency : ℕ
status_grid_frequency = 7

abbrev pub status_alarms_start : ℕ
status_alarms_start = 8

abbrev pub status_read_count : ℕ
status_read_count = 8 + alarm_register_count

abbrev pub cmd_write_count : ℕ
cmd_write_count = 5

abbrev pub cmd_start_address : ℕ
cmd_start_address = 100
