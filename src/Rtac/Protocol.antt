-- ===== src/Rtac/Protocol.antt =====
-- neems-data/src/rtac/protocol.rs: operating modes and command types, and their register codes.
-- A `u16` register is a number; its range is a hypothesis of the theorems.
use neems_core.Prelude.{ℕ, Bool, true, false, Option, none, some, ◌==◌, if◌then◌else◌}

pub data OperatingMode : Type 0 where
  standby charging discharging trickle_charge fault emergency_stop initializing : OperatingMode
  unknown : ℕ → OperatingMode

unfoldable pub mode_from_register : ℕ → OperatingMode
mode_from_register value =
    if value == 0
    then standby
    else if value == 1
    then charging
    else if value == 2
    then discharging
    else if value == 3
    then trickle_charge
    else if value == 4
    then fault
    else if value == 5
    then emergency_stop
    else if value == 6
    then initializing
    else unknown value

unfoldable pub mode_to_register : OperatingMode → ℕ
mode_to_register standby = 0
mode_to_register charging = 1
mode_to_register discharging = 2
mode_to_register trickle_charge = 3
mode_to_register fault = 4
mode_to_register emergency_stop = 5
mode_to_register initializing = 6
mode_to_register (unknown v) = v

unfoldable pub is_active : OperatingMode → Bool
is_active charging = true
is_active discharging = true
is_active trickle_charge = true
is_active _ = false

unfoldable pub is_fault : OperatingMode → Bool
is_fault fault = true
is_fault emergency_stop = true
is_fault _ = false

-- The constructors of `CommandType`; three share a word with a mode.
pub data CommandType : Type 0 where
  standby charge discharge trickle_charge emergency_stop clear_faults : CommandType

unfoldable pub command_to_register : CommandType → ℕ
command_to_register CommandType.standby = 0
command_to_register charge = 1
command_to_register discharge = 2
command_to_register CommandType.trickle_charge = 3
command_to_register CommandType.emergency_stop = 4
command_to_register clear_faults = 5

unfoldable pub command_from_register : ℕ → Option CommandType
command_from_register value =
    if value == 0
    then some CommandType.standby
    else if value == 1
    then some charge
    else if value == 2
    then some discharge
    else if value == 3
    then some CommandType.trickle_charge
    else if value == 4
    then some CommandType.emergency_stop
    else if value == 5
    then some clear_faults
    else none

-- The derived `==`.
unfoldable pub command_eq : CommandType → CommandType → Bool
command_eq CommandType.standby CommandType.standby = true
command_eq charge charge = true
command_eq discharge discharge = true
command_eq CommandType.trickle_charge CommandType.trickle_charge = true
command_eq CommandType.emergency_stop CommandType.emergency_stop = true
command_eq clear_faults clear_faults = true
command_eq _ _ = false
