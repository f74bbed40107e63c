-- ===== src/Rtac/Alarm/Flags.antt =====
-- neems-data/src/rtac/state.rs: `AlarmFlags`, the 22 alarm registers as read from the RTAC.
-- An index of the table is below 22 and a bit below 16 (Table/Wiring), so no access is out of range
-- and no shift overflows.
pub mod Laws
pub mod Numbers
pub mod Severity
use Prim.Native.Nat.{bit_and, bit_or}
use mathlib.Core.Logic.{ite}
use neems_core.Rtac.RegisterMap.{alarm_register_count}
use neems_core.Rtac.Alarm.Definition.{AlarmDefinition, AlarmZone, AlarmZone-discrete}
use neems_core.Rtac.Alarm.Table.{alarm_definitions, find_by_alarm_num, estop_alarm_num}
use neems_core.Prelude.{
  ℕ, Bool, true, false, not, none, some, List, [], leb, get_or, set, replicate, any, filter, ◌-◌,
  ◌/◌, ◌^◌, ◌&&◌, ◌∷◌, ◌==◌, if◌then◌else◌,
}

pub record AlarmFlags : Type 0 where
  pub registers : List ℕ

-- `AlarmFlags::default()`
abbrev pub no_flags : AlarmFlags
no_flags = record { registers = replicate alarm_register_count 0 }

unfoldable pub from_registers : List ℕ → AlarmFlags
from_registers registers = record { registers = registers }

unfoldable pub to_registers : AlarmFlags → List ℕ
to_registers flags = flags.registers

-- `(registers[i] >> bit) & 1 != 0`
unfoldable pub is_alarm_active : AlarmFlags → AlarmDefinition → Bool
is_alarm_active flags def =
    not (bit_and (get_or flags.registers def.register_index 0 / 2 ^ def.bit) 1 == 0)

unfoldable pub is_alarm_num_active : AlarmFlags → ℕ → Bool
is_alarm_num_active flags num = elim (find_by_alarm_num num) [
  | none ↦ false
  | some d ↦ is_alarm_active flags d
]

-- `|= 1 << bit` and `&= !(1 << bit)` on a `u16`
unfoldable pub set_alarm : AlarmFlags → AlarmDefinition → Bool → AlarmFlags
set_alarm flags def active =
    let old : ℕ = get_or flags.registers def.register_index 0 in
    let new : ℕ = if active then bit_or old (2 ^ def.bit) else bit_and old (65535 - 2 ^ def.bit) in
    record { registers = set flags.registers def.register_index new }

unfoldable pub set_alarm_num : AlarmFlags → ℕ → Bool → AlarmFlags
set_alarm_num flags num active = elim (find_by_alarm_num num) [
  | none ↦ flags
  | some d ↦ set_alarm flags d active
]

unfoldable pub is_estop_active : AlarmFlags → Bool
is_estop_active flags = is_alarm_num_active flags estop_alarm_num

unfoldable pub has_any_alarm : AlarmFlags → Bool
has_any_alarm flags = any (λ r. not (r == 0)) flags.registers

unfoldable pub has_critical_alarm : AlarmFlags → Bool
has_critical_alarm flags =
    any (is_alarm_active flags) (filter (λ d. leb d.level 2) alarm_definitions)

unfoldable pub has_emergency_alarm : AlarmFlags → Bool
has_emergency_alarm flags =
    any (is_alarm_active flags) (filter (λ d. d.level == 1) alarm_definitions)

unfoldable pub active_alarms : AlarmFlags → List AlarmDefinition
active_alarms flags = filter (is_alarm_active flags) alarm_definitions

unfoldable pub active_alarms_in_zone : AlarmFlags → AlarmZone → List AlarmDefinition
active_alarms_in_zone flags zone =
    filter (λ d. ite (AlarmZone-discrete d.zone zone) true false && is_alarm_active flags d)
      alarm_definitions

-- The loop of `bitwise_or`, register by register.
unfoldable pub or_registers : List ℕ → List ℕ → List ℕ
or_registers [] ys = []
or_registers (x ∷ xs) [] = x ∷ xs
or_registers (x ∷ xs) (y ∷ ys) = bit_or x y ∷ or_registers xs ys

unfoldable pub bitwise_or : AlarmFlags → AlarmFlags → AlarmFlags
unfolding or_registers
bitwise_or a b = record { registers = or_registers a.registers b.registers }
