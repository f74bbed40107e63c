-- ===== src/Rtac/Alarm/Flags/Numbers.antt =====
-- Alarms by number: what setting one number does to every other.
use neems_core.Rtac.Alarm.Table.Wiring.{
  ==-false, alarm_definitions_distinct, alarm_definitions_wired, find_by_alarm_num_lem,
}
use neems_core.Rtac.Alarm.Definition.{AlarmDefinition}
use neems_core.Rtac.Alarm.Flags.{
  AlarmFlags, is_alarm_active, is_alarm_num_active, set_alarm, set_alarm_num,
}
use neems_core.Rtac.Alarm.Flags.Laws.{IsBlock, set_alarm-IsBlock, set_alarm-other, set_alarm_self}
use mathlib.Core.List.{Memᴰ}
use neems_core.Rtac.Alarm.Table.{alarm_definitions, find_by_alarm_num}
use neems_core.Rtac.Alarm.Flags.{AlarmFlags, is_alarm_num_active, set_alarm_num}
use neems_core.Rtac.Alarm.Flags.Laws.{IsBlock, set_alarm-IsBlock}
use neems_core.Rtac.Alarm.Table.Wiring.{alarm_definitions_wired, find_by_alarm_num_lem}
use neems_core.Rtac.Alarm.Table.{find_by_alarm_num}
use neems_core.Prelude.{
  ℕ, refl, inl, inr, Bool, false, none, some, arith, ==_iff, Bool-cases, is_some, ◌≡◌, ◌&&◌, ◌==◌,
  if◌then◌else◌,
}

pub active-known :
    (flags : AlarmFlags) (num : ℕ) (d : AlarmDefinition)
    → find_by_alarm_num num ≡ some d
    → is_alarm_num_active flags num ≡ is_alarm_active flags d
unfolding is_alarm_num_active
active-known flags num d e = rw (e, is_alarm_num_active)

active-unknown :
    (flags : AlarmFlags) (num : ℕ)
    → find_by_alarm_num num ≡ none
    → is_alarm_num_active flags num ≡ false
unfolding is_alarm_num_active
active-unknown flags num e = rw (e, is_alarm_num_active)

set-known :
    (flags : AlarmFlags) (num : ℕ) (d : AlarmDefinition) (active : Bool)
    → find_by_alarm_num num ≡ some d
    → set_alarm_num flags num active ≡ set_alarm flags d active
unfolding set_alarm_num
set-known flags num d active e = rw (e, set_alarm_num)

set-unknown :
    (flags : AlarmFlags) (num : ℕ) (active : Bool)
    → find_by_alarm_num num ≡ none
    → set_alarm_num flags num active ≡ flags
unfolding set_alarm_num
set-unknown flags num active e = rw (e, set_alarm_num)

-- Both numbers are known.
known_pair :
    (flags : AlarmFlags) (d e : AlarmDefinition) (active : Bool)
    → IsBlock flags
    → Memᴰ d alarm_definitions
    → Memᴰ e alarm_definitions
    → is_alarm_active (set_alarm flags d active) e
      ≡ (if d.alarm_num == e.alarm_num then active else is_alarm_active flags e)
known_pair flags d e active b m n = elim (Bool-cases (d.alarm_num == e.alarm_num)) [
  | inl same ↦
      let one : d ≡ e =
        alarm_definitions_distinct d e m n (inl ((==_iff d.alarm_num e.alarm_num).0 same)) in
      rw same (rw (← one) (set_alarm_self flags d active b m))
  | inr apart ↦
      rw apart (set_alarm-other flags d e active b m n (==-false d.alarm_num e.alarm_num apart))
]

-- In a block of 22 registers of 16 bits, setting or clearing an alarm number makes exactly that
-- alarm active or inactive: the result of every query by number is the value set, for that number
-- if the table knows it, and is unchanged for every other number; an unknown number changes
-- nothing.
pub is_alarm_num_active-set_alarm_num :
    (flags : AlarmFlags) (num other : ℕ) (active : Bool)
    → IsBlock flags
    → is_alarm_num_active (set_alarm_num flags num active) other ≡ (
        if is_some (find_by_alarm_num num) && num == other
        then active
        else is_alarm_num_active flags other)
is_alarm_num_active-set_alarm_num flags num other active b = elim (find_by_alarm_num_lem num) [
  | inr (miss, absent) ↦ rw (miss, set-unknown flags num active miss) refl
  | inl (d, hit, m, nd) ↦ elim (find_by_alarm_num_lem other) [
    | inr (missed, absent) ↦
        let apart : (num == other) ≡ false = ground (arith, absent d m) in
        rw
          (
            active-unknown flags other missed,
            active-unknown (set_alarm_num flags num active) other missed,
            apart,
          )
          (ground arith)
    | inl (e, hit', n, ne) ↦
        rw
          (
            hit,
            set-known flags num d active hit,
            active-known flags other e hit',
            active-known (set_alarm flags d active) other e hit',
            ← nd,
            ← ne,
          )
          (known_pair flags d e active b m n)
  ]
]

-- Setting or clearing an alarm keeps the block of 22 registers of 16 bits.
pub set_alarm_num-IsBlock :
    (flags : AlarmFlags) (num : ℕ) (active : Bool)
    → IsBlock flags
    → IsBlock (set_alarm_num flags num active)
set_alarm_num-IsBlock flags num active b = elim (find_by_alarm_num_lem num) [
  | inr (miss, absent) ↦ rw (set-unknown flags num active miss) b
  | inl (d, hit, m, nd) ↦
      let (hi, hb, _, _) = alarm_definitions_wired d m in
      rw (set-known flags num d active hit) (set_alarm-IsBlock flags d active b hi hb)
]
