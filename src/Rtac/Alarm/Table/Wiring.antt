-- ===== src/Rtac/Alarm/Table/Wiring.antt =====
-- Facts about the whole alarm table, checked row by row and then stated of every row.
use mathlib.Core.List.{Memᴰ}
use neems_core.Prelude.Members.{all-mem, find-some, find-none, distinct, distinct-mem}
use neems_core.Rtac.RegisterMap.{alarm_register_count}
use neems_core.Rtac.Alarm.Definition.{AlarmDefinition, alarm, breaker_relay}
use neems_core.Rtac.Alarm.Table.{alarm_definitions, find_by_alarm_num, estop_alarm_num}
use neems_core.Prelude.{
  ℕ, refl, inl, inr, Bool, true, false, none, some, arith, ltb, leb, ==_iff, Option-cases, find,
  all, ◌+◌, ◌*◌, ◌≤◌, ◌<◌, ◌≡◌, ◌≢◌, ◌⊎◌, ◌&&◌, ◌==◌,
}

abbrev is_wired : AlarmDefinition → Bool
is_wired d =
    ltb d.register_index alarm_register_count && ltb d.bit 16 && leb 1 d.level && leb d.level 5

-- The place of an alarm among the 352 bits.
abbrev pub position : AlarmDefinition → ℕ
position d = d.register_index * 16 + d.bit

all_wired : all is_wired alarm_definitions ≡ true
unfolding alarm_definitions
all_wired = refl

distinct_positions : distinct position alarm_definitions ≡ true
unfolding alarm_definitions
distinct_positions = refl

pub distinct_numbers : distinct (λ d. d.alarm_num) alarm_definitions ≡ true
unfolding alarm_definitions
distinct_numbers = refl

-- Every alarm of the table has a register index below 22, a bit below 16 and a level from 1 to 5.
pub alarm_definitions_wired :
    (d : AlarmDefinition)
    → Memᴰ d alarm_definitions
    → (d.register_index < alarm_register_count) × (d.bit < 16) × (1 ≤ d.level) × (d.level ≤ 5)
alarm_definitions_wired d m =
    let w : is_wired d ≡ true = all-mem is_wired alarm_definitions d all_wired m in ground arith

-- Two alarms of the table with one alarm number, or with one register and bit, are the same alarm.
pub alarm_definitions_distinct :
    (d e : AlarmDefinition)
    → Memᴰ d alarm_definitions
    → Memᴰ e alarm_definitions
    → (d.alarm_num ≡ e.alarm_num) ⊎ ((d.register_index ≡ e.register_index) × (d.bit ≡ e.bit))
    → d ≡ e
alarm_definitions_distinct d e m n (inl same) =
    distinct-mem (λ d. d.alarm_num) alarm_definitions d e distinct_numbers m n same
alarm_definitions_distinct d e m n (inr same) =
    distinct-mem position alarm_definitions d e distinct_positions m n (omega arith)

abbrev has_number : ℕ → AlarmDefinition → Bool
has_number num d = d.alarm_num == num

pub ==-false : (a b : ℕ) → (a == b) ≡ false → a ≢ b
==-false a b h = ground arith

-- A lookup by number finds the alarm of the table with that number, and misses exactly the
-- numbers that no alarm has.
pub find_by_alarm_num_lem :
    (num : ℕ)
    → ((d : AlarmDefinition) × (find_by_alarm_num num ≡ some d)
        × Memᴰ d alarm_definitions
        × (d.alarm_num ≡ num))
      ⊎ ((find_by_alarm_num num ≡ none)
          × ((d : AlarmDefinition) → Memᴰ d alarm_definitions → d.alarm_num ≢ num))
unfolding find_by_alarm_num
find_by_alarm_num_lem num = elim (Option-cases (find (has_number num) alarm_definitions)) [
  | inl miss ↦ inr (
    miss,
    λ d m. ==-false d.alarm_num num (find-none (has_number num) alarm_definitions d miss m),
  )
  | inr (d, hit) ↦
      let (t, m) = find-some (has_number num) alarm_definitions d hit in
      inl (d, hit, m, (==_iff d.alarm_num num).0 t)
]

-- The row of the emergency stop.
abbrev pub estop : AlarmDefinition
estop = alarm estop_alarm_num breaker_relay "estop" 2 1 3

pub estop-found : find_by_alarm_num estop_alarm_num ≡ some estop
unfolding find_by_alarm_num
estop-found = refl

pub estop-mem : Memᴰ estop alarm_definitions
unfolding find_by_alarm_num
estop-mem = (find-some (has_number estop_alarm_num) alarm_definitions estop estop-found).1
