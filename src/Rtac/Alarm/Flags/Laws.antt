-- ===== src/Rtac/Alarm/Flags/Laws.antt =====
-- Setting and clearing one alarm changes that alarm and no other.
use Prim.Native.Nat.{bit_and, bit_or}
use neems_core.Prelude.Bits.{
  bit_and-le, bit_or-lt, pow-lt_word, digit, digit-shift, digit-lt, digit-bit_or, digit-bit_and,
  bit_and-one, digit-set_mask, digit-clear_mask,
}
use neems_core.Rtac.RegisterMap.{alarm_register_count}
use neems_core.Rtac.Alarm.Definition.{AlarmDefinition}
use neems_core.Rtac.Alarm.Flags.{AlarmFlags, is_alarm_active, set_alarm}
use mathlib.Core.List.{Memᴰ}
use neems_core.Rtac.Alarm.Table.{alarm_definitions}
use neems_core.Rtac.Alarm.Table.Wiring.{alarm_definitions_distinct, alarm_definitions_wired}
use neems_core.Prelude.{
  ℕ, refl, ap, inl, inr, Bool, true, false, arith, ==_iff, Bool-cases, length, get_or, length-set,
  get_or-set_self, get_or-set_ne, ◌-◌, ◌/◌, ◌^◌, ◌<◌, ◌≡◌, ◌∙◌, ◌≢◌, ◌==◌, if◌then◌else◌,
}

-- 22 registers of 16 bits each.
pub record IsBlock (flags : AlarmFlags) : Type 0 where
  pub block_length : length flags.registers ≡ alarm_register_count
  pub words : (i : ℕ) → get_or flags.registers i 0 < 65536

pub active-digit :
    (flags : AlarmFlags) (d : AlarmDefinition)
    → is_alarm_active flags d ≡ (digit d.bit (get_or flags.registers d.register_index 0) == 1)
unfolding is_alarm_active
active-digit flags d =
    let r : ℕ = get_or flags.registers d.register_index 0 in
    ground (arith, bit_and-one (r / 2 ^ d.bit), digit-shift d.bit r, digit-lt d.bit r)

set_alarm-get :
    (flags : AlarmFlags) (d : AlarmDefinition) (active : Bool)
    → d.register_index < length flags.registers
    → get_or (set_alarm flags d active).registers d.register_index 0 ≡ (
        if active
        then bit_or (get_or flags.registers d.register_index 0) (2 ^ d.bit)
        else bit_and (get_or flags.registers d.register_index 0) (65535 - 2 ^ d.bit))
unfolding set_alarm
set_alarm-get flags d active h = get_or-set_self flags.registers d.register_index _ 0 h

-- The digit at place `k` of the register that was written.
set_alarm-digit :
    (flags : AlarmFlags) (d : AlarmDefinition) (active : Bool) (k : ℕ)
    → IsBlock flags
    → d.register_index < alarm_register_count
    → d.bit < 16
    → k < 16
    → digit k (get_or (set_alarm flags d active).registers d.register_index 0) ≡ (
        if k == d.bit
        then (if active then 1 else 0)
        else digit k (get_or flags.registers d.register_index 0))
set_alarm-digit flags d true k b hi hb hk =
    let r : ℕ = get_or flags.registers d.register_index 0 in
    rw (set_alarm-get flags d true (omega (arith, b.block_length)))
      (ground (arith, digit-bit_or k r (2 ^ d.bit), digit-set_mask k d.bit hk hb, digit-lt k r))
set_alarm-digit flags d false k b hi hb hk =
    let r : ℕ = get_or flags.registers d.register_index 0 in
    rw (set_alarm-get flags d false (omega (arith, b.block_length))) (
      ground (
        arith,
        digit-bit_and k r (65535 - 2 ^ d.bit),
        digit-clear_mask k d.bit hk hb,
        digit-lt k r,
      ))

set_alarm-elsewhere :
    (flags : AlarmFlags) (d : AlarmDefinition) (active : Bool) (i : ℕ)
    → d.register_index ≢ i
    → get_or (set_alarm flags d active).registers i 0 ≡ get_or flags.registers i 0
unfolding set_alarm
set_alarm-elsewhere flags d active i h = get_or-set_ne flags.registers d.register_index i _ 0 h

new_word-lt :
    (active : Bool) (r j : ℕ)
    → r < 65536
    → j < 16
    → (if active then bit_or r (2 ^ j) else bit_and r (65535 - 2 ^ j)) < 65536
new_word-lt true r j h hj = bit_or-lt r (2 ^ j) h (pow-lt_word j hj)
new_word-lt false r j h hj = omega (arith, bit_and-le r (65535 - 2 ^ j))

pub set_alarm-IsBlock :
    (flags : AlarmFlags) (d : AlarmDefinition) (active : Bool)
    → IsBlock flags
    → d.register_index < alarm_register_count
    → d.bit < 16
    → IsBlock (set_alarm flags d active)
set_alarm-IsBlock flags d active b hi hb = record {
  block_length = kept_length;
  words = λ i. elim (Bool-cases (d.register_index == i)) [
    | inl here ↦ rw (← (==_iff d.register_index i).0 here) written
    | inr there ↦ rw (set_alarm-elsewhere flags d active i (ground arith)) (b.words i)
  ];
}
  where
    kept_length : length (set_alarm flags d active).registers ≡ alarm_register_count
    kept_length = unfold set_alarm in length-set flags.registers d.register_index _ ∙ b.block_length

    written : get_or (set_alarm flags d active).registers d.register_index 0 < 65536
    written =
        rw (set_alarm-get flags d active (omega (arith, b.block_length)))
          (new_word-lt active _ d.bit (b.words d.register_index) hb)

set_alarm-digit_other :
    (flags : AlarmFlags) (d e : AlarmDefinition) (active : Bool)
    → IsBlock flags
    → d.register_index < alarm_register_count
    → d.bit < 16
    → e.bit < 16
    → d.register_index ≡ e.register_index
    → d.bit ≢ e.bit
    → digit e.bit (get_or (set_alarm flags d active).registers e.register_index 0)
      ≡ digit e.bit (get_or flags.registers e.register_index 0)
set_alarm-digit_other flags d e active b hi hb he same apart =
    rw (← same) (ground (arith, set_alarm-digit flags d active e.bit b hi hb he))

-- Two alarms of the table at different places: writing one does not move the other.
pub set_alarm-other :
    (flags : AlarmFlags) (d e : AlarmDefinition) (active : Bool)
    → IsBlock flags
    → Memᴰ d alarm_definitions
    → Memᴰ e alarm_definitions
    → d.alarm_num ≢ e.alarm_num
    → is_alarm_active (set_alarm flags d active) e ≡ is_alarm_active flags e
set_alarm-other flags d e active b m n apart =
    let (di, db, _, _) = alarm_definitions_wired d m in
    let (ei, eb, _, _) = alarm_definitions_wired e n in
    rw (active-digit (set_alarm flags d active) e, active-digit flags e)
      (elim (Bool-cases (d.register_index == e.register_index)) [
        | inl same ↦
            let there : d.register_index ≡ e.register_index = (==_iff _ _).0 same in
            let bits : d.bit ≢ e.bit = λ eq. apart (
              ap (λ (x : AlarmDefinition). x.alarm_num)
                (alarm_definitions_distinct d e m n (inr (there, eq)))) in
            rw (set_alarm-digit_other flags d e active b di db eb there bits)
        | inr differ ↦ rw (set_alarm-elsewhere flags d active e.register_index (ground arith)) refl
      ])

pub set_alarm_self :
    (flags : AlarmFlags) (d : AlarmDefinition) (active : Bool)
    → IsBlock flags
    → Memᴰ d alarm_definitions
    → is_alarm_active (set_alarm flags d active) d ≡ active
set_alarm_self flags d active b m =
    let (di, db, _, _) = alarm_definitions_wired d m in
    rw (active-digit (set_alarm flags d active) d)
      (ground (arith, set_alarm-digit flags d active d.bit b di db db))
