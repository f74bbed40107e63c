-- ===== src/Rtac/Storage/Samples.antt =====
-- What a sample keeps of the alarms of the readings that it stands for.
use neems_core.Rtac.Alarm.Definition.{AlarmDefinition}
use neems_core.Rtac.Alarm.Flags.{
  to_registers, no_flags, AlarmFlags, bitwise_or, from_registers, is_alarm_active, or_registers,
}
use neems_core.Rtac.State.{RtacReading}
use neems_core.Rtac.Alarm.Flags.Laws.{active-digit}
use neems_core.Rtac.RegisterMap.{alarm_register_count}
use Prim.Native.Nat.{bit_or}
use neems_core.Prelude.Bits.{digit, digit-bit_or, digit-lt}
use neems_core.Rtac.Storage.{averaged, or_all, take_averaged}
use neems_core.Platform.Float.{Float32}
use mathlib.Core.List.{Memᴰ}
use neems_core.Rtac.Alarm.Table.{alarm_definitions}
use neems_core.Prelude.Members.{all-mem}
use neems_core.Rtac.Worker.Alarms.{after}
use neems_core.Rtac.Alarm.Table.Wiring.{alarm_definitions_wired}
use neems_core.Prelude.{
  ℕ, zero, suc, refl, ap, Bool, true, false, not, some, List, [], arith, length, get_or, any, all,
  ◌<◌, ◌≡◌, ◌∙◌, ◌||◌, ◌∷◌,
}

-- The registers of a reading, as flags.
abbrev pub flags_of : {F T : Type 0} → RtacReading F T → AlarmFlags
flags_of r = from_registers r.alarm_registers

-- Whether some reading has the alarm active.
abbrev pub any_active : {F T : Type 0} → AlarmDefinition → List (RtacReading F T) → Bool
any_active d rs = any (λ r. is_alarm_active (flags_of r) d) rs

length-or_registers : (xs ys : List ℕ) → length (or_registers xs ys) ≡ length xs
unfolding or_registers
length-or_registers [] ys = refl
length-or_registers (x ∷ xs) [] = refl
length-or_registers (x ∷ xs) (y ∷ ys) = ap suc (length-or_registers xs ys)

get_or-or_registers :
    (xs ys : List ℕ) (i : ℕ)
    → i < length xs
    → length xs ≡ length ys
    → get_or (or_registers xs ys) i 0 ≡ bit_or (get_or xs i 0) (get_or ys i 0)
unfolding or_registers
get_or-or_registers [] ys i h e = ground arith
get_or-or_registers (x ∷ xs) [] i h e = ground arith
get_or-or_registers (x ∷ xs) (y ∷ ys) zero h e = refl
get_or-or_registers (x ∷ xs) (y ∷ ys) (suc i) h e =
    get_or-or_registers xs ys i (ground arith) (ground arith)

-- An alarm is active in the union of two blocks exactly when it is active in one of them.
pub is_alarm_active-bitwise_or :
    (a b : AlarmFlags) (d : AlarmDefinition)
    → length a.registers ≡ alarm_register_count
    → length b.registers ≡ alarm_register_count
    → d.register_index < alarm_register_count
    → is_alarm_active (bitwise_or a b) d ≡ (is_alarm_active a d || is_alarm_active b d)
unfolding bitwise_or
is_alarm_active-bitwise_or a b d ha hb hd =
    let x : ℕ = get_or a.registers d.register_index 0 in
    let y : ℕ = get_or b.registers d.register_index 0 in
    let word =
      get_or-or_registers a.registers b.registers d.register_index (ground arith) (ground arith) in
    let bit = digit-bit_or d.bit x y in
    let ex = active-digit a d in
    let ey = active-digit b d in
    let eu = active-digit (bitwise_or a b) d in
    ground (arith, ex, ey, eu, word, bit, digit-lt d.bit x, digit-lt d.bit y, ap (digit d.bit) word)

module _ {F T : Type 0} where
  -- Every reading has the 22 registers of the source's array.
  abbrev pub AreBlocks : List (RtacReading F T) → Type 0
  AreBlocks rs = (r : RtacReading F T) → Memᴰ r rs → length r.alarm_registers ≡ alarm_register_count

  or_all-active :
      (acc : AlarmFlags) (rs : List (RtacReading F T)) (d : AlarmDefinition)
      → length acc.registers ≡ alarm_register_count
      → AreBlocks rs
      → d.register_index < alarm_register_count
      → is_alarm_active (or_all acc rs) d ≡ (is_alarm_active acc d || any_active d rs)
  unfolding or_all
  or_all-active acc [] d h blocks hd = ground arith
  or_all-active acc (r ∷ rs) d h blocks hd =
      let here = blocks r (Memᴰ.head refl) in
      let joined =
        is_alarm_active-bitwise_or acc (flags_of r) d h (unfold from_registers in here) hd in
      let wide : length (bitwise_or acc (flags_of r)).registers ≡ alarm_register_count =
        unfold bitwise_or in (length-or_registers acc.registers (flags_of r).registers ∙ h) in
      or_all-active (bitwise_or acc (flags_of r)) rs d wide (λ q m. blocks q (Memᴰ.tail m)) hd
      ∙ ground (arith, joined)

none_active : all (λ d. not (is_alarm_active no_flags d)) alarm_definitions ≡ true
unfolding is_alarm_active alarm_definitions
none_active = refl

no_flags-inactive :
    (d : AlarmDefinition) → Memᴰ d alarm_definitions → is_alarm_active no_flags d ≡ false
no_flags-inactive d m =
    ground
      (arith, all-mem (λ d. not (is_alarm_active no_flags d)) alarm_definitions d none_active m)

-- Sampling a non-empty period gives one reading and empties the sampler. In that reading an alarm
-- of the table is active exactly when it is active in some reading of the period.
pub take_averaged_lem :
    (fl : Float32) {T : Type 0} (n : ℕ) (r : RtacReading fl.F T) (rs : List (RtacReading fl.F T))
    → AreBlocks (r ∷ rs)
    → let (after, result) = take_averaged fl (record { readings = r ∷ rs; sample_count = n }) in
      (after.readings ≡ [])
      × ((avg : RtacReading fl.F T) × (result ≡ some avg)
          × ((d : AlarmDefinition)
              → Memᴰ d alarm_definitions
              → is_alarm_active (flags_of avg) d ≡ any_active d (r ∷ rs)))
unfolding take_averaged averaged from_registers to_registers
take_averaged_lem fl n r rs blocks = (
  refl,
  (
    averaged fl r rs,
    refl,
    λ d m.
        or_all-active no_flags (r ∷ rs) d refl blocks (alarm_definitions_wired d m).0
        ∙ ground (arith, no_flags-inactive d m),
  ),
)
