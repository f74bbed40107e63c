-- ===== src/Rtac/Alarm/Flags/Severity.antt =====
-- The queries by severity, and the emergency stop.
use neems_core.Rtac.Alarm.Definition.{AlarmDefinition}
use neems_core.Rtac.Alarm.Flags.{
  AlarmFlags, has_critical_alarm, has_emergency_alarm, is_alarm_active, is_estop_active,
}
use mathlib.Core.List.{Memᴰ}
use neems_core.Rtac.Alarm.Flags.Numbers.{active-known}
use neems_core.Rtac.Alarm.Table.{alarm_definitions, estop_alarm_num}
use neems_core.Rtac.Alarm.Table.Wiring.{estop, estop-found, estop-mem}
use neems_core.Prelude.{
  refl, sym, ap, inl, inr, Bool, true, List, [], arith, leb, leb→le, Bool-cases, any, filter, ◌≤◌,
  ◌≡◌, ◌∙◌, ◌↔◌, ◌&&◌, ◌∷◌, ◌==◌,
}

any-filter-mem {ℓ} :
    {A : Type ℓ} (p q : A → Bool) (xs : List A) (a : A)
    → Memᴰ a xs
    → p a ≡ true
    → q a ≡ true
    → any q (filter p xs) ≡ true
any-filter-mem p q [] a m h k = elim m [ ]
any-filter-mem p q (x ∷ xs) a (Memᴰ.head e) h k = ground (arith, ap p e, ap q e)
any-filter-mem p q (x ∷ xs) a (Memᴰ.tail m) h k = ground (arith, any-filter-mem p q xs a m h k)

any-filter-some {ℓ} :
    {A : Type ℓ} (p q : A → Bool) (xs : List A)
    → any q (filter p xs) ≡ true
    → (a : A) × Memᴰ a xs × (p a ≡ true) × (q a ≡ true)
any-filter-some p q [] h = cc
any-filter-some p q (x ∷ xs) h = elim (Bool-cases (p x && q x)) [
  | inl both ↦ (x, Memᴰ.head refl, ground arith, ground arith)
  | inr rest ↦
      let (a, m, hp, hq) = any-filter-some p q xs (ground arith) in (a, Memᴰ.tail m, hp, hq)
]

-- A critical alarm is reported exactly when some alarm of the table at level 1 or 2 is active.
pub has_critical_alarm_iff :
    (flags : AlarmFlags)
    → (has_critical_alarm flags ≡ true) ↔ (
        (d : AlarmDefinition) × Memᴰ d alarm_definitions
        × (d.level ≤ 2)
        × (is_alarm_active flags d ≡ true))
unfolding has_critical_alarm
has_critical_alarm_iff flags = (
  λ h.
      let (d, m, l, a) =
        any-filter-some (λ (d : AlarmDefinition). leb d.level 2) (is_alarm_active flags)
          alarm_definitions h in
      (d, m, leb→le d.level 2 l, a),
  λ w.
      any-filter-mem (λ (d : AlarmDefinition). leb d.level 2) (is_alarm_active flags)
        alarm_definitions w.0 w.1 (ground (arith, w.2)) w.3,
)

-- An active emergency stop is a critical alarm.
pub estop-critical :
    (flags : AlarmFlags) → is_estop_active flags ≡ true → has_critical_alarm flags ≡ true
unfolding is_estop_active has_critical_alarm
estop-critical flags h =
    any-filter-mem (λ d. leb d.level 2) (is_alarm_active flags) alarm_definitions estop estop-mem
      refl (sym (active-known flags estop_alarm_num estop estop-found) ∙ h)

-- An active alarm at level 1 is critical too.
pub emergency-critical :
    (flags : AlarmFlags) → has_emergency_alarm flags ≡ true → has_critical_alarm flags ≡ true
unfolding has_emergency_alarm has_critical_alarm
emergency-critical flags h =
    let (d, m, l, a) =
      any-filter-some (λ (d : AlarmDefinition). d.level == 1) (is_alarm_active flags)
        alarm_definitions h in
    any-filter-mem (λ (d : AlarmDefinition). leb d.level 2) (is_alarm_active flags)
      alarm_definitions d m (ground arith) a
