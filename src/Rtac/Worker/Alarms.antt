-- ===== src/Rtac/Worker/Alarms.antt =====
-- The alarms that `check_alarms` sends, as the alarm history records them.
use neems_core.Rtac.History.{
  Alarm, AlarmHistory, active_after, alarm_cleared, alarm_new, push_event, record_alarm, record_all,
}
use neems_core.Rtac.Alarm.Definition.{AlarmDefinition}
use neems_core.Rtac.Alarm.Flags.{AlarmFlags, is_alarm_active}
use mathlib.Core.List.{Memᴰ}
use neems_core.Rtac.History.Latest.{active_for-after, active_for, if_active}
use neems_core.Rtac.WorkerState.{alarm_change, alarm_changes}
use neems_core.Rtac.Alarm.Table.{alarm_definitions}
use neems_core.Prelude.Members.{all-mem, distinct}
use neems_core.Rtac.Alarm.Table.Wiring.{distinct_numbers}
use neems_core.Prelude.{
  ℕ, refl, ap, inl, inr, true, false, not, Option, none, some, List, [], arith, Option-cases,
  is_some, all, ◌≡◌, ◌∷◌, ◌++◌, ◌==◌, if◌then◌else◌,
}

module _ {T : Type 0} where
  -- What a sequence of events makes of the active entry for a number.
  abbrev pub after : ℕ → Option (Alarm T) → List (Alarm T) → Option (Alarm T)
  after n entry [] = entry
  after n entry (a ∷ es) = after n (if a.alarm_num == n then if_active (some a) else entry) es

  after-append :
      (n : ℕ) (entry : Option (Alarm T)) (xs ys : List (Alarm T))
      → after n entry (xs ++ ys) ≡ after n (after n entry xs) ys
  after-append n entry [] ys = refl
  after-append n entry (x ∷ xs) ys =
      after-append n (if x.alarm_num == n then if_active (some x) else entry) xs ys

  record_alarm-active :
      (h h' : AlarmHistory T) (a : Alarm T)
      → record_alarm h a ≡ some h'
      → h'.active_alarms ≡ active_after a a.state h.active_alarms
  unfolding record_alarm
  record_alarm-active h h' a e = elim (Option-cases (push_event h.max_events h.events a)) [
    | inl none' ↦ let bad : none ≡ some h' = rw none' at e in cc
    | inr (es, some') ↦ let good = rw some' at e in ground arith
  ]

  record_all-after :
      (h h' : AlarmHistory T) (es : List (Alarm T)) (n : ℕ)
      → record_all h es ≡ some h'
      → active_for n h'.active_alarms ≡ after n (active_for n h.active_alarms) es
  unfolding record_all
  record_all-after h h' [] n e = ap (λ (o : AlarmHistory T). active_for n o.active_alarms) same
    where
      same : h' ≡ h
      same = ground arith
  record_all-after h h' (a ∷ es) n e = elim (Option-cases (record_alarm h a)) [
    | inl panics ↦ let bad : none ≡ some h' = rw (panics, record_all) at e in cc
    | inr (h1, fine) ↦
        let later : record_all h1 es ≡ some h' = rw (fine, record_all) at e in
        rw (
          record_all-after h1 h' es n later,
          record_alarm-active h h1 a fine,
          active_for-after n a h.active_alarms,
        )
  ]

  -- One row of the table: another number is left alone, its own follows the new flag.
  change_other :
      (old new : AlarmFlags) (now : T) (e : AlarmDefinition) (n : ℕ) (entry : Option (Alarm T))
      → (e.alarm_num == n) ≡ false
      → after n entry (alarm_change old new now e) ≡ entry
  unfolding alarm_change alarm_new alarm_cleared
  change_other old new now e n entry h = ground arith

  change_self :
      (old new : AlarmFlags) (now : T) (d : AlarmDefinition) (entry : Option (Alarm T))
      → is_some entry ≡ is_alarm_active old d
      → is_some (after d.alarm_num entry (alarm_change old new now d)) ≡ is_alarm_active new d
  unfolding alarm_change alarm_new alarm_cleared
  change_self old new now d entry h = ground arith

  changes_absent :
      (old new : AlarmFlags) (now : T) (ds : List AlarmDefinition) (n : ℕ)
      (entry : Option (Alarm T))
      → all (λ (e : AlarmDefinition). not (e.alarm_num == n)) ds ≡ true
      → after n entry (alarm_changes old new now ds) ≡ entry
  unfolding alarm_changes
  changes_absent old new now [] n entry h = refl
  changes_absent old new now (e ∷ ds) n entry h =
      rw
        (
          after-append n entry (alarm_change old new now e) (alarm_changes old new now ds),
          change_other old new now e n entry (ground arith),
        )
        (changes_absent old new now ds n entry (ground arith))

  changes_present :
      (old new : AlarmFlags) (now : T) (ds : List AlarmDefinition) (d : AlarmDefinition)
      (entry : Option (Alarm T))
      → distinct (λ (e : AlarmDefinition). e.alarm_num) ds ≡ true
      → Memᴰ d ds
      → is_some entry ≡ is_alarm_active old d
      → is_some (after d.alarm_num entry (alarm_changes old new now ds)) ≡ is_alarm_active new d
  unfolding alarm_changes
  changes_present old new now [] d entry u m h = elim m [ ]
  changes_present old new now (e ∷ ds) d entry u (Memᴰ.head p) h = rw p (
      rw
        (
          after-append e.alarm_num entry (alarm_change old new now e)
              (alarm_changes old new now ds),
          changes_absent old new now ds e.alarm_num
              (after e.alarm_num entry (alarm_change old new now e)) (ground arith),
        )
        (change_self old new now e entry (rw p at h)))
  changes_present old new now (e ∷ ds) d entry u (Memᴰ.tail m) h =
      let apart : not (d.alarm_num == e.alarm_num) ≡ true =
        all-mem (λ (y : AlarmDefinition). not (y.alarm_num == e.alarm_num)) ds d (ground arith) m in
      rw
        (
          after-append d.alarm_num entry (alarm_change old new now e)
              (alarm_changes old new now ds),
          change_other old new now e d.alarm_num entry (ground arith),
        )
        (changes_present old new now ds d entry (ground arith) m h)

  -- The active map of the history and the flags name the same alarms of the table.
  abbrev pub Mirrors : AlarmHistory T → AlarmFlags → Type 0
  Mirrors h flags =
      (d : AlarmDefinition)
      → Memᴰ d alarm_definitions
      → is_some (active_for d.alarm_num h.active_alarms) ≡ is_alarm_active flags d

  pub changes-Mirrors :
      (old new : AlarmFlags) (now : T) (h h' : AlarmHistory T)
      → Mirrors h old
      → record_all h (alarm_changes old new now alarm_definitions) ≡ some h'
      → Mirrors h' new
  changes-Mirrors old new now h h' mirror e d m =
      rw (record_all-after h h' _ d.alarm_num e)
        (changes_present old new now alarm_definitions d _ distinct_numbers m (mirror d m))
