-- ===== src/Rtac/History/Latest.antt =====
-- The history against the sequence of events that was recorded.
use neems_core.Rtac.History.{
  AlarmHistory, new_history, record_alarm, record_all, Alarm, active, active_after, cleared,
  push_event, remove_alarm,
}
use mathlib.Core.List.{append-nil, append_assoc}
use neems_core.Prelude.{
  ℕ, suc, refl, sym, ap, inl, inr, true, Option, none, some, List, [], arith, leb, Bool-cases,
  length, drop, find, length-append, length-drop, drop-append, drop_one-drop, ◌-◌, ◌≤◌, ◌<◌, ◌≡◌,
  ◌∙◌, ◌∷◌, ◌++◌, ◌==◌, if◌then◌else◌,
}

module _ {T : Type 0} where
  -- The entry of the active map for a number.
  abbrev pub active_for : ℕ → List (Alarm T) → Option (Alarm T)
  active_for n as' = find (λ a. a.alarm_num == n) as'

  -- The last event for a number, or `last` where there is none.
  pub latest : ℕ → Option (Alarm T) → List (Alarm T) → Option (Alarm T)
  latest n last [] = last
  latest n last (a ∷ as') = latest n (if a.alarm_num == n then some a else last) as'

  abbrev pub if_active : Option (Alarm T) → Option (Alarm T)
  if_active none = none
  if_active (some a) = elim a.state [ active ↦ some a | cleared ↦ none ]

  -- The last `m` entries.
  abbrev pub last_entries : ℕ → List (Alarm T) → List (Alarm T)
  last_entries m es = drop (length es - m) es

  active_for-remove :
      (n k : ℕ) (as' : List (Alarm T))
      → active_for n (remove_alarm k as') ≡ (if k == n then none else active_for n as')
  unfolding remove_alarm
  active_for-remove n k [] = ground arith
  active_for-remove n k (a ∷ as') = ground (arith, active_for-remove n k as')

  pub active_for-after :
      (n : ℕ) (a : Alarm T) (as' : List (Alarm T))
      → active_for n (active_after a a.state as')
        ≡ (if a.alarm_num == n then if_active (some a) else active_for n as')
  unfolding active_after
  active_for-after n a as' = ground (arith, active_for-remove n a.alarm_num as')

  push_lem :
      (m : ℕ) (es : List (Alarm T)) (a : Alarm T)
      → 0 < m
      → push_event m es a ≡ some (if leb m (length es) then drop 1 es ++ a ∷ [] else es ++ a ∷ [])
  unfolding push_event
  push_lem m [] a h = ground arith
  push_lem m (e ∷ es) a h = ground arith

  push-last_entries :
      (m : ℕ) (es : List (Alarm T)) (a : Alarm T)
      → 0 < m
      → push_event m (last_entries m es) a ≡ some (last_entries m (es ++ a ∷ []))
  push-last_entries m es a h =
      rw (push_lem m (last_entries m es) a h) (elim (Bool-cases (leb m (length es))) [
        | inl full ↦
            let held : leb m (length (last_entries m es)) ≡ true =
              ground (arith, length-drop (length es - m) es) in
            let index : length (es ++ a ∷ []) - m ≡ suc (length es - m) =
              ground (arith, length-append es (a ∷ [])) in
            let room : suc (length es - m) ≤ length es = ground arith in
            rw (
              held,
              index,
              drop-append (suc (length es - m)) es (a ∷ []) room,
              drop_one-drop (length es - m) es,
            )
        | inr free ↦
            let none_dropped : length es - m ≡ 0 = ground arith in
            let index : length (es ++ a ∷ []) - m ≡ 0 = ground (arith, length-append es (a ∷ [])) in
            rw (index, none_dropped, free)
      ])

  -- What holds of a history that was fed `es` from the state `h`.
  pub record Fed (m : ℕ) (es : List (Alarm T)) (h h' : AlarmHistory T) (seen : List (Alarm T))
      : Type 0 where
    pub same_max : h'.max_events ≡ m
    pub recent : h'.events ≡ last_entries m (seen ++ es)
    pub mapped :
        (n : ℕ) (last : Option (Alarm T))
        → active_for n h.active_alarms ≡ if_active last
        → active_for n h'.active_alarms ≡ if_active (latest n last es)

  record_step :
      (m : ℕ) (a : Alarm T) (h : AlarmHistory T) (seen : List (Alarm T))
      → 0 < m
      → h.max_events ≡ m
      → h.events ≡ last_entries m seen
      → (h' : AlarmHistory T) × (record_alarm h a ≡ some h') × Fed m (a ∷ []) h h' seen
  unfolding record_alarm latest
  record_step m a h seen pos' hm he = (
    record h {
      events = last_entries m (seen ++ a ∷ []);
      active_alarms = active_after a a.state h.active_alarms;
    },
    rw (hm, he, push-last_entries m seen a pos'),
    record {
      same_max = hm;
      recent = refl;
      mapped = λ n last e. ground (arith, active_for-after n a h.active_alarms);
    },
  )

  pub record_all-Fed :
      (m : ℕ) (es : List (Alarm T)) (h : AlarmHistory T) (seen : List (Alarm T))
      → 0 < m
      → h.max_events ≡ m
      → h.events ≡ last_entries m seen
      → (h' : AlarmHistory T) × (record_all h es ≡ some h') × Fed m es h h' seen
  unfolding record_all latest
  record_all-Fed m [] h seen pos' hm he = (
    h,
    refl,
    record {
      same_max = hm;
      recent = he ∙ ap (last_entries m) (sym (append-nil seen));
      mapped = λ n last e. e;
    },
  )
  record_all-Fed m (a ∷ es) h seen pos' hm he =
      let (h1, e1, f1) = record_step m a h seen pos' hm he in
      let (h2, e2, f2) = record_all-Fed m es h1 (seen ++ a ∷ []) pos' f1.same_max f1.recent in
      (
        h2,
        rw (e1, record_all) e2,
        record {
          same_max = f2.same_max;
          recent = f2.recent ∙ ap (last_entries m) (append_assoc seen (a ∷ []) es);
          mapped = λ n last e. f2.mapped n (latest n last (a ∷ [])) (f1.mapped n last e);
        },
      )

  drop_all : (m : ℕ) → [] ≡ last_entries m []
  drop_all m = let e : 0 - m ≡ 0 = omega arith in rw e

  -- With room for at least one event, recording any sequence of alarms into a new history does
  -- not panic; the events kept are the last `m`, and the active map holds for each number the
  -- latest event if that is an activation, and nothing otherwise.
  pub record_all-new_history :
      (m : ℕ) (es : List (Alarm T))
      → 0 < m
      → (h : AlarmHistory T) × (record_all (new_history m) es ≡ some h)
        × (h.events ≡ last_entries m es)
        × ((n : ℕ) → active_for n h.active_alarms ≡ if_active (latest n none es))
  unfolding new_history
  record_all-new_history m es room =
      let (h, e, f) = record_all-Fed m es (new_history m) [] room refl (drop_all m) in
      (h, e, f.recent, λ n. f.mapped n none refl)
