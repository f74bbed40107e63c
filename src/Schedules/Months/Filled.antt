-- ===== src/Schedules/Months/Filled.antt =====
-- neems-api/src/orm/application_rule.rs: the entries of the calendar of a month.
use Prim.Native.String.{String}
use neems_core.Schedules.Db.{Db, DbResult, Sqlite, err, ok, ◌>>=◌}
use neems_core.Schedules.Chrono.{Chrono, succ_opt}
use neems_core.Schedules.Rules.{EffectiveScheduleResponse, get_effective_schedule}
use neems_core.Schedules.Months.{
  CalendarDaySchedule, Days, add_day, day_of, day_schedule, get_calendar_schedules, insert_day,
  month_days, month_of, walk_days,
}
use mathlib.Core.Option
use mathlib.Core.Path.{subst}
use neems_core.Prelude.Texts.{same_text, same_text_iff}
use neems_core.Prelude.{
  ℕ, zero, suc, refl, sym, ap, inl, inr, true, false, not, Option, none, some, [], arith, filter,
  ltb, leb, Bool-cases, ◌+◌, ◌-◌, ◌≤◌, ◌<◌, ◌≡◌, ◌≢◌, ◌∙◌, ◌∷◌, if◌then◌else◌,
}

-- The schedule of a day where there is one.
abbrev pub found : {A : Type 0} → DbResult A → Option A
found (ok a) = some a
found (err e) = none

differ : (j k : String) → j ≢ k → same_text j k ≡ false
differ j k n = elim (Bool-cases (same_text j k)) [
  | inl t ↦ absurd (n ((same_text_iff j k).0 t))
  | inr f ↦ f
]

-- No date from one to another is written as a text.
abbrev Unwritten : Chrono → ℕ → ℕ → String → Type 0
Unwritten c day last k = (e : ℕ) → day ≤ e → e ≤ last → c.iso e ≢ k

-- No other date from one to another is written like a date.
abbrev pub IsUnambiguous : Chrono → ℕ → ℕ → ℕ → Type 0
IsUnambiguous c day last x = (e : ℕ) → day ≤ e → e ≤ last → c.iso e ≡ c.iso x → e ≡ x

module _ {A : Type 0} where
  day_of-filter :
      (m : Days A) (j k : String)
      → j ≢ k
      → day_of (filter (λ p. not (same_text p.0 j)) m) k ≡ day_of m k
  unfolding day_of
  day_of-filter [] j k n = refl
  day_of-filter ((i, a) ∷ m) j k n = elim (Bool-cases (same_text i j)) [
    | inl t ↦
        rw t (rw (differ i k (λ e. n (sym ((same_text_iff i j).0 t) ∙ e))) (day_of-filter m j k n))
    | inr f ↦ rw f (ap (λ o. if same_text i k then some a else o) (day_of-filter m j k n))
  ]

  day_of-add_day :
      (k : String) (r : DbResult A) (m : Days A)
      → day_of m k ≡ none
      → day_of (add_day k r m) k ≡ found r
  unfolding day_of add_day insert_day
  day_of-add_day k (ok a) m h = rw ((same_text_iff k k).1 refl) refl
  day_of-add_day k (err e) m h = h

  day_of-add_day_ne :
      (j k : String) (r : DbResult A) (m : Days A) → j ≢ k → day_of (add_day j r m) k ≡ day_of m k
  unfolding day_of add_day insert_day
  day_of-add_day_ne j k (ok a) m n = rw (differ j k n) (day_of-filter m j k n)
  day_of-add_day_ne j k (err e) m n = refl

  abbrev IsFilled : Chrono → (ℕ → DbResult A) → ℕ → ℕ → Days A → Days A → Type 0
  IsFilled c look last day m r =
      ((k : String) → Unwritten c day last k → day_of r k ≡ day_of m k)
      × ((x : ℕ)
          → day ≤ x
          → x ≤ last
          → IsUnambiguous c day last x
          → day_of m (c.iso x) ≡ none
          → day_of r (c.iso x) ≡ found (look x))

  walk_days-IsFilled :
      (c : Chrono) (look : ℕ → DbResult A) (last fuel day : ℕ) (m : Days A)
      → last < c.max
      → last < day + fuel
      → (r : Days A) × (walk_days c look last fuel day m ≡ ok r) × IsFilled c look last day m r
  unfolding walk_days succ_opt
  walk_days-IsFilled c look last zero day m h f =
      (m, refl, ((λ k u. refl), (λ x a b u n. absurd (omega (arith, f, a, b)))))
  walk_days-IsFilled c look last (suc fuel) day m h f = elim (Bool-cases (leb day last)) [
    | inr past ↦
        rw past (m, refl, ((λ k u. refl), (λ x a b u n. absurd (ground (arith, past, a, b)))))
    | inl within ↦
        let inside : ltb day c.max ≡ true = ground (arith, within, h) in
        let m' = add_day (c.iso day) (look day) m in
        let (r, e, (kept, filled)) =
          walk_days-IsFilled c look last fuel (suc day) m' h (omega (arith, f)) in
        rw within (
          rw inside (
            r,
            e,
            (
              (λ k u.
                  kept k (λ x a b. u x (omega (arith, a)) b)
                  ∙ day_of-add_day_ne (c.iso day) k (look day) m
                      (u day (omega arith) (ground (arith, within)))),
              (λ x a b u n. elim (Bool-cases (ltb day x)) [
                | inl later ↦
                    filled x (ground (arith, later)) b (λ t a' b' k. u t (omega (arith, a')) b' k)
                      (day_of-add_day_ne (c.iso day) (c.iso x) (look day) m (λ k.
                          absurd
                            (ground (arith, later, u day (omega arith) (ground (arith, within)) k)))
                        ∙ n)
                | inr same ↦
                    let eq : x ≡ day = ground (arith, same, a) in
                    subst (λ y. day_of r (c.iso y) ≡ found (look y)) (sym eq)
                      (kept (c.iso day) (λ t a' b' k. absurd (
                          ground
                            (arith, eq, a', u t (omega (arith, a')) b' (k ∙ ap c.iso (sym eq)))))
                        ∙ day_of-add_day (c.iso day) (look day) m
                            (subst (λ y. day_of m (c.iso y) ≡ none) eq n))
              ]),
            ),
          ))
  ]

  month_of-IsFilled :
      (c : Chrono) (look : ℕ → DbResult A) (year month first last : ℕ)
      → month_days c year month ≡ ok (first, last)
      → last < c.max
      → (r : Days A) × (month_of c look year month ≡ ok r) × IsFilled c look last first [] r
  unfolding month_of
  month_of-IsFilled c look year month first last h b =
      let (r, e, f) = walk_days-IsFilled c look last (last + 1 - first) first [] b (omega arith) in
      (r, rw h e, f)

pub get_calendar_schedules_lem :
    (c : Chrono) (q : Sqlite) (db : Db) (site year month first last day : ℕ)
    → month_days c year month ≡ ok (first, last)
    → last < c.max
    → first ≤ day
    → day ≤ last
    → IsUnambiguous c first last day
    → (days : Days CalendarDaySchedule) × ((get_calendar_schedules c q db site year month).0
        ≡ ok days)
      × (day_of days (c.iso day)
          ≡ Option.map day_schedule (
              found (
                get_effective_schedule c q
                  (get_calendar_schedules c q db site year month).1
                  site
                  day)))
unfolding get_calendar_schedules day_of
get_calendar_schedules_lem c q db site year month first last day h b s t u =
    let (r, e, (kept, filled)) = month_of-IsFilled c _ year month first last h b in
    (r, e, filled day s t u refl ∙ found-scheduled _)
  where
    found-scheduled :
        (s : DbResult EffectiveScheduleResponse)
        → found (s >>= λ x. ok (day_schedule x)) ≡ Option.map day_schedule (found s)
    found-scheduled (ok s) = refl
    found-scheduled (err e) = refl
