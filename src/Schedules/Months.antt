-- ===== src/Schedules/Months.antt =====
-- neems-api/src/orm/application_rule.rs, `get_calendar_schedules` and
-- `get_calendar_schedules_with_matches`: the schedules of the days of a month, under the text of
-- each date. A `HashMap` is an association list with one entry to a key.
pub mod Filled
use Prim.Native.String.{String}
use neems_core.Schedules.Db.{
  Db, DbResult, Sqlite, err, fail_if, invalid_data, ok, or_fail, ◌>>=◌, ◌>>◌,
}
use neems_core.Schedules.Chrono.{Chrono, pred_opt, succ_opt}
use neems_core.Schedules.Rules.{
  CalendarDayScheduleMatches, EffectiveScheduleResponse, get_all_matching_schedules,
  get_effective_schedule,
}
use neems_core.Schedules.Store.{after, ensure_default_schedule_exists}
use neems_core.Prelude.Texts.{same_text}
use neems_core.Prelude.{
  ℕ, zero, suc, not, Option, none, some, List, [], filter, leb, ◌+◌, ◌-◌, ◌&&◌, ◌∷◌, ◌==◌,
  if◌then◌else◌,
}

pub record CalendarDaySchedule : Type 0 where
  pub library_item_id : ℕ
  pub library_item_name : String
  pub specificity : ℕ
  pub rule_id : ℕ

abbrev pub Days : Type 0 → Type 0
Days A = List (String × A)

-- `HashMap::insert`
unfoldable pub insert_day : {A : Type 0} → String → A → Days A → Days A
insert_day k a m = (k, a) ∷ filter (λ p. not (same_text p.0 k)) m

-- `HashMap::get`
unfoldable pub day_of : {A : Type 0} → Days A → String → Option A
day_of [] k = none
day_of ((j, a) ∷ m) k = if same_text j k then some a else day_of m k

-- A day whose schedule cannot be found is passed over.
unfoldable pub add_day : {A : Type 0} → String → DbResult A → Days A → Days A
unfolding insert_day
add_day k (ok a) m = insert_day k a m
add_day k (err e) m = m

-- The loop over the days up to the last, on fuel: the number of days left.
unfoldable pub walk_days :
    {A : Type 0} → Chrono → (ℕ → DbResult A) → ℕ → ℕ → ℕ → Days A → DbResult (Days A)
unfolding add_day succ_opt
walk_days c look last zero day m = ok m
walk_days c look last (suc fuel) day m =
    if leb day last
    then or_fail (succ_opt c day) invalid_data
      >>= (λ next. walk_days c look last fuel next (add_day (c.iso day) (look day) m))
    else ok m

-- The first and the last day of a month.
unfoldable pub month_days : Chrono → ℕ → ℕ → DbResult (ℕ × ℕ)
unfolding pred_opt
month_days c year month =
    fail_if (not (leb 1 month && leb month 12)) invalid_data
    >> or_fail (c.from_ymd_opt year month 1) invalid_data
    >>= λ first_day.
        or_fail
          (if month == 12 then c.from_ymd_opt (year + 1) 1 1 else c.from_ymd_opt year (month + 1) 1)
          invalid_data
        >>= λ next_first.
            or_fail (pred_opt next_first) invalid_data >>= λ last_day. ok (first_day, last_day)

unfoldable pub month_of : {A : Type 0} → Chrono → (ℕ → DbResult A) → ℕ → ℕ → DbResult (Days A)
unfolding walk_days month_days
month_of c look year month = month_days c year month >>= λ (first_day, last_day).
    walk_days c look last_day (last_day + 1 - first_day) first_day []

unfoldable pub day_schedule : EffectiveScheduleResponse → CalendarDaySchedule
day_schedule s = record {
  library_item_id = s.library_item.id;
  library_item_name = s.library_item.name;
  specificity = s.specificity;
  rule_id = s.rule.id;
}

-- The schedules, and the tables after it, in which the default schedule may be new.
unfoldable pub get_calendar_schedules :
    Chrono → Sqlite → Db → ℕ → ℕ → ℕ → DbResult (Days CalendarDaySchedule) × Db
unfolding month_of day_schedule get_effective_schedule ensure_default_schedule_exists
get_calendar_schedules c q db site year month =
    let db' = after db (ensure_default_schedule_exists q db site) in
    (
      month_of c (λ day. get_effective_schedule c q db' site day >>= λ s. ok (day_schedule s)) year
          month,
      db',
    )

unfoldable pub get_calendar_schedules_with_matches :
    Chrono → Sqlite → Db → ℕ → ℕ → ℕ → DbResult (Days CalendarDayScheduleMatches) × Db
unfolding month_of get_all_matching_schedules ensure_default_schedule_exists
get_calendar_schedules_with_matches c q db site year month =
    let db' = after db (ensure_default_schedule_exists q db site) in
    (month_of c (get_all_matching_schedules c q db' site) year month, db')
