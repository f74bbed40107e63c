-- ===== src/Schedules/Season.antt =====
-- neems-api/src/orm/application_rule.rs: the dates of a season fill and the rule that it creates.
pub mod Filled
use Prim.Native.String.{String}
use neems_core.Schedules.Db.{Db, DbResult, Sqlite, fail_if, not_found, ok, ◌>>=◌, ◌>>◌}
use neems_core.Schedules.Model.{ApplicationRule, CreateApplicationRuleRequest, specific_date}
use mathlib.Core.Option
use neems_core.Schedules.Chrono.{Chrono, succ_opt}
use neems_core.Schedules.Store.{create_application_rule}
use neems_core.Schedules.Rules.{is_empty}
use neems_core.Schedules.Holidays.{us_federal_holidays_in_range}
use neems_core.Prelude.{
  ℕ, zero, suc, Bool, not, Option, none, some, List, [], map, ltb, leb, any, ◌+◌, ◌-◌, ◌&&◌, ◌||◌,
  ◌∷◌, ◌++◌, ◌==◌, if◌then◌else◌,
}

abbrev pub is_weekend : Chrono → ℕ → Bool
is_weekend c d = (c.num_days_from_sunday d == 6) || (c.num_days_from_sunday d == 0)

-- The set of the dates to skip.
unfoldable pub skipped : Chrono → ℕ → ℕ → Bool → List ℕ → List ℕ
unfolding us_federal_holidays_in_range
skipped c start_date end_date exclude_holidays extra_excludes =
    extra_excludes
    ++ (if exclude_holidays then us_federal_holidays_in_range c start_date end_date else [])

abbrev pub keep_date : Bool → ℕ → List ℕ → List ℕ
keep_date kept d rest = if kept then d ∷ rest else rest

-- The loop over the days; the fuel is the number of days left. Adding a day to the last date of
-- chrono panics: none.
unfoldable pub fill : Chrono → Bool → List ℕ → ℕ → ℕ → ℕ → Option (List ℕ)
unfolding succ_opt
fill c weekdays_only skip end_date zero d = some []
fill c weekdays_only skip end_date (suc fuel) d =
    if leb d end_date
    then elim (succ_opt c d) [
      | none ↦ none
      | some next ↦
          Option.map
            (keep_date (not (weekdays_only && is_weekend c d) && not (any (λ s. s == d) skip)) d)
            (fill c weekdays_only skip end_date fuel next)
    ]
    else some []

unfoldable pub season_fill_dates : Chrono → ℕ → ℕ → Bool → Bool → List ℕ → Option (List ℕ)
unfolding skipped fill
season_fill_dates c start_date end_date weekdays_only exclude_holidays extra_excludes =
    if ltb end_date start_date
    then some []
    else fill c weekdays_only (skipped c start_date end_date exclude_holidays extra_excludes)
        end_date (end_date + 2 - start_date) start_date

-- The request of the rule: the dates as chrono's `to_string` writes them.
abbrev pub season_request : Chrono → List ℕ → Option String → CreateApplicationRuleRequest
season_request c dates override_reason = record {
  rule_type = specific_date;
  days_of_week = none;
  specific_dates = some (map (λ d. c.iso d) dates);
  override_reason = override_reason;
}

unfoldable pub season_fill_application_rule :
    Chrono
    → Sqlite
    → Db
    → ℕ
    → ℕ
    → ℕ
    → Bool
    → Bool
    → List ℕ
    → Option String
    → Option (DbResult ((ApplicationRule × List ℕ) × Db))
unfolding season_fill_dates create_application_rule
season_fill_application_rule c q db template_id start_date end_date weekdays_only exclude_holidays
      extra_excludes override_reason =
    Option.map
      (λ dates.
        fail_if (is_empty dates) not_found
        >> (create_application_rule q db template_id (season_request c dates override_reason)
            >>= λ (rule, db'). ok ((rule, dates), db')))
      (season_fill_dates c start_date end_date weekdays_only exclude_holidays extra_excludes)
