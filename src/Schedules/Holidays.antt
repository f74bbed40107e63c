-- ===== src/Schedules/Holidays.antt =====
-- neems-api/src/orm/holidays.rs: the federal holidays of a year and of a range of dates. A weekday is
-- its number of days from Monday; chrono gives it from Sunday.
pub mod Observed
pub mod Range
use Prim.Native.String.{String}
use neems_core.Prelude.Collect.{◌>>=◌}
use neems_core.Schedules.Chrono.{Chrono}
use neems_core.Prelude.Collect.{filter_map}
use neems_core.Schedules.Rules.{first}
use neems_core.Prelude.Sort.{sort_by}
use neems_core.Prelude.{
  ℕ, zero, suc, Bool, true, false, Option, none, some, List, [], leb, filter, ◌+◌, ◌-◌, ◌*◌, ◌%◌,
  ◌&&◌, ◌∷◌, ◌++◌, ◌==◌, if◌then◌else◌,
}

pub data HolidayRule : Type 0 where
  fixed_date : ℕ → ℕ → HolidayRule
  nth_weekday_in_month : ℕ → ℕ → ℕ → HolidayRule
  last_weekday_in_month : ℕ → ℕ → HolidayRule

pub record FederalHoliday : Type 0 where
  pub name : String
  pub rule : HolidayRule
  pub observed : Bool

abbrev pub holiday : String → HolidayRule → Bool → FederalHoliday
holiday name rule observed = record { name = name; rule = rule; observed = observed }

-- `FEDERAL_HOLIDAY_RULES`; Monday is 0 and Thursday 3.
unfoldable pub federal_holiday_rules : List FederalHoliday
federal_holiday_rules =
    holiday "New Year's Day" (fixed_date 1 1) true
    ∷ holiday "Martin Luther King Jr. Day" (nth_weekday_in_month 1 0 3) false
    ∷ holiday "Presidents Day" (nth_weekday_in_month 2 0 3) false
    ∷ holiday "Memorial Day" (last_weekday_in_month 5 0) false
    ∷ holiday "Juneteenth" (fixed_date 6 19) true
    ∷ holiday "Independence Day" (fixed_date 7 4) true
    ∷ holiday "Labor Day" (nth_weekday_in_month 9 0 1) false
    ∷ holiday "Columbus Day" (nth_weekday_in_month 10 0 2) false
    ∷ holiday "Veterans Day" (fixed_date 11 11) true
    ∷ holiday "Thanksgiving" (nth_weekday_in_month 11 3 4) false
    ∷ holiday "Christmas Day" (fixed_date 12 25) true
    ∷ []

-- `num_days_from_monday`
abbrev pub from_monday : Chrono → ℕ → ℕ
from_monday c d = (c.num_days_from_sunday d + 6) % 7

-- The walk back to a weekday, on fuel: every weekday is met within seven days.
unfoldable pub walk_back : Chrono → ℕ → ℕ → ℕ → ℕ
walk_back c weekday zero d = d
walk_back c weekday (suc fuel) d =
    let rest = walk_back c weekday fuel (d - 1) in if from_monday c d == weekday then d else rest

unfoldable pub nth_match : Chrono → ℕ → ℕ → ℕ → ℕ → Option ℕ
nth_match c month weekday nth first =
    let d = first + ((7 + weekday - from_monday c first) % 7 + 7 * (nth - 1)) in
    if c.month d == month then some d else none

-- `resolve`
unfoldable pub resolve : Chrono → HolidayRule → ℕ → Option ℕ
unfolding walk_back nth_match
resolve c (fixed_date month day) year = c.from_ymd_opt year month day
resolve c (nth_weekday_in_month month weekday nth) year =
    c.from_ymd_opt year month 1 >>= nth_match c month weekday nth
resolve c (last_weekday_in_month month weekday) year =
    (if month == 12 then c.from_ymd_opt (year + 1) 1 1 else c.from_ymd_opt year (month + 1) 1)
    >>= λ first_of_next. some (walk_back c weekday 7 (first_of_next - 1))

unfoldable pub apply_federal_observance : Chrono → ℕ → ℕ
apply_federal_observance c actual =
    if c.num_days_from_sunday actual == 6
    then actual - 1
    else if c.num_days_from_sunday actual == 0
    then actual + 1
    else actual

unfoldable pub observed_date : Chrono → ℕ → FederalHoliday → Option ℕ
unfolding resolve apply_federal_observance
observed_date c year h =
    resolve c h.rule year >>= λ d. some (if h.observed then apply_federal_observance c d else d)

-- `dedup`: of neighbours that are equal the first is kept.
unfoldable pub dedup : List ℕ → List ℕ
dedup [] = []
dedup (x ∷ []) = x ∷ []
dedup (x ∷ y ∷ rest) = let later = dedup (y ∷ rest) in if x == y then later else x ∷ later

unfoldable pub us_federal_holidays : Chrono → ℕ → List ℕ
unfolding observed_date federal_holiday_rules dedup
us_federal_holidays c year =
    dedup (sort_by leb (filter_map (observed_date c year) federal_holiday_rules))

-- The years from one on, `count` of them.
unfoldable pub holidays_of_years : Chrono → ℕ → ℕ → ℕ → ℕ → List ℕ
unfolding us_federal_holidays
holidays_of_years c start end zero year = []
holidays_of_years c start end (suc count) year =
    filter (λ h. leb start h && leb h end) (us_federal_holidays c year)
    ++ holidays_of_years c start end count (year + 1)

unfoldable pub us_federal_holidays_in_range : Chrono → ℕ → ℕ → List ℕ
unfolding holidays_of_years
us_federal_holidays_in_range c start end =
    holidays_of_years c start end (c.year end + 1 - c.year start) (c.year start)
