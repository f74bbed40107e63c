-- ===== src/Examples/Calendar.antt =====
-- A calendar, a database and its rows for the examples: months of 31 days, ids counted up.
use neems_core.Schedules.Model.{
  ApplicationRule, ApplicationRuleDb, RuleType, ScheduleCommand, ScheduleCommandDto,
  ScheduleCommandType, ScheduleLibraryItem, ScheduleTemplate, ScheduleTemplateEntry, Site,
  command_type_of, holds, null, read_column, rule_type_of, to_api_model,
}
use neems_core.Schedules.Chrono.{Chrono}
use neems_core.Schedules.Db.{Db, IsFresh, Sqlite, find_command, find_template, ok}
use neems_core.Schedules.Rules.{
  EffectiveScheduleResponse, get_effective_schedule, match_le, matched, matching_rules,
  rules_of_items, specificity_on,
}
use neems_core.Schedules.Holidays.Observed.{IsCalendar}
use mathlib.Core.List.{Memᴰ}
use neems_core.Schedules.Library.{
  entries_of, get_each, get_library_item, get_library_items_for_site, joined, to_dto,
}
use neems_core.Prelude.Sort.{insert_by, sort_by}
use neems_core.Prelude.{
  ℕ, suc, refl, true, false, Option, none, some, List, [], arith, ltb, ◌+◌, ◌-◌, ◌*◌, ◌/◌, ◌%◌, ◌≤◌,
  ◌≡◌, ◌∷◌, ◌==◌, if◌then◌else◌,
}
use neems_core.Prelude.Int.{pos}

abbrev pub plain_calendar : Chrono
plain_calendar = record {
  max = 1000000;
  year = λ d. (d - 32) / 372;
  month = λ d. (d - 32) % 372 / 31 + 1;
  num_days_from_sunday = λ d. d % 7;
  from_ymd_opt = λ y m k. some (y * 372 + m * 31 + k + 1);
  iso = λ d. if d == 405 then "0001-01-02" else "another day";
}

some-date : (a b : ℕ) → ◌≡◌ {A = Option ℕ} (some a) (some b) → a ≡ b
some-date a b h = cc

pub plain_calendar-IsCalendar : IsCalendar plain_calendar
plain_calendar-IsCalendar = record {
  weekday-lt = λ d. omega arith;
  weekday_next = λ d. omega arith;
  date_positive = λ y m k d h. omega (arith, some-date (y * 372 + m * 31 + k + 1) d h);
  month_start = λ y m d h. omega (arith, some-date (y * 372 + suc (suc m) * 31 + 1 + 1) d h);
}

abbrev pub largest : List ℕ → ℕ
largest [] = 0
largest (x ∷ xs) = if ltb (largest xs) x then x else largest xs

abbrev pub counting : Sqlite
counting = record {
  new_id = λ ids. suc (largest ids);
  name_le = λ a b. true;
  current_timestamp = λ db. 100;
}

largest-le : (xs : List ℕ) (a : ℕ) → Memᴰ a xs → a ≤ largest xs
largest-le [] a m = elim m [ ]
largest-le (x ∷ xs) a (Memᴰ.head e) = ground (arith, e)
largest-le (x ∷ xs) a (Memᴰ.tail m) = ground (arith, largest-le xs a m)

pub counting-IsFresh : IsFresh counting
counting-IsFresh = record {
  fresh = λ ids m. absurd (omega (arith, largest-le ids (suc (largest ids)) m));
}

abbrev pub base : ScheduleTemplate
base = record {
  id = 1;
  site_id = 1;
  name = "Default";
  description = none;
  is_active = true;
  is_default = true;
  created_at = 1;
}

abbrev pub summer : ScheduleTemplate
summer = record {
  id = 2;
  site_id = 1;
  name = "Summer";
  description = none;
  is_active = true;
  is_default = false;
  created_at = 2;
}

abbrev pub site : Site
site = record {
  id = 1;
  ramp_duration_seconds = pos 60;
  off_peak_start_minutes = none;
  off_peak_end_minutes = none;
  peak_revenue_start_minutes = none;
  peak_revenue_end_minutes = none;
}

abbrev pub always : ApplicationRuleDb
always = record {
  id = 1;
  template_id = 1;
  rule_type = "default";
  days_of_week = null;
  specific_dates = null;
  override_reason = none;
  created_at = 1;
}

abbrev pub second_of_january : ApplicationRuleDb
second_of_january = record {
  id = 2;
  template_id = 2;
  rule_type = "specific_date";
  days_of_week = null;
  specific_dates = holds ("0001-01-02" ∷ []);
  override_reason = none;
  created_at = 2;
}

abbrev pub morning : ScheduleTemplateEntry
morning = record {
  id = 7;
  template_id = 2;
  execution_offset_seconds = pos 3600;
  schedule_command_id = 9;
  is_active = true;
}

abbrev pub charge_row : ScheduleCommand
charge_row = record {
  id = 9;
  site_id = 1;
  type_ = "charge";
  duration_seconds = some (pos 600);
  target_soc_percent = some (pos 80);
  is_active = true;
}

abbrev pub tables : Db
tables = record {
  sites = site ∷ [];
  templates = base ∷ summer ∷ [];
  entries = morning ∷ [];
  commands = charge_row ∷ [];
  rules = always ∷ second_of_january ∷ [];
}

abbrev pub morning_dto : ScheduleCommandDto
morning_dto = record {
  id = 7;
  execution_offset_seconds = pos 3600;
  command_type = ScheduleCommandType.charge;
  duration_seconds = some (pos 600);
  target_soc_percent = some (pos 80);
}

abbrev pub base_item : ScheduleLibraryItem
base_item = record {
  id = 1;
  site_id = 1;
  name = "Default";
  description = none;
  commands = [];
  created_at = 1;
}

abbrev pub summer_item : ScheduleLibraryItem
summer_item = record {
  id = 2;
  site_id = 1;
  name = "Summer";
  description = none;
  commands = morning_dto ∷ [];
  created_at = 2;
}

abbrev pub site_items : List ScheduleLibraryItem
site_items = base_item ∷ summer_item ∷ []

abbrev pub day_rule : ApplicationRule
day_rule = record {
  id = 2;
  library_item_id = 2;
  rule_type = RuleType.specific_date;
  days_of_week = none;
  specific_dates = some ("0001-01-02" ∷ []);
  override_reason = none;
  created_at = 2;
}

abbrev pub summer_day : EffectiveScheduleResponse
summer_day = record { library_item = summer_item; specificity = 2; rule = day_rule }

pub site_items-read : get_library_items_for_site counting tables 1 ≡ ok site_items
unfolding get_library_items_for_site get_each get_library_item find_template entries_of joined
    to_dto find_command command_type_of sort_by insert_by
site_items-read = refl

pub summer_day-effective :
    get_effective_schedule plain_calendar counting tables 1 405 ≡ ok summer_day
unfolding get_effective_schedule get_library_items_for_site get_each get_library_item find_template
    entries_of joined to_dto find_command command_type_of sort_by insert_by matching_rules
    rules_of_items to_api_model rule_type_of read_column matched specificity_on match_le
summer_day-effective = refl
