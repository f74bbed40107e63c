-- ===== src/Examples/Schedules.antt =====
-- Examples of the theorems on the schedule of a day and the active command.
use neems_core.Schedules.Rules.Listing.{map_ok}
use neems_core.Schedules.Model.{
  ApplicationRule, RuleType, command_type_of, read_column, rule_type_of, to_api_model,
}
use neems_core.Schedules.Rules.{
  CalendarDayScheduleMatches, all_matches, calendar_match, get_all_matching_schedules,
  get_effective_schedule, item_ids, match_le, matched, matching_rules, rules_of_items,
  specificity_on,
}
use neems_core.Schedules.Rules.Listing.{
  IsListing, get_all_matching_schedules-IsListing,
  get_all_matching_schedules-get_effective_schedule,
}
use neems_core.Schedules.Rules.Effective.{
  IsWinner, get_effective_schedule-IsWinner, get_effective_schedule-not_found,
}
use mathlib.Core.List.{Memᴰ}
use neems_core.Examples.Calendar.{
  counting, morning_dto, plain_calendar, site_items, site_items-read, summer_day,
  summer_day-effective, tables,
}
use neems_core.Schedules.Library.{
  entries_of, get_each, get_library_item, get_library_items_for_site, joined, to_dto,
}
use neems_core.Schedules.Db.{err, find_command, find_template, not_found, ok}
use neems_core.Prelude.Sort.{insert_by, sort_by}
use neems_core.Schedules.Active.{ActiveScheduleCommand, command_is, get_site_active_command}
use neems_core.Schedules.Active.Latest.{IsAnswer, get_site_active_command-IsAnswer}
use mathlib.Core.Option
use neems_core.Schedules.Months.{
  CalendarDaySchedule, Days, day_of, day_schedule, get_calendar_schedules, month_days,
}
use neems_core.Schedules.Months.Filled.{IsUnambiguous, found, get_calendar_schedules_lem}
use Prim.Native.String.{String}
use neems_core.Schedules.Chrono.{pred_opt}
use neems_core.Prelude.Texts.{same_text}
use neems_core.Prelude.{
  ap, arith, Bool, false, ◌==◌, if◌then◌else◌, refl, true, Option, none, [], ◌≡◌, ◌↔◌, ◌∷◌,
}
use neems_core.Prelude.Int.{pos}

get_effective_schedule-IsWinner_example : IsWinner plain_calendar tables site_items 405 summer_day
get_effective_schedule-IsWinner_example =
    get_effective_schedule-IsWinner plain_calendar counting tables 1 405 site_items summer_day
      site_items-read summer_day-effective

get_effective_schedule-not_found_example :
    (get_effective_schedule plain_calendar counting tables 1 405 ≡ err not_found) ↔ (
      (rule : ApplicationRule)
      → Memᴰ rule (rules_of_items tables (item_ids site_items))
      → specificity_on plain_calendar 405 rule ≡ none)
get_effective_schedule-not_found_example =
    get_effective_schedule-not_found plain_calendar counting tables 1 405 site_items site_items-read

get_all_matching_schedules-get_effective_schedule_example :
    map_ok (λ r. r.winning_match) (get_all_matching_schedules plain_calendar counting tables 1 405)
    ≡ map_ok
        (λ r. calendar_match (r.rule, r.specificity) r.library_item)
        (get_effective_schedule plain_calendar counting tables 1 405)
get_all_matching_schedules-get_effective_schedule_example =
    get_all_matching_schedules-get_effective_schedule plain_calendar counting tables 1 405

abbrev both_matches : CalendarDayScheduleMatches
both_matches = record {
  winning_match = record {
    library_item_id = 2;
    library_item_name = "Summer";
    specificity = 2;
    rule_id = 2;
    rule_type = RuleType.specific_date;
    override_reason = none;
  };
  other_matches =
      record {
        library_item_id = 1;
        library_item_name = "Default";
        specificity = 0;
        rule_id = 1;
        rule_type = RuleType.default_rule;
        override_reason = none;
      }
      ∷ [];
}

both_matches-listed :
    get_all_matching_schedules plain_calendar counting tables 1 405 ≡ ok both_matches
unfolding get_all_matching_schedules get_library_items_for_site get_each get_library_item
    find_template entries_of joined to_dto find_command command_type_of sort_by insert_by
    matching_rules rules_of_items to_api_model rule_type_of read_column matched specificity_on
    match_le all_matches calendar_match
both_matches-listed = refl

get_all_matching_schedules-IsListing_example :
    IsListing plain_calendar tables site_items 405 both_matches
get_all_matching_schedules-IsListing_example =
    get_all_matching_schedules-IsListing plain_calendar counting tables 1 405 site_items
      both_matches site_items-read both_matches-listed

get_site_active_command-IsAnswer_example :
    (a : Option ActiveScheduleCommand) × (get_site_active_command plain_calendar counting tables
        true 1 405
        (pos 100)
      ≡ command_is a)
    × IsAnswer tables 1 405 (pos 100) (morning_dto ∷ []) a
get_site_active_command-IsAnswer_example =
    get_site_active_command-IsAnswer plain_calendar counting tables 1 405 (pos 100) summer_day
      summer_day-effective

is_second :
    (b : Bool)
    → ◌≡◌ {A = String} (if b then "0001-01-02" else "another day") "0001-01-02"
    → b ≡ true
is_second true h = refl
is_second false h = absurd (cc (ap (λ t. same_text t "0001-01-02") h))

only_second : IsUnambiguous plain_calendar 405 435 405
only_second e a b k = ground (arith, is_second (e == 405) k)

january : month_days plain_calendar 1 1 ≡ ok (405, 435)
unfolding month_days pred_opt
january = refl

get_calendar_schedules_lem_example :
    (days : Days CalendarDaySchedule) × ((get_calendar_schedules plain_calendar counting tables 1 1
        1).0
      ≡ ok days)
    × (day_of days "0001-01-02"
        ≡ Option.map day_schedule (
            found (
              get_effective_schedule plain_calendar counting
                (get_calendar_schedules plain_calendar counting tables 1 1 1).1
                1
                405)))
get_calendar_schedules_lem_example =
    get_calendar_schedules_lem plain_calendar counting tables 1 1 1 405 435 405 january
      (omega arith) (omega arith) (omega arith) only_second
