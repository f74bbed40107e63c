-- ===== src/Examples/Days.antt =====
-- Examples of the theorems on dates, on the poller, on queries and on the wire.
use neems_core.Rtac.Poller.Cached.{Answered, poll_all-cache}
use neems_core.Prelude.Sort.{AreSortedBy, insert_by, sort_by}
use neems_core.Rtac.Client.{
  ConnectOutcome, ModbusClient, WriteOutcome, connect, give_up, is_connected, reconnect,
  reconnect_loop, write_command,
}
use neems_core.Odata.{
  FieldAccessor, FilterOperator, FilterValue, OdataField, OdataQuery, OrderDirection, Text,
  apply_query,
}
use neems_core.Schedules.Season.Filled.{IsFillable, season_fill_dates_iff}
use neems_core.Odata.Pages.{IsOrdering, IsPage, passes, IsTextOrder, apply_query-IsPage}
use neems_core.Schedules.Holidays.Observed.{IsWorkday, us_federal_holidays-IsWorkday}
use neems_core.Rtac.Client.Calls.{
  IsWritten, ensure_connected, write_again, write_command_with_reconnect,
  write_command_with_reconnect-IsWritten,
}
use mathlib.Core.List.{Memᴰ}
use neems_core.Rtac.Poller.{Poller, Tick, poll_all, responded}
use neems_core.Schedules.Holidays.{
  apply_federal_observance, dedup, federal_holiday_rules, nth_match, observed_date, resolve,
  us_federal_holidays, us_federal_holidays_in_range, walk_back,
}
use neems_core.Rtac.State.{disconnected, is_connected_status}
use neems_core.Examples.Calendar.{plain_calendar, plain_calendar-IsCalendar}
use neems_core.Prelude.Texts.{same_text}
use neems_core.Schedules.Season.{season_fill_dates}
use neems_core.Schedules.Holidays.Range.{us_federal_holidays_in_range_iff}
use neems_core.Prelude.{
  arith, ℕ, filter, refl, true, false, none, some, List, [], length, ◌≤◌, ◌<◌, ◌≡◌, ◌↔◌, ◌⊎◌, ◌∷◌,
}
use neems_core.Prelude.Int.{ℤ, pos}

new_year : Memᴰ 404 (us_federal_holidays plain_calendar 1)
unfolding us_federal_holidays dedup sort_by insert_by observed_date federal_holiday_rules resolve
    walk_back nth_match apply_federal_observance
new_year = Memᴰ.head refl

us_federal_holidays-IsWorkday_example : IsWorkday plain_calendar 404
us_federal_holidays-IsWorkday_example =
    us_federal_holidays-IsWorkday plain_calendar 1 404 plain_calendar-IsCalendar new_year

us_federal_holidays_in_range_iff_example :
    Memᴰ 404 (us_federal_holidays_in_range plain_calendar 404 410) ↔ (
      (404 ≤ 404)
      × (404 ≤ 410)
      × ((y : ℕ) × (1 ≤ y) × (y ≤ 1) × Memᴰ 404 (us_federal_holidays plain_calendar y)))
us_federal_holidays_in_range_iff_example =
    us_federal_holidays_in_range_iff plain_calendar 404 410 404

season_fill_dates_iff_example :
    (dates : List ℕ) × (season_fill_dates plain_calendar 404 410 true true (406 ∷ []) ≡ some dates)
    × AreSortedBy (λ x y. x < y) dates
    × ((d : ℕ) → Memᴰ d dates ↔ IsFillable plain_calendar 404 410 true true (406 ∷ []) d)
season_fill_dates_iff_example =
    season_fill_dates_iff plain_calendar 404 410 true true (406 ∷ []) (omega arith)

abbrev answer : Tick ℕ
answer = record {
  login_answer = responded 200 (some "token");
  fetch_answer = λ token. responded 200 (some none);
}

abbrev poller : Poller ℕ
poller = record { session = none; cache = none }

poll_all-cache_example :
    ((poll_all poller (answer ∷ [])).cache ≡ none)
    ⊎ ((tick : Tick ℕ) × Memᴰ tick (answer ∷ [])
        × Answered tick (poll_all poller (answer ∷ [])).cache)
poll_all-cache_example = poll_all-cache poller (answer ∷ [])

abbrev plain_text : Text
plain_text = record {
  at_most = λ a b. true;
  contains = λ a b. same_text a b;
  starts_with = λ a b. same_text a b;
  ends_with = λ a b. same_text a b;
}

plain_text-IsTextOrder : IsTextOrder plain_text
plain_text-IsTextOrder = record { total = λ a b h. refl; transitive = λ a b c h k. refl }

abbrev number_field : List (OdataField ℤ)
number_field = record { name = "id"; accessor = FieldAccessor.int_field (λ n. n) } ∷ []

abbrev query : OdataQuery
query = record {
  filter_by = some (record {
    property = "id";
    operator = FilterOperator.gt_op;
    value = FilterValue.integer_value (pos 1);
  });
  orderby = some (("id", OrderDirection.desc) ∷ []);
  top = some (pos 2);
  skip = some (pos 1);
}

abbrev numbers : List ℤ
numbers = pos 1 ∷ pos 2 ∷ pos 3 ∷ []

abbrev AnyOrder : ℤ → ℤ → Type 0
AnyOrder a b = Unit {0}

apply_query-IsPage_example :
    (sorted : List ℤ) × IsOrdering plain_text number_field
      (("id", OrderDirection.desc) ∷ [])
      AnyOrder
      (filter (passes plain_text number_field query.filter_by) numbers)
      sorted
    × IsPage
        (some (pos 1))
        (some (pos 2))
        sorted
        (apply_query plain_text numbers query number_field).0
    × ((apply_query plain_text numbers query number_field).1
        ≡ length (filter (passes plain_text number_field query.filter_by) numbers))
apply_query-IsPage_example =
    apply_query-IsPage plain_text numbers query number_field AnyOrder plain_text-IsTextOrder
      ((λ y m. tt), ((λ y m. tt), ((λ y m. tt), tt)))

abbrev fresh_client : ModbusClient
fresh_client = record {
  max_reconnect_attempts = 1;
  context = false;
  connection_status = disconnected;
  reconnect_attempts = 0;
}

abbrev reachable_net : ℕ → ConnectOutcome
reachable_net k = ConnectOutcome.accepted

write-succeeds :
    (write_command_with_reconnect reachable_net WriteOutcome.written reachable_net
      WriteOutcome.written fresh_client).1
    ≡ none
unfolding write_command_with_reconnect ensure_connected is_connected is_connected_status reconnect
    reconnect_loop connect give_up write_command write_again
write-succeeds = refl

write_command_with_reconnect-IsWritten_example :
    IsWritten WriteOutcome.written (
      write_command_with_reconnect reachable_net WriteOutcome.written reachable_net
        WriteOutcome.written fresh_client)
    ⊎ IsWritten WriteOutcome.written (
        write_command_with_reconnect reachable_net WriteOutcome.written reachable_net
          WriteOutcome.written fresh_client)
write_command_with_reconnect-IsWritten_example =
    write_command_with_reconnect-IsWritten reachable_net reachable_net WriteOutcome.written
      WriteOutcome.written fresh_client write-succeeds
