-- ===== src/Schedules/Rules.antt =====
-- neems-api/src/orm/application_rule.rs: the rules that match a date, the effective schedule and
-- all the matching schedules of a day.
pub mod Matching
pub mod Effective
pub mod Dedup
pub mod Listing
use Prim.Native.String.{String}
use mathlib.Core.Option
use neems_core.Schedules.Db.{
  Db, DbResult, Sqlite, err, fail_if, not_found, ok, or_fail, ◌>>=◌, ◌>>◌,
}
use neems_core.Schedules.Model.{
  ApplicationRule, RuleType, ScheduleLibraryItem, day_of_week, default_rule, specific_date,
  to_api_model,
}
use neems_core.Schedules.Chrono.{Chrono}
use neems_core.Prelude.Collect.{filter_map, keep}
use neems_core.Schedules.Library.{get_library_items_for_site}
use neems_core.Prelude.Texts.{same_text}
use neems_core.Prelude.Sort.{sort_by}
use neems_core.Prelude.{
  ℕ, Bool, true, false, Option, none, some, List, [], map, ltb, leb, find, any, filter, ◌&&◌, ◌||◌,
  ◌∷◌, ◌==◌, if◌then◌else◌,
}
use neems_core.Prelude.Int.{ℤ, pos, eqb_ℤ}

-- A matching rule and its specificity.
abbrev pub Match : Type 0
Match = ApplicationRule × ℕ

pub record EffectiveScheduleResponse : Type 0 where
  pub library_item : ScheduleLibraryItem
  pub specificity : ℕ
  pub rule : ApplicationRule

-- `rules_db` of the items, as API models.
unfoldable pub rules_of_items : Db → List ℕ → List ApplicationRule
unfolding to_api_model
rules_of_items db item_ids =
    filter_map to_api_model (filter (λ r. any (λ i. i == r.template_id) item_ids) db.rules)

-- A list's `contains`, where there is a list.
abbrev pub holds_text : String → Option (List String) → Bool
holds_text s none = false
holds_text s (some l) = any (λ d. same_text d s) l

abbrev pub holds_day : ℤ → Option (List ℤ) → Bool
holds_day d none = false
holds_day d (some l) = any (λ e. eqb_ℤ e d) l

-- The specificity with which a rule matches a date.
unfoldable pub specificity_on : Chrono → ℕ → ApplicationRule → Option ℕ
specificity_on c date rule = elim rule.rule_type [
  | specific_date ↦ if holds_text (c.iso date) rule.specific_dates then some 2 else none
  | day_of_week ↦
      if holds_day (pos (c.num_days_from_sunday date)) rule.days_of_week then some 1 else none
  | default_rule ↦ some 0
]

unfoldable pub matched : Chrono → ℕ → ApplicationRule → Option Match
unfolding specificity_on
matched c date rule = Option.map (λ s. (rule, s)) (specificity_on c date rule)

-- The comparison of the sort is not `Greater`.
unfoldable pub match_le : Match → Match → Bool
match_le (rule_a, spec_a) (rule_b, spec_b) =
    ltb spec_b spec_a || ((spec_b == spec_a) && leb rule_b.created_at rule_a.created_at)

unfoldable pub matching_rules : Chrono → Db → List ℕ → ℕ → List Match
unfolding rules_of_items matched match_le
matching_rules c db item_ids date =
    sort_by match_le (filter_map (matched c date) (rules_of_items db item_ids))

abbrev pub first {ℓ} : {A : Type ℓ} → List A → Option A
first [] = none
first (x ∷ xs) = some x

abbrev pub is_empty {ℓ} : {A : Type ℓ} → List A → Bool
is_empty [] = true
is_empty (x ∷ xs) = false

abbrev pub item_ids : List ScheduleLibraryItem → List ℕ
item_ids items = map (λ i. i.id) items

unfoldable pub get_effective_schedule :
    Chrono → Sqlite → Db → ℕ → ℕ → DbResult EffectiveScheduleResponse
unfolding get_library_items_for_site matching_rules
get_effective_schedule c q db site date = get_library_items_for_site q db site >>= λ items.
    fail_if (is_empty items) not_found
    >> (or_fail (first (matching_rules c db (item_ids items) date)) not_found
        >>= λ (rule, specificity).
            or_fail (find (λ i. i.id == rule.library_item_id) items) not_found >>= λ item.
            ok (record { library_item = item; specificity = specificity; rule = rule }))

pub record CalendarScheduleMatch : Type 0 where
  pub library_item_id : ℕ
  pub library_item_name : String
  pub specificity : ℕ
  pub rule_id : ℕ
  pub rule_type : RuleType
  pub override_reason : Option String

pub record CalendarDayScheduleMatches : Type 0 where
  pub winning_match : CalendarScheduleMatch
  pub other_matches : List CalendarScheduleMatch

unfoldable pub calendar_match : Match → ScheduleLibraryItem → CalendarScheduleMatch
calendar_match (rule, specificity) item = record {
  library_item_id = item.id;
  library_item_name = item.name;
  specificity = specificity;
  rule_id = rule.id;
  rule_type = rule.rule_type;
  override_reason = rule.override_reason;
}

-- The deduplication by library item; `seen` is the hash set.
unfoldable pub all_matches :
    List ScheduleLibraryItem → List ℕ → List Match → List CalendarScheduleMatch
unfolding calendar_match
all_matches items seen [] = []
all_matches items seen ((rule, specificity) ∷ rest) =
    let later =
      all_matches items
        (if any (λ i. i == rule.library_item_id) seen then seen else rule.library_item_id ∷ seen)
        rest in
    if any (λ i. i == rule.library_item_id) seen
    then later
    else keep
        (Option.map (calendar_match (rule, specificity))
          (find (λ i. i.id == rule.library_item_id) items))
        later

-- `winning_match` and `other_matches`.
abbrev pub separate : List CalendarScheduleMatch → DbResult CalendarDayScheduleMatches
separate [] = err not_found
separate (m ∷ ms) = ok (record { winning_match = m; other_matches = ms })

unfoldable pub get_all_matching_schedules :
    Chrono → Sqlite → Db → ℕ → ℕ → DbResult CalendarDayScheduleMatches
unfolding get_library_items_for_site matching_rules all_matches
get_all_matching_schedules c q db site date = get_library_items_for_site q db site >>= λ items.
    fail_if (is_empty items) not_found
    >> (fail_if (is_empty (matching_rules c db (item_ids items) date)) not_found
        >> separate (all_matches items [] (matching_rules c db (item_ids items) date)))
