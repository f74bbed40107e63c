-- ===== src/Schedules/Rules/Listing.antt =====
-- neems-api/src/orm/application_rule.rs: `get_all_matching_schedules` against
-- `get_effective_schedule`.
use neems_core.Schedules.Db.{Db, DbResult, Sqlite, err, fail_if, not_found, ok, ◌>>=◌, ◌>>◌}
use neems_core.Schedules.Rules.{
  matched, match_le, CalendarDayScheduleMatches, get_all_matching_schedules, get_effective_schedule,
  is_empty, item_ids, matching_rules, rules_of_items, separate, specificity_on,
  CalendarScheduleMatch, Match, all_matches, calendar_match,
}
use mathlib.Core.List.{Memᴰ}
use neems_core.Schedules.Model.{ApplicationRule, ScheduleLibraryItem}
use neems_core.Schedules.Chrono.{Chrono}
use neems_core.Schedules.Rules.Effective.{
  effective_of, effective_of-none, find-listed, match-cases, rules_of_items-listed,
}
use neems_core.Schedules.Library.{get_library_items_for_site}
use neems_core.Prelude.Collect.{filter_map, mem-filter_map}
use mathlib.Core.Path.{subst}
use neems_core.Prelude.Members.{distinct}
use neems_core.Prelude.Sort.{mem-sort_by, sort_by-ordered}
use neems_core.Schedules.Rules.Dedup.{Shown, all_matches-covers, all_matches-distinct, of_item}
use neems_core.Schedules.Rules.Matching.{match_le-IsOrder, matched-specificity_on}
use neems_core.Prelude.{
  ℕ, refl, sym, inl, inr, true, none, some, List, [], any, ◌≡◌, ◌∙◌, ◌⊎◌, ◌∷◌, ◌==◌,
}

abbrev pub map_ok : {A B : Type 0} → (A → B) → DbResult A → DbResult B
map_ok f (ok a) = ok (f a)
map_ok f (err e) = err e

-- What `get_all_matching_schedules` does with the matches.
unfoldable listing_of : List ScheduleLibraryItem → List Match → DbResult CalendarDayScheduleMatches
unfolding all_matches
listing_of items ms =
    fail_if (is_empty items) not_found
    >> (fail_if (is_empty ms) not_found >> separate (all_matches items [] ms))

listing_of-none : (items : List ScheduleLibraryItem) → listing_of items [] ≡ err not_found
unfolding listing_of
listing_of-none [] = refl
listing_of-none (i ∷ is) = refl

-- On a first match both functions return its item.
listing_of-first :
    (c : Chrono) (db : Db) (date : ℕ) (items : List ScheduleLibraryItem) (rule : ApplicationRule)
    (s : ℕ) (rest : List Match)
    → any (λ i. i == rule.library_item_id) (item_ids items) ≡ true
    → map_ok (λ r. r.winning_match) (listing_of items ((rule, s) ∷ rest))
      ≡ map_ok
          (λ r. calendar_match (r.rule, r.specificity) r.library_item)
          (effective_of c db date items ((rule, s) ∷ rest))
unfolding listing_of effective_of all_matches
listing_of-first c db date [] rule s rest h = cc
listing_of-first c db date (i ∷ is) rule s rest h =
    let (item, e) = find-listed (i ∷ is) rule.library_item_id h in rw e refl

-- The winner of the list of all matches is the effective schedule, and the two functions fail
-- with the same errors.
pub get_all_matching_schedules-get_effective_schedule :
    (c : Chrono) (q : Sqlite) (db : Db) (site date : ℕ)
    → map_ok (λ r. r.winning_match) (get_all_matching_schedules c q db site date)
      ≡ map_ok
          (λ r. calendar_match (r.rule, r.specificity) r.library_item)
          (get_effective_schedule c q db site date)
unfolding get_all_matching_schedules get_effective_schedule listing_of effective_of
get_all_matching_schedules-get_effective_schedule c q db site date =
    by_items (get_library_items_for_site q db site)
  where
    by_matches :
        (items : List ScheduleLibraryItem) (ms : List Match)
        → (((rule : ApplicationRule) × (s : ℕ) × (rest : List Match) × (ms ≡ (rule, s) ∷ rest)
              × Memᴰ rule (rules_of_items db (item_ids items))
              × (specificity_on c date rule ≡ some s))
            ⊎ ((ms ≡ [])
                × ((rule : ApplicationRule)
                    → Memᴰ rule (rules_of_items db (item_ids items))
                    → specificity_on c date rule ≡ none)))
        → map_ok (λ r. r.winning_match) (listing_of items ms)
          ≡ map_ok
              (λ r. calendar_match (r.rule, r.specificity) r.library_item)
              (effective_of c db date items ms)
    by_matches items ms (inl (rule, s, rest, e, stored, on_date)) = rw e (
        listing_of-first c db date items rule s rest
          (rules_of_items-listed db (item_ids items) rule stored))
    by_matches items ms (inr (e, none_matches)) =
        rw (e, listing_of-none items, effective_of-none c db date items) refl

    by_items :
        (r : DbResult (List ScheduleLibraryItem))
        → map_ok
            (λ a. a.winning_match)
            (r >>= λ items. listing_of items (matching_rules c db (item_ids items) date))
          ≡ map_ok
              (λ a. calendar_match (a.rule, a.specificity) a.library_item)
              (r >>= λ items.
                effective_of c db date items (matching_rules c db (item_ids items) date))
    by_items (err e) = refl
    by_items (ok items) =
        by_matches items (matching_rules c db (item_ids items) date)
          (match-cases c db (item_ids items) date (matching_rules c db (item_ids items) date) refl)

-- The matches of a day are of distinct items, and the item of every rule that matches is among
-- them, at least as specific.
pub record IsListing (c : Chrono) (db : Db) (items : List ScheduleLibraryItem) (date : ℕ)
    (r : CalendarDayScheduleMatches) : Type 0 where
  pub of_distinct_items : distinct of_item (r.winning_match ∷ r.other_matches) ≡ true
  pub covers :
      (rule : ApplicationRule) (s : ℕ)
      → Memᴰ rule (rules_of_items db (item_ids items))
      → specificity_on c date rule ≡ some s
      → Shown rule.library_item_id s (r.winning_match ∷ r.other_matches)

separate-ok :
    (ms : List CalendarScheduleMatch) (r : CalendarDayScheduleMatches)
    → separate ms ≡ ok r
    → ms ≡ r.winning_match ∷ r.other_matches
separate-ok [] r h = cc
separate-ok (m ∷ ms) r h = cc

listing_of-ok :
    (items : List ScheduleLibraryItem) (ms : List Match) (r : CalendarDayScheduleMatches)
    → listing_of items ms ≡ ok r
    → all_matches items [] ms ≡ r.winning_match ∷ r.other_matches
unfolding listing_of
listing_of-ok [] ms r h = cc
listing_of-ok (i ∷ is) [] r h = cc
listing_of-ok (i ∷ is) (m ∷ ms) r h = separate-ok (all_matches (i ∷ is) [] (m ∷ ms)) r h

-- The matches of a day, where the library can be read and there is one, are of distinct library
-- items; and for every rule of the site's items that matches the day there is a match of its
-- item, at least as specific as the rule.
pub get_all_matching_schedules-IsListing :
    (c : Chrono) (q : Sqlite) (db : Db) (site date : ℕ) (items : List ScheduleLibraryItem)
    (r : CalendarDayScheduleMatches)
    → get_library_items_for_site q db site ≡ ok items
    → get_all_matching_schedules c q db site date ≡ ok r
    → IsListing c db items date r
unfolding get_all_matching_schedules listing_of matching_rules
get_all_matching_schedules-IsListing c q db site date items r hi h = record {
  of_distinct_items =
      subst (λ l. distinct of_item l ≡ true) shape (all_matches-distinct items [] ms);
  covers = λ rule s k on_date. subst (Shown rule.library_item_id s) shape (
      all_matches-covers items [] ms rule s (sort_by-ordered match_le matches match_le-IsOrder)
        (mem-sort_by match_le matches (rule, s)
          (mem-filter_map (matched c date) stored rule (rule, s) k
            (matched-specificity_on c date rule s on_date)))
        refl (rules_of_items-listed db (item_ids items) rule k));
}
  where
    stored : List ApplicationRule
    stored = rules_of_items db (item_ids items)

    matches : List Match
    matches = filter_map (matched c date) stored

    ms : List Match
    ms = matching_rules c db (item_ids items) date

    run : get_all_matching_schedules c q db site date ≡ listing_of items ms
    run = rw hi refl

    shape : all_matches items [] ms ≡ r.winning_match ∷ r.other_matches
    shape = listing_of-ok items ms r (sym run ∙ h)
