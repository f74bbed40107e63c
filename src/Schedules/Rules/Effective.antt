-- ===== src/Schedules/Rules/Effective.antt =====
-- neems-api/src/orm/application_rule.rs: what `get_effective_schedule` returns.
use neems_core.Schedules.Db.{
  err, ok_injective, >>=-ok, Sqlite, or_fail-ok, Db, DbResult, fail_if, not_found, ok, or_fail,
  ◌>>=◌, ◌>>◌,
}
use neems_core.Schedules.Model.{
  ApplicationRuleDb, read_column, rule_type_of, to_api_model, ApplicationRule, ScheduleLibraryItem,
}
use neems_core.Schedules.Chrono.{Chrono}
use neems_core.Schedules.Rules.{
  get_effective_schedule, matching_rules, EffectiveScheduleResponse, Match, first, is_empty,
  item_ids, rules_of_items, specificity_on,
}
use mathlib.Core.List.{Memᴰ}
use neems_core.Schedules.Rules.Matching.{matching_rules-none, matching_rules-first, Outranks}
use neems_core.Prelude.Collect.{>>=-some, filter_map-mem}
use neems_core.Prelude.Members.{mem-filter, find-some}
use neems_core.Schedules.Library.{get_library_items_for_site}
use mathlib.Core.Path.{subst}
use neems_core.Prelude.{
  ℕ, refl, sym, ap, inl, inr, true, Option, none, some, List, [], arith, Bool-cases, find, any,
  filter, ◌≡◌, ◌∙◌, ◌≢◌, ◌↔◌, ◌⊎◌, ◌∷◌, ◌==◌,
}

-- The answer is the schedule of a stored rule of the site that matches the date, and that
-- outranks every other rule of the site that matches.
pub record IsWinner (c : Chrono) (db : Db) (items : List ScheduleLibraryItem) (date : ℕ)
    (r : EffectiveScheduleResponse) : Type 0 where
  pub listed : Memᴰ r.library_item items
  pub of_rule : r.library_item.id ≡ r.rule.library_item_id
  pub stored : Memᴰ r.rule (rules_of_items db (item_ids items))
  pub on_date : specificity_on c date r.rule ≡ some r.specificity
  pub wins :
      (other : ApplicationRule) (s : ℕ)
      → Memᴰ other (rules_of_items db (item_ids items))
      → specificity_on c date other ≡ some s
      → Outranks (r.rule, r.specificity) (other, s)

-- The answer once the items are read.
unfoldable pub effective_of :
    Chrono → Db → ℕ → List ScheduleLibraryItem → List Match → DbResult EffectiveScheduleResponse
effective_of c db date items matches =
    fail_if (is_empty items) not_found
    >> (or_fail (first matches) not_found >>= λ (rule, specificity).
        or_fail (find (λ i. i.id == rule.library_item_id) items) not_found >>= λ item.
        ok (record { library_item = item; specificity = specificity; rule = rule }))

-- Where an id is among the items' ids, there is an item of that id.
pub find-listed :
    (items : List ScheduleLibraryItem) (id : ℕ)
    → any (λ i. i == id) (item_ids items) ≡ true
    → (item : ScheduleLibraryItem) × (find (λ i. i.id == id) items ≡ some item)
find-listed [] id h = cc
find-listed (i ∷ is) id h = elim (Bool-cases (i.id == id)) [
  | inl e ↦ (i, rw e refl)
  | inr e ↦ let (j, k) = find-listed is id (ground (arith, h, e)) in (j, rw e k)
]

-- The answer of `effective_of` on a first match.
effective_of-ok :
    (c : Chrono) (db : Db) (date : ℕ) (items : List ScheduleLibraryItem) (ms : List Match)
    (r : EffectiveScheduleResponse)
    → effective_of c db date items ms ≡ ok r
    → (first ms ≡ some (r.rule, r.specificity))
      × (find (λ i. i.id == r.rule.library_item_id) items ≡ some r.library_item)
unfolding effective_of
effective_of-ok c db date [] ms r h = cc
effective_of-ok c db date (i ∷ is) [] r h = cc
effective_of-ok c db date (i ∷ is) ((rule, s) ∷ ms) r h =
    let (item, e, k) =
      >>=-ok (or_fail (find (λ j. j.id == rule.library_item_id) (i ∷ is)) not_found) _ r h in
    let f = or_fail-ok (find (λ j. j.id == rule.library_item_id) (i ∷ is)) not_found item e in
    subst
      (λ t.
        (first ((rule, s) ∷ ms) ≡ some (t.rule, t.specificity))
        × (find (λ j. j.id == t.rule.library_item_id) (i ∷ is) ≡ some t.library_item))
      (ok_injective (record { library_item = item; specificity = s; rule = rule }) r k) (refl, f)

pub get_effective_schedule-of :
    (c : Chrono) (q : Sqlite) (db : Db) (site date : ℕ) (items : List ScheduleLibraryItem)
    → get_library_items_for_site q db site ≡ ok items
    → get_effective_schedule c q db site date
      ≡ effective_of c db date items (matching_rules c db (item_ids items) date)
unfolding get_effective_schedule effective_of
get_effective_schedule-of c q db site date items h = rw h refl

first-cons :
    (ms : List Match) (m : Match) → first ms ≡ some m → (rest : List Match) × (ms ≡ m ∷ rest)
first-cons [] m h = cc
first-cons (n ∷ ns) m h = (ns, cc)

-- The schedule that takes effect on a date, where the library can be read and there is one: it is
-- the item of a rule of one of the site's active items, that rule matches the date with the
-- specificity returned, and every other rule of these items that matches the date is less
-- specific, or as specific and not created later.
pub get_effective_schedule-IsWinner :
    (c : Chrono) (q : Sqlite) (db : Db) (site date : ℕ) (items : List ScheduleLibraryItem)
    (r : EffectiveScheduleResponse)
    → get_library_items_for_site q db site ≡ ok items
    → get_effective_schedule c q db site date ≡ ok r
    → IsWinner c db items date r
get_effective_schedule-IsWinner c q db site date items r hi h =
    let ms = matching_rules c db (item_ids items) date in
    let (top, found) =
      effective_of-ok c db date items ms r
        (sym (get_effective_schedule-of c q db site date items hi) ∙ h) in
    let (rest, e) = first-cons ms (r.rule, r.specificity) top in
    let (stored, on_date, wins) =
      matching_rules-first c db (item_ids items) date r.rule r.specificity rest e in
    let (same, listed) =
      find-some (λ i. i.id == r.rule.library_item_id) items r.library_item found in
    record {
      listed = listed;
      of_rule = ground arith;
      stored = stored;
      on_date = on_date;
      wins = wins;
    }

item_or : ℕ → Option ApplicationRule → ℕ
item_or n none = n
item_or n (some r) = r.library_item_id

-- A rule keeps the item of its row.
to_api_model-item :
    (row : ApplicationRuleDb) (rule : ApplicationRule)
    → to_api_model row ≡ some rule
    → row.template_id ≡ rule.library_item_id
unfolding to_api_model item_or
to_api_model-item row rule h =
    let (t, e, h1) = >>=-some (rule_type_of row.rule_type) _ rule h in
    let (days, e1, h2) = >>=-some (read_column row.days_of_week) _ rule h1 in
    let (dates, e2, h3) = >>=-some (read_column row.specific_dates) _ rule h2 in
    ap (item_or row.template_id) h3

-- A rule of the items names one of them.
pub rules_of_items-listed :
    (db : Db) (ids : List ℕ) (rule : ApplicationRule)
    → Memᴰ rule (rules_of_items db ids)
    → any (λ i. i == rule.library_item_id) ids ≡ true
unfolding rules_of_items
rules_of_items-listed db ids rule m =
    let (row, k, e) =
      filter_map-mem to_api_model (filter (λ r. any (λ i. i == r.template_id) ids) db.rules) rule
        m in
    subst (λ n. any (λ i. i == n) ids ≡ true) (to_api_model-item row rule e)
      (mem-filter (λ r. any (λ i. i == r.template_id) ids) db.rules row k).0

pub effective_of-none :
    (c : Chrono) (db : Db) (date : ℕ) (items : List ScheduleLibraryItem)
    → effective_of c db date items [] ≡ err not_found
unfolding effective_of
effective_of-none c db date [] = refl
effective_of-none c db date (i ∷ is) = refl

effective_of-match :
    (c : Chrono) (db : Db) (date : ℕ) (items : List ScheduleLibraryItem) (rule : ApplicationRule)
    (s : ℕ) (rest : List Match)
    → any (λ i. i == rule.library_item_id) (item_ids items) ≡ true
    → effective_of c db date items ((rule, s) ∷ rest) ≢ err not_found
unfolding effective_of
effective_of-match c db date [] rule s rest h k = cc
effective_of-match c db date (i ∷ is) rule s rest h k =
    let (item, e) = find-listed (i ∷ is) rule.library_item_id h in
    let found : or_fail (find (λ j. j.id == rule.library_item_id) (i ∷ is)) not_found ≡ ok item =
      rw e refl in
    cc (k, found)

-- There is a match, or none of the rules matches.
pub match-cases :
    (c : Chrono) (db : Db) (ids : List ℕ) (date : ℕ) (ms : List Match)
    → matching_rules c db ids date ≡ ms
    → ((rule : ApplicationRule) × (s : ℕ) × (rest : List Match) × (ms ≡ (rule, s) ∷ rest)
        × Memᴰ rule (rules_of_items db ids)
        × (specificity_on c date rule ≡ some s))
      ⊎ ((ms ≡ [])
          × ((rule : ApplicationRule)
              → Memᴰ rule (rules_of_items db ids)
              → specificity_on c date rule ≡ none))
match-cases c db ids date [] e = inr (refl, matching_rules-none c db ids date e)
match-cases c db ids date ((rule, s) ∷ rest) e =
    let (stored, on_date, wins) = matching_rules-first c db ids date rule s rest e in
    inl (rule, s, rest, refl, stored, on_date)

-- The items have no effective schedule on a date exactly when none of their rules matches it.
pub get_effective_schedule-not_found :
    (c : Chrono) (q : Sqlite) (db : Db) (site date : ℕ) (items : List ScheduleLibraryItem)
    → get_library_items_for_site q db site ≡ ok items
    → (get_effective_schedule c q db site date ≡ err not_found) ↔ (
        (rule : ApplicationRule)
        → Memᴰ rule (rules_of_items db (item_ids items))
        → specificity_on c date rule ≡ none)
get_effective_schedule-not_found c q db site date items hi =
    elim (match-cases c db ids date ms refl) [
      | inl (rule, s, rest, e, stored, on_date) ↦ (
        (λ h. absurd (
            effective_of-match c db date items rule s rest
              (rules_of_items-listed db ids rule stored)
              (subst (λ l. effective_of c db date items l ≡ err not_found) e (sym shape ∙ h)))),
        (λ all. absurd (cc (all rule stored, on_date))),
      )
      | inr (e, none_matches) ↦ (
        (λ h. none_matches),
        (λ all.
            shape
            ∙ subst (λ l. effective_of c db date items l ≡ err not_found) (sym e)
                (effective_of-none c db date items)),
      )
    ]
  where
    ids : List ℕ
    ids = item_ids items

    ms : List Match
    ms = matching_rules c db ids date

    shape : get_effective_schedule c q db site date ≡ effective_of c db date items ms
    shape = get_effective_schedule-of c q db site date items hi
