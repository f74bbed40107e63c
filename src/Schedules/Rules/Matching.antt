-- ===== src/Schedules/Rules/Matching.antt =====
-- neems-api/src/orm/application_rule.rs: the order of the matching rules, and which rules match.
use mathlib.Core.Option
use neems_core.Schedules.Model.{ApplicationRule}
use neems_core.Schedules.Chrono.{Chrono}
use neems_core.Prelude.Sort.{sort_by-empty, sort_by-first, IsOrder}
use neems_core.Schedules.Rules.{
  matching_rules, rules_of_items, Match, match_le, matched, specificity_on,
}
use neems_core.Schedules.Db.{Db}
use mathlib.Core.List.{Memᴰ}
use neems_core.Prelude.Collect.{filter_map, filter_map-mem, mem-filter_map}
use mathlib.Core.Path.{subst}
use neems_core.Prelude.{
  ℕ, inl, inr, true, false, Option, none, some, List, [], arith, Option-cases, ◌≤◌, ◌<◌, ◌≡◌, ◌⊎◌,
  ◌∷◌,
}

pub match_le-IsOrder : IsOrder match_le
unfolding match_le
match_le-IsOrder = record {
  total = λ x y h. total_of x y h;
  transitive = λ x y z h k. transitive_of x y z h k;
}
  where
    total_of : (x y : Match) → match_le x y ≡ false → match_le y x ≡ true
    total_of (a, s) (b, t) h = ground arith

    transitive_of :
        (x y z : Match) → match_le x y ≡ true → match_le y z ≡ true → match_le x z ≡ true
    transitive_of (a, s) (b, t) (c, u) h k = ground arith

-- What comes first: the higher specificity, and among equals the later creation.
abbrev pub Outranks : Match → Match → Type 0
Outranks (a, s) (b, t) = (t < s) ⊎ ((t ≡ s) × (b.created_at ≤ a.created_at))

pub Outranks-match_le :
    (a b : ApplicationRule) (s t : ℕ) → match_le (a, s) (b, t) ≡ true → Outranks (a, s) (b, t)
unfolding match_le
Outranks-match_le a b s t h = ground arith

paired :
    {A B : Type 0} (a b : A) (o : Option B) (t : B)
    → Option.map {B = A × B} (λ s. (a, s)) o ≡ some (b, t)
    → (a ≡ b) × (o ≡ some t)
paired a b none t h = cc
paired a b (some u) t h = (cc, cc)

-- A match is a rule with the specificity that it has on the date.
pub matched_lem :
    (c : Chrono) (date : ℕ) (a rule : ApplicationRule) (s : ℕ)
    → matched c date a ≡ some (rule, s)
    → (a ≡ rule) × (specificity_on c date rule ≡ some s)
unfolding matched
matched_lem c date a rule s h =
    let (e, k) = paired a rule (specificity_on c date a) s h in
    (e, subst (λ r. specificity_on c date r ≡ some s) e k)

pub matched-specificity_on :
    (c : Chrono) (date : ℕ) (rule : ApplicationRule) (s : ℕ)
    → specificity_on c date rule ≡ some s
    → matched c date rule ≡ some (rule, s)
unfolding matched
matched-specificity_on c date rule s h = rw h

-- The first of the matching rules is a stored rule that matches, and outranks every other.
pub matching_rules-first :
    (c : Chrono) (db : Db) (ids : List ℕ) (date : ℕ) (rule : ApplicationRule) (s : ℕ)
    (rest : List Match)
    → matching_rules c db ids date ≡ (rule, s) ∷ rest
    → Memᴰ rule (rules_of_items db ids)
      × (specificity_on c date rule ≡ some s)
      × ((other : ApplicationRule) (t : ℕ)
          → Memᴰ other (rules_of_items db ids)
          → specificity_on c date other ≡ some t
          → Outranks (rule, s) (other, t))
unfolding matching_rules
matching_rules-first c db ids date rule s rest e =
    let stored = rules_of_items db ids in
    let (m, least) =
      sort_by-first match_le (filter_map (matched c date) stored) (rule, s) rest match_le-IsOrder
        e in
    let (a, k, h) = filter_map-mem (matched c date) stored (rule, s) m in
    let (p, q) = matched_lem c date a rule s h in
    (
      subst (λ r. Memᴰ r stored) p k,
      q,
      λ other t n o. Outranks-match_le rule other s t (
          least (other, t)
            (mem-filter_map (matched c date) stored other (other, t) n
              (matched-specificity_on c date other t o))),
    )

-- There is none when no stored rule matches.
pub matching_rules-none :
    (c : Chrono) (db : Db) (ids : List ℕ) (date : ℕ)
    → matching_rules c db ids date ≡ []
    → (rule : ApplicationRule) → Memᴰ rule (rules_of_items db ids)
    → specificity_on c date rule ≡ none
unfolding matching_rules
matching_rules-none c db ids date e rule m = elim (Option-cases (specificity_on c date rule)) [
  | inl n ↦ n
  | inr (s, k) ↦ absurd (
      sort_by-empty match_le (filter_map (matched c date) (rules_of_items db ids)) (rule, s) e
        (mem-filter_map (matched c date) (rules_of_items db ids) rule (rule, s) m
          (matched-specificity_on c date rule s k)))
]
