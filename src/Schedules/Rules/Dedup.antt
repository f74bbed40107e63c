-- ===== src/Schedules/Rules/Dedup.antt =====
-- neems-api/src/orm/application_rule.rs: the deduplication of the matches by library item.
use mathlib.Core.Option
use neems_core.Schedules.Rules.{
  match_le, item_ids, CalendarScheduleMatch, Match, all_matches, calendar_match,
}
use mathlib.Core.List.{Memᴰ}
use neems_core.Schedules.Model.{ApplicationRule, ScheduleLibraryItem}
use neems_core.Schedules.Rules.Effective.{find-listed}
use neems_core.Prelude.Collect.{keep, keep-mem}
use mathlib.Core.Path.{subst}
use neems_core.Prelude.Members.{distinct, find-some, mem-all}
use neems_core.Prelude.Sort.{AreSortedBy, Lex}
use neems_core.Prelude.{
  ℕ, refl, sym, ap, inl, inr, true, false, not, Option, none, some, List, [], arith, Bool-cases,
  Option-cases, find, any, ◌≤◌, ◌≡◌, ◌∙◌, ◌∷◌, ◌==◌,
}

all_matches-none :
    (items : List ScheduleLibraryItem) (seen : List ℕ) → all_matches items seen [] ≡ []
unfolding all_matches
all_matches-none items seen = refl

all_matches-seen :
    (items : List ScheduleLibraryItem) (seen : List ℕ) (rule : ApplicationRule) (s : ℕ)
    (rest : List Match)
    → any (λ i. i == rule.library_item_id) seen ≡ true
    → all_matches items seen ((rule, s) ∷ rest) ≡ all_matches items seen rest
unfolding all_matches
all_matches-seen items seen rule s rest h = rw h refl

all_matches-new :
    (items : List ScheduleLibraryItem) (seen : List ℕ) (rule : ApplicationRule) (s : ℕ)
    (rest : List Match)
    → any (λ i. i == rule.library_item_id) seen ≡ false
    → all_matches items seen ((rule, s) ∷ rest)
      ≡ keep
          (Option.map (calendar_match (rule, s)) (find (λ i. i.id == rule.library_item_id) items))
          (all_matches items (rule.library_item_id ∷ seen) rest)
unfolding all_matches
all_matches-new items seen rule s rest h = rw h refl

-- What is kept of a match is of its item.
kept-item :
    (items : List ScheduleLibraryItem) (rule : ApplicationRule) (s : ℕ) (m : CalendarScheduleMatch)
    → Option.map (calendar_match (rule, s)) (find (λ i. i.id == rule.library_item_id) items)
      ≡ some m
    → m.library_item_id ≡ rule.library_item_id
unfolding calendar_match
kept-item items rule s m h = elim (Option-cases (find (λ i. i.id == rule.library_item_id) items)) [
  | inl e ↦ absurd (cc (h, e))
  | inr (item, e) ↦
      let (same, n) = find-some (λ i. i.id == rule.library_item_id) items item e in
      let shown : m ≡ calendar_match (rule, s) item = cc (h, e) in
      ap (λ r. r.library_item_id) shown ∙ ground (arith, same)
]

-- No match of the list is of a seen item.
all_matches-unseen :
    (items : List ScheduleLibraryItem) (seen : List ℕ) (ms : List Match) (m : CalendarScheduleMatch)
    → Memᴰ m (all_matches items seen ms)
    → any (λ i. i == m.library_item_id) seen ≡ false
all_matches-unseen items seen [] m k = elim (subst (Memᴰ m) (all_matches-none items seen) k) [ ]
all_matches-unseen items seen ((rule, s) ∷ rest) m k =
    elim (Bool-cases (any (λ i. i == rule.library_item_id) seen)) [
      | inl hit ↦
          all_matches-unseen items seen rest m
            (subst (Memᴰ m) (all_matches-seen items seen rule s rest hit) k)
      | inr miss ↦
          elim (keep-mem _ _ m (subst (Memᴰ m) (all_matches-new items seen rule s rest miss) k)) [
            | inl e ↦ rw (kept-item items rule s m e) miss
            | inr n ↦
                let later = all_matches-unseen items (rule.library_item_id ∷ seen) rest m n in
                ground arith
          ]
    ]

abbrev pub of_item : CalendarScheduleMatch → ℕ
of_item m = m.library_item_id

distinct-keep :
    (o : Option CalendarScheduleMatch) (id : ℕ) (ms : List CalendarScheduleMatch)
    → ((m : CalendarScheduleMatch) → o ≡ some m → m.library_item_id ≡ id)
    → ((m : CalendarScheduleMatch) → Memᴰ m ms → (id == m.library_item_id) ≡ false)
    → distinct of_item ms ≡ true
    → distinct of_item (keep o ms) ≡ true
distinct-keep none id ms h k d = d
distinct-keep (some m) id ms h k d =
    let others =
      mem-all (λ y. not (y.library_item_id == m.library_item_id)) ms
        (λ a n. ground (arith, h m refl, k a n)) in
    ground arith

pub all_matches-distinct :
    (items : List ScheduleLibraryItem) (seen : List ℕ) (ms : List Match)
    → distinct of_item (all_matches items seen ms) ≡ true
all_matches-distinct items seen [] = rw (all_matches-none items seen) refl
all_matches-distinct items seen ((rule, s) ∷ rest) =
    elim (Bool-cases (any (λ i. i == rule.library_item_id) seen)) [
      | inl hit ↦
          rw (all_matches-seen items seen rule s rest hit) (all_matches-distinct items seen rest)
      | inr miss ↦ rw (all_matches-new items seen rule s rest miss) (
          distinct-keep _ rule.library_item_id _ (λ m e. kept-item items rule s m e)
            (λ m n.
              let out = all_matches-unseen items (rule.library_item_id ∷ seen) rest m n in
              ground arith)
            (all_matches-distinct items (rule.library_item_id ∷ seen) rest))
    ]

-- A match of the list for an item, at least as specific as `s`.
abbrev pub Shown : ℕ → ℕ → List CalendarScheduleMatch → Type 0
Shown id s ms =
    (m : CalendarScheduleMatch) × Memᴰ m ms × (m.library_item_id ≡ id) × (s ≤ m.specificity)

Shown-later :
    {id s : ℕ} (o : Option CalendarScheduleMatch) (ms : List CalendarScheduleMatch)
    → Shown id s ms
    → Shown id s (keep o ms)
Shown-later none ms h = h
Shown-later (some a) ms (m, k, e, l) = (m, Memᴰ.tail k, e, l)

Shown-first :
    (items : List ScheduleLibraryItem) (rule : ApplicationRule) (s t id : ℕ)
    (ms : List CalendarScheduleMatch)
    → any (λ i. i == rule.library_item_id) (item_ids items) ≡ true
    → rule.library_item_id ≡ id
    → t ≤ s
    → Shown id t (
        keep
          (Option.map (calendar_match (rule, s)) (find (λ i. i.id == rule.library_item_id) items))
          ms)
unfolding calendar_match
Shown-first items rule s t id ms h f l =
    let (item, e) = find-listed items rule.library_item_id h in
    let (same, n) = find-some (λ i. i.id == rule.library_item_id) items item e in
    rw e (calendar_match (rule, s) item, Memᴰ.head refl, ground (arith, same, f), l)

match_le-specificity : (a b : Match) → match_le a b ≡ true → b.1 ≤ a.1
unfolding match_le
match_le-specificity (a, s) (b, t) h = ground arith

pub all_matches-covers :
    (items : List ScheduleLibraryItem) (seen : List ℕ) (ms : List Match) (rule : ApplicationRule)
    (s : ℕ)
    → AreSortedBy (Lex match_le (λ x y. Unit {0})) ms
    → Memᴰ (rule, s) ms
    → any (λ i. i == rule.library_item_id) seen ≡ false
    → any (λ i. i == rule.library_item_id) (item_ids items) ≡ true
    → Shown rule.library_item_id s (all_matches items seen ms)
all_matches-covers items seen [] rule s sorted k new listed = elim k [ ]
all_matches-covers items seen ((a, t) ∷ rest) rule s sorted (Memᴰ.head e) new listed =
    let p : rule ≡ a = ap (λ x. x.0) e in
    let q : s ≡ t = ap (λ x. x.1) e in
    let out : any (λ i. i == a.library_item_id) seen ≡ false =
      subst (λ r. any (λ i. i == r.library_item_id) seen ≡ false) p new in
    rw (all_matches-new items seen a t rest out) (
      Shown-first items a t s rule.library_item_id _
        (subst (λ r. any (λ i. i == r.library_item_id) (item_ids items) ≡ true) p listed)
        (ap (λ r. r.library_item_id) (sym p)) (omega arith))
all_matches-covers items seen ((a, t) ∷ rest) rule s sorted (Memᴰ.tail k) new listed =
    elim (Bool-cases (any (λ i. i == a.library_item_id) seen)) [
      | inl hit ↦
          rw (all_matches-seen items seen a t rest hit)
            (all_matches-covers items seen rest rule s sorted.1 k new listed)
      | inr miss ↦
          rw (all_matches-new items seen a t rest miss)
            (elim (Bool-cases (a.library_item_id == rule.library_item_id)) [
              | inl same ↦
                  let id : a.library_item_id ≡ rule.library_item_id = ground arith in
                  Shown-first items a t s rule.library_item_id _ (rw id listed) id
                    (match_le-specificity (a, t) (rule, s) (sorted.0 (rule, s) k).0)
              | inr differs ↦ Shown-later _ _ (
                  all_matches-covers items (a.library_item_id ∷ seen) rest rule s sorted.1 k
                    (ground (arith, new, differs)) listed)
            ])
    ]
