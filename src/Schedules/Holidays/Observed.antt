-- ===== src/Schedules/Holidays/Observed.antt =====
-- neems-api/src/orm/holidays.rs: on which days the observed holidays fall, and the holidays of a
-- range of dates.
use neems_core.Schedules.Chrono.{Chrono}
use neems_core.Schedules.Holidays.{
  dedup, federal_holiday_rules, us_federal_holidays, HolidayRule, observed_date, resolve,
  FederalHoliday, fixed_date, last_weekday_in_month, nth_match, nth_weekday_in_month,
  apply_federal_observance, from_monday, walk_back,
}
use neems_core.Schedules.Rules.{first}
use neems_core.Prelude.Collect.{filter_map, filter_map-mem, ◌>>=◌, >>=-some}
use mathlib.Core.Path.{subst}
use mathlib.Core.List.{Memᴰ}
use neems_core.Prelude.Members.{all-mem}
use neems_core.Prelude.Sort.{sort_by, sort_by-mem}
use neems_core.Prelude.{
  ℕ, zero, suc, refl, sym, inl, inr, Bool, true, false, none, some, List, [], arith, ltb, leb,
  Bool-cases, ◌+◌, ◌-◌, ◌*◌, ◌%◌, ◌≤◌, ◌<◌, ◌≡◌, ◌∙◌, ◌≢◌, ◌&&◌, ◌∷◌, ◌==◌, if◌then◌else◌,
}

-- What chrono's calendar guarantees: weekdays go round, no date is day 0, and the first of a month
-- but January comes after four weeks.
pub record IsCalendar (c : Chrono) : Type 0 where
  pub weekday-lt : (d : ℕ) → c.num_days_from_sunday d < 7
  pub weekday_next : (d : ℕ) → c.num_days_from_sunday (suc d) ≡ (c.num_days_from_sunday d + 1) % 7
  pub date_positive : (y m k d : ℕ) → c.from_ymd_opt y m k ≡ some d → 0 < d
  pub month_start : (y m d : ℕ) → c.from_ymd_opt y (suc (suc m)) 1 ≡ some d → 28 < d

-- Monday to Friday.
abbrev pub IsWorkday : Chrono → ℕ → Type 0
IsWorkday c d = (0 < c.num_days_from_sunday d) × (c.num_days_from_sunday d < 6)

weekday-shift :
    (c : Chrono)
    → IsCalendar c
    → (d k : ℕ) → c.num_days_from_sunday (k + d) ≡ (c.num_days_from_sunday d + k) % 7
weekday-shift c w d zero = ground (arith, w.weekday-lt d)
weekday-shift c w d (suc k) = ground (arith, w.weekday_next (k + d), weekday-shift c w d k)

apply_federal_observance-IsWorkday :
    (c : Chrono) (d : ℕ) → IsCalendar c → 0 < d → IsWorkday c (apply_federal_observance c d)
unfolding apply_federal_observance
apply_federal_observance-IsWorkday c (suc d) w h =
    ground (arith, w.weekday-lt (suc d), w.weekday_next d, w.weekday_next (suc d), w.weekday-lt d)
apply_federal_observance-IsWorkday c zero w h = absurd (omega arith)

-- The days from the last date of a weekday to a date.
abbrev since : Chrono → ℕ → ℕ → ℕ
since c weekday d = (from_monday c d + 7 - weekday) % 7

walk_back-step :
    (a b t : ℕ)
    → a < 7
    → b < 7
    → t < 7
    → b ≡ (a + 1) % 7
    → (b + 6) % 7 ≢ t
    → ((a + 6) % 7 + 7 - t) % 7 + 1 ≡ ((b + 6) % 7 + 7 - t) % 7
walk_back-step a b t ha hb ht e n = omega arith

walk_back-weekday :
    (c : Chrono) (weekday fuel d : ℕ)
    → IsCalendar c
    → weekday < 7
    → since c weekday d < fuel
    → since c weekday d ≤ d
    → from_monday c (walk_back c weekday fuel d) ≡ weekday
unfolding walk_back
walk_back-weekday c weekday zero d w t h k = absurd (omega arith)
walk_back-weekday c weekday (suc fuel) zero w t h k =
    let here : (from_monday c 0 == weekday) ≡ true = ground (arith, w.weekday-lt 0) in
    rw here (ground (arith, here))
walk_back-weekday c weekday (suc fuel) (suc d) w t h k =
    elim (Bool-cases (from_monday c (suc d) == weekday)) [
      | inl e ↦ rw e (ground (arith, e))
      | inr e ↦
          let step =
            walk_back-step (c.num_days_from_sunday d) (c.num_days_from_sunday (suc d)) weekday
              (w.weekday-lt d) (w.weekday-lt (suc d)) t (w.weekday_next d) (ground (arith, e)) in
          let back : suc d - 1 ≡ d = omega arith in
          rw (e, back) (walk_back-weekday c weekday fuel d w t (omega arith) (omega arith))
    ]

from_monday-IsWorkday :
    (c : Chrono) (d weekday : ℕ)
    → IsCalendar c
    → weekday < 5
    → from_monday c d ≡ weekday
    → IsWorkday c d
from_monday-IsWorkday c d weekday w h e = ground (arith, w.weekday-lt d)

if-some : (b : Bool) (x d : ℕ) → (if b then some x else none) ≡ some d → x ≡ d
if-some true x d h = cc
if-some false x d h = absurd (cc h)

nth-weekday :
    (a t n : ℕ) → a < 7 → t < 7 → ((a + ((7 + t - (a + 6) % 7) % 7 + 7 * n)) % 7 + 6) % 7 ≡ t
nth-weekday a t n h k = omega arith

nth_match-IsWorkday :
    (c : Chrono) (month weekday nth first d : ℕ)
    → IsCalendar c
    → weekday < 5
    → nth_match c month weekday nth first ≡ some d
    → IsWorkday c d
unfolding nth_match
nth_match-IsWorkday c month weekday nth first d w h e =
    let k : ℕ = (7 + weekday - from_monday c first) % 7 + 7 * (nth - 1) in
    let which : k + first ≡ d =
      omega (arith, if-some (c.month (first + k) == month) (first + k) d e) in
    let placed =
      nth-weekday (c.num_days_from_sunday first) weekday (nth - 1) (w.weekday-lt first)
        (omega arith) in
    from_monday-IsWorkday c d weekday w h
      (subst (λ x. from_monday c x ≡ weekday) which (rw (weekday-shift c w first k) placed))

-- A rule that cannot give a weekend: an observed date, or one of the weekdays.
abbrev is_placed : FederalHoliday → Bool
is_placed h = elim h.rule [
  | fixed_date month day ↦ h.observed
  | nth_weekday_in_month month weekday nth ↦ ltb weekday 5
  | last_weekday_in_month month weekday ↦ ltb weekday 5 && (ltb 0 month && ltb month 12)
]

last-IsWorkday :
    (c : Chrono) (month weekday year d : ℕ)
    → IsCalendar c
    → weekday < 5
    → 0 < month
    → month < 12
    → resolve c (last_weekday_in_month month weekday) year ≡ some d
    → IsWorkday c d
unfolding resolve
last-IsWorkday c zero weekday year d w h k l e = absurd (omega arith)
last-IsWorkday c (suc month) weekday year d w h k l e =
    let inside : (suc month == 12) ≡ false = ground arith in
    let next : suc month + 1 ≡ suc (suc month) = omega arith in
    let start : resolve c (last_weekday_in_month (suc month) weekday) year
        ≡ (c.from_ymd_opt year (suc (suc month)) 1 >>= λ x. some (walk_back c weekday 7 (x - 1))) =
      rw (resolve, inside, next) refl in
    let (f, g, r) =
      >>=-some (c.from_ymd_opt year (suc (suc month)) 1) (λ x. some (walk_back c weekday 7 (x - 1)))
        d (sym start ∙ e) in
    let late = w.month_start year month f g in
    let hit : walk_back c weekday 7 (f - 1) ≡ d =
      if-some true (walk_back c weekday 7 (f - 1)) d r in
    from_monday-IsWorkday c d weekday w h (
      subst (λ x. from_monday c x ≡ weekday) hit
        (walk_back-weekday c weekday 7 (f - 1) w (omega arith) (omega arith) (omega arith)))

observed-IsWorkday :
    (c : Chrono) (observed : Bool) (a : ℕ)
    → IsWorkday c a
    → IsWorkday c (if observed then apply_federal_observance c a else a)
unfolding apply_federal_observance
observed-IsWorkday c false a p = p
observed-IsWorkday c true a p = ground (arith, p.0, p.1)

observed_date-IsWorkday :
    (c : Chrono) (year : ℕ) (h : FederalHoliday) (d : ℕ)
    → IsCalendar c
    → is_placed h ≡ true
    → observed_date c year h ≡ some d
    → IsWorkday c d
unfolding observed_date
observed_date-IsWorkday c year h d w p e =
    let (a, r, o) =
      >>=-some (resolve c h.rule year)
        (λ x. some (if h.observed then apply_federal_observance c x else x)) d e in
    let seen : (if h.observed then apply_federal_observance c a else a) ≡ d = if-some true _ d o in
    subst (IsWorkday c) seen (by_rule h.rule h.observed a p r)
  where
    unfold_nth :
        (month weekday nth a : ℕ)
        → resolve c (nth_weekday_in_month month weekday nth) year ≡ some a
        → (c.from_ymd_opt year month 1 >>= nth_match c month weekday nth) ≡ some a
    unfold_nth month weekday nth a r = unfold resolve in r

    by_rule :
        (rule : HolidayRule) (observed : Bool) (a : ℕ)
        → is_placed (record { name = h.name; rule = rule; observed = observed }) ≡ true
        → resolve c rule year ≡ some a
        → IsWorkday c (if observed then apply_federal_observance c a else a)
    by_rule (fixed_date month day) true a q r =
        apply_federal_observance-IsWorkday c a w
          (w.date_positive year month day a (unfold resolve in r))
    by_rule (fixed_date month day) false a q r = absurd (cc q)
    by_rule (nth_weekday_in_month month weekday nth) observed a q r =
        let (first, f, n) =
          >>=-some (c.from_ymd_opt year month 1) (nth_match c month weekday nth) a
            (unfold_nth month weekday nth a r) in
        observed-IsWorkday c observed a
          (nth_match-IsWorkday c month weekday nth first a w (ground (arith, q)) n)
    by_rule (last_weekday_in_month month weekday) observed a q r = observed-IsWorkday c observed a (
        last-IsWorkday c month weekday year a w (ground (arith, q)) (ground (arith, q))
          (ground (arith, q)) r)

kept-or-not : (b : Bool) (x d : ℕ) (l : List ℕ) → Memᴰ d (if b then l else x ∷ l) → Memᴰ d (x ∷ l)
kept-or-not true x d l m = Memᴰ.tail m
kept-or-not false x d l m = m

dedup-mem : (xs : List ℕ) (d : ℕ) → Memᴰ d (dedup xs) → Memᴰ d xs
unfolding dedup
dedup-mem [] d m = m
dedup-mem (x ∷ []) d m = m
dedup-mem (x ∷ y ∷ rest) d m = elim (kept-or-not (x == y) x d (dedup (y ∷ rest)) m) [
  | Memᴰ.head e ↦ Memᴰ.head e
  | Memᴰ.tail n ↦ Memᴰ.tail (dedup-mem (y ∷ rest) d n)
]

-- Every federal holiday that the code computes for a year falls on a day from Monday to Friday, in
-- a calendar whose weekdays go round.
pub us_federal_holidays-IsWorkday :
    (c : Chrono) (year d : ℕ) → IsCalendar c → Memᴰ d (us_federal_holidays c year) → IsWorkday c d
unfolding us_federal_holidays federal_holiday_rules
us_federal_holidays-IsWorkday c year d w m =
    let found = filter_map (observed_date c year) federal_holiday_rules in
    let (h, k, e) =
      filter_map-mem (observed_date c year) federal_holiday_rules d
        (sort_by-mem leb found d (dedup-mem (sort_by leb found) d m)) in
    observed_date-IsWorkday c year h d w (all-mem is_placed federal_holiday_rules h refl k) e
