-- ===== src/Schedules/Season/Filled.antt =====
-- neems-api/src/orm/application_rule.rs: the dates of `season_fill_dates`.
use neems_core.Schedules.Chrono.{Chrono, succ_opt}
use mathlib.Core.List.{Memᴰ}
use neems_core.Schedules.Season.{season_fill_dates, skipped, fill, is_weekend, keep_date}
use neems_core.Prelude.Sort.{AreSortedBy}
use neems_core.Prelude.Members.{any-mem}
use neems_core.Prelude.Rows.{mem-left, mem-right, any-some, append-mem, if-mem}
use mathlib.Core.Path.{subst}
use neems_core.Schedules.Holidays.{us_federal_holidays, us_federal_holidays_in_range}
use neems_core.Schedules.Holidays.Range.{us_federal_holidays_in_range_iff}
use mathlib.Core.Option
use neems_core.Prelude.{
  ℕ, zero, suc, ap, some, refl, sym, inl, inr, Bool, true, false, not, List, [], arith, ltb, leb,
  Bool-cases, if-keeps, any, ◌+◌, ◌-◌, ◌≤◌, ◌<◌, ◌≡◌, ◌↔◌, ◌⊎◌, ◌&&◌, ◌∷◌, ◌==◌, if◌then◌else◌,
}

-- A date that the fill keeps.
abbrev pub is_kept : Chrono → Bool → List ℕ → ℕ → Bool
is_kept c weekdays_only skip d =
    not (weekdays_only && is_weekend c d) && not (any (λ s. s == d) skip)

-- The days of the loop that are kept, in a calendar without an end.
kept_days : Chrono → Bool → List ℕ → ℕ → ℕ → ℕ → List ℕ
kept_days c w skip end zero d = []
kept_days c w skip end (suc fuel) d =
    let rest = kept_days c w skip end fuel (suc d) in
    if leb d end then (if is_kept c w skip d then d ∷ rest else rest) else []

-- Before the end of the calendar the loop does not panic.
fill-kept_days :
    (c : Chrono) (w : Bool) (skip : List ℕ) (end fuel d : ℕ)
    → end < c.max
    → fill c w skip end fuel d ≡ some (kept_days c w skip end fuel d)
unfolding fill kept_days succ_opt
fill-kept_days c w skip end zero d h = refl
fill-kept_days c w skip end (suc fuel) d h = elim (Bool-cases (leb d end)) [
  | inr past ↦ rw past refl
  | inl within ↦
      let inside : ltb d c.max ≡ true = ground (arith, within, h) in
      rw within (
        rw inside (
          ap (Option.map (keep_date (is_kept c w skip d) d))
            (fill-kept_days c w skip end fuel (suc d) h)))
]

kept_days-mem :
    (c : Chrono) (w : Bool) (skip : List ℕ) (end fuel d x : ℕ)
    → Memᴰ x (kept_days c w skip end fuel d)
    → (d ≤ x) × (x ≤ end) × (is_kept c w skip x ≡ true)
unfolding kept_days
kept_days-mem c w skip end zero d x m = elim m [ ]
kept_days-mem c w skip end (suc fuel) d x m =
    let rest = kept_days c w skip end fuel (suc d) in
    let later : Memᴰ x rest → (d ≤ x) × (x ≤ end) × (is_kept c w skip x ≡ true) = λ n.
      let (a, b, k) = kept_days-mem c w skip end fuel (suc d) x n in (omega (arith, a), b, k) in
    elim (if-mem (leb d end) (if is_kept c w skip d then d ∷ rest else rest) [] x m) [
      | inl (t, n) ↦ elim (if-mem (is_kept c w skip d) (d ∷ rest) rest x n) [
        | inl (k, o) ↦ elim o [
          | Memᴰ.head e ↦ (
            omega (arith, e),
            ground (arith, e, t),
            subst (λ y. is_kept c w skip y ≡ true) (sym e) k,
          )
          | Memᴰ.tail l ↦ later l
        ]
        | inr (k, o) ↦ later o
      ]
      | inr (t, n) ↦ elim n [ ]
    ]

mem-kept_days :
    (c : Chrono) (w : Bool) (skip : List ℕ) (end fuel d x : ℕ)
    → end + 2 ≤ fuel + d
    → d ≤ x
    → x ≤ end
    → is_kept c w skip x ≡ true
    → Memᴰ x (kept_days c w skip end fuel d)
unfolding kept_days
mem-kept_days c w skip end zero d x f a b k = absurd (omega arith)
mem-kept_days c w skip end (suc fuel) d x f a b k =
    let rest = kept_days c w skip end fuel (suc d) in
    if-keeps (λ l. Memᴰ x l) (leb d end)
      (λ t. elim (Bool-cases (d == x)) [
        | inl e ↦
            let same : x ≡ d = ground (arith, e) in
            let kept : is_kept c w skip d ≡ true = subst (λ y. is_kept c w skip y ≡ true) same k in
            if-keeps (λ l. Memᴰ x l) (is_kept c w skip d) (λ _. Memᴰ.head same)
              (λ n. absurd (cc (n, kept)))
        | inr e ↦
            let n =
              mem-kept_days c w skip end fuel (suc d) x (omega (arith, f)) (ground (arith, a, e)) b
                k in
            if-keeps (λ l. Memᴰ x l) (is_kept c w skip d) (λ _. Memᴰ.tail n) (λ _. n)
      ])
      (λ t. absurd (ground (arith, t, a, b)))

kept_days-ascends :
    (c : Chrono) (w : Bool) (skip : List ℕ) (end fuel d : ℕ)
    → AreSortedBy (λ x y. x < y) (kept_days c w skip end fuel d)
unfolding kept_days
kept_days-ascends c w skip end zero d = tt
kept_days-ascends c w skip end (suc fuel) d =
    let rest = kept_days c w skip end fuel (suc d) in
    let sorted = kept_days-ascends c w skip end fuel (suc d) in
    if-keeps (AreSortedBy (λ x y. x < y)) (leb d end)
      (λ _.
        if-keeps (AreSortedBy (λ x y. x < y)) (is_kept c w skip d)
          (λ _. (
            (λ y m.
                let (a, b, k) = kept_days-mem c w skip end fuel (suc d) y m in omega (arith, a)),
            sorted,
          ))
          (λ _. sorted))
      (λ _. tt)

listed : (d : ℕ) (xs : List ℕ) → any (λ s. s == d) xs ≡ true → Memᴰ d xs
listed d xs h =
    let (s, m, t) = any-some (λ s. s == d) xs h in
    let same : s ≡ d = ground (arith, t) in subst (λ y. Memᴰ y xs) same m

-- A date of the range that the fill keeps: none that the caller excludes, and no holiday of a year of
-- the range where holidays are excluded.
abbrev pub IsFillable : Chrono → ℕ → ℕ → Bool → Bool → List ℕ → ℕ → Type 0
IsFillable c start end w holidays extra d =
    (start ≤ d)
    × (d ≤ end)
    × ((w && is_weekend c d) ≡ false)
    × ¬ Memᴰ d extra
    × (holidays ≡ true
        → ¬ ((y : ℕ) × (c.year start ≤ y) × (y ≤ c.year end) × Memᴰ d (us_federal_holidays c y)))

skipped-mem :
    (c : Chrono) (start end d : ℕ) (holidays : Bool) (extra : List ℕ)
    → Memᴰ d (skipped c start end holidays extra)
    → Memᴰ d extra ⊎ ((holidays ≡ true) × Memᴰ d (us_federal_holidays_in_range c start end))
unfolding skipped
skipped-mem c start end d holidays extra m =
    elim (append-mem extra (if holidays then us_federal_holidays_in_range c start end else []) d
      m) [
        | inl n ↦ inl n
        | inr n ↦ elim (if-mem holidays (us_federal_holidays_in_range c start end) [] d n) [
          | inl (k, o) ↦ inr (k, o)
          | inr (k, o) ↦ elim o [ ]
        ]
      ]

mem-skipped :
    (c : Chrono) (start end d : ℕ) (holidays : Bool) (extra : List ℕ)
    → Memᴰ d extra ⊎ ((holidays ≡ true) × Memᴰ d (us_federal_holidays_in_range c start end))
    → Memᴰ d (skipped c start end holidays extra)
unfolding skipped
mem-skipped c start end d holidays extra (inl m) =
    mem-left extra (if holidays then us_federal_holidays_in_range c start end else []) d m
mem-skipped c start end d holidays extra (inr (k, m)) =
    mem-right extra (if holidays then us_federal_holidays_in_range c start end else []) d (rw k m)

is_kept-parts :
    (c : Chrono) (w : Bool) (skip : List ℕ) (d : ℕ)
    → is_kept c w skip d ≡ true
    → ((w && is_weekend c d) ≡ false) × ¬ Memᴰ d skip
is_kept-parts c w skip d h = (
  ground (arith, h),
  (λ m. let there = any-mem (λ s. s == d) skip d m (ground arith) in cc (there, unlisted)),
)
  where
    unlisted : any (λ s. s == d) skip ≡ false
    unlisted = ground (arith, h)

is_kept-of :
    (c : Chrono) (w : Bool) (skip : List ℕ) (d : ℕ)
    → (w && is_weekend c d) ≡ false
    → ¬ Memᴰ d skip
    → is_kept c w skip d ≡ true
is_kept-of c w skip d h n =
    let unlisted : any (λ s. s == d) skip ≡ false = elim (Bool-cases (any (λ s. s == d) skip)) [
      | inl t ↦ absurd (n (listed d skip t))
      | inr f ↦ f
    ] in
    rw (h, unlisted) refl

season_fill_dates-of :
    (c : Chrono) (start end : ℕ) (w holidays : Bool) (extra : List ℕ)
    → end < c.max
    → (start ≤ end
        × (season_fill_dates c start end w holidays extra
            ≡ some
                (kept_days c w (skipped c start end holidays extra) end (end + 2 - start) start)))
      ⊎ (end < start × (season_fill_dates c start end w holidays extra ≡ some []))
unfolding season_fill_dates
season_fill_dates-of c start end w holidays extra h = elim (Bool-cases (ltb end start)) [
  | inl t ↦ inr (ground (arith, t), rw t refl)
  | inr f ↦ inl (
    ground (arith, f),
    rw f (fill-kept_days c w (skipped c start end holidays extra) end (end + 2 - start) start h),
  )
]

kept_days_iff :
    (c : Chrono) (start end : ℕ) (w holidays : Bool) (extra : List ℕ) (d : ℕ)
    → start ≤ end
    → Memᴰ d (kept_days c w (skipped c start end holidays extra) end (end + 2 - start) start)
      ↔ IsFillable c start end w holidays extra d
kept_days_iff c start end w holidays extra d l = (
  (λ m.
      let (a, b, k) = kept_days-mem c w skip end (end + 2 - start) start d m in
      let (h, n) = is_kept-parts c w skip d k in
      (
        a,
        b,
        h,
        (λ x. n (mem-skipped c start end d holidays extra (inl x))),
        (λ t x. n (
            mem-skipped c start end d holidays extra
              (inr (t, (us_federal_holidays_in_range_iff c start end d).1 (a, b, x))))),
      )),
  (λ h.
      let (a, b, k, x, y) = h in
      mem-kept_days c w skip end (end + 2 - start) start d (omega (arith, l)) a b (
        is_kept-of c w skip d k (λ m. elim (skipped-mem c start end d holidays extra m) [
          | inl z ↦ x z
          | inr (t, z) ↦
              let (_, _, of_year) = (us_federal_holidays_in_range_iff c start end d).0 z in
              y t of_year
        ]))),
)
  where
    skip : List ℕ
    skip = skipped c start end holidays extra

-- A season fill that ends before the last date of chrono does not panic; its dates ascend, and are
-- those of the range that are no weekend, where only weekdays are wanted, that the caller does not
-- exclude, and that `us_federal_holidays` has for none of the years from that of the start to that of
-- the end, where holidays are excluded.
pub season_fill_dates_iff :
    (c : Chrono) (start end : ℕ) (weekdays_only holidays : Bool) (extra : List ℕ)
    → end < c.max
    → (dates : List ℕ) × (season_fill_dates c start end weekdays_only holidays extra ≡ some dates)
      × AreSortedBy (λ x y. x < y) dates
      × ((d : ℕ) → Memᴰ d dates ↔ IsFillable c start end weekdays_only holidays extra d)
season_fill_dates_iff c start end w holidays extra h =
    elim (season_fill_dates-of c start end w holidays extra h) [
      | inl (l, e) ↦ (
        _,
        e,
        kept_days-ascends c w (skipped c start end holidays extra) end (end + 2 - start) start,
        λ d. kept_days_iff c start end w holidays extra d l,
      )
      | inr (l, e) ↦
          ([], e, tt, λ d. ((λ m. elim m [ ]), (λ f. absurd (omega (arith, l, f.0, f.1)))))
    ]
