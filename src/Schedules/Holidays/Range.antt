-- ===== src/Schedules/Holidays/Range.antt =====
-- neems-api/src/orm/holidays.rs: `us_federal_holidays_in_range`.
use neems_core.Schedules.Chrono.{Chrono}
use mathlib.Core.List.{Memᴰ}
use neems_core.Schedules.Holidays.{
  us_federal_holidays_in_range, holidays_of_years, us_federal_holidays,
}
use neems_core.Prelude.Members.{filter-mem, mem-filter}
use neems_core.Prelude.Rows.{append-mem, mem-left, mem-right}
use mathlib.Core.Path.{subst}
use neems_core.Prelude.{
  ℕ, zero, suc, inl, inr, arith, leb, Bool-cases, filter, ◌+◌, ◌-◌, ◌≤◌, ◌<◌, ◌≡◌, ◌↔◌, ◌&&◌, ◌==◌,
}

holidays_of_years-mem :
    (c : Chrono) (start end count year d : ℕ)
    → Memᴰ d (holidays_of_years c start end count year)
    → (y : ℕ) × (year ≤ y)
      × (y < year + count)
      × Memᴰ d (us_federal_holidays c y)
      × (start ≤ d)
      × (d ≤ end)
unfolding holidays_of_years
holidays_of_years-mem c start end zero year d m = elim m [ ]
holidays_of_years-mem c start end (suc count) year d m =
    elim (append-mem (filter (λ h. leb start h && leb h end) (us_federal_holidays c year))
      (holidays_of_years c start end count (year + 1)) d m) [
        | inl n ↦
            let (t, k) =
              mem-filter (λ h. leb start h && leb h end) (us_federal_holidays c year) d n in
            (year, omega arith, omega arith, k, ground (arith, t), ground (arith, t))
        | inr n ↦
            let (y, a, b, k, s, e) = holidays_of_years-mem c start end count (year + 1) d n in
            (y, omega (arith, a), omega (arith, b), k, s, e)
      ]

mem-holidays_of_years :
    (c : Chrono) (start end count year d y : ℕ)
    → year ≤ y
    → y < year + count
    → Memᴰ d (us_federal_holidays c y)
    → start ≤ d
    → d ≤ end
    → Memᴰ d (holidays_of_years c start end count year)
unfolding holidays_of_years
mem-holidays_of_years c start end zero year d y a b m s e = absurd (omega (arith, a, b))
mem-holidays_of_years c start end (suc count) year d y a b m s e = elim (Bool-cases (year == y)) [
  | inl t ↦
      let same : y ≡ year = ground (arith, t) in
      mem-left (filter (λ h. leb start h && leb h end) (us_federal_holidays c year))
        (holidays_of_years c start end count (year + 1)) d
        (filter-mem (λ h. leb start h && leb h end) (us_federal_holidays c year) d
          (ground (arith, s, e)) (subst (λ z. Memᴰ d (us_federal_holidays c z)) same m))
  | inr f ↦
      mem-right (filter (λ h. leb start h && leb h end) (us_federal_holidays c year))
        (holidays_of_years c start end count (year + 1)) d
        (mem-holidays_of_years c start end count (year + 1) d y (ground (arith, a, f))
          (omega (arith, b)) m s e)
]

-- The holidays of a range of dates are the dates of the range that are holidays of a year from
-- the year of its first date to that of its last. A holiday of the year after, observed in this
-- one, is not among them.
pub us_federal_holidays_in_range_iff :
    (c : Chrono) (start end d : ℕ)
    → Memᴰ d (us_federal_holidays_in_range c start end) ↔ (
        (start ≤ d)
        × (d ≤ end)
        × ((y : ℕ) × (c.year start ≤ y) × (y ≤ c.year end) × Memᴰ d (us_federal_holidays c y)))
unfolding us_federal_holidays_in_range
us_federal_holidays_in_range_iff c start end d = (
  (λ m.
      let (y, a, b, k, s, e) =
        holidays_of_years-mem c start end (c.year end + 1 - c.year start) (c.year start) d m in
      (s, e, (y, a, omega (arith, a, b), k))),
  (λ h.
      let (s, e, (y, a, b, k)) = h in
      mem-holidays_of_years c start end (c.year end + 1 - c.year start) (c.year start) d y a
        (omega (arith, a, b)) k s e),
)
