-- ===== src/Rtac/Control/Schedule.antt =====
-- The schedule provider returns an active command with the latest start.
use neems_core.Platform.Clock.{Clock, IsOrdered}
use mathlib.Core.List.{Memᴰ}
use neems_core.Rtac.Control.{get_active_command, is_active_at, ScheduledCommand, latest_start}
use neems_core.Rtac.Worker.Alarms.{after}
use neems_core.Prelude.Members.{filter-empty, filter-mem, mem-filter}
use mathlib.Core.Path.{subst}
use neems_core.Rtac.Protocol.{is_active}
use neems_core.Prelude.{
  refl, inl, inr, Bool, true, false, Option, none, some, List, [], arith, Bool-cases, Option-cases,
  filter, ◌≡◌, ◌⊎◌, ◌∷◌,
}

module _ (clock : Clock) (laws : IsOrdered clock) where
  open clock use {Time, before}

  -- A command of the list that no command of the list starts after.
  IsLatest : List (ScheduledCommand Time) → ScheduledCommand Time → Type 0
  IsLatest cs c =
      Memᴰ c cs × ((d : ScheduledCommand Time) → Memᴰ d cs → before c.starts_at d.starts_at ≡ false)

  IsLatestOf : List (ScheduledCommand Time) → Option (ScheduledCommand Time) → Type 0
  unfolding IsLatest
  IsLatestOf cs none = cs ≡ []
  IsLatestOf cs (some c) = IsLatest cs c

  latest-cons :
      (c : ScheduledCommand Time) (cs : List (ScheduledCommand Time))
      (o : Option (ScheduledCommand Time))
      → latest_start clock cs ≡ o
      → IsLatestOf cs o
      → IsLatestOf (c ∷ cs) (latest_start clock (c ∷ cs))
  unfolding latest_start IsLatestOf IsLatest
  latest-cons c cs none e h = rw e (Memᴰ.head refl, alone)
    where
      alone : (x : ScheduledCommand Time) → Memᴰ x (c ∷ cs) → before c.starts_at x.starts_at ≡ false
      alone x (Memᴰ.head same) = rw same (laws.before_irrefl c.starts_at)
      alone x (Memᴰ.tail m) = elim (subst (λ l. Memᴰ x l) h m) [ ]
  latest-cons c cs (some d) e h = elim (Bool-cases (before d.starts_at c.starts_at)) [
    | inl later ↦ rw e (rw later (Memᴰ.head refl, beaten later))
    | inr kept ↦ rw e (rw kept (Memᴰ.tail h.0, keeps kept))
  ]
    where
      beaten :
          before d.starts_at c.starts_at ≡ true
          → (x : ScheduledCommand Time) → Memᴰ x (c ∷ cs)
          → before c.starts_at x.starts_at ≡ false
      beaten later x (Memᴰ.head same) = rw same (laws.before_irrefl c.starts_at)
      beaten later x (Memᴰ.tail m) = elim (Bool-cases (before c.starts_at x.starts_at)) [
        | inl after ↦ ground (arith, h.1 x m, laws.before_trans _ _ _ later after)
        | inr fine ↦ fine
      ]

      keeps :
          before d.starts_at c.starts_at ≡ false
          → (x : ScheduledCommand Time) → Memᴰ x (c ∷ cs)
          → before d.starts_at x.starts_at ≡ false
      keeps kept x (Memᴰ.head same) = rw same kept
      keeps kept x (Memᴰ.tail m) = h.1 x m

  latest_start-IsLatestOf :
      (cs : List (ScheduledCommand Time)) → IsLatestOf cs (latest_start clock cs)
  unfolding latest_start IsLatestOf
  latest_start-IsLatestOf [] = refl
  latest_start-IsLatestOf (c ∷ cs) =
      latest-cons c cs (latest_start clock cs) refl (latest_start-IsLatestOf cs)

  -- The provider answers none exactly when no command of the list is active at that time, and
  -- otherwise a command of the list that is active, such that no active one starts later.
  pub get_active_command_lem :
      (cs : List (ScheduledCommand Time)) (at_time : Time)
      → ((get_active_command clock cs at_time ≡ none)
          × ((d : ScheduledCommand Time) → Memᴰ d cs → is_active_at clock d at_time ≡ false))
        ⊎ ((c : ScheduledCommand Time) × (get_active_command clock cs at_time ≡ some c)
            × Memᴰ c cs
            × (is_active_at clock c at_time ≡ true)
            × ((d : ScheduledCommand Time)
                → Memᴰ d cs
                → is_active_at clock d at_time ≡ true
                → before c.starts_at d.starts_at ≡ false))
  unfolding get_active_command IsLatestOf IsLatest
  get_active_command_lem cs at_time =
      let p : ScheduledCommand Time → Bool = λ c. is_active_at clock c at_time in
      let h = latest_start-IsLatestOf (filter p cs) in
      elim (Option-cases (latest_start clock (filter p cs))) [
        | inl e ↦ inl (e, λ d m. filter-empty p cs d (subst (IsLatestOf (filter p cs)) e h) m)
        | inr (c, e) ↦
            let l = subst (IsLatestOf (filter p cs)) e h in
            let (is_active, m) = mem-filter p cs c l.0 in
            inr (c, e, m, is_active, λ d n a. l.1 d (filter-mem p cs d a n))
      ]
