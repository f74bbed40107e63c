-- ===== src/Sim/Movement.antt =====
-- How a tick moves the simulated charge: towards the target or the floor, and never past it.
use neems_core.Sim.{
  SimConfig, SimState, charge_towards, discharge_towards, run_command, set_active_electrical,
  set_idle_electrical, target_soc, tick_command, tick,
}
use neems_core.Rtac.Protocol.{
  CommandType, OperatingMode, charge, charging, command_eq, discharge, discharging,
}
use neems_core.Platform.Float.{Float32, IsIeee}
use neems_core.Sim.Soc.{InRange, IsNumeric, min-is_nan}
use neems_core.Sim.Estop.{command_of}
use neems_core.Rtac.Alarm.Flags.{is_estop_active}
use neems_core.Rtac.Registers.{lit}
use mathlib.Core.Path.{subst}
use neems_core.Prelude.{inl, inr, true, false, ◌≡◌, ◌⊎◌}

module _ (fl : Float32) (laws : IsIeee fl) where
  open fl use {F, le, lt, is_nan, min, max, clamp, add, sub}

  -- What a charging tick does to a charge `soc` that is to become `next`: below the target it moves
  -- by the rate, or to the target where the rate reaches it.
  abbrev pub MovesUp : F → F → F → F → Type 0
  MovesUp target rate soc next =
      (lt soc target ≡ true
        → (le soc next ≡ true)
          × (le next target ≡ true)
          × ((next ≡ add soc rate) ⊎ ((next ≡ target) × (le target (add soc rate) ≡ true))))
      × (lt soc target ≡ false → next ≡ soc)

  abbrev pub MovesDown : F → F → F → F → Type 0
  MovesDown floor rate soc next =
      (lt floor soc ≡ true
        → (le next soc ≡ true)
          × (le floor next ≡ true)
          × ((next ≡ sub soc rate) ⊎ ((next ≡ floor) × (le (sub soc rate) floor ≡ true))))
      × (lt floor soc ≡ false → next ≡ soc)

  min-step :
      (x y : F)
      → is_nan x ≡ false
      → is_nan y ≡ false
      → (min x y ≡ x) ⊎ ((min x y ≡ y) × (le y x ≡ true))
  min-step x y m n = elim (laws.min_choice x y n) [
    | inl e ↦ inl e
    | inr e ↦ inr (e, subst (λ z. le z x ≡ true) e (laws.min_le_left x y m))
  ]

  max-step :
      (x y : F)
      → is_nan x ≡ false
      → is_nan y ≡ false
      → (max x y ≡ x) ⊎ ((max x y ≡ y) × (le x y ≡ true))
  max-step x y m n = elim (laws.max_choice x y n) [
    | inl e ↦ inl e
    | inr e ↦ inr (e, subst (λ z. le x z ≡ true) e (laws.max_ge_left x y m))
  ]

  -- The two arms, with the clamp that follows the match.
  charge_towards-MovesUp :
      (target rate power : F) (s : SimState F)
      → InRange fl laws s.soc_percent
      → is_nan target ≡ false
      → le target (lit fl 100) ≡ true
      → le (lit fl 0) rate ≡ true
      → MovesUp target rate s.soc_percent
          (clamp (charge_towards fl target rate power s).soc_percent (lit fl 0) (lit fl 100))
  unfolding charge_towards set_active_electrical set_idle_electrical
  charge_towards-MovesUp target rate power s (low, high) number top r = (
    λ below.
        let up =
          laws.min_ge (add s.soc_percent rate) target s.soc_percent
            (laws.le_add s.soc_percent rate low r) (laws.le_of_lt _ _ below) in
        let capped = laws.min_le_right (add s.soc_percent rate) target number in
        let inside =
          laws.clamp_inside (min (add s.soc_percent rate) target) _ _ (laws.le_trans _ _ _ low up)
            (laws.le_trans _ _ _ capped top) in
        let sum = laws.le_numbers _ _ (laws.le_add s.soc_percent rate low r) in
        rw below (rw inside (up, capped, min-step (add s.soc_percent rate) target sum.1 number)),
    λ reached. rw reached (laws.clamp_inside s.soc_percent _ _ low high),
  )

  discharge_towards-MovesDown :
      (floor rate power : F) (s : SimState F)
      → InRange fl laws s.soc_percent
      → is_nan floor ≡ false
      → le (lit fl 0) floor ≡ true
      → le (lit fl 0) rate ≡ true
      → MovesDown floor rate s.soc_percent
          (clamp (discharge_towards fl floor rate power s).soc_percent (lit fl 0) (lit fl 100))
  unfolding discharge_towards set_active_electrical set_idle_electrical
  discharge_towards-MovesDown floor rate power s (low, high) number bottom r = (
    λ above.
        let down =
          laws.max_le (sub s.soc_percent rate) floor s.soc_percent
            (laws.sub_le s.soc_percent rate high r) (laws.le_of_lt _ _ above) in
        let kept = laws.max_ge_right (sub s.soc_percent rate) floor number in
        let inside =
          laws.clamp_inside (max (sub s.soc_percent rate) floor) _ _
            (laws.le_trans _ _ _ bottom kept) (laws.le_trans _ _ _ down high) in
        let rest = laws.le_numbers _ _ (laws.sub_le s.soc_percent rate high r) in
        rw above (rw inside (down, kept, max-step (sub s.soc_percent rate) floor rest.0 number)),
    λ reached. rw reached (laws.clamp_inside s.soc_percent _ _ low high),
  )

  -- The bounds on a configuration that make charging and discharging move the right way.
  pub record IsSane (config : SimConfig F) : Type 0 where
    pub numeric : IsNumeric fl laws config
    pub ceiling : le config.soc_ceiling_percent (lit fl 100) ≡ true
    pub floor : le (lit fl 0) config.soc_floor_percent ≡ true
    pub charge_rate : le (lit fl 0) config.charge_rate_pct ≡ true
    pub discharge_rate : le (lit fl 0) config.discharge_rate_pct ≡ true
    pub trickle_rate : le (lit fl 0) config.trickle_rate_pct ≡ true

  pub tick-moves :
      (s : SimState F)
      → IsSane s.config
      → InRange fl laws s.soc_percent
      → is_estop_active s.alarms ≡ false
      → (command_of fl s ≡ charge
          → MovesUp
              (min (target_soc fl s) s.config.soc_ceiling_percent)
              s.config.charge_rate_pct
              s.soc_percent
              (tick fl s).soc_percent)
        × (command_of fl s ≡ CommandType.trickle_charge
            → MovesUp
                (min (target_soc fl s) s.config.soc_ceiling_percent)
                s.config.trickle_rate_pct
                s.soc_percent
                (tick fl s).soc_percent)
        × (command_of fl s ≡ discharge
            → MovesDown s.config.soc_floor_percent s.config.discharge_rate_pct s.soc_percent
                (tick fl s).soc_percent)
  unfolding tick tick_command run_command command_eq
  tick-moves s sane range off =
      let number =
        min-is_nan fl laws (target_soc fl s) s.config.soc_ceiling_percent sane.numeric.ceiling in
      let top =
        laws.le_trans _ _ _
          (laws.min_le_right (target_soc fl s) s.config.soc_ceiling_percent sane.numeric.ceiling)
          sane.ceiling in
      (
        λ e. rw e (
            rw off (
              charge_towards-MovesUp _ _ _ (record s { mode = charging }) range number top
                sane.charge_rate)),
        λ e. rw e (
            rw off (
              charge_towards-MovesUp _ _ _ (record s { mode = OperatingMode.trickle_charge }) range
                number top sane.trickle_rate)),
        λ e. rw e (
            rw off (
              discharge_towards-MovesDown _ _ _ (record s { mode = discharging }) range
                sane.numeric.floor sane.floor sane.discharge_rate)),
      )
