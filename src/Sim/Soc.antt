-- ===== src/Sim/Soc.antt =====
-- The simulated state of charge: its bounds and its movement.
use neems_core.Rtac.Protocol.{
  CommandType, OperatingMode, charging, command_eq, discharging, charge, discharge,
}
use neems_core.Platform.Float.{Float32, IsIeee}
use neems_core.Sim.{
  tick, set_alarm, new_state, reset_faults, set_command, set_soc, write_registers, SimConfig,
  SimState, charge_towards, discharge_towards, run_command, set_active_electrical,
  set_idle_electrical, tick_command,
}
use neems_core.Rtac.Alarm.Flags.{is_estop_active}
use neems_core.Rtac.Registers.{lit}
use mathlib.Core.Path.{subst}
use neems_core.Prelude.{ℕ, refl, sym, Bool, true, false, List, arith, if-keeps, ◌≡◌, ◌∙◌}

module _ (fl : Float32) (laws : IsIeee fl) where
  open fl use {F, le, is_nan}

  -- The configuration's ceiling and floor are numbers.
  pub record IsNumeric (config : SimConfig F) : Type 0 where
    pub ceiling : is_nan config.soc_ceiling_percent ≡ false
    pub floor : is_nan config.soc_floor_percent ≡ false

  abbrev pub InRange : F → Type 0
  InRange x = (le (lit fl 0) x ≡ true) × (le x (lit fl 100) ≡ true)

  clamp-InRange : (x : F) → is_nan x ≡ false → InRange (fl.clamp x (lit fl 0) (lit fl 100))
  clamp-InRange x h =
      let ordered : le (lit fl 0) (lit fl 100) ≡ true =
        laws.of_int_le 0 100 (omega arith) (omega arith) in
      (laws.clamp_ge x _ _ h ordered, laws.clamp_le x _ _ h ordered)

  pub min-is_nan : (x y : F) → is_nan y ≡ false → is_nan (fl.min x y) ≡ false
  min-is_nan x y h = (laws.le_numbers _ _ (laws.min_le_right x y h)).0

  max-is_nan : (x y : F) → is_nan y ≡ false → is_nan (fl.max x y) ≡ false
  max-is_nan x y h = (laws.le_numbers _ _ (laws.max_ge_right x y h)).1

  charge_towards-is_nan :
      (target rate power : F) (s : SimState F)
      → is_nan target ≡ false
      → is_nan s.soc_percent ≡ false
      → is_nan (charge_towards fl target rate power s).soc_percent ≡ false
  unfolding charge_towards set_idle_electrical set_active_electrical
  charge_towards-is_nan target rate power s t h =
      if-keeps (λ (u : SimState F). is_nan u.soc_percent ≡ false) (fl.lt s.soc_percent target)
        (λ _. min-is_nan (fl.add s.soc_percent rate) target t) (λ _. h)

  discharge_towards-is_nan :
      (floor rate power : F) (s : SimState F)
      → is_nan floor ≡ false
      → is_nan s.soc_percent ≡ false
      → is_nan (discharge_towards fl floor rate power s).soc_percent ≡ false
  unfolding discharge_towards set_idle_electrical set_active_electrical
  discharge_towards-is_nan floor rate power s t h =
      if-keeps (λ (u : SimState F). is_nan u.soc_percent ≡ false) (fl.lt floor s.soc_percent)
        (λ _. max-is_nan (fl.sub s.soc_percent rate) floor t) (λ _. h)

  run_command-is_nan :
      (c : CommandType) (s : SimState F)
      → IsNumeric s.config
      → is_nan s.soc_percent ≡ false
      → is_nan (run_command fl c s).soc_percent ≡ false
  unfolding run_command set_idle_electrical
  run_command-is_nan CommandType.standby s n h = h
  run_command-is_nan charge s n h =
      charge_towards-is_nan _ _ _ (record s { mode = charging }) (min-is_nan _ _ n.ceiling) h
  run_command-is_nan discharge s n h =
      discharge_towards-is_nan _ _ _ (record s { mode = discharging }) n.floor h
  run_command-is_nan CommandType.trickle_charge s n h =
      charge_towards-is_nan _ _ _ (record s { mode = OperatingMode.trickle_charge })
        (min-is_nan _ _ n.ceiling) h
  run_command-is_nan CommandType.emergency_stop s n h = h
  run_command-is_nan CommandType.clear_faults s n h = h

  tick_command-InRange :
      (c : CommandType) (s : SimState F)
      → IsNumeric s.config
      → InRange s.soc_percent
      → InRange (tick_command fl c s).soc_percent
  unfolding tick_command reset_faults set_idle_electrical
  tick_command-InRange c s n h =
      if-keeps (λ (u : SimState F). InRange u.soc_percent) (command_eq c CommandType.clear_faults)
        (λ _. h)
        (λ _.
          if-keeps (λ (u : SimState F). InRange u.soc_percent) (is_estop_active s.alarms) (λ _. h)
            (λ _. clamp-InRange _ (run_command-is_nan c s n (laws.le_numbers _ _ h.1).0)))

  -- The operations on a device: a tick, a Modbus write, and the control interface.
  pub data Step : SimState F → SimState F → Type 0 where
    ticked : (s : SimState F) → Step s (tick fl s)
    written :
        (s : SimState F) (start : ℕ) (values : List ℕ) → Step s (write_registers fl start values s)
    soc_set :
        (s : SimState F) (percent : F) → is_nan percent ≡ false → Step s (set_soc fl percent s)
    command_set : (s : SimState F) (c : CommandType) → Step s (set_command fl c s)
    alarm_set : (s : SimState F) (num : ℕ) (on : Bool) → Step s (set_alarm fl num on s)

  pub data Reachable (config : SimConfig F) : SimState F → Type 0 where
    fresh : Reachable config (new_state fl config)
    after : {s t : SimState F} → Reachable config s → Step s t → Reachable config t

  run_command-config : (c : CommandType) (s : SimState F) → (run_command fl c s).config ≡ s.config
  unfolding run_command charge_towards discharge_towards set_idle_electrical set_active_electrical
  run_command-config CommandType.standby s = refl
  run_command-config charge s = ground arith
  run_command-config discharge s = ground arith
  run_command-config CommandType.trickle_charge s = ground arith
  run_command-config CommandType.emergency_stop s = refl
  run_command-config CommandType.clear_faults s = refl

  tick_command-config : (c : CommandType) (s : SimState F) → (tick_command fl c s).config ≡ s.config
  unfolding tick_command reset_faults set_idle_electrical
  tick_command-config c s = ground (arith, run_command-config c s)

  Step-InRange :
      (s t : SimState F)
      → Step s t
      → IsNumeric s.config
      → InRange s.soc_percent
      → (t.config ≡ s.config) × InRange t.soc_percent
  unfolding tick write_registers set_soc set_command set_alarm
  Step-InRange s t (ticked _) n h = (tick_command-config _ s, tick_command-InRange _ s n h)
  Step-InRange s t (written _ start values) n h = (refl, h)
  Step-InRange s t (soc_set _ percent number) n h = (refl, clamp-InRange percent number)
  Step-InRange s t (command_set _ c) n h = (refl, h)
  Step-InRange s t (alarm_set _ num on) n h = (refl, h)

  reachable-config :
      (config : SimConfig F) (s : SimState F)
      → IsNumeric config
      → is_nan config.initial_soc_percent ≡ false
      → Reachable config s
      → (s.config ≡ config) × InRange s.soc_percent
  unfolding new_state set_idle_electrical
  reachable-config config s n i fresh = (refl, clamp-InRange config.initial_soc_percent i)
  reachable-config config t n i (after {s} r step) =
      let (same, h) = reachable-config config s n i r in
      let (kept, g) = Step-InRange s t step (subst IsNumeric (sym same) n) h in (kept ∙ same, g)

  -- A device whose initial charge, ceiling and floor are numbers always reports a state of charge
  -- between 0 and 100, whatever is written over Modbus, injected or ticked, and whatever the rates
  -- are (as long as `set_soc` is given a number).
  pub reachable-InRange :
      (config : SimConfig F) (s : SimState F)
      → IsNumeric config
      → is_nan config.initial_soc_percent ≡ false
      → Reachable config s
      → (le (lit fl 0) s.soc_percent ≡ true) × (le s.soc_percent (lit fl 100) ≡ true)
  reachable-InRange config s n i r = (reachable-config config s n i r).1
