-- ===== src/Sim/Wire.antt =====
-- neems-data/src/rtac/modbus_client.rs against neems-rtac-sim/src/state.rs: a command frame that the
-- client writes, as the simulator runs it.
use neems_core.Rtac.Protocol.{CommandType, command_from_register, command_to_register}
use neems_core.Platform.Float.{Float32}
use neems_core.Rtac.State.{PendingCommand}
use neems_core.Sim.{tick, SimState, tick_command, write_from, write_one, write_registers}
use neems_core.Rtac.Registers.{ramp_register, target_register, build_command_registers}
use neems_core.Rtac.RegisterMap.{cmd_start_address, cmd_write_count}
use neems_core.Rtac.Client.{command_frame}
use neems_core.Prelude.{
  ℕ, refl, ap, some, List, [], arith, unwrap_or, length, get_or, set, ◌≡◌, ◌∙◌, ◌∷◌,
}

-- Writing five registers over five.
overwritten :
    (xs : List ℕ) (v w x y z : ℕ)
    → length xs ≡ 5
    → set (set (set (set (set xs 0 v) 1 w) 2 x) 3 y) 4 z ≡ v ∷ w ∷ x ∷ y ∷ z ∷ []
overwritten (a ∷ b ∷ c ∷ d ∷ e ∷ []) v w x y z h = refl
overwritten [] v w x y z h = absurd (omega (arith, h))
overwritten (a ∷ []) v w x y z h = absurd (omega (arith, h))
overwritten (a ∷ b ∷ []) v w x y z h = absurd (omega (arith, h))
overwritten (a ∷ b ∷ c ∷ []) v w x y z h = absurd (omega (arith, h))
overwritten (a ∷ b ∷ c ∷ d ∷ []) v w x y z h = absurd (omega (arith, h))
overwritten (a ∷ b ∷ c ∷ d ∷ e ∷ f ∷ xs) v w x y z h = absurd (omega (arith, h))

command_of-register : (c : CommandType) → command_from_register (command_to_register c) ≡ some c
unfolding command_from_register command_to_register
command_of-register CommandType.standby = refl
command_of-register CommandType.charge = refl
command_of-register CommandType.discharge = refl
command_of-register CommandType.trickle_charge = refl
command_of-register CommandType.emergency_stop = refl
command_of-register CommandType.clear_faults = refl

module _ (fl : Float32) {T : Type 0} where
  write_frame :
      (cmd : PendingCommand T) (s : SimState fl.F)
      → length s.cmd_regs ≡ cmd_write_count
      → (write_registers fl cmd_start_address (command_frame cmd) s).cmd_regs ≡ command_frame cmd
  unfolding write_registers write_from write_one command_frame build_command_registers
  write_frame cmd s h =
      overwritten s.cmd_regs (command_to_register cmd.command_type)
        (target_register cmd.target_soc_percent) _ _ (ramp_register cmd.ramp_duration_seconds) h

  first_of_frame :
      (cmd : PendingCommand T)
      → command_from_register (get_or (command_frame cmd) 0 0) ≡ some cmd.command_type
  unfolding command_frame build_command_registers
  first_of_frame cmd = command_of-register cmd.command_type

  -- The simulator's next tick after the client's write of a command runs that command, with the
  -- five command registers as the client built them.
  pub write_registers-command_frame :
      (cmd : PendingCommand T) (s : SimState fl.F)
      → length s.cmd_regs ≡ cmd_write_count
      → ((write_registers fl cmd_start_address (command_frame cmd) s).cmd_regs ≡ command_frame cmd)
        × (tick fl (write_registers fl cmd_start_address (command_frame cmd) s)
            ≡ tick_command fl cmd.command_type
                (write_registers fl cmd_start_address (command_frame cmd) s))
  unfolding tick
  write_registers-command_frame cmd s h = (
    write_frame cmd s h,
    ap
        (λ o.
          tick_command fl (unwrap_or o CommandType.standby)
            (write_registers fl cmd_start_address (command_frame cmd) s))
        (ap (λ l. command_from_register (get_or l 0 0)) (write_frame cmd s h) ∙ first_of_frame cmd),
  )
