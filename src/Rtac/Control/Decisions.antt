-- ===== src/Rtac/Control/Decisions.antt =====
-- What `evaluate` leaves in the command channel, after any earlier evaluations.
use neems_core.Rtac.Control.{
  clear_commands, trigger_manual_command, Outcome, ControlTask, ScheduledCommand, command_available,
  evaluate, evaluate_all, reactive_command,
}
use neems_core.Platform.Float.{Float32}
use neems_core.Rtac.Control.Safety.{
  IsTracked, available-LeavesTracked, follow-LeavesIdle, follow-holds, reactive-standby,
  without_reactive, IsIdle, Reached, clear-LeavesIdle, Reached-IsTracked,
}
use neems_core.Rtac.State.{PendingCommand, RtacState, is_available_for_commands}
use neems_core.Rtac.Protocol.{CommandType}
use mathlib.Core.List.{Memᴰ}
use mathlib.Core.Path.{subst}
use neems_core.Prelude.{
  List, [], ◌∷◌, sym, refl, inl, inr, true, false, Option, none, some, arith, is_some, if-keeps,
  ◌≡◌, ◌⊎◌,
}

module _ (fl : Float32) {T : Type 0} where
  available-IsIdle :
      (t : ControlTask fl.F T) (now : T) (o : Option CommandType) (a : Option (ScheduledCommand T))
      → ((c : CommandType) → o ≡ some c → c ≡ CommandType.standby)
      → IsTracked t
      → (is_some o ≡ true) ⊎ (a ≡ none)
      → IsIdle (command_available fl o now a t).0.channel
  unfolding command_available
  available-IsIdle t now (some c) a only h reason =
      ((available-LeavesTracked fl now (some c) a t only h).1 refl).1
  available-IsIdle t now none a only h (inl e) = ground arith
  available-IsIdle t now none a only h (inr e) = rw e (
      follow-LeavesIdle fl now (record t { last_reactive_command = none })
        (without_reactive fl t h))

  -- After any evaluations with the worker listening: when the system takes no commands, or reactive
  -- control stops it, or no scheduled command is active, the channel then holds no charge or
  -- discharge command, from that evaluation or from an earlier one.
  pub evaluate-IsIdle :
      (t : ControlTask fl.F T) (now : T) (s : RtacState fl.F T) (a : Option (ScheduledCommand T))
      → Reached fl t
      → (is_available_for_commands s ≡ false)
        ⊎ ((is_some (reactive_command fl t.config s) ≡ true) ⊎ (a ≡ none))
      → IsIdle (evaluate fl now s a t).0.channel
  unfolding evaluate
  evaluate-IsIdle t now s a r reason =
      let h = Reached-IsTracked fl r in
      if-keeps {A = ControlTask fl.F T × Outcome} (λ r. IsIdle r.0.channel)
        (is_available_for_commands s)
        (λ yes.
          available-IsIdle t now (reactive_command fl t.config s) a (reactive-standby fl t.config s)
            h (elim reason [ inl off ↦ ground arith | inr left ↦ left ]))
        (λ _. (clear-LeavesIdle fl t h).1)

  -- After any evaluations with the worker listening: when the system takes commands, reactive
  -- control does not interfere and a scheduled command is active, the channel holds the command
  -- with that schedule id, sent now or earlier.
  pub evaluate-scheduled :
      (t : ControlTask fl.F T) (now : T) (s : RtacState fl.F T) (a : ScheduledCommand T)
      → Reached fl t
      → is_available_for_commands s ≡ true
      → reactive_command fl t.config s ≡ none
      → (c : PendingCommand T) × ((evaluate fl now s (some a) t).0.channel ≡ some c)
        × (c.source_id ≡ some a.id)
  unfolding evaluate command_available
  evaluate-scheduled t now s a r available quiet = rw available (
      rw quiet (
        follow-holds fl now a (record t { last_reactive_command = none })
          (without_reactive fl t (Reached-IsTracked fl r))))

  -- The task remembers no command, the worker listens, and the channel holds a command.
  abbrev HoldsManual : PendingCommand T → ControlTask fl.F T → Type 0
  HoldsManual cmd t =
      (t.receivers ≡ true)
      × (t.last_command_id ≡ none)
      × (t.last_reactive_command ≡ none)
      × (t.channel ≡ some cmd)

  -- An evaluation for a system that takes no commands remembers none.
  clear-forgets :
      (t : ControlTask fl.F T)
      → t.receivers ≡ true
      → ((clear_commands t).0.receivers ≡ true)
        × ((clear_commands t).0.last_command_id ≡ none)
        × ((clear_commands t).0.last_reactive_command ≡ none)
  unfolding clear_commands
  clear-forgets t ready = ground arith

  trigger-HoldsManual :
      (cmd : PendingCommand T) (t : ControlTask fl.F T)
      → t.receivers ≡ true
      → t.last_command_id ≡ none
      → t.last_reactive_command ≡ none
      → HoldsManual cmd (trigger_manual_command cmd t).0
  unfolding trigger_manual_command
  trigger-HoldsManual cmd t ready no_id no_reaction = ground (arith, ready, no_id, no_reaction)

  clear-HoldsManual :
      (cmd : PendingCommand T) (t : ControlTask fl.F T)
      → HoldsManual cmd t
      → HoldsManual cmd (clear_commands t).0
  unfolding clear_commands
  clear-HoldsManual cmd t (ready, no_id, no_reaction, kept) =
      ground (arith, ready, no_id, no_reaction, kept)

  evaluate-off :
      (t : ControlTask fl.F T) (now : T) (s : RtacState fl.F T) (a : Option (ScheduledCommand T))
      → is_available_for_commands s ≡ false
      → (evaluate fl now s a t).0 ≡ (clear_commands t).0
  unfolding evaluate
  evaluate-off t now s a off = rw off refl

  rounds-HoldsManual :
      (cmd : PendingCommand T) (t : ControlTask fl.F T)
      (rounds : List (T × RtacState fl.F T × Option (ScheduledCommand T)))
      → ((r : T × RtacState fl.F T × Option (ScheduledCommand T))
          → Memᴰ r rounds
          → is_available_for_commands r.1 ≡ false)
      → HoldsManual cmd t
      → HoldsManual cmd (evaluate_all fl rounds t)
  unfolding evaluate_all
  rounds-HoldsManual cmd t [] off h = h
  rounds-HoldsManual cmd t ((now, s, a) ∷ rounds) off h =
      rounds-HoldsManual cmd (evaluate fl now s a t).0 rounds (λ r m. off r (Memᴰ.tail m))
        (subst (HoldsManual cmd) (sym (evaluate-off t now s a (off (now, s, a) (Memᴰ.head refl))))
          (clear-HoldsManual cmd t h))

  -- With the worker listening, a manual command given after an evaluation for a system that takes
  -- no commands stays in the channel, whatever command it is, through any number of further
  -- evaluations for such a system.
  pub evaluate_all-trigger_manual_command :
      (t : ControlTask fl.F T) (cmd : PendingCommand T) (now : T) (s : RtacState fl.F T)
      (a : Option (ScheduledCommand T))
      (rounds : List (T × RtacState fl.F T × Option (ScheduledCommand T)))
      → t.receivers ≡ true
      → is_available_for_commands s ≡ false
      → ((r : T × RtacState fl.F T × Option (ScheduledCommand T))
          → Memᴰ r rounds
          → is_available_for_commands r.1 ≡ false)
      → (evaluate_all fl rounds (trigger_manual_command cmd (evaluate fl now s a t).0).0).channel
        ≡ some cmd
  unfolding evaluate
  evaluate_all-trigger_manual_command t cmd now s a rounds ready off all_off =
      let (listens, no_id, no_reaction) = clear-forgets t ready in
      let manual = trigger-HoldsManual cmd (clear_commands t).0 listens no_id no_reaction in
      rw off (rounds-HoldsManual cmd _ rounds all_off manual).3
