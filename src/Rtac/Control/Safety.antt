-- ===== src/Rtac/Control/Safety.antt =====
-- While the system takes no commands, the worker is never told to charge or discharge.
use neems_core.Rtac.Protocol.{CommandType}
use neems_core.Rtac.Control.{
  command_available, evaluate, Outcome, done, to_pending_command, ControlConfig, ControlTask,
  ScheduledCommand, clear_commands, follow_schedule, is_command, is_id, reactive_command,
  send_reactive_command,
}
use neems_core.Platform.Float.{Float32}
use neems_core.Rtac.State.{is_available_for_commands, standby_command, PendingCommand, RtacState}
use neems_core.Prelude.{
  refl, ap, inl, inr, true, false, Option, none, some, arith, Bool-cases, Option-cases, is_some,
  if-keeps, ◌≡◌, ◌∙◌, ◌||◌,
}
use neems_core.Prelude.Int.{ℤ, eqb_ℤ→≡}

abbrev pub IsIdle : {T : Type 0} → Option (PendingCommand T) → Type 0
IsIdle none = Unit {0}
IsIdle (some c) = c.command_type ≡ CommandType.standby

-- The command with this schedule id is the one in the channel.
abbrev pub Holds : {T : Type 0} → Option (PendingCommand T) → Option ℤ → Type 0
Holds channel none = IsIdle channel
Holds none (some i) = ⊥
Holds (some c) (some i) = c.source_id ≡ some i

-- What the task remembers agrees with the channel: a remembered id is that of the command in the
-- channel, with none remembered the channel is empty or holds a standby, and a remembered reactive
-- command comes with no remembered id.
pub record IsTracked {F T : Type 0} (t : ControlTask F T) : Type 0 where
  pub receiver : t.receivers ≡ true
  pub holds : Holds t.channel t.last_command_id
  pub reactive : is_some t.last_reactive_command ≡ true → t.last_command_id ≡ none

is_command-some :
    (c : CommandType) (o : Option CommandType) → is_command c o ≡ true → is_some o ≡ true
is_command-some c none e = ground arith
is_command-some c (some d) e = refl

is_some-none : (o : Option ℤ) → is_some o ≡ false → o ≡ none
is_some-none none e = refl
is_some-none (some i) e = ground arith

module _ (fl : Float32) {T : Type 0} where
  pub reactive-standby :
      (config : ControlConfig fl.F) (s : RtacState fl.F T) (c : CommandType)
      → reactive_command fl config s ≡ some c
      → c ≡ CommandType.standby
  unfolding reactive_command
  reactive-standby config s c h = ground arith

  -- What one call is to leave behind.
  abbrev pub LeavesTracked : ControlTask fl.F T × Outcome → Type 0
  LeavesTracked r = IsTracked r.0

  abbrev pub LeavesIdle : ControlTask fl.F T × Outcome → Type 0
  LeavesIdle r = IsTracked r.0 × IsIdle r.0.channel

  Holds-none :
      (channel : Option (PendingCommand T)) (i : Option ℤ)
      → Holds channel i
      → i ≡ none
      → IsIdle channel
  Holds-none none none h e = h
  Holds-none (some c) none h e = h
  Holds-none none (some i) h e = elim h [ ]
  Holds-none (some c) (some i) h e = ground arith

  send_reactive-LeavesIdle :
      (now : T) (t : ControlTask fl.F T)
      → IsTracked t
      → LeavesIdle (send_reactive_command CommandType.standby now t, done)
  unfolding send_reactive_command
  send_reactive-LeavesIdle now t h =
      if-keeps {A = ControlTask fl.F T} (λ r. IsTracked r × IsIdle r.channel)
        (is_command CommandType.standby t.last_reactive_command)
        (λ e. (
          h,
          Holds-none t.channel t.last_command_id h.holds
              (h.reactive (is_command-some _ t.last_reactive_command e)),
        ))
        (λ _.
          let idle = if-keeps (IsIdle {T = T}) t.receivers (λ _. refl) (λ e. ground arith) in
          (record { receiver = h.receiver; holds = idle; reactive = λ _. refl }, idle))

  follow-LeavesTracked :
      (now : T) (a : Option (ScheduledCommand T)) (t : ControlTask fl.F T)
      → IsTracked t
      → t.last_reactive_command ≡ none
      → LeavesTracked (follow_schedule now a t)
  unfolding follow_schedule to_pending_command standby_command
  follow-LeavesTracked now (some s) t h r =
      if-keeps LeavesTracked (is_id s.id t.last_command_id) (λ _. h)
        (λ _.
          if-keeps LeavesTracked t.receivers
            (λ _. record { receiver = h.receiver; holds = refl; reactive = λ e. ground (arith, r) })
            (λ _. h))
  follow-LeavesTracked now none t h r =
      if-keeps LeavesTracked (is_some t.last_command_id)
        (λ _.
          if-keeps LeavesTracked t.receivers
            (λ _. record { receiver = h.receiver; holds = refl; reactive = λ _. refl }) (λ _. h))
        (λ _. h)

  pub follow-LeavesIdle :
      (now : T) (t : ControlTask fl.F T)
      → IsTracked t
      → IsIdle (follow_schedule now none t).0.channel
  unfolding follow_schedule standby_command
  follow-LeavesIdle now t h = elim (Option-cases t.last_command_id) [
    | inl e ↦ rw e (Holds-none t.channel t.last_command_id h.holds e)
    | inr (i, e) ↦ rw e (rw h.receiver refl)
  ]

  Holds-some :
      (channel : Option (PendingCommand T)) (i : Option ℤ) (x : ℤ)
      → Holds channel i
      → is_id x i ≡ true
      → (c : PendingCommand T) × (channel ≡ some c) × (c.source_id ≡ some x)
  Holds-some channel none x h e = ground arith
  Holds-some none (some i) x h e = elim h [ ]
  Holds-some (some c) (some i) x h e = (c, refl, h ∙ ap some (eqb_ℤ→≡ i x e))

  pub follow-holds :
      (now : T) (s : ScheduledCommand T) (t : ControlTask fl.F T)
      → IsTracked t
      → (c : PendingCommand T) × ((follow_schedule now (some s) t).0.channel ≡ some c)
        × (c.source_id ≡ some s.id)
  unfolding follow_schedule to_pending_command
  follow-holds now s t h = elim (Bool-cases (is_id s.id t.last_command_id)) [
    | inl same ↦ rw same (Holds-some t.channel t.last_command_id s.id h.holds same)
    | inr new ↦ rw new (rw h.receiver (_, refl, refl))
  ]

  pub clear-LeavesIdle : (t : ControlTask fl.F T) → IsTracked t → LeavesIdle (clear_commands t)
  unfolding clear_commands
  clear-LeavesIdle t h =
      if-keeps LeavesIdle (is_some t.last_command_id || is_some t.last_reactive_command)
        (λ _.
          if-keeps LeavesIdle t.receivers
            (λ _. (record { receiver = h.receiver; holds = tt; reactive = λ _. refl }, tt))
            (λ e. ground arith))
        (λ e. (
          h,
          Holds-none t.channel t.last_command_id h.holds
              (is_some-none t.last_command_id (ground arith)),
        ))

  pub without_reactive :
      (t : ControlTask fl.F T) → IsTracked t → IsTracked (record t { last_reactive_command = none })
  without_reactive t h = record {
    receiver = h.receiver;
    holds = h.holds;
    reactive = λ e. ground arith;
  }

  pub available-LeavesTracked :
      (now : T) (o : Option CommandType) (a : Option (ScheduledCommand T)) (t : ControlTask fl.F T)
      → ((c : CommandType) → o ≡ some c → c ≡ CommandType.standby)
      → IsTracked t
      → LeavesTracked (command_available fl o now a t)
        × (is_some o ≡ true → LeavesIdle (command_available fl o now a t))
  unfolding command_available
  available-LeavesTracked now (some c) a t standby_only h =
      rw (standby_only c refl) (let idle = send_reactive-LeavesIdle now t h in (idle.0, λ _. idle))
  available-LeavesTracked now none a t standby_only h = (
    follow-LeavesTracked now a (record t { last_reactive_command = none }) (without_reactive t h)
        refl,
    λ e. ground arith,
  )

  evaluate-LeavesTracked :
      (now : T) (s : RtacState fl.F T) (a : Option (ScheduledCommand T)) (t : ControlTask fl.F T)
      → IsTracked t
      → LeavesTracked (evaluate fl now s a t)
  unfolding evaluate
  evaluate-LeavesTracked now s a t h =
      if-keeps LeavesTracked (is_available_for_commands s)
        (λ _.
          (available-LeavesTracked now (reactive_command fl t.config s) a t
            (reactive-standby t.config s) h).0)
        (λ _. (clear-LeavesIdle t h).0)

-- The states of a control task that starts with nothing sent, while the worker is there to receive.
pub data Reached (fl : Float32) {T : Type 0} : ControlTask fl.F T → Type 0 where
  started :
      (config : ControlConfig fl.F)
      → Reached fl (record {
        config = config;
        receivers = true;
        channel = none;
        last_command_id = none;
        last_reactive_command = none;
      })
  evaluated :
      {t : ControlTask fl.F T} (now : T) (s : RtacState fl.F T) (a : Option (ScheduledCommand T))
      → Reached fl t
      → Reached fl (evaluate fl now s a t).0

pub Reached-IsTracked :
    (fl : Float32) {T : Type 0} {t : ControlTask fl.F T} → Reached fl t → IsTracked t
Reached-IsTracked fl (started config) = record { receiver = refl; holds = tt; reactive = λ _. refl }
Reached-IsTracked fl (evaluated now s a r) =
    evaluate-LeavesTracked fl now s a _ (Reached-IsTracked fl r)
