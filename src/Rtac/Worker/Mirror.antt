-- ===== src/Rtac/Worker/Mirror.antt =====
-- The alarm task's view follows the RTAC: the history built from all the alarms that the worker
-- has sent names the same active alarms as the last flags read.
use neems_core.Rtac.History.{Alarm, AlarmHistory, new_history, record_alarm, record_all}
use neems_core.Platform.Float.{Float32}
use neems_core.Rtac.Worker.Alarms.{changes-Mirrors, Mirrors}
use neems_core.Rtac.Registers.{ParsedStatus}
use neems_core.Rtac.Worker.{
  check_alarms, finish_read, handle_reconnection, new_worker, perform_read, perform_write, run,
  run_loop, send_to_storage, tick, update_connection_status, update_state, write_pending,
  accept_status,
}
use neems_core.Rtac.WorkerState.{
  RtacConfig, TickInput, WorkerEvent, alarm_changes, command_sent, interval_tick, shutdown_changed,
  shutdown_closed, Worker,
}
use neems_core.Rtac.State.{PendingCommand}
use neems_core.Rtac.Client.{ConnectOutcome, ReadResult, parsed, read_error, read_status}
use neems_core.Rtac.Alarm.Table.{alarm_definitions}
use neems_core.Prelude.Members.{all-mem}
use neems_core.Rtac.Alarm.Flags.{from_registers, is_alarm_active, no_flags}
use neems_core.Rtac.History.Latest.{record_all-new_history}
use neems_core.Prelude.{
  ℕ, refl, sym, ap, inl, inr, true, false, not, Option, none, some, List, [], arith, Option-cases,
  all, ◌+◌, ◌<◌, ◌≡◌, ◌∙◌, ◌∷◌, ◌++◌,
}

module _ {T : Type 0} where
  record_all-append :
      (h h' : AlarmHistory T) (xs ys : List (Alarm T))
      → record_all h xs ≡ some h'
      → record_all h (xs ++ ys) ≡ record_all h' ys
  unfolding record_all
  record_all-append h h' [] ys e = ap (λ (o : AlarmHistory T). record_all o ys) same
    where
      same : h ≡ h'
      same = ground arith
  record_all-append h h' (x ∷ xs) ys e = elim (Option-cases (record_alarm h x)) [
    | inl panics ↦ let bad : none ≡ some h' = rw (panics, record_all) at e in cc
    | inr (h1, fine) ↦
        let later : record_all h1 xs ≡ some h' = rw (fine, record_all) at e in
        rw (fine, record_all) (record_all-append h1 h' xs ys later)
  ]

no_flags_inactive : all (λ d. not (is_alarm_active no_flags d)) alarm_definitions ≡ true
unfolding is_alarm_active alarm_definitions
no_flags_inactive = refl

-- The alarm channel is open, and the history of what was sent mirrors the last flags.
pub record IsMirrored {F T : Type 0} (m : ℕ) (w : Worker F T) : Type 0 where
  pub open_channel : w.alarm_open ≡ true
  pub seen : AlarmHistory T
  pub recorded : record_all (new_history m) w.alarms_sent ≡ some seen
  pub mirror : Mirrors seen w.last_alarm_flags

module _ (fl : Float32) {T : Type 0} (m : ℕ) (room : 0 < m) where
  -- The parts of a worker that the claim is about.
  abbrev SameAlarms : Worker fl.F T → Worker fl.F T → Type 0
  SameAlarms v w =
      (w.alarm_open ≡ v.alarm_open)
      × (w.alarms_sent ≡ v.alarms_sent)
      × (w.last_alarm_flags ≡ v.last_alarm_flags)

  carry : (v w : Worker fl.F T) → SameAlarms v w → IsMirrored m v → IsMirrored m w
  carry v w s h = record {
    open_channel = s.0 ∙ h.open_channel;
    seen = h.seen;
    recorded = rw s.1 h.recorded;
    mirror = rw s.2 h.mirror;
  }

  check_alarms-IsMirrored :
      (now : T) (s : ParsedStatus fl.F) (w : Worker fl.F T)
      → IsMirrored m w
      → IsMirrored m (check_alarms fl now s w)
  unfolding check_alarms
  check_alarms-IsMirrored now s w h =
      let new = from_registers s.alarm_registers in
      let sent = alarm_changes w.last_alarm_flags new now alarm_definitions in
      let (h', e, _, _) = record_all-new_history m (w.alarms_sent ++ sent) room in
      record {
        open_channel = h.open_channel;
        seen = h';
        recorded = rw h.open_channel e;
        mirror =
            changes-Mirrors w.last_alarm_flags new now h.seen h' h.mirror
              (sym (record_all-append (new_history m) h.seen w.alarms_sent sent h.recorded) ∙ e);
      }

  accept_status-IsMirrored :
      (now : T) (s : ParsedStatus fl.F) (w : Worker fl.F T)
      → IsMirrored m w
      → IsMirrored m (accept_status fl now s w)
  accept_status-IsMirrored now s w h =
      carry (check_alarms fl now s (update_state fl now s w)) (accept_status fl now s w) same (
        check_alarms-IsMirrored now s (update_state fl now s w)
          (carry w (update_state fl now s w) (unfold update_state in (refl, refl, refl)) h))
    where
      same : SameAlarms (check_alarms fl now s (update_state fl now s w)) (accept_status fl now s w)
      same = unfold accept_status send_to_storage in ground arith

  finish_read-IsMirrored :
      (now : T) (w : Worker fl.F T) (r : ReadResult fl.F)
      → IsMirrored m w
      → IsMirrored m (finish_read fl now w r).0
  unfolding finish_read update_connection_status
  finish_read-IsMirrored now w (parsed s) h =
      accept_status-IsMirrored now s _ (carry w _ (refl, refl, refl) h)
  finish_read-IsMirrored now w (read_error x) h = carry w _ (refl, refl, refl) h

  write-same :
      (i : TickInput T) (w : Worker fl.F T) (cmd : Option (PendingCommand T))
      → SameAlarms w (write_pending fl i w cmd)
  unfolding write_pending
  write-same i w none = (refl, refl, refl)
  write-same i w (some cmd) = ground arith

  reconnection-same :
      (i : TickInput T) (w : Worker fl.F T) → SameAlarms w (handle_reconnection fl i w)
  unfolding handle_reconnection update_connection_status
  reconnection-same i w = ground arith

  tick-same :
      (i : TickInput T) (w : Worker fl.F T)
      → SameAlarms (perform_read fl i (record w { tick_count = w.tick_count + 1 })).0 (tick fl i w)
  unfolding tick perform_write
  tick-same i w =
      let r = (perform_read fl i (record w { tick_count = w.tick_count + 1 })).0 in
      ground (
        arith,
        write-same i r r.command,
        reconnection-same i r,
        reconnection-same i (write_pending fl i r r.command),
      )

  tick-IsMirrored :
      (i : TickInput T) (w : Worker fl.F T) → IsMirrored m w → IsMirrored m (tick fl i w)
  unfolding perform_read
  tick-IsMirrored i w h = carry _ (tick fl i w) (tick-same i w) (
      finish_read-IsMirrored i.now _ (read_status fl i.read w.client).1
        (carry w _ (refl, refl, refl) h))

  run_loop-IsMirrored :
      (w : Worker fl.F T) (es : List (WorkerEvent T))
      → IsMirrored m w
      → IsMirrored m (run_loop fl w es).0
  unfolding run_loop
  run_loop-IsMirrored w [] h = h
  run_loop-IsMirrored w (shutdown_changed true ∷ es) h = h
  run_loop-IsMirrored w (shutdown_changed false ∷ es) h = run_loop-IsMirrored w es h
  run_loop-IsMirrored w (shutdown_closed ∷ es) h = h
  run_loop-IsMirrored w (interval_tick i ∷ es) h =
      run_loop-IsMirrored (tick fl i w) es (tick-IsMirrored i w h)
  run_loop-IsMirrored w (command_sent c ∷ es) h =
      run_loop-IsMirrored (record w { command = c }) es (carry w _ (refl, refl, refl) h)

  new_worker-IsMirrored :
      (config : RtacConfig) (max_attempts : ℕ) (now : T)
      → IsMirrored m (new_worker fl config max_attempts now)
  unfolding new_worker record_all new_history
  new_worker-IsMirrored config max_attempts now = record {
    open_channel = refl;
    seen = new_history m;
    recorded = refl;
    mirror = λ d mem. ground (
      arith,
      all-mem (λ d. not (is_alarm_active no_flags d)) alarm_definitions d no_flags_inactive mem,
    );
  }

  -- From a new worker, whatever the initial connection does, after any events: a history with room for an event that records all alarms
  -- sent does not panic, and its active map has an entry for an alarm of the table exactly when
  -- that alarm is active in the flags read last.
  pub run-new_worker-IsMirrored :
      (config : RtacConfig) (max_attempts : ℕ) (now : T) (outcome : ConnectOutcome)
      (es : List (WorkerEvent T))
      → IsMirrored m (run fl outcome (new_worker fl config max_attempts now) es).0
  unfolding run
  run-new_worker-IsMirrored config max_attempts now outcome es = run_loop-IsMirrored _ es (
      carry (new_worker fl config max_attempts now) _ (refl, refl, refl)
        (new_worker-IsMirrored config max_attempts now))
