-- ===== src/Rtac/Worker/Ticks.antt =====
-- What a tick does when the RTAC cannot be read.
use neems_core.Platform.Float.{Float32}
use neems_core.Rtac.Client.Reconnect.{IsSpent, reconnect-IsSpent}
use neems_core.Rtac.State.{PendingCommand}
use neems_core.Rtac.Client.{ReadResult, parsed, read_error, read_status, write_command}
use neems_core.Rtac.Worker.{
  run_loop, finish_read, handle_reconnection, perform_read, perform_write, tick,
  update_connection_status, write_pending,
}
use neems_core.Rtac.WorkerState.{
  WorkerEvent, command_sent, interval_tick, shutdown_changed, shutdown_closed, TickInput, Worker,
}
use neems_core.Prelude.{refl, true, false, Option, none, some, List, [], arith, ◌+◌, ◌≡◌, ◌∷◌}

module _ (fl : Float32) {T : Type 0} where
  -- A failed read leaves every measurement, the alarm flags, the sequence number and all that was
  -- sent as they were; only the connection status, the time stamp and the failure count move.
  pub perform_read_failed :
      (i : TickInput T) (w : Worker fl.F T)
      → (perform_read fl i w).1 ≡ false
      → let w' = (perform_read fl i w).0 in
        (w'.state
          ≡ record (w.state) { connection_status = w'.client.connection_status; timestamp = i.now })
        × (w'.alarms_sent ≡ w.alarms_sent)
        × (w'.storage_sent ≡ w.storage_sent)
        × (w'.last_alarm_flags ≡ w.last_alarm_flags)
        × (w'.sequence ≡ w.sequence)
        × (w'.stats.failed_reads ≡ w.stats.failed_reads + 1)
  unfolding perform_read update_connection_status
  perform_read_failed i w h =
      finish_failed i.now
        (record w {
          client = (read_status fl i.read w.client).0;
          stats = record (w.stats) { total_reads = w.stats.total_reads + 1 };
        })
        (read_status fl i.read w.client).1 h
    where
      finish_failed :
          (now : T) (v : Worker fl.F T) (r : ReadResult fl.F)
          → (finish_read fl now v r).1 ≡ false
          → let v' = (finish_read fl now v r).0 in
            (v'.state ≡ record (v.state) {
              connection_status = v'.client.connection_status;
              timestamp = now;
            })
            × (v'.alarms_sent ≡ v.alarms_sent)
            × (v'.storage_sent ≡ v.storage_sent)
            × (v'.last_alarm_flags ≡ v.last_alarm_flags)
            × (v'.sequence ≡ v.sequence)
            × (v'.stats.failed_reads ≡ v.stats.failed_reads + 1)
      finish_failed now v (parsed s) h = cc
      finish_failed now v (read_error x) h = (refl, refl, refl, refl, refl, refl)

  -- The client is spent, and what was read, stored and written is what it was in `w`.
  pub record IsStuck (w w' : Worker fl.F T) : Type 0 where
    pub spent : IsSpent w'.client
    pub reads_stop : w'.stats.successful_reads ≡ w.stats.successful_reads
    pub storage_stops : w'.storage_sent ≡ w.storage_sent
    pub writes_stop : w'.frames_written ≡ w.frames_written
    pub state_stops : w'.state.soc_percent ≡ w.state.soc_percent

  IsStuck-read :
      (i : TickInput T) (w v : Worker fl.F T)
      → IsStuck w v
      → IsStuck w (perform_read fl i v).0 × ((perform_read fl i v).1 ≡ false)
  unfolding perform_read read_status finish_read update_connection_status
  IsStuck-read i w v h =
      let closed : v.client.context ≡ false = h.spent.no_context in rw closed (ground arith, refl)

  IsStuck-write :
      (i : TickInput T) (w v : Worker fl.F T) (cmd : Option (PendingCommand T))
      → IsStuck w v
      → IsStuck w (write_pending fl i v cmd)
  unfolding write_pending write_command
  IsStuck-write i w v none h = h
  IsStuck-write i w v (some cmd) h = ground (arith, h.spent.no_context)

  IsStuck-reconnection :
      (i : TickInput T) (w v : Worker fl.F T) → IsStuck w v → IsStuck w (handle_reconnection fl i v)
  unfolding handle_reconnection update_connection_status
  IsStuck-reconnection i w v h = ground (arith, reconnect-IsSpent i.net v.client h.spent)

  IsStuck-tick : (i : TickInput T) (w v : Worker fl.F T) → IsStuck w v → IsStuck w (tick fl i v)
  unfolding tick perform_write
  IsStuck-tick i w v h =
      let (read, fails) =
        IsStuck-read i w (record v { tick_count = v.tick_count + 1 }) (ground arith) in
      let r = (perform_read fl i (record v { tick_count = v.tick_count + 1 })).0 in
      let after_write = IsStuck-write i w r r.command read in
      ground (
        arith,
        IsStuck-reconnection i w r read,
        IsStuck-reconnection i w (write_pending fl i r r.command) after_write,
      )

  IsStuck-run_loop :
      (w v : Worker fl.F T) (es : List (WorkerEvent T))
      → IsStuck w v
      → IsStuck w (run_loop fl v es).0
  unfolding run_loop
  IsStuck-run_loop w v [] h = h
  IsStuck-run_loop w v (shutdown_changed true ∷ es) h = h
  IsStuck-run_loop w v (shutdown_changed false ∷ es) h = IsStuck-run_loop w v es h
  IsStuck-run_loop w v (shutdown_closed ∷ es) h = h
  IsStuck-run_loop w v (interval_tick i ∷ es) h =
      IsStuck-run_loop w (tick fl i v) es (IsStuck-tick i w v h)
  IsStuck-run_loop w v (command_sent c ∷ es) h =
      IsStuck-run_loop w (record v { command = c }) es (ground arith)

  -- Once the client has used up its attempts with no connection, no later events, whatever the
  -- network answers, make the worker read, store or write anything: the client stays spent, and the
  -- count of successful reads, the readings sent, the frames written and the state of charge stay.
  pub run_loop_spent :
      (w : Worker fl.F T) (es : List (WorkerEvent T))
      → IsSpent w.client
      → IsStuck w (run_loop fl w es).0
  run_loop_spent w es h = IsStuck-run_loop w w es (record {
    spent = h;
    reads_stop = refl;
    storage_stops = refl;
    writes_stop = refl;
    state_stops = refl;
  })
