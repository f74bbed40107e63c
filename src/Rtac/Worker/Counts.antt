-- ===== src/Rtac/Worker/Counts.antt =====
-- The counters of the worker.
use neems_core.Platform.Float.{Float32}
use neems_core.Rtac.Worker.{
  finish_read, write_pending, new_worker, run, run_loop, accept_status, check_alarms,
  handle_reconnection, perform_read, perform_write, send_to_storage, tick, update_connection_status,
  update_state,
}
use neems_core.Rtac.WorkerState.{
  RtacConfig, WorkerEvent, command_sent, interval_tick, shutdown_changed, shutdown_closed,
  TickInput, Worker,
}
use neems_core.Rtac.Client.{
  ConnectOutcome, connect, ReadResult, command_frame, parsed, read_error, read_status,
}
use neems_core.Rtac.Registers.{ParsedStatus}
use neems_core.Rtac.State.{PendingCommand}
use neems_core.Prelude.{
  ℕ, refl, true, false, Option, none, some, List, [], arith, length, length-append, ◌+◌, ◌≡◌, ◌∷◌,
}

-- Every read and write is counted once, as successful or as failed; the sequence number counts the
-- successful reads and the tick number all reads.
pub record IsCounted {F T : Type 0} (w : Worker F T) : Type 0 where
  pub reads : w.stats.total_reads ≡ w.stats.successful_reads + w.stats.failed_reads
  pub writes : w.stats.total_writes ≡ w.stats.successful_writes + w.stats.failed_writes
  pub one_read_a_tick : w.stats.total_reads ≡ w.tick_count
  pub sequenced : w.sequence ≡ w.stats.successful_reads
  pub frames : length w.frames_written ≡ w.stats.successful_writes

module _ (fl : Float32) {T : Type 0} where
  accept_status-IsCounted :
      (now : T) (s : ParsedStatus fl.F) (w : Worker fl.F T)
      → IsCounted w
      → IsCounted (accept_status fl now s w)
  unfolding accept_status check_alarms update_state send_to_storage
  accept_status-IsCounted now s w h = ground arith

  finish_read-IsCounted :
      (now : T) (w : Worker fl.F T) (r : ReadResult fl.F)
      → w.stats.total_reads ≡ w.stats.successful_reads + w.stats.failed_reads + 1
      → w.stats.total_writes ≡ w.stats.successful_writes + w.stats.failed_writes
      → w.stats.total_reads ≡ w.tick_count
      → w.sequence ≡ w.stats.successful_reads
      → length w.frames_written ≡ w.stats.successful_writes
      → IsCounted (finish_read fl now w r).0
  unfolding finish_read update_connection_status
  finish_read-IsCounted now w (parsed s) a b c d e = accept_status-IsCounted now s _ (ground arith)
  finish_read-IsCounted now w (read_error x) a b c d e = ground arith

  perform_read-IsCounted :
      (i : TickInput T) (w : Worker fl.F T)
      → IsCounted w
      → IsCounted (perform_read fl i (record w { tick_count = w.tick_count + 1 })).0
  unfolding perform_read
  perform_read-IsCounted i w h =
      finish_read-IsCounted i.now _ (read_status fl i.read w.client).1 (omega (arith, h.reads))
        h.writes (omega (arith, h.one_read_a_tick)) h.sequenced h.frames

  write_pending-IsCounted :
      (i : TickInput T) (w : Worker fl.F T) (cmd : Option (PendingCommand T))
      → IsCounted w
      → IsCounted (write_pending fl i w cmd)
  unfolding write_pending
  write_pending-IsCounted i w none h = h
  write_pending-IsCounted i w (some cmd) h =
      ground (arith, length-append w.frames_written (command_frame cmd ∷ []))

  handle_reconnection-IsCounted :
      (i : TickInput T) (w : Worker fl.F T) → IsCounted w → IsCounted (handle_reconnection fl i w)
  unfolding handle_reconnection update_connection_status
  handle_reconnection-IsCounted i w h = ground arith

  -- Every tick keeps the counters in step.
  tick-IsCounted : (i : TickInput T) (w : Worker fl.F T) → IsCounted w → IsCounted (tick fl i w)
  unfolding tick perform_write
  tick-IsCounted i w h =
      let after_read = perform_read-IsCounted i w h in
      let r = (perform_read fl i (record w { tick_count = w.tick_count + 1 })).0 in
      let after_write = write_pending-IsCounted i r r.command after_read in
      ground (
        arith,
        handle_reconnection-IsCounted i r after_read,
        handle_reconnection-IsCounted i (write_pending fl i r r.command) after_write,
      )

  run_loop-IsCounted :
      (w : Worker fl.F T) (es : List (WorkerEvent T)) → IsCounted w → IsCounted (run_loop fl w es).0
  unfolding run_loop
  run_loop-IsCounted w [] h = h
  run_loop-IsCounted w (shutdown_changed true ∷ es) h = h
  run_loop-IsCounted w (shutdown_changed false ∷ es) h = run_loop-IsCounted w es h
  run_loop-IsCounted w (shutdown_closed ∷ es) h = h
  run_loop-IsCounted w (interval_tick i ∷ es) h =
      run_loop-IsCounted (tick fl i w) es (tick-IsCounted i w h)
  run_loop-IsCounted w (command_sent c ∷ es) h =
      run_loop-IsCounted (record w { command = c }) es (ground arith)

  -- From a new worker, whatever the initial connection does, after any events: one read is counted for each tick, every read and write as
  -- successful or failed, the sequence number is the count of successful reads, and one frame was
  -- put on the wire for each successful write.
  pub run-new_worker-IsCounted :
      (config : RtacConfig) (max_attempts : ℕ) (now : T) (outcome : ConnectOutcome)
      (es : List (WorkerEvent T))
      → IsCounted (run fl outcome (new_worker fl config max_attempts now) es).0
  unfolding new_worker run
  run-new_worker-IsCounted config max_attempts now outcome es =
      let new = new_worker fl config max_attempts now in
      run_loop-IsCounted (record new { client = (connect outcome new.client).0 }) es
        (record {
          reads = refl;
          writes = refl;
          one_read_a_tick = refl;
          sequenced = refl;
          frames = refl;
        })
