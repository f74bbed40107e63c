-- ===== src/Rtac/Worker.antt =====
-- neems-data/src/rtac/worker.rs: the worker that reads the RTAC, reports alarms and writes commands.
-- Channels are the lists of what was sent; a closed channel drops what is sent to it (the source
-- only logs that). All instants of one tick are one `now`. Logging is left out.
pub mod Alarms
pub mod Counts
pub mod Mirror
pub mod Ticks
use neems_core.Rtac.History.{Alarm, alarm_cleared, alarm_new}
use neems_core.Rtac.Alarm.Definition.{AlarmDefinition}
use neems_core.Rtac.Alarm.Flags.{AlarmFlags, from_registers, is_alarm_active, no_flags}
use neems_core.Rtac.Client.{
  parsed, ConnectOutcome, ModbusClient, ModbusError, connect, ReadOutcome, ReadResult, WriteOutcome,
  command_frame, is_connected, new_client, read_error, read_status, reconnect, write_command,
}
use neems_core.Rtac.State.{
  ConnectionStatus, PendingCommand, RtacReading, RtacState, connected, default_state, failed,
  reading_of_state, reconnecting,
}
use neems_core.Platform.Float.{Float32}
use neems_core.Rtac.Registers.{ParsedStatus, lit}
use neems_core.Rtac.Alarm.Table.{alarm_definitions}
use neems_core.Rtac.WorkerState.{
  RtacConfig, ShutdownReason, TickInput, Worker, WorkerEvent, alarm_changes, command_sent,
  interval_tick, is_multiple_of, no_stats, requested, send, send_all, shutdown_changed,
  shutdown_closed,
}
use neems_core.Prelude.{
  ℕ, Bool, true, false, not, Option, none, some, List, [], ◌+◌, ◌&&◌, ◌∷◌, ◌++◌, if◌then◌else◌,
}

module _ (fl : Float32) {T : Type 0} where
  -- `ModbusWorker::new`, over the shared state of `create_worker_channels`.
  unfoldable pub new_worker : RtacConfig → ℕ → T → Worker fl.F T
  unfolding new_client default_state
  new_worker config max_attempts now = record {
    config = config;
    client = new_client max_attempts;
    state = default_state (lit fl 0) now;
    command = none;
    storage_open = true;
    storage_sent = [];
    alarm_open = true;
    alarms_sent = [];
    frames_written = [];
    stats = no_stats;
    tick_count = 0;
    sequence = 0;
    last_alarm_flags = no_flags;
  }

  unfoldable pub update_state : T → ParsedStatus fl.F → Worker fl.F T → Worker fl.F T
  update_state now s w = record w {
    state = record (w.state) {
      timestamp = now;
      soc_percent = s.soc_percent;
      power_kw = s.power_kw;
      mode = s.mode;
      voltage_v = s.voltage_v;
      current_a = s.current_a;
      temperature_c = s.temperature_c;
      grid_frequency_hz = s.grid_frequency_hz;
      alarms = from_registers s.alarm_registers;
      connection_status = connected;
      sequence = w.sequence;
    };
  }

  unfoldable pub update_connection_status : T → ConnectionStatus → Worker fl.F T → Worker fl.F T
  update_connection_status now status w = record w {
    state = record (w.state) { connection_status = status; timestamp = now };
  }

  unfoldable pub check_alarms : T → ParsedStatus fl.F → Worker fl.F T → Worker fl.F T
  check_alarms now s w =
      let new_flags = from_registers s.alarm_registers in
      record w {
        alarms_sent =
            send_all w.alarm_open w.alarms_sent
              (alarm_changes w.last_alarm_flags new_flags now alarm_definitions);
        last_alarm_flags = new_flags;
      }

  unfoldable pub send_to_storage : Worker fl.F T → Worker fl.F T
  send_to_storage w = record w {
    storage_sent = send w.storage_open w.storage_sent (reading_of_state w.state);
  }

  -- The branch of a successful read, after its counters.
  unfoldable pub accept_status : T → ParsedStatus fl.F → Worker fl.F T → Worker fl.F T
  accept_status now s w =
      let w' = check_alarms now s (update_state now s w) in
      if is_multiple_of w'.tick_count w'.config.storage_sample_rate then send_to_storage w' else w'

  pub finish_read : T → Worker fl.F T → ReadResult fl.F → Worker fl.F T × Bool
  finish_read now w (parsed s) = (
    accept_status now s (record w {
      stats = record (w.stats) { successful_reads = w.stats.successful_reads + 1 };
      sequence = w.sequence + 1;
    }),
    true,
  )
  finish_read now w (read_error e) = (
    update_connection_status now w.client.connection_status
        (record w { stats = record (w.stats) { failed_reads = w.stats.failed_reads + 1 } }),
    false,
  )

  unfoldable pub perform_read : TickInput T → Worker fl.F T → Worker fl.F T × Bool
  unfolding finish_read
  perform_read input w =
      let (client, result) = read_status fl input.read w.client in
      finish_read input.now
        (record w {
          client = client;
          stats = record (w.stats) { total_reads = w.stats.total_reads + 1 };
        })
        result

  pub finish_write : PendingCommand T → Worker fl.F T → Option ModbusError → Worker fl.F T
  finish_write cmd w none = record w {
    stats = record (w.stats) {
      total_writes = w.stats.total_writes + 1;
      successful_writes = w.stats.successful_writes + 1;
    };
    frames_written = w.frames_written ++ command_frame cmd ∷ [];
  }
  finish_write cmd w (some e) = record w {
    stats = record (w.stats) {
      total_writes = w.stats.total_writes + 1;
      failed_writes = w.stats.failed_writes + 1;
    };
  }

  pub write_pending : TickInput T → Worker fl.F T → Option (PendingCommand T) → Worker fl.F T
  unfolding finish_write
  write_pending input w none = w
  write_pending input w (some cmd) =
      let (client, result) = write_command input.write w.client in
      finish_write cmd (record w { client = client }) result

  unfoldable pub perform_write : TickInput T → Worker fl.F T → Worker fl.F T
  unfolding write_pending
  perform_write input w = write_pending input w w.command

  pub finish_reconnection : T → Worker fl.F T → Option ModbusError → Worker fl.F T
  finish_reconnection now w none = update_connection_status now connected w
  finish_reconnection now w (some e) = update_connection_status now failed w

  unfoldable pub handle_reconnection : TickInput T → Worker fl.F T → Worker fl.F T
  unfolding finish_reconnection
  handle_reconnection input w =
      let (client, result) = reconnect input.net w.client in
      finish_reconnection input.now
        (update_connection_status input.now reconnecting (record w {
          client = client;
          stats = record (w.stats) { reconnect_attempts = w.stats.reconnect_attempts + 1 };
        }))
        result

  -- One tick of the interval in `run`.
  unfoldable pub tick : TickInput T → Worker fl.F T → Worker fl.F T
  tick input w =
      let (read, read_success) = perform_read input (record w { tick_count = w.tick_count + 1 }) in
      let w' =
        if is_multiple_of read.tick_count read.config.write_every_n_ticks
        then perform_write input read
        else read in
      if not read_success && not (is_connected w'.client) then handle_reconnection input w' else w'

module _ (fl : Float32) {T : Type 0} where
  -- The loop of `run`: the state, and why it stopped if it did.
  unfoldable pub run_loop :
      Worker fl.F T → List (WorkerEvent T) → Worker fl.F T × Option ShutdownReason
  run_loop w [] = (w, none)
  run_loop w (shutdown_changed true ∷ es) = (w, some requested)
  run_loop w (shutdown_changed false ∷ es) = run_loop w es
  run_loop w (shutdown_closed ∷ es) = (w, some requested)
  run_loop w (interval_tick input ∷ es) = run_loop (tick fl input w) es
  run_loop w (command_sent cmd ∷ es) = run_loop (record w { command = cmd }) es

  -- `run`: the initial connection, whose error is logged, and the loop.
  unfoldable pub run :
      ConnectOutcome → Worker fl.F T → List (WorkerEvent T) → Worker fl.F T × Option ShutdownReason
  unfolding run_loop connect
  run outcome w es = run_loop (record w { client = (connect outcome w.client).0 }) es
