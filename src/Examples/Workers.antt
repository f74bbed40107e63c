-- ===== src/Examples/Workers.antt =====
-- Examples: the Modbus client and the worker.
use neems_core.Rtac.Client.{refused}
use neems_core.Rtac.Worker.{new_worker, run, run_loop}
use neems_core.Rtac.WorkerState.{RtacConfig, WorkerEvent, TickInput, Worker, interval_tick}
use neems_core.Rtac.State.{is_connected_status, failed}
use neems_core.Rtac.Client.{
  ConnectOutcome, ModbusClient, accepted, got, new_client, read_broken, reconnect, written,
}
use neems_core.Rtac.Client.Reconnect.{CanDrop, GaveUp, IsSpent, Reconnected, reconnect_outcome}
use neems_core.Rtac.Worker.Counts.{IsCounted, run-new_worker-IsCounted}
use neems_core.Rtac.Worker.Mirror.{IsMirrored, run-new_worker-IsMirrored}
use neems_core.Rtac.Worker.Ticks.{IsStuck, run_loop_spent}
use neems_core.Examples.Instances.{int_float}
use neems_core.Prelude.{
  ℕ, refl, inl, false, List, [], arith, replicate, ◌⊎◌, ◌∷◌, ◌==◌, if◌then◌else◌,
}
use neems_core.Prelude.Int.{ℤ}

abbrev config : RtacConfig
config = record { write_every_n_ticks = 1; storage_sample_rate = 10 }

-- A network that accepts the third attempt, and a status with the emergency stop active.
abbrev third : ℕ → ConnectOutcome
third n = if n == 3 then accepted else refused

abbrev status : List ℕ
status = 1 ∷ 5000 ∷ 0 ∷ 0 ∷ 8000 ∷ 0 ∷ 250 ∷ 6000 ∷ 0 ∷ 8 ∷ replicate 20 0

abbrev reads : TickInput ℕ
reads = record { now = 7; read = got status; write = written; net = third }

abbrev breaks : TickInput ℕ
breaks = record { now = 8; read = read_broken; write = written; net = λ n. refused }

abbrev events : List (WorkerEvent ℕ)
events = interval_tick reads ∷ interval_tick reads ∷ interval_tick breaks ∷ []

abbrev start : Worker ℤ ℕ
start = new_worker int_float config 5 0

run-new_worker-IsMirrored_example :
    IsMirrored 10 (run int_float accepted (new_worker int_float config 5 0) events).0
run-new_worker-IsMirrored_example =
    run-new_worker-IsMirrored int_float 10 (omega arith) config 5 0 accepted events

run-new_worker-IsCounted_example :
    IsCounted (run int_float accepted (new_worker int_float config 5 0) events).0
run-new_worker-IsCounted_example = run-new_worker-IsCounted int_float config 5 0 accepted events

abbrev fresh_client : ModbusClient
fresh_client = new_client 5

abbrev spent_client : ModbusClient
spent_client = record {
  max_reconnect_attempts = 2;
  context = false;
  connection_status = failed;
  reconnect_attempts = 2;
}

spent_client-IsSpent : IsSpent spent_client
unfolding is_connected_status
spent_client-IsSpent = record {
  no_context = refl;
  not_connected_status = refl;
  used_up = omega arith;
}

run_loop_spent_example :
    IsStuck int_float
      (record start { client = spent_client })
      (run_loop int_float (record start { client = spent_client }) events).0
run_loop_spent_example =
    run_loop_spent int_float (record start { client = spent_client }) events spent_client-IsSpent

fresh_client-CanDrop : CanDrop fresh_client
unfolding new_client
fresh_client-CanDrop = inl refl

reconnect_outcome_example :
    Reconnected third 0 5 (reconnect third fresh_client)
    ⊎ GaveUp third 0 5 (reconnect third fresh_client)
unfolding new_client
reconnect_outcome_example = reconnect_outcome third fresh_client fresh_client-CanDrop
