-- ===== src/Rtac/Client.antt =====
-- neems-data/src/rtac/modbus_client.rs: the Modbus connection and its reconnect loop.
-- What the network answers is an argument of each call. `context` says whether a connection is held;
-- the text of an error is left out.
pub mod Reconnect
pub mod Calls
use neems_core.Rtac.State.{
  ConnectionStatus, PendingCommand, connected, disconnected, failed, is_connected_status,
  reconnecting,
}
use neems_core.Platform.Float.{Float32}
use neems_core.Rtac.Registers.{ParsedStatus, build_command_registers, status_from_registers}
use neems_core.Rtac.RegisterMap.{status_read_count}
use neems_core.Prelude.{
  ℕ, zero, suc, Bool, true, false, Option, none, some, List, ltb, length, ◌+◌, ◌-◌, ◌&&◌,
  if◌then◌else◌,
}

pub data ModbusError : Type 0 where
  connection_failed connection_timeout operation_timeout read_failed write_failed : ModbusError
  exception not_connected reconnect_failed : ModbusError
  invalid_response : ℕ → ℕ → ModbusError

-- How `timeout(.., TcpStream::connect(..))` ends.
pub data ConnectOutcome : Type 0 where
  accepted refused connect_timeout : ConnectOutcome

-- How a timed read of the holding registers ends.
pub data ReadOutcome : Type 0 where
  got : List ℕ → ReadOutcome
  read_exception read_broken read_timeout : ReadOutcome

-- How a timed write of registers ends.
pub data WriteOutcome : Type 0 where
  written write_exception write_broken write_timeout : WriteOutcome

pub record ModbusClient : Type 0 where
  pub max_reconnect_attempts : ℕ
  pub context : Bool
  pub connection_status : ConnectionStatus
  pub reconnect_attempts : ℕ

unfoldable pub new_client : ℕ → ModbusClient
new_client max_attempts = record {
  max_reconnect_attempts = max_attempts;
  context = false;
  connection_status = disconnected;
  reconnect_attempts = 0;
}

unfoldable pub is_connected : ModbusClient → Bool
unfolding is_connected_status
is_connected c = is_connected_status c.connection_status && c.context

-- `none` is `Ok(())`.
unfoldable pub connect : ConnectOutcome → ModbusClient → ModbusClient × Option ModbusError
connect accepted c =
    (record c { context = true; connection_status = connected; reconnect_attempts = 0 }, none)
connect refused c = (record c { connection_status = disconnected }, some connection_failed)
connect connect_timeout c = (record c { connection_status = disconnected }, some connection_timeout)

unfoldable pub disconnect : ModbusClient → ModbusClient
disconnect c = record c { context = false; connection_status = disconnected }

unfoldable pub give_up : ModbusClient → ModbusClient × Option ModbusError
give_up c = (record c { connection_status = failed }, some reconnect_failed)

-- The `while` loop of `reconnect`. `net k` is the outcome of the attempt numbered `k`.
unfoldable pub reconnect_loop :
    ℕ → (ℕ → ConnectOutcome) → ModbusClient → ModbusClient × Option ModbusError
unfolding connect give_up
reconnect_loop zero net c = give_up c
reconnect_loop (suc fuel) net c =
    let attempt = c.reconnect_attempts + 1 in
    let tried =
      connect (net attempt) (record c { reconnect_attempts = attempt; context = false }) in
    let rest = reconnect_loop fuel net tried.0 in
    if ltb c.reconnect_attempts c.max_reconnect_attempts
    then elim tried.1 [ none ↦ tried | some e ↦ rest ]
    else give_up c

-- One round for each attempt that is left.
unfoldable pub reconnect : (ℕ → ConnectOutcome) → ModbusClient → ModbusClient × Option ModbusError
unfolding reconnect_loop
reconnect net c =
    reconnect_loop (c.max_reconnect_attempts - c.reconnect_attempts) net
      (record c { connection_status = reconnecting })

pub data ReadResult (F : Type 0) : Type 0 where
  parsed : ParsedStatus F → ReadResult F
  read_error : ModbusError → ReadResult F

-- `ParsedStatus::from_registers(..).ok_or(..)`
abbrev pub or_invalid : {F : Type 0} → ℕ → Option (ParsedStatus F) → ReadResult F
or_invalid got_count none = read_error (invalid_response status_read_count got_count)
or_invalid got_count (some s) = parsed s

abbrev lost : ModbusClient → ModbusClient
lost c = record c { connection_status = disconnected; context = false }

module _ (fl : Float32) where
  abbrev read_open : ReadOutcome → ModbusClient → ModbusClient × ReadResult fl.F
  read_open (got registers) c =
      if ltb (length registers) status_read_count
      then (c, read_error (invalid_response status_read_count (length registers)))
      else (c, or_invalid (length registers) (status_from_registers fl registers))
  read_open read_exception c = (c, read_error exception)
  read_open read_broken c = (lost c, read_error read_failed)
  read_open read_timeout c = (lost c, read_error operation_timeout)

  unfoldable pub read_status : ReadOutcome → ModbusClient → ModbusClient × ReadResult fl.F
  read_status outcome c = if c.context then read_open outcome c else (c, read_error not_connected)

abbrev write_open : WriteOutcome → ModbusClient → ModbusClient × Option ModbusError
write_open written c = (c, none)
write_open write_exception c = (c, some exception)
write_open write_broken c = (lost c, some write_failed)
write_open write_timeout c = (lost c, some operation_timeout)

unfoldable pub write_command : WriteOutcome → ModbusClient → ModbusClient × Option ModbusError
write_command outcome c = if c.context then write_open outcome c else (c, some not_connected)

-- The registers that `write_command` puts on the wire.
unfoldable pub command_frame : {T : Type 0} → PendingCommand T → List ℕ
command_frame cmd =
    build_command_registers cmd.command_type cmd.target_soc_percent cmd.duration_seconds
      cmd.ramp_duration_seconds
