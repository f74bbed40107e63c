-- ===== src/Rtac/Client/Calls.antt =====
-- neems-data/src/rtac/modbus_client.rs: reading and writing with a reconnect before and after. The
-- two reconnects and the two tries see their own outcomes of the network.
use neems_core.Rtac.Client.{
  ConnectOutcome, ModbusClient, ModbusError, ReadOutcome, ReadResult, WriteOutcome, is_connected,
  not_connected, operation_timeout, parsed, read_error, read_failed, read_status, reconnect,
  write_broken, write_command, write_exception, write_failed, write_timeout, written,
}
use neems_core.Platform.Float.{Float32}
use neems_core.Schedules.Rules.{first}
use neems_core.Prelude.{
  ℕ, refl, inl, inr, Bool, true, false, Option, none, some, arith, Bool-cases, ◌≡◌, ◌⊎◌,
  if◌then◌else◌,
}

-- The errors after which the client reconnects and tries again.
abbrev read_retries : ModbusError → Bool
read_retries read_failed = true
read_retries not_connected = true
read_retries operation_timeout = true
read_retries other = false

abbrev write_retries : ModbusError → Bool
write_retries write_failed = true
write_retries not_connected = true
write_retries operation_timeout = true
write_retries other = false

-- `if !self.is_connected() { self.reconnect().await?; }`
unfoldable pub ensure_connected :
    (ℕ → ConnectOutcome) → ModbusClient → ModbusClient × Option ModbusError
unfolding is_connected reconnect
ensure_connected net c = if is_connected c then (c, none) else reconnect net c

-- `?` on a connection attempt.
abbrev and_write :
    ModbusClient × Option ModbusError
    → (ModbusClient → ModbusClient × Option ModbusError)
    → ModbusClient × Option ModbusError
and_write (c, some e) next = (c, some e)
and_write (c, none) next = next c

-- The second try, after a first that failed.
unfoldable pub write_again :
    (ℕ → ConnectOutcome)
    → WriteOutcome
    → ModbusClient × Option ModbusError
    → ModbusClient × Option ModbusError
unfolding reconnect write_command
write_again net outcome (c, none) = (c, none)
write_again net outcome (c, some e) =
    if write_retries e then and_write (reconnect net c) (write_command outcome) else (c, some e)

unfoldable pub write_command_with_reconnect :
    (ℕ → ConnectOutcome)
    → WriteOutcome
    → (ℕ → ConnectOutcome)
    → WriteOutcome
    → ModbusClient
    → ModbusClient × Option ModbusError
unfolding ensure_connected write_command write_again
write_command_with_reconnect net outcome net' outcome' c =
    and_write (ensure_connected net c) (λ c'. write_again net' outcome' (write_command outcome c'))

write_command-written :
    (o : WriteOutcome) (c : ModbusClient)
    → (write_command o c).1 ≡ none
    → (o ≡ written) × ((write_command o c).0.context ≡ true)
unfolding write_command
write_command-written written c h = ground (arith, h)
write_command-written write_exception c h = absurd (ground (arith, h))
write_command-written write_broken c h = absurd (ground (arith, h))
write_command-written write_timeout c h = absurd (ground (arith, h))

-- The connection is held after a write that succeeded.
abbrev pub IsWritten : WriteOutcome → ModbusClient × Option ModbusError → Type 0
IsWritten o r = (o ≡ written) × (r.0.context ≡ true)

write_again-IsWritten :
    (net : ℕ → ConnectOutcome) (o o' : WriteOutcome) (r : ModbusClient × Option ModbusError)
    → (r.1 ≡ none → IsWritten o r)
    → (write_again net o' r).1 ≡ none
    → IsWritten o (write_again net o' r) ⊎ IsWritten o' (write_again net o' r)
unfolding write_again
write_again-IsWritten net o o' (c, none) first h = inl (first refl)
write_again-IsWritten net o o' (c, some e) first h = elim (Bool-cases (write_retries e)) [
  | inl t ↦ rw t (by_reconnect (reconnect net c) (rw t at h))
  | inr f ↦ absurd (cc (rw f at h))
]
  where
    by_reconnect :
        (r : ModbusClient × Option ModbusError)
        → (and_write r (write_command o')).1 ≡ none
        → IsWritten o (and_write r (write_command o'))
          ⊎ IsWritten o' (and_write r (write_command o'))
    by_reconnect (c', some lost) k = absurd (cc k)
    by_reconnect (c', none) k = inr (write_command-written o' c' k)

-- A command is reported as written only when the first try or the second wrote it, and a
-- connection is then held.
pub write_command_with_reconnect-IsWritten :
    (net net' : ℕ → ConnectOutcome) (o o' : WriteOutcome) (c : ModbusClient)
    → (write_command_with_reconnect net o net' o' c).1 ≡ none
    → IsWritten o (write_command_with_reconnect net o net' o' c)
      ⊎ IsWritten o' (write_command_with_reconnect net o net' o' c)
unfolding write_command_with_reconnect
write_command_with_reconnect-IsWritten net net' o o' c h = by_connect (ensure_connected net c) h
  where
    by_connect :
        (r : ModbusClient × Option ModbusError)
        → (and_write r (λ c'. write_again net' o' (write_command o c'))).1 ≡ none
        → IsWritten o (and_write r (λ c'. write_again net' o' (write_command o c')))
          ⊎ IsWritten o' (and_write r (λ c'. write_again net' o' (write_command o c')))
    by_connect (c', some e) k = absurd (cc k)
    by_connect (c', none) k =
        write_again-IsWritten net' o o' (write_command o c') (write_command-written o c') k

module _ (fl : Float32) where
  abbrev and_read :
      ModbusClient × Option ModbusError
      → (ModbusClient → ModbusClient × ReadResult fl.F)
      → ModbusClient × ReadResult fl.F
  and_read (c, some e) next = (c, read_error e)
  and_read (c, none) next = next c

  unfoldable pub read_again :
      (ℕ → ConnectOutcome)
      → ReadOutcome
      → ModbusClient × ReadResult fl.F
      → ModbusClient × ReadResult fl.F
  unfolding reconnect read_status
  read_again net outcome (c, parsed s) = (c, parsed s)
  read_again net outcome (c, read_error e) =
      if read_retries e
      then and_read (reconnect net c) (read_status fl outcome)
      else (c, read_error e)

  unfoldable pub read_status_with_reconnect :
      (ℕ → ConnectOutcome)
      → ReadOutcome
      → (ℕ → ConnectOutcome)
      → ReadOutcome
      → ModbusClient
      → ModbusClient × ReadResult fl.F
  unfolding ensure_connected read_status read_again
  read_status_with_reconnect net outcome net' outcome' c =
      and_read (ensure_connected net c) (λ c'. read_again net' outcome' (read_status fl outcome c'))
