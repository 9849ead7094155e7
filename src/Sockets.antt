-- ===== src/Sockets.antt =====
-- The sockets of ublox-at-cellular-interface/UbloxATCellularInterface.cpp: socket_open, socket_close,
-- socket_bind, socket_connect and socket_attach. The children have the transfers and the proofs.
pub mod Send
pub mod Receive
pub mod Discipline
pub mod Handles
pub mod Open
mod Tests
use Prim.Native.String.{String}
use example_ublox_mbed_clien.Prelude.{
  ℕ, Bool, true, false, not, Option, none, some, List, [], ◌∷◌, ℤ, ◌==ℤ◌, is_some, get_or,
  if◌then◌else◌,
}
use example_ublox_mbed_clien.Act.{Act, done, fault, pure, gets, modify, guard, attempt, ◌>>=◌, ◌>>◌}
use example_ublox_mbed_clien.Cellular.{Arg, num, int, text, Modem, SockCtrl, set_sockets}
use example_ublox_mbed_clien.Cellular.Table.{
  socket_unused, find_socket, clear_socket, check_socket, update_socket, get_socket,
}
use example_ublox_mbed_clien.Cellular.Parser.{send, recv, recv_number, command, with_lock}

-- NSAPI_ERROR_OK and the errors that the interfaces return; one of them hands on a negative number
-- that the modem has sent.
pub data NsapiError : Type 0 where
  ok device_error no_socket no_memory unsupported : NsapiError
  connection_lost would_block no_connection auth_failure : NsapiError
  parameter_error is_connected_already : NsapiError
  raw_error : ℤ → NsapiError

-- a result that is not negative, or an error
pub data SizeOrError : Type 0 where
  size : ℕ → SizeOrError
  failure : NsapiError → SizeOrError

pub data Protocol : Type 0 where
  udp tcp other_protocol : Protocol

-- `MBED_ASSERT (check_socket(socket))`
unfoldable pub assert_socket : ℕ → Act Modem Unit
assert_socket socket m = if check_socket socket m.iface.sockets then (done tt, m) else (fault, m)

-- `*socket`; no use is made of it unless `assert_socket` has let the pointer pass.
abbrev pub socket_at : ℕ → Modem → SockCtrl
socket_at socket m =
    get_or (get_socket socket m.iface.sockets)
      (record { modem_handle = socket_unused; pending = 0; callback = none; argument = 0 })

abbrev pub modem_handle_of : ℕ → Modem → ℤ
modem_handle_of socket m = SockCtrl.modem_handle (socket_at socket m)

abbrev pub set_socket : ℕ → (SockCtrl → SockCtrl) → Act Modem Unit
set_socket socket f = modify (set_sockets (update_socket socket f))

-- The answer to `AT+USOCR`: a handle that can be one.
abbrev pub recv_handle : Act Modem ℤ
recv_handle = do
  modem_handle ← recv_number "+USOCR: %d\n"
  guard (not (modem_handle ==ℤ socket_unused))
  recv "OK"
  pure modem_handle

-- What follows the request for a socket.
abbrev pub take_handle : ℕ → Option ℤ → Act Modem (NsapiError × Option ℕ)
take_handle socket none = pure (no_socket, none)
take_handle socket (some h) = do
  set_socket socket (λ s. record (clear_socket s) { modem_handle = h })
  pure (ok, some socket)

abbrev pub create : ℕ → String → Act Modem (NsapiError × Option ℕ)
create socket request = do
  sent ← attempt (send request [])
  if is_some sent
      then (do created ← attempt recv_handle; take_handle socket created)
      else pure (device_error, none)

abbrev pub open_at : Option ℕ → Protocol → Act Modem (NsapiError × Option ℕ)
open_at none proto = pure (no_memory, none)
open_at (some socket) udp = create socket "AT+USOCR=17"
open_at (some socket) tcp = create socket "AT+USOCR=6"
open_at (some socket) other_protocol = pure (unsupported, none)

-- The error, and what is stored through `handle`.
unfoldable pub socket_open : Protocol → Act Modem (NsapiError × Option ℕ)
unfolding with_lock find_socket clear_socket
socket_open proto =
    with_lock
      (do socket ← gets (λ m. find_socket socket_unused m.iface.sockets); open_at socket proto)

unfoldable pub close_socket : ℕ → Act Modem Unit
unfolding clear_socket
close_socket socket = do
  h ← gets (modem_handle_of socket)
  command "AT+USOCL=%d" (int h ∷ [])
  set_socket socket clear_socket

unfoldable pub socket_close : ℕ → Act Modem NsapiError
unfolding with_lock assert_socket close_socket
socket_close handle = with_lock (do
  assert_socket handle
  closed ← attempt (close_socket handle)
  pure (if is_some closed then ok else device_error))

-- The re-opening of a closed socket with a port. The socket gets back what was saved of it.
abbrev pub reopen : ℕ → ℤ → ℕ → SockCtrl → Act Modem Unit
reopen socket proto port saved = do
  send "AT+USOCR=%d,%d" (int proto ∷ num port ∷ [])
  recv_handle
  set_socket socket (λ _. saved)

abbrev pub reopen_if : Bool → ℕ → ℤ → ℕ → SockCtrl → Act Modem NsapiError
reopen_if false socket proto port saved = pure device_error
reopen_if true socket proto port saved = do
  opened ← attempt (reopen socket proto port saved)
  pure (if is_some opened then ok else connection_lost)

abbrev pub rebind : ℕ → ℕ → Option ℤ → Act Modem NsapiError
rebind socket port none = pure no_socket
rebind socket port (some proto) = do
  saved ← gets (socket_at socket)
  closed ← attempt (close_socket socket)
  reopen_if (is_some closed) socket proto port saved

-- `AT+USOCTL`, the protocol of a socket
abbrev pub query_protocol : ℕ → Act Modem ℤ
query_protocol socket = do
  h ← gets (modem_handle_of socket)
  send "AT+USOCTL=%d,0" (int h ∷ [])
  proto ← recv_number "+USOCTL: %*d,0,%d\n"
  recv "OK"
  pure proto

unfoldable pub socket_bind : ℕ → ℕ → Act Modem NsapiError
unfolding with_lock assert_socket close_socket
socket_bind handle port =
    with_lock
      (do assert_socket handle; proto ← attempt (query_protocol handle); rebind handle port proto)

unfoldable pub socket_connect : ℕ → List ℕ → ℕ → Act Modem NsapiError
unfolding with_lock assert_socket
socket_connect handle ip_address port = with_lock (do
  assert_socket handle
  h ← gets (modem_handle_of handle)
  connected ← attempt (command "AT+USOCO=%d,\"%s\",%d" (int h ∷ text ip_address ∷ num port ∷ []))
  pure (if is_some connected then ok else device_error))

-- This one takes no lock.
unfoldable pub socket_attach : ℕ → Option ℕ → ℕ → Act Modem Unit
unfolding assert_socket
socket_attach handle callback argument = do
  assert_socket handle
  set_socket handle (λ s. record s { callback = callback; argument = argument })
