-- ===== src/Sockets/Receive.antt =====
-- socket_recv and socket_recvfrom of ublox-at-cellular-interface/UbloxATCellularInterface.cpp.
mod Rounds
pub mod Discipline
pub mod Returns
use Prim.Native.String.{String}
use example_ublox_mbed_clien.Prelude.{
  ℕ, zero, suc, ◌+◌, ◌-◌, ◌%◌, ◌^◌, Bool, true, false, ◌||◌, Option, none, some, List, [], ◌∷◌,
  ◌++◌, ℤ, to_u32, ltb, ◌==◌, length, if◌then◌else◌,
}
use example_ublox_mbed_clien.Act.{Act, pure, gets, attempt, ◌>>=◌, ◌>>◌}
use example_ublox_mbed_clien.Cellular.{num, int, Modem, SockCtrl}
use example_ublox_mbed_clien.Cellular.Parser.{
  send, recv, recv_number, recv_address, read_bytes, with_lock, at_set_timeout,
}
use example_ublox_mbed_clien.Cellular.Network.{unnatural_string}
use example_ublox_mbed_clien.Sockets.{
  NsapiError, SizeOrError, size, failure, device_error, would_block, assert_socket, socket_at,
  set_socket,
}

-- MAX_READ_SIZE and SOCKET_TIMEOUT
abbrev pub max_read_size : ℕ
max_read_size = 1024

abbrev pub socket_timeout : ℕ
socket_timeout = 1000

pub data Style : Type 0 where
  stream datagram : Style

-- an address and a port
abbrev pub Address : Type 0
Address = List ℕ × ℤ

-- The request for pending bytes, and what its answer says: who sent them, and how many there are.
unfoldable pub ask : Style → ℤ → ℕ → Act Modem (Option Address × ℕ)
ask stream h read_blk = do
  send "AT+USORD=%d,%d" (int h ∷ num read_blk ∷ [])
  n ← recv_number "+USORD: %*d,%d,\""
  pure (none, to_u32 n)
ask datagram h read_blk = do
  send "AT+USORF=%d,%d" (int h ∷ num read_blk ∷ [])
  width ← gets (λ m. m.mbed.ip_size)
  scanned ← recv_address width "+USORF: %*d,\"%NSAPI_IP_SIZE[^\"]\",%d,%d,\""
  pure (some (scanned.0, scanned.1.0), to_u32 scanned.1.1)

-- How a round ends: with more bytes, and whether that is all; with nothing yet; or for good.
pub data Round : Type 0 where
  got : List ℕ → Option Address → Bool → Round
  nothing : Round
  give_up : NsapiError → Round
  time_is_up : Round

-- Was this all of a packet?
abbrev pub is_all : Style → ℕ → ℕ → Bool
is_all stream read_blk n = false
is_all datagram read_blk n = ltb n read_blk || n == max_read_size

abbrev pub at_most_of : ℕ → ℕ → ℕ
at_most_of limit n = if ltb limit n then limit else n

-- `socket->pending -= n`, of unsigned numbers
abbrev pub less_pending : ℕ → SockCtrl → SockCtrl
less_pending n s = record s { pending = (s.pending + 2 ^ 32 - n) % 2 ^ 32 }

abbrev pub read_block : Style → ℕ → ℕ → ℕ → Option (Option Address × ℕ) → Act Modem Round
read_block style socket room read_blk none = pure (give_up device_error)
read_block style socket room read_blk (some (from, n)) = do
  set_socket socket (less_pending n)
  block ← read_bytes (at_most_of room n)
  attempt (recv "OK")
  pure (
      if ltb 0 (length block)
      then got block from (is_all style read_blk (at_most_of room n))
      else give_up device_error)

-- One round with `room` bytes free in the buffer: bytes that are pending, else a wait for URCs until
-- the time is up.
abbrev pub receive_block : Style → ℕ → ℕ → ℕ → Act Modem Round
receive_block style socket start room = do
  s ← gets (socket_at socket)
  now ← gets (λ m. m.mbed.millis m.trace)
  if ltb 0 s.pending
      then (do
        answer ← attempt (ask style s.modem_handle (at_most_of room max_read_size))
        read_block style socket room (at_most_of room max_read_size) answer)
      else if ltb (now - start) socket_timeout
      then (do attempt (recv unnatural_string); pure nothing)
      else pure time_is_up

unfoldable pub receive_round : Style → ℕ → ℕ → ℕ → Act Modem Round
unfolding with_lock ask at_set_timeout read_bytes
receive_round style socket start room = with_lock (do
  at_timeout ← gets (λ m. m.at_timeout)
  at_set_timeout 1000
  round ← receive_block style socket start room
  at_set_timeout at_timeout
  pure round)

-- What a call stores and returns.
pub record Received : Type 0 where
  pub result : SizeOrError
  pub bytes : List ℕ
  pub from : Option Address

abbrev pub received : List ℕ → Option Address → Received
received bytes from = record { result = size (length bytes); bytes = bytes; from = from }

abbrev pub not_received : NsapiError → List ℕ → Option Address → Received
not_received e bytes from = record { result = failure e; bytes = bytes; from = from }

abbrev pub later_of : Option Address → Option Address → Option Address
later_of none before = before
later_of (some a) before = some a

-- What follows a round: `more` is the rest of the loop.
abbrev pub after_round :
    (ℕ → List ℕ → Option Address → Act Modem (Option Received))
    → ℕ
    → List ℕ
    → Option Address
    → Round
    → Act Modem (Option Received)
after_round more room bytes from (got block sender true) =
    more 0 (bytes ++ block) (later_of sender from)
after_round more room bytes from (got block sender false) =
    more (room - length block) (bytes ++ block) (later_of sender from)
after_round more room bytes from nothing = more room bytes from
after_round more room bytes from (give_up e) = pure (some (not_received e bytes from))
after_round more room bytes from time_is_up =
    if ltb 0 (length bytes)
    then more 0 bytes from
    else pure (some (not_received would_block bytes from))

-- The loop, with the room that is left in the buffer; `none` says that the rounds did not suffice.
unfoldable pub receive_loop :
    ℕ → Style → ℕ → ℕ → ℕ → List ℕ → Option Address → Act Modem (Option Received)
unfolding receive_round
receive_loop rounds style socket start zero bytes from = pure (some (received bytes from))
receive_loop zero style socket start (suc room) bytes from = pure none
receive_loop (suc rounds) style socket start (suc room) bytes from =
    receive_round style socket start (suc room)
    >>= after_round (receive_loop rounds style socket start) (suc room) bytes from

-- `room` is the size of the caller's buffer.
abbrev pub receive_all : ℕ → Style → ℕ → ℕ → Act Modem (Option Received)
receive_all rounds style handle room = do
  assert_socket handle
  start ← gets (λ m. m.mbed.millis m.trace)
  receive_loop rounds style handle start room [] none

unfoldable pub socket_recv : ℕ → ℕ → ℕ → Act Modem (Option Received)
unfolding assert_socket receive_loop
socket_recv rounds handle room = receive_all rounds stream handle room

unfoldable pub socket_recvfrom : ℕ → ℕ → ℕ → Act Modem (Option Received)
unfolding assert_socket receive_loop
socket_recvfrom rounds handle room = receive_all rounds datagram handle room
