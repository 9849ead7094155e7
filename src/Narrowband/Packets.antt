-- ===== src/Narrowband/Packets.antt =====
-- receivefrom and socket_recvfrom of
-- ublox-at-cellular-interface-n2xx/UbloxATCellularInterfaceN2xx.cpp.
pub mod Memory
use example_ublox_mbed_clien.Prelude.{
  ℕ, zero, suc, ◌-◌, ◌*◌, Bool, true, false, ◌&&◌, Option, none, some, List, [], ◌∷◌, ℤ, pos,
  negsuc, ltb, ◌==◌, length, is_some, if◌then◌else◌,
}
use example_ublox_mbed_clien.Act.{Act, pure, crash, gets, attempt, ◌>>=◌, ◌>>◌}
use example_ublox_mbed_clien.Cellular.{num, int, Modem, lock, unlock}
use example_ublox_mbed_clien.Cellular.Parser.{
  emit, send, recv, recv_address, read_bytes, with_lock, at_set_timeout,
}
use example_ublox_mbed_clien.Cellular.Network.{unnatural_string}
use example_ublox_mbed_clien.Sockets.{
  NsapiError, size, device_error, no_memory, unsupported, would_block, raw_error, assert_socket,
  socket_at, set_socket,
}
use example_ublox_mbed_clien.Sockets.Receive.{
  Address, Received, received, not_received, less_pending, at_most_of, socket_timeout,
}
use example_ublox_mbed_clien.Narrowband.Hex.{hex_to_bin}
use example_ublox_mbed_clien.Narrowband.Datagrams.{max_size, allocate}

-- A packet of so many bytes, with those that were converted and its sender, or an error.
pub data Packet : Type 0 where
  packet : ℕ → List ℕ → Address → Packet
  refused : NsapiError → Packet

abbrev is_pos : ℤ → Bool
is_pos (pos n) = true
is_pos (negsuc n) = false

-- The digits of a packet of `n` bytes in a block for `room` bytes. More of them than the block holds
-- are written behind it; and the conversion, if it gets to the last digit, looks at the character
-- behind it, which is outside of a block that is full. What a block that is not full holds there
-- changes none of the `n` bytes.
unfoldable pub convert : ℕ → ℕ → List ℕ → Act Modem (List ℕ)
unfolding hex_to_bin
convert room n digits =
    let d = hex_to_bin digits n in
    if ltb (room * 2) (length digits)
    then crash
    else if is_pos d.result && n == room
    then crash
    else pure d.stored

-- The bytes of the packet and the `remaining` value, if all digits come; else the size stays what
-- the header said.
abbrev read_packet : ℕ → ℕ → Address → Act Modem Packet
read_packet room n from = do
  digits ← read_bytes (n * 2)
  if length digits == n * 2
      then (do
        stored ← convert room n digits
        remaining ← attempt (recv ",%3[^\n]\n")
        pure (if is_some remaining then packet n stored from else refused device_error))
      else pure (packet n [] from)

abbrev after_header : ℕ → List ℕ × (ℤ × ℤ) → Act Modem Packet
after_header room (ip, (port, pos n)) = read_packet room n (ip, port)
after_header room (ip, (port, negsuc n)) = pure (refused (raw_error (negsuc n)))

-- The size is never set if there is no header.
abbrev with_size : Option {0} Packet → Option {0} Unit → Act Modem Packet
with_size p none = pure (refused device_error)
with_size none (some u) = crash
with_size (some p) (some u) = pure p

abbrev ask_packet : ℤ → ℕ → Act Modem Packet
ask_packet modem_handle room = do
  sent ← attempt (send "AT+NSORF=%d,%d" (int modem_handle ∷ num room ∷ []))
  if is_some sent
      then (do
        header ←
            attempt (do scanned ← recv_address 15 "%d,%15[^,],%d,%d,"; after_header room scanned)
        closing ← attempt (recv "OK")
        with_size header closing)
      else crash

unfoldable pub receivefrom : ℤ → ℕ → Act Modem Packet
unfolding with_lock allocate convert
receivefrom modem_handle room = if ltb max_size room then pure (refused unsupported) else (do
  block ← attempt (allocate (room * 2))
  if is_some block then with_lock (ask_packet modem_handle room) else pure (refused no_memory))

-- How a round ends: with a packet, with nothing yet, or for good, with the mutex as it then is.
pub data Round : Type 0 where
  got : ℕ → List ℕ → Address → Round
  nothing : Round
  give_up : NsapiError → Round

-- The copy into the caller's buffer, which has `room` bytes, from a block of `size` bytes.
abbrev take_packet : ℕ → ℕ → ℕ → Packet → Act Modem Round
take_packet socket room read_blk (refused e) = pure (give_up e)
take_packet socket room read_blk (packet n stored from) =
    if ltb room n
    then crash
    else if ltb read_blk n
    then crash
    else (do set_socket socket (less_pending read_blk); pure (got n stored from))

abbrev close_round : ℕ → Round → Act Modem Round
close_round at_timeout round = do at_set_timeout at_timeout; emit unlock; pure round

abbrev pending_round : ℕ → ℕ → ℕ → ℤ → ℕ → Act Modem Round
pending_round socket at_timeout room modem_handle read_blk = do
  block ← attempt (allocate read_blk)
  if is_some block
      then (do
        p ← receivefrom modem_handle read_blk
        round ← take_packet socket room read_blk p
        close_round at_timeout round)
      else pure (give_up no_memory)

-- One round; without memory it returns with the mutex held.
unfoldable pub receive_round : ℕ → ℕ → ℕ → ℕ → Act Modem Round
unfolding emit allocate receivefrom at_set_timeout
receive_round socket at_timeout start room = do
  emit lock
  at_set_timeout 1000
  s ← gets (socket_at socket)
  now ← gets (λ m. m.mbed.millis m.trace)
  if ltb 0 s.pending
      then pending_round socket at_timeout room s.modem_handle (at_most_of max_size s.pending)
      else if ltb (now - start) socket_timeout
      then (do attempt (recv unnatural_string); close_round at_timeout nothing)
      else close_round at_timeout (give_up would_block)

abbrev after_round : Act Modem (Option Received) → Round → Act Modem (Option Received)
after_round more (got n stored from) =
    pure (some (record { result = size n; bytes = stored; from = some from }))
after_round more nothing = more
after_round more (give_up e) = pure (some (not_received e [] none))

-- The loop; `none` says that the rounds did not suffice.
unfoldable pub receive_loop : ℕ → ℕ → ℕ → ℕ → ℕ → Act Modem (Option Received)
unfolding receive_round
receive_loop rounds socket at_timeout start zero = pure (some (received [] none))
receive_loop zero socket at_timeout start (suc room) = pure none
receive_loop (suc rounds) socket at_timeout start (suc room) =
    receive_round socket at_timeout start (suc room)
    >>= after_round (receive_loop rounds socket at_timeout start (suc room))

-- `room` is the size of the caller's buffer.
unfoldable pub socket_recvfrom : ℕ → ℕ → ℕ → Act Modem (Option Received)
unfolding assert_socket receive_loop
socket_recvfrom rounds handle room = do
  at_timeout ← gets (λ m. m.at_timeout)
  assert_socket handle
  start ← gets (λ m. m.mbed.millis m.trace)
  receive_loop rounds handle at_timeout start room
