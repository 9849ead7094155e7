-- ===== src/Sockets/Send.antt =====
-- socket_send and socket_sendto of ublox-at-cellular-interface/UbloxATCellularInterface.cpp.
mod Blocks
pub mod Sent
use example_ublox_mbed_clien.Prelude.{
  ℕ, zero, suc, Bool, true, false, List, [], ◌∷◌, ℤ, pos, leb_ℤ, ltb, length, take, drop, is_some,
  if◌then◌else◌, Option, none, some,
}
use example_ublox_mbed_clien.Act.{Act, pure, fail, gets, guard, attempt, ◌>>=◌, ◌>>◌}
use example_ublox_mbed_clien.Cellular.{num, int, text, Modem, wait_ms}
use example_ublox_mbed_clien.Cellular.Parser.{emit, send, recv, write_bytes, with_lock}
use example_ublox_mbed_clien.Sockets.{
  SizeOrError, size, failure, device_error, assert_socket, modem_handle_of,
}

-- MAX_WRITE_SIZE
abbrev pub max_write_size : ℕ
max_write_size = 1024

-- The command that announces a block: to the peer of the socket, or to an address.
pub data Target : Type 0 where
  peer : Target
  address : List ℕ → ℕ → Target

abbrev pub announce : Target → ℤ → ℕ → Act Modem Unit
announce peer h blk = send "AT+USOWR=%d,%d" (int h ∷ num blk ∷ [])
announce (address ip port) h blk =
    send "AT+USOST=%d,\"%s\",%d,%d" (int h ∷ text ip ∷ num port ∷ num blk ∷ [])

-- One round: a block of data under the lock.
unfoldable pub send_block : Target → ℕ → List ℕ → Act Modem Unit
unfolding with_lock emit write_bytes
send_block target socket block = with_lock (do
  h ← gets (modem_handle_of socket)
  announce target h (length block)
  recv "@"
  emit (wait_ms 50)
  taken ← write_bytes block
  guard (leb_ℤ (pos (length block)) taken)
  recv "OK")

-- The loop, with the data that is left; `blk` shrinks to what is left. The number of rounds that
-- the data takes is its length at most, since no block is empty.
unfoldable pub send_loop : ℕ → Target → ℕ → ℕ → List ℕ → Act Modem Unit
unfolding send_block
send_loop rounds target socket blk [] = pure tt
send_loop zero target socket blk (b ∷ data_left) = fail
send_loop (suc rounds) target socket blk (b ∷ data_left) =
    let left = b ∷ data_left in
    let blk' = if ltb (length left) blk then length left else blk in
    let more = send_loop rounds target socket blk' (drop blk' left) in
    do send_block target socket (take blk' left); more

-- `size` is the length of the data.
abbrev pub send_all : Target → ℕ → List ℕ → Act Modem SizeOrError
send_all target handle buf = do
  assert_socket handle
  sent ← attempt (send_loop (length buf) target handle max_write_size buf)
  pure (if is_some sent then size (length buf) else failure device_error)

unfoldable pub socket_send : ℕ → List ℕ → Act Modem SizeOrError
unfolding assert_socket send_loop
socket_send handle buf = send_all peer handle buf

unfoldable pub socket_sendto : ℕ → List ℕ → ℕ → List ℕ → Act Modem SizeOrError
unfolding assert_socket send_loop
socket_sendto handle ip_address port buf = send_all (address ip_address port) handle buf
