-- ===== src/Narrowband/Datagrams.antt =====
-- The sockets of ublox-at-cellular-interface-n2xx/UbloxATCellularInterfaceN2xx.cpp, which are for
-- datagrams only; the table of sockets is as in the other interface.
pub mod Rounds
use example_ublox_mbed_clien.Prelude.{
  ℕ, zero, suc, ◌+◌, ◌*◌, Option, none, some, List, [], ◌∷◌, ℤ, pos, negsuc, ltb, length, take,
  drop, is_some, if◌then◌else◌,
}
use example_ublox_mbed_clien.Act.{Act, pure, fail, crash, gets, guard, attempt, ◌>>=◌, ◌>>◌}
use example_ublox_mbed_clien.Cellular.{num, int, text, Modem, malloc}
use example_ublox_mbed_clien.Cellular.Table.{socket_unused, find_socket, clear_socket}
use example_ublox_mbed_clien.Cellular.Parser.{
  emit, send, recv, recv_number, recv_second, command, with_lock,
}
use example_ublox_mbed_clien.Sockets.{
  NsapiError, ok, device_error, no_memory, unsupported, SizeOrError, size, failure, Protocol, udp,
  assert_socket, modem_handle_of, set_socket,
}
use example_ublox_mbed_clien.Narrowband.Hex.{bin_to_hex}

-- MAX_WRITE_SIZE and MAX_READ_SIZE
abbrev pub max_size : ℕ
max_size = 512

-- `malloc(n)`, which fails with a null pointer
unfoldable pub allocate : ℕ → Act Modem Unit
unfolding emit
allocate n = do emit (malloc n); m ← gets (λ m. m); guard (m.mbed.has_memory m.trace)

abbrev pub create : ℕ → Act Modem ℤ
create socket = do
  port ← gets (λ m. m.iface.listen_port)
  send "AT+NSOCR=DGRAM,17,%d" (int port ∷ [])
  modem_handle ← recv_number "%d\n"
  recv "OK"
  set_socket socket (λ s. record (clear_socket s) { modem_handle = modem_handle })
  pure modem_handle

abbrev pub open_at : Option ℕ → Act Modem (NsapiError × Option ℕ)
open_at none = pure (no_memory, none)
open_at (some socket) = do
  created ← attempt (create socket)
  pure (if is_some created then (ok, some socket) else (device_error, none))

unfoldable pub socket_open : Protocol → Act Modem (NsapiError × Option ℕ)
unfolding with_lock find_socket clear_socket
socket_open udp =
    with_lock (do socket ← gets (λ m. find_socket socket_unused m.iface.sockets); open_at socket)
socket_open _ = pure (unsupported, none)

unfoldable pub socket_close : ℕ → Act Modem NsapiError
unfolding with_lock assert_socket clear_socket
socket_close handle = with_lock (do
  assert_socket handle
  h ← gets (modem_handle_of handle)
  closed ← attempt (do command "AT+NSOCL=%d" (int h ∷ []); set_socket handle clear_socket)
  pure (if is_some closed then ok else device_error))

-- The number that the modem says it has sent; it counts also if no OK follows.
abbrev sent_of : List ℕ → ℕ → ℕ → ℕ → List ℕ → Act Modem (Option ℤ)
sent_of ip port socket n hex = attempt (do
  h ← gets (modem_handle_of socket)
  send "AT+NSOSTF=%d,%s,%d,0x0,%d,%s" (int h ∷ text ip ∷ num port ∷ num n ∷ text hex ∷ [])
  scanned ← recv_second "%d,%d\n"
  attempt (recv "OK")
  pure scanned.1)

-- One datagram, in hexadecimal digits; failure is a negative result.
unfoldable pub sendto : ℕ → List ℕ → ℕ → List ℕ → Act Modem ℕ
unfolding with_lock allocate bin_to_hex
sendto socket ip port block = do
  allocate (length block * 2 + 1)
  sent ← with_lock (sent_of ip port socket (length block) (bin_to_hex block))
  elim sent [ some (pos n) ↦ pure n | some (negsuc n) ↦ fail | none ↦ fail ]

-- What is left of the data after `sent` bytes of it; there are not more.
abbrev skip : ℕ → List ℕ → Act Modem (List ℕ)
skip sent left = if ltb (length left) sent then crash else pure (drop sent left)

-- The loop, with the data that is left; `none` says that the rounds did not suffice.
unfoldable pub send_loop : ℕ → ℕ → List ℕ → ℕ → ℕ → List ℕ → Act Modem (Option Unit)
unfolding sendto
send_loop rounds socket ip port blk [] = pure (some tt)
send_loop zero socket ip port blk (b ∷ left) = pure none
send_loop (suc rounds) socket ip port blk (b ∷ left) =
    let all = b ∷ left in
    let blk' = if ltb (length all) blk then length all else blk in
    let more = send_loop rounds socket ip port blk' in
    do sent ← sendto socket ip port (take blk' all); rest ← skip sent all; more rest

abbrev sent_result : ℕ → Option {0} (Option {0} Unit) → Option SizeOrError
sent_result n none = some (failure device_error)
sent_result n (some none) = none
sent_result n (some (some u)) = some (size n)

unfoldable pub socket_sendto : ℕ → ℕ → List ℕ → ℕ → List ℕ → Act Modem (Option SizeOrError)
unfolding assert_socket send_loop
socket_sendto rounds handle ip_address port buf = do
  assert_socket handle
  sent ← attempt (send_loop rounds handle ip_address port max_size buf)
  pure (sent_result (length buf) sent)
