-- ===== src/Sockets/Receive/Returns.antt =====
-- That socket_recv and socket_recvfrom of UbloxATCellularInterface.cpp return, and what.

use example_ublox_mbed_clien.Prelude.{
  ℕ, zero, suc, ◌+◌, ◌-◌, ◌<◌, ◌≤◌, ◌≡◌, refl, inl, inr, ◌⊎◌, true, false, List, [], ◌∷◌, some,
  none, Option, arith, length, length-append,
}
use example_ublox_mbed_clien.Act.{Outcome, done, failed, fault, Act, ◌>>=◌}
use example_ublox_mbed_clien.Act.Splits.{
  Splits, Splits-bind, Splits-pure, Splits-with, Never, Either,
}
use example_ublox_mbed_clien.Cellular.{Modem, Mbed}
use example_ublox_mbed_clien.Sockets.{SizeOrError, size, failure}
use example_ublox_mbed_clien.Sockets.Send.Sent.{assert_socket-holds}
use example_ublox_mbed_clien.Sockets.Receive.{
  Style, stream, datagram, Address, Round, got, nothing, give_up, time_is_up, Received, after_round,
  receive_loop, receive_all, socket_recv, socket_recvfrom,
}
use example_ublox_mbed_clien.Sockets.Receive.Rounds.{
  Clocked, IsGood, IsLate, is_some_block, receive_round-After,
}

-- What is returned: a number, that of the bytes stored, not 0 unless there was no room; or an error.
abbrev pub IsCount : ℕ → SizeOrError → ℕ → Type 0
IsCount total (size n) stored = (n ≡ stored) × (0 < total → 0 < n)
IsCount total (failure e) stored = Unit

abbrev pub IsReceived : ℕ → Option Received → Type 0
IsReceived total none = ⊥
IsReceived total (some r) = (length r.bytes ≤ total) × IsCount total r.result (length r.bytes)

-- The bytes so far fit beside the room that is left.
abbrev Fits : ℕ → ℕ → List ℕ → Type 0
Fits total room bytes = (length bytes + room ≤ total) × (0 < total → 0 < length bytes + room)

abbrev Returns : Mbed → ℕ → ℕ → Act Modem (Option Received) → Type 0
Returns clock total j m = Splits (Clocked clock j) (λ r _. IsReceived total r) Never m

module _ (clock : Mbed) (k late start total : ℕ) where
  after_round-Returns :
      (more : ℕ → List ℕ → Option Address → Act Modem (Option Received)) (rounds room : ℕ)
      (bytes : List ℕ) (from : Option Address) (round : Round)
      → ((r : ℕ) (b : List ℕ) (f : Option Address)
          → Fits total r b
          → (r + (late - suc k) ≤ rounds) ⊎ (r ≡ 0)
          → Returns clock total (suc k) (more r b f))
      → Fits total (suc room) bytes
      → suc room + (late - k) ≤ suc rounds
      → IsGood k late (suc room) round
      → Returns clock total (suc k) (after_round more (suc room) bytes from round)
  after_round-Returns more rounds room bytes from (got block sender true) km (l, p) n (g, g') =
      km _ _ _
        (
          omega (arith, length-append bytes block, l, g'),
          λ t. omega (arith, length-append bytes block, g),
        )
        (inr refl)
  after_round-Returns more rounds room bytes from (got block sender false) km (l, p) n (g, g') =
      km _ _ _
        (
          omega (arith, length-append bytes block, l, g'),
          λ t. omega (arith, length-append bytes block, g),
        )
        (inl (omega (arith, n, g, g')))
  after_round-Returns more rounds room bytes from nothing km f n g =
      km _ _ _ f (inl (omega (arith, n, g)))
  after_round-Returns more rounds room bytes from (give_up e) km f n g =
      Splits-pure _ (λ m h. (omega (arith, f.0), tt))
  after_round-Returns more rounds room [] from time_is_up km f n g =
      Splits-pure _ (λ m h. (omega arith, tt))
  after_round-Returns more rounds room (b ∷ bytes) from time_is_up km f n g =
      rw (is_some_block (length bytes)) (km _ _ _ (omega (arith, f.0), λ t. omega arith) (inr refl))

receive_loop-Returns :
    (clock : Mbed) (late start total rounds : ℕ) (style : Style) (socket k room : ℕ)
    (bytes : List ℕ) (from : Option Address)
    → IsLate clock start late
    → Fits total room bytes
    → (room + (late - k) ≤ rounds) ⊎ (room ≡ 0)
    → Returns clock total k (receive_loop rounds style socket start room bytes from)
unfolding receive_loop
receive_loop-Returns clock late start total rounds style socket k zero bytes from l f n =
    Splits-pure _ (λ m h. (omega (arith, f.0), (refl, λ t. omega (arith, f.1 t))))
receive_loop-Returns clock late start total zero style socket k (suc room) bytes from l f n =
    absurd (ground (arith, n))
receive_loop-Returns clock late start total (suc rounds) style socket k (suc room) bytes from l f
      n =
    Splits-bind _ _ (receive_round-After late start style socket (suc room) l) (λ round.
      Splits-with _ (λ good.
        after_round-Returns clock k late start total _ rounds room bytes from round
          (λ r b g f' n'.
            receive_loop-Returns clock late start total rounds style socket (suc k) r b g l f' n')
          f (enough n) good))
  where
    enough :
        (suc room + (late - k) ≤ suc rounds) ⊎ (suc room ≡ 0) → suc room + (late - k) ≤ suc rounds
    enough n = ground (arith, n)

-- A call has returned a result, within the room.
abbrev pub HasReturned : ℕ → Outcome (Option Received) → Type 0
HasReturned room (done r) = IsReceived room r
HasReturned room failed = ⊥
HasReturned room fault = ⊥

Either-HasReturned :
    (room : ℕ) (r : Outcome (Option Received)) (m : Modem)
    → Either (λ r _. IsReceived room r) Never r m
    → HasReturned room r
Either-HasReturned room (done r) m h = h
Either-HasReturned room failed m h = absurd h
Either-HasReturned room fault m h = absurd h

receive_all-HasReturned :
    (style : Style) (handle room late rounds : ℕ) (m : Modem)
    → m.at ≡ true
    → handle < length m.iface.sockets
    → IsLate m.mbed (m.mbed.millis m.trace) late
    → room + (late - length m.trace) ≤ rounds
    → HasReturned room (receive_all rounds style handle room m).0
unfolding ◌>>=◌
receive_all-HasReturned style handle room late rounds m a i l n =
    rw (assert_socket-holds handle m i) (
      Either-HasReturned room _ _ (
        (receive_loop-Returns m.mbed late (m.mbed.millis m.trace) room rounds style handle
            (length m.trace) room [] none l (omega arith, λ t. omega (arith, t)) (inl n)).out
          m (record { same = refl; parser = a; events = omega arith })))

-- For every modem with a parser, every handle that points into the table, every room in the caller's
-- buffer, and every clock that is a second past the start after `late` events or fewer: socket_recv
-- and socket_recvfrom return after as many rounds at most as there are bytes of room and events
-- left until then; they store no more bytes than there is room, and they return an error or the
-- number of the bytes stored, which is 0 only without room.
pub socket_recv-HasReturned :
    (handle room late rounds : ℕ) (m : Modem)
    → m.at ≡ true
    → handle < length m.iface.sockets
    → IsLate m.mbed (m.mbed.millis m.trace) late
    → room + (late - length m.trace) ≤ rounds
    → HasReturned room (socket_recv rounds handle room m).0
      × HasReturned room (socket_recvfrom rounds handle room m).0
unfolding socket_recv socket_recvfrom
socket_recv-HasReturned handle room late rounds m a i l n = (
  receive_all-HasReturned stream handle room late rounds m a i l n,
  receive_all-HasReturned datagram handle room late rounds m a i l n,
)
