-- ===== src/Narrowband/Packets/Memory.antt =====
-- A receive of UbloxATCellularInterfaceN2xx.cpp for which there is no memory.
use example_ublox_mbed_clien.Prelude.{ℕ, suc, ◌≡◌, refl, true, false, List, arith, ltb}
use example_ublox_mbed_clien.Act.{done, ◌>>=◌, attempt}
use example_ublox_mbed_clien.Cellular.{Modem, Event, SockCtrl}
use example_ublox_mbed_clien.Cellular.Discipline.{Steady}
use example_ublox_mbed_clien.Cellular.Parser.{emit, assert_at, at_set_timeout}
use example_ublox_mbed_clien.Sockets.{no_memory, socket_at}
use example_ublox_mbed_clien.Narrowband.Datagrams.{allocate}
use example_ublox_mbed_clien.Narrowband.Packets.{give_up, receive_round}

-- For every modem with pending bytes for the socket and without memory, whatever the room and the
-- timeout to go back to: a round of socket_recvfrom ends with NSAPI_ERROR_NO_MEMORY, with the mutex
-- held once more than before, and with the parser's timeout at a second.
pub receive_round-no_memory :
    (t n socket at_timeout start room : ℕ) (m : Modem)
    → Steady t n m
    → ((l : List Event) → m.mbed.has_memory l ≡ false)
    → ltb 0 (SockCtrl.pending (socket_at socket m)) ≡ true
    → ((receive_round socket at_timeout start room m).0 ≡ done (give_up no_memory))
      × Steady 1000 (suc n) (receive_round socket at_timeout start room m).1
unfolding receive_round emit at_set_timeout assert_at allocate ◌>>=◌ attempt
receive_round-no_memory t n socket at_timeout start room m h none_left p =
    rw (h.parser, p, none_left _) (refl, ground (arith, h))
