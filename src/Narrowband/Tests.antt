-- ===== src/Narrowband/Tests.antt =====
-- The theorems about the drivers of the SARA-N2xx modems at concrete inputs.
use example_ublox_mbed_clien.Prelude.{◌≡◌, refl, List, [], ◌∷◌, pos, codes, arith, ltb, true, false}
use example_ublox_mbed_clien.Act.{done, ◌>>=◌, attempt}
use example_ublox_mbed_clien.Cellular.{Modem, SockCtrl}
use example_ublox_mbed_clien.Cellular.Samples.{unused, plain_interface, plain_mbed, modem_saying}
use example_ublox_mbed_clien.Cellular.Discipline.{Steady}
use example_ublox_mbed_clien.Cellular.Callbacks.{handle_urcs}
use example_ublox_mbed_clien.Cellular.Parser
use example_ublox_mbed_clien.Cellular.Parser.{emit, assert_at, recv_text, with_lock}
use example_ublox_mbed_clien.Narrowband.{get_csq, at_req_text, fits}
use example_ublox_mbed_clien.Narrowband.Discipline.{get_csq-held}
use example_ublox_mbed_clien.Narrowband.Hex.{bin_to_hex, hex_to_bin}
use example_ublox_mbed_clien.Narrowband.Hex.RoundTrip.{hex_to_bin-bin_to_hex}
use example_ublox_mbed_clien.Narrowband.Datagrams.{socket_sendto}
use example_ublox_mbed_clien.Narrowband.Datagrams.Rounds.{HasAnswered, socket_sendto-HasAnswered}
use example_ublox_mbed_clien.Sockets.{udp, no_memory, socket_at}
use example_ublox_mbed_clien.Cellular.Table.{get_socket}
use example_ublox_mbed_clien.Narrowband.Packets.{give_up, receive_round}
use example_ublox_mbed_clien.Narrowband.Packets.Memory.{receive_round-no_memory}
use example_ublox_mbed_clien.Narrowband.Connect.Calls.{
  Call, connect, socket_open, get_ip_address, socket_close, disconnect,
}

abbrev plain_modem : Modem
plain_modem = modem_saying (codes "20,99") []

hex_to_bin-bin_to_hex_example :
    hex_to_bin (bin_to_hex (0 ∷ 171 ∷ 255 ∷ [])) 4
    ≡ record { stored = 0 ∷ 171 ∷ 255 ∷ []; result = pos 3 }
hex_to_bin-bin_to_hex_example =
    hex_to_bin-bin_to_hex (0 ∷ 171 ∷ 255 ∷ []) 4 (omega arith, (omega arith, (omega arith, tt)))
      (omega arith) (omega arith)

get_csq_runs : (get_csq plain_modem).0 ≡ done (pos 20)
unfolding get_csq at_req_text fits with_lock emit assert_at Parser.send Parser.recv recv_text
    handle_urcs ◌>>=◌ attempt
get_csq_runs = refl

get_csq-held_example : Steady 8000 1 (get_csq plain_modem).1
get_csq-held_example =
    get_csq-held 8000 0 plain_modem (pos 20)
      (record {
        parser = refl;
        timeout = refl;
        pinned = refl;
        unused = refl;
        table = refl;
        guarded = tt;
        depth = refl;
      })
      get_csq_runs

-- a connection, a socket and the end of both
abbrev session : List Call
session = connect ∷ socket_open udp ∷ get_ip_address ∷ socket_close 0 ∷ disconnect ∷ []

-- Five bytes are pending, and there is no memory.
abbrev poor_modem : Modem
poor_modem = record plain_modem {
  mbed = record plain_mbed { has_memory = λ _. false };
  iface = record plain_interface {
    sockets =
        record unused { modem_handle = pos 0; pending = 5 }
        ∷ unused
        ∷ unused
        ∷ unused
        ∷ unused
        ∷ unused
        ∷ unused
        ∷ [];
  };
}

five_pending : ltb 0 (SockCtrl.pending (socket_at 0 poor_modem)) ≡ true
unfolding get_socket
five_pending = refl

receive_round-no_memory_example :
    ((receive_round 0 8000 0 16 poor_modem).0 ≡ done (give_up no_memory))
    × Steady 1000 1 (receive_round 0 8000 0 16 poor_modem).1
receive_round-no_memory_example =
    receive_round-no_memory 8000 0 0 8000 0 16 poor_modem
      (record {
        parser = refl;
        timeout = refl;
        pinned = refl;
        unused = refl;
        table = refl;
        guarded = tt;
        depth = refl;
      })
      (λ l. refl) five_pending

-- A modem that sends one byte of each datagram.
abbrev slow_modem : Modem
slow_modem = record plain_modem { mbed = record plain_mbed { second = λ t. pos 1 } }

socket_sendto-HasAnswered_example :
    HasAnswered 3 (socket_sendto 3 0 (codes "10.0.0.1") 5683 (1 ∷ 2 ∷ 3 ∷ []) slow_modem).0
socket_sendto-HasAnswered_example =
    socket_sendto-HasAnswered 3 0 5683 (codes "10.0.0.1") (1 ∷ 2 ∷ 3 ∷ []) slow_modem (omega arith)
      (λ f t h. (omega arith, omega (arith, h))) (omega arith)
