-- ===== src/Connection/Calls/Tests.antt =====
-- The theorems about the calls of UbloxATCellularInterface.cpp at concrete calls.
use example_ublox_mbed_clien.Prelude.{◌≡◌, refl, List, [], ◌∷◌, codes, arith}
use example_ublox_mbed_clien.Act.Safe.{IsDefined}
use example_ublox_mbed_clien.Cellular.{Modem}
use example_ublox_mbed_clien.Cellular.Samples.{modem_saying}
use example_ublox_mbed_clien.Cellular.Discipline.{Steady}
use example_ublox_mbed_clien.Sockets.{udp}
use example_ublox_mbed_clien.Connection.{gethostbyname, get_ip_address}
use example_ublox_mbed_clien.Connection.Addresses.{IsAddress, IsOwn, Returns, gethostbyname-Returns}
use example_ublox_mbed_clien.Connection.Calls.{
  Call, connect, socket_open, socket_sendto, socket_recvfrom, socket_close, disconnect,
  handle_event, run_calls,
}
use example_ublox_mbed_clien.Connection.Calls.Discipline.{run_calls-Steady}

abbrev plain_modem : Modem
plain_modem = modem_saying (codes "10.0.0.1") []

-- a connection, an exchange of datagrams, and the end of it
abbrev exchange : List Call
exchange =
    connect 1
    ∷ socket_open udp
    ∷ socket_sendto 0 (codes "10.0.0.1") 5683 (codes "coap")
    ∷ handle_event
    ∷ socket_recvfrom 26 0 16
    ∷ socket_close 0
    ∷ disconnect
    ∷ []

run_calls-Steady_example :
    IsDefined (run_calls exchange plain_modem).0 × Steady 8000 0 (run_calls exchange plain_modem).1
run_calls-Steady_example =
    run_calls-Steady 8000 exchange plain_modem (omega arith, (omega arith, (omega arith, tt)))
      (record {
        parser = refl;
        timeout = refl;
        pinned = refl;
        unused = refl;
        table = refl;
        guarded = tt;
        depth = refl;
      })

gethostbyname-Returns_example :
    Returns
      (λ o _. IsAddress plain_modem.mbed o)
      (gethostbyname (codes "api.connector.mbed.com") plain_modem)
    × Returns (λ o s. IsOwn plain_modem.mbed o × (s.iface.ip ≡ o)) (get_ip_address plain_modem)
gethostbyname-Returns_example =
    gethostbyname-Returns (codes "api.connector.mbed.com") plain_modem refl
