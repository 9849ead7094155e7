-- ===== src/Sockets/Tests.antt =====
-- The theorems about the sockets of UbloxATCellularInterface.cpp at concrete inputs.
use example_ublox_mbed_clien.Prelude.{◌≡◌, refl, some, none, List, [], ◌∷◌, pos, arith, codes}
use example_ublox_mbed_clien.Act.Safe.{IsDefined}
use example_ublox_mbed_clien.Cellular.{Modem, SockCtrl}
use example_ublox_mbed_clien.Cellular.Samples.{unused, modem_saying}
use example_ublox_mbed_clien.Cellular.Table.{find_socket}
use example_ublox_mbed_clien.Cellular.Table.Laws.{IsFirst, find_socket-IsFirst}
use example_ublox_mbed_clien.Sockets.{modem_handle_of, socket_bind, socket_open, tcp}
use example_ublox_mbed_clien.Sockets.Open.{HasOpened, socket_open-HasOpened}
use example_ublox_mbed_clien.Sockets.Handles.{IsOrUnused, socket_bind-handle}
use example_ublox_mbed_clien.Sockets.Send.{socket_send, socket_sendto}
use example_ublox_mbed_clien.Sockets.Send.Sent.{SentBy, socket_send-SentBy}
use example_ublox_mbed_clien.Sockets.Receive.{socket_recv, socket_recvfrom}
use example_ublox_mbed_clien.Sockets.Receive.Returns.{HasReturned, socket_recv-HasReturned}

abbrev plain_modem : Modem
plain_modem = modem_saying (codes "10.0.0.1") []

-- a table whose second socket has the handle 3
abbrev two_sockets : List SockCtrl
two_sockets =
    unused ∷ record { modem_handle = pos 3; pending = 7; callback = none; argument = 0 } ∷ []

find_socket-IsFirst_example : IsFirst (pos 3) two_sockets (find_socket (pos 3) two_sockets)
find_socket-IsFirst_example = find_socket-IsFirst (pos 3) two_sockets

find_socket_runs : find_socket (pos 3) two_sockets ≡ some 1
unfolding find_socket
find_socket_runs = refl

socket_bind-handle_example :
    IsDefined (socket_bind 2 5683 plain_modem).0
    × IsOrUnused
        (modem_handle_of 2 plain_modem)
        (modem_handle_of 2 (socket_bind 2 5683 plain_modem).1)
socket_bind-handle_example = socket_bind-handle 2 5683 plain_modem (omega arith)

socket_send-SentBy_example :
    SentBy (codes "coap") plain_modem (socket_send 0 (codes "coap") plain_modem)
    × SentBy
        (codes "coap")
        plain_modem
        (socket_sendto 0 (codes "10.0.0.1") 5683 (codes "coap") plain_modem)
socket_send-SentBy_example =
    socket_send-SentBy 0 5683 (codes "10.0.0.1") (codes "coap") plain_modem (omega arith)

-- The clock of this modem is a second past its start after ten events.
socket_recv-HasReturned_example :
    HasReturned 16 (socket_recv 26 0 16 plain_modem).0
    × HasReturned 16 (socket_recvfrom 26 0 16 plain_modem).0
socket_recv-HasReturned_example =
    socket_recv-HasReturned 0 16 10 26 plain_modem refl (omega arith) (λ t l. omega (arith, l))
      (omega arith)

socket_open-HasOpened_example : HasOpened plain_modem (socket_open tcp plain_modem)
socket_open-HasOpened_example = socket_open-HasOpened tcp plain_modem
