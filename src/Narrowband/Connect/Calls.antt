-- ===== src/Narrowband/Connect/Calls.antt =====
-- The public methods of UbloxATCellularInterfaceN2xx.cpp as calls that a program makes, one after the
-- other.
use example_ublox_mbed_clien.Prelude.{ℕ, ◌<◌, Bool, Option, List, [], ◌∷◌, ℤ}
use example_ublox_mbed_clien.Act.{Act, pure, attempt, ◌>>◌}
use example_ublox_mbed_clien.Cellular.{Modem}
use example_ublox_mbed_clien.Sockets.{Protocol}
use example_ublox_mbed_clien.Narrowband.Datagrams
use example_ublox_mbed_clien.Narrowband.Connect
use example_ublox_mbed_clien.Narrowband.Others

-- The public methods, the transfers of data left aside, and a round of the thread.
pub data Call : Type 0 where
  socket_open : Protocol → Call
  socket_close : ℕ → Call
  gethostbyname : List ℕ → Call
  connect_with : Option (List ℕ) → Option (List ℕ) → Option (List ℕ) → Option (List ℕ) → Call
  connect disconnect is_connected get_ip_address : Call
  get_netmask get_gateway handle_event : Call
  set_local_listen_port : ℤ → Call
  connection_status_cb : Bool → Call
  socket_bind socket_connect socket_accept : ℕ → Call
  socket_send : ℕ → List ℕ → Call
  socket_recv : ℕ → ℕ → Call
  socket_listen : ℕ → ℤ → Call
  setsockopt : ℕ → ℤ → ℤ → List ℕ → Call
  getsockopt : ℕ → ℤ → ℤ → Call
  set_sim_pin_check : Bool → Bool → Option (List ℕ) → Call
  set_new_sim_pin : Option (List ℕ) → Bool → Option (List ℕ) → Call

abbrev pub without_result : {A : Type 0} → Act Modem A → Act Modem Unit
without_result call = do call; pure tt

unfoldable pub run_call : Call → Act Modem Unit
run_call (socket_open p) = without_result (Datagrams.socket_open p)
run_call (socket_close h) = without_result (Datagrams.socket_close h)
run_call (gethostbyname host) = without_result (Connect.gethostbyname host)
run_call (connect_with pin apn uname pwd) = without_result (Connect.connect_with pin apn uname pwd)
run_call connect = without_result Connect.connect
run_call disconnect = without_result Connect.disconnect
run_call is_connected = without_result Connect.is_connected
run_call get_ip_address = without_result Connect.get_ip_address
run_call get_netmask = without_result Others.get_n2xx_netmask
run_call get_gateway = without_result Others.get_n2xx_gateway
run_call handle_event = Others.handle_n2xx_event
run_call (set_local_listen_port port) = Others.set_local_listen_port port
run_call (connection_status_cb cb) = Others.n2xx_connection_status_cb cb
run_call (socket_bind h) = without_result (Others.n2xx_socket_bind h)
run_call (socket_connect h) = without_result (Others.n2xx_socket_connect h)
run_call (socket_accept h) = without_result (Others.n2xx_socket_accept h)
run_call (socket_send h buf) = without_result (Others.n2xx_socket_send h buf)
run_call (socket_recv h room) = without_result (Others.n2xx_socket_recv h room)
run_call (socket_listen h backlog) = without_result (Others.n2xx_socket_listen h backlog)
run_call (setsockopt h level name value) =
    without_result (Others.n2xx_setsockopt h level name value)
run_call (getsockopt h level name) = without_result (Others.n2xx_getsockopt h level name)
run_call (set_sim_pin_check set immediate pin) =
    without_result (Others.set_n2xx_sim_pin_check set immediate pin)
run_call (set_new_sim_pin new_pin immediate pin) =
    without_result (Others.set_new_n2xx_sim_pin new_pin immediate pin)

unfoldable pub run_n2xx_calls : List Call → Act Modem Unit
unfolding run_call
run_n2xx_calls [] = pure tt
run_n2xx_calls (c ∷ cs) = do attempt (run_call c); run_n2xx_calls cs

-- The handle points into the table.
abbrev pub UsesTable : Call → Type 0
UsesTable (socket_close h) = h < 7
UsesTable c = Unit

abbrev pub AllUseTable : List Call → Type 0
AllUseTable [] = Unit
AllUseTable (c ∷ cs) = UsesTable c × AllUseTable cs
