-- ===== src/Connection/Calls.antt =====
-- The public methods of UbloxATCellularInterface.cpp as calls that a program makes, one after the
-- other.
pub mod Discipline
mod Tests
use example_ublox_mbed_clien.Prelude.{ℕ, Bool, Option, some, List, [], ◌∷◌, ◌<◌, ℤ}
use example_ublox_mbed_clien.Act.{Act, pure, attempt, ◌>>=◌, ◌>>◌}
use example_ublox_mbed_clien.Cellular.{Modem, Security}
use example_ublox_mbed_clien.Sockets.{Protocol}
use example_ublox_mbed_clien.Sockets
use example_ublox_mbed_clien.Sockets.Send
use example_ublox_mbed_clien.Sockets.Receive
use example_ublox_mbed_clien.Connection
use example_ublox_mbed_clien.Connection.Connect
use example_ublox_mbed_clien.Connection.Others
use example_ublox_mbed_clien.Connection.Events
use example_ublox_mbed_clien.Cellular.Setup

-- One constructor for each public method, init and deinit of the base class, and a round of the
-- interface's thread, with the arguments; a PIN that is set is not null. A transfer of data has the number of
-- rounds of its loop first, where the loop ends by the clock; so have the connections.
pub data Call : Type 0 where
  socket_open : Protocol → Call
  socket_close : ℕ → Call
  socket_bind : ℕ → ℕ → Call
  socket_connect : ℕ → List ℕ → ℕ → Call
  socket_send : ℕ → List ℕ → Call
  socket_sendto : ℕ → List ℕ → ℕ → List ℕ → Call
  socket_recv socket_recvfrom : ℕ → ℕ → ℕ → Call
  socket_attach : ℕ → Option ℕ → ℕ → Call
  set_authentication : Security → Call
  set_credentials : Option (List ℕ) → Option (List ℕ) → Option (List ℕ) → Call
  gethostbyname : List ℕ → Call
  connect_with : ℕ → Option (List ℕ) → Option (List ℕ) → Option (List ℕ) → Option (List ℕ) → Call
  connect : ℕ → Call
  disconnect is_connected get_ip_address : Call
  set_sim_pin_check : Bool → Bool → Option (List ℕ) → Call
  set_new_sim_pin : Option (List ℕ) → Bool → Option (List ℕ) → Call
  set_sim_pin : List ℕ → Call
  connection_status_cb : Bool → Call
  get_netmask get_gateway : Call
  socket_listen : ℕ → ℤ → Call
  socket_accept : ℕ → Call
  setsockopt : ℕ → ℤ → ℤ → List ℕ → Call
  getsockopt : ℕ → ℤ → ℤ → Call
  init : Option (List ℕ) → Call
  deinit handle_event : Call

abbrev pub without_result : {A : Type 0} → Act Modem A → Act Modem Unit
without_result call = do call; pure tt

unfoldable pub run_call : Call → Act Modem Unit
run_call (socket_open p) = without_result (Sockets.socket_open p)
run_call (socket_close h) = without_result (Sockets.socket_close h)
run_call (socket_bind h port) = without_result (Sockets.socket_bind h port)
run_call (socket_connect h ip port) = without_result (Sockets.socket_connect h ip port)
run_call (socket_send h data_) = without_result (Send.socket_send h data_)
run_call (socket_sendto h ip port data_) = without_result (Send.socket_sendto h ip port data_)
run_call (socket_recv rounds h room) = without_result (Receive.socket_recv rounds h room)
run_call (socket_recvfrom rounds h room) = without_result (Receive.socket_recvfrom rounds h room)
run_call (socket_attach h callback argument) = Sockets.socket_attach h callback argument
run_call (set_authentication auth) = Connection.set_authentication auth
run_call (set_credentials apn uname pwd) = Connection.set_credentials apn uname pwd
run_call (gethostbyname host) = without_result (Connection.gethostbyname host)
run_call (connect_with rounds pin apn uname pwd) =
    without_result (Connect.connect_with rounds pin apn uname pwd)
run_call (connect rounds) = without_result (Connect.connect rounds)
run_call disconnect = without_result Connect.disconnect
run_call is_connected = without_result Connection.is_connected
run_call get_ip_address = without_result Connection.get_ip_address
run_call (set_sim_pin_check enable immediate pin) =
    without_result (Connect.set_sim_pin_check enable immediate pin)
run_call (set_new_sim_pin new_pin immediate old_pin) =
    without_result (Connect.set_new_sim_pin new_pin immediate old_pin)
run_call (set_sim_pin pin) = Others.set_sim_pin (some pin)
run_call (connection_status_cb cb) = Others.connection_status_cb cb
run_call get_netmask = without_result Others.get_netmask
run_call get_gateway = without_result Others.get_gateway
run_call (socket_listen h backlog) = without_result (Others.socket_listen h backlog)
run_call (socket_accept h) = without_result (Others.socket_accept h)
run_call (setsockopt h level name value) = without_result (Others.setsockopt h level name value)
run_call (getsockopt h level name) = without_result (Others.getsockopt h level name)
run_call (init pin) = without_result (Setup.init pin)
run_call deinit = Setup.deinit
run_call handle_event = Events.handle_event

unfoldable pub run_calls : List Call → Act Modem Unit
unfolding run_call
run_calls [] = pure tt
run_calls (c ∷ cs) = do attempt (run_call c); run_calls cs

-- The handles point into the table.
abbrev pub UsesTable : List Call → Type 0
UsesTable [] = Unit
UsesTable (socket_close h ∷ cs) = (h < 7) × UsesTable cs
UsesTable (socket_bind h port ∷ cs) = (h < 7) × UsesTable cs
UsesTable (socket_connect h ip port ∷ cs) = (h < 7) × UsesTable cs
UsesTable (socket_send h data_ ∷ cs) = (h < 7) × UsesTable cs
UsesTable (socket_sendto h ip port data_ ∷ cs) = (h < 7) × UsesTable cs
UsesTable (socket_recv rounds h room ∷ cs) = (h < 7) × UsesTable cs
UsesTable (socket_recvfrom rounds h room ∷ cs) = (h < 7) × UsesTable cs
UsesTable (socket_attach h callback argument ∷ cs) = (h < 7) × UsesTable cs
UsesTable (c ∷ cs) = UsesTable cs
