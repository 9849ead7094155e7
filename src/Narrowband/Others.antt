-- ===== src/Narrowband/Others.antt =====
-- What the drivers of the SARA-N2xx modems leave undone or hand on: the functions of
-- ublox-cellular-base-n2xx/UbloxCellularBaseN2xx.cpp that return at once, its constructor and destructor,
-- and, of ublox-at-cellular-interface-n2xx/UbloxATCellularInterfaceN2xx.cpp, the constructor, the
-- setters, the unsupported functions and a round of the thread.
use Prim.Native.String.{String}
use example_ublox_mbed_clien.Prelude.{ℕ, Bool, false, Option, none, List, [], ℤ, pos, codes}
use example_ublox_mbed_clien.Act.{Act, pure, fail, gets, modify, attempt, ◌>>=◌, ◌>>◌}
use example_ublox_mbed_clien.Cellular.{Modem, DeviceType}
use example_ublox_mbed_clien.Cellular.Power.{new_modem}
use example_ublox_mbed_clien.Cellular.Network.{unnatural_string}
use example_ublox_mbed_clien.Cellular.Parser.{command, recv, with_lock, at_set_timeout}
use example_ublox_mbed_clien.Sockets.{NsapiError, unsupported, SizeOrError, failure}
use example_ublox_mbed_clien.Connection.{set_iface}
use example_ublox_mbed_clien.Connection.Events.{clear_interface}
use example_ublox_mbed_clien.Narrowband.{nconfig}
use example_ublox_mbed_clien.Narrowband.Power.{base_class_init, deinit}
use example_ublox_mbed_clien.Narrowband.Connect.{get_ip_address}

unfoldable pub auto_connect : Bool → Act Modem Unit
unfolding nconfig
auto_connect state = nconfig (codes "AUTOCONNECT") state

-- Not implemented: the code behind the first return is never run.
unfoldable pub get_n2xx_meid : Act Modem Unit
get_n2xx_meid = fail

unfoldable pub set_n2xx_sms : Act Modem Unit
set_n2xx_sms = fail

unfoldable pub n2xx_sim_pin_check_enable : Bool → Act Modem Unit
n2xx_sim_pin_check_enable enable = fail

unfoldable pub change_n2xx_sim_pin : Option (List ℕ) → Act Modem Unit
change_n2xx_sim_pin pin = fail

-- There is nothing to do.
unfoldable pub n2xx_device_init : DeviceType → Act Modem Unit
n2xx_device_init dev = pure tt

unfoldable pub initialise_n2xx_sim_card : Act Modem Unit
initialise_n2xx_sim_card = pure tt

unfoldable pub set_n2xx_pin : Option (List ℕ) → Act Modem Unit
set_n2xx_pin pin = modify (λ m. record m { pin = pin })

-- The destructor, which deletes the parser too.
unfoldable pub delete_n2xx_base : Act Modem Unit
unfolding deinit
delete_n2xx_base = do deinit; modify (λ m. record m { at = false })

-- The constructor of the interface with its base class's, whose members are those of the other driver.
unfoldable pub new_n2xx_interface : ℕ → Modem → Modem
unfolding new_modem base_class_init
new_n2xx_interface baud m =
    let m' = new_modem m in
    base_class_init baud
      (record m' { iface = record (clear_interface m'.iface) { listen_port = pos 10000 } })

-- The destructor, and that of the base class.
unfoldable pub delete_n2xx_interface : Act Modem Unit
unfolding delete_n2xx_base
delete_n2xx_interface = do set_iface (λ i. record i { ip = none }); delete_n2xx_base

-- SendAT, for the class's own use: it takes no lock.
unfoldable pub send_at : String → Act Modem Unit
send_at cmd = command cmd []

-- What the thread does when there is something to read: the callbacks run in the receive.
unfoldable pub handle_n2xx_event : Act Modem Unit
unfolding with_lock at_set_timeout recv
handle_n2xx_event = with_lock (do
  at_timeout ← gets (λ m. m.at_timeout)
  at_set_timeout 10
  attempt (recv unnatural_string)
  at_set_timeout at_timeout)

-- Not for datagrams. The arguments are not looked at.
unfoldable pub n2xx_socket_bind : ℕ → Act Modem NsapiError
n2xx_socket_bind handle = pure unsupported

unfoldable pub n2xx_socket_connect : ℕ → Act Modem NsapiError
n2xx_socket_connect handle = pure unsupported

unfoldable pub n2xx_socket_send : ℕ → List ℕ → Act Modem SizeOrError
n2xx_socket_send handle buf = pure (failure unsupported)

unfoldable pub n2xx_socket_recv : ℕ → ℕ → Act Modem SizeOrError
n2xx_socket_recv handle room = pure (failure unsupported)

unfoldable pub n2xx_socket_listen : ℕ → ℤ → Act Modem NsapiError
n2xx_socket_listen handle backlog = pure unsupported

unfoldable pub n2xx_socket_accept : ℕ → Act Modem NsapiError
n2xx_socket_accept server = pure unsupported

unfoldable pub n2xx_setsockopt : ℕ → ℤ → ℤ → List ℕ → Act Modem NsapiError
n2xx_setsockopt handle level optname optval = pure unsupported

unfoldable pub n2xx_getsockopt : ℕ → ℤ → ℤ → Act Modem NsapiError
n2xx_getsockopt handle level optname = pure unsupported

unfoldable pub set_n2xx_sim_pin_check : Bool → Bool → Option (List ℕ) → Act Modem NsapiError
set_n2xx_sim_pin_check set immediate sim_pin = pure unsupported

unfoldable pub set_new_n2xx_sim_pin :
    Option (List ℕ) → Bool → Option (List ℕ) → Act Modem NsapiError
set_new_n2xx_sim_pin new_pin immediate old_pin = pure unsupported

unfoldable pub set_local_listen_port : ℤ → Act Modem Unit
set_local_listen_port port = set_iface (λ i. record i { listen_port = port })

unfoldable pub n2xx_connection_status_cb : Bool → Act Modem Unit
n2xx_connection_status_cb cb = set_iface (λ i. record i { status_cb = cb })

unfoldable pub get_n2xx_netmask : Act Modem (Option (List ℕ))
get_n2xx_netmask = pure none

unfoldable pub get_n2xx_gateway : Act Modem (Option (List ℕ))
unfolding get_ip_address
get_n2xx_gateway = get_ip_address
