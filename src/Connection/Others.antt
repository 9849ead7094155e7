-- ===== src/Connection/Others.antt =====
-- The methods of UbloxATCellularInterface.cpp that ask nothing of the modem, or hand on to others: the
-- setters, the unsupported socket functions, the mask and gateway, and the destructor.
use example_ublox_mbed_clien.Prelude.{ℕ, Bool, Option, none, List, ℤ}
use example_ublox_mbed_clien.Act.{Act, pure, ◌>>◌}
use example_ublox_mbed_clien.Cellular.{Modem}
use example_ublox_mbed_clien.Cellular.Setup.{delete_base}
use example_ublox_mbed_clien.Cellular.Sim.{set_pin}
use example_ublox_mbed_clien.Sockets.{NsapiError, unsupported}
use example_ublox_mbed_clien.Connection.{set_iface, get_ip_address}

unfoldable pub set_sim_pin : Option (List ℕ) → Act Modem Unit
unfolding set_pin
set_sim_pin pin = set_pin pin

-- The argument says whether the callback is not null.
unfoldable pub connection_status_cb : Bool → Act Modem Unit
connection_status_cb cb = set_iface (λ i. record i { status_cb = cb })

unfoldable pub get_netmask : Act Modem (Option (List ℕ))
get_netmask = pure none

unfoldable pub get_gateway : Act Modem (Option (List ℕ))
unfolding get_ip_address
get_gateway = get_ip_address

-- TCP servers and socket options; the arguments are not looked at.
unfoldable pub socket_listen : ℕ → ℤ → Act Modem NsapiError
socket_listen handle backlog = pure unsupported

unfoldable pub socket_accept : ℕ → Act Modem NsapiError
socket_accept server = pure unsupported

unfoldable pub setsockopt : ℕ → ℤ → ℤ → List ℕ → Act Modem NsapiError
setsockopt handle level optname optval = pure unsupported

unfoldable pub getsockopt : ℕ → ℤ → ℤ → Act Modem NsapiError
getsockopt handle level optname = pure unsupported

-- The destructor, and that of the base class.
unfoldable pub delete_interface : Act Modem Unit
unfolding delete_base
delete_interface = do set_iface (λ i. record i { ip = none }); delete_base
