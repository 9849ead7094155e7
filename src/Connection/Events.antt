-- ===== src/Connection/Events.antt =====
-- The constructor of UbloxATCellularInterface.cpp, and a round of its thread handle_event.
use example_ublox_mbed_clien.Prelude.{ℕ, false, none, [], ◌∷◌, negsuc}
use example_ublox_mbed_clien.Act.{Act, gets, attempt, ◌>>=◌, ◌>>◌}
use example_ublox_mbed_clien.Cellular.{Modem, SockCtrl, Interface, unknown}
use example_ublox_mbed_clien.Cellular.Power.{new_modem, base_class_init}
use example_ublox_mbed_clien.Cellular.Network.{unnatural_string}
use example_ublox_mbed_clien.Cellular.Parser.{recv, with_lock, at_set_timeout}

abbrev no_socket : SockCtrl
no_socket = record { modem_handle = negsuc 0; pending = 0; callback = none; argument = 0 }

-- The members that the constructor sets; those of the other classes are left as they are.
abbrev pub clear_interface : Interface → Interface
clear_interface i = record i {
  check_pending = false;
  check_value = false;
  pin_pending = false;
  new_pin = none;
  apn = none;
  uname = none;
  pwd = none;
  status_cb = false;
  sockets = no_socket ∷ no_socket ∷ no_socket ∷ no_socket ∷ no_socket ∷ no_socket ∷ no_socket ∷ [];
  auth = unknown;
  ip = none;
}

-- The constructor with its base class's, at a baud rate.
unfoldable pub new_interface : ℕ → Modem → Modem
unfolding new_modem base_class_init
new_interface baud m =
    let m' = new_modem m in base_class_init baud (record m' { iface = clear_interface m'.iface })

-- What the thread does when there is something to read: the callbacks run in the receive.
unfoldable pub handle_event : Act Modem Unit
unfolding with_lock at_set_timeout recv
handle_event = with_lock (do
  at_timeout ← gets (λ m. m.at_timeout)
  at_set_timeout 10
  attempt (recv unnatural_string)
  at_set_timeout at_timeout)
