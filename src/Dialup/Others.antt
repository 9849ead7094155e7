-- ===== src/Dialup/Others.antt =====
-- The rest of ublox-ppp-cellular-interface/UbloxPPPCellularInterface.cpp: the constructor and destructor,
-- the setters, and the settings of the SIM card's PIN, whose text is that of the AT interface.
use example_ublox_mbed_clien.Prelude.{ℕ, Bool, false, Option, none, List, if◌then◌else◌}
use example_ublox_mbed_clien.Act.{Act, pure, gets, ◌>>=◌, ◌>>◌}
use example_ublox_mbed_clien.Cellular.{Modem}
use example_ublox_mbed_clien.Cellular.Power.{new_modem, base_class_init}
use example_ublox_mbed_clien.Cellular.Setup.{delete_base}
use example_ublox_mbed_clien.Cellular.Sim.{set_pin}
use example_ublox_mbed_clien.Sockets.{NsapiError}
use example_ublox_mbed_clien.Connection.{set_iface}
use example_ublox_mbed_clien.Connection.Connect
use example_ublox_mbed_clien.Dialup.{disconnect}

-- The constructor with its base class's; the members of the other classes are left as they are.
unfoldable pub new_dialup_interface : ℕ → Modem → Modem
unfolding new_modem base_class_init
new_dialup_interface baud m =
    let m' = new_modem m in
    base_class_init baud (record m' {
      iface = record m'.iface {
        apn = none;
        uname = none;
        pwd = none;
        check_pending = false;
        check_value = false;
        pin_pending = false;
        new_pin = none;
        ppp_up = false;
        status_cb = false;
      };
    })

-- The destructor, and that of the base class.
unfoldable pub delete_dialup_interface : Act Modem Unit
unfolding disconnect delete_base
delete_dialup_interface = do
  up ← gets (λ m. m.iface.ppp_up)
  if up then (do disconnect; pure tt) else pure tt
  delete_base

unfoldable pub set_dialup_credentials :
    Option (List ℕ) → Option (List ℕ) → Option (List ℕ) → Act Modem Unit
set_dialup_credentials apn uname pwd =
    set_iface (λ i. record i { apn = apn; uname = uname; pwd = pwd })

unfoldable pub set_dialup_sim_pin : Option (List ℕ) → Act Modem Unit
unfolding set_pin
set_dialup_sim_pin pin = set_pin pin

unfoldable pub set_dialup_sim_pin_check : Bool → Bool → Option (List ℕ) → Act Modem NsapiError
unfolding Connect.set_sim_pin_check
set_dialup_sim_pin_check set immediate sim_pin = Connect.set_sim_pin_check set immediate sim_pin

unfoldable pub set_new_dialup_sim_pin :
    Option (List ℕ) → Bool → Option (List ℕ) → Act Modem NsapiError
unfolding Connect.set_new_sim_pin
set_new_dialup_sim_pin new_pin immediate old_pin = Connect.set_new_sim_pin new_pin immediate old_pin

unfoldable pub is_dialup_connected : Act Modem Bool
is_dialup_connected = gets (λ m. m.iface.ppp_up)

unfoldable pub dialup_status_cb : Bool → Act Modem Unit
dialup_status_cb cb = set_iface (λ i. record i { status_cb = cb })
