-- ===== src/Narrowband/Connect.antt =====
-- connect, disconnect and the address in
-- ublox-at-cellular-interface-n2xx/UbloxATCellularInterfaceN2xx.cpp.
pub mod Calls
pub mod Discipline
use example_ublox_mbed_clien.Prelude.{
  ℕ, zero, suc, Bool, true, false, not, Option, none, some, List, [], is_some, if◌then◌else◌,
}
use example_ublox_mbed_clien.Act.{Act, pure, gets, modify, guard, attempt, ◌>>=◌, ◌>>◌}
use example_ublox_mbed_clien.Cellular.{Modem}
use example_ublox_mbed_clien.Cellular.Parser.{emit, send, recv, recv_address, with_lock}
use example_ublox_mbed_clien.Cellular.Setup.{keep_pin}
use example_ublox_mbed_clien.Sockets.{
  NsapiError, ok, device_error, no_connection, unsupported, SizeOrError,
}
use example_ublox_mbed_clien.Connection.{set_iface, allocate_ip, report_disconnect}
use example_ublox_mbed_clien.Connection.Connect.{keep_user, keep_apn}
use example_ublox_mbed_clien.Narrowband.Power
use example_ublox_mbed_clien.Narrowband.Power.{init, nwk_registration, nwk_deregistration}

-- A host has to be an address: there is no query for a name.
unfoldable pub gethostbyname : List ℕ → Act Modem (NsapiError × Option (List ℕ))
gethostbyname host = do
  m ← gets (λ m. m)
  pure (if m.mbed.is_address host then (ok, some host) else (unsupported, none))

-- Up to three times, with the tries left.
unfoldable pub register_loop : ℕ → Act Modem Bool
unfolding nwk_registration
register_loop zero = pure false
register_loop (suc tries) =
    let more = register_loop tries in
    do registered ← nwk_registration; if registered then pure true else more

-- The modem connects by itself when it is registered.
unfoldable pub connect : Act Modem NsapiError
unfolding init register_loop
connect = do
  ready ← init none
  if ready
      then (do registered ← register_loop 3; pure (if registered then ok else no_connection))
      else pure device_error

unfoldable pub connect_with :
    Option (List ℕ) → Option (List ℕ) → Option (List ℕ) → Option (List ℕ) → Act Modem NsapiError
unfolding connect
connect_with sim_pin apn uname pwd = do
  modify (keep_pin sim_pin)
  keep_apn apn
  keep_user uname pwd
  connect

abbrev pub end_connection : Bool → Act Modem NsapiError
end_connection false = pure device_error
end_connection true = do report_disconnect; pure ok

unfoldable pub disconnect : Act Modem NsapiError
unfolding nwk_deregistration emit
disconnect = do gone ← attempt nwk_deregistration; end_connection (is_some gone)

-- The first address of the list
abbrev pub ask_address : Act Modem (List ℕ)
ask_address = do
  send "AT+CGPADDR" []
  scanned ← recv_address 15 "+CGPADDR:%d,%15[^\n]\n"
  recv "OK"
  m ← gets (λ m. m)
  guard (m.mbed.is_address scanned.0)
  guard (not (m.mbed.is_zero_address scanned.0))
  pure scanned.0

unfoldable pub get_ip_address : Act Modem (Option (List ℕ))
unfolding with_lock emit
get_ip_address = with_lock (do
  before ← gets (λ m. m.iface.ip)
  ip ← attempt (do allocate_ip before; ask_address)
  set_iface (λ i. record i { ip = ip })
  pure ip)

unfoldable pub is_connected : Act Modem Bool
unfolding get_ip_address
is_connected = do ip ← get_ip_address; pure (is_some ip)
