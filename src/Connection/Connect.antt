-- ===== src/Connection/Connect.antt =====
-- connect, disconnect and the settings of the SIM card's PIN in
-- ublox-at-cellular-interface/UbloxATCellularInterface.cpp.
use example_ublox_mbed_clien.Prelude.{
  ℕ, zero, suc, Bool, true, false, Option, none, some, List, is_some, ◌&&◌, if◌then◌else◌,
}
use example_ublox_mbed_clien.Act.{Act, pure, gets, modify, attempt, ◌>>=◌, ◌>>◌}
use example_ublox_mbed_clien.Cellular.{Modem}
use example_ublox_mbed_clien.Cellular.Setup.{init, keep_pin}
use example_ublox_mbed_clien.Cellular.Sim.{sim_pin_check_enable, change_sim_pin}
use example_ublox_mbed_clien.Cellular.Network.{nwk_registration, nwk_deregistration}
use example_ublox_mbed_clien.Sockets.{NsapiError, ok, device_error, no_connection, auth_failure}
use example_ublox_mbed_clien.Connection.{set_iface, disconnect_modem_stack}
use example_ublox_mbed_clien.Connection.Profile.{connect_modem_stack}

-- The changes that wait for a connection; true if none of them has failed.
abbrev pub check_change : Act Modem Bool
check_change = do
  i ← gets (λ m. m.iface)
  if i.check_pending
      then (do
        changed ← attempt (sim_pin_check_enable i.check_value)
        set_iface (λ i. record i { check_pending = false })
        pure (is_some changed))
      else pure true

abbrev pub pin_change : Act Modem Bool
pin_change = do
  i ← gets (λ m. m.iface)
  if i.pin_pending
      then (do
        changed ← attempt (change_sim_pin i.new_pin)
        set_iface (λ i. record i { pin_pending = false })
        pure (is_some changed))
      else pure true

-- Up to three times, with the tries left.
unfoldable pub register_loop : ℕ → Act Modem Bool
unfolding nwk_registration
register_loop zero = pure false
register_loop (suc tries) =
    let more = register_loop tries in
    do registered ← nwk_registration; if registered then pure true else more

-- The error so far, and whether the modem is registered.
unfoldable pub prepare : Act Modem (NsapiError × Bool)
unfolding init sim_pin_check_enable change_sim_pin register_loop
prepare = do
  ready ← init none
  if ready
      then (do
        check_done ← check_change
        pin_done ← pin_change
        if check_done && pin_done
            then (do registered ← register_loop 3; pure (no_connection, registered))
            else pure (auth_failure, false))
      else pure (device_error, false)

abbrev pub ok_if : NsapiError → Option Bool → Option NsapiError
ok_if e none = none
ok_if e (some true) = some ok
ok_if e (some false) = some e

-- `none` says that the rounds for the table of credentials did not suffice.
unfoldable pub connect : ℕ → Act Modem (Option NsapiError)
unfolding prepare connect_modem_stack
connect rounds = do
  (e, registered) ← prepare
  if registered
      then (do connected ← connect_modem_stack rounds; pure (ok_if e connected))
      else pure (some e)

abbrev pub keep_user : Option (List ℕ) → Option (List ℕ) → Act Modem Unit
keep_user (some uname) (some pwd) = set_iface (λ i. record i { uname = some uname; pwd = some pwd })
keep_user _ _ = set_iface (λ i. record i { uname = none; pwd = none })

abbrev pub keep_apn : Option (List ℕ) → Act Modem Unit
keep_apn none = pure tt
keep_apn (some apn) = set_iface (λ i. record i { apn = some apn })

unfoldable pub connect_with :
    ℕ
    → Option (List ℕ)
    → Option (List ℕ)
    → Option (List ℕ)
    → Option (List ℕ)
    → Act Modem (Option NsapiError)
unfolding connect
connect_with rounds sim_pin apn uname pwd = do
  modify (keep_pin sim_pin)
  keep_apn apn
  keep_user uname pwd
  connect rounds

unfoldable pub disconnect : Act Modem NsapiError
unfolding disconnect_modem_stack nwk_deregistration
disconnect = do
  gone ← attempt (do disconnect_modem_stack; nwk_deregistration)
  pure (if is_some gone then ok else device_error)

-- A change now, on a modem that is ready for it, or one that waits for `connect`.
abbrev pub change_now : Act Modem Unit → Act Modem NsapiError
change_now change = do
  ready ← init none
  if ready
      then (do changed ← attempt change; pure (if is_some changed then ok else auth_failure))
      else pure device_error

unfoldable pub set_sim_pin_check : Bool → Bool → Option (List ℕ) → Act Modem NsapiError
unfolding init sim_pin_check_enable
set_sim_pin_check enable immediate sim_pin = do
  modify (keep_pin sim_pin)
  if immediate
      then change_now (sim_pin_check_enable enable)
      else (do set_iface (λ i. record i { check_pending = true; check_value = enable }); pure ok)

unfoldable pub set_new_sim_pin : Option (List ℕ) → Bool → Option (List ℕ) → Act Modem NsapiError
unfolding init change_sim_pin
set_new_sim_pin new_pin immediate old_pin = do
  modify (keep_pin old_pin)
  if immediate
      then change_now (change_sim_pin new_pin)
      else (do set_iface (λ i. record i { pin_pending = true; new_pin = new_pin }); pure ok)
