-- ===== src/Dialup.antt =====
-- The dial-up interface, ublox-ppp-cellular-interface/UbloxPPPCellularInterface.cpp. The PPP stack
-- below it is a function of the trace.
pub mod Ok
pub mod Others
mod Tests
use example_ublox_mbed_clien.Prelude.{
  ℕ, zero, suc, Bool, true, false, not, ◌&&◌, Option, none, some, List, [], ◌∷◌, ◌++◌, ℤ, pos,
  ◌==ℤ◌, codes, is_some, if◌then◌else◌,
}
use example_ublox_mbed_clien.Act.{Act, pure, gets, modify, attempt, ◌>>=◌, ◌>>◌}
use example_ublox_mbed_clien.Cellular.{Modem, text, wait_ms, ppp_connect, ppp_disconnect}
use example_ublox_mbed_clien.Cellular.Parser.{emit, send, recv, command, with_lock}
use example_ublox_mbed_clien.Cellular.Setup.{init, keep_pin}
use example_ublox_mbed_clien.Cellular.Network.{nwk_registration, nwk_deregistration}
use example_ublox_mbed_clien.Sockets.{
  NsapiError, ok, device_error, no_connection, auth_failure, parameter_error, is_connected_already,
  raw_error,
}
use example_ublox_mbed_clien.Connection.{set_iface}
use example_ublox_mbed_clien.Connection.Profile.{get_next_credentials, is_more, table_of}
use example_ublox_mbed_clien.Connection.Connect.{
  check_change, pin_change, register_loop, keep_user, keep_apn,
}

-- The APN, with a prefix if there are a user and a password. Without an APN nothing is asked.
abbrev prefix_of : Option (List ℕ) → Option (List ℕ) → List ℕ
prefix_of uname pwd = if is_some uname && is_some pwd then codes "CHAP:" else []

abbrev send_context : List ℕ → Option (List ℕ) → Act Modem NsapiError
send_context prefix none = pure parameter_error
send_context prefix (some apn) = do
  set ←
      attempt
        (command "AT+CGDCONT=1,\"%s\",\"%s%s\"" (text (codes "IP") ∷ text prefix ∷ text apn ∷ []))
  if is_some set then (do emit (wait_ms 100); pure ok) else pure parameter_error

unfoldable pub setup_context_and_credentials : Act Modem NsapiError
unfolding with_lock emit
setup_context_and_credentials = do
  i ← gets (λ m. m.iface)
  with_lock (send_context (prefix_of i.uname i.pwd) i.apn)

unfoldable pub set_atd : Act Modem Unit
unfolding with_lock
set_atd = with_lock (do send "ATD*99***1#" []; recv "CONNECT")

abbrev set_up : Bool → Act Modem Unit
set_up up = set_iface (λ i. record i { ppp_up = up })

-- The PPP connection, in data mode; if it fails the modem is forced back to command mode, without
-- the mutex.
abbrev pub start_ppp : Act Modem NsapiError
start_ppp = do
  emit (wait_ms 1000)
  emit ppp_connect
  result ← gets (λ m. m.mbed.ppp_result m.trace)
  set_up (result ==ℤ pos 0)
  if result ==ℤ pos 0
      then pure ok
      else (do attempt (send "~+++" []); attempt (recv "NO CARRIER"); pure (raw_error result))

-- One try. When data mode is not entered, the error is still that of the credentials.
abbrev pub dial_if : NsapiError → Act Modem NsapiError
dial_if ok = do entered ← attempt set_atd; if is_some entered then start_ppp else pure ok
dial_if e = pure e

unfoldable pub dial : Act Modem NsapiError
unfolding setup_context_and_credentials set_atd emit
dial = do e ← setup_context_and_credentials; dial_if e

-- The loop over the table of access points; `none` says that the rounds did not suffice.
unfoldable pub dial_loop : ℕ → Option ℕ → Act Modem (Option NsapiError)
unfolding get_next_credentials dial
dial_loop zero config = pure none
dial_loop (suc rounds) config =
    let again = dial_loop rounds in
    do
      config ← get_next_credentials config
      e ← dial
      up ← gets (λ m. m.iface.ppp_up)
      more ← gets (is_more config)
      if not up && more then again config else pure (some e)

-- The error so far, and whether the modem is registered.
unfoldable pub prepare : Act Modem (NsapiError × Bool)
unfolding init register_loop
prepare = do
  ready ← init none
  if ready
      then (do
        check_done ← check_change
        pin_done ← pin_change
        if check_done && pin_done
            then (do registered ← register_loop 3; pure (no_connection, registered))
            else pure (auth_failure, false))
      else pure (device_error, false)

unfoldable pub connect : ℕ → Act Modem (Option NsapiError)
unfolding prepare dial_loop
connect rounds = do
  up ← gets (λ m. m.iface.ppp_up)
  if up then pure (some is_connected_already) else (do
    (e, registered) ← prepare
    if registered then (do config ← gets table_of; dial_loop rounds config) else pure (some e))

unfoldable pub connect_with :
    ℕ
    → Option (List ℕ)
    → Option (List ℕ)
    → Option (List ℕ)
    → Option (List ℕ)
    → Act Modem (Option NsapiError)
unfolding connect
connect_with rounds sim_pin apn uname pwd = do
  modify (keep_pin sim_pin)
  keep_apn apn
  keep_user uname pwd
  connect rounds

-- The parser is used without the mutex here, too.
abbrev leave_network : Act Modem NsapiError
leave_network = do
  set_up false
  attempt (do send "AT" []; recv "NO CARRIER")
  gone ← attempt nwk_deregistration
  pure (if is_some gone then ok else device_error)

unfoldable pub disconnect : Act Modem NsapiError
unfolding nwk_deregistration emit
disconnect = do
  emit ppp_disconnect
  result ← gets (λ m. m.mbed.ppp_result m.trace)
  if result ==ℤ pos 0 then leave_network else pure device_error
