-- ===== src/Connection/Profile.antt =====
-- The profiles of the modem's stack in ublox-at-cellular-interface/UbloxATCellularInterface.cpp:
-- activate_profile and its two variants, and connect_modem_stack.
use Prim.Native.String.{String}
use example_ublox_mbed_clien.Prelude.{
  negsuc, ℕ, zero, suc, ◌+◌, Bool, true, false, not, ◌&&◌, Option, none, some, List, [], ◌∷◌, ℤ,
  pos, ◌==ℤ◌, ◌==◌, get_or, ltb, length, is_some, if◌then◌else◌,
}
use example_ublox_mbed_clien.Act.{Act, pure, gets, guard, attempt, ◌>>=◌, ◌>>◌}
use example_ublox_mbed_clien.Cellular.{
  num, int, text, Modem, DeviceType, toby_l2, mpci_l2, Security, security_none, unknown, Interface,
}
use example_ublox_mbed_clien.Cellular.Parser.{
  send, recv, recv_number, recv_address, command, with_lock, at_set_timeout,
}
use example_ublox_mbed_clien.Connection.{set_iface, nsapi_security_to_modem_security}

abbrev pub Credentials : Type 0
Credentials = List ℕ × (List ℕ × List ℕ)

abbrev pub or_empty : Option (List ℕ) → List ℕ
or_empty o = get_or o []

abbrev pub is_nonempty : List ℕ → Bool
is_nonempty s = ltb 0 (length s)

-- Three strings of the table, if there is a table, and the pointer behind them. A null string
-- becomes an empty one.
abbrev pub next_credentials : Option ℕ → Modem → Interface × Option ℕ
next_credentials none m = (
  record m.iface {
    apn = some (or_empty m.iface.apn);
    uname = some (or_empty m.iface.uname);
    pwd = some (or_empty m.iface.pwd);
  },
  none,
)
next_credentials (some config) m =
    let (apn, c) = m.mbed.apn_get config in
    let (uname, d) = m.mbed.apn_get c in
    let (pwd, e) = m.mbed.apn_get d in
    (record m.iface { apn = some apn; uname = some uname; pwd = some pwd }, some e)

unfoldable pub get_next_credentials : Option ℕ → Act Modem (Option ℕ)
get_next_credentials config = do
  m ← gets (λ m. m)
  set_iface (λ _. (next_credentials config m).0)
  pure (next_credentials config m).1

-- The activation of the profile, with 30 seconds for it.
abbrev pub activate : ℕ → Act Modem Unit
activate at_timeout = do
  at_set_timeout 30000
  activated ← attempt (command "AT+UPSDA=0,3" [])
  at_set_timeout at_timeout
  guard (is_some activated)

-- `if (*s) …`, a string that is set if it is not empty
abbrev pub set_text : String → List ℕ → Act Modem Unit
set_text format s = if is_nonempty s then command format (text s ∷ []) else pure tt

-- Is this protocol to be tried?
abbrev pub is_tried : Security → ℕ → Bool
is_tried unknown protocol = true
is_tried auth protocol = nsapi_security_to_modem_security auth == protocol

abbrev pub try_protocol : ℕ → ℕ → Bool → Act Modem Bool
try_protocol at_timeout protocol activated = do
  set ← attempt (command "AT+UPSD=0,6,%d" (num protocol ∷ []))
  if is_some set
      then (do done_now ← attempt (activate at_timeout); pure (is_some done_now))
      else pure activated

-- The protocols that are left, of 0, 1 and 2; each that is tried decides anew, also when an earlier
-- one has activated the profile.
unfoldable pub try_protocols : ℕ → ℕ → ℕ → Bool → Act Modem Bool
unfolding at_set_timeout nsapi_security_to_modem_security
try_protocols at_timeout zero protocol activated = pure activated
try_protocols at_timeout (suc left) protocol activated = do
  auth ← gets (λ m. m.iface.auth)
  activated ←
      (if is_tried auth protocol
        then try_protocol at_timeout protocol activated
        else pure activated)
  try_protocols at_timeout left (protocol + 1) activated

-- The argument for the protocol is not looked at; `_auth` is. Without an APN nothing is done.
unfoldable pub activate_profile : List ℕ → List ℕ → List ℕ → Act Modem Unit
unfolding try_protocols
activate_profile apn username password = do
  at_timeout ← gets (λ m. m.at_timeout)
  guard (is_nonempty apn)
  command "AT+UPSD=0,1,\"%s\"" (text apn ∷ [])
  set_text "AT+UPSD=0,2,\"%s\"" username
  set_text "AT+UPSD=0,3,\"%s\"" password
  command "AT+UPSD=0,7,\"0.0.0.0\"" []
  activated ← try_protocols at_timeout 3 0 false
  guard activated

-- The context that the modem has, if its address is one.
abbrev pub external_context : Act Modem ℤ
external_context = do
  send "AT+CGDCONT?" []
  width ← gets (λ m. m.mbed.ip_size)
  (ip, (cid, _)) ←
      recv_address width
        "+CGDCONT: %d,\"IP\",\"%*[^\"]\",\"%NSAPI_IP_SIZE[^\"]\",%*d,%*d,%*d,%*d,%*d,%*d"
  recv "OK"
  m ← gets (λ m. m)
  guard (m.mbed.is_address ip)
  pure cid

unfoldable pub activate_profile_reuse_external : Act Modem Unit
unfolding at_set_timeout
activate_profile_reuse_external = do
  at_timeout ← gets (λ m. m.at_timeout)
  cid ← external_context
  guard (not (cid ==ℤ negsuc 0))
  command "AT+UPSD=0,100,%d" (int cid ∷ [])
  activate at_timeout

unfoldable pub activate_profile_by_cid : ℕ → List ℕ → List ℕ → List ℕ → Security → Act Modem Unit
unfolding at_set_timeout nsapi_security_to_modem_security
activate_profile_by_cid cid apn username password auth = do
  at_timeout ← gets (λ m. m.at_timeout)
  command "AT+CGDCONT=%d,\"IP\",\"%s\"" (num cid ∷ text apn ∷ [])
  command "AT+UAUTHREQ=%d,%d,\"%s\",\"%s\""
      (num cid ∷ num (nsapi_security_to_modem_security auth) ∷ text username ∷ text password ∷ [])
  command "AT+UPSD=0,100,%d" (num cid ∷ [])
  activate at_timeout

abbrev reuses_context : DeviceType → Bool
reuses_context toby_l2 = true
reuses_context mpci_l2 = true
reuses_context _ = false

-- One try with the credentials of the object, after `_auth` has been set back where there is no user
-- or no password.
unfoldable pub try_credentials : Act Modem Unit
unfolding activate_profile activate_profile_reuse_external activate_profile_by_cid
try_credentials = do
  i ← gets (λ m. m.iface)
  let apn = or_empty i.apn
  let uname = or_empty i.uname
  let pwd = or_empty i.pwd
  let auth = if is_nonempty uname && is_nonempty pwd then i.auth else security_none
  set_iface (λ i. record i { auth = auth })
  dev ← gets (λ m. m.dev)
  if reuses_context dev
      then (do
        reused ← attempt activate_profile_reuse_external
        if is_some reused then pure tt else activate_profile_by_cid 1 apn uname pwd auth)
      else activate_profile apn uname pwd

abbrev pub is_more : Option ℕ → Modem → Bool
is_more none m = false
is_more (some config) m = not (m.mbed.apn_ends config)

-- The loop over the table; `none` says that the rounds did not suffice.
unfoldable pub credentials_loop : ℕ → Option ℕ → Act Modem (Option Bool)
unfolding get_next_credentials try_credentials
credentials_loop zero config = pure none
credentials_loop (suc rounds) config =
    let again = credentials_loop rounds in
    do
      config ← get_next_credentials config
      success ← attempt try_credentials
      more ← gets (is_more config)
      if not (is_some success) && more then again config else pure (some (is_some success))

abbrev pub table_of : Modem → Option ℕ
table_of m = if is_some m.iface.apn then none else m.mbed.apnconfig m.imsi

abbrev pub connect_if : ℕ → Option ℤ → Act Modem (Option Bool)
connect_if rounds none = pure (some false)
connect_if rounds (some active) =
    if active ==ℤ pos 0
    then (do config ← gets table_of; credentials_loop rounds config)
    else pure (some true)

abbrev pub query_profile : Act Modem ℤ
query_profile = do
  send "AT+UPSND=0,8" []
  active ← recv_number "+UPSND: %*d,%*d,%d\n"
  recv "OK"
  pure active

unfoldable pub connect_modem_stack : ℕ → Act Modem (Option Bool)
unfolding with_lock credentials_loop
connect_modem_stack rounds = with_lock (do active ← attempt query_profile; connect_if rounds active)
