-- ===== src/Connection.antt =====
-- Connections in ublox-at-cellular-interface/UbloxATCellularInterface.cpp: the profiles of the modem's
-- stack, its address, and connect and disconnect. PROFILE is "0".
pub mod Profile
pub mod Connect
pub mod Discipline
pub mod Calls
pub mod Events
pub mod Others
pub mod Addresses
use Prim.Native.String.{String}
use example_ublox_mbed_clien.Prelude.{
  ℕ, Bool, true, false, not, ◌&&◌, Option, none, some, List, [], ◌∷◌, ℤ, is_some, if◌then◌else◌,
}
use example_ublox_mbed_clien.Act.{Act, pure, gets, modify, guard, attempt, ◌>>=◌, ◌>>◌}
use example_ublox_mbed_clien.Cellular.{
  Arg, text, Modem, Security, security_none, pap, chap, Interface, malloc, status_callback,
}
use example_ublox_mbed_clien.Cellular.Parser.{
  emit, send, recv, recv_text, command, with_lock, at_set_timeout,
}
use example_ublox_mbed_clien.Sockets.{NsapiError, ok, device_error}

abbrev pub set_iface : (Interface → Interface) → Act Modem Unit
set_iface f = modify (λ m. record m { iface = f m.iface })

-- The number of a protocol in the modem's commands; 3 stands for all others.
unfoldable pub nsapi_security_to_modem_security : Security → ℕ
nsapi_security_to_modem_security security_none = 0
nsapi_security_to_modem_security pap = 1
nsapi_security_to_modem_security chap = 2
nsapi_security_to_modem_security _ = 3

unfoldable pub set_authentication : Security → Act Modem Unit
set_authentication auth = set_iface (λ i. record i { auth = auth })

unfoldable pub set_credentials :
    Option (List ℕ) → Option (List ℕ) → Option (List ℕ) → Act Modem Unit
set_credentials apn uname pwd = set_iface (λ i. record i { apn = apn; uname = uname; pwd = pwd })

-- `_ip`, unless there is no memory for it
abbrev pub allocate_ip : Option (List ℕ) → Act Modem Unit
allocate_ip (some ip) = pure tt
allocate_ip none = do
  width ← gets (λ m. m.mbed.ip_size)
  emit (malloc width)
  m ← gets (λ m. m)
  guard (m.mbed.has_memory m.trace)

abbrev pub ask_ip : Act Modem (List ℕ)
ask_ip = do
  send "AT+UPSND=0,0" []
  width ← gets (λ m. m.mbed.ip_size)
  ip ← recv_text width "+UPSND: 0,0,\"%NSAPI_IP_SIZE[^\"]\""
  recv "OK"
  m ← gets (λ m. m)
  guard (m.mbed.is_address ip)
  guard (not (m.mbed.is_zero_address ip))
  pure ip

-- The address is asked for every time; it is forgotten where there is none.
unfoldable pub get_ip_address : Act Modem (Option (List ℕ))
unfolding with_lock emit
get_ip_address = with_lock (do
  before ← gets (λ m. m.iface.ip)
  ip ← attempt (do allocate_ip before; ask_ip)
  set_iface (λ i. record i { ip = ip })
  pure ip)

unfoldable pub is_connected : Act Modem Bool
unfolding get_ip_address
is_connected = do ip ← get_ip_address; pure (is_some ip)

abbrev pub report_disconnect : Act Modem Unit
report_disconnect = do
  status_cb ← gets (λ m. m.iface.status_cb)
  if status_cb then emit status_callback else pure tt

unfoldable pub disconnect_modem_stack : Act Modem Unit
unfolding with_lock get_ip_address emit
disconnect_modem_stack =
    with_lock
      (do ip ← get_ip_address; guard (is_some ip); command "AT+UPSDA=0,4" []; report_disconnect)

-- The address of a host: itself, if it is one, else what a query within 60 seconds gives.
unfoldable pub resolve : List ℕ → Act Modem (List ℕ)
resolve host = do
  send "AT+UDNSRN=0,\"%s\"" (text host ∷ [])
  width ← gets (λ m. m.mbed.ip_size)
  ip ← recv_text width "+UDNSRN: \"%NSAPI_IP_SIZE[^\"]\""
  recv "OK"
  m ← gets (λ m. m)
  guard (m.mbed.is_address ip)
  pure ip

abbrev pub resolve_remotely : List ℕ → Act Modem (Option (List ℕ))
resolve_remotely host = with_lock (do
  at_timeout ← gets (λ m. m.at_timeout)
  at_set_timeout 60000
  ip ← attempt (resolve host)
  at_set_timeout at_timeout
  pure ip)

-- What is stored in `address`, if NSAPI_ERROR_OK is returned.
unfoldable pub gethostbyname : List ℕ → Act Modem (Option (List ℕ))
unfolding with_lock at_set_timeout resolve
gethostbyname host = do
  m ← gets (λ m. m)
  if m.mbed.is_address host then pure (some host) else resolve_remotely host
