-- ===== src/Narrowband.antt =====
-- The base driver of the SARA-N2xx modems, ublox-cellular-base-n2xx/UbloxCellularBaseN2xx.cpp: its
-- requests, and the identity of the modem. Its parser callbacks are with those of the other drivers.
pub mod Power
pub mod Discipline
pub mod Hex
pub mod Datagrams
pub mod Packets
pub mod Connect
pub mod Others
mod Tests
use Prim.Native.String.{String}
use example_ublox_mbed_clien.Prelude.{
  ℕ, ◌<◌, Bool, true, false, Option, none, some, List, [], ◌∷◌, ℤ, ltb, length, if◌then◌else◌,
}
use example_ublox_mbed_clien.Act.{
  Act, done, fault, pure, fail, crash, gets, modify, guard, attempt, ◌>>=◌, ◌>>◌,
}
use example_ublox_mbed_clien.Cellular.{
  Arg, num, text, Modem, Scanned, end_of_input, numbers, lock, unlock,
}
use example_ublox_mbed_clien.Cellular.Parser.{
  emit, assert_at, send, recv, recv_text, recv_number, command, with_lock,
}
use example_ublox_mbed_clien.Connection.{set_iface}

-- A text and its terminator have to fit the array of this size that they are scanned into.
unfoldable pub fits : ℕ → List ℕ → Act Modem Unit
fits room s = if ltb (length s) room then pure tt else crash

-- at_req with a text: the width of the format, and the size of the array
unfoldable pub at_req_text : String → List Arg → ℕ → String → ℕ → Act Modem (List ℕ)
unfolding with_lock fits
at_req_text cmd arguments width format room = with_lock (do
  assert_at
  send cmd arguments
  answer ← recv_text width format
  fits room answer
  recv "OK"
  pure answer)

-- at_req with a number
unfoldable pub at_req_number : String → String → Act Modem ℤ
unfolding with_lock
at_req_number cmd format =
    with_lock (do assert_at; send cmd []; answer ← recv_number format; recv "OK"; pure answer)

-- at_send, with or without an argument
unfoldable pub at_send : String → List Arg → Act Modem Unit
unfolding with_lock
at_send cmd arguments = with_lock (do assert_at; command cmd arguments)

unfoldable pub cgmi : ℕ → Act Modem (List ℕ)
unfolding at_req_text
cgmi room = at_req_text "AT+CGMI" [] 32 "%32[^\n]\n" room

unfoldable pub cgmm : ℕ → Act Modem (List ℕ)
unfolding at_req_text
cgmm room = at_req_text "AT+CGMM" [] 32 "%32[^\n]\n" room

unfoldable pub cimi : ℕ → Act Modem (List ℕ)
unfolding at_req_text
cimi room = at_req_text "AT+CIMI" [] 32 "%32[^\n]\n" room

unfoldable pub ccid : ℕ → Act Modem (List ℕ)
unfolding at_req_text
ccid room = at_req_text "AT+NCCID" [] 32 "+NCCID:%32[^\n]\n" room

unfoldable pub cgmr : ℕ → Act Modem (List ℕ)
unfolding at_req_text
cgmr room = at_req_text "AT+CGMR" [] 32 "%32[^\n]\n" room

-- The command is composed by `sprintf` first.
unfoldable pub cgsn : ℕ → ℕ → Act Modem (List ℕ)
unfolding at_req_text
cgsn snt room = at_req_text "AT+CGSN=%d" (num snt ∷ []) 32 "+CGSN:%32[^\n]\n" room

unfoldable pub cereg : ℕ → Act Modem Unit
unfolding at_send
cereg n = at_send "AT+CEREG=%d" (num n ∷ [])

unfoldable pub cops : ℕ → Act Modem Unit
unfolding at_send
cops mode = at_send "AT+COPS=%d" (num mode ∷ [])

unfoldable pub cops_plmn : List ℕ → Act Modem Unit
unfolding at_send
cops_plmn plmn = at_send "AT+COPS=1,2,\"%s\"" (text plmn ∷ [])

unfoldable pub get_cops : Act Modem ℤ
unfolding at_req_number
get_cops = at_req_number "AT+COPS?" "+COPS: %d"

unfoldable pub cfun : ℕ → Act Modem Unit
unfolding at_send
cfun mode = at_send "AT+CFUN=%d" (num mode ∷ [])

unfoldable pub reboot : Act Modem Unit
unfolding at_send
reboot = at_send "AT+NRB" []

-- The command is composed by `sprintf` first.
unfoldable pub nconfig : List ℕ → Bool → Act Modem Unit
unfolding at_send
nconfig name state =
    at_send (if state then "AT+NCONFIG=%s,TRUE" else "AT+NCONFIG=%s,FALSE") (text name ∷ [])

-- The answer comes as a message before the OK.
unfoldable pub get_cereg : Act Modem ℤ
unfolding with_lock at_send
get_cereg = with_lock (do assert_at; at_send "AT+CEREG?" []; gets (λ m. m.reg_status_eps))

-- The second number is the result. It is not set if only one was scanned, or none before the end of
-- the text.
abbrev pub cscon_status : Scanned → Act Modem ℤ
cscon_status end_of_input = crash
cscon_status (numbers []) = fail
cscon_status (numbers (n ∷ [])) = crash
cscon_status (numbers (n ∷ stat ∷ _)) = pure stat

unfoldable pub get_cscon : Act Modem ℤ
unfolding at_req_text
get_cscon = do
  resp ← at_req_text "AT+CSCON?" [] 3 "+CSCON:%3[^\n]\n" 4
  m ← gets (λ m. m)
  cscon_status (m.mbed.scan_cscon resp)

-- The early return of get_csq leaves the mutex locked.
abbrev pub csq_rssi : Scanned → Act Modem ℤ
csq_rssi end_of_input = fail
csq_rssi (numbers []) = do emit unlock; fail
csq_rssi (numbers (rssi ∷ _)) = pure rssi

abbrev pub csq_answer : Option (List ℕ) → Act Modem ℤ
csq_answer none = do emit unlock; fail
csq_answer (some resp) = do m ← gets (λ m. m); csq_rssi (m.mbed.scan_csq resp)

unfoldable pub get_csq : Act Modem ℤ
unfolding at_req_text emit
get_csq = do
  emit lock
  assert_at
  resp ← attempt (at_req_text "AT+CSQ" [] 5 "+CSQ:%5[^\n]\n" 6)
  csq_answer resp

-- Each text is stored where it is scanned to.
unfoldable pub get_sara_n2xx_info : Act Modem Unit
unfolding cgmi cgmm cgmr cgsn
get_sara_n2xx_info = do
  a ← cgmi 33
  set_iface (λ i. record i { cgmi = a })
  b ← cgmm 33
  set_iface (λ i. record i { cgmm = b })
  c ← cgmr 33
  set_iface (λ i. record i { cgmr = c })
  d ← cgsn 1 33
  set_iface (λ i. record i { cgsn = d })

unfoldable pub get_iccid : Act Modem Unit
unfolding ccid
get_iccid = do answer ← ccid 21; modify (λ m. record m { iccid = answer })

unfoldable pub get_imsi : Act Modem Unit
unfolding cimi
get_imsi = do answer ← cimi 16; modify (λ m. record m { imsi = answer })

unfoldable pub get_imei : Act Modem Unit
unfolding cgsn
get_imei = do answer ← cgsn 1 16; modify (λ m. record m { imei = answer })
