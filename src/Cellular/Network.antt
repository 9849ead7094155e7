-- ===== src/Cellular/Network.antt =====
-- Registration in UbloxCellularBase.cpp: nwk_registration, nwk_deregistration and set_rat.
use Prim.Native.String.{String}
use example_ublox_mbed_clien.Prelude.{
  ℕ, zero, suc, Bool, true, false, Option, none, some, [], ℤ, pos, ◌==ℤ◌, if◌then◌else◌,
}
use example_ublox_mbed_clien.Act.{Act, pure, gets, modify, attempt, ◌>>=◌, ◌>>◌}
use example_ublox_mbed_clien.Cellular.{Modem}
use example_ublox_mbed_clien.Cellular.Callbacks.{
  is_registered_csd, is_registered_psd, is_registered_eps, is_registered,
}
use example_ublox_mbed_clien.Cellular.Parser.{
  assert_at, send, recv, recv_number, command, with_lock, at_set_timeout,
}
use example_ublox_mbed_clien.Cellular.Power.{clear_registration}

unfoldable pub set_rat : ℤ → Modem → Modem
set_rat status m = record m { rat = status }

-- UNNATURAL_STRING, which no modem says
abbrev pub unnatural_string : String
unnatural_string = "\u{1}"

-- `status` of `AT+COPS?`, if it was answered: 0 is the automatic mode.
abbrev pub leave_manual : Option ℤ → Act Modem Unit
leave_manual none = pure tt
leave_manual (some status) = if status ==ℤ pos 0 then pure tt else command "AT+COPS=0" []

-- Automatic mode, and a question for each status, whose answers come as callbacks. What fails here
-- is passed over.
unfoldable pub start_search : Act Modem Unit
start_search = do
  command "AT+CREG=1" []
  command "AT+CGREG=1" []
  attempt (command "AT+CEREG=1" [])
  mode ← attempt (do send "AT+COPS?" []; status ← recv_number "+COPS: %d"; recv "OK"; pure status)
  attempt (leave_manual mode)
  attempt (command "AT+CREG?" [])
  attempt (command "AT+CGREG?" [])
  attempt (command "AT+CEREG?" [])
  pure tt

-- The waiting loop, with the rounds that are left: the status, then a wait for callbacks.
unfoldable pub registration_loop : ℕ → Act Modem Bool
registration_loop zero = pure false
registration_loop (suc rounds) =
    let more = registration_loop rounds in
    do
      registered ← gets is_registered
      attempt (recv unnatural_string)
      if registered then pure true else more

-- The radio access technology, asked with a short timeout.
unfoldable pub ask_rat : ℕ → Act Modem Unit
unfolding set_rat
ask_rat at_timeout = do
  at_set_timeout 1000
  attempt (do
    send "AT+COPS?" []
    status ← recv_number "+COPS: %*d,%*d,\"%*[^\"]\",%d\n"
    modify (set_rat status))
  at_set_timeout at_timeout

abbrev pub search_network : ℕ → Act Modem Bool
search_network at_timeout = do
  attempt start_search
  at_set_timeout 1000
  registered ← registration_loop 180
  at_set_timeout at_timeout
  if registered then ask_rat at_timeout else pure tt
  pure registered

unfoldable pub nwk_registration : Act Modem Bool
unfolding with_lock start_search registration_loop ask_rat is_registered_csd is_registered_psd
    is_registered_eps
nwk_registration = with_lock (do
  at_timeout ← gets (λ m. m.at_timeout)
  assert_at
  registered ← gets is_registered
  if registered then pure true else search_network at_timeout)

unfoldable pub nwk_deregistration : Act Modem Unit
unfolding with_lock
nwk_deregistration = with_lock (do assert_at; command "AT+COPS=2" []; modify clear_registration)
