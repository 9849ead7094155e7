-- ===== src/Cellular/Sim.antt =====
-- The SIM card in UbloxCellularBase.cpp: initialise_sim_card, the PIN functions, and set_sms.
use example_ublox_mbed_clien.Prelude.{
  ℕ, zero, suc, Bool, true, false, not, ◌&&◌, Option, none, some, List, [], ◌∷◌, same_text, codes,
  if◌then◌else◌,
}
use example_ublox_mbed_clien.Act.{
  Act, pure, fail, crash, gets, modify, attempt, expect, ◌>>=◌, ◌>>◌,
}
use example_ublox_mbed_clien.Cellular.{Arg, text, Modem, wait_ms}
use example_ublox_mbed_clien.Cellular.Parser.{
  emit, assert_at, send, recv, recv_text, command, with_lock,
}

-- `_pin` as the argument of a `%s`: a null pointer there is undefined behaviour.
unfoldable pub pin_argument : Option (List ℕ) → Act Modem Arg
pin_argument none = crash
pin_argument (some p) = pure (text p)

-- What follows an answer to `AT+CPIN?`.
unfoldable pub answer_sim : List ℕ → Act Modem Unit
unfolding same_text pin_argument
answer_sim pinstr =
    if same_text pinstr (codes "SIM PIN")
    then (do
      modify (λ m. record m { sim_pin_check_enabled = true })
      pin ← gets (λ m. m.pin)
      argument ← pin_argument pin
      command "AT+CPIN=\"%s\"" (argument ∷ []))
    else if same_text pinstr (codes "READY")
    then modify (λ m. record m { sim_pin_check_enabled = false })
    else fail

-- `none` if the SIM does not answer
unfoldable pub query_sim : Act Modem (List ℕ)
query_sim = do send "AT+CPIN?" []; pinstr ← recv_text 15 "+CPIN: %15[^\n]\n"; recv "OK"; pure pinstr

-- One answer ends the loop, also an unexpected one or a PIN that is refused.
abbrev pub after_query : Option (List ℕ) → Act Modem Unit → Act Modem Unit
after_query none more = do emit (wait_ms 1000); more
after_query (some pinstr) more = do
  outcome ← attempt (answer_sim pinstr)
  emit (wait_ms 1000)
  expect outcome

unfoldable pub sim_loop : ℕ → Act Modem Unit
unfolding query_sim answer_sim
sim_loop zero = fail
sim_loop (suc rounds) =
    let more = sim_loop rounds in do answer ← attempt query_sim; after_query answer more

unfoldable pub initialise_sim_card : Act Modem Unit
unfolding with_lock sim_loop
initialise_sim_card = with_lock (do assert_at; sim_loop 10)

-- The address of the service centre is only traced.
unfoldable pub set_sms : Act Modem Unit
unfolding with_lock
set_sms = with_lock (do
  assert_at
  command "AT+CMGF=1" []
  command "AT+CNMI=2,1" []
  command "AT+CGSMS=1" []
  attempt (do send "AT+CSCA?" []; recv_text 31 "+CSCA: \"%31[^\"]\""; recv "OK")
  pure tt)

unfoldable pub set_pin : Option (List ℕ) → Act Modem Unit
set_pin pin = modify (λ m. record m { pin = pin })

abbrev pub lock_sim : Bool → List ℕ → Act Modem Unit
lock_sim enable pin = do
  command (if enable then "AT+CLCK=\"SC\",1,\"%s\"" else "AT+CLCK=\"SC\",0,\"%s\"") (text pin ∷ [])
  modify (λ m. record m { sim_pin_check_enabled = enable })

abbrev pub change_check : Bool → Bool → Option (List ℕ) → Act Modem Unit
change_check enabled enable none = fail
change_check enabled enable (some pin) =
    if enabled && not enable
    then lock_sim false pin
    else if not enabled && enable
    then lock_sim true pin
    else pure tt

unfoldable pub sim_pin_check_enable : Bool → Act Modem Unit
unfolding with_lock
sim_pin_check_enable enable =
    with_lock (do assert_at; m ← gets (λ m. m); change_check m.sim_pin_check_enabled enable m.pin)

abbrev pub change_pin : Option (List ℕ) → Option (List ℕ) → Act Modem Unit
change_pin none old = fail
change_pin (some new) none = fail
change_pin (some new) (some old) = do
  command "AT+CPWD=\"SC\",\"%s\",\"%s\"" (text old ∷ text new ∷ [])
  modify (λ m. record m { pin = some new })

unfoldable pub change_sim_pin : Option (List ℕ) → Act Modem Unit
unfolding with_lock
change_sim_pin pin = with_lock (do assert_at; old ← gets (λ m. m.pin); change_pin pin old)
