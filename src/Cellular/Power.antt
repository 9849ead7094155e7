-- ===== src/Cellular/Power.antt =====
-- Power and identity of the modem in UbloxCellularBase.cpp: the constructor and baseClassInit,
-- power_up, power_down, set_device_identity, device_init, and the identity queries.
use Prim.Native.String.{String}
use example_ublox_mbed_clien.Prelude.{
  ℕ, zero, suc, true, false, Option, none, some, List, [], ◌∷◌, pos, ltb, is_some, if◌then◌else◌,
  codes, contains,
}
use example_ublox_mbed_clien.Act.{Act, pure, fail, gets, modify, attempt, ◌>>=◌, ◌>>◌}
use example_ublox_mbed_clien.Cellular.{
  num, Modem, DeviceType, type_none, sara_g35, lisa_u2, lisa_u2_03s, sara_u2, leon_g2, toby_l2,
  mpci_l2, log, open_uart, flush, wait_ms, set_baud, board_init, board_power_up, board_power_down,
  board_deinit,
}
use example_ublox_mbed_clien.Cellular.Parser.{
  emit, assert_at, send, recv, recv_text, command, with_lock, at_set_timeout,
}

-- The constructor; `_dev_info`'s strings, `_baud` and what is not the object's are left as they are.
unfoldable pub new_modem : Modem → Modem
new_modem m = record m {
  pin = none;
  at = false;
  at_timeout = 8000;
  modem_initialised = false;
  sim_pin_check_enabled = false;
  dev = type_none;
  reg_status_csd = pos 0;
  reg_status_psd = pos 0;
  reg_status_eps = pos 0;
}

-- The UART, which starts at 115200 at most, and the AT parser are made once.
unfoldable pub base_class_init : ℕ → Modem → Modem
base_class_init baud m =
    if m.at
    then m
    else log (open_uart (if ltb 115200 baud then 115200 else baud))
        (record m { at = true; baud = baud })

-- `onboard_modem_power_up` and a short exchange, for the rounds that are left
unfoldable pub power_up_loop : ℕ → ℕ → Act Modem Unit
power_up_loop at_timeout zero = fail
power_up_loop at_timeout (suc rounds) =
    let more = power_up_loop at_timeout rounds in
    do
      emit board_power_up
      emit (wait_ms 500)
      emit flush
      at_set_timeout 1000
      answer ← attempt (do send "AT" []; emit (wait_ms 100); recv "OK")
      at_set_timeout at_timeout
      if is_some answer then pure tt else more

-- The final baud rate; a refusal is passed over.
unfoldable pub set_final_baud : Act Modem Unit
set_final_baud = do
  baud ← gets (λ m. m.baud)
  command "AT+IPR=%d" (num baud ∷ [])
  emit (wait_ms 100)
  emit (set_baud baud)

unfoldable pub power_up : Act Modem Unit
unfolding with_lock power_up_loop set_final_baud
power_up = with_lock (do
  at_timeout ← gets (λ m. m.at_timeout)
  assert_at
  emit board_init
  emit (wait_ms 250)
  power_up_loop at_timeout 20
  attempt set_final_baud
  command "ATE0;+CMEE=2" []
  command "AT&K0" []
  command "AT&C1" []
  command "AT&D0" [])

-- the three registration states, back to "not registered, not searching"
abbrev pub clear_registration : Modem → Modem
clear_registration m = record m {
  reg_status_csd = pos 0;
  reg_status_psd = pos 0;
  reg_status_eps = pos 0;
}

unfoldable pub power_down : Act Modem Unit
unfolding with_lock
power_down = with_lock (do
  assert_at
  running ← gets (λ m. m.modem_initialised)
  if running then (do attempt (command "AT+CPWROFF" []); pure tt) else pure tt
  emit board_power_down
  emit board_deinit
  modify clear_registration)

-- The first name that the answer to ATI contains decides.
unfoldable pub identify : List ℕ → Option DeviceType
unfolding contains
identify buf =
    if contains (codes "SARA-G35") buf
    then some sara_g35
    else if contains (codes "LISA-U200-03S") buf
    then some lisa_u2_03s
    else if contains (codes "LISA-U2") buf
    then some lisa_u2
    else if contains (codes "SARA-U2") buf
    then some sara_u2
    else if contains (codes "LEON-G2") buf
    then some leon_g2
    else if contains (codes "TOBY-L2") buf
    then some toby_l2
    else if contains (codes "MPCI-L2") buf
    then some mpci_l2
    else none

abbrev pub set_dev : Option DeviceType → Modem → Modem
set_dev none m = m
set_dev (some d) m = record m { dev = d }

-- It succeeds, and keeps the type, when no name fits.
unfoldable pub set_device_identity : Act Modem Unit
unfolding with_lock identify
set_device_identity = with_lock (do
  assert_at
  send "ATI" []
  buf ← recv_text 19 "%19[^\n]\nOK\n"
  modify (set_dev (identify buf)))

-- The pin that shows the network: 20 on some devices, 16 on others.
unfoldable gpio_command : DeviceType → Option String
gpio_command lisa_u2 = some "AT+UGPIOC=20,2"
gpio_command leon_g2 = some "AT+UGPIOC=20,2"
gpio_command toby_l2 = some "AT+UGPIOC=20,2"
gpio_command sara_u2 = some "AT+UGPIOC=16,2"
gpio_command sara_g35 = some "AT+UGPIOC=16,2"
gpio_command _ = none

abbrev pub send_gpio : Option String → Act Modem Unit
send_gpio none = pure tt
send_gpio (some c) = command c []

unfoldable pub device_init : DeviceType → Act Modem Unit
unfolding with_lock gpio_command
device_init dev = with_lock (do assert_at; send_gpio (gpio_command dev))

unfoldable pub get_iccid : Act Modem Unit
unfolding with_lock
get_iccid = with_lock (do
  assert_at
  send "AT+CCID" []
  answer ← recv_text 20 "+CCID: %20[^\n]\nOK\n"
  modify (λ m. record m { iccid = answer }))

unfoldable pub get_imsi : Act Modem Unit
unfolding with_lock
get_imsi = with_lock (do
  assert_at
  send "AT+CIMI" []
  answer ← recv_text 15 "%15[^\n]\nOK\n"
  modify (λ m. record m { imsi = answer }))

unfoldable pub get_imei : Act Modem Unit
unfolding with_lock
get_imei = with_lock (do
  assert_at
  send "AT+CGSN" []
  answer ← recv_text 15 "%15[^\n]\nOK\n"
  modify (λ m. record m { imei = answer }))

unfoldable pub get_meid : Act Modem Unit
unfolding with_lock
get_meid = with_lock (do
  assert_at
  send "AT+GSN" []
  answer ← recv_text 18 "%18[^\n]\nOK\n"
  modify (λ m. record m { meid = answer }))
