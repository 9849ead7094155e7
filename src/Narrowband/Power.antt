-- ===== src/Narrowband/Power.antt =====
-- power_up, init, the registration and power_down of
-- ublox-cellular-base-n2xx/UbloxCellularBaseN2xx.cpp.
pub mod Discipline
use example_ublox_mbed_clien.Prelude.{
  ℕ, zero, suc, Bool, true, false, Option, none, some, List, [], ◌∷◌, ℤ, pos, ◌==ℤ◌, is_some, codes,
  contains, not, if◌then◌else◌,
}
use example_ublox_mbed_clien.Act.{Act, pure, fail, gets, modify, guard, attempt, ◌>>=◌, ◌>>◌}
use example_ublox_mbed_clien.Cellular.{
  Modem, DeviceType, sara_n2, log, open_uart, wait_ms, flush, board_init, board_power_down,
  board_deinit,
}
use example_ublox_mbed_clien.Cellular.Callbacks.{is_registered_eps}
use example_ublox_mbed_clien.Cellular.Parser.{emit, assert_at, recv, with_lock, at_set_timeout}
use example_ublox_mbed_clien.Cellular.Power.{clear_registration}
use example_ublox_mbed_clien.Cellular.Setup.{keep_pin}
use example_ublox_mbed_clien.Cellular.Network.{unnatural_string}
use example_ublox_mbed_clien.Narrowband.{
  at_req_text, at_send, cereg, cops, get_cops, get_cereg, get_sara_n2xx_info,
}

-- The UART and the parser are made once.
unfoldable pub base_class_init : ℕ → Modem → Modem
base_class_init baud m = if m.at then m else log (open_uart baud) (record m { at = true })

-- A try with `AT`, for the rounds that are left
unfoldable pub power_up_loop : ℕ → Act Modem Bool
unfolding emit at_send
power_up_loop zero = pure false
power_up_loop (suc rounds) =
    let more = power_up_loop rounds in
    do emit flush; answer ← attempt (at_send "AT" []); if is_some answer then pure true else more

unfoldable pub power_up : Act Modem Unit
unfolding with_lock power_up_loop at_send
power_up = with_lock (do
  at_timeout ← gets (λ m. m.at_timeout)
  assert_at
  emit board_init
  emit (wait_ms 5000)
  at_set_timeout 1000
  answered ← power_up_loop 20
  at_set_timeout at_timeout
  guard answered
  at_send "AT+CMEE=1" [])

unfoldable pub power_down : Act Modem Unit
unfolding with_lock
power_down =
    with_lock (do assert_at; emit board_power_down; emit board_deinit; modify clear_registration)

abbrev pub identify : List ℕ → Modem → Modem
identify buf m = if contains (codes "Neul Hi2110") buf then record m { dev = sara_n2 } else m

unfoldable pub set_device_identity : Act Modem Unit
unfolding with_lock at_req_text contains
set_device_identity =
    with_lock
      (do assert_at; buf ← at_req_text "AT+CGMM" [] 19 "%19[^\n]\n" 20; modify (identify buf))

-- initialise_sim_card and device_init do nothing and succeed.
unfoldable pub bring_up : Option (List ℕ) → Act Modem Unit
unfolding power_up set_device_identity get_sara_n2xx_info
bring_up pin = do
  power_up
  modify (keep_pin pin)
  set_device_identity
  get_sara_n2xx_info
  modify (λ m. record m { modem_initialised = true })

unfoldable pub init : Option (List ℕ) → Act Modem Bool
unfolding bring_up
init pin = do
  assert_at
  initialised ← gets (λ m. m.modem_initialised)
  if initialised then pure tt else (do attempt (bring_up pin); pure tt)
  gets (λ m. m.modem_initialised)

unfoldable pub deinit : Act Modem Unit
unfolding power_down
deinit = do power_down; modify (λ m. record m { modem_initialised = false })

-- The waiting loop, with the rounds that are left: a wait for callbacks, then the status.
unfoldable pub registration_loop : ℕ → Bool → Act Modem Bool
unfolding is_registered_eps
registration_loop zero registered = pure registered
registration_loop (suc rounds) true = pure true
registration_loop (suc rounds) false = do
  attempt (recv unnatural_string)
  registered ← gets is_registered_eps
  registration_loop rounds registered

abbrev pub leave_manual : Option ℤ → Act Modem Unit
leave_manual none = pure tt
leave_manual (some status) = if status ==ℤ pos 0 then pure tt else cops 0

abbrev pub search_network : ℕ → Act Modem Bool
search_network at_timeout = do
  status ← attempt get_cops
  attempt (leave_manual status)
  attempt get_cereg
  registered ← gets is_registered_eps
  at_set_timeout 1000
  registered ← registration_loop 180 registered
  at_set_timeout at_timeout
  pure registered

unfoldable pub nwk_registration : Act Modem Bool
unfolding with_lock cereg get_cops cops get_cereg is_registered_eps registration_loop
nwk_registration = with_lock (do
  at_timeout ← gets (λ m. m.at_timeout)
  assert_at
  enabled ← attempt (cereg 1)
  if is_some enabled then search_network at_timeout else pure false)

-- This one takes no lock of its own.
unfoldable pub nwk_deregistration : Act Modem Unit
unfolding cops emit
nwk_deregistration = do assert_at; cops 2; emit (wait_ms 1000); modify clear_registration
