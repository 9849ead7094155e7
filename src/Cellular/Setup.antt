-- ===== src/Cellular/Setup.antt =====
-- init and deinit of UbloxCellularBase.cpp.
use example_ublox_mbed_clien.Prelude.{
  ℕ, zero, suc, Bool, true, false, Option, none, some, List, is_some, if◌then◌else◌,
}
use example_ublox_mbed_clien.Act.{Act, pure, fail, gets, modify, attempt, ◌>>=◌, ◌>>◌}
use example_ublox_mbed_clien.Cellular.{Modem, wait_ms}
use example_ublox_mbed_clien.Cellular.Parser.{emit, assert_at}
use example_ublox_mbed_clien.Cellular.Power.{
  power_up, power_down, set_device_identity, device_init, get_iccid, get_imsi, get_imei, get_meid,
}
use example_ublox_mbed_clien.Cellular.Sim.{initialise_sim_card, set_sms}

-- `for (x = 0; (x < 3) && !(gotImsi = get_imsi()); x++) wait_ms(1000);`, with the rounds left
unfoldable pub imsi_loop : ℕ → Act Modem Unit
imsi_loop zero = fail
imsi_loop (suc rounds) =
    let more = imsi_loop rounds in
    do got ← attempt get_imsi; if is_some got then pure tt else (do emit (wait_ms 1000); more)

abbrev pub keep_pin : Option (List ℕ) → Modem → Modem
keep_pin none m = m
keep_pin (some p) m = record m { pin = some p }

-- The steps of `init`; each is made if those above it succeed.
unfoldable pub bring_up : Option (List ℕ) → Act Modem Unit
unfolding imsi_loop
bring_up pin = do
  power_up
  modify (keep_pin pin)
  initialise_sim_card
  set_device_identity
  dev ← gets (λ m. m.dev)
  device_init dev
  get_iccid
  imsi_loop 3
  get_imei
  get_meid
  set_sms
  modify (λ m. record m { modem_initialised = true })

unfoldable pub init : Option (List ℕ) → Act Modem Bool
unfolding bring_up
init pin = do
  assert_at
  initialised ← gets (λ m. m.modem_initialised)
  if initialised then pure tt else (do attempt (bring_up pin); pure tt)
  gets (λ m. m.modem_initialised)

unfoldable pub deinit : Act Modem Unit
unfolding power_down
deinit = do power_down; modify (λ m. record m { modem_initialised = false })

-- The destructor, which deletes the parser too.
unfoldable pub delete_base : Act Modem Unit
unfolding deinit
delete_base = do deinit; modify (λ m. record m { at = false })
