-- ===== src/Application/Main.antt =====
-- main of main.cpp, with UbloxATCellularInterface as INTERFACE_CLASS.
use example_ublox_mbed_clien.Prelude.{
  ℕ, zero, suc, Bool, true, false, Option, none, some, List, [], ◌∷◌, ℤ, pos, codes, is_some,
  if◌then◌else◌,
}
use example_ublox_mbed_clien.Act.{Act, pure, gets, modify, ◌>>=◌, ◌>>◌}
use example_ublox_mbed_clien.Cellular.Setup.{init, deinit}
use example_ublox_mbed_clien.Sockets.{NsapiError, ok}
use example_ublox_mbed_clien.Connection.{set_credentials}
use example_ublox_mbed_clien.Connection.Connect.{connect, disconnect}
use example_ublox_mbed_clien.Connection.Events.{new_interface}
use example_ublox_mbed_clien.Application.{
  Device, Object, device, int, Board, led_on, led_off, ask, dereference, on_modem, on_gauge,
  set_resource_value, rise_attached, use_unset, srand, hardware_poll, delete_instance, look,
  wait_ms, thread_wait,
}
use example_ublox_mbed_clien.Application.Battery.{battery_percentage, memory_free}
use example_ublox_mbed_clien.Application.Client.{
  new_client, create_client_interface, create_register_object, register_successful, test_register,
  test_unregister, test_update_register, set_register_object,
}
use example_ublox_mbed_clien.Application.Objects.{
  create_device_object, create_firmware_object, create_server_object, led_resource, temp_resource,
}

-- The macros of the build, the numbers of rounds for the loops, and what the variable `seed` holds
-- before it is set.
pub record Setting : Type 0 where
  pub on_c030 : Bool
  pub seed : ℕ
  pub baud : ℕ
  pub apn_rounds : ℕ
  pub battery_rounds : ℕ
  pub loop_rounds : ℕ

-- The struct `device`.
abbrev pub this_device : Device
this_device = record {
  manufacturer = "ublox";
  type = "nbiot";
  model_number = "C030-N211-0-00";
  serial_number = "0590";
  firmware_version = "1.1";
  software_version = "1.2";
  hardware_version = "1.3";
  battery_level = pos 0;
  battery_status = pos 0;
  memory_free = pos 0;
  memory_total = pos 192000;
  available_power_sources = pos 1;
}

abbrev pub is_ok : NsapiError → Bool
is_ok ok = true
is_ok e = false

-- The new values of the device object, and the update of the registration. The result of this and of
-- what follows is false if some loop needs more rounds.
unfoldable pub send_values : Option Object → Option ℤ → Act Board Bool
unfolding ask dereference memory_free test_update_register
send_values device_object none = pure false
send_values device_object (some percentage) = do
  dereference (is_some device_object)
  ask (set_resource_value device "BatteryLevel" (int percentage))
  free ← memory_free
  dereference (is_some device_object)
  ask (set_resource_value device "MemoryFree" (int free))
  test_update_register
  pure true

-- What a round does while it is connected.
unfoldable pub keep_registered :
    Setting → Option Object → Bool → List (Option Object) → Act Board Bool
unfolding on_gauge battery_percentage register_successful test_register send_values
keep_registered s device_object register_object_there objects = do
  registered ← register_successful
  if registered
      then (do
        percentage ← on_gauge (battery_percentage s.on_c030 s.battery_rounds)
        send_values device_object percentage)
      else (do test_register register_object_there objects; pure true)

abbrev pub end_round : Bool → Act Board Bool
end_round false = pure false
end_round true = do modify led_off; ask (thread_wait 30000); pure true

unfoldable pub after_connect : Option NsapiError → Act Board Bool → Act Board Bool
unfolding ask
after_connect none connected = pure false
after_connect (some e) connected = do
  went ← if is_ok e then connected else (do modify led_off; pure true)
  end_round went

unfoldable pub main_round : Setting → Option Object → Bool → List (Option Object) → Act Board Bool
unfolding on_modem connect after_connect keep_registered
main_round s device_object register_object_there objects = do
  modify led_on
  result ← on_modem (connect s.apn_rounds)
  after_connect result (keep_registered s device_object register_object_there objects)

-- `while (!buttonPressed)`
unfoldable pub main_loop : Act Board Bool → ℕ → Act Board Bool
unfolding ask
main_loop round zero = pure false
main_loop round (suc rounds) =
    let more = main_loop round rounds in
    do
      ask look
      pressed ← gets (λ b. b.button_pressed)
      if pressed then pure true else (do went ← round; if went then more else pure false)

unfoldable pub stop : Act Board Unit
unfolding ask on_modem test_unregister disconnect deinit
stop = do
  ask (wait_ms 500)
  test_unregister
  on_modem disconnect
  on_modem deinit
  modify led_off
  ask delete_instance

-- What is done with a modem that is ready.
unfoldable pub serve : Setting → Option Object → Option Object → Act Board Bool
unfolding create_client_interface create_register_object create_device_object create_firmware_object
    create_server_object set_register_object on_modem set_credentials main_round main_loop stop
serve s led_object temp_object = do
  create_client_interface "coap://169.45.82.18:5684"
  security ← create_register_object
  device_object ← create_device_object
  firmware_object ← create_firmware_object
  server_object ← create_server_object
  set_register_object security
  on_modem (set_credentials none none none)
  let objects = device_object ∷ firmware_object ∷ server_object ∷ led_object ∷ temp_object ∷ []
  ended ← main_loop (main_round s device_object security objects) s.loop_rounds
  if ended then (do stop; pure true) else pure false

-- The local objects, the button, and the random seed.
abbrev pub set_up : ℕ → Board → Board
set_up baud b = record (led_off b) {
  modem = new_interface baud b.modem;
  client = new_client this_device;
}

-- The random seed is used before it is set. That is undefined in C++; the trace notes it, and any
-- number is used.
unfoldable pub main : Setting → Act Board Bool
unfolding new_interface led_resource temp_resource ask on_modem init serve
main s = do
  modify (set_up s.baud)
  led_object ← led_resource
  temp_object ← temp_resource
  ask rise_attached
  ask use_unset
  ask (srand s.seed)
  ask hardware_poll
  ready ← on_modem (init (some (codes "0000")))
  if ready then serve s led_object temp_object else (do modify led_off; pure true)
