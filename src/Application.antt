-- ===== src/Application.antt =====
-- The program, main.cpp and simpleclient.h: its state, what it asks of mbed client, and the callbacks
-- of mbed client and of the user button. Children: `Battery` has batteryPercentage, `Client` the
-- class MbedClient, `Objects` the objects of the device, `Main` main; the others hold proofs.
pub mod Battery
pub mod Client
pub mod Objects
pub mod Main
pub mod Callbacks
mod Tests
pub mod Discipline
use Prim.Native.String.{String}
use example_ublox_mbed_clien.Prelude.{ℕ, Bool, true, false, Option, List, [], ◌∷◌, ℤ, if◌then◌else◌}
use example_ublox_mbed_clien.Act.{
  Outcome, done, failed, fault, Act, pure, gets, modify, ◌>>=◌, ◌>>◌,
}
use example_ublox_mbed_clien.Cellular.{Modem}
use example_ublox_mbed_clien.Gauge.{Gauge}

-- struct MbedClientDevice
pub record Device : Type 0 where
  pub manufacturer : String
  pub type : String
  pub model_number : String
  pub serial_number : String
  pub firmware_version : String
  pub software_version : String
  pub hardware_version : String
  pub battery_level : ℤ
  pub battery_status : ℤ
  pub memory_free : ℤ
  pub memory_total : ℤ
  pub available_power_sources : ℤ

-- The objects that the program makes, as the targets of its pointers.
pub data Object : Type 0 where
  device firmware server led temperature : Object

-- A value of a resource; `macro` is one of security.h, or an enumerator of mbed client.
pub data Value : Type 0 where
  words macro : String → Value
  int : ℤ → Value
  flag : Bool → Value

-- M2MInterface::Error; the last one stands for any other value.
pub data ClientError : Type 0 where
  already_exists bootstrap_failed invalid_parameters not_registered timeout : ClientError
  network_error response_parse_failed unknown_error memory_fail not_allowed : ClientError
  secure_connection_failed dns_resolving_failed other_error : ClientError

-- What the program asks of mbed client and of mbed OS, in the source's order.
pub data Event : Type 0 where
  create_interface : String → ℕ → ℕ → Event  -- endpoint type, life time, port
  set_platform_network_handler : Event
  create_security create_device create_firmware create_server : Event
  create_object : String → Event
  create_object_instance : Object → Event
  create_dynamic_resource : Object → String → String → String → Bool → Event
  set_operation : Object → String → String → Event
  set_execute_function : Object → String → Event
  set_delayed_response : Object → String → Bool → Event
  create_resource : Object → String → Value → Event
  set_resource_value : Object → String → Value → Event
  set_security_value : String → Value → Event
  register_object : Bool → List (Option Object) → Event
  unregister_object : Event
  update_registration : Bool → ℕ → Event
  delete_instance : Event
  delete_interface delete_security : Event
  rise_attached hardware_poll : Event
  use_unset : Event  -- a variable is used before it is set
  srand : ℕ → Event
  heap_get : Event
  look : Event  -- a volatile variable is read
  wait_ms thread_wait : ℕ → Event

-- A callback that runs: one of MbedClient's, or that of the button. `true` is a pointer that is not
-- null.
pub data Arrival : Type 0 where
  button : Arrival
  bootstrap_done : Bool → Arrival
  object_registered object_unregistered registration_updated value_updated : Arrival
  error : ClientError → Arrival

-- The class MbedClient; for a pointer, whether it is not null.
pub record MbedClient : Type 0 where
  pub interface : Bool
  pub register_security : Bool
  pub bootstrapped : Bool
  pub has_error : Bool
  pub registered : Bool
  pub unregistered : Bool
  pub value : ℤ
  pub about : Device
  pub server_address : String

-- The levels of the three pins.
pub record Leds : Type 0 where
  pub red : Bool
  pub green : Bool
  pub blue : Bool

-- The program's variables, the modem's driver and the state that the I2C bus has. What mbed client
-- does is not part of the sources: for the event at the head of the trace, `makes` says whether the
-- object that was asked for is there, `arrivals` which callbacks run before the program goes on, and
-- `heap` the size of the heap.
pub record Board : Type 0 where
  pub modem : Modem
  pub gauge : Gauge
  pub client : MbedClient
  pub leds : Leds
  pub button_pressed : Bool
  pub makes : List Event → Bool
  pub arrivals : List Event → List Arrival
  pub heap : List Event → ℕ
  pub trace : List Event

abbrev pub log : Event → Board → Board
log e b = record b { trace = e ∷ b.trace }

abbrev pub led_on : Board → Board
led_on b = record b { leds = record { red = false; green = true; blue = false } }

abbrev pub led_off : Board → Board
led_off b = record b { leds = record { red = true; green = false; blue = true } }

-- `cbButton`
abbrev pub cb_button : Board → Board
cb_button b = led_on (record b { button_pressed = true })

-- The callbacks of MbedClient.
unfoldable pub note_bootstrap : Bool → MbedClient → MbedClient
note_bootstrap server_object c =
    if server_object then record c { bootstrapped = true; has_error = false } else c

unfoldable pub note_registered : MbedClient → MbedClient
note_registered c = record c { registered = true; unregistered = false }

unfoldable pub note_unregistered : MbedClient → MbedClient
note_unregistered c = record c { unregistered = true; registered = false }

abbrev pub set_client : (MbedClient → MbedClient) → Board → Board
set_client f b = record b { client = f b.client }

unfoldable pub arrive : Arrival → Board → Board
unfolding note_bootstrap note_registered note_unregistered
arrive button b = cb_button b
arrive (bootstrap_done server_object) b = set_client (note_bootstrap server_object) b
arrive object_registered b = set_client note_registered b
arrive object_unregistered b = set_client note_unregistered b
arrive registration_updated b = b
arrive value_updated b = b
arrive (error e) b = set_client (λ c. record c { has_error = true }) b

unfoldable pub arrive_all : List Arrival → Board → Board
unfolding arrive
arrive_all [] b = b
arrive_all (a ∷ as') b = arrive_all as' (arrive a b)

-- The program asks for something, and the callbacks that come in the meantime run.
unfoldable pub ask : Event → Act Board Unit
unfolding arrive_all
ask e = do modify (log e); come ← gets (λ b. b.arrivals b.trace); modify (arrive_all come)

-- The pointer that a factory returns, as a condition.
unfoldable pub ask_for : Event → Act Board Bool
unfolding ask
ask_for e = do
  modify (log e)
  there ← gets (λ b. b.makes b.trace)
  come ← gets (λ b. b.arrivals b.trace)
  modify (arrive_all come)
  pure there

-- `pointer->`, which is undefined behaviour for a null pointer
unfoldable pub dereference : Bool → Act Board Unit
dereference there b = if there then (done tt, b) else (fault, b)

-- A call of a driver's method.
unfoldable pub on_modem : {A : Type 0} → Act Modem A → Act Board A
on_modem m b = let (r, modem) = m b.modem in (r, record b { modem = modem })

unfoldable pub on_gauge : {A : Type 0} → Act Gauge A → Act Board A
on_gauge m b = let (r, gauge) = m b.gauge in (r, record b { gauge = gauge })
