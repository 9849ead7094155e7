-- ===== src/Gauge/Calls.antt =====
-- The public functions of bq27441.cpp as calls that a client makes, one after the other.
use example_ublox_mbed_clien.Prelude.{
  ℕ, ◌+◌, ◌≤◌, ◌<◌, ◌^◌, Bool, Option, none, some, List, [], ◌∷◌, ℤ, pos, length,
}
use example_ublox_mbed_clien.Act.{Act, pure, attempt, ◌>>◌}
use example_ublox_mbed_clien.Gauge.{Gauge}
use example_ublox_mbed_clien.Gauge.Power
use example_ublox_mbed_clien.Gauge.Readings
use example_ublox_mbed_clien.Gauge.Advanced

-- One constructor for each public function, with its arguments. A pointer that is not null is
-- `true`, or the data behind it.
pub data Call : Type 0 where
  init : Bool → ℕ → ℕ → Call
  enable_gauge : Bool → Call
  disable_gauge is_gauge_enabled disable_battery_detect enable_battery_detect : Call
  is_battery_detected get_temperature get_voltage get_current : Call
  get_remaining_capacity get_remaining_percentage : Call
  advanced_get_config : ℕ → ℤ → ℤ → Bool → Call
  advanced_set_config : ℕ → ℤ → ℤ → Option (List ℕ) → Call
  advanced_send_control_word : ℕ → Bool → Call
  advanced_get : ℕ → Call
  advanced_is_sealed advanced_seal : Call
  advanced_unseal : ℕ → Call
  advanced_reset : Call

abbrev drop_value : {A : Type 0} → Act Gauge A → Act Gauge Unit
drop_value m = do m; pure tt

unfoldable pub run_call : Call → Act Gauge Unit
run_call (init present address code) = drop_value (Power.init present address code)
run_call (enable_gauge is_slow) = Power.enable_gauge is_slow
run_call disable_gauge = Power.disable_gauge
run_call is_gauge_enabled = drop_value Power.is_gauge_enabled
run_call disable_battery_detect = Power.disable_battery_detect
run_call enable_battery_detect = Power.enable_battery_detect
run_call is_battery_detected = drop_value Readings.is_battery_detected
run_call get_temperature = drop_value Readings.get_temperature
run_call get_voltage = drop_value Readings.get_voltage
run_call get_current = drop_value Readings.get_current
run_call get_remaining_capacity = drop_value Readings.get_remaining_capacity
run_call get_remaining_percentage = drop_value Readings.get_remaining_percentage
run_call (advanced_get_config sub offset count wanted) =
    drop_value (Advanced.advanced_get_config sub offset count wanted)
run_call (advanced_set_config sub offset count source) =
    Advanced.advanced_set_config sub offset count source
run_call (advanced_send_control_word word wanted) =
    drop_value (Advanced.advanced_send_control_word word wanted)
run_call (advanced_get address) = drop_value (Readings.advanced_get address)
run_call advanced_is_sealed = drop_value Advanced.advanced_is_sealed
run_call advanced_seal = Advanced.advanced_seal
run_call (advanced_unseal code) = Advanced.advanced_unseal code
run_call advanced_reset = Advanced.advanced_reset

-- A client goes on after a call that returned false.
unfoldable pub run_calls : List Call → Act Gauge Unit
unfolding run_call
run_calls [] = pure tt
run_calls (c ∷ cs) = do attempt (run_call c); run_calls cs

-- What the driver does not check itself: offsets and lengths are not negative and within the type,
-- and the data of a write is as long as its length says.
abbrev pub IsProper : Call → Type 0
IsProper (advanced_get_config sub (pos o) (pos k) wanted) = o + k < 2 ^ 31
IsProper (advanced_get_config sub offset count wanted) = ⊥
IsProper (advanced_set_config sub (pos o) (pos k) (some source)) =
    (o + k < 2 ^ 31) × (k ≤ length source)
IsProper (advanced_set_config sub offset count none) = Unit
IsProper (advanced_set_config sub offset count source) = ⊥
IsProper c = Unit

abbrev pub AllProper : List Call → Type 0
AllProper [] = Unit
AllProper (c ∷ cs) = IsProper c × AllProper cs
