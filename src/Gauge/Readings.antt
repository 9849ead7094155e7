-- ===== src/Gauge/Readings.antt =====
-- The public functions of bq27441.cpp that measure: isBatteryDetected, getTemperature, getVoltage,
-- getCurrent, getRemainingCapacity, getRemainingPercentage and advancedGet.
use example_ublox_mbed_clien.Prelude.{
  ℕ, ◌/◌, Bool, false, ◌&&◌, Option, none, ℤ, pos, sub_ℕ, bit, get_or, is_some, if◌then◌else◌,
}
use mathlib.Core.Option
use example_ublox_mbed_clien.Act.{Act, pure, attempt, ◌>>=◌, ◌>>◌}
use example_ublox_mbed_clien.Gauge.{Gauge}
use example_ublox_mbed_clien.Gauge.Chip.{get_two_bytes}
use example_ublox_mbed_clien.Gauge.Entry.{when_ready, with_lock, sleep_again, wake_up}

-- The result of a getter: whether it returned true, and the value that it stored, if any, through
-- its pointer where that is not null.
pub record Reading (A : Type 0) : Type 0 where
  pub success : Bool
  pub stored : Option A

abbrev pub no_reading : {A : Type 0} → Reading A
no_reading = record { success = false; stored = none }

-- `if (gReady && …) if (gGaugeOn || makeAdcReading()) { lock; …; unlock }`
unfoldable pub measure : {A : Type 0} → Act Gauge A → Act Gauge A → Act Gauge A
unfolding when_ready wake_up with_lock
measure body otherwise =
    when_ready (do awake ← attempt wake_up; if is_some awake then with_lock body else otherwise)
      otherwise

-- Read a register and go back to sleep; the value counts only if both succeed, but is stored.
abbrev pub read_register : {A : Type 0} → ℕ → (ℕ → A) → Act Gauge (Reading A)
read_register register convert = do
  value ← attempt (get_two_bytes register)
  slept ← attempt sleep_again
  pure (record { success = is_some value && is_some slept; stored = Option.map convert value })

unfoldable pub is_battery_detected : Act Gauge Bool
unfolding measure sleep_again
is_battery_detected =
    measure
      (do flags ← attempt (get_two_bytes 0x06); attempt sleep_again; pure (bit 3 (get_or flags 0)))
      (pure false)

-- tenths of a kelvin to degrees Celsius
unfoldable pub to_celsius : ℕ → ℤ
to_celsius tenths = sub_ℕ (tenths / 10) 273

unfoldable pub get_temperature : Act Gauge (Reading ℤ)
unfolding measure sleep_again
get_temperature = measure (read_register 0x02 to_celsius) (pure no_reading)

unfoldable pub get_voltage : Act Gauge (Reading ℤ)
unfolding measure sleep_again
get_voltage = measure (read_register 0x04 pos) (pure no_reading)

-- `currentMA` is 0 from its declaration on: the register's value is not used.
unfoldable pub get_current : Act Gauge (Reading ℤ)
unfolding measure sleep_again
get_current = measure (read_register 0x10 (λ _. pos 0)) (pure no_reading)

unfoldable pub get_remaining_capacity : Act Gauge (Reading ℤ)
unfolding measure sleep_again
get_remaining_capacity = measure (read_register 0x0c pos) (pure no_reading)

-- It asks for hibernation before the register is read too, and overwrites that result.
unfoldable pub get_remaining_percentage : Act Gauge (Reading ℤ)
unfolding measure sleep_again
get_remaining_percentage =
    measure (do attempt sleep_again; read_register 0x1c pos) (pure no_reading)

-- The chip is not sent back to hibernation here.
unfoldable pub advanced_get : ℕ → Act Gauge (Reading ℕ)
unfolding measure
advanced_get address =
    measure
      (do
        value ← attempt (get_two_bytes address)
        pure (record { success = is_some value; stored = value }))
      (pure no_reading)
