-- ===== src/Application/Battery.antt =====
-- batteryPercentage of simpleclient.h, and memoryFree.
pub mod Endless
use example_ublox_mbed_clien.Prelude.{
  ℕ, zero, suc, ◌+◌, ◌-◌, ◌%◌, ◌^◌, Bool, true, false, Option, none, some, ℤ, pos, negsuc, get_or,
  ltb, if◌then◌else◌,
}
use example_ublox_mbed_clien.Act.{Act, pure, gets, modify, attempt, ◌>>=◌, ◌>>◌}
use example_ublox_mbed_clien.Gauge.{Gauge, wait}
use example_ublox_mbed_clien.Gauge.Power.{
  new_gauge, init, disable_battery_detect, enable_gauge, is_gauge_enabled,
}
use example_ublox_mbed_clien.Gauge.Readings.{Reading, is_battery_detected, get_remaining_percentage}
use example_ublox_mbed_clien.Application.{Board, heap_get, ask}

-- `BatteryGaugeBq27441 gauge;` on the bus that the last object used
abbrev pub declare_gauge : Gauge → Gauge
declare_gauge g = record (new_gauge g.address g.ack g.byte) { trace = g.trace }

-- The value of a reading, or a wait and another round.
abbrev pub use_reading : Reading ℤ → Act Gauge (Option ℤ)
use_reading reading =
    if reading.success
    then pure (some (get_or reading.stored (pos 0)))
    else (do wait 500; pure none)

-- One round of the loop: what it returns if it stops.
unfoldable pub battery_round : Act Gauge (Option ℤ)
unfolding wait is_battery_detected get_remaining_percentage enable_gauge is_gauge_enabled
battery_round = do
  detected ← is_battery_detected
  if detected
      then (do
        on ← is_gauge_enabled
        if on then pure none else attempt (enable_gauge false)
        enabled ← is_gauge_enabled
        if enabled
            then (do reading ← get_remaining_percentage; use_reading reading)
            else pure (some (pos 0)))
      else pure (some (pos 0))

abbrev pub stop_or : Act Gauge (Option ℤ) → Option ℤ → Act Gauge (Option ℤ)
stop_or more none = more
stop_or more (some result) = pure (some result)

-- `while (!stop)`, with a number of rounds; `none` says that they did not suffice.
unfoldable pub battery_loop : ℕ → Act Gauge (Option ℤ)
unfolding battery_round wait
battery_loop zero = pure none
battery_loop (suc rounds) =
    let more = battery_loop rounds in do result ← battery_round; wait 500; stop_or more result

-- The flag says whether TARGET_UBLOX_C030 is defined.
unfoldable pub battery_percentage : Bool → ℕ → Act Gauge (Option ℤ)
unfolding battery_loop init disable_battery_detect
battery_percentage on_c030 rounds = do
  modify declare_gauge
  ready ← init true 0x55 0x8000
  if ready
      then (do if on_c030 then attempt disable_battery_detect else pure none; battery_loop rounds)
      else pure (some (pos 0))

-- An `unsigned int` as an `int`.
abbrev as_int : ℕ → ℤ
as_int n = if ltb n (2 ^ 31) then pos n else negsuc (2 ^ 32 - 1 - n)

-- What is left of 192000 bytes, without the block that is taken for the first look.
unfoldable pub memory_free : Act Board ℤ
unfolding ask
memory_free = do
  ask heap_get
  ask heap_get
  size ← gets (λ b. b.heap b.trace)
  pure (as_int ((192000 + 2 ^ 32 - size % 2 ^ 32) % 2 ^ 32))
