-- ===== src/Application/Battery/Endless.antt =====
-- The loop of batteryPercentage in simpleclient.h on a chip that does not tell the charge.
use example_ublox_mbed_clien.Prelude.{
  ℕ, zero, suc, ◌+◌, ◌*◌, ◌≡◌, refl, true, false, none, List, [], ◌∷◌, pos, u8, bit, arith,
}
use example_ublox_mbed_clien.Act.{done, ◌>>=◌, attempt}
use example_ublox_mbed_clien.Gauge.{
  Gauge, Event, i2c_write, i2c_read, lock, unlock, wait_ms, wait, read, write_with,
}
use example_ublox_mbed_clien.Gauge.Chip.{get_two_bytes}
use example_ublox_mbed_clien.Gauge.Power.{is_gauge_enabled}
use example_ublox_mbed_clien.Gauge.Readings.{
  is_battery_detected, get_remaining_percentage, no_reading,
}
use example_ublox_mbed_clien.Application.Battery.{battery_round, battery_loop}

-- The gauge is on and the chip tells the flags, with a battery, and refuses to be asked for the charge.
pub record IsMute (g : Gauge) : Type 0 where
  pub ready : g.ready ≡ true
  pub present : g.i2c ≡ true
  pub on : g.gauge_on ≡ true
  pub asked : (t : List Event) → g.ack (i2c_write g.address (0x06 ∷ []) false ∷ t) ≡ true
  pub told : (t : List Event) → g.ack (i2c_read g.address (pos 2) ∷ t) ≡ true
  pub battery :
      (t : List Event)
      → bit 3 (
          u8 (g.byte (i2c_read g.address (pos 2) ∷ t) 1) * 256
          + u8 (g.byte (i2c_read g.address (pos 2) ∷ t) 0))
        ≡ true
  pub refused : (t : List Event) → g.ack (i2c_write g.address (0x1c ∷ []) false ∷ t) ≡ false

-- The trace of the question for the flags.
abbrev flags_asked : Gauge → List Event
flags_asked g = i2c_read g.address (pos 2) ∷ i2c_write g.address (0x06 ∷ []) false ∷ lock ∷ g.trace

detected :
    (g : Gauge)
    → IsMute g
    → is_battery_detected g ≡ (done true, record g { trace = unlock ∷ flags_asked g })
unfolding is_battery_detected get_two_bytes read write_with ◌>>=◌ attempt
detected g h = ground (
  arith,
  h.ready,
  h.present,
  h.on,
  h.asked (lock ∷ g.trace),
  h.told (i2c_write g.address (0x06 ∷ []) false ∷ lock ∷ g.trace),
  h.battery (i2c_write g.address (0x06 ∷ []) false ∷ lock ∷ g.trace),
)

unread :
    (g : Gauge)
    → IsMute g
    → get_remaining_percentage g ≡ (
      done no_reading,
      record g { trace = unlock ∷ i2c_write g.address (0x1c ∷ []) false ∷ lock ∷ g.trace },
    )
unfolding get_remaining_percentage get_two_bytes read write_with ◌>>=◌ attempt
unread g h = ground (arith, h.ready, h.present, h.on, h.refused (lock ∷ g.trace))

IsMute-later : (g : Gauge) (t : List Event) → IsMute g → IsMute (record g { trace = t })
IsMute-later g t h = record {
  ready = h.ready;
  present = h.present;
  on = h.on;
  asked = h.asked;
  told = h.told;
  battery = h.battery;
  refused = h.refused;
}

-- The flag itself in place of its value.
IsMute-on :
    (g : Gauge) (t : List Event) → IsMute g → IsMute (record g { gauge_on = true; trace = t })
IsMute-on g t h = record {
  ready = h.ready;
  present = h.present;
  on = refl;
  asked = h.asked;
  told = h.told;
  battery = h.battery;
  refused = h.refused;
}

-- The trace of a round, up to its first wait.
abbrev round_trace : Gauge → List Event
round_trace g =
    wait_ms 500 ∷ unlock ∷ i2c_write g.address (0x1c ∷ []) false ∷ lock ∷ unlock ∷ flags_asked g

mute_round :
    (g : Gauge) → IsMute g → battery_round g ≡ (done none, record g { trace = round_trace g })
unfolding battery_round is_gauge_enabled wait ◌>>=◌
mute_round g h =
    rw
      (
        detected g h,
        h.on,
        unread (record g { gauge_on = true; trace = unlock ∷ flags_asked g }) (IsMute-on g _ h),
      )
      refl

-- A gauge that is on, with a battery, and a chip that tells its flags but refuses to be asked for the
-- charge: no number of rounds is enough for batteryPercentage's loop.
pub battery_loop-endless :
    (rounds : ℕ) (g : Gauge) → IsMute g → (battery_loop rounds g).0 ≡ done none
unfolding battery_loop wait ◌>>=◌
battery_loop-endless zero g h = refl
battery_loop-endless (suc rounds) g h = rw (mute_round g h) (
    battery_loop-endless rounds (record g { trace = wait_ms 500 ∷ round_trace g })
      (IsMute-later g _ h))
