-- ===== src/Gauge/Init.antt =====
-- `init` of bq27441.cpp when it is called again, as the header asks for after a change of the seal
-- code; and the public functions before it has succeeded.
use example_ublox_mbed_clien.Prelude.{
  ℕ, ◌*◌, ◌≡◌, refl, true, false, Bool, List, [], ◌∷◌, arith, u8,
}
use example_ublox_mbed_clien.Act.{done, failed, ◌>>=◌, attempt}
use example_ublox_mbed_clien.Gauge.{Gauge, Event, i2c_write, write_with, lock, unlock}
use example_ublox_mbed_clien.Gauge.Power.{configure}
use example_ublox_mbed_clien.Gauge.Power
use example_ublox_mbed_clien.Gauge.Readings
use example_ublox_mbed_clien.Gauge.Advanced
use example_ublox_mbed_clien.Gauge.Entry.{with_lock}
use example_ublox_mbed_clien.Gauge.Calls.{Call, init, is_gauge_enabled, run_call}

-- Is it a call of `init`?
abbrev is_init : Call → Bool
is_init (init present address code) = true
is_init c = false

-- The lock, the refused command, the unlock.
with_lock_refused :
    (g : Gauge)
    → g.i2c ≡ true
    → ((t : List Event) → g.ack t ≡ false)
    → with_lock configure g ≡ (
      failed,
      record g { trace = unlock ∷ i2c_write g.address (0 ∷ 2 ∷ 0 ∷ []) false ∷ lock ∷ g.trace },
    )
unfolding with_lock configure write_with ◌>>=◌ attempt
with_lock_refused g present refused =
    ground (arith, refused (i2c_write g.address (0 ∷ 2 ∷ 0 ∷ []) false ∷ lock ∷ g.trace))

-- `gReady` is not reset: when no transfer is acknowledged, or there is no bus at all, `init` of a
-- gauge that was ready before returns true, and the gauge stays ready.
pub init-stale :
    (g : Gauge) (present : Bool) (address code : ℕ)
    → g.ready ≡ true
    → ((t : List Event) → g.ack t ≡ false)
    → ((Power.init present address code g).0 ≡ done true)
      × ((Power.init present address code g).1.i2c ≡ present)
      × ((Power.init present address code g).1.ready ≡ true)
unfolding Power.init ◌>>=◌ attempt
init-stale g true address code ready refused = ground (
  arith,
  with_lock_refused (record g { i2c = true; address = u8 (address * 2); seal_code = code }) refl
      refused,
)
init-stale g false address code ready refused = (rw ready, refl, ready)

-- Until `init` has succeeded, no other public function asks anything of the bus or changes the
-- object.
pub run_call-unready :
    (c : Call) (g : Gauge) → is_init c ≡ false → g.ready ≡ false → (run_call c g).1 ≡ g
unfolding run_call Power.enable_gauge Power.disable_gauge Power.is_gauge_enabled
    Power.disable_battery_detect Power.enable_battery_detect Readings.is_battery_detected
    Readings.get_temperature Readings.get_voltage Readings.get_current
    Readings.get_remaining_capacity Readings.get_remaining_percentage Readings.advanced_get
    Advanced.advanced_get_config Advanced.advanced_set_config Advanced.advanced_send_control_word
    Advanced.advanced_is_sealed Advanced.advanced_seal Advanced.advanced_unseal
    Advanced.advanced_reset ◌>>=◌
run_call-unready (init present address code) g h unready = cc
run_call-unready is_gauge_enabled g h unready = refl
run_call-unready _ g h unready = rw unready
