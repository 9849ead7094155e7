-- ===== src/Gauge/Entry.antt =====
-- What the public functions of bq27441.cpp have in common: the test `gReady && (gpI2c != NULL)`,
-- the mutex held round a body, the wake-up before a measurement and the return to hibernation.
use example_ublox_mbed_clien.Prelude.{◌&&◌, if◌then◌else◌}
use example_ublox_mbed_clien.Act.{Act, pure, gets, attempt, expect, ◌>>=◌, ◌>>◌}
use example_ublox_mbed_clien.Gauge.{Gauge, lock, unlock, on_bus}
use example_ublox_mbed_clien.Gauge.Chip.{make_adc_reading, set_hibernate}

-- `if (gReady && (gpI2c != NULL)) { … }`, with what is returned otherwise
unfoldable pub when_ready : {A : Type 0} → Act Gauge A → Act Gauge A → Act Gauge A
when_ready body otherwise g = if g.ready && g.i2c then body g else otherwise g

-- `gpI2c->lock(); … gpI2c->unlock();`: the body's failure comes out behind the unlock.
unfoldable pub with_lock : {A : Type 0} → Act Gauge A → Act Gauge A
unfolding on_bus
with_lock body = do on_bus lock; result ← attempt body; on_bus unlock; expect result

-- `if (!gGaugeOn && !setHibernate()) fail`
unfoldable pub sleep_again : Act Gauge Unit
unfolding set_hibernate
sleep_again = do on ← gets (λ g. g.gauge_on); if on then pure tt else set_hibernate

-- `gGaugeOn || makeAdcReading()`, as a condition
unfoldable pub wake_up : Act Gauge Unit
unfolding make_adc_reading
wake_up = do on ← gets (λ g. g.gauge_on); if on then pure tt else make_adc_reading
