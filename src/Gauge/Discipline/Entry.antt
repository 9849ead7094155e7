-- ===== src/Gauge/Discipline/Entry.antt =====
-- The bus rule for the frame of the public functions: mutex, wake-up, return to hibernation.
use example_ublox_mbed_clien.Prelude.{ℕ, suc, ◌≡◌, true, inl, inr, arith, Bool-cases, ◌&&◌}
use example_ublox_mbed_clien.Act.{Act}
use example_ublox_mbed_clien.Act.Safe.{Safe, Safe-bind, Safe-expect}
use example_ublox_mbed_clien.Act.Runs.{Runs, Runs-bind, Runs-attempt}
use example_ublox_mbed_clien.Gauge.{Gauge, lock, unlock, on_bus}
use example_ublox_mbed_clien.Gauge.Chip.{make_adc_reading}
use example_ublox_mbed_clien.Gauge.Entry.{when_ready, with_lock, sleep_again, wake_up}
use example_ublox_mbed_clien.Gauge.Discipline.{OnBus, IsIdle, Safe-write, Safe-wait, chip_rules}

module _ {n : ℕ} where
  lock-Runs : Runs (OnBus n) (OnBus (suc n)) (on_bus lock)
  unfolding on_bus
  lock-Runs = record { finishes = λ g h. ground arith; at = λ g h. ground arith }

  unlock-Runs : Runs (OnBus (suc n)) (OnBus n) (on_bus unlock)
  unfolding on_bus
  unlock-Runs = record { finishes = λ g h. ground arith; at = λ g h. ground arith }

  pub Safe-with_lock :
      {A : Type 0} (m : Act Gauge A) → Safe (OnBus (suc n)) m → Safe (OnBus n) (with_lock m)
  unfolding with_lock
  Safe-with_lock m km =
      Runs-bind _ _ lock-Runs (λ _.
        Runs-bind _ _ (Runs-attempt m km) (λ o. Runs-bind _ _ unlock-Runs (λ _. Safe-expect o)))

  pub Safe-make_adc_reading : Safe (OnBus n) make_adc_reading
  unfolding make_adc_reading
  Safe-make_adc_reading = Runs-bind _ _ lock-Runs (λ _.
      Runs-bind _ _ (Runs-attempt _ (Safe-write _ _))
        (λ o. Runs-bind _ _ unlock-Runs (λ _. Safe-bind _ _ (Safe-wait _) (λ _. Safe-expect o))))

  pub Safe-sleep_again : Safe (OnBus (suc n)) sleep_again
  unfolding sleep_again
  Safe-sleep_again = search chip_rules depth 9

  pub Safe-wake_up : Safe (OnBus n) wake_up
  unfolding wake_up
  Safe-wake_up = search (chip_rules, Safe-make_adc_reading) depth 9

  pub Safe-when_ready :
      {A : Type 0} (m o : Act Gauge A)
      → Safe (OnBus n) m
      → Safe (IsIdle n) o
      → Safe (IsIdle n) (when_ready m o)
  unfolding when_ready
  Safe-when_ready m o km ko = record {
    defined = λ g h. elim (Bool-cases (g.ready && g.i2c)) [
      | inl e ↦ rw e (km.defined g (on_bus_of g h e))
      | inr e ↦ rw e (ko.defined g h)
    ];
    at = λ g h. elim (Bool-cases (g.ready && g.i2c)) [
      | inl e ↦ rw e (off_bus _ (km.at g (on_bus_of g h e)))
      | inr e ↦ rw e (ko.at g h)
    ];
  }
    where
      on_bus_of : (g : Gauge) → IsIdle n g → (g.ready && g.i2c) ≡ true → OnBus n g
      on_bus_of g h e = ground arith

      off_bus : (g : Gauge) → OnBus n g → IsIdle n g
      off_bus g h = record { guarded = h.guarded; depth = h.depth }
