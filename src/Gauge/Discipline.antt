-- ===== src/Gauge/Discipline.antt =====
-- The rule of bq27441.cpp for its bus: every transfer of the private functions is made while the
-- mutex is held ("gpI2c should be locked before this is called"), and never through a null pointer.
pub mod Entry
pub mod Extended
pub mod Calls
pub mod Clients
use example_ublox_mbed_clien.Prelude.{
  ℕ, zero, suc, ◌+◌, ◌-◌, ◌≤◌, ◌<◌, ◌≡◌, refl, Bool, true, false, ◌&&◌, Option, none, some, List,
  [], ◌∷◌, ◌++◌, arith, ℤ, pos, negsuc, Bool-cases, length, leb, length-take, is_some,
  if◌then◌else◌,
}
use example_ublox_mbed_clien.Act.{Act, Outcome, pure, attempt, ◌>>=◌, modify}
use example_ublox_mbed_clien.Act.Safe.{
  Moves, Safe, IsDefined, Safe-bind, Safe-if, Safe-pure, Moves-attempt, Moves-modify, safe_rules,
}
use example_ublox_mbed_clien.Gauge.{
  Event, Gauge, i2c_write, i2c_read, lock, unlock, wait_ms, wait, on_bus, write_with, read,
  acknowledged,
}
use example_ublox_mbed_clien.Gauge.Chip.{
  get_two_bytes, is_sealed, seal, unseal, make_adc_reading, set_hibernate,
}

-- How often the mutex is held after these events; it is recursive.
abbrev pub held : List Event → ℕ
held [] = 0
held (lock ∷ t) = suc (held t)
held (unlock ∷ t) = held t - 1
held (e ∷ t) = held t

-- Every transfer was made with the mutex held, and it was never given back by one who had it not.
abbrev pub IsGuarded : List Event → Type 0
IsGuarded [] = Unit
IsGuarded (i2c_write a b r ∷ t) = (0 < held t) × IsGuarded t
IsGuarded (i2c_read a n ∷ t) = (0 < held t) × IsGuarded t
IsGuarded (unlock ∷ t) = (0 < held t) × IsGuarded t
IsGuarded (e ∷ t) = IsGuarded t

-- Between two calls of a client that holds the mutex `n` times itself.
pub record IsIdle (n : ℕ) (g : Gauge) : Type 0 where
  pub guarded : IsGuarded g.trace
  pub depth : held g.trace ≡ n

-- Inside of a public function, with a bus and the mutex held `n` times.
pub record OnBus (n : ℕ) (g : Gauge) : Type 0 where
  pub present : g.i2c ≡ true
  pub guarded : IsGuarded g.trace
  pub depth : held g.trace ≡ n

module _ {n : ℕ} where
  pub Safe-wait : (ms : ℕ) → Safe (OnBus n) (wait ms)
  unfolding wait
  Safe-wait ms = record { defined = λ g h. tt; at = λ g h. ground arith }

  acknowledged-Safe : Safe (OnBus n) acknowledged
  acknowledged-Safe = record { defined = λ g h. ground arith; at = λ g h. ground arith }

  write_event : (a : ℕ) (b : List ℕ) (r : Bool) → Safe (OnBus (suc n)) (on_bus (i2c_write a b r))
  unfolding on_bus
  write_event a b r = record { defined = λ g h. ground arith; at = λ g h. ground arith }

  read_event : (a : ℕ) (c : ℤ) → Safe (OnBus (suc n)) (on_bus (i2c_read a c))
  unfolding on_bus
  read_event a c = record { defined = λ g h. ground arith; at = λ g h. ground arith }

  lock_event : Moves (OnBus n) (OnBus (suc n)) (on_bus lock)
  unfolding on_bus
  lock_event = record { defined = λ g h. ground arith; at = λ g h. ground arith }

  unlock_event : Moves (OnBus (suc n)) (OnBus n) (on_bus unlock)
  unfolding on_bus
  unlock_event = record { defined = λ g h. ground arith; at = λ g h. ground arith }

ruleset bus_rules = (safe_rules, Safe-wait, acknowledged-Safe, write_event, read_event)

module _ {n : ℕ} where
  pub Safe-write : (r : Bool) (bytes : List ℕ) → Safe (OnBus (suc n)) (write_with r bytes)
  unfolding write_with
  Safe-write r bytes = search bus_rules depth 9

  pub Safe-read : (c : ℤ) → Safe (OnBus (suc n)) (read c)
  unfolding read
  Safe-read c = search bus_rules depth 9

pub ruleset transfer_rules = (safe_rules, Safe-wait, Safe-write, Safe-read)

module _ {n : ℕ} where
  pub Safe-get_two_bytes : (r : ℕ) → Safe (OnBus (suc n)) (get_two_bytes r)
  unfolding get_two_bytes
  Safe-get_two_bytes r = search transfer_rules depth 12

  pub Safe-is_sealed : Safe (OnBus (suc n)) is_sealed
  unfolding is_sealed
  Safe-is_sealed = search (transfer_rules, Safe-get_two_bytes) depth 12

  pub Safe-seal : Safe (OnBus (suc n)) seal
  unfolding seal
  Safe-seal = search (transfer_rules, Safe-get_two_bytes) depth 12

  pub Safe-unseal : (code : ℕ) → Safe (OnBus (suc n)) (unseal code)
  unfolding unseal
  Safe-unseal code = search (transfer_rules, Safe-get_two_bytes) depth 12

  pub Safe-set_hibernate : Safe (OnBus (suc n)) set_hibernate
  unfolding set_hibernate
  Safe-set_hibernate = search transfer_rules

pub ruleset chip_rules =
    (transfer_rules, Safe-get_two_bytes, Safe-is_sealed, Safe-seal, Safe-unseal, Safe-set_hibernate)
