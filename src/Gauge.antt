-- ===== src/Gauge.antt =====
-- The battery gauge driver, battery-gauge-bq27441/bq27441.cpp and battery_gauge_bq27441.h: the
-- object, and its use of the I2C bus. Children: `Chip` has the private functions on the control
-- registers, `Extended` those on the chip's data memory, `Api` the public functions; the others
-- hold proofs.
pub mod Chip
pub mod Extended
pub mod Entry
pub mod Power
pub mod Readings
pub mod Advanced
pub mod Calls
pub mod Discipline
pub mod Checksum
pub mod Values
pub mod Memory
pub mod Init
pub mod Sealing
mod Tests
use example_ublox_mbed_clien.Prelude.{
  ℕ, Bool, false, List, ◌∷◌, ℤ, pos_part, u8, tabulate, if◌then◌else◌,
}
use example_ublox_mbed_clien.Act.{Act, modify, guard, gets, ◌>>=◌, ◌>>◌, done, fault}

-- What the driver asks of mbed: the I2C transfers, the mutex of the bus, and delays.
pub data Event : Type 0 where
  i2c_write : ℕ → List ℕ → Bool → Event  -- address, bytes, no stop condition
  i2c_read : ℕ → ℤ → Event  -- address, length
  lock unlock : Event
  wait_ms : ℕ → Event

-- The object. The bus and the chip are not part of the sources: they are any functions of what was
-- asked so far, newest first. `ack t` says whether the transfer at the head of `t` returned 0, and
-- `byte t i` is the `i`-th byte that it put into the buffer.
pub record Gauge : Type 0 where
  pub i2c : Bool  -- gpI2c != NULL
  pub address : ℕ  -- uint8_t
  pub seal_code : ℕ  -- uint16_t
  pub ready : Bool
  pub gauge_on : Bool
  pub ack : List Event → Bool
  pub byte : List Event → ℕ → ℕ
  pub trace : List Event

abbrev pub emit : Event → Gauge → Gauge
emit e g = record g { trace = e ∷ g.trace }

-- `wait_ms(ms)`
unfoldable pub wait : ℕ → Act Gauge Unit
wait ms = modify (emit (wait_ms ms))

-- Through the null pointer a call is undefined behaviour.
unfoldable pub on_bus : Event → Act Gauge Unit
on_bus e g = if g.i2c then (done tt, emit e g) else (fault, g)

-- A condition on the transfer that was made last.
abbrev acknowledged : Act Gauge Unit
acknowledged g = guard (g.ack g.trace) g

-- `gpI2c->write(gAddress, bytes, length, repeated) == 0`, as a condition
unfoldable pub write_with : Bool → List ℕ → Act Gauge Unit
unfolding on_bus
write_with repeated bytes = do
  address ← gets (λ g. g.address)
  on_bus (i2c_write address bytes repeated)
  acknowledged

abbrev pub write : List ℕ → Act Gauge Unit
write = write_with false

-- `gpI2c->read(gAddress, buffer, length) == 0`, as a condition: the bytes that it put there. What
-- is in the buffer after a refused read is never used.
unfoldable pub read : ℤ → Act Gauge (List ℕ)
unfolding on_bus
read length = do
  address ← gets (λ g. g.address)
  on_bus (i2c_read address length)
  acknowledged
  gets (λ g. tabulate (pos_part length) 0 (λ i. u8 (g.byte g.trace i)))
