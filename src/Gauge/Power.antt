-- ===== src/Gauge/Power.antt =====
-- The public functions of bq27441.cpp that set the chip up: the constructor, init, enableGauge,
-- disableGauge, isGaugeEnabled, and the battery detect pin.
use example_ublox_mbed_clien.Prelude.{
  ℕ, ◌+◌, ◌-◌, ◌*◌, ◌/◌, ◌%◌, Bool, true, false, not, ◌&&◌, some, List, [], ◌∷◌, pos, u8, bit, ◌==◌,
  is_some, if◌then◌else◌,
}
use example_ublox_mbed_clien.Act.{Act, pure, fail, gets, modify, guard, attempt, ◌>>=◌, ◌>>◌}
use example_ublox_mbed_clien.Gauge.{Gauge, Event, write}
use example_ublox_mbed_clien.Gauge.Chip.{get_two_bytes, set_hibernate}
use example_ublox_mbed_clien.Gauge.Extended.{first_byte, read_extended_data, write_extended_data}
use example_ublox_mbed_clien.Gauge.Entry.{when_ready, with_lock, sleep_again}

-- The constructor, on a bus that answers as the arguments say. It does not set `gAddress`.
abbrev pub new_gauge : ℕ → (List Event → Bool) → (List Event → ℕ → ℕ) → Gauge
new_gauge address ack byte = record {
  i2c = false;
  address = address;
  seal_code = 0;
  ready = false;
  gauge_on = false;
  ack = ack;
  byte = byte;
  trace = [];
}

-- What `init` does under the lock.
unfoldable pub configure : Act Gauge Unit
configure = do
  write (0 ∷ 0x02 ∷ 0 ∷ [])
  answer ← get_two_bytes 0
  guard (answer / 256 == 0x01 && answer % 256 == 0x09)
  write_extended_data 82 (pos 31) (pos 1) (some (u8 (1000 / 256) ∷ u8 1000 ∷ []))
  write_extended_data 82 (pos 32) (pos 1) (some (u8 1000 ∷ []))
  write_extended_data 68 (pos 9) (pos 2) (some (u8 (5000 / 256) ∷ u8 5000 ∷ []))
  hibernating ← attempt set_hibernate
  modify (λ g. record g { ready = is_some hibernating })

-- The first argument says whether `pI2c` is not null. The result is `gReady`, which a failure on
-- the way leaves as it was.
unfoldable pub init : Bool → ℕ → ℕ → Act Gauge Bool
unfolding configure
init present address seal_code = do
  modify (λ g. record g { i2c = present; address = u8 (address * 2); seal_code = seal_code })
  if present then (do attempt (with_lock configure); pure tt) else pure tt
  gets (λ g. g.ready)

-- `x | (1 << 5)` and `x & ~(1 << 5)` of a byte
abbrev set_bit5 : ℕ → ℕ
set_bit5 x = if bit 5 x then x else x + 32

abbrev clear_bit5 : ℕ → ℕ
clear_bit5 x = if bit 5 x then x - 32 else x

abbrev second_byte : List ℕ → ℕ
second_byte (high ∷ low ∷ rest) = low
second_byte _ = 0

-- The low byte of OpConfig is the second of the two.
abbrev update_sleep : Bool → List ℕ → Act Gauge Unit
update_sleep is_slow data_read =
    let low = second_byte data_read in
    let high = first_byte data_read in
    if is_slow && not (bit 5 low)
    then write_extended_data 64 (pos 0) (pos 2) (some (high ∷ set_bit5 low ∷ []))
    else if not is_slow && bit 5 low
    then write_extended_data 64 (pos 0) (pos 2) (some (high ∷ clear_bit5 low ∷ []))
    else pure tt

unfoldable pub enable_gauge : Bool → Act Gauge Unit
unfolding when_ready with_lock
enable_gauge is_slow =
    when_ready
      (with_lock (do
        write (0 ∷ 0x12 ∷ 0 ∷ [])
        modify (λ g. record g { gauge_on = true })
        data_read ← read_extended_data 64 (pos 0) (pos 2) true
        update_sleep is_slow data_read))
      fail

unfoldable pub disable_gauge : Act Gauge Unit
unfolding when_ready with_lock
disable_gauge =
    when_ready (with_lock (do set_hibernate; modify (λ g. record g { gauge_on = false }))) fail

unfoldable pub is_gauge_enabled : Act Gauge Bool
is_gauge_enabled = gets (λ g. g.gauge_on)

-- Whether the chip goes back to sleep is not looked at.
abbrev ignore : Act Gauge Unit → Act Gauge Unit
ignore m = do attempt m; pure tt

unfoldable pub disable_battery_detect : Act Gauge Unit
unfolding when_ready with_lock sleep_again
disable_battery_detect =
    when_ready
      (with_lock (do
        result ← attempt (do
          data_read ← read_extended_data 64 (pos 0) (pos 2) true
          let high = first_byte data_read
          let low = second_byte data_read
          if bit 5 high
              then (do
                write_extended_data 64 (pos 0) (pos 2) (some (clear_bit5 high ∷ low ∷ []))
                write (0 ∷ 0x0c ∷ 0 ∷ []))
              else pure tt)
        ignore sleep_again
        guard (is_some result)))
      fail

unfoldable pub enable_battery_detect : Act Gauge Unit
unfolding when_ready with_lock sleep_again
enable_battery_detect =
    when_ready
      (with_lock (do
        result ← attempt (do
          data_read ← read_extended_data 64 (pos 0) (pos 2) true
          let high = first_byte data_read
          let low = second_byte data_read
          if bit 5 high
              then pure tt
              else write_extended_data 64 (pos 0) (pos 2) (some (set_bit5 high ∷ low ∷ [])))
        ignore sleep_again
        guard (is_some result)))
      fail
