-- ===== src/Gauge/Chip.antt =====
-- The private functions of bq27441.cpp on the control registers: getTwoBytes, computeChecksum,
-- isSealed, seal, unseal, makeAdcReading, setHibernate. The address `gAddress` and the bus are
-- those of the state.
use example_ublox_mbed_clien.Prelude.{
  ℕ, zero, suc, ◌+◌, ◌-◌, ◌*◌, ◌/◌, Bool, not, Option, none, some, List, [], ◌∷◌, pos, u8, bit,
  is_some,
}
use example_ublox_mbed_clien.Act.{Act, pure, gets, guard, attempt, expect, ◌>>=◌, ◌>>◌}
use example_ublox_mbed_clien.Gauge.{Gauge, lock, unlock, wait, on_bus, write, read}

-- the little-endian number that `getTwoBytes` makes of the two bytes read
abbrev pub two_bytes_value : List ℕ → ℕ
two_bytes_value (low ∷ high ∷ rest) = high * 256 + low
two_bytes_value _ = 0

unfoldable pub get_two_bytes : ℕ → Act Gauge ℕ
get_two_bytes register = do
  present ← gets (λ g. g.i2c)
  guard present
  write (register ∷ [])
  bytes ← read (pos 2)
  pure (two_bytes_value bytes)

-- The loop of `computeChecksum` with the rounds that are left. A byte past the end of the block is
-- never read, since every block has 32.
unfoldable pub sum_bytes : ℕ → List ℕ → ℕ → ℕ
sum_bytes zero block check_sum = check_sum
sum_bytes (suc n) [] check_sum = check_sum
sum_bytes (suc n) (x ∷ block) check_sum = sum_bytes n block (u8 (check_sum + x))

-- `none` is the null pointer
unfoldable pub compute_checksum : Option (List ℕ) → ℕ
unfolding sum_bytes
compute_checksum none = 0
compute_checksum (some block) = u8 (255 - sum_bytes 32 block 0)

-- the control command CONTROL_STATUS, and its answer
abbrev control_status : Act Gauge ℕ
control_status = do write (0 ∷ 0 ∷ 0 ∷ []); get_two_bytes 0

unfoldable pub is_sealed : Act Gauge Bool
is_sealed = do
  sealed ← attempt (do status ← control_status; guard (bit 13 status))
  pure (is_some sealed)

unfoldable pub seal : Act Gauge Unit
seal = do write (0 ∷ 0x20 ∷ 0 ∷ []); status ← control_status; guard (bit 13 status)

unfoldable pub unseal : ℕ → Act Gauge Unit
unseal code = do
  write (0 ∷ u8 code ∷ u8 (code / 256) ∷ [])
  write (0 ∷ u8 code ∷ u8 (code / 256) ∷ [])
  status ← control_status
  guard (not (bit 13 status))

-- It takes and gives back the mutex itself, and waits for the reading in every case.
unfoldable pub make_adc_reading : Act Gauge Unit
make_adc_reading = do
  on_bus lock
  success ← attempt (write (0 ∷ 0x12 ∷ 0 ∷ []))
  on_bus unlock
  wait 1000
  expect success

unfoldable pub set_hibernate : Act Gauge Unit
set_hibernate = write (0 ∷ 0x11 ∷ 0 ∷ [])
