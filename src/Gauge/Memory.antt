-- ===== src/Gauge/Memory.antt =====
-- The copies of writeExtendedData of bq27441.cpp: what reaches the chip, and where they leave their
-- buffers.
use example_ublox_mbed_clien.Prelude.{
  ℕ, ◌+◌, ◌%◌, ◌≤◌, ◌<◌, ◌≡◌, true, false, some, List, [], ◌∷◌, ◌++◌, arith, pos, negsuc, length,
  take, drop,
}
use example_ublox_mbed_clien.Act.{done, fault, ◌>>=◌}
use example_ublox_mbed_clien.Gauge.{Gauge, Event, i2c_write, write_with}
use example_ublox_mbed_clien.Gauge.Chip.{compute_checksum}
use example_ublox_mbed_clien.Gauge.Extended.{data_register, replace_data, in_one_block}

-- The block with `bytes` at `at`.
abbrev spliced : List ℕ → ℕ → List ℕ → List ℕ
spliced block at bytes = take at block ++ bytes ++ drop (at + length bytes) block

-- A write that succeeds has sent exactly two messages: the new bytes at their register, 0x40 plus
-- the offset in the block, and the checksum of the block with these bytes in their place.
pub replace_data-sends :
    (g : Gauge) (block source : List ℕ) (o k : ℕ)
    → (replace_data block (pos o) (pos k) source g).0 ≡ done tt
    → (replace_data block (pos o) (pos k) source g).1.trace
      ≡ i2c_write g.address
          (0x60 ∷ compute_checksum (some (spliced block (o % 32) (take k source))) ∷ [])
          false
        ∷ i2c_write g.address ((0x40 + o % 32) ∷ take k source) false
        ∷ g.trace
unfolding replace_data write_with ◌>>=◌
replace_data-sends g block source o k e = ground arith

-- A negative offset above -32 passes the test for one block, with any length of up to 32 less its
-- distance; if the chip takes the data, the copy into the local block then starts before it.
pub negative_offset-fault :
    (g : Gauge) (block source : List ℕ) (o k : ℕ)
    → 0 < k
    → k ≤ length source
    → k < 32
    → o < 31
    → ((t : List Event) → g.ack t ≡ true)
    → g.i2c ≡ true
    → ((in_one_block (negsuc o) (pos k) g).0 ≡ done true)
      × ((replace_data block (negsuc o) (pos k) source g).0 ≡ fault)
unfolding in_one_block replace_data write_with ◌>>=◌
negative_offset-fault g block source o k h s l b acks present =
    ground
      (arith, acks (i2c_write g.address (data_register (negsuc o) ∷ take k source) false ∷ g.trace))
