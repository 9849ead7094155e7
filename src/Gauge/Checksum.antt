-- ===== src/Gauge/Checksum.antt =====
-- computeChecksum of bq27441.cpp, against the arithmetic definition of the chip's checksum.
use example_ublox_mbed_clien.Prelude.{
  ℕ, zero, suc, ◌+◌, ◌-◌, ◌%◌, ◌≤◌, ◌<◌, ◌≡◌, ◌≢◌, some, List, [], ◌∷◌, ◌++◌, arith, length,
  length-append,
}
use example_ublox_mbed_clien.Gauge.Chip.{sum_bytes, compute_checksum}

-- The sum of the bytes, with no wrap-around.
unfoldable pub total : List ℕ → ℕ
total [] = 0
total (x ∷ xs) = x + total xs

total-append : (xs ys : List ℕ) → total (xs ++ ys) ≡ total xs + total ys
unfolding total
total-append [] ys = omega arith
total-append (x ∷ xs) ys = omega (arith, total-append xs ys)

sum_bytes-total :
    (n : ℕ) (xs : List ℕ) (acc : ℕ)
    → length xs ≤ n
    → acc < 256
    → sum_bytes n xs acc ≡ (acc + total xs) % 256
unfolding sum_bytes total
sum_bytes-total zero [] acc h small = omega arith
sum_bytes-total zero (x ∷ xs) acc h small = absurd (omega arith)
sum_bytes-total (suc n) [] acc h small = omega arith
sum_bytes-total (suc n) (x ∷ xs) acc h small =
    omega (arith, sum_bytes-total n xs ((acc + x) % 256) (omega arith) (omega arith))

-- The checksum of a block of at most 32 bytes is 255 less the sum of the bytes modulo 256.
compute_checksum-total :
    (block : List ℕ) → length block ≤ 32 → compute_checksum (some block) ≡ 255 - total block % 256
unfolding compute_checksum
compute_checksum-total block h = omega (arith, sum_bytes-total 32 block 0 h (omega arith))

-- For a block of at most 32 bytes: the checksum is a byte, and it brings the sum of all the bytes
-- of the block and itself to 255 modulo 256.
pub compute_checksum_complement :
    (block : List ℕ)
    → length block ≤ 32
    → (compute_checksum (some block) < 256)
      × ((total block + compute_checksum (some block)) % 256 ≡ 255)
compute_checksum_complement block h = omega (arith, compute_checksum-total block h)

-- The checksum notices every change of a single byte to another one, in a block of at most 32.
pub compute_checksum_detects :
    (before after : List ℕ) (x y : ℕ)
    → length (before ++ x ∷ after) ≤ 32
    → x < 256
    → y < 256
    → x ≢ y
    → compute_checksum (some (before ++ x ∷ after)) ≢ compute_checksum (some (before ++ y ∷ after))
unfolding total
compute_checksum_detects before after x y h hx hy ne e = ne (
    omega (
      arith,
      compute_checksum-total (before ++ x ∷ after) h,
      compute_checksum-total (before ++ y ∷ after)
          (omega (arith, length-append before (x ∷ after), length-append before (y ∷ after))),
      total-append before (x ∷ after),
      total-append before (y ∷ after),
    ))
