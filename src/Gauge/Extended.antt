-- ===== src/Gauge/Extended.antt =====
-- readExtendedData and writeExtendedData of bq27441.cpp: the chip's data memory, which is read and
-- written in blocks of 32 bytes. The sub-class is a `uint8_t`; the offset and the length are
-- `int32_t`, kept as integers, with undefined behaviour where a sum leaves the type.
use example_ublox_mbed_clien.Prelude.{
  ℕ, zero, suc, ◌+◌, Bool, true, false, not, ◌&&◌, ◌||◌, Option, some, List, [], ◌∷◌, ◌++◌, ℤ, pos,
  negsuc, ◌+ℤ◌, ◌==ℤ◌, leb_ℤ, leb, ◌==◌, tdiv, tmod, to_char, in_int32, bit, same_bool, is_some,
  get_or, length, take, drop, if◌then◌else◌,
}
use example_ublox_mbed_clien.Act.{Act, pure, fail, crash, gets, guard, attempt, expect, ◌>>=◌, ◌>>◌}
use example_ublox_mbed_clien.Gauge.{Gauge, wait, write_with, write, read}
use example_ublox_mbed_clien.Gauge.Chip.{get_two_bytes, compute_checksum, is_sealed, seal, unseal}

-- `offset / 32 == (offset + length - 1) / 32`
unfoldable pub in_one_block : ℤ → ℤ → Act Gauge Bool
in_one_block offset count =
    if in_int32 (offset +ℤ count) && in_int32 (offset +ℤ count +ℤ negsuc 0)
    then pure (tdiv offset 32 ==ℤ tdiv (offset +ℤ count +ℤ negsuc 0) 32)
    else crash

abbrev pub first_byte : List ℕ → ℕ
first_byte [] = 0
first_byte (x ∷ xs) = x

-- Block Data Control, Data Block Class, Block Offset, the block itself and its checksum, which must
-- be right.
unfoldable pub open_block : ℕ → ℤ → Act Gauge (List ℕ)
open_block sub_class offset = do
  write (0x61 ∷ 0 ∷ [])
  write (0x3e ∷ sub_class ∷ [])
  write_with true (0x3f ∷ to_char (tdiv offset 32) ∷ [])
  block ← read (pos 32)
  write_with true (0x60 ∷ [])
  stored ← read (pos 1)
  guard (first_byte stored == compute_checksum (some block))
  pure block

-- `0x40 + (offset % 32)`, as a `char`
abbrev pub data_register : ℤ → ℕ
data_register offset = to_char (pos 0x40 +ℤ tmod offset 32)

unfoldable pub unseal_if : Bool → Act Gauge Unit
unseal_if was_sealed =
    if was_sealed then (do code ← gets (λ g. g.seal_code); unseal code) else pure tt

-- The last argument says whether `pData` is not null.
unfoldable pub read_extended_data : ℕ → ℤ → ℤ → Bool → Act Gauge (List ℕ)
unfolding unseal_if
read_extended_data sub_class offset count wanted = do
  present ← gets (λ g. g.i2c)
  guard (present && leb_ℤ count (pos 32) && wanted)
  same ← in_one_block offset count
  guard same
  was_sealed ← is_sealed
  result ← attempt (do
    unseal_if was_sealed
    open_block sub_class offset
    write_with true (data_register offset ∷ [])
    read count)
  if was_sealed then seal else pure tt
  expect result

-- `do { answer = initial; getTwoBytes(0x06, &answer); … } while (bit 4 is not as wanted)`, with the
-- rounds that are left; it fails when CONFIG_UPDATE_LOOPS rounds have not shown the wanted flag.
unfoldable pub poll_config_update : ℕ → Bool → ℕ → Act Gauge Unit
poll_config_update initial wanted zero = fail
poll_config_update initial wanted (suc rounds) =
    let more = poll_config_update initial wanted rounds in
    do
      answer ← attempt (get_two_bytes 0x06)
      wait 100
      if same_bool (bit 4 (get_or answer initial)) wanted then pure tt else more

abbrev config_update_loops : ℕ
config_update_loops = 200

-- the Config Update command, and the wait for CONFIGUPDATE to be set
unfoldable pub enter_config_update : Act Gauge Unit
unfolding poll_config_update
enter_config_update = do write (0 ∷ 0x13 ∷ 0 ∷ []); poll_config_update 0 true config_update_loops

-- SOFT_RESET, the wait for CONFIGUPDATE to be unset, and UNSEAL_DELAY_MS
unfoldable pub leave_config_update : Bool → Act Gauge Unit
unfolding poll_config_update
leave_config_update was_sealed = do
  write (0 ∷ 0x42 ∷ 0 ∷ [])
  poll_config_update 0xffff false config_update_loops
  if was_sealed then wait 4000 else pure tt

-- What `memcpy(…, pData, length)` reads: undefined if the length is negative, a huge `size_t`, or
-- more than there is.
unfoldable pub copy_from : List ℕ → ℤ → Act Gauge (List ℕ)
copy_from source (pos n) = if leb n (length source) then pure (take n source) else crash
copy_from source (negsuc n) = crash

-- `memcpy(&(block[at]), bytes, …)`: undefined outside of the block
unfoldable pub copy_into : List ℕ → ℤ → List ℕ → Act Gauge (List ℕ)
copy_into block (pos at) bytes =
    if leb (at + length bytes) (length block)
    then pure (take at block ++ bytes ++ drop (at + length bytes) block)
    else crash
copy_into block (negsuc at) bytes = crash

-- The new data, then the checksum of the block as it is now.
unfoldable pub replace_data : List ℕ → ℤ → ℤ → List ℕ → Act Gauge Unit
unfolding copy_from copy_into
replace_data block offset count source = do
  bytes ← copy_from source count
  write (data_register offset ∷ bytes)
  updated ← copy_into block (tmod offset 32) bytes
  write (0x60 ∷ compute_checksum (some updated) ∷ [])

-- The source of the data is `none` for a null pointer. If the write fails, a chip that was sealed
-- is sealed again; if it succeeds, the chip does so itself.
unfoldable pub write_extended_data : ℕ → ℤ → ℤ → Option (List ℕ) → Act Gauge Unit
unfolding unseal_if
write_extended_data sub_class offset count source = do
  present ← gets (λ g. g.i2c)
  guard (present && leb_ℤ count (pos 32) && is_some source)
  same ← in_one_block offset count
  guard same
  was_sealed ← is_sealed
  result ← attempt (do
    unseal_if was_sealed
    enter_config_update
    block ← open_block sub_class offset
    replace_data block offset count (get_or source [])
    leave_config_update was_sealed)
  if is_some result || not was_sealed then pure tt else (do attempt seal; pure tt)
  expect result
