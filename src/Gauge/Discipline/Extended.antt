-- ===== src/Gauge/Discipline/Extended.antt =====
-- The bus rule and memory safety for readExtendedData and writeExtendedData of bq27441.cpp.
use example_ublox_mbed_clien.Prelude.{
  ℕ, zero, suc, ◌+◌, ◌%◌, ◌^◌, ◌≤◌, ◌<◌, ◌≡◌, refl, sym, ◌∙◌, true, Bool, some, List, ℤ, pos, arith,
  length, length-take, length-tabulate, tdiv, ◌+ℤ◌, negsuc, ◌==ℤ◌,
}
use example_ublox_mbed_clien.Act.{Act, guard, pure, ◌>>=◌, ◌>>◌}
use example_ublox_mbed_clien.Act.Safe.{
  Safe, Safe-guard_then, Safe-bind, Safe-if, Moves-attempt, Safe-guard, Safe-pure, Safe-gets,
}
use example_ublox_mbed_clien.Act.Yields.{
  Yields, Yields-bind, Yields-last, Yields-pure, Yields-gets, Safe-bind-Yields,
}
use example_ublox_mbed_clien.Gauge.{Gauge, read}
use example_ublox_mbed_clien.Gauge.Extended.{
  in_one_block, open_block, unseal_if, read_extended_data, poll_config_update, enter_config_update,
  leave_config_update, copy_from, copy_into, replace_data, write_extended_data,
}
use example_ublox_mbed_clien.Gauge.Discipline.{
  OnBus, Safe-is_sealed, Safe-get_two_bytes, Safe-wait, Safe-write, chip_rules,
}

-- The test that guards a transfer of `n` bytes at offset `o`.
abbrev pub same_block : ℕ → ℕ → Bool
same_block o n = tdiv (pos o) 32 ==ℤ tdiv (pos o +ℤ pos n +ℤ negsuc 0) 32

in_one_block_lem : (o n : ℕ) → o + n < 2 ^ 31 → in_one_block (pos o) (pos n) ≡ pure (same_block o n)
unfolding in_one_block
in_one_block_lem o n h = ground arith

-- A block that the test lets pass holds all the bytes.
pub same_block-fits : (o n : ℕ) → same_block o n ≡ true → o % 32 + n ≤ 32
same_block-fits o n h = ground arith

-- A transfer that succeeds fills the buffer.
read-length : (n : ℕ) → Yields (λ b. length b ≡ n) (read (pos n))
unfolding read
read-length n =
    Yields-last _ _ (λ _.
      Yields-last _ _ (λ _. Yields-last _ _ (λ _. Yields-gets _ (λ g. length-tabulate n 0 _))))

open_block-length : (sub : ℕ) (offset : ℤ) → Yields (λ b. length b ≡ 32) (open_block sub offset)
unfolding open_block
open_block-length sub offset = Yields-last _ _ (λ _. Yields-last _ _ (λ _. Yields-last _ _ (λ _.
    Yields-bind _ _ (read-length 32) (λ b e.
      Yields-last _ _ (λ _. Yields-last _ _ (λ _. Yields-last _ _ (λ _. Yields-pure b e)))))))

module _ {n : ℕ} where
  Safe-unseal_if : (b : Bool) → Safe (OnBus (suc n)) (unseal_if b)
  unfolding unseal_if
  Safe-unseal_if b = search chip_rules depth 9

  Safe-open_block : (sub : ℕ) (offset : ℤ) → Safe (OnBus (suc n)) (open_block sub offset)
  unfolding open_block
  Safe-open_block sub offset = search chip_rules depth 20

  Safe-poll_config_update :
      (initial : ℕ) (wanted : Bool) (rounds : ℕ)
      → Safe (OnBus (suc n)) (poll_config_update initial wanted rounds)
  unfolding poll_config_update
  Safe-poll_config_update initial wanted zero = search chip_rules
  Safe-poll_config_update initial wanted (suc rounds) =
      Safe-bind _ _ (Moves-attempt _ (Safe-get_two_bytes _)) (λ answer.
        Safe-bind _ _ (Safe-wait _)
          (λ _. Safe-if _ _ _ (Safe-pure tt) (Safe-poll_config_update initial wanted rounds)))

  Safe-enter_config_update : Safe (OnBus (suc n)) enter_config_update
  unfolding enter_config_update
  Safe-enter_config_update = search (chip_rules, Safe-poll_config_update) depth 9

  Safe-leave_config_update : (b : Bool) → Safe (OnBus (suc n)) (leave_config_update b)
  unfolding leave_config_update
  Safe-leave_config_update b = search (chip_rules, Safe-poll_config_update) depth 12

  Safe-copy_from :
      (source : List ℕ) (k : ℕ) → k ≤ length source → Safe (OnBus n) (copy_from source (pos k))
  unfolding copy_from
  Safe-copy_from source k h = record { defined = λ g p. ground arith; at = λ g p. ground arith }

  Safe-copy_into :
      (block : List ℕ) (k : ℕ) (bytes : List ℕ)
      → k + length bytes ≤ length block
      → Safe (OnBus n) (copy_into block (pos k) bytes)
  unfolding copy_into
  Safe-copy_into block k bytes h = record {
    defined = λ g p. ground arith;
    at = λ g p. ground arith;
  }

copy_from-length : (source : List ℕ) (k : ℕ) → Yields (λ b. length b ≤ k) (copy_from source (pos k))
unfolding copy_from
copy_from-length source k = record { at = λ g. ground (arith, length-take k source) }

module _ {n : ℕ} where
  Safe-replace_data :
      (block source : List ℕ) (o k : ℕ)
      → length block ≡ 32
      → o % 32 + k ≤ 32
      → k ≤ length source
      → Safe (OnBus (suc n)) (replace_data block (pos o) (pos k) source)
  unfolding replace_data
  Safe-replace_data block source o k b f s =
      Safe-bind-Yields _ _ (Safe-copy_from source k s) (copy_from-length source k) (λ bytes l.
        Safe-bind _ _ (Safe-write _ _) (λ _.
          Safe-bind _ _ (Safe-copy_into block (o % 32) bytes (omega arith))
            (λ updated. Safe-write _ _)))

  -- The rest of a method behind the test for one block, which it may rely on.
  Safe-in_one_block :
      {A : Type 0} (o k : ℕ) (rest : Act Gauge A)
      → o + k < 2 ^ 31
      → (o % 32 + k ≤ 32 → Safe (OnBus n) rest)
      → Safe (OnBus n) (do same ← in_one_block (pos o) (pos k); guard same; rest)
  Safe-in_one_block o k rest h kr = rw (in_one_block_lem o k h) (
      Safe-bind-Yields {V = λ b. b ≡ same_block o k} _ _ (Safe-pure _) (Yields-pure _ refl)
        (λ b e. Safe-guard_then b rest (λ t. kr (same_block-fits o k (sym e ∙ t)))))

module _ {n : ℕ} where
  -- Reading keeps the bus rule, and is defined for every offset and length that are not negative and whose sum is an int.
  pub Safe-read_extended_data :
      (sub o k : ℕ) (wanted : Bool)
      → o + k < 2 ^ 31
      → Safe (OnBus (suc n)) (read_extended_data sub (pos o) (pos k) wanted)
  unfolding read_extended_data
  Safe-read_extended_data sub o k wanted h = Safe-bind _ _ (Safe-gets _) (λ present.
      Safe-bind _ _ (Safe-guard _) (λ _.
        Safe-in_one_block o k _ h
          (λ _. search (chip_rules, Safe-unseal_if, Safe-open_block) depth 14)))

  -- Writing does so too, if the source has the bytes that are to be copied: no copy leaves its
  -- buffer.
  pub Safe-write_extended_data :
      (sub o k : ℕ) (source : List ℕ)
      → o + k < 2 ^ 31
      → k ≤ length source
      → Safe (OnBus (suc n)) (write_extended_data sub (pos o) (pos k) (some source))
  unfolding write_extended_data
  Safe-write_extended_data sub o k source h s = Safe-bind _ _ (Safe-gets _) (λ present.
      Safe-bind _ _ (Safe-guard _) (λ _. Safe-in_one_block o k _ h (λ fits.
        Safe-bind _ _ Safe-is_sealed (λ was_sealed.
          Safe-bind _ _
            (Moves-attempt _ (
              Safe-bind _ _ (Safe-unseal_if was_sealed) (λ _.
                Safe-bind _ _ Safe-enter_config_update (λ _.
                  Safe-bind-Yields _ _ (Safe-open_block sub (pos o)) (open_block-length sub (pos o))
                    (λ block l.
                      Safe-bind _ _ (Safe-replace_data block source o k l fits s)
                        (λ _. Safe-leave_config_update was_sealed))))))
            (λ result. search chip_rules depth 14)))))
