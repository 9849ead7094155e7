-- ===== src/Gauge/Advanced.antt =====
-- The "advanced" public functions of bq27441.cpp: configuration blocks, control words, sealing and
-- reset.
use example_ublox_mbed_clien.Prelude.{
  ℕ, ◌-◌, ◌/◌, Bool, true, false, not, ◌&&◌, Option, none, some, List, [], ◌∷◌, ℤ, pos, u8, bit,
  is_some, if◌then◌else◌,
}
use example_ublox_mbed_clien.Act.{Act, pure, fail, gets, guard, attempt, ◌>>=◌, ◌>>◌}
use example_ublox_mbed_clien.Gauge.{Gauge, write}
use example_ublox_mbed_clien.Gauge.Chip.{get_two_bytes, is_sealed, seal, unseal}
use example_ublox_mbed_clien.Gauge.Extended.{first_byte, read_extended_data, write_extended_data}
use example_ublox_mbed_clien.Gauge.Entry.{when_ready, with_lock, sleep_again}
use example_ublox_mbed_clien.Gauge.Readings.{Reading, no_reading}

-- A body, then the return to sleep, which has to succeed too.
abbrev then_sleep : Act Gauge Unit → Act Gauge Unit
then_sleep body = do result ← attempt body; sleep_again; guard (is_some result)

-- The last argument says whether `pData` is not null; `stored` is what readExtendedData has delivered
-- when it succeeded.
unfoldable pub advanced_get_config : ℕ → ℤ → ℤ → Bool → Act Gauge (Reading (List ℕ))
unfolding when_ready with_lock sleep_again
advanced_get_config sub_class offset count wanted =
    when_ready
      (if wanted
        then with_lock (do
          result ← attempt (read_extended_data sub_class offset count wanted)
          slept ← attempt sleep_again
          pure (record { success = is_some result && is_some slept; stored = result }))
        else pure no_reading)
      (pure no_reading)

unfoldable pub advanced_set_config : ℕ → ℤ → ℤ → Option (List ℕ) → Act Gauge Unit
unfolding when_ready with_lock sleep_again
advanced_set_config sub_class offset count source =
    when_ready
      (if is_some source
        then with_lock (then_sleep (write_extended_data sub_class offset count source))
        else fail)
      fail

-- The last argument says whether `pDataReturned` is not null.
unfoldable pub advanced_send_control_word : ℕ → Bool → Act Gauge (Reading ℕ)
unfolding when_ready with_lock
advanced_send_control_word control_word wanted =
    when_ready
      (with_lock (do
        sent ← attempt (write (0 ∷ u8 control_word ∷ u8 (control_word / 256) ∷ []))
        if not (is_some sent)
            then pure no_reading
            else if wanted
            then (do
              value ← attempt (get_two_bytes 0)
              pure (record { success = is_some value; stored = value }))
            else pure (record { success = true; stored = none })))
      (pure no_reading)

unfoldable pub advanced_is_sealed : Act Gauge Bool
unfolding when_ready with_lock sleep_again
advanced_is_sealed =
    when_ready (with_lock (do sealed ← is_sealed; attempt sleep_again; pure sealed)) (pure false)

unfoldable pub advanced_seal : Act Gauge Unit
unfolding when_ready with_lock sleep_again
advanced_seal = when_ready (with_lock (then_sleep seal)) fail

-- Bit 7 of Update Status has the chip seal itself at the next reset.
unfoldable pub advanced_unseal : ℕ → Act Gauge Unit
unfolding when_ready with_lock sleep_again
advanced_unseal seal_code =
    when_ready
      (with_lock (
        then_sleep (do
          unseal seal_code
          update_status ← read_extended_data 82 (pos 2) (pos 1) true
          let status = first_byte update_status
          if bit 7 status
              then write_extended_data 82 (pos 2) (pos 1) (some ((status - 128) ∷ []))
              else pure tt)))
      fail

unfoldable pub advanced_reset : Act Gauge Unit
unfolding when_ready with_lock sleep_again
advanced_reset =
    when_ready
      (with_lock (
        then_sleep (do
          was_sealed ← is_sealed
          if was_sealed then (do code ← gets (λ g. g.seal_code); unseal code) else pure tt
          reset ← attempt (write (0 ∷ 0x41 ∷ 0 ∷ []))
          if was_sealed then seal else pure tt
          guard (is_some reset))))
      fail
