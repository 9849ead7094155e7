-- ===== src/Gauge/Sealing.antt =====
-- Sealing in bq27441.cpp: a chip that was sealed is sealed again when its memory has been read, and
-- the functions that use the chip in passing send it back to hibernation.
use example_ublox_mbed_clien.Prelude.{
  ℕ, ◌+◌, ◌*◌, ◌≡◌, refl, true, Bool, List, [], ◌∷◌, u8, bit, ℤ, pos, negsuc, inl, inr, Bool-cases,
  in_int32, ◌+ℤ◌, ◌&&◌,
}
use example_ublox_mbed_clien.Act.{Act, done, ◌>>=◌, guard}
use example_ublox_mbed_clien.Act.Ends.{
  Ends, EndsAt, Ends-last, Ends-bind, EndsAt-bind, EndsAt-guard, EndsAt-expect, EndsAt-done,
}
use example_ublox_mbed_clien.Gauge.{Gauge, Event, i2c_read, read}
use example_ublox_mbed_clien.Gauge.Chip.{get_two_bytes, is_sealed, seal}
use example_ublox_mbed_clien.Gauge.Extended.{read_extended_data, in_one_block}

-- The last transfer read the control status, and the chip reported itself sealed.
abbrev pub ReportedSealed : Gauge → Type 0
ReportedSealed g =
    (before : List Event) × (g.trace ≡ i2c_read g.address (pos 2) ∷ before)
    × (g.ack g.trace ≡ true)
    × (bit 13 (u8 (g.byte g.trace 1) * 256 + u8 (g.byte g.trace 0)) ≡ true)

-- The value is that of the two bytes of the last transfer.
abbrev FromLast : ℕ → Gauge → Type 0
FromLast v g =
    (before : List Event) × (g.trace ≡ i2c_read g.address (pos 2) ∷ before)
    × (g.ack g.trace ≡ true)
    × (v ≡ u8 (g.byte g.trace 1) * 256 + u8 (g.byte g.trace 0))

abbrev FilledFromLast : List ℕ → Gauge → Type 0
FilledFromLast bytes g =
    (before : List Event) × (g.trace ≡ i2c_read g.address (pos 2) ∷ before)
    × (g.ack g.trace ≡ true)
    × (bytes ≡ u8 (g.byte g.trace 0) ∷ u8 (g.byte g.trace 1) ∷ [])

read-FilledFromLast : Ends FilledFromLast (read (pos 2))
unfolding read ◌>>=◌
read-FilledFromLast = record {
  at = λ g. record {
    post = elim (Bool-cases g.i2c) [
      | inl present ↦ rw present (elim (Bool-cases (g.ack (i2c_read g.address (pos 2) ∷ g.trace))) [
        | inl acked ↦ rw acked (g.trace, refl, acked, refl)
        | inr refused ↦ rw refused tt
      ])
      | inr absent ↦ rw absent tt
    ];
  };
}

get_two_bytes-FromLast : (r : ℕ) → Ends FromLast (get_two_bytes r)
unfolding get_two_bytes
get_two_bytes-FromLast r = Ends-last _ _ (λ _. Ends-last _ _ (λ _. Ends-last _ _ (λ _.
    Ends-bind {V = FilledFromLast} _ _ read-FilledFromLast
      (λ bytes g f. record { post = (f.0, f.1, f.2, rw f.3 refl) }))))

-- `seal` returns true only if the chip then reports that it is sealed.
seal-ReportedSealed : Ends (λ _ g. ReportedSealed g) seal
unfolding seal
seal-ReportedSealed =
    Ends-last _ _
      (λ _. Ends-bind {V = FromLast} _ _ (Ends-last _ _ (λ _. get_two_bytes-FromLast 0)) reported)
  where
    reported :
        (v : ℕ) (g : Gauge) → FromLast v g → EndsAt (λ _. ReportedSealed) (guard (bit 13 v)) g
    reported v g f = record {
      post = elim (Bool-cases (bit 13 v)) [
        | inl shown ↦ rw shown (f.0, f.1, f.2, rw (← f.3) shown)
        | inr hidden ↦ rw hidden tt
      ];
    }

-- The test for one block asks nothing of the bus.
EndsAt-in_one_block :
    {B : Type 0} {W : B → Gauge → Type 0} (offset count : ℤ) (f : Bool → Act Gauge B) (g : Gauge)
    → ((b : Bool) → EndsAt W (f b) g)
    → EndsAt W (in_one_block offset count >>= f) g
unfolding in_one_block ◌>>=◌
EndsAt-in_one_block offset count f g k = record {
  post = elim (Bool-cases (in_int32 (offset +ℤ count) && in_int32 (offset +ℤ count +ℤ negsuc 0))) [
    | inl inside ↦ rw inside (k _).post
    | inr outside ↦ rw outside tt
  ];
}

-- If the chip says that it is sealed, and reading its memory succeeds, then the chip has reported
-- itself sealed again when the function returns.
pub read_extended_data-ReportedSealed :
    (g : Gauge) (sub : ℕ) (offset count : ℤ) (wanted : Bool) (bytes : List ℕ)
    → (is_sealed g).0 ≡ done true
    → (read_extended_data sub offset count wanted g).0 ≡ done bytes
    → ReportedSealed (read_extended_data sub offset count wanted g).1
unfolding read_extended_data
read_extended_data-ReportedSealed g sub offset count wanted bytes sealed e =
    EndsAt-done {W = λ _. ReportedSealed} _ g bytes
      (EndsAt-bind _ _ g g.i2c refl (
        EndsAt-guard _ _ g (
          EndsAt-in_one_block offset count _ g (λ same. EndsAt-guard same _ g (
            EndsAt-bind is_sealed _ g true sealed (
              (Ends-last _ _ (λ result.
                  Ends-bind _ _ seal-ReportedSealed (λ _ s r. EndsAt-expect result s (λ _. r)))).at
                _))))))
      e
