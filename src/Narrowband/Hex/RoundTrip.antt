-- ===== src/Narrowband/Hex/RoundTrip.antt =====
-- What bin_to_hex writes, hex_to_bin of ublox-at-cellular-interface-n2xx/
-- UbloxATCellularInterfaceN2xx.cpp reads.
use example_ublox_mbed_clien.Prelude.{
  ℕ, zero, suc, ◌+◌, ◌*◌, ◌/◌, ◌%◌, ◌<◌, ◌≤◌, ◌≡◌, refl, List, [], ◌∷◌, pos, arith, length,
}
use example_ublox_mbed_clien.Narrowband.Hex.{
  hex_digit, bin_to_hex, hex_char, hex_loop, hex_to_bin, after_byte,
}

-- Every element fits a byte.
abbrev pub IsBytes : List ℕ → Type 0
IsBytes [] = Unit
IsBytes (b ∷ bs) = (b < 256) × IsBytes bs

hex_char-hex_digit : (d : ℕ) → d < 16 → hex_char (hex_digit d) ≡ d
unfolding hex_char hex_digit
hex_char-hex_digit d k = ground arith

hex_loop_two :
    (room c d : ℕ) (rest : List ℕ)
    → hex_char c < 16
    → hex_char d < 16
    → hex_loop (suc room) (c ∷ d ∷ rest)
      ≡ after_byte ((hex_char c * 16 + hex_char d) % 256) (hex_loop room rest)
unfolding hex_loop
hex_loop_two room c d rest kc kd = ground arith

nibbles : (b : ℕ) → b < 256 → (b / 16 % 16 * 16 + b % 16) % 256 ≡ b
nibbles b k = omega arith

hex_digit_small : (d : ℕ) → d < 16 → hex_char (hex_digit d) < 16
hex_digit_small d k = rw (hex_char-hex_digit d k) k

hex_loop_byte :
    (room b : ℕ) (rest : List ℕ)
    → b < 256
    → hex_loop (suc room) (hex_digit (b / 16 % 16) ∷ hex_digit (b % 16) ∷ rest)
      ≡ after_byte b (hex_loop room rest)
hex_loop_byte room b rest k =
    rw
      (
        hex_loop_two room (hex_digit (b / 16 % 16)) (hex_digit (b % 16)) rest
            (hex_digit_small _ (omega arith)) (hex_digit_small _ (omega arith)),
        hex_char-hex_digit (b / 16 % 16) (omega arith),
        hex_char-hex_digit (b % 16) (omega arith),
        nibbles b k,
      )
      refl

bin_to_hex_cons :
    (b : ℕ) (bs : List ℕ)
    → bin_to_hex (b ∷ bs) ≡ hex_digit (b / 16 % 16) ∷ hex_digit (b % 16) ∷ bin_to_hex bs
unfolding bin_to_hex
bin_to_hex_cons b bs = refl

hex_loop_end : (room : ℕ) → hex_loop room (bin_to_hex []) ≡ record { stored = []; result = pos 0 }
unfolding hex_loop bin_to_hex
hex_loop_end room = refl

hex_loop-bin_to_hex :
    (bs : List ℕ) (room : ℕ)
    → IsBytes bs
    → length bs ≤ room
    → hex_loop room (bin_to_hex bs) ≡ record { stored = bs; result = pos (length bs) }
hex_loop-bin_to_hex [] room k l = hex_loop_end room
hex_loop-bin_to_hex (b ∷ bs) zero k l = absurd (omega (arith, l))
hex_loop-bin_to_hex (b ∷ bs) (suc room) (kb, ks) l =
    rw
      (
        bin_to_hex_cons b bs,
        hex_loop_byte room b (bin_to_hex bs) kb,
        hex_loop-bin_to_hex bs room ks (omega (arith, l)),
      )
      refl

-- A text that bin_to_hex wrote for bytes is read back by hex_to_bin, byte for byte, where there is
-- room for one byte at least and for all of them; the result is their number.
pub hex_to_bin-bin_to_hex :
    (bs : List ℕ) (room : ℕ)
    → IsBytes bs
    → length bs ≤ room
    → 0 < room
    → hex_to_bin (bin_to_hex bs) room ≡ record { stored = bs; result = pos (length bs) }
unfolding hex_to_bin
hex_to_bin-bin_to_hex bs zero k l r = absurd (omega (arith, r))
hex_to_bin-bin_to_hex bs (suc room) k l r = hex_loop-bin_to_hex bs (suc room) k l
