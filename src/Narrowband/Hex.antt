-- ===== src/Narrowband/Hex.antt =====
-- The hexadecimal text of ublox-at-cellular-interface-n2xx/UbloxATCellularInterfaceN2xx.cpp:
-- bin_to_hex, hex_char and hex_to_bin.
pub mod RoundTrip
use example_ublox_mbed_clien.Prelude.{
  ℕ, zero, suc, ◌+◌, ◌*◌, ◌-◌, ◌/◌, ◌%◌, Bool, ◌&&◌, Option, none, some, List, [], ◌∷◌, ℤ, pos,
  negsuc, ltb, leb, ◌==◌, length, if◌then◌else◌,
}

-- the character of a digit, `binHex[d]`
unfoldable pub hex_digit : ℕ → ℕ
hex_digit d = if ltb d 10 then b'0' + d else b'A' + (d - 10)

unfoldable pub bin_to_hex : List ℕ → List ℕ
unfolding hex_digit
bin_to_hex [] = []
bin_to_hex (byte ∷ rest) = hex_digit (byte / 16 % 16) ∷ hex_digit (byte % 16) ∷ bin_to_hex rest

abbrev is_between : ℕ → ℕ → ℕ → Bool
is_between low high c = leb low c && leb c high

-- 255 for a character that is no digit
unfoldable pub hex_char : ℕ → ℕ
hex_char c =
    if is_between b'0' b'9' c
    then c - b'0'
    else if is_between b'A' b'F' c
    then c - b'A' + 10
    else if is_between b'a' b'f' c
    then c - b'a' + 10
    else 255

-- What was stored, and the result: how many bytes, or -1.
pub record Decoded : Type 0 where
  pub stored : List ℕ
  pub result : ℤ

abbrev pub bad : List ℕ → Decoded
bad stored = record { stored = stored; result = negsuc 0 }

abbrev pub after_byte : ℕ → Decoded → Decoded
after_byte b d = record {
  stored = b ∷ d.stored;
  result = elim d.result [ pos n ↦ pos (suc n) | negsuc n ↦ negsuc n ];
}

-- The loop, on a text that ends in a null character, with the room that is left. A digit may be
-- followed by the end of the text, which is no digit.
unfoldable pub hex_loop : ℕ → List ℕ → Decoded
unfolding hex_char
hex_loop room [] = record { stored = []; result = pos 0 }
hex_loop room (c ∷ []) = bad []
hex_loop zero (c ∷ d ∷ rest) = bad []
hex_loop (suc room) (c ∷ d ∷ rest) =
    let more = hex_loop room rest in
    if hex_char c == 255
    then bad []
    else if hex_char d == 255
    then bad []
    else after_byte ((hex_char c * 16 + hex_char d) % 256) more

-- With a `length` of 0 or less nothing is done.
unfoldable pub hex_to_bin : List ℕ → ℕ → Decoded
unfolding hex_loop
hex_to_bin s zero = bad []
hex_to_bin s (suc n) = hex_loop (suc n) s
