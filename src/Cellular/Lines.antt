-- ===== src/Cellular/Lines.antt =====
-- What read_at_to_char of UbloxCellularBase.cpp makes of the characters that the parser has.
use example_ublox_mbed_clien.Prelude.{
  ℕ, zero, suc, ◌+◌, ◌-◌, ◌<◌, ◌≤◌, ◌≡◌, refl, ap, true, false, some, List, [], ◌∷◌, ◌++◌, arith,
  length, ◌==◌,
}
use example_ublox_mbed_clien.Cellular.Callbacks.{
  read_at_to_char, stored_chars, drop_last, ends_with,
}

-- The character does not occur.
abbrev Lacks : ℕ → List ℕ → Type 0
Lacks c [] = Unit
Lacks c (d ∷ s) = ((d == c) ≡ false) × Lacks c s

length-stored_chars : (size end : ℕ) (input : List ℕ) → length (stored_chars size end input) ≤ size
unfolding stored_chars
length-stored_chars zero end input = omega arith
length-stored_chars (suc size) end [] = omega arith
length-stored_chars (suc size) end (c ∷ input) = ground (arith, length-stored_chars size end input)

length-drop_last : (s : List ℕ) → length (drop_last s) ≡ length s - 1
unfolding drop_last
length-drop_last [] = refl
length-drop_last (c ∷ []) = refl
length-drop_last (c ∷ d ∷ s) = omega (arith, length-drop_last (d ∷ s))

-- Whatever the input: a string that is read into a buffer of some length fits with its terminator.
pub read_at_to_char_bounds :
    (size end : ℕ) (input s : List ℕ)
    → 0 < size
    → read_at_to_char size end input ≡ some s
    → length s < size
unfolding read_at_to_char
read_at_to_char_bounds size end input s h e = ground (
  arith,
  length-drop_last (stored_chars size end input),
  length-drop_last (drop_last (stored_chars size end input)),
  length-stored_chars size end input,
)

stored_chars-line :
    (size : ℕ) (line rest : List ℕ)
    → Lacks b'\n' line
    → length line + 1 < size
    → stored_chars size b'\n' (line ++ b'\r' ∷ b'\n' ∷ rest) ≡ line ++ b'\r' ∷ b'\n' ∷ []
unfolding stored_chars
stored_chars-line zero line rest k h = ground arith
stored_chars-line (suc zero) line rest k h = ground arith
stored_chars-line (suc (suc size)) [] rest k h = refl
stored_chars-line (suc (suc size)) (c ∷ line) rest k h =
    simp (k.0, stored_chars-line (suc size) line rest k.1 (omega arith))

drop_last-snoc : (line : List ℕ) (c : ℕ) → drop_last (line ++ c ∷ []) ≡ line
unfolding drop_last
drop_last-snoc [] c = refl
drop_last-snoc (d ∷ []) c = refl
drop_last-snoc (d ∷ e ∷ line) c = ap (λ l. d ∷ l) (drop_last-snoc (e ∷ line) c)

drop_last-two : (line : List ℕ) (c d : ℕ) → drop_last (line ++ c ∷ d ∷ []) ≡ line ++ c ∷ []
unfolding drop_last
drop_last-two [] c d = refl
drop_last-two (e ∷ []) c d = refl
drop_last-two (e ∷ f ∷ line) c d = ap (λ l. e ∷ l) (drop_last-two (f ∷ line) c d)

ends_with-snoc : (line : List ℕ) → ends_with b'\r' (line ++ b'\r' ∷ []) ≡ true
unfolding ends_with
ends_with-snoc [] = refl
ends_with-snoc (d ∷ []) = refl
ends_with-snoc (d ∷ e ∷ line) = ends_with-snoc (e ∷ line)

not_empty : (size : ℕ) → (suc size == 0) ≡ false
not_empty size = ground arith

-- A line that has no line feed in it, ends in carriage return and line feed, and fits with both, is
-- read without them, whatever follows it.
pub read_at_to_char-line :
    (size : ℕ) (line rest : List ℕ)
    → Lacks b'\n' line
    → length line + 1 < size
    → read_at_to_char size b'\n' (line ++ b'\r' ∷ b'\n' ∷ rest) ≡ some line
unfolding read_at_to_char
read_at_to_char-line zero line rest k h = ground arith
read_at_to_char-line (suc size) line rest k h = simp (
  not_empty size,
  stored_chars-line (suc size) line rest k h,
  drop_last-two line b'\r' b'\n',
  ends_with-snoc line,
  drop_last-snoc line b'\r',
)
