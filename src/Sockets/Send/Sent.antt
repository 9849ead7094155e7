-- ===== src/Sockets/Send/Sent.antt =====
-- Which bytes socket_send and socket_sendto of UbloxATCellularInterface.cpp write to the modem.
use mathlib.Core.Path.{subst}
use mathlib.Core.List.{append_assoc, append-nil}
use example_ublox_mbed_clien.Prelude.{
  ℕ, zero, suc, ◌<◌, ◌≤◌, ◌≡◌, refl, sym, ◌∙◌, ap, List, [], ◌∷◌, ◌++◌, arith, length, length-drop,
  take, drop, ltb, is_some, if◌then◌else◌,
}
use example_ublox_mbed_clien.Act.{Outcome, done, failed, fault, ◌>>=◌, attempt, settle, continue}
use example_ublox_mbed_clien.Act.Splits.{Splits, Splits-bind, Splits-weaken, Either}
use example_ublox_mbed_clien.Cellular.{Modem}
use example_ublox_mbed_clien.Cellular.Table.{check_socket}
use example_ublox_mbed_clien.Sockets.{SizeOrError, size, failure, device_error, assert_socket}
use example_ublox_mbed_clien.Sockets.Send.{
  Target, peer, address, send_loop, send_all, socket_send, socket_sendto, max_write_size,
}
use example_ublox_mbed_clien.Sockets.Send.Blocks.{written, Wrote, WroteFirst, send_block-Wrote}

take-append_drop : (n : ℕ) (xs : List ℕ) → take n xs ++ drop n xs ≡ xs
take-append_drop zero xs = refl
take-append_drop (suc n) [] = refl
take-append_drop (suc n) (b ∷ xs) = ap (λ l. b ∷ l) (take-append_drop n xs)

-- What is left after a block of at most `blk` bytes.
abbrev block_size : ℕ → List ℕ → ℕ
block_size blk left = if ltb (length left) blk then length left else blk

join_blocks : (x left : List ℕ) (n : ℕ) → (x ++ take n left) ++ drop n left ≡ x ++ left
join_blocks x left n =
    append_assoc x (take n left) (drop n left) ∙ ap (λ l. x ++ l) (take-append_drop n left)

WroteFirst-more :
    (x left : List ℕ) (n : ℕ) (m : Modem)
    → WroteFirst (x ++ take n left) (drop n left) m
    → WroteFirst x left m
WroteFirst-more x left n m (first, rest, whole, h) = (
  take n left ++ first,
  rest,
  append_assoc (take n left) first rest
      ∙ ap (λ l. take n left ++ l) whole
      ∙ take-append_drop n left,
  h ∙ append_assoc x (take n left) first,
)

WroteFirst-block :
    (x left : List ℕ) (n : ℕ) (m : Modem) → WroteFirst x (take n left) m → WroteFirst x left m
WroteFirst-block x left n m (first, rest, whole, h) = (
  first,
  rest ++ drop n left,
  sym (append_assoc first rest (drop n left))
      ∙ ap (λ l. l ++ drop n left) whole
      ∙ take-append_drop n left,
  h,
)

length-later : (n b : ℕ) (rest : List ℕ) → 0 < n → length (drop n (b ∷ rest)) ≤ length rest
length-later zero b rest k = absurd (omega (arith, k))
length-later (suc n) b rest k = omega (arith, length-drop n rest)

send_loop-Wrote :
    (rounds : ℕ) (target : Target) (socket blk : ℕ) (left x : List ℕ)
    → length left ≤ rounds
    → 0 < blk
    → Splits
        (Wrote x)
        (λ _. Wrote (x ++ left))
        (WroteFirst x left)
        (send_loop rounds target socket blk left)
unfolding send_loop
send_loop-Wrote rounds target socket blk [] x l k = record { out = λ m h. h ∙ sym (append-nil x) }
send_loop-Wrote zero target socket blk (b ∷ left) x l k = absurd (omega (arith, l))
send_loop-Wrote (suc rounds) target socket blk (b ∷ left) x l k =
    let n = block_size blk (b ∷ left) in
    Splits-bind _ _
      (Splits-weaken _ (WroteFirst-block x (b ∷ left) n) (send_block-Wrote target socket _))
      (λ _. Splits-weaken _ (WroteFirst-more x (b ∷ left) n) (
        subst
          (λ y.
            Splits (Wrote (x ++ take n (b ∷ left))) (λ _. Wrote y)
              (WroteFirst (x ++ take n (b ∷ left)) (drop n (b ∷ left)))
              (send_loop rounds target socket n (drop n (b ∷ left))))
          (join_blocks x (b ∷ left) n)
          (send_loop-Wrote rounds target socket n (drop n (b ∷ left)) _
            (omega (arith, l, length-later n b left (is_some_byte k))) (is_some_byte k))))
  where
    is_some_byte : 0 < blk → 0 < block_size blk (b ∷ left)
    is_some_byte k = ground arith

-- What a call has returned, and which bytes it has written.
abbrev pub SentBy : List ℕ → Modem → Outcome SizeOrError × Modem → Type 0
SentBy data_ m (done (size n), m') =
    (n ≡ length data_) × (written m'.trace ≡ written m.trace ++ data_)
SentBy data_ m (done (failure e), m') =
    (e ≡ device_error)
    × ((first rest : List ℕ) × (first ++ rest ≡ data_)
        × (written m'.trace ≡ written m.trace ++ first))
SentBy data_ m (failed, m') = ⊥
SentBy data_ m (fault, m') = ⊥

pub assert_socket-holds :
    (handle : ℕ) (m : Modem)
    → handle < length m.iface.sockets
    → assert_socket handle m ≡ (done tt, m)
unfolding assert_socket check_socket
assert_socket-holds handle m l = ground arith

send_all-SentBy :
    (target : Target) (handle : ℕ) (data_ : List ℕ) (m : Modem)
    → handle < length m.iface.sockets
    → SentBy data_ m (send_all target handle data_ m)
unfolding ◌>>=◌ attempt
send_all-SentBy target handle data_ m l = rw (assert_socket-holds handle m l) (
    finish (send_loop (length data_) target handle max_write_size data_ m) (
      (send_loop-Wrote (length data_) target handle max_write_size data_ (written m.trace)
          (omega arith) (omega arith)).out
        m refl))
  where
    finish :
        (p : Outcome Unit × Modem)
        → Either
            (λ _. Wrote (written m.trace ++ data_))
            (WroteFirst (written m.trace) data_)
            p.0
            p.1
        → SentBy data_ m (
            continue
              (settle p.0 p.1).0
              (λ sent m'.
                (done (if is_some sent then size (length data_) else failure device_error), m'))
              (settle p.0 p.1).1)
    finish (done u, m') h = (refl, h)
    finish (failed, m') h = (refl, h)
    finish (fault, m') h = absurd h

-- For every modem, data, address and handle that points into the table: socket_send and
-- socket_sendto run into no assertion and return, and if they return the length of the data, the
-- bytes written to the modem are those before and the data, in order; else they return
-- NSAPI_ERROR_DEVICE_ERROR, and a first part of the data has been written.
pub socket_send-SentBy :
    (handle port : ℕ) (ip data_ : List ℕ) (m : Modem)
    → handle < length m.iface.sockets
    → SentBy data_ m (socket_send handle data_ m)
      × SentBy data_ m (socket_sendto handle ip port data_ m)
unfolding socket_send socket_sendto
socket_send-SentBy handle port ip data_ m l =
    (send_all-SentBy peer handle data_ m l, send_all-SentBy (address ip port) handle data_ m l)
