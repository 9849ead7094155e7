-- ===== src/Sockets/Receive/Rounds.antt =====
-- The rounds of socket_recv and socket_recvfrom of UbloxATCellularInterface.cpp under a clock.
use mathlib.Core.Path.{subst}
use example_ublox_mbed_clien.Prelude.{
  Bool-cases, ℕ, suc, ◌+◌, ◌-◌, ◌<◌, ◌≤◌, ◌≡◌, refl, sym, inl, inr, Bool, true, false, List, [],
  ◌∷◌, ℤ, some, none, Option, arith, length, length-take, ltb, if◌then◌else◌,
}
use example_ublox_mbed_clien.Act.{◌>>=◌}
use example_ublox_mbed_clien.Act.Splits.{
  Splits, Splits-bind, Splits-pure, Splits-modify, Splits-always, Splits-gets, Splits-if,
  Splits-with, Never,
}
use example_ublox_mbed_clien.Act.Safe.{Safe}
use example_ublox_mbed_clien.Cellular.{Modem, Mbed, Event, log, lock, unlock, SockCtrl}
use example_ublox_mbed_clien.Cellular.Talk.{KeptByTalk, talk_rules, talk-recv, with_lock-Splits}
use example_ublox_mbed_clien.Cellular.Callbacks.{
  set_nwk_reg_status_csd, set_nwk_reg_status_psd, set_nwk_reg_status_eps,
}
use example_ublox_mbed_clien.Cellular.Parser.{emit, assert_at, read_bytes, at_most, at_set_timeout}
use example_ublox_mbed_clien.Sockets.{device_error, set_socket}
use example_ublox_mbed_clien.Sockets.Receive.{
  Style, stream, datagram, Address, ask, Round, got, nothing, give_up, time_is_up, at_most_of,
  read_block, receive_block, receive_round, socket_timeout,
}

-- A modem with a parser and with this clock, of which so many events have been asked at least.
pub record Clocked (clock : Mbed) (k : ℕ) (m : Modem) : Type 0 where
  pub same : m.mbed ≡ clock
  pub parser : m.at ≡ true
  pub events : k ≤ length m.trace

module _ {clock : Mbed} {k : ℕ} where
  Clocked-KeptByTalk : KeptByTalk (Clocked clock k)
  unfolding set_nwk_reg_status_csd set_nwk_reg_status_psd set_nwk_reg_status_eps
  Clocked-KeptByTalk = record {
    events = λ e m t h. longer e m h;
    callbacks = record {
      said = λ u m h. longer _ m h;
      aborted = λ m h. longer _ m h;
      spoilt = λ m h. longer _ m h;
      csd = λ s m h. record { same = h.same; parser = h.parser; events = h.events };
      psd = λ s m h. record { same = h.same; parser = h.parser; events = h.events };
      eps = λ s m h. record { same = h.same; parser = h.parser; events = h.events };
      sockets = record {
        counted = λ i n m h. record { same = h.same; parser = h.parser; events = h.events };
        cleared = λ i m h. record { same = h.same; parser = h.parser; events = h.events };
        called = λ f a m h. longer _ m h;
        lost = λ m h. longer _ m h;
      };
    };
  }
    where
      longer : (e : Event) (m : Modem) → Clocked clock k m → Clocked clock k (log e m)
      longer e m h = record { same = h.same; parser = h.parser; events = omega (arith, h.events) }

log-Clocked :
    {clock : Mbed} {k : ℕ} (e : Event) (m : Modem)
    → Clocked clock k m
    → Clocked clock (suc k) (log e m)
log-Clocked e m h = record { same = h.same; parser = h.parser; events = omega (arith, h.events) }

log-Clocked_too :
    {clock : Mbed} {k : ℕ} (e : Event) (m : Modem) → Clocked clock k m → Clocked clock k (log e m)
log-Clocked_too e m h = record {
  same = h.same;
  parser = h.parser;
  events = omega (arith, h.events);
}

module _ {clock : Mbed} {k : ℕ} where
  Clocked-at_set_timeout :
      (t : ℕ) → Splits (Clocked clock k) (λ _. Clocked clock k) Never (at_set_timeout t)
  unfolding at_set_timeout assert_at emit ◌>>=◌
  Clocked-at_set_timeout t = record {
    out = λ m h.
        rw (h.parser) (record { same = h.same; parser = refl; events = omega (arith, h.events) });
  }

  Clocked-set_socket :
      (socket : ℕ) (f : SockCtrl → SockCtrl)
      → Splits (Clocked clock k) (λ _. Clocked clock k) Never (set_socket socket f)
  Clocked-set_socket socket f =
      Splits-modify _ (λ m h. record { same = h.same; parser = h.parser; events = h.events })

  Clocked-ask : (style : Style) (h : ℤ) (n : ℕ) → Safe (Clocked clock k) (ask style h n)
  unfolding ask
  Clocked-ask stream h n = search (talk_rules, Clocked-KeptByTalk) depth 14
  Clocked-ask datagram h n = search (talk_rules, Clocked-KeptByTalk) depth 16

  Clocked-read_bytes :
      (n : ℕ)
      → Splits
          (Clocked clock k)
          (λ block m. (length block ≤ n) × Clocked clock k m)
          Never
          (read_bytes n)
  unfolding read_bytes emit ◌>>=◌
  Clocked-read_bytes n = record { out = λ m h. (length-at_most n _, log-Clocked_too _ m h) }
    where
      length-at_most : (n : ℕ) (o : Option (List ℕ)) → length (at_most n o) ≤ n
      length-at_most n none = omega arith
      length-at_most n (some b) = omega (arith, length-take n b)

-- What a round hands on: bytes that fit the room, or nothing while it is early.
abbrev pub IsGood : ℕ → ℕ → ℕ → Round → Type 0
IsGood k late room (got block from all) = (0 < length block) × (length block ≤ room)
IsGood k late room nothing = k < late
IsGood k late room (give_up e) = Unit
IsGood k late room time_is_up = Unit

-- After `late` events the clock is a second or more past `start`.
abbrev pub IsLate : Mbed → ℕ → ℕ → Type 0
IsLate clock start late = (t : List Event) → late ≤ length t → start + 1000 ≤ clock.millis t

abbrev After : Mbed → ℕ → ℕ → ℕ → Round → Modem → Type 0
After clock k late room round m = IsGood k late room round × Clocked clock (suc k) m

pub is_some_block : (n : ℕ) → ltb 0 (suc n) ≡ true
is_some_block n = ground arith

block-IsGood :
    (k late : ℕ) (all : Bool) (from : Option Address) (room limit : ℕ) (block : List ℕ)
    → limit ≤ room
    → length block ≤ limit
    → IsGood k late room (if ltb 0 (length block) then got block from all else give_up device_error)
block-IsGood k late all from room limit [] l h = tt
block-IsGood k late all from room limit (b ∷ block) l h =
    rw (is_some_block (length block)) (omega arith, omega (arith, l, h))

at_most_of_le : (room c : ℕ) → at_most_of room c ≤ room
at_most_of_le room c = ground arith

too_late : (x start : ℕ) → start + 1000 ≤ x → ltb (x - start) 1000 ≡ true → ⊥
too_late x start l e = ground arith

module _ {clock : Mbed} {k : ℕ} (late start : ℕ) where
  read_block-After :
      (style : Style) (socket room n : ℕ) (o : Option (Option Address × ℕ))
      → Splits
          (Clocked clock (suc k))
          (After clock k late room)
          Never
          (read_block style socket room n o)
  read_block-After style socket room n none = Splits-pure _ (λ m h. (tt, h))
  read_block-After style socket room n (some (from, c)) =
      Splits-bind _ _ (Clocked-set_socket socket _) (λ _.
        Splits-bind _ _ (Clocked-read_bytes (at_most_of room c)) (λ block. Splits-with _ (λ short.
          Splits-bind _ _ (Splits-always _ (talk-recv Clocked-KeptByTalk "OK")) (λ _.
            Splits-pure _ (λ m h. (
              block-IsGood k late _ from room (at_most_of room c) block (at_most_of_le room c)
                  short,
              h,
            ))))))

  early :
      (m : Modem)
      → IsLate clock start late
      → Clocked clock (suc k) m
      → ltb (m.mbed.millis m.trace - start) socket_timeout ≡ true
      → k < late
  early m l h e = elim (Bool-cases (ltb k late)) [
    | inl before ↦ ground (arith, before)
    | inr passed ↦ absurd (
        too_late (m.mbed.millis m.trace) start
          (subst (λ c. start + 1000 ≤ Mbed.millis c m.trace) (sym (h.same))
            (l (m.trace) (still_late (h.events) passed)))
          e)
  ]
    where
      still_late : {n : ℕ} → suc k ≤ n → ltb k late ≡ false → late ≤ n
      still_late g p = ground arith

  receive_block-After :
      (style : Style) (socket room : ℕ)
      → IsLate clock start late
      → Splits
          (Clocked clock (suc k))
          (After clock k late room)
          Never
          (receive_block style socket start room)
  receive_block-After style socket room l =
      Splits-bind {V = λ _. Clocked clock (suc k)} _ _ (Splits-gets _ (λ m h. h)) (λ s.
        Splits-bind
          {V = λ now m.
            (ltb (now - start) socket_timeout ≡ true → k < late) × Clocked clock (suc k) m}
          _ _ (Splits-gets _ (λ m h. (early m l h, h)))
          (λ now. Splits-with _ (λ soon.
            Splits-if (ltb 0 s.pending) _ _
              (λ _.
                Splits-bind _ _ (Splits-always _ (Clocked-ask style _ _))
                  (λ answer. read_block-After style socket room _ answer))
              (λ _.
                Splits-if (ltb (now - start) socket_timeout) _ _
                  (λ e.
                    Splits-bind _ _ (Splits-always _ (talk-recv Clocked-KeptByTalk _))
                      (λ _. Splits-pure _ (λ m h. (soon e, h))))
                  (λ _. Splits-pure _ (λ m h. (tt, h)))))))

  pub receive_round-After :
      (style : Style) (socket room : ℕ)
      → IsLate clock start late
      → Splits
          (Clocked clock k)
          (After clock k late room)
          Never
          (receive_round style socket start room)
  unfolding receive_round
  receive_round-After style socket room l =
      with_lock-Splits {Q = Clocked clock (suc k)} _ (λ m h. log-Clocked lock m h)
        (λ round m h. (h.0, log-Clocked_too unlock m h.1)) (λ m h. h)
        (Splits-bind {V = λ _. Clocked clock (suc k)} _ _ (Splits-gets _ (λ m h. h)) (λ t.
          Splits-bind _ _ (Clocked-at_set_timeout 1000) (λ _.
            Splits-bind _ _ (receive_block-After style socket room l) (λ round.
              Splits-with _ (λ good.
                Splits-bind _ _ (Clocked-at_set_timeout t)
                  (λ _. Splits-pure _ (λ m h. (good, h))))))))
