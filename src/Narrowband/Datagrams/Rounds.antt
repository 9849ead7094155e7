-- ===== src/Narrowband/Datagrams/Rounds.antt =====
-- socket_sendto of UbloxATCellularInterfaceN2xx.cpp with a modem that takes a part of every datagram.
use Prim.Native.String.{String}
use example_ublox_mbed_clien.Prelude.{
  ℕ, zero, suc, ◌≤◌, ◌<◌, ◌≡◌, refl, sym, ◌⊎◌, inl, inr, true, Option, some, none, List, [], ◌∷◌,
  arith, ℤ, pos, negsuc, ltb, length, take, drop, length-take, length-drop, if◌then◌else◌,
}
use mathlib.Core.Path.{subst}
use example_ublox_mbed_clien.Act.{
  Outcome, done, failed, fault, pure, fail, attempt, settle, continue, ◌>>=◌,
}
use example_ublox_mbed_clien.Act.Safe.{Safe, Safe-guard, Moves-attempt}
use example_ublox_mbed_clien.Act.Splits.{
  Splits, Either, Splits-bind, Splits-then, Splits-last, Splits-gets, Splits-with, Splits-if,
  Splits-pure, Splits-modify, Splits-attempt, ByResult, Splits-value,
}
use example_ublox_mbed_clien.Cellular.{Event, Arg, num, Mbed, Modem, send, recv}
use example_ublox_mbed_clien.Cellular.Parser
use example_ublox_mbed_clien.Cellular.Parser.{emit, recv_second}
use example_ublox_mbed_clien.Cellular.Callbacks.{
  set_nwk_reg_status_csd, set_nwk_reg_status_psd, set_nwk_reg_status_eps,
}
use example_ublox_mbed_clien.Cellular.Unasked.{KeptByCallbacks, KeptByCallbacks-Safe}
use example_ublox_mbed_clien.Cellular.Talk.{with_lock-Splits, KeptByTalk, talk_rules, talk-recv}
use example_ublox_mbed_clien.Sockets.{SizeOrError, size, failure, device_error}
use example_ublox_mbed_clien.Sockets.Send.Sent.{assert_socket-holds}
use example_ublox_mbed_clien.Narrowband.Datagrams.{
  allocate, sent_of, sendto, skip, send_loop, socket_sendto, sent_result, max_size,
}

-- The size that the last datagram announced to the modem.
abbrev pub size_asked : List Event → ℕ
size_asked [] = 0
size_asked (send f (h ∷ ip ∷ port ∷ num n ∷ data_ ∷ []) ∷ t) = n
size_asked (e ∷ t) = size_asked t

-- A failure, or a number of bytes from 1 to the size.
abbrev pub IsPart : ℕ → ℤ → Type 0
IsPart n (pos s) = (0 < s) × (s ≤ n)
IsPart n (negsuc s) = Unit

-- The modem says that it has sent at least a byte, and no more than it was given.
abbrev pub TakesParts : Mbed → Type 0
TakesParts b =
    (f : String) (t : List Event) → 0 < size_asked t → IsPart (size_asked t) (b.second (recv f ∷ t))

-- A modem with these services, and a datagram of `n` bytes announced last.
record Asked (b : Mbed) (n : ℕ) (m : Modem) : Type 0 where
  same : m.mbed ≡ b
  announced : size_asked m.trace ≡ n

module _ {b : Mbed} {n : ℕ} where
  Asked-KeptByCallbacks : KeptByCallbacks (Asked b n)
  unfolding set_nwk_reg_status_csd set_nwk_reg_status_psd set_nwk_reg_status_eps
  Asked-KeptByCallbacks = record {
    said = λ u m h. record { same = h.same; announced = h.announced };
    aborted = λ m h. record { same = h.same; announced = h.announced };
    spoilt = λ m h. record { same = h.same; announced = h.announced };
    csd = λ s m h. record { same = h.same; announced = h.announced };
    psd = λ s m h. record { same = h.same; announced = h.announced };
    eps = λ s m h. record { same = h.same; announced = h.announced };
    sockets = record {
      counted = λ i k m h. record { same = h.same; announced = h.announced };
      cleared = λ i m h. record { same = h.same; announced = h.announced };
      called = λ f a m h. record { same = h.same; announced = h.announced };
      lost = λ m h. record { same = h.same; announced = h.announced };
    };
  }

abbrev Serves : Mbed → Modem → Type 0
Serves b m = m.mbed ≡ b

module _ {b : Mbed} (fair : TakesParts b) {n : ℕ} (some_data : 0 < n) where
  Splits-announce :
      (f : String) (h ip port hex : Arg)
      → Splits
          (Serves b)
          (λ _. Asked b n)
          (Serves b)
          (Parser.send f (h ∷ ip ∷ port ∷ num n ∷ hex ∷ []))
  unfolding Parser.send emit
  Splits-announce f h ip port hex =
      Splits-bind {V = λ _. Asked b n} _ _
        (Splits-modify _ (λ m e. record { same = e; announced = refl }))
        (λ _.
          Splits-bind {V = λ _. Asked b n} _ _ (Splits-gets _ (λ m a. a))
            (λ m. Splits-last _ (λ m a. a.same) (Safe-guard _)))

  reported : (f : String) (m : Modem) → Asked b n m → IsPart n (m.mbed.second (recv f ∷ m.trace))
  reported f m a =
      subst (λ c. IsPart n (Mbed.second c (recv f ∷ m.trace))) (sym a.same)
        (subst (λ k. IsPart k (b.second (recv f ∷ m.trace))) a.announced
          (fair f m.trace (rw a.announced some_data)))

  Splits-report :
      (f : String)
      → Splits (Asked b n) (λ scanned m. IsPart n scanned.1 × Serves b m) (Serves b) (recv_second f)
  unfolding recv_second emit
  Splits-report f =
      Splits-bind {V = λ _ m. IsPart n (m.mbed.second m.trace) × Asked b n m} _ _
        (Splits-modify _
          (λ m a. (reported f m a, record { same = a.same; announced = a.announced })))
        (λ _.
          Splits-bind {V = λ m s. IsPart n (m.mbed.second m.trace) × Asked b n s} _ _
            (Splits-gets _ (λ m h. h))
            (λ m. Splits-with _ (λ part.
              Splits-then _ _ (λ m a. a.same)
                (KeptByCallbacks-Safe Asked-KeptByCallbacks (m.urcs m.trace))
                (λ _.
                  Splits-then _ _ (λ m a. a.same) (Safe-guard _)
                    (λ _. Splits-pure _ (λ m a. (part, a.same)))))))

-- What sent_of hands on.
abbrev IsSent : ℕ → Option ℤ → Type 0
IsSent n none = Unit
IsSent n (some z) = IsPart n z

not_short : (s n : ℕ) → s ≤ n → ltb n s ≡ true → ⊥
not_short s n h e = ground arith

block_bounds :
    (blk n : ℕ)
    → 0 < blk
    → (0 < (if ltb (suc n) blk then suc n else blk))
      × ((if ltb (suc n) blk then suc n else blk) ≤ suc n)
block_bounds blk n h = ground arith

module _ {b : Mbed} where
  Serves-KeptByTalk : KeptByTalk (Serves b)
  unfolding set_nwk_reg_status_csd set_nwk_reg_status_psd set_nwk_reg_status_eps
  Serves-KeptByTalk = record {
    events = λ e m t h. h;
    callbacks = record {
      said = λ u m h. h;
      aborted = λ m h. h;
      spoilt = λ m h. h;
      csd = λ s m h. h;
      psd = λ s m h. h;
      eps = λ s m h. h;
      sockets = record {
        counted = λ i k m h. h;
        cleared = λ i m h. h;
        called = λ f a m h. h;
        lost = λ m h. h;
      };
    };
  }

  Safe-allocate : (n : ℕ) → Safe (Serves b) (allocate n)
  unfolding allocate
  Safe-allocate n = search (talk_rules, Serves-KeptByTalk) depth 9

  IsSent-value :
      (n : ℕ) (o : Option ℤ) (m : Modem)
      → ByResult (λ z m. IsPart n z × Serves b m) (Serves b) o m
      → IsSent n o × Serves b m
  IsSent-value n none m h = (tt, h)
  IsSent-value n (some z) m h = h

  Splits-sent_of :
      (ip : List ℕ) (port socket n : ℕ) (hex : List ℕ)
      → TakesParts b
      → 0 < n
      → Splits (Serves b) (λ o m. IsSent n o × Serves b m) (Serves b) (sent_of ip port socket n hex)
  Splits-sent_of ip port socket n hex fair some_data = Splits-value _ (IsSent-value n) (
      Splits-attempt _ (
        Splits-bind {V = λ _. Serves b} _ _ (Splits-gets _ (λ m e. e)) (λ h.
          Splits-bind _ _ (Splits-announce fair some_data _ _ _ _ _) (λ _.
            Splits-bind _ _ (Splits-report fair some_data _) (λ scanned. Splits-with _ (λ part.
              Splits-then _ _ (λ m e. e) (Moves-attempt _ (talk-recv Serves-KeptByTalk "OK"))
                (λ _. Splits-pure _ (λ m e. (part, e)))))))))

  -- The number of bytes that are sent is at least 1 and at most the block's.
  Splits-result :
      (n : ℕ) (o : Option ℤ)
      → IsSent n o
      → Splits
          (Serves b)
          (λ s m. ((0 < s) × (s ≤ n)) × Serves b m)
          (Serves b)
          (elim o [ some (pos n) ↦ pure n | some (negsuc n) ↦ fail | none ↦ fail ])
  Splits-result n none k = record { out = λ m e. e }
  Splits-result n (some (negsuc z)) k = record { out = λ m e. e }
  Splits-result n (some (pos s)) k = record { out = λ m e. (k, e) }

  Splits-sendto :
      (socket : ℕ) (ip : List ℕ) (port : ℕ) (block : List ℕ)
      → TakesParts b
      → 0 < length block
      → Splits
          (Serves b)
          (λ s m. ((0 < s) × (s ≤ length block)) × Serves b m)
          (Serves b)
          (sendto socket ip port block)
  unfolding sendto
  Splits-sendto socket ip port block fair some_data =
      Splits-then _ _ (λ m e. e) (Safe-allocate _)
        (λ _.
          Splits-bind _ _
            (with_lock-Splits {Q = Serves b} _ (λ m e. e) (λ o m h. h) (λ m e. e)
              (Splits-sent_of ip port socket (length block) _ fair some_data))
            (λ o. Splits-with _ (λ part. Splits-result (length block) o part)))

  Splits-skip :
      (s : ℕ) (left : List ℕ)
      → s ≤ length left
      → Splits (Serves b) (λ rest m. (rest ≡ drop s left) × Serves b m) (Serves b) (skip s left)
  Splits-skip s left h =
      Splits-if (ltb (length left) s) _ _ (λ e. absurd (not_short s (length left) h e))
        (λ _. Splits-pure _ (λ m e. (refl, e)))

  -- As many rounds as bytes are left suffice.
  Splits-send_loop :
      (rounds socket : ℕ) (ip : List ℕ) (port blk : ℕ) (left : List ℕ)
      → TakesParts b
      → 0 < blk
      → length left ≤ rounds
      → Splits
          (Serves b)
          (λ o m. (o ≡ some tt) × Serves b m)
          (Serves b)
          (send_loop rounds socket ip port blk left)
  unfolding send_loop
  Splits-send_loop rounds socket ip port blk [] fair size_of enough =
      Splits-pure _ (λ m e. (refl, e))
  Splits-send_loop zero socket ip port blk (x ∷ left) fair size_of enough =
      absurd (omega (arith, enough))
  Splits-send_loop (suc rounds) socket ip port blk (x ∷ left) fair size_of enough =
      let blk' = if ltb (suc (length left)) blk then suc (length left) else blk in
      let b' = block_bounds blk (length left) size_of in
      Splits-bind _ _
        (Splits-sendto socket ip port (take blk' (x ∷ left)) fair
          (omega (arith, b'.0, length-take blk' (x ∷ left))))
        (λ sent. Splits-with _ (λ part.
          Splits-bind _ _
            (Splits-skip sent (x ∷ left) (omega (arith, part.1, length-take blk' (x ∷ left))))
            (λ rest. Splits-with _ (λ is.
              Splits-send_loop rounds socket ip port blk' rest fair b'.0
                (rw is (omega (arith, part.0, enough, length-drop sent (x ∷ left))))))))

-- What socket_sendto returns: the size of the data, or the error.
abbrev pub IsAnswer : ℕ → Option SizeOrError → Type 0
IsAnswer n o = (o ≡ some (size n)) ⊎ (o ≡ some (failure device_error))

abbrev pub HasAnswered : ℕ → Outcome (Option SizeOrError) → Type 0
HasAnswered n (done o) = IsAnswer n o
HasAnswered n failed = ⊥
HasAnswered n fault = ⊥

answered :
    (b : Mbed) (buf : List ℕ) (p : Outcome (Option Unit) × Modem)
    → Either (λ o m. (o ≡ some tt) × Serves b m) (Serves b) p.0 p.1
    → HasAnswered
        (length buf)
        (continue
          (settle p.0 p.1).0
          (λ sent m'. (done (sent_result (length buf) sent), m'))
          (settle p.0 p.1).1).0
answered b buf (done o, m) h = rw h.0 (inl refl)
answered b buf (failed, m) h = inr refl
answered b buf (fault, m) h = absurd h

-- With a modem that reports for every datagram a failure, or at least one of its bytes and no more
-- than it has: for every handle that points into the table, address and data, as many rounds as there
-- are bytes are enough for socket_sendto of the SARA-N2xx interface. It returns the length of the data
-- or NSAPI_ERROR_DEVICE_ERROR, and reads no byte behind the data.
pub socket_sendto-HasAnswered :
    (rounds handle port : ℕ) (ip buf : List ℕ) (m : Modem)
    → handle < length m.iface.sockets
    → TakesParts m.mbed
    → length buf ≤ rounds
    → HasAnswered (length buf) (socket_sendto rounds handle ip port buf m).0
unfolding socket_sendto ◌>>=◌ attempt
socket_sendto-HasAnswered rounds handle port ip buf m l fair enough =
    rw (assert_socket-holds handle m l) (
      answered m.mbed buf (send_loop rounds handle ip port max_size buf m) (
        (Splits-send_loop rounds handle ip port max_size buf fair (omega arith) enough).out m refl))
