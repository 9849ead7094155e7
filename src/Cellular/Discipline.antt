-- ===== src/Cellular/Discipline.antt =====
-- The rules of UbloxCellularBase.cpp for its AT parser: it is used under the mutex only, and its
-- timeout is put back.
pub mod Methods
pub mod Procedures
pub mod Clients
pub mod Start
use example_ublox_mbed_clien.Prelude.{
  length, ℕ, zero, suc, ◌-◌, ◌<◌, ◌≡◌, refl, true, false, Bool, not, ◌||◌, some, none, Option, List,
  [], ◌∷◌, arith, is_some, ℤ,
}
use example_ublox_mbed_clien.Act.{
  Act, done, pure, gets, modify, guard, attempt, expect, ◌>>=◌, ◌>>◌,
}
use example_ublox_mbed_clien.Act.Safe.{
  Moves, Safe, Safe-bind, Safe-expect, Moves-modify, Moves-attempt, safe_rules, Safe-gets,
  Safe-guard, Safe-pure,
}
use example_ublox_mbed_clien.Act.Runs.{Runs, Runs-bind, Runs-attempt}
use example_ublox_mbed_clien.Cellular.{
  write, read, Event, Arg, Urc, Modem, DeviceType, log, lock, unlock, urc, abort, send, recv,
  set_timeout, error, cmx_error, creg, cgreg, cereg, umwi, flush, wait_ms, set_baud, board_init,
  board_power_up, board_power_down, board_deinit,
}
use Prim.Native.String.{String}
use example_ublox_mbed_clien.Cellular.Callbacks.{
  set_nwk_reg_status_csd, set_nwk_reg_status_psd, set_nwk_reg_status_eps, urc_status, handle_urc,
  handle_urcs, when_some,
}
use example_ublox_mbed_clien.Cellular.Unasked.{KeptByCallbacks, KeptByCallbacks-Safe}
use example_ublox_mbed_clien.Cellular.Table.{update_socket, clear_socket}
use example_ublox_mbed_clien.Cellular.Table.Laws.{length-update_socket}
use example_ublox_mbed_clien.Cellular.Parser
use example_ublox_mbed_clien.Cellular.Parser.{
  emit, assert_at, recv_text, recv_number, recv_second, recv_address, write_bytes, read_bytes,
  with_lock, at_set_timeout,
}

-- How often the mutex is held after these events.
abbrev pub held : List Event → ℕ
held [] = 0
held (lock ∷ t) = suc (held t)
held (unlock ∷ t) = held t - 1
held (e ∷ t) = held t

-- Every use of the parser was made with the mutex held.
abbrev pub IsGuarded : List Event → Type 0
IsGuarded [] = Unit
IsGuarded (send f a ∷ t) = (0 < held t) × IsGuarded t
IsGuarded (recv f ∷ t) = (0 < held t) × IsGuarded t
IsGuarded (write b ∷ t) = (0 < held t) × IsGuarded t
IsGuarded (read k ∷ t) = (0 < held t) × IsGuarded t
IsGuarded (flush ∷ t) = (0 < held t) × IsGuarded t
IsGuarded (set_timeout n ∷ t) = (0 < held t) × IsGuarded t
IsGuarded (unlock ∷ t) = (0 < held t) × IsGuarded t
IsGuarded (e ∷ t) = IsGuarded t

-- The parser exists and has the timeout `t`, there are seven sockets, and the mutex is held `n` times.
-- If `known` says so there is a PIN; else the modem is not initialised.
pub record Tuned (known : Bool) (t n : ℕ) (m : Modem) : Type 0 where
  pub parser : m.at ≡ true
  pub timeout : m.at_timeout ≡ t
  pub pinned : (not known || is_some m.pin) ≡ true
  pub unused : (known || not m.modem_initialised) ≡ true
  pub table : length m.iface.sockets ≡ 7
  pub guarded : IsGuarded m.trace
  pub depth : held m.trace ≡ n

-- The same with a PIN.
abbrev pub Steady : ℕ → ℕ → Modem → Type 0
Steady t n = Tuned true t n

-- What the rule does not forbid outside of the mutex.
abbrev pub IsFree : Event → Type 0
IsFree (send f a) = ⊥
IsFree (recv f) = ⊥
IsFree (write b) = ⊥
IsFree (read k) = ⊥
IsFree flush = ⊥
IsFree (set_timeout k) = ⊥
IsFree lock = ⊥
IsFree unlock = ⊥
IsFree e = Unit

module _ {known : Bool} {t n : ℕ} where
  Tuned-KeptByCallbacks : KeptByCallbacks (Tuned known t n)
  unfolding set_nwk_reg_status_csd set_nwk_reg_status_psd set_nwk_reg_status_eps
  Tuned-KeptByCallbacks = record {
    said = λ u m h. ground arith;
    aborted = λ m h. ground arith;
    spoilt = λ m h. ground arith;
    csd = λ s m h. ground arith;
    psd = λ s m h. ground arith;
    eps = λ s m h. ground arith;
    sockets = record {
      counted = λ i n m h.
          ground (arith, length-update_socket i (λ s. record s { pending = n s }) m.iface.sockets);
      cleared = λ i m h. ground (arith, length-update_socket i clear_socket m.iface.sockets);
      called = λ f a m h. ground arith;
      lost = λ m h. ground arith;
    };
  }

  log-Tuned : (e : Event) (m : Modem) → IsFree e → Tuned known t n m → Tuned known t n (log e m)
  log-Tuned (send f a) m free h = absurd free
  log-Tuned (recv f) m free h = absurd free
  log-Tuned (write b) m free h = absurd free
  log-Tuned (read k) m free h = absurd free
  log-Tuned flush m free h = absurd free
  log-Tuned (set_timeout k) m free h = absurd free
  log-Tuned lock m free h = absurd free
  log-Tuned unlock m free h = absurd free
  log-Tuned _ m free h = ground arith

  pub Safe-emit : (e : Event) → IsFree e → Safe (Tuned known t n) (emit e)
  unfolding emit
  Safe-emit e free = Moves-modify _ (λ m. log-Tuned e m free)

  pub assert_at-Runs : Runs (Tuned known t n) (Tuned known t n) assert_at
  unfolding assert_at
  assert_at-Runs = record { finishes = λ m h. ground arith; at = λ m h. ground arith }

  pub Safe-handle_urcs : (us : List Urc) → Safe (Tuned known t n) (modify (handle_urcs us))
  Safe-handle_urcs us = KeptByCallbacks-Safe Tuned-KeptByCallbacks us

module _ {known : Bool} {t n : ℕ} where
  -- Uses of the parser with the mutex held.
  Safe-emit-send : (f : String) (a : List Arg) → Safe (Tuned known t (suc n)) (emit (send f a))
  unfolding emit
  Safe-emit-send f a = Moves-modify _ (λ m h. ground arith)

  Safe-emit-recv : (f : String) → Safe (Tuned known t (suc n)) (emit (recv f))
  unfolding emit
  Safe-emit-recv f = Moves-modify _ (λ m h. ground arith)

  pub Safe-emit-write : (b : List ℕ) → Safe (Tuned known t (suc n)) (emit (write b))
  unfolding emit
  Safe-emit-write b = Moves-modify _ (λ m h. ground arith)

  pub Safe-emit-read : (k : ℕ) → Safe (Tuned known t (suc n)) (emit (read k))
  unfolding emit
  Safe-emit-read k = Moves-modify _ (λ m h. ground arith)

  pub Safe-emit_flush : Safe (Tuned known t (suc n)) (emit flush)
  unfolding emit
  Safe-emit_flush = Moves-modify _ (λ m h. ground arith)

ruleset parser_rules = (safe_rules, Safe-handle_urcs, Safe-emit-send, Safe-emit-recv)

module _ {known : Bool} {t n : ℕ} where
  pub Safe-send : (f : String) (a : List Arg) → Safe (Tuned known t (suc n)) (Parser.send f a)
  unfolding Parser.send
  Safe-send f a = search parser_rules depth 9

  pub Safe-recv : (f : String) → Safe (Tuned known t (suc n)) (Parser.recv f)
  unfolding Parser.recv
  Safe-recv f = search parser_rules depth 9

  pub Safe-recv_text : (w : ℕ) (f : String) → Safe (Tuned known t (suc n)) (recv_text w f)
  unfolding recv_text
  Safe-recv_text w f = search parser_rules depth 12

  pub Safe-recv_number : (f : String) → Safe (Tuned known t (suc n)) (recv_number f)
  unfolding recv_number
  Safe-recv_number f = search parser_rules depth 12

  pub Safe-recv_second : (f : String) → Safe (Tuned known t (suc n)) (recv_second f)
  unfolding recv_second
  Safe-recv_second f = search parser_rules depth 12

  pub Safe-recv_address : (w : ℕ) (f : String) → Safe (Tuned known t (suc n)) (recv_address w f)
  unfolding recv_address
  Safe-recv_address w f = search parser_rules depth 12

  pub Safe-write_bytes : (b : List ℕ) → Safe (Tuned known t (suc n)) (write_bytes b)
  unfolding write_bytes
  Safe-write_bytes b = search (parser_rules, Safe-emit-write) depth 9

  pub Safe-read_bytes : (k : ℕ) → Safe (Tuned known t (suc n)) (read_bytes k)
  unfolding read_bytes
  Safe-read_bytes k = search (parser_rules, Safe-emit-read) depth 9

  pub Safe-assert_at : Safe (Tuned known t n) assert_at
  unfolding assert_at
  Safe-assert_at = record { defined = λ m h. ground arith; at = λ m h. ground arith }

  lock-Runs : Runs (Tuned known t n) (Tuned known t (suc n)) (emit lock)
  unfolding emit
  lock-Runs = record { finishes = λ m h. tt; at = λ m h. ground arith }

  unlock-Runs : Runs (Tuned known t (suc n)) (Tuned known t n) (emit unlock)
  unfolding emit
  unlock-Runs = record { finishes = λ m h. tt; at = λ m h. ground arith }

  pub Safe-with_lock :
      {A : Type 0} (m : Act Modem A)
      → Safe (Tuned known t (suc n)) m
      → Safe (Tuned known t n) (with_lock m)
  unfolding with_lock
  Safe-with_lock m km =
      Runs-bind _ _ lock-Runs (λ _.
        Runs-bind _ _ (Runs-attempt m km) (λ o. Runs-bind _ _ unlock-Runs (λ _. Safe-expect o)))

  -- The parser's timeout and the driver's copy of it change together.
  pub at_set_timeout-Runs :
      (k : ℕ) → Runs (Tuned known t (suc n)) (Tuned known k (suc n)) (at_set_timeout k)
  unfolding at_set_timeout ◌>>=◌
  at_set_timeout-Runs k = record { finishes = λ m h. ground arith; at = λ m h. ground arith }

pub ruleset at_rules = (
  safe_rules, Safe-assert_at, Safe-emit, Safe-emit_flush, Safe-send, Safe-recv, Safe-recv_text,
  Safe-recv_number, Safe-recv_second, Safe-recv_address, Safe-write_bytes, Safe-read_bytes,
  Safe-with_lock,
)
