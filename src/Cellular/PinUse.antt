-- ===== src/Cellular/PinUse.antt =====
-- How often initialise_sim_card of UbloxCellularBase.cpp tries the PIN.
use Prim.Native.String.{String}
use example_ublox_mbed_clien.Prelude.{
  ℕ, zero, suc, ◌≤◌, ◌≡◌, Bool, true, false, some, none, Option, List, [], ◌∷◌, arith, is_some,
  same_text, codes, if◌then◌else◌,
}
use example_ublox_mbed_clien.Act.{Act, modify}
use example_ublox_mbed_clien.Act.Safe.{
  Moves, Safe, IsDefined, Moves-if, Moves-bind, Safe-fail, Moves-modify, Moves-attempt,
  Moves-weaken, safe_rules,
}
use example_ublox_mbed_clien.Act.Runs.{Runs, Runs-bind, Runs-attempt}
use example_ublox_mbed_clien.Cellular.{Event, Arg, Urc, Modem, lock, unlock, send, recv, wait_ms}
use example_ublox_mbed_clien.Cellular.Callbacks.{
  handle_urcs, set_nwk_reg_status_csd, set_nwk_reg_status_psd, set_nwk_reg_status_eps,
}
use example_ublox_mbed_clien.Cellular.Unasked.{KeptByCallbacks, KeptByCallbacks-Safe}
use example_ublox_mbed_clien.Cellular.Parser
use example_ublox_mbed_clien.Cellular.Parser.{emit, assert_at, recv_text, with_lock, command}
use example_ublox_mbed_clien.Cellular.WithPin.{pin_then-Moves}
use example_ublox_mbed_clien.Cellular.Sim.{
  answer_sim, query_sim, after_query, sim_loop, initialise_sim_card,
}

-- the number of commands that hand the card a PIN
abbrev pub pin_tries : List Event → ℕ
pin_tries [] = 0
pin_tries (send format arguments ∷ t) =
    (if same_text (codes format) (codes "AT+CPIN=\"%s\"") then suc (pin_tries t) else pin_tries t)
pin_tries (e ∷ t) = pin_tries t

-- The parser exists, there is a PIN, and it was tried `k` times at most.
pub record Tried (k : ℕ) (m : Modem) : Type 0 where
  pub parser : m.at ≡ true
  pub pinned : is_some m.pin ≡ true
  tries : pin_tries m.trace ≤ k

module _ {k : ℕ} where
  Tried-KeptByCallbacks : KeptByCallbacks (Tried k)
  unfolding set_nwk_reg_status_csd set_nwk_reg_status_psd set_nwk_reg_status_eps
  Tried-KeptByCallbacks = record {
    said = λ u m h. ground arith;
    aborted = λ m h. ground arith;
    spoilt = λ m h. ground arith;
    csd = λ s m h. ground arith;
    psd = λ s m h. ground arith;
    eps = λ s m h. ground arith;
    sockets = record {
      counted = λ i n m h. ground arith;
      cleared = λ i m h. ground arith;
      called = λ f a m h. ground arith;
      lost = λ m h. ground arith;
    };
  }

  Safe-callbacks : (us : List Urc) → Safe (Tried k) (modify (handle_urcs us))
  Safe-callbacks us = KeptByCallbacks-Safe Tried-KeptByCallbacks us

  Safe-emit_lock : Safe (Tried k) (emit lock)
  unfolding emit
  Safe-emit_lock = Moves-modify _ (λ m h. ground arith)

  Safe-emit_unlock : Safe (Tried k) (emit unlock)
  unfolding emit
  Safe-emit_unlock = Moves-modify _ (λ m h. ground arith)

  Safe-emit_wait : (n : ℕ) → Safe (Tried k) (emit (wait_ms n))
  unfolding emit
  Safe-emit_wait n = Moves-modify _ (λ m h. ground arith)

  Safe-emit-recv : (f : String) → Safe (Tried k) (emit (recv f))
  unfolding emit
  Safe-emit-recv f = Moves-modify _ (λ m h. ground arith)

  Safe-emit_query : Safe (Tried k) (emit (send "AT+CPIN?" []))
  unfolding emit same_text
  Safe-emit_query = Moves-modify _ (λ m h. ground arith)

  Safe-set_check :
      (b : Bool) → Safe (Tried k) (modify (λ m. record m { sim_pin_check_enabled = b }))
  Safe-set_check b = Moves-modify _ (λ m h. ground arith)

  Safe-assert : Safe (Tried k) assert_at
  unfolding assert_at
  Safe-assert = record { defined = λ m h. ground arith; at = λ m h. ground arith }

ruleset pin_rules = (
  safe_rules, Safe-callbacks, Safe-emit_lock, Safe-emit_unlock, Safe-emit_wait, Safe-emit-recv,
  Safe-emit_query, Safe-set_check, Safe-assert,
)

module _ {k : ℕ} where
  Safe-recv : (f : String) → Safe (Tried k) (Parser.recv f)
  unfolding Parser.recv
  Safe-recv f = search pin_rules depth 9

  Safe-query : Safe (Tried k) query_sim
  unfolding query_sim Parser.send recv_text
  Safe-query = search (pin_rules, Safe-recv) depth 24

  tried : (m : Modem) → Tried k m → Tried (suc k) m
  tried m h = ground arith

  Moves-more : {A : Type 0} (m : Act Modem A) → Safe (Tried k) m → Moves (Tried k) (Tried (suc k)) m
  Moves-more m km = Moves-weaken m tried km

  -- the one command that counts
  try-Runs : (a : Arg) → Runs (Tried k) (Tried (suc k)) (emit (send "AT+CPIN=\"%s\"" (a ∷ [])))
  unfolding emit
  try-Runs a = record { finishes = λ m h. tt; at = λ m h. ground arith }

  wait-Runs : (n : ℕ) → Runs (Tried k) (Tried k) (emit (wait_ms n))
  unfolding emit
  wait-Runs n = record { finishes = λ m h. tt; at = λ m h. ground arith }

  set_check-Runs :
      (b : Bool) → Runs (Tried k) (Tried k) (modify (λ m. record m { sim_pin_check_enabled = b }))
  set_check-Runs b = record { finishes = λ m h. tt; at = λ m h. ground arith }

module _ {k : ℕ} where
  Moves-send_try :
      (a : Arg) → Moves (Tried k) (Tried (suc k)) (Parser.send "AT+CPIN=\"%s\"" (a ∷ []))
  unfolding Parser.send
  Moves-send_try a = Runs-bind _ _ (try-Runs a) (λ _. search pin_rules depth 9)

  Moves-try : (a : Arg) → Moves (Tried k) (Tried (suc k)) (command "AT+CPIN=\"%s\"" (a ∷ []))
  Moves-try a = Moves-bind _ _ (Moves-send_try a) (λ _. Safe-recv _)

  Moves-answer : (p : List ℕ) → Moves (Tried k) (Tried (suc k)) (answer_sim p)
  unfolding answer_sim
  Moves-answer p =
      Moves-if _ _ _
        (Runs-bind _ _ (set_check-Runs true) (λ _. pin_then-Moves _ Moves-try (λ m h. h.pinned)))
        (Moves-if _ _ _ (Moves-more _ (Safe-set_check false)) (Moves-more _ Safe-fail))

  Moves-after_query :
      (answer : Option (List ℕ)) (more : Act Modem Unit)
      → Moves (Tried k) (Tried (suc k)) more
      → Moves (Tried k) (Tried (suc k)) (after_query answer more)
  Moves-after_query none more km = Runs-bind _ _ (wait-Runs 1000) (λ _. km)
  Moves-after_query (some p) more km =
      Moves-bind _ _ (Moves-attempt _ (Moves-answer p)) (λ o. search pin_rules depth 9)

  Moves-sim_loop : (rounds : ℕ) → Moves (Tried k) (Tried (suc k)) (sim_loop rounds)
  unfolding sim_loop
  Moves-sim_loop zero = Moves-more _ Safe-fail
  Moves-sim_loop (suc rounds) =
      Runs-bind _ _ (Runs-attempt _ Safe-query)
        (λ answer. Moves-after_query answer _ (Moves-sim_loop rounds))

  lock-Runs : Runs (Tried k) (Tried k) (emit lock)
  unfolding emit
  lock-Runs = record { finishes = λ m h. tt; at = λ m h. ground arith }

  assert_at-Runs : Runs (Tried k) (Tried k) assert_at
  unfolding assert_at
  assert_at-Runs = record { finishes = λ m h. ground arith; at = λ m h. ground arith }

  Moves-initialise_sim_card : Moves (Tried k) (Tried (suc k)) initialise_sim_card
  unfolding initialise_sim_card with_lock
  Moves-initialise_sim_card = Runs-bind _ _ lock-Runs (λ _.
      Moves-bind _ _ (Moves-attempt _ (Runs-bind _ _ assert_at-Runs (λ _. Moves-sim_loop 10)))
        (λ o. search pin_rules depth 9))

-- initialise_sim_card, with a parser and a PIN, runs into no undefined behaviour and hands the card
-- the PIN once at most, whatever the modem answers.
pub initialise_sim_card-one_try :
    (m : Modem)
    → m.at ≡ true
    → is_some m.pin ≡ true
    → IsDefined (initialise_sim_card m).0
      × (pin_tries (initialise_sim_card m).1.trace ≤ suc (pin_tries m.trace))
initialise_sim_card-one_try m h p =
    let t : Tried (pin_tries m.trace) m = record { parser = h; pinned = p; tries = omega arith } in
    (Moves-initialise_sim_card.defined m t, (Moves-initialise_sim_card.at m t).tries)
