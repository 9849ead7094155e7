-- ===== src/Cellular/Settings.antt =====
-- The settings in UbloxCellularBase.cpp that the modem has to confirm change if it does, and only
-- then. Here the PIN; the child has the PIN check.
pub mod Check
use Prim.Native.String.{String}
use example_ublox_mbed_clien.Prelude.{
  ℕ, ◌≡◌, refl, Bool, true, false, some, none, Option, List, arith,
}
use example_ublox_mbed_clien.Act.{Act, Outcome, done, failed, fault, ◌>>=◌, modify, gets, expect}
use example_ublox_mbed_clien.Act.Safe.{Safe, Moves-modify, safe_rules}
use example_ublox_mbed_clien.Act.Splits.{
  Splits, Either, ByResult, Splits-bind, Splits-Moves, Splits-pure, Splits-modify, Splits-attempt,
}
use example_ublox_mbed_clien.Cellular.{Event, Arg, Urc, Modem, log, lock, unlock}
use example_ublox_mbed_clien.Cellular.Callbacks.{
  set_nwk_reg_status_csd, set_nwk_reg_status_psd, set_nwk_reg_status_eps, handle_urcs,
}
use example_ublox_mbed_clien.Cellular.Unasked.{KeptByCallbacks, KeptByCallbacks-Safe}
use example_ublox_mbed_clien.Cellular.Parser
use example_ublox_mbed_clien.Cellular.Parser.{emit, assert_at, with_lock, command}
use example_ublox_mbed_clien.Cellular.Sim.{
  change_pin, change_sim_pin, change_check, sim_pin_check_enable, lock_sim,
}

-- The parser exists, and these are the PIN and whether it is checked.
pub record HasPin (o : Option (List ℕ)) (checked : Bool) (m : Modem) : Type 0 where
  pub parser : m.at ≡ true
  pub pin : m.pin ≡ o
  pub check : m.sim_pin_check_enabled ≡ checked

module _ {o : Option (List ℕ)} {c : Bool} where
  HasPin-KeptByCallbacks : KeptByCallbacks (HasPin o c)
  unfolding set_nwk_reg_status_csd set_nwk_reg_status_psd set_nwk_reg_status_eps
  HasPin-KeptByCallbacks = record {
    said = λ u m h. ground arith;
    aborted = λ m h. ground arith;
    spoilt = λ m h. ground arith;
    csd = λ s m h. ground arith;
    psd = λ s m h. ground arith;
    eps = λ s m h. ground arith;
    sockets = record {
      counted = λ i n m h. ground arith;
      cleared = λ i m h. ground arith;
      called = λ f a m h. ground arith;
      lost = λ m h. ground arith;
    };
  }

  Safe-callbacks : (us : List Urc) → Safe (HasPin o c) (modify (handle_urcs us))
  Safe-callbacks us = KeptByCallbacks-Safe HasPin-KeptByCallbacks us

  log-HasPin : (e : Event) (m : Modem) → HasPin o c m → HasPin o c (log e m)
  log-HasPin e m h = ground arith

  Safe-emit : (e : Event) → Safe (HasPin o c) (emit e)
  unfolding emit
  Safe-emit e = Moves-modify _ (log-HasPin e)

  pub Safe-assert_at : Safe (HasPin o c) assert_at
  unfolding assert_at
  Safe-assert_at = record { defined = λ m h. ground arith; at = λ m h. ground arith }

ruleset pin_rules = (safe_rules, Safe-callbacks, Safe-emit)

module _ {o : Option (List ℕ)} {c : Bool} where
  pub Safe-command : (f : String) (a : List Arg) → Safe (HasPin o c) (command f a)
  unfolding Parser.send Parser.recv
  Safe-command f a = search pin_rules depth 24

module _ {A : Type 0} {o p : Option (List ℕ)} {c d : Bool} where
  unlock-Splits :
      (r : Option A)
      → Splits
          (ByResult (λ _. HasPin p d) (HasPin o c) r)
          (λ _. HasPin p d)
          (HasPin o c)
          (emit unlock >>= λ _. expect r)
  unfolding emit ◌>>=◌
  unlock-Splits none = record { out = λ m h. log-HasPin unlock m h }
  unlock-Splits (some a) = record { out = λ m h. log-HasPin unlock m h }

  -- A body under the mutex may speak of the PIN before, after a success and after a failure.
  pub with_lock-Splits :
      (body : Act Modem A)
      → Splits (HasPin o c) (λ _. HasPin p d) (HasPin o c) body
      → Splits (HasPin o c) (λ _. HasPin p d) (HasPin o c) (with_lock body)
  unfolding with_lock
  with_lock-Splits body k =
      Splits-bind _ _ (Splits-Moves _ (Safe-emit lock))
        (λ _. Splits-bind _ _ (Splits-attempt body k) unlock-Splits)

change_pin-Splits :
    (new old : List ℕ) (c : Bool)
    → Splits
        (HasPin (some old) c)
        (λ _. HasPin (some new) c)
        (HasPin (some old) c)
        (change_pin (some new) (some old))
change_pin-Splits new old c =
    Splits-bind _ _ (Splits-Moves _ (Safe-command _ _)) (λ _. Splits-modify _ (λ m h. ground arith))

-- the same for a PIN that is known to be `old`
known_pin-Splits :
    (new old : List ℕ) (c : Bool) (o : Option (List ℕ))
    → o ≡ some old
    → Splits
        (HasPin (some old) c)
        (λ _. HasPin (some new) c)
        (HasPin (some old) c)
        (change_pin (some new) o)
known_pin-Splits new old c o e = rw e (change_pin-Splits new old c)

read_pin-Splits :
    (new old : List ℕ) (c : Bool)
    → Splits
        (HasPin (some old) c)
        (λ _. HasPin (some new) c)
        (HasPin (some old) c)
        (gets (λ m. m.pin) >>= change_pin (some new))
unfolding ◌>>=◌
read_pin-Splits new old c = record { out = λ m h. (known_pin-Splits new old c m.pin h.pin).out m h }

change_sim_pin-Splits :
    (new old : List ℕ) (c : Bool)
    → Splits
        (HasPin (some old) c)
        (λ _. HasPin (some new) c)
        (HasPin (some old) c)
        (change_sim_pin (some new))
unfolding change_sim_pin
change_sim_pin-Splits new old c =
    with_lock-Splits _
      (Splits-bind _ _ (Splits-Moves _ Safe-assert_at) (λ _. read_pin-Splits new old c))

abbrev pub NewPinIff : Outcome {0} Unit → List ℕ → List ℕ → Modem → Type 0
NewPinIff (done a) new old m = m.pin ≡ some new
NewPinIff failed new old m = m.pin ≡ some old
NewPinIff fault new old m = ⊥

Either-NewPinIff :
    (new old : List ℕ) (c : Bool) (r : Outcome {0} Unit) (m : Modem)
    → Either (λ _. HasPin (some new) c) (HasPin (some old) c) r m
    → NewPinIff r new old m
Either-NewPinIff new old c (done a) m h = h.pin
Either-NewPinIff new old c failed m h = h.pin
Either-NewPinIff new old c fault m h = h

-- change_sim_pin with a parser and a PIN, whatever the modem answers: if it succeeds, the object's
-- PIN is the new one; if it fails, the PIN is the old one; there is no third outcome.
pub change_sim_pin-NewPinIff :
    (new old : List ℕ) (m : Modem)
    → m.at ≡ true
    → m.pin ≡ some old
    → NewPinIff (change_sim_pin (some new) m).0 new old (change_sim_pin (some new) m).1
change_sim_pin-NewPinIff new old m h p =
    let start : HasPin (some old) m.sim_pin_check_enabled m = record {
      parser = h;
      pin = p;
      check = refl;
    } in
    Either-NewPinIff new old m.sim_pin_check_enabled (change_sim_pin (some new) m).0
      (change_sim_pin (some new) m).1
      ((change_sim_pin-Splits new old m.sim_pin_check_enabled).out m start)
