-- ===== src/Cellular/Settings/Check.antt =====
-- Whether UbloxCellularBase.cpp takes the SIM card's PIN check to be on changes if the modem confirms
-- it, and only then.

use example_ublox_mbed_clien.Prelude.{ℕ, ◌≡◌, refl, Bool, true, false, some, Option, List, arith}
use example_ublox_mbed_clien.Act.{Outcome, done, failed, fault, ◌>>=◌, gets}
use example_ublox_mbed_clien.Act.Splits.{
  Splits, Either, Splits-bind, Splits-Moves, Splits-pure, Splits-modify,
}
use example_ublox_mbed_clien.Cellular.{Modem}
use example_ublox_mbed_clien.Cellular.Sim.{change_check, sim_pin_check_enable, lock_sim}
use example_ublox_mbed_clien.Cellular.Settings.{
  HasPin, Safe-assert_at, Safe-command, with_lock-Splits,
}

lock_sim-Splits :
    (enable c : Bool) (p : List ℕ)
    → Splits
        (HasPin (some p) c)
        (λ _. HasPin (some p) enable)
        (HasPin (some p) c)
        (lock_sim enable p)
lock_sim-Splits enable c p =
    Splits-bind _ _ (Splits-Moves _ (Safe-command _ _)) (λ _. Splits-modify _ (λ m h. ground arith))

change_check-Splits :
    (c enable : Bool) (p : List ℕ)
    → Splits
        (HasPin (some p) c)
        (λ _. HasPin (some p) enable)
        (HasPin (some p) c)
        (change_check c enable (some p))
change_check-Splits true true p = Splits-pure tt (λ m h. h)
change_check-Splits true false p = lock_sim-Splits false true p
change_check-Splits false true p = lock_sim-Splits true false p
change_check-Splits false false p = Splits-pure tt (λ m h. h)

known_check-Splits :
    (c enable : Bool) (p : List ℕ) (b : Bool) (o : Option (List ℕ))
    → b ≡ c
    → o ≡ some p
    → Splits
        (HasPin (some p) c)
        (λ _. HasPin (some p) enable)
        (HasPin (some p) c)
        (change_check b enable o)
known_check-Splits c enable p b o e e' = rw e (rw e' (change_check-Splits c enable p))

read_check-Splits :
    (c enable : Bool) (p : List ℕ)
    → Splits
        (HasPin (some p) c)
        (λ _. HasPin (some p) enable)
        (HasPin (some p) c)
        (gets (λ m. m) >>= λ m. change_check m.sim_pin_check_enabled enable m.pin)
unfolding ◌>>=◌
read_check-Splits c enable p = record {
  out = λ m h. (known_check-Splits c enable p m.sim_pin_check_enabled m.pin h.check h.pin).out m h;
}

sim_pin_check_enable-Splits :
    (c enable : Bool) (p : List ℕ)
    → Splits
        (HasPin (some p) c)
        (λ _. HasPin (some p) enable)
        (HasPin (some p) c)
        (sim_pin_check_enable enable)
unfolding sim_pin_check_enable
sim_pin_check_enable-Splits c enable p =
    with_lock-Splits _
      (Splits-bind _ _ (Splits-Moves _ Safe-assert_at) (λ _. read_check-Splits c enable p))

abbrev pub CheckIff : Outcome {0} Unit → Bool → Bool → Modem → Type 0
CheckIff (done a) enable before m = m.sim_pin_check_enabled ≡ enable
CheckIff failed enable before m = m.sim_pin_check_enabled ≡ before
CheckIff fault enable before m = ⊥

Either-CheckIff :
    (p : List ℕ) (enable before : Bool) (r : Outcome {0} Unit) (m : Modem)
    → Either (λ _. HasPin (some p) enable) (HasPin (some p) before) r m
    → CheckIff r enable before m
Either-CheckIff p enable before (done a) m h = h.check
Either-CheckIff p enable before failed m h = h.check
Either-CheckIff p enable before fault m h = h

-- sim_pin_check_enable with a parser and a PIN, whatever the modem answers: if it succeeds, the
-- object's note of the PIN check is as it was asked for, also where there was nothing to do; if it
-- fails, the note is what it was; there is no third outcome.
pub sim_pin_check_enable-CheckIff :
    (enable : Bool) (p : List ℕ) (m : Modem)
    → m.at ≡ true
    → m.pin ≡ some p
    → CheckIff
        (sim_pin_check_enable enable m).0
        enable
        m.sim_pin_check_enabled
        (sim_pin_check_enable enable m).1
sim_pin_check_enable-CheckIff enable p m h e =
    let c = m.sim_pin_check_enabled in
    let start : HasPin (some p) c m = record { parser = h; pin = e; check = refl } in
    Either-CheckIff p enable c (sim_pin_check_enable enable m).0 (sim_pin_check_enable enable m).1
      ((sim_pin_check_enable-Splits c enable p).out m start)
