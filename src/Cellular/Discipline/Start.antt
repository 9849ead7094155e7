-- ===== src/Cellular/Discipline/Start.antt =====
-- The first init of UbloxCellularBase.cpp after the constructor, when there is no PIN yet.
use example_ublox_mbed_clien.Prelude.{ℕ, ◌≡◌, Bool, true, false, some, List, arith, if◌then◌else◌}
use example_ublox_mbed_clien.Act.{modify, pure, attempt, ◌>>◌}
use example_ublox_mbed_clien.Act.Safe.{Moves, Safe-pure, Moves-then, Moves-weaken}
use example_ublox_mbed_clien.Act.Splits.{
  Splits, Splits-then, Splits-bind, Splits-gets, Splits-with, Splits-Moves,
}
use example_ublox_mbed_clien.Act.Runs.{Runs, Runs-bind, Runs-attempt}
use example_ublox_mbed_clien.Cellular.{Modem}
use example_ublox_mbed_clien.Cellular.Setup
use example_ublox_mbed_clien.Cellular.Setup.{keep_pin, bring_up}
use example_ublox_mbed_clien.Cellular.Discipline.{Steady, Tuned, Safe-assert_at}
use example_ublox_mbed_clien.Cellular.Discipline.Methods.{Safe-power_up}
use example_ublox_mbed_clien.Cellular.Discipline.Procedures.{setup_rules}

-- A modem that is initialised has a PIN.
abbrev pub Known : ℕ → ℕ → Modem → Type 0
Known t n m = Tuned m.modem_initialised t n m

module _ {t n : ℕ} where
  pub Known-Steady : (m : Modem) → Steady t n m → Known t n m
  Known-Steady m h = record {
    parser = h.parser;
    timeout = h.timeout;
    pinned = ground (arith, h.pinned);
    unused = ground arith;
    table = h.table;
    guarded = h.guarded;
    depth = h.depth;
  }

  pub Known-fresh : (m : Modem) → Tuned false t n m → Known t n m
  Known-fresh m h = record {
    parser = h.parser;
    timeout = h.timeout;
    pinned = ground (arith, h.unused);
    unused = ground arith;
    table = h.table;
    guarded = h.guarded;
    depth = h.depth;
  }

  first_pin : (p : List ℕ) → Runs (Tuned false t n) (Steady t n) (modify (keep_pin (some p)))
  first_pin p = record { finishes = λ m h. tt; at = λ m h. ground arith }

  first_bring_up : (p : List ℕ) → Moves (Tuned false t n) (Known t n) (bring_up (some p))
  unfolding bring_up
  first_bring_up p = Moves-then Known-fresh _ _ Safe-power_up (λ _.
      Runs-bind _ _ (first_pin p)
        (λ _. Moves-weaken {Q = Steady t n} _ Known-Steady (search setup_rules depth 40)))

  is_fresh : (m : Modem) → Tuned false t n m → m.modem_initialised ≡ false
  is_fresh m h = ground (arith, h.unused)

  bring_up_if :
      (p : List ℕ) (initialised : Bool)
      → initialised ≡ false
      → Splits
          (Tuned false t n)
          (λ _. Known t n)
          (Known t n)
          (if initialised then pure tt else (do attempt (bring_up (some p)); pure tt))
  bring_up_if p true e = ground arith
  bring_up_if p false e =
      Splits-Moves _ (Runs-bind _ _ (Runs-attempt _ (first_bring_up p)) (λ _. Safe-pure tt))

  -- The result says whether the modem has got the PIN.
  pub first_init :
      (p : List ℕ)
      → Splits (Tuned false t n) (λ ready. Tuned ready t n) (Known t n) (Setup.init (some p))
  unfolding Setup.init
  first_init p = Splits-then _ _ Known-fresh Safe-assert_at (λ _.
      Splits-bind {V = λ initialised m. (initialised ≡ false) × Tuned false t n m} _ _
        (Splits-gets _ (λ m h. (is_fresh m h, h)))
        (λ initialised.
          Splits-with _
            (λ e. Splits-bind _ _ (bring_up_if p initialised e) (λ _. Splits-gets _ (λ m h. h)))))
