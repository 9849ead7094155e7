-- ===== src/Act/Runs.antt =====
-- Actions that are sure to succeed, so that what follows them is run: one rule for each way to build
-- one.
use example_ublox_mbed_clien.Prelude.{Bool, true, false, if◌then◌else◌}
use example_ublox_mbed_clien.Act.{
  Outcome, done, failed, fault, Act, pure, gets, continue, ◌>>=◌, attempt, settle,
}
use example_ublox_mbed_clien.Act.Safe.{IsDefined, Moves, settle_at}

abbrev pub Finishes {ℓ} : {A : Type ℓ} → Outcome A → Type 0
Finishes (done a) = Unit
Finishes failed = ⊥
Finishes fault = ⊥

-- From `P`, `m` succeeds and ends in `Q`: what follows it is run.
pub record Runs {ℓ} {S A : Type ℓ} (P Q : S → Type ℓ) (m : Act S A) : Type ℓ where
  pub finishes : (s : S) → P s → Finishes (m s).0
  pub at : (s : S) → P s → Q (m s).1

settle-Finishes {ℓ} : {S A : Type ℓ} (r : Outcome A) (s : S) → IsDefined r → Finishes (settle r s).0
settle-Finishes (done a) s h = tt
settle-Finishes failed s h = tt
settle-Finishes fault s h = absurd h

pub Runs-attempt {ℓ} :
    {S A : Type ℓ} {P Q : S → Type ℓ} (m : Act S A) → Moves P Q m → Runs P Q (attempt m)
unfolding attempt
Runs-attempt {Q} m km = record {
  finishes = λ s h. settle-Finishes (m s).0 (m s).1 (km.defined s h);
  at = λ s h. settle_at Q (m s).0 (m s).1 (km.at s h);
}

module _ {ℓ} {S A B : Type ℓ} {Q R : S → Type ℓ} where
  run_then-IsDefined :
      (r : Outcome A) (f : A → Act S B) (s : S)
      → Finishes r
      → ((a : A) → Moves Q R (f a))
      → Q s
      → IsDefined (continue r f s).0
  run_then-IsDefined (done a) f s d kf h = (kf a).defined s h
  run_then-IsDefined failed f s d kf h = absurd d
  run_then-IsDefined fault f s d kf h = absurd d

  run_then_at :
      (r : Outcome A) (f : A → Act S B) (s : S)
      → Finishes r
      → ((a : A) → Moves Q R (f a))
      → Q s
      → R (continue r f s).1
  run_then_at (done a) f s d kf h = (kf a).at s h
  run_then_at failed f s d kf h = absurd d
  run_then_at fault f s d kf h = absurd d

  pub Runs-bind :
      {P : S → Type ℓ} (m : Act S A) (f : A → Act S B)
      → Runs P Q m
      → ((a : A) → Moves Q R (f a))
      → Moves P R (m >>= f)
  unfolding ◌>>=◌
  Runs-bind m f km kf = record {
    defined = λ s h. run_then-IsDefined (m s).0 f (m s).1 (km.finishes s h) kf (km.at s h);
    at = λ s h. run_then_at (m s).0 f (m s).1 (km.finishes s h) kf (km.at s h);
  }

Finishes-IsDefined {ℓ} : {A : Type ℓ} (r : Outcome A) → Finishes r → IsDefined r
Finishes-IsDefined (done a) h = tt
Finishes-IsDefined failed h = absurd h
Finishes-IsDefined fault h = absurd h

-- What is sure to succeed is made of parts that are.
module _ {ℓ} {S A : Type ℓ} {P Q : S → Type ℓ} where
  pub Runs-Moves : (m : Act S A) → Runs P Q m → Moves P Q m
  Runs-Moves m km = record {
    defined = λ s h. Finishes-IsDefined (m s).0 (km.finishes s h);
    at = km.at;
  }

module _ {ℓ} {S A : Type ℓ} {P : S → Type ℓ} where
  pub Runs-pure : (a : A) → Runs P P (pure a)
  Runs-pure a = record { finishes = λ s h. tt; at = λ s h. h }

  pub Runs-gets : (f : S → A) → Runs P P (gets f)
  Runs-gets f = record { finishes = λ s h. tt; at = λ s h. h }

  pub Runs-if : (b : Bool) (m n : Act S A) → Runs P P m → Runs P P n → Runs P P (if b then m else n)
  Runs-if true m n km kn = km
  Runs-if false m n km kn = kn

module _ {ℓ} {S A B : Type ℓ} {Q R : S → Type ℓ} where
  run_then-Finishes :
      (r : Outcome A) (f : A → Act S B) (s : S)
      → Finishes r
      → ((a : A) → Runs Q R (f a))
      → Q s
      → Finishes (continue r f s).0
  run_then-Finishes (done a) f s d kf h = (kf a).finishes s h
  run_then-Finishes failed f s d kf h = absurd d
  run_then-Finishes fault f s d kf h = absurd d

  pub Runs-Runs :
      {P : S → Type ℓ} (m : Act S A) (f : A → Act S B)
      → Runs P Q m
      → ((a : A) → Runs Q R (f a))
      → Runs P R (m >>= f)
  unfolding ◌>>=◌
  Runs-Runs m f km kf = record {
    finishes = λ s h. run_then-Finishes (m s).0 f (m s).1 (km.finishes s h) kf (km.at s h);
    at = λ s h.
        run_then_at (m s).0 f (m s).1 (km.finishes s h) (λ a. Runs-Moves (f a) (kf a)) (km.at s h);
  }
