-- ===== src/Act/Safe.antt =====
-- Safety of actions: no undefined behaviour, and an invariant that is kept on every way out. One
-- rule for each way to build an action.
use example_ublox_mbed_clien.Prelude.{
  ◌≡◌, refl, Bool, true, false, Option, none, some, if◌then◌else◌,
}
use example_ublox_mbed_clien.Act.{
  Outcome, done, failed, fault, Act, pure, fail, gets, modify, continue, ◌>>=◌, ◌>>◌, guard,
  attempt, settle, expect,
}

abbrev pub IsDefined {ℓ} : {A : Type ℓ} → Outcome A → Type 0
IsDefined fault = ⊥
IsDefined (done a) = Unit
IsDefined failed = Unit

-- From a state with `P`, `m` does not run into undefined behaviour and ends in a state with `Q`.
pub record Moves {ℓ} {S A : Type ℓ} (P Q : S → Type ℓ) (m : Act S A) : Type ℓ where
  pub defined : (s : S) → P s → IsDefined (m s).0
  pub at : (s : S) → P s → Q (m s).1

abbrev pub Safe {ℓ} : {S A : Type ℓ} → (S → Type ℓ) → Act S A → Type ℓ
Safe P m = Moves P P m

settle-IsDefined {ℓ} :
    {S A : Type ℓ} (r : Outcome A) (s : S) → IsDefined r → IsDefined (settle r s).0
settle-IsDefined (done a) s h = tt
settle-IsDefined failed s h = tt
settle-IsDefined fault s h = absurd h

pub settle_at {ℓ} : {S A : Type ℓ} (Q : S → Type ℓ) (r : Outcome A) (s : S) → Q s → Q (settle r s).1
settle_at Q (done a) s h = h
settle_at Q failed s h = h
settle_at Q fault s h = h

module _ {ℓ} {S A : Type ℓ} {P : S → Type ℓ} where
  pub Safe-pure : (a : A) → Safe P (pure a)
  Safe-pure a = record { defined = λ s h. tt; at = λ s h. h }

  pub Safe-fail : Safe P (fail {A = A})
  Safe-fail = record { defined = λ s h. tt; at = λ s h. h }

  pub Safe-gets : (f : S → A) → Safe P (gets f)
  Safe-gets f = record { defined = λ s h. tt; at = λ s h. h }

  pub Safe-if : (b : Bool) (m n : Act S A) → Safe P m → Safe P n → Safe P (if b then m else n)
  Safe-if true m n km kn = km
  Safe-if false m n km kn = kn

  pub Safe-expect : (o : Option A) → Safe P (expect o)
  Safe-expect none = record { defined = λ s h. tt; at = λ s h. h }
  Safe-expect (some a) = record { defined = λ s h. tt; at = λ s h. h }

module _ {ℓ} {S A : Type ℓ} {P Q : S → Type ℓ} where
  pub Moves-if :
      (b : Bool) (m n : Act S A) → Moves P Q m → Moves P Q n → Moves P Q (if b then m else n)
  Moves-if true m n km kn = km
  Moves-if false m n km kn = kn

  pub Moves-attempt : (m : Act S A) → Moves P Q m → Moves P Q (attempt m)
  unfolding attempt
  Moves-attempt m km = record {
    defined = λ s h. settle-IsDefined (m s).0 (m s).1 (km.defined s h);
    at = λ s h. settle_at Q (m s).0 (m s).1 (km.at s h);
  }

module _ {ℓ} {S : Type ℓ} {P : S → Type ℓ} where
  pub Safe-guard : (b : Bool) → Safe P (guard b)
  Safe-guard true = record { defined = λ s h. tt; at = λ s h. h }
  Safe-guard false = record { defined = λ s h. tt; at = λ s h. h }

  pub Moves-modify : {Q : S → Type ℓ} (f : S → S) → ((s : S) → P s → Q (f s)) → Moves P Q (modify f)
  Moves-modify f kf = record { defined = λ s h. tt; at = kf }

module _ {ℓ} {S A B : Type ℓ} {P : S → Type ℓ} where
  continue-IsDefined :
      (r : Outcome A) (f : A → Act S B) (s : S)
      → IsDefined r
      → ((a : A) → Safe P (f a))
      → P s
      → IsDefined (continue r f s).0
  continue-IsDefined (done a) f s d kf h = (kf a).defined s h
  continue-IsDefined failed f s d kf h = tt
  continue-IsDefined fault f s d kf h = absurd d

  continue_at :
      (r : Outcome A) (f : A → Act S B) (s : S)
      → ((a : A) → Safe P (f a))
      → P s
      → P (continue r f s).1
  continue_at (done a) f s kf h = (kf a).at s h
  continue_at failed f s kf h = h
  continue_at fault f s kf h = h

  -- A first action that moves to the invariant on every way out.
  pub Moves-bind :
      {R : S → Type ℓ} (m : Act S A) (f : A → Act S B)
      → Moves R P m
      → ((a : A) → Safe P (f a))
      → Moves R P (m >>= f)
  unfolding ◌>>=◌
  Moves-bind m f km kf = record {
    defined = λ s h. continue-IsDefined (m s).0 f (m s).1 (km.defined s h) kf (km.at s h);
    at = λ s h. continue_at (m s).0 f (m s).1 kf (km.at s h);
  }

  pub Safe-bind :
      (m : Act S A) (f : A → Act S B) → Safe P m → ((a : A) → Safe P (f a)) → Safe P (m >>= f)
  Safe-bind m f km kf = Moves-bind m f km kf

-- Two steps with an invariant of their own each, of which the first implies the last.
module _ {S A B : Type 0} {Q R : S → Type 0} (w : (s : S) → Q s → R s) where
  then-IsDefined :
      (r : Outcome A) (f : A → Act S B) (s : S)
      → IsDefined r
      → ((a : A) → Moves Q R (f a))
      → Q s
      → IsDefined (continue r f s).0
  then-IsDefined (done a) f s d kf h = (kf a).defined s h
  then-IsDefined failed f s d kf h = tt
  then-IsDefined fault f s d kf h = absurd d

  then_at :
      (r : Outcome A) (f : A → Act S B) (s : S)
      → ((a : A) → Moves Q R (f a))
      → Q s
      → R (continue r f s).1
  then_at (done a) f s kf h = (kf a).at s h
  then_at failed f s kf h = w s h
  then_at fault f s kf h = w s h

  pub Moves-then :
      {P : S → Type 0} (m : Act S A) (f : A → Act S B)
      → Moves P Q m
      → ((a : A) → Moves Q R (f a))
      → Moves P R (m >>= f)
  unfolding ◌>>=◌
  Moves-then m f km kf = record {
    defined = λ s h. then-IsDefined (m s).0 f (m s).1 (km.defined s h) kf (km.at s h);
    at = λ s h. then_at (m s).0 f (m s).1 kf (km.at s h);
  }

-- What stands behind a guard may rely on its test.
pub Safe-guard_then {ℓ} :
    {S B : Type ℓ} {P : S → Type ℓ} (b : Bool) (n : Act S B)
    → (b ≡ true → Safe P n)
    → Safe P (guard b >> n)
unfolding ◌>>=◌
Safe-guard_then true n kn = kn refl
Safe-guard_then false n kn = record { defined = λ s h. tt; at = λ s h. h }

-- An action that cannot fail may move to another invariant in the middle of a block.
module _ {ℓ} {S B : Type ℓ} {P Q R : S → Type ℓ} where
  pub Moves-modify_then :
      (f : S → S) (n : Act S B)
      → ((s : S) → P s → Q (f s))
      → Moves Q R n
      → Moves P R (modify f >> n)
  unfolding ◌>>=◌
  Moves-modify_then f n kf kn = record {
    defined = λ s h. kn.defined (f s) (kf s h);
    at = λ s h. kn.at (f s) (kf s h);
  }

pub ruleset safe_rules =
    (Safe-pure, Safe-fail, Safe-gets, Safe-if, Safe-expect, Moves-attempt, Safe-guard, Safe-bind)

pub Moves-weaken {ℓ} :
    {S A : Type ℓ} {P Q R : S → Type ℓ} (m : Act S A)
    → ((s : S) → Q s → R s)
    → Moves P Q m
    → Moves P R m
Moves-weaken m w km = record { defined = km.defined; at = λ s h. w _ (km.at s h) }

-- A value that the invariant fixes.
pub Moves-gets {ℓ} :
    {S A B : Type ℓ} {P R : S → Type ℓ} (f : S → A) (a : A) (k : A → Act S B)
    → ((s : S) → P s → f s ≡ a)
    → Moves P R (k a)
    → Moves P R (gets f >>= k)
unfolding ◌>>=◌
Moves-gets f a k fixed kk = record {
  defined = λ s h. rw (fixed s h) (kk.defined s h);
  at = λ s h. rw (fixed s h) (kk.at s h);
}

-- What stands behind a value that is read may rely on what the invariant says of it.
pub Safe-gets_then {ℓ} :
    {S A B : Type ℓ} {P : S → Type ℓ} (f : S → A) (V : A → Type ℓ) (k : A → Act S B)
    → ((s : S) → P s → V (f s))
    → ((a : A) → V a → Safe P (k a))
    → Safe P (gets f >>= k)
unfolding ◌>>=◌
Safe-gets_then f V k kf kk = record {
  defined = λ s h. (kk (f s) (kf s h)).defined s h;
  at = λ s h. (kk (f s) (kf s h)).at s h;
}
