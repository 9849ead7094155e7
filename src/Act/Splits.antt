-- ===== src/Act/Splits.antt =====
-- What holds after a success and what holds after a failure.
use example_ublox_mbed_clien.Prelude.{
  ◌≡◌, refl, Bool, true, false, Option, none, some, if◌then◌else◌,
}
use example_ublox_mbed_clien.Act.{
  Outcome, done, failed, fault, Act, pure, gets, modify, guard, continue, ◌>>=◌, ◌>>◌, settle,
  attempt, expect,
}
use example_ublox_mbed_clien.Act.Safe.{Moves, IsDefined}

abbrev pub Either {ℓ} : {S A : Type ℓ} → (A → S → Type 0) → (S → Type 0) → Outcome A → S → Type 0
Either W R (done a) s = W a s
Either W R failed s = R s
Either W R fault s = ⊥

-- From a state with `P`, `m` succeeds with `W` or fails with `R`.
pub record Splits {ℓ} {S A : Type ℓ} (P : S → Type 0) (W : A → S → Type 0) (R : S → Type 0)
    (m : Act S A) : Type ℓ where
  pub out : (s : S) → P s → Either W R (m s).0 (m s).1

continue-Either {ℓ} :
    {S A B : Type ℓ} (V : A → S → Type 0) (W : B → S → Type 0) (R : S → Type 0) (r : Outcome A)
    (f : A → Act S B) (s : S)
    → Either V R r s
    → ((a : A) → Splits (V a) W R (f a))
    → Either W R (continue r f s).0 (continue r f s).1
continue-Either V W R (done a) f s v k = (k a).out s v
continue-Either V W R failed f s v k = v
continue-Either V W R fault f s v k = absurd v

pub Splits-bind {ℓ} :
    {S A B : Type ℓ} {P : S → Type 0} {V : A → S → Type 0} {W : B → S → Type 0} {R : S → Type 0}
    (m : Act S A) (f : A → Act S B)
    → Splits P V R m
    → ((a : A) → Splits (V a) W R (f a))
    → Splits P W R (m >>= f)
unfolding ◌>>=◌
Splits-bind {V} {W} {R} m f km kf = record {
  out = λ s h. continue-Either V W R (m s).0 f (m s).1 (km.out s h) kf;
}

Either-const {ℓ} :
    {S A : Type ℓ} (Q : S → Type 0) (r : Outcome A) (s : S)
    → IsDefined r
    → Q s
    → Either (λ _. Q) Q r s
Either-const Q (done a) s d h = h
Either-const Q failed s d h = h
Either-const Q fault s d h = absurd d

pub Splits-Moves :
    {S A : Type 0} {P Q : S → Type 0} (m : Act S A) → Moves P Q m → Splits P (λ _. Q) Q m
Splits-Moves {Q} m k = record {
  out = λ s h. Either-const Q (m s).0 (m s).1 (k.defined s h) (k.at s h);
}

module _ {ℓ} {S A : Type ℓ} {P : S → Type 0} {W : A → S → Type 0} {R : S → Type 0} where
  pub Splits-pure : (a : A) → ((s : S) → P s → W a s) → Splits P W R (pure a)
  Splits-pure a k = record { out = k }

pub Splits-modify {ℓ} :
    {S : Type ℓ} {P R : S → Type 0} {W : Unit → S → Type 0} (f : S → S)
    → ((s : S) → P s → W tt (f s))
    → Splits P W R (modify f)
Splits-modify f k = record { out = k }

-- The state behind an attempt, for either of its values.
abbrev pub ByResult {ℓ} : {S A : Type ℓ} → (A → S → Type 0) → (S → Type 0) → Option A → S → Type 0
ByResult W R none s = R s
ByResult W R (some a) s = W a s

settle-Either {ℓ} :
    {S A : Type ℓ} (W : A → S → Type 0) (R Q : S → Type 0) (r : Outcome A) (s : S)
    → Either W R r s
    → Either (ByResult W R) Q (settle r s).0 (settle r s).1
settle-Either W R Q (done a) s h = h
settle-Either W R Q failed s h = h
settle-Either W R Q fault s h = h

module _ {ℓ} {S A : Type ℓ} {P : S → Type 0} {W : A → S → Type 0} {R Q : S → Type 0} where
  pub Splits-attempt : (m : Act S A) → Splits P W R m → Splits P (ByResult W R) Q (attempt m)
  unfolding attempt
  Splits-attempt m km = record { out = λ s h. settle-Either W R Q (m s).0 (m s).1 (km.out s h) }

Either-weaken {ℓ} :
    {S A : Type ℓ} {Q R : S → Type 0} (W : A → S → Type 0) (r : Outcome A) (s : S)
    → ((s : S) → Q s → R s)
    → Either W Q r s
    → Either W R r s
Either-weaken W (done a) s w v = v
Either-weaken W failed s w v = w s v
Either-weaken W fault s w v = v

pub Splits-weaken {ℓ} :
    {S A : Type ℓ} {P Q R : S → Type 0} {W : A → S → Type 0} (m : Act S A)
    → ((s : S) → Q s → R s)
    → Splits P W Q m
    → Splits P W R m
Splits-weaken {W} m w k = record { out = λ s h. Either-weaken W (m s).0 (m s).1 w (k.out s h) }

pub Splits-before {ℓ} :
    {S A : Type ℓ} {P Q R : S → Type 0} {W : A → S → Type 0} {m : Act S A}
    → ((s : S) → P s → Q s)
    → Splits Q W R m
    → Splits P W R m
Splits-before w k = record { out = λ s h. k.out s (w s h) }

Either-value {ℓ} :
    {S A : Type ℓ} (V W : A → S → Type 0) (R : S → Type 0) (r : Outcome A) (s : S)
    → ((a : A) (s : S) → V a s → W a s)
    → Either V R r s
    → Either W R r s
Either-value V W R (done a) s w v = w a s v
Either-value V W R failed s w v = v
Either-value V W R fault s w v = v

pub Splits-value {ℓ} :
    {S A : Type ℓ} {P R : S → Type 0} {V W : A → S → Type 0} (m : Act S A)
    → ((a : A) (s : S) → V a s → W a s)
    → Splits P V R m
    → Splits P W R m
Splits-value {R} {V} {W} m w k = record {
  out = λ s h. Either-value V W R (m s).0 (m s).1 w (k.out s h);
}

module _ {S : Type 0} {P Q R : S → Type 0} where
  pub Splits-then :
      {A B : Type 0} {W : B → S → Type 0} (m : Act S A) (f : A → Act S B)
      → ((s : S) → Q s → R s)
      → Moves P Q m
      → ((a : A) → Splits Q W R (f a))
      → Splits P W R (m >>= f)
  Splits-then m f w km kf = Splits-bind m f (Splits-weaken m w (Splits-Moves m km)) kf

  pub Splits-last :
      {A : Type 0} (m : Act S A) → ((s : S) → Q s → R s) → Moves P Q m → Splits P (λ _. Q) R m
  Splits-last m w km = Splits-weaken m w (Splits-Moves m km)

pub Splits-expect :
    {S A : Type 0} {W : A → S → Type 0} {R : S → Type 0} (o : Option A)
    → Splits (ByResult W R o) W R (expect o)
Splits-expect none = record { out = λ s h. h }
Splits-expect (some a) = record { out = λ s h. h }

pub ByResult-kept :
    {S A : Type 0} {W : A → S → Type 0} {R : S → Type 0} (o : Option A) (f : S → S) (s : S)
    → ((a : A) (s : S) → W a s → W a (f s))
    → ((s : S) → R s → R (f s))
    → ByResult W R o s
    → ByResult W R o (f s)
ByResult-kept none f s kw kr h = kr s h
ByResult-kept (some a) f s kw kr h = kw a s h

-- What cannot happen.
abbrev pub Never : {S : Type 0} → S → Type 0
Never s = ⊥

module _ {S A : Type 0} where
  settle_always :
      (P : S → Type 0) (r : Outcome A) (s : S)
      → IsDefined r
      → P s
      → Either (λ _. P) Never (settle r s).0 (settle r s).1
  settle_always P (done a) s d h = h
  settle_always P failed s d h = h
  settle_always P fault s d h = absurd d

module _ {S A : Type 0} {P : S → Type 0} where
  -- An attempt does not fail.
  pub Splits-always : (m : Act S A) → Moves P P m → Splits P (λ _. P) Never (attempt m)
  unfolding attempt
  Splits-always m km = record {
    out = λ s h. settle_always P (m s).0 (m s).1 (km.defined s h) (km.at s h);
  }

  pub Splits-gets :
      {W : A → S → Type 0} {R : S → Type 0} (f : S → A)
      → ((s : S) → P s → W (f s) s)
      → Splits P W R (gets f)
  Splits-gets f k = record { out = k }

  pub Splits-if :
      {W : A → S → Type 0} {R : S → Type 0} (b : Bool) (m n : Act S A)
      → (b ≡ true → Splits P W R m)
      → (b ≡ false → Splits P W R n)
      → Splits P W R (if b then m else n)
  Splits-if true m n km kn = km refl
  Splits-if false m n km kn = kn refl

-- The test of a guard holds for the rest of a block.
pub Splits-guard :
    {S A : Type 0} {P R : S → Type 0} {W : A → S → Type 0} (b : Bool) (n : Act S A)
    → ((s : S) → P s → R s)
    → (b ≡ true → Splits P W R n)
    → Splits P W R (guard b >> n)
unfolding ◌>>=◌
Splits-guard true n w kn = kn refl
Splits-guard false n w kn = record { out = w }

-- A fact beside the state holds for the rest of a block.
pub Splits-with :
    {S A : Type 0} {F : Type 0} {P R : S → Type 0} {W : A → S → Type 0} (m : Act S A)
    → (F → Splits P W R m)
    → Splits (λ s. F × P s) W R m
Splits-with m k = record { out = λ s h. (k h.0).out s h.1 }
