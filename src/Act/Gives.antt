-- ===== src/Act/Gives.antt =====
-- A postcondition on value and state that needs a precondition.
use example_ublox_mbed_clien.Prelude.{Option, none, some}
use example_ublox_mbed_clien.Act.{
  Outcome, done, failed, fault, Act, pure, gets, continue, ◌>>=◌, settle, attempt, expect,
}
use example_ublox_mbed_clien.Act.Ends.{Post}

-- If `m` succeeds from a state with `P`, then with a value and in a state that satisfy `W`.
pub record Gives {ℓ} {S A : Type ℓ} (P : S → Type 0) (W : A → S → Type 0) (m : Act S A)
    : Type ℓ where
  pub post : (s : S) → P s → Post W (m s).0 (m s).1

continue-Post {ℓ} :
    {S A B : Type ℓ} (V : A → S → Type 0) (W : B → S → Type 0) (r : Outcome A) (f : A → Act S B)
    (s : S)
    → Post V r s
    → ((a : A) → Gives (V a) W (f a))
    → Post W (continue r f s).0 (continue r f s).1
continue-Post V W (done a) f s v k = (k a).post s v
continue-Post V W failed f s v k = tt
continue-Post V W fault f s v k = tt

pub Gives-bind {ℓ} :
    {S A B : Type ℓ} {P : S → Type 0} {V : A → S → Type 0} {W : B → S → Type 0} (m : Act S A)
    (f : A → Act S B)
    → Gives P V m
    → ((a : A) → Gives (V a) W (f a))
    → Gives P W (m >>= f)
unfolding ◌>>=◌
Gives-bind {V} {W} m f km kf = record {
  post = λ s h. continue-Post V W (m s).0 f (m s).1 (km.post s h) kf;
}

module _ {ℓ} {S A : Type ℓ} {P : S → Type 0} {W : A → S → Type 0} where
  pub Gives-pure : (a : A) → ((s : S) → P s → W a s) → Gives P W (pure a)
  Gives-pure a k = record { post = k }

  pub Gives-gets : (f : S → A) → ((s : S) → P s → W (f s) s) → Gives P W (gets f)
  Gives-gets f k = record { post = k }

-- What an attempt hands on, if there is a value.
abbrev pub IfSomeAt {ℓ} : {S A : Type ℓ} → (A → S → Type 0) → Option A → S → Type 0
IfSomeAt W none s = Unit
IfSomeAt W (some a) s = W a s

settle-Post {ℓ} :
    {S A : Type ℓ} (W : A → S → Type 0) (r : Outcome A) (s : S)
    → Post W r s
    → Post (IfSomeAt W) (settle r s).0 (settle r s).1
settle-Post W (done a) s h = h
settle-Post W failed s h = tt
settle-Post W fault s h = tt

module _ {ℓ} {S A : Type ℓ} {P : S → Type 0} {W : A → S → Type 0} where
  pub Gives-attempt : (m : Act S A) → Gives P W m → Gives P (IfSomeAt W) (attempt m)
  unfolding attempt
  Gives-attempt m km = record { post = λ s h. settle-Post W (m s).0 (m s).1 (km.post s h) }

pub Gives-expect {ℓ} :
    {S A : Type ℓ} {W : A → S → Type 0} (o : Option A) → Gives (IfSomeAt W o) W (expect o)
Gives-expect none = record { post = λ s h. tt }
Gives-expect (some a) = record { post = λ s h. h }

Post-const {ℓ} : {S A : Type ℓ} (Q : S → Type 0) (r : Outcome A) (s : S) → Q s → Post (λ _. Q) r s
Post-const Q (done a) s h = h
Post-const Q failed s h = tt
Post-const Q fault s h = tt

-- An invariant, whatever the value is.
pub Gives-Moves {ℓ} :
    {S A : Type ℓ} {P Q : S → Type 0} (m : Act S A)
    → ((s : S) → P s → Q (m s).1)
    → Gives P (λ _. Q) m
Gives-Moves {Q} m k = record { post = λ s h. Post-const Q (m s).0 (m s).1 (k s h) }
