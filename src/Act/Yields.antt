-- ===== src/Act/Yields.antt =====
-- What the value of an action satisfies if it succeeds, and its use for the rest of a block.

use example_ublox_mbed_clien.Prelude.{◌≡◌, Bool, true, false, Option, none, some, if◌then◌else◌}
use example_ublox_mbed_clien.Act.{
  Outcome, done, failed, fault, Act, pure, gets, continue, ◌>>=◌, settle, attempt, expect,
}
use mathlib.Core.Path.{subst}
use example_ublox_mbed_clien.Act.Safe.{Safe, IsDefined}

abbrev Holds {ℓ} : {A : Type ℓ} → (A → Type 0) → Outcome A → Type 0
Holds V (done a) = V a
Holds V failed = Unit
Holds V fault = Unit

pub record Yields {ℓ} {S A : Type ℓ} (V : A → Type 0) (m : Act S A) : Type ℓ where
  pub at : (s : S) → Holds V (m s).0

module _ {ℓ} {S A : Type ℓ} {V : A → Type 0} where
  pub Yields-pure : (a : A) → V a → Yields {S = S} V (pure a)
  Yields-pure a v = record { at = λ s. v }

  pub Yields-gets : (f : S → A) → ((s : S) → V (f s)) → Yields V (gets f)
  Yields-gets f v = record { at = v }

module _ {ℓ} {S A B : Type ℓ} {V : A → Type 0} where
  module _ {W : B → Type 0} where
    continue-Holds :
        (r : Outcome A) (f : A → Act S B) (s : S)
        → Holds V r
        → ((a : A) → V a → Yields W (f a))
        → Holds W (continue r f s).0
    continue-Holds (done a) f s v kf = (kf a v).at s
    continue-Holds failed f s v kf = tt
    continue-Holds fault f s v kf = tt

    pub Yields-bind :
        (m : Act S A) (f : A → Act S B)
        → Yields V m
        → ((a : A) → V a → Yields W (f a))
        → Yields W (m >>= f)
    unfolding ◌>>=◌
    Yields-bind m f km kf = record { at = λ s. continue-Holds (m s).0 f (m s).1 (km.at s) kf }

  module _ {P : S → Type ℓ} where
    continue-IsDefined :
        (r : Outcome A) (f : A → Act S B) (s : S)
        → IsDefined r
        → Holds V r
        → ((a : A) → V a → Safe P (f a))
        → P s
        → IsDefined (continue r f s).0
    continue-IsDefined (done a) f s d v kf h = (kf a v).defined s h
    continue-IsDefined failed f s d v kf h = tt
    continue-IsDefined fault f s d v kf h = absurd d

    continue_at :
        (r : Outcome A) (f : A → Act S B) (s : S)
        → Holds V r
        → ((a : A) → V a → Safe P (f a))
        → P s
        → P (continue r f s).1
    continue_at (done a) f s v kf h = (kf a v).at s h
    continue_at failed f s v kf h = h
    continue_at fault f s v kf h = h

    pub Safe-bind-Yields :
        (m : Act S A) (f : A → Act S B)
        → Safe P m
        → Yields V m
        → ((a : A) → V a → Safe P (f a))
        → Safe P (m >>= f)
    unfolding ◌>>=◌
    Safe-bind-Yields m f km vm kf = record {
      defined =
          λ s h. continue-IsDefined (m s).0 f (m s).1 (km.defined s h) (vm.at s) kf (km.at s h);
      at = λ s h. continue_at (m s).0 f (m s).1 (vm.at s) kf (km.at s h);
    }

-- Nothing is known of the value.
abbrev Anything {ℓ} : {A : Type ℓ} → A → Type 0
Anything a = Unit

Holds-Anything {ℓ} : {A : Type ℓ} (r : Outcome A) → Holds Anything r
Holds-Anything (done a) = tt
Holds-Anything failed = tt
Holds-Anything fault = tt

module _ {ℓ} {S A B : Type ℓ} {W : B → Type 0} where
  -- the value of a block is that of its last action
  pub Yields-last :
      (m : Act S A) (f : A → Act S B) → ((a : A) → Yields W (f a)) → Yields W (m >>= f)
  Yields-last m f kf =
      Yields-bind {V = Anything} m f (record { at = λ s. Holds-Anything (m s).0 }) (λ a _. kf a)

-- A property of the value of an attempt, if there is one.
abbrev pub IfSome {ℓ} : {A : Type ℓ} → (A → Type 0) → Option A → Type 0
IfSome V none = Unit
IfSome V (some a) = V a

settle-Holds {ℓ} :
    {S A : Type ℓ} (V : A → Type 0) (r : Outcome A) (s : S)
    → Holds V r
    → Holds (IfSome V) (settle r s).0
settle-Holds V (done a) s h = h
settle-Holds V failed s h = tt
settle-Holds V fault s h = tt

module _ {ℓ} {S A : Type ℓ} {V : A → Type 0} where
  pub Yields-attempt : (m : Act S A) → Yields V m → Yields (IfSome V) (attempt m)
  unfolding attempt
  Yields-attempt m km = record { at = λ s. settle-Holds V (m s).0 (m s).1 (km.at s) }

  pub Yields-if :
      (b : Bool) (m n : Act S A) → Yields V m → Yields V n → Yields V (if b then m else n)
  Yields-if true m n km kn = km
  Yields-if false m n km kn = kn

  pub Yields-expect : (o : Option A) → IfSome V o → Yields {S = S} V (expect o)
  Yields-expect none h = record { at = λ s. tt }
  Yields-expect (some a) h = record { at = λ s. h }

pub Yields-done {ℓ} :
    {S A : Type ℓ} {V : A → Type 0} {m : Act S A} {s : S} {a : A}
    → Yields V m
    → (m s).0 ≡ done a
    → V a
Yields-done {V} {s} km e = subst (Holds V) e (km.at s)
