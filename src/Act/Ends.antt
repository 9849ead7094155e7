-- ===== src/Act/Ends.antt =====
-- Where an action ends if it succeeds: a postcondition on its value and state.
use mathlib.Core.Path.{subst}
use example_ublox_mbed_clien.Prelude.{◌≡◌, refl, Bool, true, false, Option, none, some}
use example_ublox_mbed_clien.Act.{
  Outcome, done, failed, fault, Act, continue, ◌>>=◌, ◌>>◌, guard, expect,
}

abbrev pub Post {ℓ} : {S A : Type ℓ} → (A → S → Type 0) → Outcome A → S → Type 0
Post Q (done a) s = Q a s
Post Q failed s = Unit
Post Q fault s = Unit

-- If `m` succeeds from `s`, then with a value and in a state that satisfy `Q`.
pub record EndsAt {ℓ} {S A : Type ℓ} (Q : A → S → Type 0) (m : Act S A) (s : S) : Type 0 where
  pub post : Post Q (m s).0 (m s).1

pub record Ends {ℓ} {S A : Type ℓ} (Q : A → S → Type 0) (m : Act S A) : Type ℓ where
  pub at : (s : S) → EndsAt Q m s

continue-Post {ℓ} :
    {S A B : Type ℓ} (W : B → S → Type 0) (r : Outcome A) (f : A → Act S B) (s : S)
    → ((a : A) → r ≡ done a → EndsAt W (f a) s)
    → Post W (continue r f s).0 (continue r f s).1
continue-Post W (done a) f s k = (k a refl).post
continue-Post W failed f s k = tt
continue-Post W fault f s k = tt

module _ {ℓ} {S A B : Type ℓ} {W : B → S → Type 0} where
  -- whatever the first action did
  pub Ends-last : (m : Act S A) (f : A → Act S B) → ((a : A) → Ends W (f a)) → Ends W (m >>= f)
  unfolding ◌>>=◌
  Ends-last m f kf = record {
    at = λ s. record { post = continue-Post W (m s).0 f (m s).1 (λ a e. (kf a).at (m s).1) };
  }

  pub Ends-bind :
      {V : A → S → Type 0} (m : Act S A) (f : A → Act S B)
      → Ends V m
      → ((a : A) (s : S) → V a s → EndsAt W (f a) s)
      → Ends W (m >>= f)
  unfolding ◌>>=◌
  Ends-bind {V} m f km kf = record {
    at = λ s. record {
      post =
          continue-Post W (m s).0 f (m s).1
            (λ a e. kf a (m s).1 (subst (λ r. Post V r (m s).1) e ((km.at s).post)));
    };
  }

  -- one step from a state at which the first action is known to succeed
  pub EndsAt-bind :
      (m : Act S A) (f : A → Act S B) (s : S) (a : A)
      → (m s).0 ≡ done a
      → EndsAt W (f a) (m s).1
      → EndsAt W (m >>= f) s
  unfolding ◌>>=◌
  EndsAt-bind m f s a e k = record { post = rw e (k.post) }

module _ {ℓ} {S A : Type ℓ} {W : A → S → Type 0} where
  pub EndsAt-guard : (b : Bool) (m : Act S A) (s : S) → EndsAt W m s → EndsAt W (guard b >> m) s
  unfolding ◌>>=◌
  EndsAt-guard true m s k = record { post = k.post }
  EndsAt-guard false m s k = record { post = tt }

  pub EndsAt-expect : (o : Option A) (s : S) → ((a : A) → W a s) → EndsAt W (expect o) s
  EndsAt-expect none s k = record { post = tt }
  EndsAt-expect (some a) s k = record { post = k a }

  pub EndsAt-done : (m : Act S A) (s : S) (a : A) → EndsAt W m s → (m s).0 ≡ done a → W a (m s).1
  EndsAt-done m s a p e = subst (λ r. Post W r (m s).1) e (p.post)
