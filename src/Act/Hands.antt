-- ===== src/Act/Hands.antt =====
-- Actions that keep an invariant and hand on a value of which something holds.
use example_ublox_mbed_clien.Prelude.{◌≡◌, refl}
use example_ublox_mbed_clien.Act.{Outcome, done, failed, fault, Act, pure, gets, continue, ◌>>=◌}
use example_ublox_mbed_clien.Act.Safe.{Moves, Safe, IsDefined}
use example_ublox_mbed_clien.Act.Splits.{Splits, Either, Splits-then, Splits-bind, Splits-with}

abbrev pub Hands : {S A : Type 0} → (S → Type 0) → (A → Type 0) → Act S A → Type 0
Hands P V m = Splits P (λ a s. V a × P s) P m

module _ {S A B : Type 0} {P : S → Type 0} {V : A → Type 0} where
  handed-IsDefined :
      (r : Outcome A) (f : A → Act S B) (s : S)
      → ((a : A) → V a → Safe P (f a))
      → Either (λ a s. V a × P s) P r s
      → IsDefined (continue r f s).0
  handed-IsDefined (done a) f s k h = (k a h.0).defined s h.1
  handed-IsDefined failed f s k h = tt
  handed-IsDefined fault f s k h = absurd h

  handed_at :
      (r : Outcome A) (f : A → Act S B) (s : S)
      → ((a : A) → V a → Safe P (f a))
      → Either (λ a s. V a × P s) P r s
      → P (continue r f s).1
  handed_at (done a) f s k h = (k a h.0).at s h.1
  handed_at failed f s k h = h
  handed_at fault f s k h = absurd h

  -- What follows may rely on what holds of the value.
  pub Hands-Safe :
      (m : Act S A) (f : A → Act S B)
      → Hands P V m
      → ((a : A) → V a → Safe P (f a))
      → Safe P (m >>= f)
  unfolding ◌>>=◌
  Hands-Safe m f km kf = record {
    defined = λ s h. handed-IsDefined (m s).0 f (m s).1 kf (km.out s h);
    at = λ s h. handed_at (m s).0 f (m s).1 kf (km.out s h);
  }

  pub Hands-bind :
      {W : B → Type 0} (m : Act S A) (f : A → Act S B)
      → Hands P V m
      → ((a : A) → V a → Hands P W (f a))
      → Hands P W (m >>= f)
  Hands-bind m f km kf = Splits-bind m f km (λ a. Splits-with (f a) (kf a))

module _ {S B : Type 0} {P : S → Type 0} {W : B → Type 0} where
  pub Hands-then :
      {A : Type 0} (m : Act S A) (f : A → Act S B)
      → Safe P m
      → ((a : A) → Hands P W (f a))
      → Hands P W (m >>= f)
  Hands-then m f km kf = Splits-then m f (λ s h. h) km kf

  pub Hands-pure : (b : B) → W b → Hands P W (pure b)
  Hands-pure b w = record { out = λ s h. (w, h) }

-- A value that is read stays what the state has there until the state changes.
pub Moves-read :
    {S A B : Type 0} {P R : S → Type 0} (f : S → A) (k : A → Act S B)
    → ((a : A) → Moves (λ s. (f s ≡ a) × P s) R (k a))
    → Moves P R (gets f >>= k)
unfolding ◌>>=◌
Moves-read f k kk = record {
  defined = λ s h. (kk (f s)).defined s (refl, h);
  at = λ s h. (kk (f s)).at s (refl, h);
}
