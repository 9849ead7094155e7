-- ===== src/Act.antt =====
-- Methods that talk to a device: a state, and three ways to end. It models no code by itself; the
-- drivers' methods are written in it.
pub mod Safe
pub mod Runs
pub mod Yields
pub mod Ends
pub mod Gives
pub mod Splits
pub mod Hands
use example_ublox_mbed_clien.Prelude.{Bool, true, false, Option, none, some, if◌then◌else◌}

-- `done` is the way through the nested `if`s of a method, `failed` is any of their else branches,
-- and `fault` is undefined behaviour of C++, after which nothing runs.
pub data Outcome {ℓ} (A : Type ℓ) : Type ℓ where
  done : A → Outcome A
  failed : Outcome A
  fault : Outcome A

-- What was changed before a failure stays changed, so the state comes back beside every outcome.
abbrev pub Act {ℓ} : Type ℓ → Type ℓ → Type ℓ
Act S A = S → Outcome A × S

module _ {ℓ} {S A : Type ℓ} where
  abbrev pub pure : A → Act S A
  pure a s = (done a, s)

  abbrev pub fail : Act S A
  fail s = (failed, s)

  abbrev pub crash : Act S A
  crash s = (fault, s)

  abbrev pub gets : (S → A) → Act S A
  gets f s = (done (f s), s)

abbrev pub modify {ℓ} : {S : Type ℓ} → (S → S) → Act S Unit
modify f s = (done tt, f s)

module _ {ℓ} {S A B : Type ℓ} where
  abbrev pub continue : Outcome A → (A → Act S B) → Act S B
  continue (done a) f s = f a s
  continue failed f s = (failed, s)
  continue fault f s = (fault, s)

  infixl 5 ◌>>=◌ ◌>>◌
  unfoldable pub ◌>>=◌ : Act S A → (A → Act S B) → Act S B
  ◌>>=◌ m f s = let (r, s') = m s in continue r f s'

  abbrev pub ◌>>◌ : Act S A → Act S B → Act S B
  m >> n = m >>= λ _. n

abbrev pub guard {ℓ} : {S : Type ℓ} → Bool → Act S Unit
guard true s = (done tt, s)
guard false s = (failed, s)

module _ {ℓ} {S A : Type ℓ} where
  abbrev pub settle : Outcome A → Act S (Option A)
  settle (done a) s = (done (some a), s)
  settle failed s = (done none, s)
  settle fault s = (fault, s)

  -- `x = m()`, where the caller looks at whether `m` succeeded and goes on in either case
  unfoldable pub attempt : Act S A → Act S (Option A)
  attempt m s = let (r, s') = m s in settle r s'

  -- The end of a method that hands on an earlier success.
  abbrev pub expect : Option A → Act S A
  expect none s = (failed, s)
  expect (some a) s = (done a, s)
