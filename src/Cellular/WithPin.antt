-- ===== src/Cellular/WithPin.antt =====
-- A PIN that is there can be printed: the rule for `pin_argument`.
use example_ublox_mbed_clien.Prelude.{ℕ, ◌≡◌, true, false, some, none, Option, List, is_some, arith}
use example_ublox_mbed_clien.Act.{Act, ◌>>=◌, gets}
use example_ublox_mbed_clien.Act.Safe.{Moves}
use example_ublox_mbed_clien.Cellular.{Arg, text, Modem}
use example_ublox_mbed_clien.Cellular.Sim.{pin_argument}

false_not_true : false ≡ true → ⊥
false_not_true e = ground arith

module _ {B : Type 0} {P Q : Modem → Type 0} (k : Arg → Act Modem B)
    (kk : (a : Arg) → Moves P Q (k a)) where
  present_then-Moves : (o : Option (List ℕ)) → is_some o ≡ true → Moves P Q (pin_argument o >>= k)
  unfolding pin_argument ◌>>=◌
  present_then-Moves none e = record {
    defined = λ m h. absurd (false_not_true e);
    at = λ m h. absurd (false_not_true e);
  }
  present_then-Moves (some p) e = record {
    defined = λ m h. (kk (text p)).defined m h;
    at = λ m h. (kk (text p)).at m h;
  }

  pub pin_then-Moves :
      ((m : Modem) → P m → is_some m.pin ≡ true)
      → Moves P Q (gets (λ m. m.pin) >>= λ pin. pin_argument pin >>= k)
  unfolding ◌>>=◌
  pin_then-Moves pinned = record {
    defined = λ m h. (present_then-Moves m.pin (pinned m h)).defined m h;
    at = λ m h. (present_then-Moves m.pin (pinned m h)).at m h;
  }
