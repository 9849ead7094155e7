-- ===== src/Cellular/Identity.antt =====
-- What set_device_identity of UbloxCellularBase.cpp makes of the answer to ATI.
use example_ublox_mbed_clien.Prelude.{
  ℕ, ◌≡◌, ◌⊎◌, inl, inr, refl, Bool, true, false, some, none, Option, List, [], ◌∷◌, take, contains,
  codes, if◌then◌else◌,
}
use example_ublox_mbed_clien.Act.{done, attempt, ◌>>=◌}
use example_ublox_mbed_clien.Cellular.{
  Modem, DeviceType, sara_g35, lisa_u2, lisa_u2_03s, sara_u2, leon_g2, toby_l2, mpci_l2,
}
use example_ublox_mbed_clien.Cellular.Callbacks.{handle_urcs}
use example_ublox_mbed_clien.Cellular.Parser
use example_ublox_mbed_clien.Cellular.Parser.{emit, recv_text, with_lock, assert_at}
use example_ublox_mbed_clien.Cellular.Power.{set_device_identity, identify, set_dev}

-- The parser is there, accepts all commands and scans `answer` for every text.
abbrev pub answers : List ℕ → Modem → Modem
answers answer m = record m {
  at = true;
  sends = λ _. true;
  receives = λ _. true;
  field = λ _. answer;
  urcs = λ _. [];
}

-- The names of the modems, those that begin with another one before it.
abbrev pub names : List (List ℕ × DeviceType)
names =
    (codes "SARA-G35", sara_g35)
    ∷ (codes "LISA-U200-03S", lisa_u2_03s)
    ∷ (codes "LISA-U2", lisa_u2)
    ∷ (codes "SARA-U2", sara_u2)
    ∷ (codes "LEON-G2", leon_g2)
    ∷ (codes "TOBY-L2", toby_l2)
    ∷ (codes "MPCI-L2", mpci_l2)
    ∷ []

-- The type after an answer: that of the first of these names in it, or the type before.
abbrev pub IsNamed : List (List ℕ × DeviceType) → List ℕ → DeviceType → DeviceType → Type 0
IsNamed [] answer before after = after ≡ before
IsNamed ((name, d) ∷ rest) answer before after =
    ((contains name answer ≡ true) × (after ≡ d))
    ⊎ ((contains name answer ≡ false) × IsNamed rest answer before after)

-- One test of `identify`, and the row of the table that it is.
test-IsNamed :
    (found : Bool) (d : DeviceType) (o : Option DeviceType) (m : Modem) (Rest : DeviceType → Type 0)
    → Rest (set_dev o m).dev
    → ((found ≡ true) × ((set_dev (if found then some d else o) m).dev ≡ d))
      ⊎ ((found ≡ false) × Rest (set_dev (if found then some d else o) m).dev)
test-IsNamed true d o m Rest rest = inl (refl, refl)
test-IsNamed false d o m Rest rest = inr (refl, rest)

unfoldable first_named : List (List ℕ × DeviceType) → List ℕ → Option DeviceType
first_named [] answer = none
first_named ((name, d) ∷ rest) answer =
    let later = first_named rest answer in if contains name answer then some d else later

first_named-IsNamed :
    (rows : List (List ℕ × DeviceType)) (answer : List ℕ) (m : Modem)
    → IsNamed rows answer m.dev (set_dev (first_named rows answer) m).dev
unfolding first_named
first_named-IsNamed [] answer m = refl
first_named-IsNamed ((name, d) ∷ rest) answer m =
    test-IsNamed (contains name answer) d (first_named rest answer) m (IsNamed rest answer m.dev)
      (first_named-IsNamed rest answer m)

identify-IsNamed :
    (answer : List ℕ) (m : Modem) → IsNamed names answer m.dev (set_dev (identify answer) m).dev
unfolding identify first_named
identify-IsNamed answer m = first_named-IsNamed names answer m

-- If the modem answers ATI and says nothing else, set_device_identity succeeds. The type is that of
-- the first of these names which the first 19 characters contain: SARA-G35, LISA-U200-03S, LISA-U2,
-- SARA-U2, LEON-G2, TOBY-L2, MPCI-L2; if they contain none, it is what it was before.
pub set_device_identity-answer :
    (answer : List ℕ) (m : Modem)
    → ((set_device_identity (answers answer m)).0 ≡ done tt)
      × IsNamed names (take 19 answer) m.dev (set_device_identity (answers answer m)).1.dev
unfolding set_device_identity with_lock assert_at emit recv_text Parser.send handle_urcs ◌>>=◌
    attempt
set_device_identity-answer answer m = (refl, identify-IsNamed (take 19 answer) _)
