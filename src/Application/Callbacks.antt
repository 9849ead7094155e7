-- ===== src/Application/Callbacks.antt =====
-- The callbacks of MbedClient in simpleclient.h as a machine with three states.
use example_ublox_mbed_clien.Prelude.{◌≡◌, refl, Bool, true, false, List, [], ◌∷◌}
use example_ublox_mbed_clien.Application.{
  Arrival, Board, MbedClient, arrive, arrive_all, note_registered, note_unregistered,
  note_bootstrap, button, bootstrap_done, object_registered, object_unregistered,
  registration_updated, value_updated, error,
}

-- How the client stands with its server.
pub data Standing : Type 0 where
  unknown registered unregistered : Standing

-- One callback: two of them lead to a state of their own, from every state, and the others stay.
pub data Step : Standing → Arrival → Standing → Type 0 where
  join : (s : Standing) → Step s object_registered registered
  leave : (s : Standing) → Step s object_unregistered unregistered
  press : (s : Standing) → Step s button s
  boot : (s : Standing) (there : Bool) → Step s (bootstrap_done there) s
  update : (s : Standing) → Step s registration_updated s
  put : (s : Standing) → Step s value_updated s
  fail : (s : Standing) (e : _) → Step s (error e) s

-- A sequence of callbacks, in their order.
pub data Reaches : Standing → List Arrival → Standing → Type 0 where
  here : (s : Standing) → Reaches s [] s
  next :
      {s t u : Standing} {a : Arrival} {come : List Arrival}
      → Step s a t
      → Reaches t come u
      → Reaches s (a ∷ come) u

-- The two flags of a state.
abbrev is_registered : Standing → Bool
is_registered registered = true
is_registered s = false

abbrev is_unregistered : Standing → Bool
is_unregistered unregistered = true
is_unregistered s = false

pub record Stands (s : Standing) (c : MbedClient) : Type 0 where
  pub in_ : c.registered ≡ is_registered s
  pub out : c.unregistered ≡ is_unregistered s

-- The state that a callback leads to.
abbrev after : Arrival → Standing → Standing
after object_registered s = registered
after object_unregistered s = unregistered
after a s = s

after-Step : (a : Arrival) (s : Standing) → Step s a (after a s)
after-Step object_registered s = join s
after-Step object_unregistered s = leave s
after-Step button s = press s
after-Step (bootstrap_done there) s = boot s there
after-Step registration_updated s = update s
after-Step value_updated s = put s
after-Step (error e) s = fail s e

after-Stands :
    (a : Arrival) (s : Standing) (b : Board)
    → Stands s b.client
    → Stands (after a s) (arrive a b).client
unfolding arrive note_registered note_unregistered note_bootstrap
after-Stands object_registered s b h = record { in_ = refl; out = refl }
after-Stands object_unregistered s b h = record { in_ = refl; out = refl }
after-Stands (bootstrap_done true) s b h = record { in_ = h.in_; out = h.out }
after-Stands (bootstrap_done false) s b h = h
after-Stands (error e) s b h = record { in_ = h.in_; out = h.out }
after-Stands button s b h = h
after-Stands registration_updated s b h = h
after-Stands value_updated s b h = h

-- The callbacks of MbedClient implement the machine: in any order and number they take a client whose
-- flags are those of a state to one whose flags are those of a state that the machine reaches by the
-- same callbacks. So register_successful tells what the last report on the registration was, and a
-- failure or an update changes neither flag.
pub arrive_all-Reaches :
    (come : List Arrival) (s : Standing) (b : Board)
    → Stands s b.client
    → (t : Standing) × Reaches s come t × Stands t (arrive_all come b).client
unfolding arrive_all
arrive_all-Reaches [] s b h = (s, here s, h)
arrive_all-Reaches (a ∷ come) s b h =
    let (t, p, k) = arrive_all-Reaches come (after a s) (arrive a b) (after-Stands a s b h) in
    (t, next (after-Step a s) p, k)
