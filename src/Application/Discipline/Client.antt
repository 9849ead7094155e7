-- ===== src/Application/Discipline/Client.antt =====
-- The methods of MbedClient in simpleclient.h use no null pointer, and ask for an update only after a
-- registration.
use Prim.Native.String.{String}
use example_ublox_mbed_clien.Prelude.{
  ◌≡◌, refl, Bool, true, false, not, ◌||◌, Option, List, ℕ, arith,
}
use example_ublox_mbed_clien.Act.{Act, modify, ◌>>=◌, ◌>>◌}
use example_ublox_mbed_clien.Act.Safe.{
  Moves, Safe, IsDefined, Safe-bind, Safe-pure, Moves-modify, Safe-if,
}
use example_ublox_mbed_clien.Act.Hands.{Moves-read}
use example_ublox_mbed_clien.Cellular.{Modem}
use example_ublox_mbed_clien.Application.{
  Object, Board, ask, log, set_client, dereference, register_object, update_registration,
}
use example_ublox_mbed_clien.Application.Battery.{memory_free}
use example_ublox_mbed_clien.Application.Client.{
  create_client_interface, create_register_object, register_successful, test_register,
  test_unregister, test_update_register, set_register_object, when_there,
}
use example_ublox_mbed_clien.Application.Discipline.{
  Sound, renew, come-Sound, Safe-ask, Safe-ask_for, Safe-set_client, board_rules, has_asked,
}

-- What test_update_register does behind its look at the client.
abbrev update_when : Bool → Bool → Bool → Act Board Unit
update_when registered interface security =
    when_there registered (do dereference interface; ask (update_registration security 100))

module _ {early : Bool} {P : Modem → Type 0} where
  pub Safe-register_successful : Safe (Sound early P) register_successful
  unfolding register_successful
  Safe-register_successful = search board_rules depth 9

  pub Safe-create_register_object : Safe (Sound early P) create_register_object
  unfolding create_register_object
  Safe-create_register_object = search board_rules depth 24

  pub Safe-test_unregister : Safe (Sound early P) test_unregister
  unfolding test_unregister
  Safe-test_unregister = search board_rules depth 9

  pub Safe-memory_free : Safe (Sound early P) memory_free
  unfolding memory_free
  Safe-memory_free = search board_rules depth 12

  pub Safe-set_register_object : (there : Bool) → Safe (Sound early P) (set_register_object there)
  unfolding set_register_object
  Safe-set_register_object there = Safe-set_client _ (λ c. refl) (λ c. refl) (λ c. refl)

-- A weaker rule for the modem, and the rule before the first request for a registration.
pub Sound_late :
    {early : Bool} {P Q : Modem → Type 0} (b : Board)
    → ((m : Modem) → P m → Q m)
    → Sound early P b
    → Sound false Q b
Sound_late b w h = record {
  modem = w b.modem h.modem;
  gauge = h.gauge;
  known = h.known;
  asked = h.asked;
  exclusive = h.exclusive;
  unasked = refl;
  ordered = h.ordered;
  honest = h.honest;
  memory = h.memory;
}

module _ {P : Modem → Type 0} where
  set_interface :
      (there : Bool)
      → Safe (Sound true P) (modify (set_client (λ c. record c { interface = there })))
  set_interface there = Moves-modify _ (λ b h.
      renew (record b.client { interface = there }) h.known (rw (h.unasked) refl) h.exclusive refl
        h)

  pub Safe-create_client_interface :
      (address : String) → Safe (Sound true P) (create_client_interface address)
  unfolding create_client_interface
  Safe-create_client_interface address =
      Safe-bind _ _ (Safe-set_client _ (λ c. refl) (λ c. refl) (λ c. refl)) (λ _.
        Safe-bind _ _ (Safe-ask_for _ refl) (λ there.
          Safe-bind _ _ (set_interface there)
            (λ _. Safe-if there _ _ (Safe-ask _ refl) (Safe-pure tt))))

  log-register :
      (there : Bool) (os : List (Option Object)) (b : Board)
      → b.client.interface ≡ true
      → Sound false P b
      → Sound false P (log (register_object there os) b)
  log-register there os b i h = record {
    modem = h.modem;
    gauge = h.gauge;
    known = ground arith;
    asked = i;
    exclusive = h.exclusive;
    unasked = refl;
    ordered = h.ordered;
    honest = h.honest;
    memory = h.memory;
  }

  log-update :
      (there : Bool) (n : ℕ) (b : Board)
      → has_asked b.trace ≡ true
      → Sound false P b
      → Sound false P (log (update_registration there n) b)
  log-update there n b a h = record {
    modem = h.modem;
    gauge = h.gauge;
    known = h.known;
    asked = h.asked;
    exclusive = h.exclusive;
    unasked = refl;
    ordered = (a, h.ordered);
    honest = h.honest;
    memory = h.memory;
  }

  ask_register :
      (there : Bool) (os : List (Option Object))
      → Moves
          (λ b. (b.client.interface ≡ true) × Sound false P b)
          (Sound false P)
          (ask (register_object there os))
  unfolding ask ◌>>=◌
  ask_register there os = record {
    defined = λ b h. tt;
    at = λ b h. come-Sound.at _ (log-register there os b h.0 h.1);
  }

  register_if :
      (there security : Bool) (os : List (Option Object))
      → Moves
          (λ b. (b.client.interface ≡ there) × Sound false P b)
          (Sound false P)
          (when_there there (ask (register_object security os)))
  register_if true security os = ask_register security os
  register_if false security os = record { defined = λ b h. tt; at = λ b h. h.1 }

  pub Safe-test_register :
      (security : Bool) (os : List (Option Object))
      → Safe (Sound false P) (test_register security os)
  unfolding test_register
  Safe-test_register security os = Moves-read _ _ (λ there. register_if there security os)

  ask_update :
      (there : Bool) (n : ℕ)
      → Moves
          (λ b. (has_asked b.trace ≡ true) × Sound false P b)
          (Sound false P)
          (ask (update_registration there n))
  unfolding ask ◌>>=◌
  ask_update there n = record {
    defined = λ b h. tt;
    at = λ b h. come-Sound.at _ (log-update there n b h.0 h.1);
  }

  update_if :
      (registered interface security : Bool) (b : Board)
      → (not registered || has_asked b.trace) ≡ true
      → (not (has_asked b.trace) || interface) ≡ true
      → Sound false P b
      → IsDefined (update_when registered interface security b).0
        × Sound false P (update_when registered interface security b).1
  unfolding ◌>>=◌ dereference
  update_if false interface security b k a h = (tt, h)
  update_if true true security b k a h =
      ((ask_update security 100).defined b (k, h), (ask_update security 100).at b (k, h))
  update_if true false security b k a h = ground arith

  -- A client that is registered was asked to register, so that it has an interface.
  pub Safe-test_update_register : Safe (Sound false P) test_update_register
  unfolding test_update_register ◌>>=◌
  Safe-test_update_register = Safe-bind _ _ (Safe-ask _ refl) (λ _. record {
    defined = λ b h.
        (update_if b.client.registered b.client.interface b.client.register_security b h.known
          h.asked h).0;
    at = λ b h.
        (update_if b.client.registered b.client.interface b.client.register_security b h.known
          h.asked h).1;
  })
