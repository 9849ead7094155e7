-- ===== src/Application/Discipline.antt =====
-- What holds throughout main of main.cpp: the rules of the two drivers, the flags of MbedClient, and the
-- order of the calls of mbed client.
pub mod Objects
pub mod Client
pub mod Main
pub mod Battery
use example_ublox_mbed_clien.Prelude.{
  ℕ, ◌≡◌, refl, Bool, true, false, not, ◌&&◌, ◌||◌, List, [], ◌∷◌, arith,
}
use example_ublox_mbed_clien.Act.{
  Outcome, done, failed, fault, Act, pure, gets, modify, ◌>>=◌, ◌>>◌,
}
use example_ublox_mbed_clien.Act.Safe.{
  Moves, Safe, Safe-bind, Moves-modify, Safe-gets_then, Moves-gets, Safe-pure, IsDefined,
  safe_rules,
}
use example_ublox_mbed_clien.Act.Hands.{Hands}
use example_ublox_mbed_clien.Act.Splits.{Splits, Either}
use example_ublox_mbed_clien.Act.Runs.{Runs, Runs-bind}
use example_ublox_mbed_clien.Cellular.{Modem}
use example_ublox_mbed_clien.Gauge.{Gauge}
use example_ublox_mbed_clien.Gauge.Discipline.{IsIdle}
use example_ublox_mbed_clien.Application.{
  Event, Arrival, Board, MbedClient, log, led_on, led_off, set_client, arrive, arrive_all,
  note_bootstrap, note_registered, note_unregistered, ask, ask_for, on_modem, on_gauge, dereference,
  register_object, update_registration, create_device, create_object, create_object_instance,
  create_dynamic_resource, button, bootstrap_done, object_registered, object_unregistered,
  registration_updated, value_updated, error,
}

-- Was mbed client asked to register the objects?
abbrev pub has_asked : List Event → Bool
has_asked [] = false
has_asked (register_object there objects ∷ t) = true
has_asked (e ∷ t) = has_asked t

-- An update is asked for only after a registration was.
abbrev pub IsOrdered : List Event → Type 0
IsOrdered [] = Unit
IsOrdered (update_registration there lifetime ∷ t) = (has_asked t ≡ true) × IsOrdered t
IsOrdered (e ∷ t) = IsOrdered t

abbrev pub announces : List Arrival → Bool
announces [] = false
announces (object_registered ∷ come) = true
announces (a ∷ come) = announces come

-- mbed client reports a registration only if it was asked for one.
abbrev pub IsHonest : (List Event → List Arrival) → Type 0
IsHonest arrivals = (t : List Event) → announces (arrivals t) ≡ true → has_asked t ≡ true

-- What the program makes without a look at the pointer.
abbrev pub is_factory : Event → Bool
is_factory create_device = true
is_factory (create_object name) = true
is_factory (create_object_instance o) = true
is_factory (create_dynamic_resource o name type kind observable) = true
is_factory e = false

abbrev pub HasMemory : (List Event → Bool) → Type 0
HasMemory makes = (e : Event) (t : List Event) → is_factory e ≡ true → makes (e ∷ t) ≡ true

-- The modem's driver satisfies `P`, and the gauge's mutex is free; a registered client was asked to
-- register, and has an interface, and is not unregistered. If `early`, it was not yet asked.
pub record Sound (early : Bool) (P : Modem → Type 0) (b : Board) : Type 0 where
  pub modem : P b.modem
  pub gauge : IsIdle 0 b.gauge
  pub known : (not b.client.registered || has_asked b.trace) ≡ true
  pub asked : (not (has_asked b.trace) || b.client.interface) ≡ true
  pub exclusive : (b.client.registered && b.client.unregistered) ≡ false
  pub unasked : (early && has_asked b.trace) ≡ false
  pub ordered : IsOrdered b.trace
  pub honest : IsHonest b.arrivals
  pub memory : HasMemory b.makes

-- Events that the order does not speak of.
abbrev pub is_plain : Event → Bool
is_plain (register_object there objects) = false
is_plain (update_registration there lifetime) = false
is_plain e = true

has_asked-plain : (e : Event) (t : List Event) → is_plain e ≡ true → has_asked (e ∷ t) ≡ has_asked t
has_asked-plain (register_object there objects) t h = ground arith
has_asked-plain _ t h = refl

IsOrdered-plain : (e : Event) (t : List Event) → is_plain e ≡ true → IsOrdered t → IsOrdered (e ∷ t)
IsOrdered-plain (update_registration there lifetime) t h o = ground arith
IsOrdered-plain _ t h o = o

module _ {early : Bool} {P : Modem → Type 0} where
  log-Sound :
      (e : Event) (b : Board) → is_plain e ≡ true → Sound early P b → Sound early P (log e b)
  log-Sound e b plain h = record {
    modem = h.modem;
    gauge = h.gauge;
    known = rw (has_asked-plain e b.trace plain) h.known;
    asked = rw (has_asked-plain e b.trace plain) h.asked;
    exclusive = h.exclusive;
    unasked = rw (has_asked-plain e b.trace plain) h.unasked;
    ordered = IsOrdered-plain e b.trace plain h.ordered;
    honest = h.honest;
    memory = h.memory;
  }

  -- Another state of the client, and of what no rule speaks of.
  pub renew :
      {b b' : Board} (c : MbedClient)
      → (not c.registered || has_asked b.trace) ≡ true
      → (not (has_asked b.trace) || c.interface) ≡ true
      → (c.registered && c.unregistered) ≡ false
      → b' ≡ record b { client = c; leds = b'.leds; button_pressed = b'.button_pressed }
      → Sound early P b
      → Sound early P b'
  renew {b} {b'} c k a x e h = rw e (record {
    modem = h.modem;
    gauge = h.gauge;
    known = k;
    asked = a;
    exclusive = x;
    unasked = h.unasked;
    ordered = h.ordered;
    honest = h.honest;
    memory = h.memory;
  })

  same :
      {b b' : Board}
      → b' ≡ record b { leds = b'.leds; button_pressed = b'.button_pressed }
      → Sound early P b
      → Sound early P b'
  same {b} e h = renew b.client h.known h.asked h.exclusive e h

  arrive-Sound :
      (a : Arrival) (b : Board)
      → (announces (a ∷ []) ≡ true → has_asked b.trace ≡ true)
      → Sound early P b
      → Sound early P (arrive a b)
  unfolding arrive note_bootstrap note_registered note_unregistered
  arrive-Sound object_registered b k h =
      renew (note_registered b.client) (k refl) h.asked refl refl h
  arrive-Sound object_unregistered b k h =
      renew (note_unregistered b.client) refl h.asked refl refl h
  arrive-Sound (bootstrap_done true) b k h =
      renew (note_bootstrap true b.client) h.known h.asked h.exclusive refl h
  arrive-Sound (bootstrap_done false) b k h = h
  arrive-Sound (error e) b k h =
      renew (record b.client { has_error = true }) h.known h.asked h.exclusive refl h
  arrive-Sound button b k h = same refl h
  arrive-Sound _ b k h = h

arrive-trace : (a : Arrival) (b : Board) → (arrive a b).trace ≡ b.trace
unfolding arrive
arrive-trace button b = refl
arrive-trace (bootstrap_done there) b = refl
arrive-trace object_registered b = refl
arrive-trace object_unregistered b = refl
arrive-trace registration_updated b = refl
arrive-trace value_updated b = refl
arrive-trace (error e) b = refl

announces-here :
    (a : Arrival) (come : List Arrival) → announces (a ∷ []) ≡ true → announces (a ∷ come) ≡ true
announces-here object_registered come h = refl
announces-here _ come h = ground arith

announces-later :
    (a : Arrival) (come : List Arrival) → announces come ≡ true → announces (a ∷ come) ≡ true
announces-later object_registered come h = refl
announces-later _ come h = h

module _ {early : Bool} {P : Modem → Type 0} where
  arrive_all-Sound :
      (come : List Arrival) (b : Board)
      → (announces come ≡ true → has_asked b.trace ≡ true)
      → Sound early P b
      → Sound early P (arrive_all come b)
  unfolding arrive_all
  arrive_all-Sound [] b k h = h
  arrive_all-Sound (a ∷ come) b k h =
      arrive_all-Sound come (arrive a b) (λ e. rw (arrive-trace a b) (k (announces-later a come e)))
        (arrive-Sound a b (λ e. k (announces-here a come e)) h)

  pub come-Sound :
      Safe (Sound early P) (gets (λ b. b.arrivals b.trace) >>= λ come. modify (arrive_all come))
  unfolding ◌>>=◌
  come-Sound = record {
    defined = λ b h. tt;
    at = λ b h. arrive_all-Sound (b.arrivals b.trace) b (h.honest b.trace) h;
  }

  log-Runs : (e : Event) → is_plain e ≡ true → Runs (Sound early P) (Sound early P) (modify (log e))
  log-Runs e plain = record { finishes = λ b h. tt; at = λ b h. log-Sound e b plain h }

  pub Safe-ask : (e : Event) → is_plain e ≡ true → Safe (Sound early P) (ask e)
  unfolding ask
  Safe-ask e plain = Runs-bind _ _ (log-Runs e plain) (λ _. come-Sound)

  -- Another state of the modem's driver.
  put_modem :
      {Q : Modem → Type 0} (m : Modem) (b : Board)
      → Sound early P b
      → Q m
      → Sound early Q (record b { modem = m })
  put_modem m b h q = record {
    modem = q;
    gauge = h.gauge;
    known = h.known;
    asked = h.asked;
    exclusive = h.exclusive;
    unasked = h.unasked;
    ordered = h.ordered;
    honest = h.honest;
    memory = h.memory;
  }

  pub Moves-on_modem :
      {A : Type 0} {Q : Modem → Type 0} (m : Act Modem A)
      → Moves P Q m
      → Moves (Sound early P) (Sound early Q) (on_modem m)
  unfolding on_modem
  Moves-on_modem m k = record {
    defined = λ b h. k.defined b.modem h.modem;
    at = λ b h. put_modem (m b.modem).1 b h (k.at b.modem h.modem);
  }

  put-Either :
      {A : Type 0} (W : A → Modem → Type 0) (R : Modem → Type 0) (r : Outcome A) (m : Modem)
      (b : Board)
      → Sound early P b
      → Either W R r m
      → Either (λ a. Sound early (W a)) (Sound early R) r (record b { modem = m })
  put-Either W R (done a) m b h q = put_modem m b h q
  put-Either W R failed m b h q = put_modem m b h q
  put-Either W R fault m b h q = q

  pub Splits-on_modem :
      {A : Type 0} {W : A → Modem → Type 0} {R : Modem → Type 0} (m : Act Modem A)
      → Splits P W R m
      → Splits (Sound early P) (λ a. Sound early (W a)) (Sound early R) (on_modem m)
  unfolding on_modem
  Splits-on_modem {W} {R} m k = record {
    out = λ b h. put-Either W R (m b.modem).0 (m b.modem).1 b h (k.out b.modem h.modem);
  }

  pub Safe-on_gauge :
      {A : Type 0} (m : Act Gauge A) → Safe (IsIdle 0) m → Safe (Sound early P) (on_gauge m)
  unfolding on_gauge
  Safe-on_gauge m k = record {
    defined = λ b h. k.defined b.gauge h.gauge;
    at = λ b h. record {
      modem = h.modem;
      gauge = k.at b.gauge h.gauge;
      known = h.known;
      asked = h.asked;
      exclusive = h.exclusive;
      unasked = h.unasked;
      ordered = h.ordered;
      honest = h.honest;
      memory = h.memory;
    };
  }

  pub Safe-led_on : Safe (Sound early P) (modify led_on)
  Safe-led_on = Moves-modify _ (λ b h. same refl h)

  pub Safe-led_off : Safe (Sound early P) (modify led_off)
  Safe-led_off = Moves-modify _ (λ b h. same refl h)

  -- A change of the client that leaves its flags and its interface alone.
  pub Safe-set_client :
      (f : MbedClient → MbedClient)
      → ((c : MbedClient) → (f c).registered ≡ c.registered)
      → ((c : MbedClient) → (f c).unregistered ≡ c.unregistered)
      → ((c : MbedClient) → (f c).interface ≡ c.interface)
      → Safe (Sound early P) (modify (set_client f))
  Safe-set_client f r u i = Moves-modify _ (λ b h.
      renew (f b.client) (rw (r b.client) h.known) (rw (i b.client) h.asked)
        (rw (r b.client, u b.client) h.exclusive) refl h)

  pub Safe-ask_for : (e : Event) → is_plain e ≡ true → Safe (Sound early P) (ask_for e)
  unfolding ask_for ◌>>=◌
  Safe-ask_for e plain = record {
    defined = λ b h. tt;
    at = λ b h. come-Sound.at (log e b) (log-Sound e b plain h);
  }

  pub Hands-ask_for :
      (e : Event)
      → is_plain e ≡ true
      → is_factory e ≡ true
      → Hands (Sound early P) (λ there. there ≡ true) (ask_for e)
  unfolding ask_for ◌>>=◌
  Hands-ask_for e plain made = record {
    out = λ b h. (h.memory e b.trace made, come-Sound.at (log e b) (log-Sound e b plain h));
  }

  pub Safe-dereference : (there : Bool) → there ≡ true → Safe (Sound early P) (dereference there)
  unfolding dereference
  Safe-dereference true h = record { defined = λ b h. tt; at = λ b h. h }
  Safe-dereference false h = record { defined = λ b s. ground arith; at = λ b s. s }

pub ruleset board_rules =
    (safe_rules, Safe-ask, Safe-ask_for, Safe-led_on, Safe-led_off, Moves-on_modem, Safe-on_gauge)
