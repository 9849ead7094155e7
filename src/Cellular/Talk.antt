-- ===== src/Cellular/Talk.antt =====
-- What the calls of the AT parser keep: any property that its callbacks and its events keep, writes
-- of data left aside.
use Prim.Native.String.{String}
use example_ublox_mbed_clien.Prelude.{ℕ, List}
use example_ublox_mbed_clien.Act.{Act, modify}
use example_ublox_mbed_clien.Act.Safe.{Safe, safe_rules, Moves-modify}
use example_ublox_mbed_clien.Act.Splits.{
  Splits, Splits-bind, Splits-modify, Splits-attempt, Splits-expect, ByResult, ByResult-kept,
}
use example_ublox_mbed_clien.Cellular.{Event, Arg, Modem, Urc, log, write, lock, unlock}
use example_ublox_mbed_clien.Cellular.Callbacks.{handle_urcs}
use example_ublox_mbed_clien.Cellular.Parser
use example_ublox_mbed_clien.Cellular.Parser.{
  emit, recv_text, recv_number, recv_second, recv_address, read_bytes, with_lock,
}
use example_ublox_mbed_clien.Cellular.Unasked.{KeptByCallbacks, KeptByCallbacks-Safe}

abbrev pub IsTalk : Event → Type 0
IsTalk (write b) = ⊥
IsTalk e = Unit

pub record KeptByTalk (P : Modem → Type 0) : Type 0 where
  pub events : (e : Event) (m : Modem) → IsTalk e → P m → P (log e m)
  pub callbacks : KeptByCallbacks P

module _ {P : Modem → Type 0} (k : KeptByTalk P) where
  pub talk-emit : (e : Event) → IsTalk e → Safe P (emit e)
  unfolding emit
  talk-emit e talk = Moves-modify _ (λ m h. k.events e m talk h)

  pub talk-handle_urcs : (us : List Urc) → Safe P (modify (handle_urcs us))
  talk-handle_urcs us = KeptByCallbacks-Safe (k.callbacks) us

ruleset event_rules = (safe_rules, talk-emit, talk-handle_urcs)

module _ {P : Modem → Type 0} (k : KeptByTalk P) where
  pub talk-send : (f : String) (a : List Arg) → Safe P (Parser.send f a)
  unfolding Parser.send
  talk-send f a = search event_rules depth 9

  pub talk-recv : (f : String) → Safe P (Parser.recv f)
  unfolding Parser.recv
  talk-recv f = search event_rules depth 9

  pub talk-recv_text : (w : ℕ) (f : String) → Safe P (recv_text w f)
  unfolding recv_text
  talk-recv_text w f = search event_rules depth 12

  pub talk-recv_number : (f : String) → Safe P (recv_number f)
  unfolding recv_number
  talk-recv_number f = search event_rules depth 12

  pub talk-recv_second : (f : String) → Safe P (recv_second f)
  unfolding recv_second
  talk-recv_second f = search event_rules depth 12

  pub talk-recv_address : (w : ℕ) (f : String) → Safe P (recv_address w f)
  unfolding recv_address
  talk-recv_address w f = search event_rules depth 12

  pub talk-read_bytes : (n : ℕ) → Safe P (read_bytes n)
  unfolding read_bytes
  talk-read_bytes n = search event_rules depth 9

  pub talk-with_lock : {A : Type 0} (m : Act Modem A) → Safe P m → Safe P (with_lock m)
  unfolding with_lock
  talk-with_lock m km = search event_rules depth 12

pub ruleset talk_rules = (
  safe_rules, talk-emit, talk-send, talk-recv, talk-recv_text, talk-recv_number, talk-recv_second,
  talk-recv_address, talk-read_bytes, talk-with_lock,
)

-- A body under the mutex, with what holds after its success and after its failure.
pub with_lock-Splits :
    {A : Type 0} {P Q R : Modem → Type 0} {W : A → Modem → Type 0} (m : Act Modem A)
    → ((s : Modem) → P s → Q (log lock s))
    → ((a : A) (s : Modem) → W a s → W a (log unlock s))
    → ((s : Modem) → R s → R (log unlock s))
    → Splits Q W R m
    → Splits P W R (with_lock m)
unfolding with_lock emit
with_lock-Splits {Q} {R} {W} m kp kw kr k = Splits-bind {V = λ _. Q} _ _ (Splits-modify _ kp) (λ _.
    Splits-bind _ _ (Splits-attempt m k) (λ o.
      Splits-bind {V = λ _. ByResult W R o} _ _
        (Splits-modify _ (λ s h. ByResult-kept o (log unlock) s kw kr h)) (λ _. Splits-expect o)))
