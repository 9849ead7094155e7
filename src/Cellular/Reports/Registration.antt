-- ===== src/Cellular/Reports/Registration.antt =====
-- nwk_registration of UbloxCellularBase.cpp finds a network only if the modem reported one.
use Prim.Native.String.{String}
use mathlib.Core.Path.{subst}
use example_ublox_mbed_clien.Prelude.{
  ℕ, zero, suc, ◌≡◌, refl, Bool, true, false, Bool-cases, inl, inr, if◌then◌else◌, some, none,
  Option, List, ℤ, arith,
}
use example_ublox_mbed_clien.Act.{Act, ◌>>=◌, modify, done, expect, pure}
use example_ublox_mbed_clien.Act.Safe.{
  Safe, Safe-if, Safe-pure, Safe-gets, Moves-modify, Moves-attempt, safe_rules,
}
use example_ublox_mbed_clien.Act.Gives.{
  Gives, Gives-bind, Gives-pure, Gives-gets, Gives-attempt, Gives-Moves, IfSomeAt,
}
use example_ublox_mbed_clien.Act.Ends.{Post}
use example_ublox_mbed_clien.Cellular.{Event, Arg, Urc, Modem, lock, unlock}
use example_ublox_mbed_clien.Cellular.Callbacks.{
  handle_urcs, urc_status, urc_status_n2xx, scan_status, is_registered, is_registered_csd,
  is_registered_psd, is_registered_eps,
}
use example_ublox_mbed_clien.Cellular.Parser
use example_ublox_mbed_clien.Cellular.Parser.{
  emit, assert_at, recv_number, with_lock, at_set_timeout,
}
use example_ublox_mbed_clien.Cellular.Network.{
  nwk_registration, start_search, leave_manual, registration_loop, ask_rat, search_network, set_rat,
}
use example_ublox_mbed_clien.Cellular.Unasked.{Reader, reader_of}
use example_ublox_mbed_clien.Cellular.Reports.{Honest, reported, log-Honest, handle_urcs-Honest}

module _ {read : Reader} {b : Bool} where
  Safe-callbacks : (us : List Urc) → Safe (Honest read b) (modify (handle_urcs us))
  Safe-callbacks us = Moves-modify _ (handle_urcs-Honest us)

  Safe-emit : (e : Event) → Safe (Honest read b) (emit e)
  unfolding emit
  Safe-emit e = Moves-modify _ (log-Honest e)

  Safe-assert_at : Safe (Honest read b) assert_at
  unfolding assert_at
  Safe-assert_at = record { defined = λ m h. simp (h.parser) tt; at = λ m h. simp (h.parser) h }

  Safe-set_rat : (r : ℤ) → Safe (Honest read b) (modify (set_rat r))
  unfolding set_rat urc_status urc_status_n2xx scan_status is_registered_csd is_registered_psd
      is_registered_eps
  Safe-set_rat r = Moves-modify _ (λ m h. record {
    parser = h.parser;
    reads = h.reads;
    reads_n2xx = h.reads_n2xx;
    csd = h.csd;
    psd = h.psd;
    eps = h.eps;
    told = h.told;
  })

  Safe-note_timeout : (k : ℕ) → Safe (Honest read b) (modify (λ m. record m { at_timeout = k }))
  unfolding urc_status urc_status_n2xx scan_status is_registered_csd is_registered_psd
      is_registered_eps
  Safe-note_timeout k = Moves-modify _ (λ m h. record {
    parser = h.parser;
    reads = h.reads;
    reads_n2xx = h.reads_n2xx;
    csd = h.csd;
    psd = h.psd;
    eps = h.eps;
    told = h.told;
  })

ruleset report_rules =
    (safe_rules, Safe-callbacks, Safe-emit, Safe-assert_at, Safe-set_rat, Safe-note_timeout)

module _ {read : Reader} {b : Bool} where
  Safe-send : (f : String) (a : List Arg) → Safe (Honest read b) (Parser.send f a)
  unfolding Parser.send
  Safe-send f a = search report_rules depth 9

  Safe-recv : (f : String) → Safe (Honest read b) (Parser.recv f)
  unfolding Parser.recv
  Safe-recv f = search report_rules depth 9

  Safe-recv_number : (f : String) → Safe (Honest read b) (recv_number f)
  unfolding recv_number
  Safe-recv_number f = search report_rules depth 12

  Safe-at_set_timeout : (k : ℕ) → Safe (Honest read b) (at_set_timeout k)
  unfolding at_set_timeout
  Safe-at_set_timeout k = search report_rules depth 9

ruleset search_rules = (report_rules, Safe-send, Safe-recv, Safe-recv_number, Safe-at_set_timeout)

module _ {read : Reader} {b : Bool} where
  Safe-leave_manual : (o : Option ℤ) → Safe (Honest read b) (leave_manual o)
  Safe-leave_manual none = Safe-pure tt
  Safe-leave_manual (some s) = search search_rules depth 9

  Safe-start_search : Safe (Honest read b) start_search
  unfolding start_search
  Safe-start_search = search (search_rules, Safe-leave_manual) depth 30

  Safe-ask_rat : (k : ℕ) → Safe (Honest read b) (ask_rat k)
  unfolding ask_rat
  Safe-ask_rat k = search search_rules depth 24

  keeps :
      {A : Type 0} (m : Act Modem A)
      → Safe (Honest read b) m
      → Gives (Honest read b) (λ _. Honest read b) m
  keeps m km = Gives-Moves m km.at

module _ {read : Reader} where
  shown : (m : Modem) → Honest read false m → is_registered m ≡ true → reported read m.trace ≡ true
  shown m h p = elim (Bool-cases (is_registered_psd m)) [
    | inl e ↦ h.psd e
    | inr e ↦ elim (Bool-cases (is_registered_csd m)) [
      | inl e' ↦ h.csd e'
      | inr e' ↦ h.eps (ground arith)
    ]
  ]

  seen : (m : Modem) → Honest read false m → Honest read (is_registered m) m
  seen m h = record {
    parser = h.parser;
    reads = h.reads;
    reads_n2xx = h.reads_n2xx;
    csd = h.csd;
    psd = h.psd;
    eps = h.eps;
    told = shown m h;
  }

  -- a loop that stops at the first registration
  Gives-stop :
      (b : Bool) (more : Act Modem Bool)
      → Gives (Honest read false) (Honest read) more
      → Gives (Honest read b) (Honest read) (if b then pure true else more)
  Gives-stop true more k = Gives-pure true (λ m h. h)
  Gives-stop false more k = k

  Gives-registration_loop :
      (rounds : ℕ) → Gives (Honest read false) (Honest read) (registration_loop rounds)
  unfolding registration_loop
  Gives-registration_loop zero = Gives-pure false (λ m h. h)
  Gives-registration_loop (suc rounds) = Gives-bind _ _ (Gives-gets is_registered seen) (λ b.
      Gives-bind _ _ (keeps _ (Moves-attempt _ (Safe-recv _)))
        (λ _. Gives-stop b _ (Gives-registration_loop rounds)))

  Gives-search_network : (k : ℕ) → Gives (Honest read false) (Honest read) (search_network k)
  Gives-search_network k = Gives-bind _ _ (keeps _ (Moves-attempt _ Safe-start_search)) (λ _.
      Gives-bind _ _ (keeps _ (Safe-at_set_timeout 1000)) (λ _.
        Gives-bind _ _ (Gives-registration_loop 180) (λ b.
          Gives-bind _ _ (keeps _ (Safe-at_set_timeout k)) (λ _.
            Gives-bind _ _ (keeps _ (Safe-if b _ _ (Safe-ask_rat k) (Safe-pure tt)))
              (λ _. Gives-pure b (λ m h. h))))))

  Gives-unlock :
      (o : Option Bool)
      → Gives (IfSomeAt (Honest read) o) (Honest read) (emit unlock >>= λ _. expect o)
  unfolding emit ◌>>=◌
  Gives-unlock none = record { post = λ m h. tt }
  Gives-unlock (some b) = record { post = λ m h. log-Honest unlock m h }

  Gives-nwk_registration : Gives (Honest read false) (Honest read) nwk_registration
  unfolding nwk_registration with_lock
  Gives-nwk_registration = Gives-bind _ _ (keeps _ (Safe-emit lock)) (λ _.
      Gives-bind _ _
        (Gives-attempt _ (
          Gives-bind _ _ (keeps _ (Safe-gets _)) (λ k. Gives-bind _ _ (keeps _ Safe-assert_at) (λ _.
            Gives-bind _ _ (Gives-gets is_registered seen)
              (λ b. Gives-stop b _ (Gives-search_network k))))))
        Gives-unlock)

-- From a state that shows no registration, nwk_registration returns true only if the modem has by
-- then reported a registered status in an unsolicited message, which the object could read.
pub nwk_registration-reported :
    (m : Modem)
    → m.at ≡ true
    → is_registered m ≡ false
    → (nwk_registration m).0 ≡ done true
    → reported (reader_of m) (nwk_registration m).1.trace ≡ true
nwk_registration-reported m h q e =
    let start : Honest (reader_of m) false m = record {
      parser = h;
      reads = λ input. refl;
      reads_n2xx = λ input. refl;
      csd = λ p. ground arith;
      psd = λ p. ground arith;
      eps = λ p. ground arith;
      told = λ p. ground arith;
    } in
    let found : Honest (reader_of m) true (nwk_registration m).1 =
      subst (λ r. Post (Honest (reader_of m)) r (nwk_registration m).1) e
        (Gives-nwk_registration.post m start) in
    found.told refl
