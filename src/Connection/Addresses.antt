-- ===== src/Connection/Addresses.antt =====
-- gethostbyname and get_ip_address of UbloxATCellularInterface.cpp: the texts that they hand out.
use example_ublox_mbed_clien.Prelude.{
  ◌≡◌, refl, Bool, true, false, not, Option, some, none, List, ℕ, arith,
}
use mathlib.Core.Path.{subst}
use example_ublox_mbed_clien.Act.{Outcome, done, failed, fault, ◌>>=◌}
use example_ublox_mbed_clien.Act.Safe.{Safe}
use example_ublox_mbed_clien.Act.Splits.{
  Splits, Either, Splits-bind, Splits-then, Splits-gets, Splits-pure, Splits-modify, Splits-attempt,
  Splits-value, Splits-if, Splits-guard, Splits-with, ByResult, Never,
}
use example_ublox_mbed_clien.Cellular.{Mbed, Modem}
use example_ublox_mbed_clien.Cellular.Parser.{at_set_timeout, assert_at, emit}
use example_ublox_mbed_clien.Cellular.Callbacks.{
  set_nwk_reg_status_csd, set_nwk_reg_status_psd, set_nwk_reg_status_eps,
}
use example_ublox_mbed_clien.Cellular.Talk.{
  KeptByTalk, talk_rules, talk-send, talk-recv, talk-recv_text, with_lock-Splits,
}
use example_ublox_mbed_clien.Connection.{
  allocate_ip, ask_ip, get_ip_address, resolve, resolve_remotely, gethostbyname,
}

-- What a caller gets: nothing, or a text that is an address.
abbrev pub IsAddress : Mbed → Option (List ℕ) → Type 0
IsAddress b none = Unit
IsAddress b (some ip) = b.is_address ip ≡ true

-- The address of the modem: also another one than that of all zeros.
abbrev pub IsOwn : Mbed → Option (List ℕ) → Type 0
IsOwn b none = Unit
IsOwn b (some ip) = (b.is_address ip ≡ true) × (b.is_zero_address ip ≡ false)

not_zero : (z : Bool) → not z ≡ true → z ≡ false
not_zero z h = ground arith

-- The parser exists, and mbed OS has these services.
abbrev Ready : Mbed → Modem → Type 0
Ready b m = (m.mbed ≡ b) × (m.at ≡ true)

owned :
    (b : Mbed) (o : Option (List ℕ)) (m : Modem)
    → ByResult (λ ip m. IsOwn b (some ip) × Ready b m) (Ready b) o m
    → IsOwn b o
owned b none m e = tt
owned b (some ip) m h = h.0

module _ {b : Mbed} where
  Ready-KeptByTalk : KeptByTalk (Ready b)
  unfolding set_nwk_reg_status_csd set_nwk_reg_status_psd set_nwk_reg_status_eps
  Ready-KeptByTalk = record {
    events = λ e m t h. h;
    callbacks = record {
      said = λ u m h. h;
      aborted = λ m h. h;
      spoilt = λ m h. h;
      csd = λ s m h. h;
      psd = λ s m h. h;
      eps = λ s m h. h;
      sockets = record {
        counted = λ i k m h. h;
        cleared = λ i m h. h;
        called = λ f a m h. h;
        lost = λ m h. h;
      };
    };
  }

  Splits-timeout :
      {R : Modem → Type 0} (t : ℕ) → Splits (Ready b) (λ _. Ready b) R (at_set_timeout t)
  unfolding at_set_timeout assert_at ◌>>=◌ emit
  Splits-timeout t = record { out = λ m h. rw h.1 (h.0, refl) }

  Safe-allocate_ip : (o : Option (List ℕ)) → Safe (Ready b) (allocate_ip o)
  Safe-allocate_ip (some ip) = search talk_rules depth 9
  Safe-allocate_ip none = search (talk_rules, Ready-KeptByTalk) depth 9

  Splits-ask_ip : Splits (Ready b) (λ ip m. IsOwn b (some ip) × Ready b m) (Ready b) ask_ip
  Splits-ask_ip =
      Splits-then _ _ (λ m e. e) (talk-send Ready-KeptByTalk _ _)
        (λ _. Splits-bind {V = λ _. Ready b} _ _ (Splits-gets _ (λ m e. e)) (λ w.
          Splits-then _ _ (λ m e. e) (talk-recv_text Ready-KeptByTalk w _)
            (λ ip.
              Splits-then _ _ (λ m e. e) (talk-recv Ready-KeptByTalk _)
                (λ _.
                  Splits-bind {V = λ m s. (m.mbed ≡ b) × Ready b s} _ _
                    (Splits-gets _ (λ m e. (e.0, e)))
                    (λ m. Splits-with _ (λ same.
                      Splits-guard _ _ (λ s e. e)
                        (λ valid.
                          Splits-guard _ _ (λ s e. e)
                            (λ used. Splits-pure _ (λ s e. (
                              (
                                subst (λ c. Mbed.is_address c ip ≡ true) same valid,
                                subst (λ c. Mbed.is_zero_address c ip ≡ false) same
                                    (not_zero _ used),
                              ),
                              e,
                            ))))))))))

  Splits-resolve :
      (host : List ℕ)
      → Splits (Ready b) (λ ip m. IsAddress b (some ip) × Ready b m) (Ready b) (resolve host)
  unfolding resolve
  Splits-resolve host =
      Splits-then _ _ (λ m e. e) (talk-send Ready-KeptByTalk _ _)
        (λ _. Splits-bind {V = λ _. Ready b} _ _ (Splits-gets _ (λ m e. e)) (λ w.
          Splits-then _ _ (λ m e. e) (talk-recv_text Ready-KeptByTalk w _)
            (λ ip.
              Splits-then _ _ (λ m e. e) (talk-recv Ready-KeptByTalk _)
                (λ _.
                  Splits-bind {V = λ m s. (m.mbed ≡ b) × Ready b s} _ _
                    (Splits-gets _ (λ m e. (e.0, e)))
                    (λ m. Splits-with _ (λ same.
                      Splits-guard _ _ (λ s e. e)
                        (λ valid.
                          Splits-pure _
                            (λ s e. (subst (λ c. Mbed.is_address c ip ≡ true) same valid, e)))))))))

  given :
      (o : Option (List ℕ)) (m : Modem)
      → ByResult (λ ip m. IsAddress b (some ip) × Ready b m) (Ready b) o m
      → IsAddress b o × Ready b m
  given none m e = (tt, e)
  given (some ip) m h = h

  Splits-resolve_remotely :
      (host : List ℕ) → Splits (Ready b) (λ o _. IsAddress b o) Never (resolve_remotely host)
  Splits-resolve_remotely host =
      with_lock-Splits {P = Ready b} {Q = Ready b} _ (λ m e. e) (λ o m h. h) (λ m h. h)
        (Splits-bind {V = λ _. Ready b} _ _ (Splits-gets _ (λ m e. e)) (λ t.
          Splits-bind _ _ (Splits-timeout _) (λ _.
            Splits-bind {V = λ o m. IsAddress b o × Ready b m} _ _
              (Splits-value _ given (Splits-attempt _ (Splits-resolve host)))
              (λ o. Splits-with _ (λ valid.
                Splits-bind _ _ (Splits-timeout t) (λ _. Splits-pure _ (λ m e. valid)))))))

  Splits-gethostbyname :
      (host : List ℕ) → Splits (Ready b) (λ o _. IsAddress b o) Never (gethostbyname host)
  unfolding gethostbyname
  Splits-gethostbyname host =
      Splits-bind {V = λ m s. (m.mbed ≡ b) × Ready b s} _ _ (Splits-gets _ (λ m e. (e.0, e))) (λ m.
        Splits-with _ (λ same.
          Splits-if _ _ _
            (λ valid. Splits-pure _ (λ s e. subst (λ c. Mbed.is_address c host ≡ true) same valid))
            (λ _. Splits-resolve_remotely host)))

  Splits-get_ip_address :
      Splits (Ready b) (λ o m. IsOwn b o × (m.iface.ip ≡ o)) Never get_ip_address
  unfolding get_ip_address
  Splits-get_ip_address =
      with_lock-Splits {P = Ready b} {Q = Ready b} _ (λ m e. e) (λ o m h. h) (λ m h. h)
        (Splits-bind {V = λ _. Ready b} _ _ (Splits-gets _ (λ m e. e)) (λ before.
          Splits-bind {V = λ o _. IsOwn b o} _ _
            (Splits-value _ (owned b) (
              Splits-attempt _
                (Splits-then _ _ (λ m e. e) (Safe-allocate_ip before) (λ _. Splits-ask_ip))))
            (λ o.
              Splits-bind {V = λ _ m. IsOwn b o × (m.iface.ip ≡ o)} _ _
                (Splits-modify _ (λ m own. (own, refl))) (λ _. Splits-pure _ (λ m h. h)))))

-- A call that returns with such a value and in such a state.
abbrev pub Returns : (Option (List ℕ) → Modem → Type 0) → Outcome (Option (List ℕ)) × Modem → Type 0
Returns W (done o, m) = W o m
Returns W (failed, m) = ⊥
Returns W (fault, m) = ⊥

returned :
    (W : Option (List ℕ) → Modem → Type 0) (p : Outcome (Option (List ℕ)) × Modem)
    → Either W Never p.0 p.1
    → Returns W p
returned W (done o, m) h = h
returned W (failed, m) h = h
returned W (fault, m) h = h

-- For every modem with a parser, whatever it answers, and every host: gethostbyname returns, with an error or with
-- a text that is an IP address. get_ip_address returns, with none or with an address other than that
-- of all zeros, and the object holds just what it has returned.
pub gethostbyname-Returns :
    (host : List ℕ) (m : Modem)
    → m.at ≡ true
    → Returns (λ o _. IsAddress m.mbed o) (gethostbyname host m)
      × Returns (λ o s. IsOwn m.mbed o × (s.iface.ip ≡ o)) (get_ip_address m)
gethostbyname-Returns host m parser = (
  returned _ (gethostbyname host m) ((Splits-gethostbyname host).out m (refl, parser)),
  returned _ (get_ip_address m) (Splits-get_ip_address.out m (refl, parser)),
)
