-- ===== src/Cellular/PowerOff.antt =====
-- deinit of UbloxCellularBase.cpp goes through whatever the modem does.
use Prim.Native.String.{String}
use example_ublox_mbed_clien.Prelude.{◌≡◌, refl, true, false, List, pos, arith}
use example_ublox_mbed_clien.Act.{Act, Outcome, done, failed, fault, ◌>>=◌, modify, attempt, expect}
use example_ublox_mbed_clien.Act.Safe.{Safe, Moves-modify, safe_rules}
use example_ublox_mbed_clien.Act.Runs.{
  Runs, Finishes, Runs-attempt, Runs-Runs, Runs-if, Runs-pure, Runs-gets,
}
use example_ublox_mbed_clien.Cellular.{Event, Arg, Urc, Modem, log, lock, unlock}
use example_ublox_mbed_clien.Cellular.Callbacks.{
  handle_urcs, set_nwk_reg_status_csd, set_nwk_reg_status_psd, set_nwk_reg_status_eps,
  is_registered, is_registered_csd, is_registered_psd, is_registered_eps,
}
use example_ublox_mbed_clien.Cellular.Unasked.{KeptByCallbacks, KeptByCallbacks-Safe}
use example_ublox_mbed_clien.Cellular.Parser
use example_ublox_mbed_clien.Cellular.Parser.{emit, assert_at, with_lock, command}
use example_ublox_mbed_clien.Cellular.Power.{power_down, clear_registration}
use example_ublox_mbed_clien.Cellular.Setup.{deinit}

pub record HasParser (m : Modem) : Type 0 where
  pub parser : m.at ≡ true

-- Nothing is left of a registration.
pub record IsCleared (m : Modem) : Type 0 where
  pub csd : m.reg_status_csd ≡ pos 0
  pub psd : m.reg_status_psd ≡ pos 0
  pub eps : m.reg_status_eps ≡ pos 0

pub record IsOff (m : Modem) : Type 0 where
  cleared : IsCleared m
  stopped : m.modem_initialised ≡ false

HasParser-KeptByCallbacks : KeptByCallbacks HasParser
unfolding set_nwk_reg_status_csd set_nwk_reg_status_psd set_nwk_reg_status_eps
HasParser-KeptByCallbacks = record {
  said = λ u m h. ground arith;
  aborted = λ m h. ground arith;
  spoilt = λ m h. ground arith;
  csd = λ s m h. ground arith;
  psd = λ s m h. ground arith;
  eps = λ s m h. ground arith;
  sockets = record {
    counted = λ i n m h. ground arith;
    cleared = λ i m h. ground arith;
    called = λ f a m h. ground arith;
    lost = λ m h. ground arith;
  };
}

Safe-callbacks : (us : List Urc) → Safe HasParser (modify (handle_urcs us))
Safe-callbacks us = KeptByCallbacks-Safe HasParser-KeptByCallbacks us

Safe-emit : (e : Event) → Safe HasParser (emit e)
unfolding emit
Safe-emit e = Moves-modify _ (λ m h. ground arith)

ruleset parser_rules = (safe_rules, Safe-callbacks, Safe-emit)

Safe-command : (f : String) (a : List Arg) → Safe HasParser (command f a)
unfolding Parser.send Parser.recv
Safe-command f a = search parser_rules depth 24

Runs-assert_at : Runs HasParser HasParser assert_at
unfolding assert_at
Runs-assert_at = record { finishes = λ m h. ground arith; at = λ m h. ground arith }

Runs-emit : (e : Event) → Runs HasParser HasParser (emit e)
unfolding emit
Runs-emit e = record { finishes = λ m h. tt; at = λ m h. ground arith }

Runs-clear : Runs HasParser IsCleared (modify clear_registration)
Runs-clear = record {
  finishes = λ m h. tt;
  at = λ m h. record { csd = refl; psd = refl; eps = refl };
}

Runs-unlock : Runs IsCleared IsCleared (emit unlock)
unfolding emit
Runs-unlock = record {
  finishes = λ m h. tt;
  at = λ m h. record { csd = h.csd; psd = h.psd; eps = h.eps };
}

-- A body that succeeds hands its success through the unlock.
with_lock-Runs :
    {A : Type 0} {P Q : Modem → Type 0} (body : Act Modem A)
    → Runs P P (emit lock)
    → Runs Q Q (emit unlock)
    → Runs P Q body
    → Runs P Q (with_lock body)
unfolding with_lock ◌>>=◌ attempt emit
with_lock-Runs {A} {P} {Q} body l u b = record {
  finishes =
      λ m h. let m' = log lock m in handed (body m').0 (body m').1 (b.finishes m' (l.at m h));
  at = λ m h.
      let m' = log lock m in
      ended (body m').0 (body m').1 (b.finishes m' (l.at m h)) (b.at m' (l.at m h));
}
  where
    handed :
        (r : Outcome A) (s : Modem)
        → Finishes r
        → Finishes ((attempt (λ _. (r, s)) >>= λ o. emit unlock >>= λ _. expect o) s).0
    handed (done a) s d = tt
    handed failed s d = absurd d
    handed fault s d = absurd d

    ended :
        (r : Outcome A) (s : Modem)
        → Finishes r
        → Q s
        → Q ((attempt (λ _. (r, s)) >>= λ o. emit unlock >>= λ _. expect o) s).1
    ended (done a) s d q = u.at s q
    ended failed s d q = absurd d
    ended fault s d q = absurd d

Runs-power_down : Runs HasParser IsCleared power_down
unfolding power_down
Runs-power_down = with_lock-Runs _ (Runs-emit _) Runs-unlock (
    Runs-Runs _ _ Runs-assert_at (λ _. Runs-Runs _ _ (Runs-gets _) (λ running.
      Runs-Runs _ _
        (Runs-if running _ _ (Runs-Runs _ _ (Runs-attempt _ (Safe-command _ _)) (λ _. Runs-pure tt))
          (Runs-pure tt))
        (λ _. Runs-Runs _ _ (Runs-emit _) (λ _. Runs-Runs _ _ (Runs-emit _) (λ _. Runs-clear))))))

Runs-stop : Runs IsCleared IsOff (modify (λ m. record m { modem_initialised = false }))
Runs-stop = record {
  finishes = λ m h. tt;
  at = λ m h. record { cleared = record { csd = h.csd; psd = h.psd; eps = h.eps }; stopped = refl };
}

Runs-deinit : Runs HasParser IsOff deinit
unfolding deinit
Runs-deinit = Runs-Runs _ _ Runs-power_down (λ _. Runs-stop)

not_registered : (m : Modem) → IsCleared m → is_registered m ≡ false
unfolding is_registered_psd is_registered_csd is_registered_eps
not_registered m h = simp (h.csd, h.psd, h.eps)

-- With a parser, deinit always finishes, also when the modem refuses or reports a registration
-- meanwhile, and then the modem counts neither as initialised nor as registered.
pub deinit-IsOff :
    (m : Modem)
    → m.at ≡ true
    → Finishes (deinit m).0
      × (((deinit m).1.modem_initialised ≡ false) × (is_registered (deinit m).1 ≡ false))
deinit-IsOff m h =
    let p : HasParser m = record { parser = h } in
    let off = Runs-deinit.at m p in
    (Runs-deinit.finishes m p, (off.stopped, not_registered (deinit m).1 off.cleared))
