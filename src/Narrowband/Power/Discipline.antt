-- ===== src/Narrowband/Power/Discipline.antt =====
-- The rules for the AT parser in the power, set-up and registration methods of
-- UbloxCellularBaseN2xx.cpp, and in any sequence of them.
use example_ublox_mbed_clien.Prelude.{
  ℕ, zero, suc, Bool, true, false, some, none, Option, List, [], ◌∷◌, arith, ℤ, codes, contains,
  if◌then◌else◌,
}
use example_ublox_mbed_clien.Act.{Act, modify, pure, attempt, ◌>>◌}
use example_ublox_mbed_clien.Act.Safe.{
  Safe, Safe-bind, Safe-pure, Safe-if, Safe-gets, Safe-guard, Moves-modify, Moves-attempt,
  Moves-gets,
}
use example_ublox_mbed_clien.Act.Runs.{
  Runs, Runs-pure, Runs-gets, Runs-Runs, Runs-bind, Runs-attempt, Runs-if,
}
use example_ublox_mbed_clien.Cellular.{Modem, sara_n2, flush}
use example_ublox_mbed_clien.Cellular.Parser.{emit}
use example_ublox_mbed_clien.Cellular.Discipline.{
  Steady, at_rules, at_set_timeout-Runs, Safe-with_lock, Safe-assert_at, Safe-emit, Safe-emit_flush,
  Safe-recv,
}
use example_ublox_mbed_clien.Cellular.Discipline.Methods.{Safe-clear_registration}
use example_ublox_mbed_clien.Cellular.Discipline.Procedures.{Safe-keep_pin}
use example_ublox_mbed_clien.Narrowband
use example_ublox_mbed_clien.Narrowband.Discipline.{
  Safe-at_send, Safe-at_req_text, Safe-get_sara_n2xx_info, Safe-cereg, Safe-cops, Safe-get_cops,
  Safe-get_cereg,
}
use example_ublox_mbed_clien.Narrowband.Power
use example_ublox_mbed_clien.Narrowband.Power.{
  power_up_loop, power_up, identify, set_device_identity, bring_up, registration_loop, leave_manual,
  search_network,
}

module _ {t n : ℕ} where
  Runs-emit_flush : Runs (Steady t (suc n)) (Steady t (suc n)) (emit flush)
  unfolding emit
  Runs-emit_flush = record { finishes = λ m h. tt; at = (Safe-emit_flush {t = t} {n = n}).at }

  Runs-power_up_loop :
      (rounds : ℕ) → Runs (Steady t (suc n)) (Steady t (suc n)) (power_up_loop rounds)
  unfolding power_up_loop
  Runs-power_up_loop zero = Runs-pure false
  Runs-power_up_loop (suc rounds) = Runs-Runs _ _ Runs-emit_flush (λ _.
      Runs-Runs _ _ (Runs-attempt _ (Safe-at_send "AT" []))
        (λ _. Runs-if _ _ _ (Runs-pure true) (Runs-power_up_loop rounds)))

  Safe-identify : (buf : List ℕ) → Safe (Steady t n) (modify (identify buf))
  Safe-identify buf = Moves-modify _ (λ m h. identified m h (contains (codes "Neul Hi2110") buf))
    where
      identified :
          (m : Modem)
          → Steady t n m
          → (b : Bool) → Steady t n (if b then record m { dev = sara_n2 } else m)
      identified m h true = ground (arith, h)
      identified m h false = h

  Safe-set_initialised :
      (b : Bool) → Safe (Steady t n) (modify (λ m. record m { modem_initialised = b }))
  Safe-set_initialised b = Moves-modify _ (λ m h. ground arith)

module _ {t n : ℕ} where
  Safe-power_up : Safe (Steady t n) power_up
  unfolding power_up
  Safe-power_up = Safe-with_lock _ (
      Moves-gets _ t _ (λ m h. h.timeout)
        (Safe-bind _ _ Safe-assert_at (λ _. Safe-bind _ _ (Safe-emit _ tt) (λ _.
          Safe-bind _ _ (Safe-emit _ tt) (λ _. Runs-bind _ _ (at_set_timeout-Runs 1000) (λ _.
            Runs-bind _ _ (Runs-power_up_loop 20) (λ answered.
              Runs-bind _ _ (at_set_timeout-Runs t)
                (λ _. Safe-bind _ _ (Safe-guard _) (λ _. Safe-at_send _ _)))))))))

  Safe-set_device_identity : Safe (Steady t n) set_device_identity
  unfolding set_device_identity
  Safe-set_device_identity = Safe-with_lock _ (
      Safe-bind _ _ Safe-assert_at (λ _.
        Safe-bind _ _ (Safe-at_req_text _ _ 19 _ 20 (omega arith)) (λ buf. Safe-identify buf)))

module _ {t n : ℕ} where
  Safe-bring_up : (o : Option (List ℕ)) → Safe (Steady t n) (bring_up o)
  unfolding bring_up
  Safe-bring_up o =
      search
        (
          at_rules, Safe-power_up, Safe-keep_pin, Safe-set_device_identity, Safe-get_sara_n2xx_info,
          Safe-set_initialised,
        )
        depth 16

  pub Safe-init : (o : Option (List ℕ)) → Safe (Steady t n) (Power.init o)
  unfolding Power.init
  Safe-init o = search (at_rules, Safe-bring_up) depth 14

  Runs-registration_loop :
      (rounds : ℕ) (registered : Bool)
      → Runs (Steady t (suc n)) (Steady t (suc n)) (registration_loop rounds registered)
  unfolding registration_loop
  Runs-registration_loop zero registered = Runs-pure registered
  Runs-registration_loop (suc rounds) true = Runs-pure true
  Runs-registration_loop (suc rounds) false =
      Runs-Runs _ _ (Runs-attempt _ (Safe-recv _))
        (λ _. Runs-Runs _ _ (Runs-gets _) (λ registered. Runs-registration_loop rounds registered))

  Safe-leave_manual : (o : Option ℤ) → Safe (Steady t n) (leave_manual o)
  Safe-leave_manual none = Safe-pure tt
  Safe-leave_manual (some s) = Safe-if _ _ _ (Safe-pure tt) (Safe-cops 0)

module _ {t n : ℕ} where
  Safe-search_network : Safe (Steady t (suc n)) (search_network t)
  Safe-search_network = Safe-bind _ _ (Moves-attempt _ Safe-get_cops) (λ status.
      Safe-bind _ _ (Moves-attempt _ (Safe-leave_manual status)) (λ _.
        Safe-bind _ _ (Moves-attempt _ Safe-get_cereg) (λ _.
          Safe-bind _ _ (Safe-gets _) (λ registered. Runs-bind _ _ (at_set_timeout-Runs 1000) (λ _.
            Runs-bind _ _ (Runs-registration_loop 180 registered) (λ registered'.
              Runs-bind _ _ (at_set_timeout-Runs t) (λ _. Safe-pure registered')))))))

  pub Safe-nwk_registration : Safe (Steady t n) Power.nwk_registration
  unfolding Power.nwk_registration
  Safe-nwk_registration = Safe-with_lock _ (
      Moves-gets _ t _ (λ m h. h.timeout)
        (search (at_rules, Safe-cereg, Safe-search_network) depth 14))

  pub Safe-nwk_deregistration : Safe (Steady t n) Power.nwk_deregistration
  unfolding Power.nwk_deregistration
  Safe-nwk_deregistration = search (at_rules, Safe-cops, Safe-clear_registration) depth 14

-- The public methods that ask something of the modem and whose texts fit their arrays.
pub data Request : Type 0 where
  init : Option (List ℕ) → Request
  deinit nwk_registration nwk_deregistration reboot : Request
  cfun : ℕ → Request
  nconfig : List ℕ → Bool → Request

unfoldable pub run_request : Request → Act Modem Unit
run_request (init pin) = do Power.init pin; pure tt
run_request deinit = Power.deinit
run_request nwk_registration = do Power.nwk_registration; pure tt
run_request nwk_deregistration = Power.nwk_deregistration
run_request reboot = Narrowband.reboot
run_request (cfun mode) = Narrowband.cfun mode
run_request (nconfig name state) = Narrowband.nconfig name state

unfoldable pub run_n2xx_requests : List Request → Act Modem Unit
unfolding run_request
run_n2xx_requests [] = pure tt
run_n2xx_requests (r ∷ rs) = do attempt (run_request r); run_n2xx_requests rs
