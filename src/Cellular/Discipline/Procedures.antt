-- ===== src/Cellular/Discipline/Procedures.antt =====
-- The rules for the AT parser in the SIM, registration and set-up methods of UbloxCellularBase.cpp.
use example_ublox_mbed_clien.Prelude.{
  ℕ, zero, suc, true, false, Bool, some, none, Option, List, arith, ℤ,
}
use example_ublox_mbed_clien.Act.{Act, modify}
use example_ublox_mbed_clien.Act.Safe.{
  Safe, Safe-bind, Moves-modify, Moves-attempt, Safe-pure, Safe-if, Safe-fail, Moves-gets,
}
use example_ublox_mbed_clien.Act.Runs.{
  Runs, Runs-pure, Runs-gets, Runs-if, Runs-Runs, Runs-Moves, Runs-bind, Runs-attempt,
}
use example_ublox_mbed_clien.Cellular.{Modem}
use example_ublox_mbed_clien.Cellular.Sim.{
  pin_argument, answer_sim, query_sim, after_query, sim_loop, initialise_sim_card, set_sms,
  change_check, change_pin,
}
use example_ublox_mbed_clien.Cellular.Sim
use example_ublox_mbed_clien.Cellular.Network.{
  leave_manual, start_search, registration_loop, ask_rat, search_network,
}
use example_ublox_mbed_clien.Cellular.Network
use example_ublox_mbed_clien.Cellular.Setup.{imsi_loop, keep_pin, bring_up}
use example_ublox_mbed_clien.Cellular.Setup
use example_ublox_mbed_clien.Cellular.WithPin.{pin_then-Moves}
use example_ublox_mbed_clien.Cellular.Discipline.{
  Steady, at_rules, at_set_timeout-Runs, Safe-emit, Safe-recv, Safe-with_lock,
}
use example_ublox_mbed_clien.Cellular.Discipline.Methods.{
  method_rules, Safe-set_check, Safe-power_up, Safe-power_down, Safe-set_device_identity,
  Safe-device_init, Safe-get_iccid, Safe-get_imsi, Safe-get_imei, Safe-get_meid,
}

module _ {t n : ℕ} where
  Safe-answer_sim : (p : List ℕ) → Safe (Steady t (suc n)) (answer_sim p)
  unfolding answer_sim
  Safe-answer_sim p =
      Safe-if _ _ _
        (Safe-bind _ _ (Safe-set_check true)
          (λ _. pin_then-Moves _ (λ a. search at_rules depth 9) (λ m h. h.pinned)))
        (Safe-if _ _ _ (Safe-set_check false) Safe-fail)

  Safe-query_sim : Safe (Steady t (suc n)) query_sim
  unfolding query_sim
  Safe-query_sim = search at_rules depth 12

  Safe-after_query :
      (answer : Option (List ℕ)) (more : Act Modem Unit)
      → Safe (Steady t (suc n)) more
      → Safe (Steady t (suc n)) (after_query answer more)
  Safe-after_query none more km = Safe-bind _ _ (Safe-emit _ tt) (λ _. km)
  Safe-after_query (some p) more km = search (at_rules, Safe-answer_sim) depth 12

  Safe-sim_loop : (rounds : ℕ) → Safe (Steady t (suc n)) (sim_loop rounds)
  unfolding sim_loop
  Safe-sim_loop zero = Safe-fail
  Safe-sim_loop (suc rounds) =
      Safe-bind _ _ (Moves-attempt _ Safe-query_sim)
        (λ answer. Safe-after_query answer _ (Safe-sim_loop rounds))

  pub Safe-initialise_sim_card : Safe (Steady t n) initialise_sim_card
  unfolding initialise_sim_card
  Safe-initialise_sim_card = search (at_rules, Safe-sim_loop) depth 12

  pub Safe-set_sms : Safe (Steady t n) set_sms
  unfolding set_sms
  Safe-set_sms = search at_rules depth 24

  Safe-change_check :
      (enabled enable : Bool) (p : Option (List ℕ))
      → Safe (Steady t (suc n)) (change_check enabled enable p)
  Safe-change_check enabled enable none = Safe-fail
  Safe-change_check enabled enable (some p) = search method_rules depth 14

  Safe-change_pin : (new old : Option (List ℕ)) → Safe (Steady t (suc n)) (change_pin new old)
  Safe-change_pin none old = Safe-fail
  Safe-change_pin (some new) none = Safe-fail
  Safe-change_pin (some new) (some old) = search method_rules depth 14

  pub Safe-sim_pin_check_enable : (b : Bool) → Safe (Steady t n) (Sim.sim_pin_check_enable b)
  unfolding Sim.sim_pin_check_enable
  Safe-sim_pin_check_enable b = search (at_rules, Safe-change_check) depth 14

  pub Safe-change_sim_pin : (p : Option (List ℕ)) → Safe (Steady t n) (Sim.change_sim_pin p)
  unfolding Sim.change_sim_pin
  Safe-change_sim_pin p = search (at_rules, Safe-change_pin) depth 14

  Safe-leave_manual : (o : Option ℤ) → Safe (Steady t (suc n)) (leave_manual o)
  Safe-leave_manual none = Safe-pure tt
  Safe-leave_manual (some s) = search at_rules depth 9

  Safe-start_search : Safe (Steady t (suc n)) start_search
  unfolding start_search
  Safe-start_search = search (at_rules, Safe-leave_manual) depth 30

  registration_loop-Runs :
      (rounds : ℕ) → Runs (Steady t (suc n)) (Steady t (suc n)) (registration_loop rounds)
  unfolding registration_loop
  registration_loop-Runs zero = Runs-pure false
  registration_loop-Runs (suc rounds) = Runs-Runs _ _ (Runs-gets _) (λ registered.
      Runs-Runs _ _ (Runs-attempt _ (Safe-recv _))
        (λ _. Runs-if registered _ _ (Runs-pure true) (registration_loop-Runs rounds)))

module _ {t n : ℕ} where
  Safe-ask_rat : Safe (Steady t (suc n)) (ask_rat t)
  unfolding ask_rat
  Safe-ask_rat = Runs-bind _ _ (at_set_timeout-Runs 1000) (λ _.
      Runs-bind {Q = Steady 1000 (suc n)} _ _ (Runs-attempt _ (search method_rules depth 14))
        (λ _. Runs-Moves _ (at_set_timeout-Runs t)))

  Safe-search_network : Safe (Steady t (suc n)) (search_network t)
  Safe-search_network = Safe-bind _ _ (Moves-attempt _ Safe-start_search) (λ _.
      Runs-bind _ _ (at_set_timeout-Runs 1000) (λ _.
        Runs-bind {Q = Steady 1000 (suc n)} _ _ (registration_loop-Runs 180) (λ registered.
          Runs-bind _ _ (at_set_timeout-Runs t) (λ _.
            Safe-bind _ _ (Safe-if registered _ _ Safe-ask_rat (Safe-pure tt))
              (λ _. Safe-pure registered)))))

  pub Safe-nwk_registration : Safe (Steady t n) Network.nwk_registration
  unfolding Network.nwk_registration
  Safe-nwk_registration =
      Safe-with_lock _
        (Moves-gets _ t _ (λ m h. h.timeout) (search (at_rules, Safe-search_network) depth 14))

  pub Safe-nwk_deregistration : Safe (Steady t n) Network.nwk_deregistration
  unfolding Network.nwk_deregistration
  Safe-nwk_deregistration = search method_rules depth 14

  pub Safe-imsi_loop : (rounds : ℕ) → Safe (Steady t n) (imsi_loop rounds)
  unfolding imsi_loop
  Safe-imsi_loop zero = Safe-fail
  Safe-imsi_loop (suc rounds) = Safe-bind _ _ (Moves-attempt _ Safe-get_imsi) (λ got.
      Safe-if _ _ _ (Safe-pure tt) (Safe-bind _ _ (Safe-emit _ tt) (λ _. Safe-imsi_loop rounds)))

  pub Safe-keep_pin : (o : Option (List ℕ)) → Safe (Steady t n) (modify (keep_pin o))
  Safe-keep_pin none = Moves-modify _ (λ m h. h)
  Safe-keep_pin (some p) = Moves-modify _ (λ m h. ground arith)

  pub Safe-set_initialised :
      (b : Bool) → Safe (Steady t n) (modify (λ m. record m { modem_initialised = b }))
  Safe-set_initialised b = Moves-modify _ (λ m h. ground arith)

pub ruleset setup_rules = (
  method_rules, Safe-initialise_sim_card, Safe-set_sms, Safe-imsi_loop, Safe-keep_pin,
  Safe-set_initialised, Safe-power_up, Safe-power_down, Safe-set_device_identity, Safe-device_init,
  Safe-get_iccid, Safe-get_imei, Safe-get_meid,
)

module _ {t n : ℕ} where
  Safe-bring_up : (o : Option (List ℕ)) → Safe (Steady t n) (bring_up o)
  unfolding bring_up
  Safe-bring_up o = search setup_rules depth 40

  pub Safe-init : (o : Option (List ℕ)) → Safe (Steady t n) (Setup.init o)
  unfolding Setup.init
  Safe-init o = search (at_rules, Safe-bring_up) depth 14

  pub Safe-deinit : Safe (Steady t n) Setup.deinit
  unfolding Setup.deinit
  Safe-deinit = search setup_rules depth 9
