-- ===== src/Cellular/Discipline/Methods.antt =====
-- The rules for the AT parser in each method of UbloxCellularBase.cpp.
use example_ublox_mbed_clien.Prelude.{ℕ, zero, suc, Bool, some, none, Option, List, arith, ℤ}
use example_ublox_mbed_clien.Act.{modify}
use example_ublox_mbed_clien.Act.Safe.{
  Safe, Safe-bind, Moves-modify, Safe-pure, Safe-if, Safe-fail, Moves-gets,
}
use example_ublox_mbed_clien.Act.Runs.{Runs-bind, Runs-attempt}
use example_ublox_mbed_clien.Cellular.{DeviceType}
use example_ublox_mbed_clien.Cellular.Power.{
  power_up_loop, set_final_baud, power_up, power_down, clear_registration, set_dev,
  set_device_identity, device_init, get_iccid, get_imsi, get_imei, get_meid, send_gpio,
}
use example_ublox_mbed_clien.Cellular.Network.{set_rat}
use example_ublox_mbed_clien.Cellular.Discipline.{
  Steady, Tuned, at_rules, assert_at-Runs, at_set_timeout-Runs, Safe-emit, Safe-emit_flush,
  Safe-send, Safe-recv, Safe-with_lock,
}

module _ {t n : ℕ} where
  pub Safe-clear_registration : Safe (Steady t n) (modify clear_registration)
  Safe-clear_registration = Moves-modify _ (λ m h. ground arith)

  pub Safe-set_dev : (o : Option DeviceType) → Safe (Steady t n) (modify (set_dev o))
  Safe-set_dev none = Moves-modify _ (λ m h. h)
  Safe-set_dev (some d) = Moves-modify _ (λ m h. ground arith)

  pub Safe-set_iccid : (x : List ℕ) → Safe (Steady t n) (modify (λ m. record m { iccid = x }))
  Safe-set_iccid x = Moves-modify _ (λ m h. ground arith)

  pub Safe-set_imsi : (x : List ℕ) → Safe (Steady t n) (modify (λ m. record m { imsi = x }))
  Safe-set_imsi x = Moves-modify _ (λ m h. ground arith)

  pub Safe-set_imei : (x : List ℕ) → Safe (Steady t n) (modify (λ m. record m { imei = x }))
  Safe-set_imei x = Moves-modify _ (λ m h. ground arith)

  pub Safe-set_meid : (x : List ℕ) → Safe (Steady t n) (modify (λ m. record m { meid = x }))
  Safe-set_meid x = Moves-modify _ (λ m h. ground arith)

  pub Safe-set_check :
      (b : Bool) → Safe (Steady t n) (modify (λ m. record m { sim_pin_check_enabled = b }))
  Safe-set_check b = Moves-modify _ (λ m h. ground arith)

  pub Safe-set_some_pin : (p : List ℕ) → Safe (Steady t n) (modify (λ m. record m { pin = some p }))
  Safe-set_some_pin p = Moves-modify _ (λ m h. ground arith)

  pub Safe-set_rat : (r : ℤ) → Safe (Steady t n) (modify (set_rat r))
  unfolding set_rat
  Safe-set_rat r = Moves-modify _ (λ m h. ground arith)

pub ruleset method_rules = (
  at_rules, Safe-clear_registration, Safe-set_dev, Safe-set_iccid, Safe-set_imsi, Safe-set_imei,
  Safe-set_meid, Safe-set_check, Safe-set_some_pin, Safe-set_rat,
)

module _ {known : Bool} {t n : ℕ} where
  Safe-power_up_loop : (rounds : ℕ) → Safe (Tuned known t (suc n)) (power_up_loop t rounds)
  unfolding power_up_loop
  Safe-power_up_loop zero = Safe-fail
  Safe-power_up_loop (suc rounds) = Safe-bind _ _ (Safe-emit _ tt) (λ _.
      Safe-bind _ _ (Safe-emit _ tt) (λ _. Safe-bind _ _ Safe-emit_flush (λ _.
        Runs-bind _ _ (at_set_timeout-Runs 1000) (λ _.
          Runs-bind {Q = Tuned known 1000 (suc n)} _ _ (Runs-attempt _ (search at_rules depth 9))
            (λ answer.
              Runs-bind _ _ (at_set_timeout-Runs t)
                (λ _. Safe-if _ _ _ (Safe-pure tt) (Safe-power_up_loop rounds)))))))

  Safe-set_final_baud : Safe (Tuned known t (suc n)) set_final_baud
  unfolding set_final_baud
  Safe-set_final_baud = search at_rules depth 12

  pub Safe-power_up : Safe (Tuned known t n) power_up
  unfolding power_up
  Safe-power_up = Safe-with_lock _ (
      Moves-gets _ t _ (λ m h. h.timeout)
        (search (at_rules, Safe-power_up_loop, Safe-set_final_baud) depth 24))

module _ {t n : ℕ} where
  pub Safe-power_down : Safe (Steady t n) power_down
  unfolding power_down
  Safe-power_down = search method_rules depth 16

  pub Safe-set_device_identity : Safe (Steady t n) set_device_identity
  unfolding set_device_identity
  Safe-set_device_identity = search method_rules depth 16

  Safe-send_gpio : (o : Option _) → Safe (Steady t (suc n)) (send_gpio o)
  Safe-send_gpio none = Safe-pure tt
  Safe-send_gpio (some c) = search at_rules

  pub Safe-device_init : (d : DeviceType) → Safe (Steady t n) (device_init d)
  unfolding device_init
  Safe-device_init d = search (at_rules, Safe-send_gpio) depth 12

  pub Safe-get_iccid : Safe (Steady t n) get_iccid
  unfolding get_iccid
  Safe-get_iccid = search method_rules depth 16

  pub Safe-get_imsi : Safe (Steady t n) get_imsi
  unfolding get_imsi
  Safe-get_imsi = search method_rules depth 16

  pub Safe-get_imei : Safe (Steady t n) get_imei
  unfolding get_imei
  Safe-get_imei = search method_rules depth 16

  pub Safe-get_meid : Safe (Steady t n) get_meid
  unfolding get_meid
  Safe-get_meid = search method_rules depth 16
