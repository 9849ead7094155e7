-- ===== src/Gauge/Discipline/Calls.antt =====
-- The bus rule for every public function of bq27441.cpp.
use example_ublox_mbed_clien.Prelude.{ℕ, suc, true, Bool, some, [], ◌∷◌, pos, arith}
use example_ublox_mbed_clien.Act.{modify}
use example_ublox_mbed_clien.Act.Safe.{Safe, Safe-bind, Moves-modify}
use example_ublox_mbed_clien.Gauge.Power.{
  configure, enable_gauge, disable_gauge, disable_battery_detect, enable_battery_detect,
}
use example_ublox_mbed_clien.Gauge.Readings.{
  measure, is_battery_detected, get_temperature, get_voltage, get_current, get_remaining_capacity,
  get_remaining_percentage, advanced_get,
}
use example_ublox_mbed_clien.Gauge.Advanced.{
  advanced_send_control_word, advanced_is_sealed, advanced_seal, advanced_unseal, advanced_reset,
}
use example_ublox_mbed_clien.Gauge.Extended.{read_extended_data, write_extended_data}
use example_ublox_mbed_clien.Gauge.Discipline.{OnBus, IsIdle, chip_rules, Safe-set_hibernate}
use example_ublox_mbed_clien.Gauge.Discipline.Entry.{
  Safe-with_lock, Safe-sleep_again, Safe-wake_up, Safe-when_ready,
}
use example_ublox_mbed_clien.Gauge.Discipline.Extended.{
  Safe-read_extended_data, Safe-write_extended_data,
}

module _ {n : ℕ} where
  -- Transfers of one or two bytes at a fixed offset.
  pub Safe-write_two :
      (sub a b : ℕ)
      → Safe (OnBus (suc n)) (write_extended_data sub (pos 0) (pos 2) (some (a ∷ b ∷ [])))
  Safe-write_two sub a b = Safe-write_extended_data sub 0 2 (a ∷ b ∷ []) (omega arith) (omega arith)

  pub Safe-read_two : (sub : ℕ) → Safe (OnBus (suc n)) (read_extended_data sub (pos 0) (pos 2) true)
  Safe-read_two sub = Safe-read_extended_data sub 0 2 true (omega arith)

  Safe-read_status : Safe (OnBus (suc n)) (read_extended_data 82 (pos 2) (pos 1) true)
  Safe-read_status = Safe-read_extended_data 82 2 1 true (omega arith)

  Safe-write_status :
      (a : ℕ) → Safe (OnBus (suc n)) (write_extended_data 82 (pos 2) (pos 1) (some (a ∷ [])))
  Safe-write_status a = Safe-write_extended_data 82 2 1 (a ∷ []) (omega arith) (omega arith)

  pub Safe-set_ready : (b : Bool) → Safe (OnBus n) (modify (λ g. record g { ready = b }))
  Safe-set_ready b =
      Moves-modify _ (λ g h. record { present = h.present; guarded = h.guarded; depth = h.depth })

  pub Safe-set_gauge_on : (b : Bool) → Safe (OnBus n) (modify (λ g. record g { gauge_on = b }))
  Safe-set_gauge_on b =
      Moves-modify _ (λ g h. record { present = h.present; guarded = h.guarded; depth = h.depth })

pub ruleset frame_rules = (
  chip_rules, Safe-sleep_again, Safe-wake_up, Safe-with_lock, Safe-when_ready, Safe-read_two,
  Safe-write_two, Safe-set_ready, Safe-set_gauge_on,
)

module _ {n : ℕ} where
  pub Safe-configure : Safe (OnBus (suc n)) configure
  unfolding configure
  Safe-configure = Safe-bind _ _ (search frame_rules) (λ _.
      Safe-bind _ _ (search frame_rules) (λ answer. Safe-bind _ _ (search frame_rules) (λ _.
        Safe-bind _ _ (Safe-write_extended_data 82 31 1 _ (omega arith) (omega arith)) (λ _.
          Safe-bind _ _ (Safe-write_extended_data 82 32 1 _ (omega arith) (omega arith)) (λ _.
            Safe-bind _ _ (Safe-write_extended_data 68 9 2 _ (omega arith) (omega arith))
              (λ _. search frame_rules depth 9))))))

  pub Safe-enable_gauge : (b : Bool) → Safe (IsIdle n) (enable_gauge b)
  unfolding enable_gauge
  Safe-enable_gauge b = search frame_rules depth 20

  pub Safe-disable_gauge : Safe (IsIdle n) disable_gauge
  unfolding disable_gauge
  Safe-disable_gauge = search frame_rules depth 20

  pub Safe-disable_battery_detect : Safe (IsIdle n) disable_battery_detect
  unfolding disable_battery_detect
  Safe-disable_battery_detect = search frame_rules depth 20

  pub Safe-enable_battery_detect : Safe (IsIdle n) enable_battery_detect
  unfolding enable_battery_detect
  Safe-enable_battery_detect = search frame_rules depth 20

  pub Safe-is_battery_detected : Safe (IsIdle n) is_battery_detected
  unfolding is_battery_detected measure
  Safe-is_battery_detected = search frame_rules depth 20

  pub Safe-get_temperature : Safe (IsIdle n) get_temperature
  unfolding get_temperature measure
  Safe-get_temperature = search frame_rules depth 20

  pub Safe-get_voltage : Safe (IsIdle n) get_voltage
  unfolding get_voltage measure
  Safe-get_voltage = search frame_rules depth 20

  pub Safe-get_current : Safe (IsIdle n) get_current
  unfolding get_current measure
  Safe-get_current = search frame_rules depth 20

  pub Safe-get_remaining_capacity : Safe (IsIdle n) get_remaining_capacity
  unfolding get_remaining_capacity measure
  Safe-get_remaining_capacity = search frame_rules depth 20

  pub Safe-get_remaining_percentage : Safe (IsIdle n) get_remaining_percentage
  unfolding get_remaining_percentage measure
  Safe-get_remaining_percentage = search frame_rules depth 20

  pub Safe-advanced_get : (a : ℕ) → Safe (IsIdle n) (advanced_get a)
  unfolding advanced_get measure
  Safe-advanced_get a = search frame_rules depth 20

  pub Safe-advanced_send_control_word :
      (w : ℕ) (b : Bool) → Safe (IsIdle n) (advanced_send_control_word w b)
  unfolding advanced_send_control_word
  Safe-advanced_send_control_word w b = search frame_rules depth 20

  pub Safe-advanced_is_sealed : Safe (IsIdle n) advanced_is_sealed
  unfolding advanced_is_sealed
  Safe-advanced_is_sealed = search frame_rules depth 20

  pub Safe-advanced_seal : Safe (IsIdle n) advanced_seal
  unfolding advanced_seal
  Safe-advanced_seal = search frame_rules depth 20

  pub Safe-advanced_unseal : (c : ℕ) → Safe (IsIdle n) (advanced_unseal c)
  unfolding advanced_unseal
  Safe-advanced_unseal c = search (frame_rules, Safe-read_status, Safe-write_status) depth 20

  pub Safe-advanced_reset : Safe (IsIdle n) advanced_reset
  unfolding advanced_reset
  Safe-advanced_reset = search frame_rules depth 20
