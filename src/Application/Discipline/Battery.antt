-- ===== src/Application/Discipline/Battery.antt =====
-- batteryPercentage of simpleclient.h keeps the bus rule of the gauge.
use example_ublox_mbed_clien.Prelude.{ℕ, zero, suc, Bool, true, false, Option, some, none, ℤ}
use example_ublox_mbed_clien.Act.{Act}
use example_ublox_mbed_clien.Act.Safe.{
  Safe, Safe-bind, Safe-pure, Safe-if, Safe-gets, Moves-attempt, Moves-modify,
}
use example_ublox_mbed_clien.Gauge.{Gauge, wait}
use example_ublox_mbed_clien.Gauge.Power.{is_gauge_enabled}
use example_ublox_mbed_clien.Gauge.Readings.{Reading}
use example_ublox_mbed_clien.Gauge.Discipline.{IsIdle}
use example_ublox_mbed_clien.Gauge.Discipline.Calls.{
  Safe-enable_gauge, Safe-disable_battery_detect, Safe-is_battery_detected,
  Safe-get_remaining_percentage,
}
use example_ublox_mbed_clien.Gauge.Discipline.Clients.{Safe-init}
use example_ublox_mbed_clien.Application.Battery.{
  use_reading, battery_round, battery_loop, battery_percentage, stop_or,
}

module _ {n : ℕ} where
  Safe-wait : (ms : ℕ) → Safe (IsIdle n) (wait ms)
  unfolding wait
  Safe-wait ms = Moves-modify _ (λ g h. record { guarded = h.guarded; depth = h.depth })

  Safe-use_reading : (r : Reading ℤ) → Safe (IsIdle n) (use_reading r)
  Safe-use_reading r =
      Safe-if _ _ _ (Safe-pure _) (Safe-bind _ _ (Safe-wait 500) (λ _. Safe-pure none))

  Safe-battery_round : Safe (IsIdle n) battery_round
  unfolding battery_round is_gauge_enabled
  Safe-battery_round = Safe-bind _ _ Safe-is_battery_detected (λ detected.
      Safe-if detected _ _
        (Safe-bind _ _ (Safe-gets _) (λ on.
          Safe-bind _ _
            (Safe-if on _ _ (Safe-pure none) (Moves-attempt _ (Safe-enable_gauge false)))
            (λ _. Safe-bind _ _ (Safe-gets _) (λ enabled.
              Safe-if enabled _ _ (Safe-bind _ _ Safe-get_remaining_percentage Safe-use_reading)
                (Safe-pure _)))))
        (Safe-pure _))

  Safe-stop_or :
      (more : Act Gauge (Option ℤ)) (o : Option ℤ)
      → Safe (IsIdle n) more
      → Safe (IsIdle n) (stop_or more o)
  Safe-stop_or more none k = k
  Safe-stop_or more (some v) k = Safe-pure (some v)

  Safe-battery_loop : (rounds : ℕ) → Safe (IsIdle n) (battery_loop rounds)
  unfolding battery_loop
  Safe-battery_loop zero = Safe-pure none
  Safe-battery_loop (suc rounds) = Safe-bind _ _ Safe-battery_round (λ result.
      Safe-bind _ _ (Safe-wait 500) (λ _. Safe-stop_or _ result (Safe-battery_loop rounds)))

  pub Safe-battery_percentage :
      (on_c030 : Bool) (rounds : ℕ) → Safe (IsIdle n) (battery_percentage on_c030 rounds)
  unfolding battery_percentage
  Safe-battery_percentage on_c030 rounds =
      Safe-bind _ _ (Moves-modify _ (λ g h. record { guarded = h.guarded; depth = h.depth })) (λ _.
        Safe-bind _ _ (Safe-init true 0x55 0x8000) (λ ready.
          Safe-if ready _ _
            (Safe-bind _ _
              (Safe-if on_c030 _ _ (Moves-attempt _ Safe-disable_battery_detect) (Safe-pure none))
              (λ _. Safe-battery_loop rounds))
            (Safe-pure _)))
