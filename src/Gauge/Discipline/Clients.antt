-- ===== src/Gauge/Discipline/Clients.antt =====
-- The bus rule for whatever a client of bq27441.cpp calls.
use example_ublox_mbed_clien.Prelude.{
  ℕ, ◌+◌, ◌≤◌, ◌<◌, ◌^◌, refl, true, false, Bool, some, none, List, [], ◌∷◌, ℤ, pos, negsuc, arith,
  length,
}
use example_ublox_mbed_clien.Act.{◌>>=◌}
use example_ublox_mbed_clien.Act.Safe.{
  Moves-weaken, Safe, IsDefined, Safe-bind, Moves-attempt, Moves-modify_then, Safe-pure, Safe-if,
  Safe-fail, safe_rules,
}
use example_ublox_mbed_clien.Gauge.{Gauge}
use example_ublox_mbed_clien.Gauge.Power.{init, is_gauge_enabled}
use example_ublox_mbed_clien.Gauge.Entry.{when_ready}
use example_ublox_mbed_clien.Gauge.Advanced
use example_ublox_mbed_clien.Gauge.Calls.{
  Call, advanced_get_config, advanced_set_config, run_call, run_calls, IsProper, AllProper,
}
use example_ublox_mbed_clien.Gauge.Discipline.{OnBus, IsIdle}
use example_ublox_mbed_clien.Gauge.Discipline.Entry.{Safe-with_lock, Safe-when_ready}
use example_ublox_mbed_clien.Gauge.Discipline.Extended.{
  Safe-read_extended_data, Safe-write_extended_data,
}
use example_ublox_mbed_clien.Gauge.Discipline.Calls.{
  Safe-configure, frame_rules, Safe-enable_gauge, Safe-disable_gauge, Safe-disable_battery_detect,
  Safe-enable_battery_detect, Safe-is_battery_detected, Safe-get_temperature, Safe-get_voltage,
  Safe-get_current, Safe-get_remaining_capacity, Safe-get_remaining_percentage, Safe-advanced_get,
  Safe-advanced_send_control_word, Safe-advanced_is_sealed, Safe-advanced_seal,
  Safe-advanced_unseal, Safe-advanced_reset,
}

module _ {n : ℕ} where
  Safe-advanced_get_config :
      (sub o k : ℕ) (wanted : Bool)
      → o + k < 2 ^ 31
      → Safe (IsIdle n) (Advanced.advanced_get_config sub (pos o) (pos k) wanted)
  unfolding Advanced.advanced_get_config
  Safe-advanced_get_config sub o k wanted h =
      Safe-when_ready _ _
        (Safe-if _ _ _
          (Safe-with_lock _ (
            Safe-bind _ _ (Moves-attempt _ (Safe-read_extended_data sub o k wanted h))
              (λ result. search frame_rules depth 9)))
          (Safe-pure _))
        (Safe-pure _)

  Safe-advanced_set_config :
      (sub o k : ℕ) (source : List ℕ)
      → o + k < 2 ^ 31
      → k ≤ length source
      → Safe (IsIdle n) (Advanced.advanced_set_config sub (pos o) (pos k) (some source))
  unfolding Advanced.advanced_set_config
  Safe-advanced_set_config sub o k source h s =
      Safe-when_ready _ _
        (Safe-with_lock _ (
          Safe-bind _ _ (Moves-attempt _ (Safe-write_extended_data sub o k source h s))
            (λ result. search frame_rules depth 9)))
        Safe-fail

  Safe-advanced_set_config_null :
      (sub : ℕ) (offset count : ℤ)
      → Safe (IsIdle n) (Advanced.advanced_set_config sub offset count none)
  unfolding Advanced.advanced_set_config when_ready
  Safe-advanced_set_config_null sub offset count = record {
    defined = λ g h. ground arith;
    at = λ g h. ground arith;
  }

  init_present : (address code : ℕ) → Safe (IsIdle n) (init true address code)
  unfolding init
  init_present address code =
      Moves-modify_then {Q = OnBus n} _ _
        (λ g h. record { present = refl; guarded = h.guarded; depth = h.depth })
        (Moves-weaken {Q = OnBus n} _ (λ g h. record { guarded = h.guarded; depth = h.depth })
          (search (frame_rules, Safe-configure) depth 12))

  -- Without a bus `init` only records the arguments.
  init_absent : (address code : ℕ) → Safe (IsIdle n) (init false address code)
  unfolding init ◌>>=◌
  init_absent address code = record {
    defined = λ g h. tt;
    at = λ g h. record { guarded = h.guarded; depth = h.depth };
  }

  pub Safe-init : (present : Bool) (address code : ℕ) → Safe (IsIdle n) (init present address code)
  Safe-init true = init_present
  Safe-init false = init_absent

ruleset call_rules = (
  safe_rules, Safe-init, Safe-enable_gauge, Safe-disable_gauge, Safe-disable_battery_detect,
  Safe-enable_battery_detect, Safe-is_battery_detected, Safe-get_temperature, Safe-get_voltage,
  Safe-get_current, Safe-get_remaining_capacity, Safe-get_remaining_percentage, Safe-advanced_get,
  Safe-advanced_send_control_word, Safe-advanced_is_sealed, Safe-advanced_seal,
  Safe-advanced_unseal, Safe-advanced_reset,
)

module _ {n : ℕ} where
  Safe-run_call : (c : Call) → IsProper c → Safe (IsIdle n) (run_call c)
  unfolding run_call is_gauge_enabled
  Safe-run_call (advanced_get_config sub (pos o) (pos k) wanted) h =
      Safe-bind _ _ (Safe-advanced_get_config sub o k wanted h) (λ _. Safe-pure tt)
  Safe-run_call (advanced_get_config sub (pos o) (negsuc k) wanted) h = absurd h
  Safe-run_call (advanced_get_config sub (negsuc o) k wanted) h = absurd h
  Safe-run_call (advanced_set_config sub offset k none) h =
      Safe-advanced_set_config_null sub offset k
  Safe-run_call (advanced_set_config sub (pos o) (pos k) (some source)) h =
      Safe-advanced_set_config sub o k source h.0 h.1
  Safe-run_call (advanced_set_config sub (pos o) (negsuc k) (some source)) h = absurd h
  Safe-run_call (advanced_set_config sub (negsuc o) k (some source)) h = absurd h
  Safe-run_call _ h = search call_rules

  calls-Safe : (cs : List Call) → AllProper cs → Safe (IsIdle n) (run_calls cs)
  unfolding run_calls
  calls-Safe [] h = Safe-pure tt
  calls-Safe (c ∷ cs) h =
      Safe-bind _ _ (Moves-attempt _ (Safe-run_call c h.0)) (λ _. calls-Safe cs h.1)

-- Whatever proper calls a client makes, in any order and whatever the chip answers to them, there
-- is no undefined behaviour; every I2C transfer is made under the mutex; no one gives back a mutex
-- that is not held; and in the end it is held as often as before.
pub run_calls-IsIdle :
    (n : ℕ) (cs : List Call) (g : Gauge)
    → AllProper cs
    → IsIdle n g
    → IsDefined (run_calls cs g).0 × IsIdle n (run_calls cs g).1
run_calls-IsIdle n cs g h idle =
    ((calls-Safe {n = n} cs h).defined g idle, (calls-Safe {n = n} cs h).at g idle)
