-- ===== src/Cellular/Discipline/Clients.antt =====
-- The rules for the AT parser for whatever a client of UbloxCellularBase.cpp requests.
use example_ublox_mbed_clien.Prelude.{ℕ, some, none, List, [], ◌∷◌}
use example_ublox_mbed_clien.Act.Safe.{Safe, IsDefined, Safe-bind, Safe-pure, Moves-attempt}
use example_ublox_mbed_clien.Cellular.{Modem}
use example_ublox_mbed_clien.Cellular.Sim
use example_ublox_mbed_clien.Cellular.Requests.{
  Request, init, set_pin, change_sim_pin, nwk_registration, nwk_deregistration, deinit,
  sim_pin_check_enable, run_request, run_requests, KeepsPin,
}
use example_ublox_mbed_clien.Cellular.Discipline.{Steady}
use example_ublox_mbed_clien.Cellular.Discipline.Procedures.{
  Safe-keep_pin, Safe-change_sim_pin, Safe-nwk_registration, Safe-nwk_deregistration, Safe-init,
  Safe-deinit, Safe-sim_pin_check_enable,
}

module _ {t n : ℕ} where
  Safe-run_request : (r : Request) → KeepsPin (r ∷ []) → Safe (Steady t n) (run_request r)
  unfolding run_request Sim.set_pin
  Safe-run_request (init o) k = Safe-bind _ _ (Safe-init o) (λ _. Safe-pure tt)
  Safe-run_request (set_pin none) k = absurd k
  Safe-run_request (set_pin (some p)) k = Safe-keep_pin (some p)
  Safe-run_request (change_sim_pin o) k = Safe-change_sim_pin o
  Safe-run_request nwk_registration k = Safe-bind _ _ Safe-nwk_registration (λ _. Safe-pure tt)
  Safe-run_request nwk_deregistration k = Safe-nwk_deregistration
  Safe-run_request deinit k = Safe-deinit
  Safe-run_request (sim_pin_check_enable b) k = Safe-sim_pin_check_enable b

KeepsPin-each :
    (r : Request) (rs : List Request) → KeepsPin (r ∷ rs) → KeepsPin (r ∷ []) × KeepsPin rs
KeepsPin-each (init o) rs k = (tt, k)
KeepsPin-each (set_pin none) rs k = absurd k
KeepsPin-each (set_pin (some p)) rs k = (tt, k)
KeepsPin-each (change_sim_pin o) rs k = (tt, k)
KeepsPin-each nwk_registration rs k = (tt, k)
KeepsPin-each nwk_deregistration rs k = (tt, k)
KeepsPin-each deinit rs k = (tt, k)
KeepsPin-each (sim_pin_check_enable b) rs k = (tt, k)

module _ {t n : ℕ} where
  Safe-run_requests : (rs : List Request) → KeepsPin rs → Safe (Steady t n) (run_requests rs)
  unfolding run_requests
  Safe-run_requests [] k = Safe-pure tt
  Safe-run_requests (r ∷ rs) k =
      let (k', ks) = KeepsPin-each r rs k in
      Safe-bind _ _ (Moves-attempt _ (Safe-run_request r k')) (λ _. Safe-run_requests rs ks)

-- For every modem, that is every answer, failure and unsolicited message, and every sequence of
-- public calls of which none takes the PIN away: from a state with a parser, a PIN, a table of seven
-- sockets and a free mutex the driver runs into no assertion and no null pointer, uses the parser
-- only under the mutex, leaves the mutex free, and puts the parser's timeout back to what it was.
pub run_requests-Steady :
    (t : ℕ) (rs : List Request) (m : Modem)
    → KeepsPin rs
    → Steady t 0 m
    → IsDefined (run_requests rs m).0 × Steady t 0 (run_requests rs m).1
run_requests-Steady t rs m k h =
    ((Safe-run_requests rs k).defined m h, (Safe-run_requests rs k).at m h)
