-- ===== src/Cellular/Requests.antt =====
-- The public methods of UbloxCellularBase.cpp as requests that a client makes, one after the other.
use example_ublox_mbed_clien.Prelude.{ℕ, Bool, Option, none, List, [], ◌∷◌}
use example_ublox_mbed_clien.Act.{Act, pure, attempt, ◌>>◌}
use example_ublox_mbed_clien.Cellular.{Modem}
use example_ublox_mbed_clien.Cellular.Setup
use example_ublox_mbed_clien.Cellular.Sim
use example_ublox_mbed_clien.Cellular.Network

-- One constructor for each public method that asks something of the modem or sets the PIN, with
-- its arguments; a null pointer is `none`.
pub data Request : Type 0 where
  init set_pin change_sim_pin : Option (List ℕ) → Request
  nwk_registration nwk_deregistration deinit : Request
  sim_pin_check_enable : Bool → Request

unfoldable pub run_request : Request → Act Modem Unit
run_request (init pin) = do Setup.init pin; pure tt
run_request (set_pin pin) = Sim.set_pin pin
run_request (change_sim_pin pin) = Sim.change_sim_pin pin
run_request nwk_registration = do Network.nwk_registration; pure tt
run_request nwk_deregistration = Network.nwk_deregistration
run_request deinit = Setup.deinit
run_request (sim_pin_check_enable enable) = Sim.sim_pin_check_enable enable

-- A client goes on after a request that returned false.
unfoldable pub run_requests : List Request → Act Modem Unit
unfolding run_request
run_requests [] = pure tt
run_requests (r ∷ rs) = do attempt (run_request r); run_requests rs

-- No request takes the PIN away.
abbrev pub KeepsPin : List Request → Type 0
KeepsPin [] = Unit
KeepsPin (set_pin none ∷ rs) = ⊥
KeepsPin (r ∷ rs) = KeepsPin rs
