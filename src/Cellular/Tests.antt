-- ===== src/Cellular/Tests.antt =====
-- The theorems about UbloxCellularBase.cpp at concrete inputs.
use example_ublox_mbed_clien.Prelude.{
  ◌<◌, ◌≤◌, ◌≡◌, refl, true, false, some, none, [], ◌∷◌, ◌++◌, arith, codes, take, length,
}
use example_ublox_mbed_clien.Act.{done, ◌>>=◌, attempt}
use example_ublox_mbed_clien.Act.Safe.{IsDefined}
use example_ublox_mbed_clien.Act.Runs.{Finishes}
use example_ublox_mbed_clien.Cellular.Unasked.{reader_of}
use example_ublox_mbed_clien.Cellular.Samples.{modem_saying}
use example_ublox_mbed_clien.Cellular.{Modem, creg, type_none}
use example_ublox_mbed_clien.Cellular.Callbacks.{
  read_at_to_char, stored_chars, drop_last, urc_status, scan_status, handle_urc, handle_urcs,
  is_registered, is_registered_csd, is_registered_psd, is_registered_eps, creg_urc,
  set_nwk_reg_status_csd,
}
use example_ublox_mbed_clien.Cellular.Parser
use example_ublox_mbed_clien.Cellular.Parser.{
  emit, assert_at, with_lock, recv_number, at_set_timeout,
}
use example_ublox_mbed_clien.Cellular.Power.{set_device_identity}
use example_ublox_mbed_clien.Cellular.Sim.{
  initialise_sim_card, change_sim_pin, sim_pin_check_enable,
}
use example_ublox_mbed_clien.Cellular.Settings.{NewPinIff, change_sim_pin-NewPinIff}
use example_ublox_mbed_clien.Cellular.Settings.Check.{CheckIff, sim_pin_check_enable-CheckIff}
use example_ublox_mbed_clien.Cellular.Network
use example_ublox_mbed_clien.Cellular.Network.{start_search, registration_loop, ask_rat, set_rat}
use example_ublox_mbed_clien.Cellular.Setup
use example_ublox_mbed_clien.Cellular.Requests.{init, nwk_registration, deinit, run_requests}
use example_ublox_mbed_clien.Cellular.Discipline.{Steady}
use example_ublox_mbed_clien.Cellular.Discipline.Clients.{run_requests-Steady}
use example_ublox_mbed_clien.Cellular.Lines.{read_at_to_char_bounds, read_at_to_char-line}
use example_ublox_mbed_clien.Cellular.Identity.{answers, names, IsNamed, set_device_identity-answer}
use example_ublox_mbed_clien.Cellular.PinUse.{pin_tries, initialise_sim_card-one_try}
use example_ublox_mbed_clien.Cellular.Statuses.{statuses, hear_all, handle_urcs-statuses}
use example_ublox_mbed_clien.Cellular.PowerOff.{deinit-IsOff}
use example_ublox_mbed_clien.Cellular.Reports.{reported}
use example_ublox_mbed_clien.Cellular.Reports.Registration.{nwk_registration-reported}

abbrev locked_card : Modem
locked_card = modem_saying (codes "SIM PIN") []

run_requests-Steady_example :
    IsDefined (run_requests (init none ∷ nwk_registration ∷ deinit ∷ []) locked_card).0
    × Steady 8000 0 (run_requests (init none ∷ nwk_registration ∷ deinit ∷ []) locked_card).1
run_requests-Steady_example =
    run_requests-Steady 8000 (init none ∷ nwk_registration ∷ deinit ∷ []) locked_card tt (record {
      parser = refl;
      timeout = refl;
      pinned = refl;
      unused = refl;
      table = refl;
      guarded = tt;
      depth = refl;
    })

initialise_sim_card-one_try_example :
    IsDefined (initialise_sim_card locked_card).0
    × (pin_tries (initialise_sim_card locked_card).1.trace ≤ 1)
initialise_sim_card-one_try_example = initialise_sim_card-one_try locked_card refl refl

-- The answer to AT+CREG?, which comes as a message: registered at home.
abbrev reporting : Modem
reporting = modem_saying [] (creg (codes ": 0,1\r\n") ∷ [])

reporting_runs : (Network.nwk_registration reporting).0 ≡ done true
unfolding Network.nwk_registration with_lock emit assert_at Parser.send Parser.recv recv_number
    at_set_timeout start_search registration_loop ask_rat set_rat handle_urcs handle_urc creg_urc
    urc_status scan_status read_at_to_char set_nwk_reg_status_csd is_registered_csd
    is_registered_psd is_registered_eps ◌>>=◌ attempt
reporting_runs = refl

not_yet : is_registered reporting ≡ false
unfolding is_registered_csd is_registered_psd is_registered_eps
not_yet = refl

nwk_registration-reported_example :
    reported (reader_of reporting) (Network.nwk_registration reporting).1.trace ≡ true
nwk_registration-reported_example = nwk_registration-reported reporting refl not_yet reporting_runs

deinit-IsOff_example :
    Finishes (Setup.deinit reporting).0
    × (((Setup.deinit reporting).1.modem_initialised ≡ false)
        × (is_registered (Setup.deinit reporting).1 ≡ false))
deinit-IsOff_example = deinit-IsOff reporting refl

set_device_identity-answer_example :
    ((set_device_identity (answers (codes "SARA-G350") reporting)).0 ≡ done tt)
    × IsNamed names
        (take 19 (codes "SARA-G350"))
        type_none
        (set_device_identity (answers (codes "SARA-G350") reporting)).1.dev
set_device_identity-answer_example = set_device_identity-answer (codes "SARA-G350") reporting

read_at_to_char-line_example :
    read_at_to_char 10 b'\n' (codes ": 0,1" ++ b'\r' ∷ b'\n' ∷ codes "OK") ≡ some (codes ": 0,1")
read_at_to_char-line_example =
    read_at_to_char-line 10 (codes ": 0,1") (codes "OK") (refl, (refl, (refl, (refl, (refl, tt)))))
      (omega arith)

long_line : read_at_to_char 4 b'\n' (codes ": 0,1") ≡ some (codes ": 0")
unfolding read_at_to_char stored_chars drop_last
long_line = refl

read_at_to_char_bounds_example : length (codes ": 0") < 4
read_at_to_char_bounds_example =
    read_at_to_char_bounds 4 b'\n' (codes ": 0,1") (codes ": 0") (omega arith) long_line

change_sim_pin-NewPinIff_example :
    NewPinIff
      (change_sim_pin (some (codes "9876")) reporting).0
      (codes "9876")
      (codes "1234")
      (change_sim_pin (some (codes "9876")) reporting).1
change_sim_pin-NewPinIff_example =
    change_sim_pin-NewPinIff (codes "9876") (codes "1234") reporting refl refl

sim_pin_check_enable-CheckIff_example :
    CheckIff
      (sim_pin_check_enable true reporting).0
      true
      false
      (sim_pin_check_enable true reporting).1
sim_pin_check_enable-CheckIff_example =
    sim_pin_check_enable-CheckIff true (codes "1234") reporting refl refl

handle_urcs-statuses_example :
    statuses (handle_urcs (creg (codes ": 0,1\r\n") ∷ []) reporting)
    ≡ hear_all (reader_of reporting) (creg (codes ": 0,1\r\n") ∷ []) (statuses reporting)
handle_urcs-statuses_example = handle_urcs-statuses (creg (codes ": 0,1\r\n") ∷ []) reporting
