-- ===== src/Cellular/Samples.antt =====
-- Modems for the tests: an interface as it is constructed, the services of the platform, and a modem
-- that accepts everything.
use example_ublox_mbed_clien.Prelude.{
  ℕ, ◌+◌, ◌*◌, true, false, some, none, List, [], ◌∷◌, pos, negsuc, codes, length, if◌then◌else◌,
  ltb,
}
use example_ublox_mbed_clien.Cellular.{
  numbers, SockCtrl, Interface, Mbed, unknown, Urc, Modem, type_none,
}

abbrev pub unused : SockCtrl
unused = record { modem_handle = negsuc 0; pending = 0; callback = none; argument = 0 }

-- the interface as it is constructed
abbrev pub plain_interface : Interface
plain_interface = record {
  sockets = unused ∷ unused ∷ unused ∷ unused ∷ unused ∷ unused ∷ unused ∷ [];
  status_cb = false;
  ip = none;
  apn = none;
  uname = none;
  pwd = none;
  auth = unknown;
  check_pending = false;
  check_value = false;
  pin_pending = false;
  ppp_up = false;
  new_pin = none;
  listen_port = pos 10000;
  cgmi = [];
  cgmm = [];
  cgmr = [];
  cgsn = [];
}

-- Every write takes what it is given, up to 2000 bytes.
abbrev pub plain_mbed : Mbed
plain_mbed = record {
  taken = λ _. pos 2000;
  bytes = λ _. some [];
  second = λ _. pos 0;
  millis = λ t. 100 * length t;
  has_memory = λ _. true;
  scan_pair = λ s. some (pos 3, pos 5);
  scan_tight_pair = λ s. some (pos 3, pos 5);
  scan_five = λ s. none;
  scan_four = λ s. none;
  texts_five = λ s. [];
  texts_four = λ s. [];
  scan_two = λ s. none;
  scan_one = λ s. none;
  scan_csq = λ s. numbers (pos 20 ∷ []);
  scan_cscon = λ s. numbers (pos 0 ∷ pos 1 ∷ []);
  apnconfig = λ s. none;
  apn_get = λ c. ([], c + 1);
  apn_ends = λ c. true;
  ip_size = 40;
  is_address = λ s. true;
  ppp_result = λ _. pos 0;
  is_zero_address = λ s. false;
}

-- A modem that accepts everything, answers every query with the same text, and says the same
-- unasked in every wait.
abbrev pub modem_saying : List ℕ → List Urc → Modem
modem_saying answer said = record {
  at = true;
  at_timeout = 8000;
  baud = 115200;
  modem_initialised = false;
  sim_pin_check_enabled = false;
  pin = some (codes "1234");
  dev = type_none;
  iccid = [];
  imsi = [];
  imei = [];
  meid = [];
  rat = pos 0;
  reg_status_csd = pos 0;
  reg_status_psd = pos 0;
  reg_status_eps = pos 0;
  sends = λ _. true;
  receives = λ _. true;
  field = λ _. answer;
  number = λ _. pos 0;
  urcs = λ _. said;
  scan_second = λ s. if ltb 3 (length s) then some (pos 1) else none;
  scan_first = λ s. some (pos 0);
  iface = plain_interface;
  mbed = plain_mbed;
  trace = [];
}
