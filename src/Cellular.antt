-- ===== src/Cellular.antt =====
-- The base driver of the cellular modems, ublox-cellular-base/UbloxCellularBase.cpp and
-- UbloxCellularBase.h: the object, and its use of the AT parser, the mutex and the modem's power
-- lines; with it the data members of the classes that are derived from it, and of the N2xx classes.
-- Children: `Table` has the table of sockets, `Callbacks` what the modem says unasked, `Power`, `Sim`, `Network` and `Setup`
-- the methods; the others hold proofs.
pub mod Table
pub mod Callbacks
pub mod Parser
pub mod Power
pub mod Sim
pub mod Network
pub mod Setup
pub mod Requests
pub mod WithPin
pub mod Unasked
pub mod Talk
pub mod Discipline
pub mod Lines
pub mod Identity
pub mod PinUse
pub mod PowerOff
pub mod Settings
pub mod Statuses
pub mod Reports
pub mod Samples
mod Tests
use Prim.Native.String.{String}
use example_ublox_mbed_clien.Prelude.{ℕ, Bool, Option, List, ◌∷◌, ℤ}

-- an argument of a command's format
pub data Arg : Type 0 where
  num : ℕ → Arg
  int : ℤ → Arg
  text : List ℕ → Arg

-- What the modem says unasked, with the characters that follow the prefix: to the base driver, to
-- the AT interface, and to the two N2xx classes, whose callback for `+CEREG` is another one.
pub data Urc : Type 0 where
  error : Urc
  cmx_error creg cgreg cereg umwi : List ℕ → Urc
  uusord uusorf uusocl uupsdd : List ℕ → Urc
  cereg_n2xx nsonmi : List ℕ → Urc

pub data DeviceType : Type 0 where
  type_none sara_g35 lisa_u2 lisa_u2_03s sara_u2 leon_g2 toby_l2 mpci_l2 sara_n2 : DeviceType

-- What the driver asks of mbed and the board, the modem's messages as their callbacks run, and a write
-- behind the end of an array in a callback.
pub data Event : Type 0 where
  send : String → List Arg → Event
  recv : String → Event
  flush abort : Event
  set_timeout : ℕ → Event
  open_uart set_baud : ℕ → Event
  wait_ms : ℕ → Event
  lock unlock : Event
  board_init board_power_up board_power_down board_deinit : Event
  write : List ℕ → Event
  read malloc : ℕ → Event
  callback : ℕ → ℕ → Event
  status_callback : Event
  ppp_connect ppp_disconnect : Event
  urc : Urc → Event
  overrun : Event

-- A socket of the interfaces, with the addresses of its callback, null or not, and of the data that
-- the callback gets.
pub record SockCtrl : Type 0 where
  pub modem_handle : ℤ
  pub pending : ℕ
  pub callback : Option ℕ
  pub argument : ℕ

pub data Security : Type 0 where
  security_none pap chap unknown other : Security

-- What the interfaces and the N2xx base driver add to the object.
pub record Interface : Type 0 where
  pub sockets : List SockCtrl
  pub status_cb : Bool
  pub ip : Option (List ℕ)
  pub apn : Option (List ℕ)
  pub uname : Option (List ℕ)
  pub pwd : Option (List ℕ)
  pub auth : Security
  pub check_pending : Bool
  pub check_value : Bool
  pub pin_pending : Bool
  pub ppp_up : Bool
  pub new_pin : Option (List ℕ)
  pub listen_port : ℤ
  pub cgmi : List ℕ
  pub cgmm : List ℕ
  pub cgmr : List ℕ
  pub cgsn : List ℕ

-- What `sscanf` returns: EOF, or how many numbers it has stored, here with the numbers.
pub data Scanned : Type 0 where
  end_of_input : Scanned
  numbers : List ℤ → Scanned

-- More of what is not part of the sources. For the event at the head of the trace: `taken` is what
-- `write` returns, `bytes` what `read` finds, or none if it fails, `second` a second number that
-- `recv` scans, `millis` the clock of the timers, and `has_memory` whether `malloc` succeeds. The others are
-- pure: `sscanf` with the formats ": %d,%d", ":%d,%d", the four of the N2xx `+CEREG`, "%d,%*d" and
-- "%d,%d", with the texts that the first two of the `+CEREG` formats store, also where the rest of
-- the line does not fit, and `set_ip_address`, with the test that the address is not zero; `ip_size` is NSAPI_IP_SIZE.
-- The table of APN_db.h is seen through pointers: that of an IMSI, or null, the string that
-- `_APN_GET` finds at one and the pointer that it leaves, and whether the character there is zero.
pub record Mbed : Type 0 where
  pub taken : List Event → ℤ
  pub bytes : List Event → Option (List ℕ)
  pub second : List Event → ℤ
  pub millis : List Event → ℕ
  pub has_memory : List Event → Bool
  pub scan_pair : List ℕ → Option (ℤ × ℤ)
  pub scan_tight_pair : List ℕ → Option (ℤ × ℤ)
  pub scan_five : List ℕ → Option ℤ
  pub scan_four : List ℕ → Option ℤ
  pub texts_five : List ℕ → List (List ℕ)
  pub texts_four : List ℕ → List (List ℕ)
  pub scan_two : List ℕ → Option ℤ
  pub scan_one : List ℕ → Option ℤ
  pub scan_csq : List ℕ → Scanned
  pub scan_cscon : List ℕ → Scanned
  pub apnconfig : List ℕ → Option ℕ
  pub apn_get : ℕ → List ℕ × ℕ
  pub apn_ends : ℕ → Bool
  pub ip_size : ℕ
  pub is_address : List ℕ → Bool
  pub ppp_result : List Event → ℤ
  pub is_zero_address : List ℕ → Bool

-- The object. The parser and the modem behind it are not part of the sources: they are any
-- functions of what happened so far, newest first. For the `send` or `recv` at the head of the
-- trace, `sends` and `receives` say whether it succeeds, `field` and `number` what it scans, and
-- `urcs` which callbacks run in it. `scan_second` and `scan_first` are `sscanf` with the formats
-- ": %*d,%d" and ": %d".
pub record Modem : Type 0 where
  pub at : Bool  -- _at != NULL
  pub at_timeout : ℕ
  pub baud : ℕ
  pub modem_initialised : Bool
  pub sim_pin_check_enabled : Bool
  pub pin : Option (List ℕ)
  pub dev : DeviceType
  pub iccid : List ℕ
  pub imsi : List ℕ
  pub imei : List ℕ
  pub meid : List ℕ
  pub rat : ℤ
  pub reg_status_csd : ℤ
  pub reg_status_psd : ℤ
  pub reg_status_eps : ℤ
  pub sends : List Event → Bool
  pub receives : List Event → Bool
  pub field : List Event → List ℕ
  pub number : List Event → ℤ
  pub urcs : List Event → List Urc
  pub scan_second : List ℕ → Option ℤ
  pub scan_first : List ℕ → Option ℤ
  pub iface : Interface
  pub mbed : Mbed
  pub trace : List Event

abbrev pub log : Event → Modem → Modem
log e m = record m { trace = e ∷ m.trace }

abbrev pub set_sockets : (List SockCtrl → List SockCtrl) → Modem → Modem
set_sockets f m = record m { iface = record m.iface { sockets = f m.iface.sockets } }
