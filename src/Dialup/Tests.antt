-- ===== src/Dialup/Tests.antt =====
-- The theorem about UbloxPPPCellularInterface.cpp at a concrete input.
use example_ublox_mbed_clien.Prelude.{some, [], codes}
use example_ublox_mbed_clien.Cellular.{Modem}
use example_ublox_mbed_clien.Cellular.Samples.{plain_interface, modem_saying}

-- A modem that accepts all commands, with an access point.
abbrev with_apn : Modem
with_apn = record (modem_saying [] []) {
  iface = record plain_interface { apn = some (codes "internet") };
}
