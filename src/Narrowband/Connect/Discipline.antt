-- ===== src/Narrowband/Connect/Discipline.antt =====
-- The rules for the AT parser in connect, disconnect, the address and the sockets of
-- UbloxATCellularInterfaceN2xx.cpp, and in any sequence of such calls.
use example_ublox_mbed_clien.Act.{Act}
use example_ublox_mbed_clien.Act.Safe.{Safe}
use example_ublox_mbed_clien.Narrowband.Others
use example_ublox_mbed_clien.Narrowband.Datagrams
use example_ublox_mbed_clien.Narrowband.Connect
