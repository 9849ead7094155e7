-- ===== src/Lib.antt =====
-- A model of the drivers of the u-blox mbed client example, and theorems about them.
--
-- The program is an mbed application for u-blox boards: main.cpp and simpleclient.h, which register the
-- board with a server through the mbed client library and send it the charge of the battery, and the
-- drivers below them: the battery gauge driver (battery-gauge-bq27441/), and those of the cellular
-- modem. Each talks to its device over a bus that mbed provides, under a mutex.
--
-- Files:
-- - Prelude: names of the libraries, tests on numbers, lists over the native numbers, and integers
--   with the division of C++.
-- - Act: methods as actions on a state with three outcomes: success, failure, undefined behaviour.
--   Act/Safe has the rules for invariants and for the absence of undefined behaviour, Act/Yields,
--   Act/Ends, Act/Gives, Act/Splits and Act/Hands those for values and end states.
-- - Application: main.cpp and simpleclient.h. Application/Battery has batteryPercentage and memoryFree,
--   Application/Client the class MbedClient, Application/Objects the objects of the device, and
--   Application/Main main. Its state holds that of the modem's driver and that of the gauge's.
-- - Gauge: battery-gauge-bq27441/bq27441.cpp. Gauge/Chip has getTwoBytes, computeChecksum, isSealed,
--   seal, unseal, makeAdcReading and setHibernate; Gauge/Extended has readExtendedData and
--   writeExtendedData; Gauge/Entry the frame of the public functions; Gauge/Power init, enableGauge,
--   disableGauge, isGaugeEnabled and the battery detect pin; Gauge/Readings the measurements;
--   Gauge/Advanced the functions whose names begin so; Gauge/Calls a client's sequence of calls. The
--   other modules below Gauge hold the proofs.
-- - Cellular: the base driver of the modems, ublox-cellular-base/UbloxCellularBase.cpp with its header.
--   Cellular/Callbacks has read_at_to_char and the callbacks of unsolicited messages, Cellular/Parser
--   the calls of the AT parser, the mutex and the board, Cellular/Power baseClassInit, power_up,
--   power_down, device_init and the queries of the identity, Cellular/Sim the SIM card and its PIN,
--   Cellular/Network the registration, Cellular/Setup init and deinit, Cellular/Requests a client's
--   sequence of requests. Cellular/Table is the table of sockets, Cellular/Talk has the rules for any
--   property that the parser's calls keep, Cellular/Samples modems for the tests. The other modules
--   below Cellular hold the proofs.
-- - Sockets: the sockets of ublox-at-cellular-interface/UbloxATCellularInterface.cpp, with Sockets/Send
--   for socket_send and socket_sendto and Sockets/Receive for socket_recv and socket_recvfrom.
--   Connection: its addresses, with Connection/Profile for the profiles of the modem's stack,
--   Connection/Connect for connect and disconnect, Connection/Events for the constructor and the thread,
--   Connection/Others for the methods that ask nothing, and Connection/Calls for a program's sequence of
--   calls. The message handlers of the class are in Cellular/Callbacks.
-- - Narrowband: the driver of the SARA-N2xx modems, ublox-cellular-base-n2xx/UbloxCellularBaseN2xx.cpp,
--   with Narrowband/Power for power, set-up and registration; and, in Narrowband/Hex,
--   Narrowband/Datagrams, Narrowband/Packets and Narrowband/Connect, the hexadecimal text, the sockets
--   and the connection of ublox-at-cellular-interface-n2xx/UbloxATCellularInterfaceN2xx.cpp. What both
--   leave undone is in Narrowband/Others.
-- - Dialup: connect and disconnect of ublox-ppp-cellular-interface/UbloxPPPCellularInterface.cpp, with
--   Dialup/Others for its constructor, destructor and settings.
--
-- How code and model correspond: a method is a function of the same name in snake case. The nested
-- `if`s of a method are a `do` block, whose failure is the method's return of false; what was changed
-- before stays changed. `attempt` is a call whose result is looked at. A public getter that stores
-- through a pointer returns what it would store beside its result. The devices are not part of the
-- sources: the state holds functions from the trace of all that was asked so far to the answer, so a
-- theorem about every state is one about every behaviour of the device.
--
-- One record, Modem, has the data members of all five modem classes: an interface inherits those of its
-- base driver, and the two families have the same members but for a few. One dispatch has the message
-- handlers of both families; which of them a driver attaches is up to the messages that come.
-- A pointer to a socket is its index in the table. A buffer that a function fills is the list of the
-- bytes stored, and the free room is a number.
--
-- A message that the modem sends unasked runs its callback inside the receive in which it comes, so
-- callbacks and requests interleave wherever the parser lets them. Formats of send and recv are kept
-- as they are written; what a `%s` or `%d` scans is the field or the number that the modem gives, and
-- each sscanf format, the clock, malloc, the table of access points and the test for an IP address are
-- functions of the object, since none of them is read here. What a program's own callback does is not
-- read either: it is an event of the trace.
--
-- mbed client is not part of the sources either: what it makes and which callbacks it runs are functions
-- of what it was asked. A callback, or the user button's interrupt, comes when main asks for something,
-- waits, or reads a volatile variable. main is modelled with UbloxATCellularInterface as INTERFACE_CLASS.
--
-- The interfaces' thread handle_event holds the mutex during each of its rounds; a round is one of the
-- calls of Connection/Calls, so that it comes between any two others.
--
-- Bounds: the loops of writeExtendedData that wait for a flag recur on the rounds left of
-- CONFIG_UPDATE_LOOPS, 200, after which the code gives up too. The base driver's loops
-- recur on the rounds that the code allows: 20 to power up, 10 for the SIM card, 3 for the IMSI and 180
-- to register. A send recurs on the bytes that are left. The receives and the loop over the access
-- points end by what the clock and the table say, and have a number of rounds; `none` says that it did
-- not suffice, and for the receives of UbloxATCellularInterface.cpp and the socket_sendto of the other
-- interface a theorem says when it does. The loops of main and batteryPercentage end by the button and
-- by the chip; main's result is false if some number of rounds did not suffice.
--
-- Left out: debug output and debug_on; printf; the inline getters, and get_stack and the addresses of the
-- PPP interface, which only ask the PPP stack; the callback of
-- TempResource, which only prints; the blocks that a failed call forgets to free; the terminator that a
-- scan of NSAPI_IP_SIZE characters writes behind its buffer; and the content of a caller's buffer after a
-- function has failed. CEREG_URC of the N2xx driver scans two texts of any length into arrays of four
-- characters: the trace notes each write behind one of them, and what it destroys is left out. The use
-- of the random seed before it is set, which C++ leaves undefined, is noted there too, and any number is
-- used. The PPP stack is not read here and is a function of the trace. Plain `char` is
-- taken to be unsigned, as it is on the ARM target.
pub mod Prelude
pub mod Act
pub mod Application
pub mod Gauge
pub mod Cellular
pub mod Sockets
pub mod Connection
pub mod Narrowband
pub mod Dialup
