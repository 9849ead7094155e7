-- ===== src/Dialup/Ok.antt =====
-- What the loop of connect in UbloxPPPCellularInterface.cpp says of the connection.
use example_ublox_mbed_clien.Prelude.{
  ◌≡◌, ◌⊎◌, true, false, Option, some, none, List, ◌∷◌, ℤ, pos, ◌==ℤ◌,
}
use example_ublox_mbed_clien.Act.{Outcome, done, failed, fault, ◌>>◌}
use example_ublox_mbed_clien.Act.Safe.{Safe}
use example_ublox_mbed_clien.Act.Splits.{Splits}
use example_ublox_mbed_clien.Cellular.{Modem, Event, ppp_connect}
use example_ublox_mbed_clien.Sockets.{NsapiError, ok}

-- The object knows of no connection.
abbrev pub IsDown : Modem → Type 0
IsDown m = m.iface.ppp_up ≡ false

-- The last thing that was asked for is a connection, and the PPP stack has answered with success.
abbrev pub IsConfirmed : Modem → Type 0
IsConfirmed m =
    ((t : List Event) × (m.trace ≡ ppp_connect ∷ t))
    × ((m.mbed.ppp_result m.trace ==ℤ pos 0) ≡ true)

-- After a try with this error: no connection, or one that is confirmed, and no error.
abbrev pub IsTried : NsapiError → Modem → Type 0
IsTried e m = IsDown m ⊎ ((e ≡ ok) × (m.iface.ppp_up ≡ true) × IsConfirmed m)

-- What the PPP stack has said of a connection that was asked for last.
abbrev IsAsked : Modem → Type 0
IsAsked m = (t : List Event) × (m.trace ≡ ppp_connect ∷ t)

abbrev HasSaid : ℤ → Modem → Type 0
HasSaid r m = (m.mbed.ppp_result m.trace ≡ r) × IsAsked m

abbrev HasNoted : ℤ → Modem → Type 0
HasNoted r m = (m.iface.ppp_up ≡ (r ==ℤ pos 0)) × HasSaid r m

-- What the loop leaves: without a result there is no connection.
abbrev pub IsLooped : Option NsapiError → Modem → Type 0
IsLooped none m = IsDown m
IsLooped (some e) m = IsTried e m

-- A call that returns, in such a state.
abbrev pub HasLooped : Outcome (Option NsapiError) × Modem → Type 0
HasLooped (done o, m) = IsLooped o m
HasLooped (failed, m) = ⊥
HasLooped (fault, m) = ⊥
