-- ===== src/Application/Tests.antt =====
-- The theorems about main.cpp and simpleclient.h at concrete inputs.
use example_ublox_mbed_clien.Prelude.{
  ◌≡◌, refl, Bool, true, false, not, ◌==◌, none, List, [], ◌∷◌, pos, codes, arith,
}
use example_ublox_mbed_clien.Act.{done}
use example_ublox_mbed_clien.Act.Safe.{IsDefined}
use example_ublox_mbed_clien.Cellular.{Modem, creg}
use example_ublox_mbed_clien.Cellular.Samples.{modem_saying}
use example_ublox_mbed_clien.Gauge.{Gauge, Event as BusEvent, i2c_write}
use example_ublox_mbed_clien.Application.{
  Event, Arrival, Board, register_object, update_registration, thread_wait, look, object_registered,
  object_unregistered, registration_updated, button, arrive_all,
}
use example_ublox_mbed_clien.Application.Battery.{battery_loop}
use example_ublox_mbed_clien.Application.Battery.Endless.{battery_loop-endless}
use example_ublox_mbed_clien.Application.Callbacks.{
  Standing, unknown, Reaches, Stands, arrive_all-Reaches,
}
use example_ublox_mbed_clien.Application.Client.{new_client}
use example_ublox_mbed_clien.Application.Main.{Setting, main, this_device}
use example_ublox_mbed_clien.Application.Discipline.{has_asked, announces}
use example_ublox_mbed_clien.Application.Discipline.Main.{Ended, main-Ended}

-- A chip that acknowledges everything but the command for the charge; every byte is 9.
abbrev accepts : List BusEvent → Bool
accepts (i2c_write a (r ∷ []) false ∷ t) = not (r == 0x1c)
accepts t = true

abbrev mute_gauge : Gauge
mute_gauge = record {
  i2c = true;
  address = 0xaa;
  seal_code = 0x8000;
  ready = true;
  gauge_on = true;
  ack = accepts;
  byte = λ t i. 9;
  trace = [];
}

battery_loop-endless_example : (battery_loop 1000 mute_gauge).0 ≡ done none
battery_loop-endless_example = battery_loop-endless 1000 mute_gauge (record {
  ready = refl;
  present = refl;
  on = refl;
  asked = λ t. refl;
  told = λ t. refl;
  battery = λ t. refl;
  refused = λ t. refl;
})

-- mbed client registers at once, and the button is pressed in the wait after the first update.
abbrev answers : List Event → List Arrival
answers (register_object there objects ∷ t) = object_registered ∷ []
answers (look ∷ thread_wait n ∷ update_registration there lifetime ∷ t) = button ∷ []
answers t = []

-- A modem whose SIM card is ready, which reports a registration in every wait, and whose profile is
-- active.
abbrev ready_modem : Modem
ready_modem = record (modem_saying (codes "READY") (creg (codes ": 0,1\r\n") ∷ [])) {
  number = λ t. pos 1;
}

abbrev board : Board
board = record {
  modem = ready_modem;
  gauge = mute_gauge;
  client = new_client this_device;
  leds = record { red = true; green = true; blue = true };
  button_pressed = false;
  makes = λ t. true;
  arrivals = answers;
  heap = λ t. 150000;
  trace = [];
}

abbrev setting : Setting
setting = record {
  on_c030 = true;
  seed = 0;
  baud = 9600;
  apn_rounds = 2;
  battery_rounds = 2;
  loop_rounds = 3;
}

answers-IsHonest : (t : List Event) → announces (answers t) ≡ true → has_asked t ≡ true
answers-IsHonest (register_object there objects ∷ t) h = refl
answers-IsHonest _ h = ground arith

main-Ended_example : IsDefined (main setting board).0 × Ended (main setting board).1
main-Ended_example = main-Ended setting board (record {
  guarded = tt;
  free = refl;
  gauge = record { guarded = tt; depth = refl };
  silent = refl;
  honest = answers-IsHonest;
  memory = λ e t h. refl;
})

-- A registration, an update, and the end of it.
abbrev reports : List Arrival
reports = object_registered ∷ registration_updated ∷ object_unregistered ∷ []

arrive_all-Reaches_example :
    (t : Standing) × Reaches unknown reports t × Stands t (arrive_all reports board).client
arrive_all-Reaches_example =
    arrive_all-Reaches reports unknown board (record { in_ = refl; out = refl })
