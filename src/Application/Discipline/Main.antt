-- ===== src/Application/Discipline/Main.antt =====
-- main of main.cpp keeps the rules of the drivers and of mbed client.
use example_ublox_mbed_clien.Prelude.{
  ℕ, zero, suc, ◌≡◌, refl, Bool, true, false, Option, some, none, List, [], ℤ, arith, is_some,
  codes, if◌then◌else◌,
}
use example_ublox_mbed_clien.Act.{Outcome, done, failed, fault, Act, pure, modify, ◌>>◌}
use example_ublox_mbed_clien.Act.Safe.{
  Moves, Safe, IsDefined, Safe-bind, Safe-pure, Safe-if, Safe-gets, Moves-modify, Moves-weaken,
  Moves-bind,
}
use example_ublox_mbed_clien.Act.Hands.{Hands-Safe}
use example_ublox_mbed_clien.Cellular.Discipline.{Steady, Tuned, IsGuarded, held}
use example_ublox_mbed_clien.Cellular.Discipline.Start.{
  Known, Known-Steady, Known-fresh, first_init,
}
use example_ublox_mbed_clien.Cellular.Discipline.Procedures.{Safe-deinit}
use example_ublox_mbed_clien.Sockets.{NsapiError}
use example_ublox_mbed_clien.Connection.{set_credentials}
use example_ublox_mbed_clien.Connection.Calls.Discipline.{Safe-connect, Safe-disconnect}
use example_ublox_mbed_clien.Cellular.Power.{new_modem, base_class_init}
use example_ublox_mbed_clien.Connection.Events.{new_interface}
use example_ublox_mbed_clien.Gauge.Discipline.{IsIdle}
use example_ublox_mbed_clien.Act.Splits.{
  Either, Splits, Splits-bind, Splits-then, Splits-modify, Splits-weaken, Splits-Moves,
}
use example_ublox_mbed_clien.Application.{Object, Board, led_off}
use example_ublox_mbed_clien.Application.Main.{
  Setting, send_values, keep_registered, end_round, after_connect, main_round, main_loop, stop,
  serve, set_up, main, is_ok,
}
use example_ublox_mbed_clien.Application.Discipline.{
  Sound, IsHonest, HasMemory, Splits-on_modem, Safe-ask, Safe-led_on, Safe-led_off, Moves-on_modem,
  Safe-on_gauge, Safe-dereference,
}
use example_ublox_mbed_clien.Application.Discipline.Battery.{Safe-battery_percentage}
use example_ublox_mbed_clien.Application.Discipline.Objects.{
  Safe-led_resource, Safe-temp_resource, Hands-create_device_object, Safe-create_firmware_object,
  Safe-create_server_object,
}
use example_ublox_mbed_clien.Application.Discipline.Client.{
  Safe-register_successful, Safe-create_register_object, Safe-test_unregister, Safe-memory_free,
  Safe-set_register_object, Safe-create_client_interface, Sound_late, Safe-test_register,
  Safe-test_update_register,
}

-- In the loop.
abbrev Serving : ℕ → Board → Type 0
Serving t = Sound false (Steady t 0)

module _ {t : ℕ} where
  Safe-send_values :
      (o : Option Object) (v : Option ℤ) → is_some o ≡ true → Safe (Serving t) (send_values o v)
  unfolding send_values
  Safe-send_values o none h = Safe-pure false
  Safe-send_values o (some v) h = Safe-bind _ _ (Safe-dereference _ h) (λ _.
      Safe-bind _ _ (Safe-ask _ refl) (λ _. Safe-bind _ _ Safe-memory_free (λ free.
        Safe-bind _ _ (Safe-dereference _ h) (λ _.
          Safe-bind _ _ (Safe-ask _ refl)
            (λ _. Safe-bind _ _ Safe-test_update_register (λ _. Safe-pure true))))))

  Safe-keep_registered :
      (s : Setting) (o : Option Object) (security : Bool) (os : List (Option Object))
      → is_some o ≡ true
      → Safe (Serving t) (keep_registered s o security os)
  unfolding keep_registered
  Safe-keep_registered s o security os h = Safe-bind _ _ Safe-register_successful (λ registered.
      Safe-if registered _ _
        (Safe-bind _ _ (Safe-on_gauge _ (Safe-battery_percentage s.on_c030 s.battery_rounds))
          (λ v. Safe-send_values o v h))
        (Safe-bind _ _ (Safe-test_register security os) (λ _. Safe-pure true)))

  Safe-end_round : (went : Bool) → Safe (Serving t) (end_round went)
  Safe-end_round false = Safe-pure false
  Safe-end_round true =
      Safe-bind _ _ Safe-led_off (λ _. Safe-bind _ _ (Safe-ask _ refl) (λ _. Safe-pure true))

  Safe-after_connect :
      (o : Option NsapiError) (connected : Act Board Bool)
      → Safe (Serving t) connected
      → Safe (Serving t) (after_connect o connected)
  unfolding after_connect
  Safe-after_connect none connected k = Safe-pure false
  Safe-after_connect (some e) connected k =
      Safe-bind _ _ (Safe-if (is_ok e) _ _ k (Safe-bind _ _ Safe-led_off (λ _. Safe-pure true)))
        Safe-end_round

  Safe-main_round :
      (s : Setting) (o : Option Object) (security : Bool) (os : List (Option Object))
      → is_some o ≡ true
      → Safe (Serving t) (main_round s o security os)
  unfolding main_round
  Safe-main_round s o security os h = Safe-bind _ _ Safe-led_on (λ _.
      Safe-bind _ _ (Moves-on_modem _ (Safe-connect s.apn_rounds))
        (λ e. Safe-after_connect e _ (Safe-keep_registered s o security os h)))

  Safe-main_loop :
      (round : Act Board Bool) (rounds : ℕ)
      → Safe (Serving t) round
      → Safe (Serving t) (main_loop round rounds)
  unfolding main_loop
  Safe-main_loop round zero k = Safe-pure false
  Safe-main_loop round (suc rounds) k = Safe-bind _ _ (Safe-ask _ refl) (λ _.
      Safe-bind _ _ (Safe-gets _) (λ pressed. Safe-if pressed _ _ (Safe-pure true) (
        Safe-bind _ _ k
          (λ went. Safe-if went _ _ (Safe-main_loop round rounds k) (Safe-pure false)))))

  Safe-stop : Safe (Serving t) stop
  unfolding stop
  Safe-stop = Safe-bind _ _ (Safe-ask _ refl) (λ _. Safe-bind _ _ Safe-test_unregister (λ _.
      Safe-bind _ _ (Moves-on_modem _ Safe-disconnect) (λ _.
        Safe-bind _ _ (Moves-on_modem _ Safe-deinit)
          (λ _. Safe-bind _ _ Safe-led_off (λ _. Safe-ask _ refl)))))

  Safe-set_credentials : Safe (Steady t 0) (set_credentials none none none)
  unfolding set_credentials
  Safe-set_credentials = Moves-modify _ (λ m h. ground arith)

  Moves-serve :
      (s : Setting) (led_object temp_object : Option Object)
      → Moves (Sound true (Steady t 0)) (Serving t) (serve s led_object temp_object)
  unfolding serve
  Moves-serve s led_object temp_object =
      Moves-bind _ _
        (Moves-weaken _ (λ b h. Sound_late b (λ m k. k) h) (Safe-create_client_interface _))
        (λ _. Safe-bind _ _ Safe-create_register_object (λ security.
          Hands-Safe _ _ Hands-create_device_object (λ o there.
            Safe-bind _ _ Safe-create_firmware_object (λ f.
              Safe-bind _ _ Safe-create_server_object (λ v.
                Safe-bind _ _ (Safe-set_register_object security) (λ _.
                  Safe-bind _ _ (Moves-on_modem _ Safe-set_credentials) (λ _.
                    Safe-bind _ _
                      (Safe-main_loop _ s.loop_rounds (Safe-main_round s o security _ there))
                      (λ ended.
                        Safe-if ended _ _ (Safe-bind _ _ Safe-stop (λ _. Safe-pure true))
                          (Safe-pure false)))))))))

-- Before main: the mutexes of both drivers are free, and mbed client was asked for nothing.
pub record IsReset (b : Board) : Type 0 where
  pub guarded : IsGuarded b.modem.trace
  pub free : held b.modem.trace ≡ 0
  pub gauge : IsIdle 0 b.gauge
  pub silent : b.trace ≡ []
  pub honest : IsHonest b.arrivals
  pub memory : HasMemory b.makes

set_up-Sound : (baud : ℕ) (b : Board) → IsReset b → Sound true (Tuned false 8000 0) (set_up baud b)
unfolding new_interface new_modem base_class_init
set_up-Sound baud b h = record {
  modem = record {
    parser = refl;
    timeout = refl;
    pinned = refl;
    unused = refl;
    table = refl;
    guarded = h.guarded;
    depth = h.free;
  };
  gauge = h.gauge;
  known = refl;
  asked = rw h.silent refl;
  exclusive = refl;
  unasked = rw h.silent refl;
  ordered = rw h.silent tt;
  honest = h.honest;
  memory = h.memory;
}

-- When main ends, and in its loops: as Sound says, and the modem has its PIN if it is initialised.
abbrev pub Ended : Board → Type 0
Ended = Sound false (Known 8000 0)

abbrev Started : Board → Type 0
Started = Sound true (Tuned false 8000 0)

Started-late : (b : Board) → Started b → Ended b
Started-late b h = Sound_late b Known-fresh h

last_part :
    (s : Setting) (ready : Bool) (led_object temp_object : Option Object)
    → Splits
        (Sound true (Tuned ready 8000 0))
        (λ _. Ended)
        Ended
        (if ready then serve s led_object temp_object else (do modify led_off; pure true))
last_part s true led_object temp_object = Splits-Moves _ (
    Moves-weaken {Q = Serving 8000} _ (λ b h. Sound_late b Known-Steady h)
      (Moves-serve s led_object temp_object))
last_part s false led_object temp_object =
    Splits-Moves _
      (Moves-weaken {Q = Started} _ Started-late (Safe-bind _ _ Safe-led_off (λ _. Safe-pure true)))

main-Splits : (s : Setting) → Splits IsReset (λ _. Ended) Ended (main s)
unfolding main
main-Splits s = Splits-bind {V = λ _. Started} _ _ (Splits-modify _ (set_up-Sound s.baud)) (λ _.
    Splits-then _ _ Started-late Safe-led_resource (λ led_object.
      Splits-then _ _ Started-late Safe-temp_resource (λ temp_object.
        Splits-then _ _ Started-late (Safe-ask _ refl) (λ _.
          Splits-then _ _ Started-late (Safe-ask _ refl) (λ _.
            Splits-then _ _ Started-late (Safe-ask _ refl) (λ _.
              Splits-then _ _ Started-late (Safe-ask _ refl) (λ _.
                Splits-bind _ _
                  (Splits-weaken _ (λ b h. Sound_late b (λ m k. k) h)
                    (Splits-on_modem _ (first_init (codes "0000"))))
                  (λ ready. last_part s ready led_object temp_object))))))))

Either-IsDefined :
    {A : Type 0} (r : Outcome A) (b : Board) → Either (λ _. Ended) Ended r b → IsDefined r × Ended b
Either-IsDefined (done a) b h = (tt, h)
Either-IsDefined failed b h = (tt, h)
Either-IsDefined fault b h = absurd h

-- For every modem, gauge chip, clock and press of the button, every sequence of callbacks in which
-- mbed client reports a registration only after it was asked for one, memory for the objects that
-- main uses without a look at the pointer, and every value of the seed: main, from the constructors of
-- its objects on, uses no null pointer and fails no assertion, in any number of rounds of its loops,
-- where neither the use of the seed before it is set nor the terminator that a scan of an address may
-- write behind its array is a part of the statement; both drivers use their devices under their mutexes only and leave these free;
-- the AT parser's timeout is put back; a modem that is initialised has its PIN; an update of the
-- registration is asked for only after a registration; and a client that is registered has an
-- interface and is not unregistered.
pub main-Ended : (s : Setting) (b : Board) → IsReset b → IsDefined (main s b).0 × Ended (main s b).1
main-Ended s b h = Either-IsDefined (main s b).0 (main s b).1 ((main-Splits s).out b h)
