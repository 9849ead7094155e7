-- ===== src/Application/Discipline/Objects.antt =====
-- The objects of main.cpp and simpleclient.h are made without a null pointer, if there is memory.
use example_ublox_mbed_clien.Prelude.{◌≡◌, refl, Bool, true, false, is_some}
use Prim.Native.String.{String}
use example_ublox_mbed_clien.Act.Safe.{Safe, Safe-bind, Safe-pure, Safe-gets, Safe-if}
use example_ublox_mbed_clien.Act.Hands.{Hands, Hands-Safe, Hands-bind, Hands-then, Hands-pure}
use example_ublox_mbed_clien.Cellular.{Modem}
use example_ublox_mbed_clien.Application.{Event, Object, Value}
use example_ublox_mbed_clien.Application.Objects.{
  add_resource, chain, pointer, led_resource, temp_resource, create_device_object,
  create_firmware_object, create_server_object,
}
use example_ublox_mbed_clien.Application.Discipline.{
  Sound, is_plain, is_factory, Safe-ask, Hands-ask_for, Safe-dereference, board_rules,
}

pointer_there : (there : Bool) (o : Object) → there ≡ true → is_some (pointer there o) ≡ true
pointer_there true o h = refl
pointer_there false o h = h

module _ {early : Bool} {P : Modem → Type 0} where
  Hands-chain :
      (there : Bool) (e : Event)
      → there ≡ true
      → is_plain e ≡ true
      → is_factory e ≡ true
      → Hands (Sound early P) (λ made. made ≡ true) (chain there e)
  Hands-chain there e h plain made =
      Hands-then _ _ (Safe-dereference there h) (λ _. Hands-ask_for e plain made)

  Safe-add_resource :
      (o : Object) (there : Bool) (name type kind : String) (v : Value)
      → there ≡ true
      → Safe (Sound early P) (add_resource o there name type kind v)
  unfolding add_resource
  Safe-add_resource o there name type kind v h =
      Hands-Safe _ _ (Hands-chain there _ h refl refl) (λ resource made.
        Safe-bind _ _ (Safe-dereference resource made) (λ _.
          Safe-bind _ _ (Safe-ask _ refl)
            (λ _. Safe-bind _ _ (Safe-ask _ refl) (λ _. Safe-pure resource))))

  pub Safe-led_resource : Safe (Sound early P) led_resource
  unfolding led_resource
  Safe-led_resource = Hands-Safe _ _ (Hands-ask_for _ refl refl) (λ there made.
      Hands-Safe _ _ (Hands-chain there _ made refl refl) (λ instance_ h.
        Safe-bind _ _ (Safe-add_resource _ instance_ _ _ _ _ h)
          (λ _. Safe-bind _ _ (Safe-add_resource _ instance_ _ _ _ _ h) (λ _. Safe-pure _))))

  pub Safe-temp_resource : Safe (Sound early P) temp_resource
  unfolding temp_resource
  Safe-temp_resource = Hands-Safe _ _ (Hands-ask_for _ refl refl) (λ there made.
      Hands-Safe _ _ (Hands-chain there _ made refl refl) (λ instance_ h.
        Safe-bind _ _ (Safe-add_resource _ instance_ _ _ _ _ h) (λ _.
          Safe-bind _ _ (Safe-ask _ refl)
            (λ _. Safe-bind _ _ (Safe-ask _ refl) (λ _. Safe-pure _)))))

  -- The pointer is not null.
  pub Hands-create_device_object :
      Hands (Sound early P) (λ o. is_some o ≡ true) create_device_object
  unfolding create_device_object
  Hands-create_device_object = Hands-bind _ _ (Hands-ask_for _ refl refl) (λ there made.
      Hands-then _ _ (Safe-gets _) (λ about.
        Hands-then _ _ (Safe-if there _ _ (search board_rules depth 16) (Safe-pure tt))
          (λ _. Hands-pure _ (pointer_there there _ made))))

  pub Safe-create_firmware_object : Safe (Sound early P) create_firmware_object
  unfolding create_firmware_object
  Safe-create_firmware_object = search board_rules depth 16

  pub Safe-create_server_object : Safe (Sound early P) create_server_object
  unfolding create_server_object
  Safe-create_server_object = search board_rules depth 16
