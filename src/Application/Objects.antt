-- ===== src/Application/Objects.antt =====
-- The objects of the device: create_device_object, create_firmware_object and create_server_object of
-- simpleclient.h, and LedResource and TempResource of main.cpp.
use Prim.Native.String.{String}
use example_ublox_mbed_clien.Prelude.{Bool, true, false, Option, none, some, pos, if◌then◌else◌}
use example_ublox_mbed_clien.Act.{Act, pure, gets, ◌>>=◌, ◌>>◌}
use example_ublox_mbed_clien.Application.{
  Event, Object, device, firmware, server, led, temperature, Value, words, int, flag, Board, ask,
  ask_for, dereference, create_device, create_firmware, create_server, create_object,
  create_object_instance, create_dynamic_resource, create_resource, set_operation,
  set_resource_value, set_execute_function, set_delayed_response,
}
use example_ublox_mbed_clien.Application.Client.{when_there}

-- `none` is the null pointer.
abbrev pub pointer : Bool → Object → Option Object
pointer there object = if there then some object else none

unfoldable pub create_device_object : Act Board (Option Object)
unfolding ask ask_for
create_device_object = do
  there ← ask_for create_device
  about ← gets (λ b. b.client.about)
  when_there there (do
    ask (create_resource device "Manufacturer" (words about.manufacturer))
    ask (create_resource device "DeviceType" (words about.type))
    ask (create_resource device "ModelNumber" (words about.model_number))
    ask (create_resource device "SerialNumber" (words about.serial_number))
    ask (create_resource device "HardwareVersion" (words about.hardware_version))
    ask (create_resource device "FirmwareVersion" (words about.firmware_version))
    ask (create_resource device "SoftwareVersion" (words about.software_version))
    ask (create_resource device "BatteryLevel" (int about.battery_level))
    ask (create_resource device "BatteryStatus" (int about.battery_status))
    ask (create_resource device "MemoryFree" (int about.memory_free))
    ask (create_resource device "MemoryTotal" (int about.memory_total)))
  pure (pointer there device)

unfoldable pub create_firmware_object : Act Board (Option Object)
unfolding ask ask_for
create_firmware_object = do
  there ← ask_for create_firmware
  when_there there (do
    ask (create_resource firmware "PackageName" (words "PackageName"))
    ask (create_resource firmware "PackageVersion" (words "PackageVersion")))
  pure (pointer there firmware)

unfoldable pub create_server_object : Act Board (Option Object)
unfolding ask ask_for
create_server_object = do
  there ← ask_for create_server
  when_there there (do
    ask (create_resource server "ShortServerID" (int (pos 12)))
    ask (create_resource server "Lifetime" (int (pos 100))))
  pure (pointer there server)

-- `pointer->…`: a call on an object that has just been asked for, and the pointer that it returns.
abbrev pub chain : Bool → Event → Act Board Bool
chain there e = do dereference there; ask_for e

-- An observable resource that a server may read and write, with its value.
unfoldable pub add_resource : Object → Bool → String → String → String → Value → Act Board Bool
unfolding ask ask_for dereference
add_resource object instance_ name type kind value = do
  resource ← chain instance_ (create_dynamic_resource object name type kind true)
  dereference resource
  ask (set_operation object name "GET_PUT_POST_ALLOWED")
  ask (set_resource_value object name value)
  pure resource

-- The constructor of LedResource: the pointer to its object.
unfoldable pub led_resource : Act Board (Option Object)
unfolding ask ask_for dereference add_resource
led_resource = do
  there ← ask_for (create_object "3311")
  instance_ ← chain there (create_object_instance led)
  add_resource led instance_ "5850" "On/Off" "BOOLEAN" (flag false)
  add_resource led instance_ "5851" "Dimmer" "BOOLEAN" (flag false)
  pure (pointer there led)

-- The constructor of TempResource.
unfoldable pub temp_resource : Act Board (Option Object)
unfolding ask ask_for dereference add_resource
temp_resource = do
  there ← ask_for (create_object "3303")
  instance_ ← chain there (create_object_instance temperature)
  add_resource temperature instance_ "5700" "Temperature" "STRING" (words "20.5")
  ask (set_execute_function temperature "5700")
  ask (set_delayed_response temperature "5700" true)
  pure (pointer there temperature)
