-- ===== src/Application/Client.antt =====
-- The class MbedClient of simpleclient.h: its constructor and destructor, and the methods that ask
-- something of mbed client. SOCKET_MODE is UDP_QUEUE and NETWORK_STACK is LwIP_IPv4.
use Prim.Native.String.{String}
use example_ublox_mbed_clien.Prelude.{Bool, false, true, Option, List, pos, if◌then◌else◌}
use example_ublox_mbed_clien.Act.{Act, pure, gets, modify, ◌>>=◌, ◌>>◌}
use example_ublox_mbed_clien.Application.{
  Device, Object, words, macro, MbedClient, Board, set_client, ask, ask_for, dereference,
  create_interface, set_platform_network_handler, create_security, set_security_value,
  register_object, unregister_object, update_registration, delete_interface, delete_security, look,
}

-- The constructor.
abbrev pub new_client : Device → MbedClient
new_client about = record {
  interface = false;
  register_security = false;
  bootstrapped = false;
  has_error = false;
  registered = false;
  unregistered = false;
  value = pos 0;
  about = about;
  server_address = "";
}

-- `if (pointer) { … }`
abbrev pub when_there : Bool → Act Board Unit → Act Board Unit
when_there there body = if there then body else pure tt

-- The destructor.
unfoldable pub delete_client : Act Board Unit
unfolding ask
delete_client = do
  there ← gets (λ b. b.client.interface)
  when_there there (ask delete_interface)
  security ← gets (λ b. b.client.register_security)
  when_there security (ask delete_security)

unfoldable pub create_client_interface : String → Act Board Unit
unfolding ask ask_for
create_client_interface server_address = do
  modify (set_client (λ c. record c { server_address = server_address }))
  there ← ask_for (create_interface "" 100 0)
  modify (set_client (λ c. record c { interface = there }))
  when_there there (ask set_platform_network_handler)

-- A read of the volatile flag.
unfoldable pub register_successful : Act Board Bool
unfolding ask
register_successful = do ask look; gets (λ b. b.client.registered)

unfoldable pub unregister_successful : Act Board Bool
unfolding ask
unregister_successful = do ask look; gets (λ b. b.client.unregistered)

-- The pointer to the security object, null or not.
unfoldable pub create_register_object : Act Board Bool
unfolding ask ask_for
create_register_object = do
  security ← ask_for create_security
  address ← gets (λ b. b.client.server_address)
  when_there security (do
    ask (set_security_value "M2MServerUri" (words address))
    ask (set_security_value "SecurityMode" (macro "Certificate"))
    ask (set_security_value "ServerPublicKey" (macro "SERVER_CERT"))
    ask (set_security_value "PublicKey" (macro "CERT"))
    ask (set_security_value "Secretkey" (macro "KEY")))
  pure security

unfoldable pub test_register : Bool → List (Option Object) → Act Board Unit
unfolding ask
test_register register_object_there objects = do
  there ← gets (λ b. b.client.interface)
  when_there there (ask (register_object register_object_there objects))

unfoldable pub test_unregister : Act Board Unit
unfolding ask
test_unregister = do
  there ← gets (λ b. b.client.interface)
  when_there there (ask unregister_object)

-- It looks at the flag, and not at the pointer that it uses.
unfoldable pub test_update_register : Act Board Unit
unfolding ask dereference
test_update_register = do
  ask look
  c ← gets (λ b. b.client)
  when_there c.registered
      (do dereference c.interface; ask (update_registration c.register_security 100))

-- Only the first object is kept.
unfoldable pub set_register_object : Bool → Act Board Unit
set_register_object there =
    modify (
      set_client
        (λ c. record c { register_security = if c.register_security then true else there }))
