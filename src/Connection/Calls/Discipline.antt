-- ===== src/Connection/Calls/Discipline.antt =====
-- The rules for the AT parser in any sequence of calls of UbloxATCellularInterface.cpp.
use example_ublox_mbed_clien.Prelude.{
  ℕ, zero, suc, Bool, true, false, Option, some, none, List, [], ◌∷◌, arith,
}
use example_ublox_mbed_clien.Act.{Act}
use example_ublox_mbed_clien.Act.Safe.{
  Safe, IsDefined, Safe-bind, Safe-pure, Safe-if, Moves-attempt, Moves-modify, Moves-gets,
}
use example_ublox_mbed_clien.Cellular.{Modem}
use example_ublox_mbed_clien.Act.Runs.{Runs-bind, Runs-attempt, Runs-Moves}
use example_ublox_mbed_clien.Cellular.Sim
use example_ublox_mbed_clien.Connection.Events
use example_ublox_mbed_clien.Connection.Others
use example_ublox_mbed_clien.Cellular.Discipline.{
  Steady, at_rules, Safe-with_lock, Safe-recv, at_set_timeout-Runs,
}
use example_ublox_mbed_clien.Cellular.Discipline.Procedures.{
  Safe-keep_pin, Safe-init, Safe-deinit, Safe-nwk_registration, Safe-nwk_deregistration,
  Safe-sim_pin_check_enable, Safe-change_sim_pin,
}
use example_ublox_mbed_clien.Sockets.Send
use example_ublox_mbed_clien.Sockets.Send.{peer, address}
use example_ublox_mbed_clien.Sockets.Receive
use example_ublox_mbed_clien.Sockets.Receive.{stream, datagram}
use example_ublox_mbed_clien.Sockets.Discipline.{
  Safe-socket_open, Safe-socket_close, Safe-socket_bind, Safe-socket_connect, Safe-socket_attach,
  Safe-send_all,
}
use example_ublox_mbed_clien.Connection
use example_ublox_mbed_clien.Connection.{set_iface}
use example_ublox_mbed_clien.Connection.Connect
use example_ublox_mbed_clien.Connection.Connect.{
  register_loop, prepare, check_change, pin_change, keep_user, keep_apn, change_now,
}
use example_ublox_mbed_clien.Sockets.Receive.Discipline.{Safe-receive_all}
use example_ublox_mbed_clien.Connection.Discipline.{
  Safe-set_check_pending, Safe-set_pin_pending, Safe-get_ip_address, Safe-is_connected,
  Safe-disconnect_modem_stack, Safe-gethostbyname, Safe-connect_modem_stack,
}
use example_ublox_mbed_clien.Connection.Calls.{
  Call, socket_open, socket_close, socket_bind, socket_connect, socket_send, socket_sendto,
  socket_recv, socket_recvfrom, socket_attach, set_authentication, set_credentials, gethostbyname,
  connect_with, connect, disconnect, is_connected, get_ip_address, set_sim_pin_check,
  set_new_sim_pin, set_sim_pin, connection_status_cb, get_netmask, get_gateway, socket_listen,
  socket_accept, setsockopt, getsockopt, init, deinit, handle_event, run_call, run_calls, UsesTable,
  without_result,
}

module _ {t n : ℕ} where
  Safe-without_result :
      {A : Type 0} (call : Act Modem A)
      → Safe (Steady t n) call
      → Safe (Steady t n) (without_result call)
  Safe-without_result call k = Safe-bind _ _ k (λ _. Safe-pure tt)

  Safe-check_change : Safe (Steady t n) check_change
  Safe-check_change = search (at_rules, Safe-sim_pin_check_enable, Safe-set_check_pending) depth 12

  Safe-pin_change : Safe (Steady t n) pin_change
  Safe-pin_change = search (at_rules, Safe-change_sim_pin, Safe-set_pin_pending) depth 12

  Safe-register_loop : (tries : ℕ) → Safe (Steady t n) (register_loop tries)
  unfolding register_loop
  Safe-register_loop zero = Safe-pure false
  Safe-register_loop (suc tries) =
      Safe-bind _ _ Safe-nwk_registration
        (λ registered. Safe-if _ _ _ (Safe-pure true) (Safe-register_loop tries))

  Safe-prepare : Safe (Steady t n) prepare
  unfolding prepare
  Safe-prepare =
      search (at_rules, Safe-init, Safe-check_change, Safe-pin_change, Safe-register_loop) depth 16

  pub Safe-connect : (rounds : ℕ) → Safe (Steady t n) (Connect.connect rounds)
  unfolding Connect.connect
  Safe-connect rounds = Safe-bind _ _ Safe-prepare (λ p.
      Safe-if _ _ _ (Safe-bind _ _ (Safe-connect_modem_stack rounds) (λ _. Safe-pure _))
        (Safe-pure _))

  pub Safe-keep_user : (uname pwd : Option (List ℕ)) → Safe (Steady t n) (keep_user uname pwd)
  Safe-keep_user (some u) (some p) = Moves-modify _ (λ m h. ground arith)
  Safe-keep_user (some u) none = Moves-modify _ (λ m h. ground arith)
  Safe-keep_user none p = Moves-modify _ (λ m h. ground arith)

  pub Safe-keep_apn : (apn : Option (List ℕ)) → Safe (Steady t n) (keep_apn apn)
  Safe-keep_apn none = Safe-pure tt
  Safe-keep_apn (some apn) = Moves-modify _ (λ m h. ground arith)

  Safe-connect_with :
      (rounds : ℕ) (pin apn uname pwd : Option (List ℕ))
      → Safe (Steady t n) (Connect.connect_with rounds pin apn uname pwd)
  unfolding Connect.connect_with
  Safe-connect_with rounds pin apn uname pwd =
      search (at_rules, Safe-keep_pin, Safe-keep_apn, Safe-keep_user, Safe-connect) depth 12

  pub Safe-disconnect : Safe (Steady t n) Connect.disconnect
  unfolding Connect.disconnect
  Safe-disconnect = search (at_rules, Safe-disconnect_modem_stack, Safe-nwk_deregistration) depth 12

  Safe-change_now :
      (change : Act Modem Unit) → Safe (Steady t n) change → Safe (Steady t n) (change_now change)
  Safe-change_now change k =
      Safe-bind _ _ (Safe-init none) (λ ready.
        Safe-if _ _ _ (Safe-bind _ _ (Moves-attempt _ k) (λ _. Safe-pure _)) (Safe-pure _))

  Safe-set_sim_pin_check :
      (enable immediate : Bool) (pin : Option (List ℕ))
      → Safe (Steady t n) (Connect.set_sim_pin_check enable immediate pin)
  unfolding Connect.set_sim_pin_check
  Safe-set_sim_pin_check enable immediate pin = Safe-bind _ _ (Safe-keep_pin pin) (λ _.
      Safe-if _ _ _ (Safe-change_now _ (Safe-sim_pin_check_enable enable))
        (Safe-bind _ _ (Moves-modify _ (λ m h. ground arith)) (λ _. Safe-pure _)))

  Safe-set_new_sim_pin :
      (new_pin : Option (List ℕ)) (immediate : Bool) (pin : Option (List ℕ))
      → Safe (Steady t n) (Connect.set_new_sim_pin new_pin immediate pin)
  unfolding Connect.set_new_sim_pin
  Safe-set_new_sim_pin new_pin immediate pin = Safe-bind _ _ (Safe-keep_pin pin) (λ _.
      Safe-if _ _ _ (Safe-change_now _ (Safe-change_sim_pin new_pin))
        (Safe-bind _ _ (Moves-modify _ (λ m h. ground arith)) (λ _. Safe-pure _)))

module _ {t n : ℕ} where
  -- The thread puts the timeout back.
  Safe-handle_event : Safe (Steady t n) Events.handle_event
  unfolding Events.handle_event
  Safe-handle_event = Safe-with_lock _ (
      Moves-gets _ t _ (λ m h. h.timeout)
        (Runs-bind _ _ (at_set_timeout-Runs 10) (λ _.
          Runs-bind {Q = Steady 10 (suc n)} _ _ (Runs-attempt _ (Safe-recv _))
            (λ _. Runs-Moves _ (at_set_timeout-Runs t)))))

  Safe-run_call : (c : Call) → UsesTable (c ∷ []) → Safe (Steady t n) (run_call c)
  unfolding run_call Send.socket_send Send.socket_sendto Receive.socket_recv Receive.socket_recvfrom
      Connection.set_authentication Connection.set_credentials Others.set_sim_pin
      Others.connection_status_cb Others.get_netmask Others.get_gateway Others.socket_listen
      Others.socket_accept Others.setsockopt Others.getsockopt Sim.set_pin
  Safe-run_call (socket_open p) k = Safe-without_result _ (Safe-socket_open p)
  Safe-run_call (socket_close h) k = Safe-without_result _ (Safe-socket_close h k.0)
  Safe-run_call (socket_bind h port) k = Safe-without_result _ (Safe-socket_bind h port k.0)
  Safe-run_call (socket_connect h ip port) k =
      Safe-without_result _ (Safe-socket_connect h ip port k.0)
  Safe-run_call (socket_send h d) k = Safe-without_result _ (Safe-send_all peer h d k.0)
  Safe-run_call (socket_sendto h ip port d) k =
      Safe-without_result _ (Safe-send_all (address ip port) h d k.0)
  Safe-run_call (socket_recv rounds h room) k =
      Safe-without_result _ (Safe-receive_all rounds stream h room k.0)
  Safe-run_call (socket_recvfrom rounds h room) k =
      Safe-without_result _ (Safe-receive_all rounds datagram h room k.0)
  Safe-run_call (socket_attach h callback argument) k = Safe-socket_attach h callback argument k.0
  Safe-run_call (set_authentication auth) k = Moves-modify _ (λ m h. ground arith)
  Safe-run_call (set_credentials apn uname pwd) k = Moves-modify _ (λ m h. ground arith)
  Safe-run_call (gethostbyname host) k = Safe-without_result _ (Safe-gethostbyname host)
  Safe-run_call (connect_with rounds pin apn uname pwd) k =
      Safe-without_result _ (Safe-connect_with rounds pin apn uname pwd)
  Safe-run_call (connect rounds) k = Safe-without_result _ (Safe-connect rounds)
  Safe-run_call disconnect k = Safe-without_result _ Safe-disconnect
  Safe-run_call is_connected k = Safe-without_result _ Safe-is_connected
  Safe-run_call get_ip_address k = Safe-without_result _ Safe-get_ip_address
  Safe-run_call (set_sim_pin_check enable immediate pin) k =
      Safe-without_result _ (Safe-set_sim_pin_check enable immediate pin)
  Safe-run_call (set_new_sim_pin new_pin immediate pin) k =
      Safe-without_result _ (Safe-set_new_sim_pin new_pin immediate pin)
  Safe-run_call (set_sim_pin pin) k = Safe-keep_pin (some pin)
  Safe-run_call (connection_status_cb cb) k = Moves-modify _ (λ m h. ground arith)
  Safe-run_call get_netmask k = Safe-without_result _ (Safe-pure _)
  Safe-run_call get_gateway k = Safe-without_result _ Safe-get_ip_address
  Safe-run_call (socket_listen h backlog) k = Safe-without_result _ (Safe-pure _)
  Safe-run_call (socket_accept h) k = Safe-without_result _ (Safe-pure _)
  Safe-run_call (setsockopt h level name value) k = Safe-without_result _ (Safe-pure _)
  Safe-run_call (getsockopt h level name) k = Safe-without_result _ (Safe-pure _)
  Safe-run_call (init pin) k = Safe-without_result _ (Safe-init pin)
  Safe-run_call deinit k = Safe-deinit
  Safe-run_call handle_event k = Safe-handle_event

UsesTable-each :
    (c : Call) (cs : List Call) → UsesTable (c ∷ cs) → UsesTable (c ∷ []) × UsesTable cs
UsesTable-each (socket_close h) cs (k, ks) = ((k, tt), ks)
UsesTable-each (socket_bind h port) cs (k, ks) = ((k, tt), ks)
UsesTable-each (socket_connect h ip port) cs (k, ks) = ((k, tt), ks)
UsesTable-each (socket_send h d) cs (k, ks) = ((k, tt), ks)
UsesTable-each (socket_sendto h ip port d) cs (k, ks) = ((k, tt), ks)
UsesTable-each (socket_recv rounds h room) cs (k, ks) = ((k, tt), ks)
UsesTable-each (socket_recvfrom rounds h room) cs (k, ks) = ((k, tt), ks)
UsesTable-each (socket_attach h callback argument) cs (k, ks) = ((k, tt), ks)
UsesTable-each _ cs ks = (tt, ks)

module _ {t n : ℕ} where
  Safe-run_calls : (cs : List Call) → UsesTable cs → Safe (Steady t n) (run_calls cs)
  unfolding run_calls
  Safe-run_calls [] k = Safe-pure tt
  Safe-run_calls (c ∷ cs) k =
      let (k', ks) = UsesTable-each c cs k in
      Safe-bind _ _ (Moves-attempt _ (Safe-run_call c k')) (λ _. Safe-run_calls cs ks)

-- For every modem and clock, that is every answer, failure and unsolicited message, and every
-- sequence of public calls, of init and deinit, and of rounds of the interface's thread between them,
-- whose handles point into the table of sockets: from a state with a parser, a PIN, a table of seven
-- and a free mutex, the interface runs into no assertion and no null pointer, uses the parser only
-- under the mutex, leaves the mutex free, keeps the seven sockets, and puts the parser's timeout back
-- to what it was.
pub run_calls-Steady :
    (t : ℕ) (cs : List Call) (m : Modem)
    → UsesTable cs
    → Steady t 0 m
    → IsDefined (run_calls cs m).0 × Steady t 0 (run_calls cs m).1
run_calls-Steady t cs m k h = ((Safe-run_calls cs k).defined m h, (Safe-run_calls cs k).at m h)
