-- ===== src/Sockets/Discipline.antt =====
-- The rules for the AT parser in the sockets of UbloxATCellularInterface.cpp.
use Prim.Native.String.{String}
use example_ublox_mbed_clien.Prelude.{
  ℕ, zero, suc, ◌<◌, Bool, true, false, some, none, Option, List, [], ◌∷◌, arith, ℤ,
}
use example_ublox_mbed_clien.Act.{modify}
use example_ublox_mbed_clien.Act.Safe.{
  Safe, Safe-bind, Safe-if, Safe-pure, Safe-fail, Moves-modify, Moves-attempt,
}
use example_ublox_mbed_clien.Cellular.{SockCtrl, set_sockets}
use example_ublox_mbed_clien.Cellular.Table.{update_socket, check_socket}
use example_ublox_mbed_clien.Cellular.Table.Laws.{length-update_socket}
use example_ublox_mbed_clien.Cellular.Discipline.{
  Steady, at_rules, at_set_timeout-Runs, Safe-emit, Safe-read_bytes, Safe-with_lock, Safe-recv,
  Safe-send,
}
use example_ublox_mbed_clien.Sockets.{
  Protocol, udp, tcp, other_protocol, assert_socket, recv_handle, take_handle, create, open_at,
  socket_open, close_socket, socket_close, reopen_if, rebind, socket_bind, socket_connect,
  socket_attach,
}
use example_ublox_mbed_clien.Sockets.Send.{
  Target, peer, address, announce, send_block, send_loop, send_all,
}

module _ {t n : ℕ} where
  pub Safe-set_socket :
      (socket : ℕ) (f : SockCtrl → SockCtrl)
      → Safe (Steady t n) (modify (set_sockets (update_socket socket f)))
  Safe-set_socket socket f =
      Moves-modify _ (λ m h. ground (arith, length-update_socket socket f m.iface.sockets))

  pub Safe-assert_socket : (socket : ℕ) → socket < 7 → Safe (Steady t n) (assert_socket socket)
  unfolding assert_socket check_socket
  Safe-assert_socket socket k = record { defined = λ m h. ground arith; at = λ m h. ground arith }

pub ruleset socket_rules = (at_rules, Safe-set_socket)

module _ {t n : ℕ} where
  Safe-take_handle : (socket : ℕ) (o : Option ℤ) → Safe (Steady t n) (take_handle socket o)
  Safe-take_handle socket none = Safe-pure _
  Safe-take_handle socket (some h) = search socket_rules depth 9

module _ {t n : ℕ} where
  Safe-recv_handle : Safe (Steady t (suc n)) recv_handle
  Safe-recv_handle = search at_rules depth 14

  Safe-create : (socket : ℕ) (request : String) → Safe (Steady t (suc n)) (create socket request)
  Safe-create socket request = Safe-bind _ _ (search at_rules depth 5) (λ sent.
      Safe-if _ _ _
        (Safe-bind _ _ (Moves-attempt _ Safe-recv_handle) (λ h. Safe-take_handle socket h))
        (Safe-pure _))

  Safe-open_at : (o : Option ℕ) (p : Protocol) → Safe (Steady t (suc n)) (open_at o p)
  Safe-open_at none p = Safe-pure _
  Safe-open_at (some socket) udp = Safe-create socket "AT+USOCR=17"
  Safe-open_at (some socket) tcp = Safe-create socket "AT+USOCR=6"
  Safe-open_at (some socket) other_protocol = Safe-pure _

  pub Safe-socket_open : (p : Protocol) → Safe (Steady t n) (socket_open p)
  unfolding socket_open
  Safe-socket_open p = search (at_rules, Safe-open_at) depth 9

  Safe-close_socket : (socket : ℕ) → Safe (Steady t (suc n)) (close_socket socket)
  unfolding close_socket
  Safe-close_socket socket = search socket_rules depth 14

  Safe-reopen_if :
      (b : Bool) (socket : ℕ) (proto : ℤ) (port : ℕ) (saved : SockCtrl)
      → Safe (Steady t (suc n)) (reopen_if b socket proto port saved)
  Safe-reopen_if false socket proto port saved = Safe-pure _
  Safe-reopen_if true socket proto port saved = search socket_rules depth 24

  Safe-rebind : (socket port : ℕ) (o : Option ℤ) → Safe (Steady t (suc n)) (rebind socket port o)
  Safe-rebind socket port none = Safe-pure _
  Safe-rebind socket port (some proto) =
      search (at_rules, Safe-close_socket, Safe-reopen_if) depth 14

  pub Safe-socket_close : (socket : ℕ) → socket < 7 → Safe (Steady t n) (socket_close socket)
  unfolding socket_close
  Safe-socket_close socket k = Safe-with_lock _ (
      Safe-bind _ _ (Safe-assert_socket socket k)
        (λ _. search (at_rules, Safe-close_socket) depth 9))

  pub Safe-socket_bind :
      (socket port : ℕ) → socket < 7 → Safe (Steady t n) (socket_bind socket port)
  unfolding socket_bind
  Safe-socket_bind socket port k =
      Safe-with_lock _
        (Safe-bind _ _ (Safe-assert_socket socket k) (λ _. search (at_rules, Safe-rebind) depth 20))

  pub Safe-socket_connect :
      (socket : ℕ) (ip : List ℕ) (port : ℕ)
      → socket < 7
      → Safe (Steady t n) (socket_connect socket ip port)
  unfolding socket_connect
  Safe-socket_connect socket ip port k =
      Safe-with_lock _ (Safe-bind _ _ (Safe-assert_socket socket k) (λ _. search at_rules depth 14))

  pub Safe-socket_attach :
      (socket : ℕ) (callback : Option ℕ) (argument : ℕ)
      → socket < 7
      → Safe (Steady t n) (socket_attach socket callback argument)
  unfolding socket_attach
  Safe-socket_attach socket callback argument k =
      Safe-bind _ _ (Safe-assert_socket socket k) (λ _. Safe-set_socket socket _)

  Safe-announce :
      (target : Target) (h : ℤ) (blk : ℕ) → Safe (Steady t (suc n)) (announce target h blk)
  Safe-announce peer h blk = search at_rules depth 5
  Safe-announce (address ip port) h blk = search at_rules depth 5

  Safe-send_block :
      (target : Target) (socket : ℕ) (block : List ℕ)
      → Safe (Steady t n) (send_block target socket block)
  unfolding send_block
  Safe-send_block target socket block = search (at_rules, Safe-announce) depth 24

  Safe-send_loop :
      (rounds : ℕ) (target : Target) (socket blk : ℕ) (left : List ℕ)
      → Safe (Steady t n) (send_loop rounds target socket blk left)
  unfolding send_loop
  Safe-send_loop rounds target socket blk [] = Safe-pure tt
  Safe-send_loop zero target socket blk (b ∷ left) = Safe-fail
  Safe-send_loop (suc rounds) target socket blk (b ∷ left) =
      Safe-bind _ _ (Safe-send_block target socket _) (λ _. Safe-send_loop rounds target socket _ _)

  pub Safe-send_all :
      (target : Target) (socket : ℕ) (buf : List ℕ)
      → socket < 7
      → Safe (Steady t n) (send_all target socket buf)
  Safe-send_all target socket buf k =
      Safe-bind _ _ (Safe-assert_socket socket k) (λ _. search (at_rules, Safe-send_loop) depth 9)
