-- ===== src/Sockets/Receive/Discipline.antt =====
-- The rules for the AT parser in socket_recv and socket_recvfrom of UbloxATCellularInterface.cpp.

use example_ublox_mbed_clien.Prelude.{
  ℕ, zero, suc, ◌<◌, true, false, some, none, Option, List, [], ℤ,
}
use example_ublox_mbed_clien.Act.{Act, ◌>>=◌, modify}
use example_ublox_mbed_clien.Act.Safe.{Safe, Safe-bind, Safe-if, Safe-pure, Safe-gets, Moves-gets}
use example_ublox_mbed_clien.Act.Runs.{
  Runs, Runs-pure, Runs-gets, Runs-if, Runs-Runs, Runs-bind, Runs-attempt,
}
use example_ublox_mbed_clien.Cellular.{Modem, SockCtrl, set_sockets}
use example_ublox_mbed_clien.Cellular.Parser.{emit, read_bytes}
use example_ublox_mbed_clien.Cellular.Table.{update_socket}
use example_ublox_mbed_clien.Cellular.Discipline.{
  Steady, at_rules, at_set_timeout-Runs, Safe-read_bytes, Safe-with_lock, Safe-recv,
}
use example_ublox_mbed_clien.Sockets.Receive.{
  Style, stream, datagram, Address, ask, Round, got, nothing, give_up, time_is_up, read_block,
  receive_block, receive_round, after_round, receive_loop, receive_all, Received,
}
use example_ublox_mbed_clien.Sockets.Discipline.{Safe-set_socket, Safe-assert_socket, socket_rules}

module _ {t n : ℕ} where
  Safe-ask : (style : Style) (h : ℤ) (k : ℕ) → Safe (Steady t (suc n)) (ask style h k)
  unfolding ask
  Safe-ask stream h k = search at_rules depth 12
  Safe-ask datagram h k = search at_rules depth 16

  Safe-read_block :
      (style : Style) (socket room k : ℕ) (o : Option (Option Address × ℕ))
      → Safe (Steady t (suc n)) (read_block style socket room k o)
  Safe-read_block style socket room k none = Safe-pure _
  Safe-read_block style socket room k (some (from, c)) = search socket_rules depth 20

  Runs-set_socket :
      (socket : ℕ) (f : SockCtrl → SockCtrl)
      → Runs (Steady t n) (Steady t n) (modify (set_sockets (update_socket socket f)))
  Runs-set_socket socket f = record { finishes = λ m h. tt; at = (Safe-set_socket socket f).at }

  Runs-read_bytes : (k : ℕ) → Runs (Steady t (suc n)) (Steady t (suc n)) (read_bytes k)
  unfolding read_bytes emit ◌>>=◌
  Runs-read_bytes k = record { finishes = λ m h. tt; at = (Safe-read_bytes k).at }

module _ {t n : ℕ} where
  Runs-read_block :
      (style : Style) (socket room k : ℕ) (o : Option (Option Address × ℕ))
      → Runs (Steady t (suc n)) (Steady t (suc n)) (read_block style socket room k o)
  Runs-read_block style socket room k none = Runs-pure _
  Runs-read_block style socket room k (some (from, c)) =
      Runs-Runs _ _ (Runs-set_socket socket _) (λ _.
        Runs-Runs _ _ (Runs-read_bytes _)
          (λ block. Runs-Runs _ _ (Runs-attempt _ (Safe-recv "OK")) (λ _. Runs-pure _)))

  Runs-receive_block :
      (style : Style) (socket start room : ℕ)
      → Runs (Steady t (suc n)) (Steady t (suc n)) (receive_block style socket start room)
  Runs-receive_block style socket start room = Runs-Runs _ _ (Runs-gets _) (λ s.
      Runs-Runs _ _ (Runs-gets _) (λ now.
        Runs-if _ _ _
          (Runs-Runs _ _ (Runs-attempt _ (Safe-ask style _ _))
            (λ answer. Runs-read_block style socket room _ answer))
          (Runs-if _ _ _ (Runs-Runs _ _ (Runs-attempt _ (Safe-recv _)) (λ _. Runs-pure _))
            (Runs-pure _))))

module _ {t n : ℕ} where
  Safe-receive_round :
      (style : Style) (socket start room : ℕ)
      → Safe (Steady t n) (receive_round style socket start room)
  unfolding receive_round
  Safe-receive_round style socket start room = Safe-with_lock _ (
      Moves-gets _ t _ (λ m h. h.timeout)
        (Runs-bind _ _ (at_set_timeout-Runs 1000) (λ _.
          Runs-bind _ _ (Runs-receive_block style socket start room)
            (λ round. Runs-bind _ _ (at_set_timeout-Runs t) (λ _. Safe-pure round)))))

  Safe-after_round :
      (more : ℕ → List ℕ → Option Address → Act Modem (Option Received)) (room : ℕ) (bytes : List ℕ)
      (from : Option Address) (round : Round)
      → ((r : ℕ) (b : List ℕ) (f : Option Address) → Safe (Steady t n) (more r b f))
      → Safe (Steady t n) (after_round more room bytes from round)
  Safe-after_round more room bytes from (got block sender true) k = k _ _ _
  Safe-after_round more room bytes from (got block sender false) k = k _ _ _
  Safe-after_round more room bytes from nothing k = k _ _ _
  Safe-after_round more room bytes from (give_up e) k = Safe-pure _
  Safe-after_round more room bytes from time_is_up k = Safe-if _ _ _ (k _ _ _) (Safe-pure _)

  Safe-receive_loop :
      (rounds : ℕ) (style : Style) (socket start room : ℕ) (bytes : List ℕ) (from : Option Address)
      → Safe (Steady t n) (receive_loop rounds style socket start room bytes from)
  unfolding receive_loop
  Safe-receive_loop rounds style socket start zero bytes from = Safe-pure _
  Safe-receive_loop zero style socket start (suc room) bytes from = Safe-pure _
  Safe-receive_loop (suc rounds) style socket start (suc room) bytes from =
      Safe-bind _ _ (Safe-receive_round style socket start (suc room)) (λ round.
        Safe-after_round _ (suc room) bytes from round
          (Safe-receive_loop rounds style socket start))

  pub Safe-receive_all :
      (rounds : ℕ) (style : Style) (socket room : ℕ)
      → socket < 7
      → Safe (Steady t n) (receive_all rounds style socket room)
  Safe-receive_all rounds style socket room k = Safe-bind _ _ (Safe-assert_socket socket k) (λ _.
      Safe-bind _ _ (Safe-gets _)
        (λ start. Safe-receive_loop rounds style socket start room [] none))
