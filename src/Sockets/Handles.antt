-- ===== src/Sockets/Handles.antt =====
-- The handle of a socket under socket_bind of UbloxATCellularInterface.cpp.
use example_ublox_mbed_clien.Prelude.{
  ℕ, zero, suc, ◌<◌, length, arith, ◌≡◌, refl, ◌⊎◌, inl, inr, Bool, true, false, some, none, Option,
  List, [], ◌∷◌, ℤ, get_or,
}
use example_ublox_mbed_clien.Act.Safe.{
  Safe, IsDefined, Safe-gets, Safe-gets_then, Safe-bind, Safe-pure, Moves-modify, Moves-attempt,
}
use example_ublox_mbed_clien.Cellular.{Modem, SockCtrl, set_sockets}
use example_ublox_mbed_clien.Cellular.Table.{
  socket_unused, update_socket, get_socket, clear_socket, check_socket,
}
use example_ublox_mbed_clien.Cellular.Table.Laws.{length-update_socket}
use example_ublox_mbed_clien.Cellular.Talk.{KeptByTalk, talk_rules, talk-with_lock}
use example_ublox_mbed_clien.Cellular.Callbacks.{
  set_nwk_reg_status_csd, set_nwk_reg_status_psd, set_nwk_reg_status_eps,
}
use example_ublox_mbed_clien.Sockets.{
  assert_socket, socket_at, modem_handle_of, set_socket, recv_handle, close_socket, reopen,
  reopen_if, rebind, query_protocol, socket_bind,
}

abbrev handle_at : ℕ → List SockCtrl → ℤ
handle_at i sockets = SockCtrl.modem_handle (
    get_or (get_socket i sockets)
      (record { modem_handle = socket_unused; pending = 0; callback = none; argument = 0 }))

-- The handle is `h`, or the socket is unused.
abbrev pub IsOrUnused : ℤ → ℤ → Type 0
IsOrUnused h x = (x ≡ h) ⊎ (x ≡ socket_unused)

abbrev Keeps : ℕ → ℤ → Modem → Type 0
Keeps socket h m = (socket < length m.iface.sockets) × IsOrUnused h (modem_handle_of socket m)

module _ {h : ℤ} where
  update_handle :
      (i j : ℕ) (f : SockCtrl → SockCtrl) (sockets : List SockCtrl)
      → ((s : SockCtrl) → IsOrUnused h s.modem_handle → IsOrUnused h (SockCtrl.modem_handle (f s)))
      → IsOrUnused h (handle_at j sockets)
      → IsOrUnused h (handle_at j (update_socket i f sockets))
  unfolding update_socket get_socket
  update_handle i j f [] kf k = k
  update_handle zero zero f (s ∷ rest) kf k = kf s k
  update_handle zero (suc j) f (s ∷ rest) kf k = k
  update_handle (suc i) zero f (s ∷ rest) kf k = k
  update_handle (suc i) (suc j) f (s ∷ rest) kf k = update_handle i j f rest kf k

module _ {socket : ℕ} {h : ℤ} where
  Keeps-update :
      (i : ℕ) (f : SockCtrl → SockCtrl) (m : Modem)
      → ((s : SockCtrl) → IsOrUnused h s.modem_handle → IsOrUnused h (SockCtrl.modem_handle (f s)))
      → Keeps socket h m
      → Keeps socket h (set_sockets (update_socket i f) m)
  Keeps-update i f m kf (l, k) = (
    rw (length-update_socket i f m.iface.sockets) l,
    update_handle i socket f (m.iface.sockets) kf k,
  )

  Keeps-KeptByTalk : KeptByTalk (Keeps socket h)
  unfolding set_nwk_reg_status_csd set_nwk_reg_status_psd set_nwk_reg_status_eps clear_socket
  Keeps-KeptByTalk = record {
    events = λ e m t k. k;
    callbacks = record {
      said = λ u m k. k;
      aborted = λ m k. k;
      spoilt = λ m k. k;
      csd = λ s m k. k;
      psd = λ s m k. k;
      eps = λ s m k. k;
      sockets = record {
        counted = λ i n m k. Keeps-update i _ m (λ s ks. ks) k;
        cleared = λ i m k. Keeps-update i _ m (λ s ks. inr refl) k;
        called = λ f a m k. k;
        lost = λ m k. k;
      };
    };
  }

  Keeps-set_socket :
      (f : SockCtrl → SockCtrl)
      → ((s : SockCtrl) → IsOrUnused h s.modem_handle → IsOrUnused h (SockCtrl.modem_handle (f s)))
      → Safe (Keeps socket h) (set_socket socket f)
  Keeps-set_socket f kf = Moves-modify _ (λ m k. Keeps-update socket f m kf k)

  Keeps-assert_socket : Safe (Keeps socket h) (assert_socket socket)
  unfolding assert_socket check_socket
  Keeps-assert_socket = record {
    defined = λ m k. ground (arith, k.0);
    at = λ m k. ground (arith, k.0, k.1);
  }

  Keeps-recv_handle : Safe (Keeps socket h) recv_handle
  Keeps-recv_handle = search (talk_rules, Keeps-KeptByTalk) depth 14

  Keeps-query_protocol : Safe (Keeps socket h) (query_protocol socket)
  Keeps-query_protocol = search (talk_rules, Keeps-KeptByTalk) depth 14

  Keeps-close_socket : Safe (Keeps socket h) (close_socket socket)
  unfolding close_socket clear_socket
  Keeps-close_socket = Safe-bind _ _ (Safe-gets _) (λ a.
      Safe-bind _ _ (search (talk_rules, Keeps-KeptByTalk) depth 12)
        (λ _. Keeps-set_socket _ (λ s ks. inr refl)))

  Keeps-reopen :
      (proto : ℤ) (port : ℕ) (saved : SockCtrl)
      → IsOrUnused h saved.modem_handle
      → Safe (Keeps socket h) (reopen socket proto port saved)
  Keeps-reopen proto port saved k =
      Safe-bind _ _ (search (talk_rules, Keeps-KeptByTalk) depth 9)
        (λ _. Safe-bind _ _ Keeps-recv_handle (λ _. Keeps-set_socket _ (λ s ks. k)))

  Keeps-reopen_if :
      (b : Bool) (proto : ℤ) (port : ℕ) (saved : SockCtrl)
      → IsOrUnused h saved.modem_handle
      → Safe (Keeps socket h) (reopen_if b socket proto port saved)
  Keeps-reopen_if false proto port saved k = Safe-pure _
  Keeps-reopen_if true proto port saved k =
      Safe-bind _ _ (Moves-attempt _ (Keeps-reopen proto port saved k)) (λ _. Safe-pure _)

  Keeps-rebind : (port : ℕ) (o : Option ℤ) → Safe (Keeps socket h) (rebind socket port o)
  Keeps-rebind port none = Safe-pure _
  Keeps-rebind port (some proto) =
      Safe-gets_then (socket_at socket) (λ s. IsOrUnused h s.modem_handle) _ (λ m k. k.1)
        (λ saved ks.
          Safe-bind _ _ (Moves-attempt _ Keeps-close_socket)
            (λ closed. Keeps-reopen_if _ proto port saved ks))

  Keeps-socket_bind : (port : ℕ) → Safe (Keeps socket h) (socket_bind socket port)
  unfolding socket_bind
  Keeps-socket_bind port = talk-with_lock Keeps-KeptByTalk _ (
      Safe-bind _ _ Keeps-assert_socket (λ _.
        Safe-bind _ _ (Moves-attempt _ Keeps-query_protocol) (λ proto. Keeps-rebind port proto)))

-- For every modem, port and handle that points into the table: socket_bind runs into no assertion,
-- and the socket has afterwards the handle it had before, or is unused. So the handle that the modem
-- gives to the socket it opened anew is not stored unless it is the old one.
pub socket_bind-handle :
    (handle port : ℕ) (m : Modem)
    → handle < length m.iface.sockets
    → IsDefined (socket_bind handle port m).0
      × IsOrUnused (modem_handle_of handle m) (modem_handle_of handle (socket_bind handle port m).1)
socket_bind-handle handle port m l =
    let safe = Keeps-socket_bind {socket = handle} {h = modem_handle_of handle m} port in
    (safe.defined m (l, inl refl), (safe.at m (l, inl refl)).1)
