-- ===== src/Sockets/Open.antt =====
-- What socket_open of UbloxATCellularInterface.cpp hands out.
use Prim.Native.String.{String}
use example_ublox_mbed_clien.Prelude.{
  ℕ, zero, suc, ◌<◌, length, arith, ◌≡◌, ◌≢◌, refl, sym, ap, false, some, none, Option, List, [],
  ◌∷◌, ℤ, ◌==ℤ◌, get_or, is_some,
}
use mathlib.Core.Path.{subst}
use example_ublox_mbed_clien.Act.{Outcome, done, failed, fault, ◌>>=◌}
use example_ublox_mbed_clien.Act.Splits.{
  Splits, Splits-bind, Splits-then, Splits-gets, Splits-with, Splits-pure, Splits-attempt,
  Splits-always, Splits-if, Splits-guard, Splits-modify, ByResult, Never, Either,
}
use example_ublox_mbed_clien.Cellular.{Event, recv, Modem, SockCtrl, Interface, log, unlock}
use example_ublox_mbed_clien.Cellular.Parser.{recv_number, emit}
use example_ublox_mbed_clien.Cellular.Callbacks.{
  set_nwk_reg_status_csd, set_nwk_reg_status_psd, set_nwk_reg_status_eps,
}
use example_ublox_mbed_clien.Cellular.Table.{
  socket_unused, find_socket, update_socket, get_socket, clear_socket,
}
use example_ublox_mbed_clien.Cellular.Table.Laws.{
  length-update_socket, find_socket-IsFirst, IsFirst,
}
use example_ublox_mbed_clien.Cellular.Talk.{
  KeptByTalk, talk-send, talk-recv, talk-handle_urcs, with_lock-Splits,
}
use example_ublox_mbed_clien.Sockets.{
  NsapiError, ok, device_error, Protocol, udp, tcp, other_protocol, modem_handle_of, recv_handle,
  take_handle, create, open_at, socket_open,
}

-- The modem has given this number as the handle of a new socket.
abbrev pub IsGiven : Modem → ℤ → Type 0
IsGiven before h = (t : List Event) × (h ≡ before.number (recv "+USOCR: %d\n" ∷ t))

-- A socket from the table, the first that was unused, which now has a handle that the modem gave; or
-- an error.
abbrev pub IsOpening : Modem → NsapiError × Option ℕ → Modem → Type 0
IsOpening before (e, none) after = e ≢ ok
IsOpening before (e, some h) after =
    (e ≡ ok)
    × (h < length before.iface.sockets)
    × (find_socket socket_unused before.iface.sockets ≡ some h)
    × ((modem_handle_of h after ==ℤ socket_unused) ≡ false)
    × IsGiven before (modem_handle_of h after)

get_socket-lt :
    (i : ℕ) (sockets : List SockCtrl) (s : SockCtrl)
    → get_socket i sockets ≡ some s
    → i < length sockets
unfolding get_socket
get_socket-lt i [] s e = absurd (ground arith)
get_socket-lt zero (x ∷ rest) s e = omega arith
get_socket-lt (suc i) (x ∷ rest) s e = omega (arith, get_socket-lt i rest s e)

found-lt :
    (h : ℤ) (i : ℕ) (sockets : List SockCtrl) → find_socket h sockets ≡ some i → i < length sockets
found-lt h i sockets e = from_first (find_socket h sockets) e (find_socket-IsFirst h sockets)
  where
    from_first : (o : Option ℕ) → o ≡ some i → IsFirst h sockets o → i < length sockets
    from_first o e k =
        let (s, (at, same)) = (subst (IsFirst h sockets) e k).0 in get_socket-lt i sockets s at

stored_handle :
    (i : ℕ) (h : ℤ) (sockets : List SockCtrl) (d : SockCtrl)
    → i < length sockets
    → SockCtrl.modem_handle (
        get_or
          (get_socket i
            (update_socket i (λ s. record (clear_socket s) { modem_handle = h }) sockets))
          d)
      ≡ h
unfolding get_socket update_socket
stored_handle i h [] d l = absurd (omega (arith, l))
stored_handle zero h (s ∷ rest) d l = refl
stored_handle (suc i) h (s ∷ rest) d l = stored_handle i h rest d (omega (arith, l))

-- The table and the numbers that the modem gives are as before.
abbrev HasTable : Modem → Modem → Type 0
HasTable before m =
    (length m.iface.sockets ≡ length before.iface.sockets) × (m.number ≡ before.number)

module _ (before : Modem) where
  HasTable-KeptByTalk : KeptByTalk (HasTable before)
  unfolding set_nwk_reg_status_csd set_nwk_reg_status_psd set_nwk_reg_status_eps
  HasTable-KeptByTalk = record {
    events = λ e m t h. h;
    callbacks = record {
      said = λ u m h. h;
      aborted = λ m h. h;
      spoilt = λ m h. h;
      csd = λ s m h. h;
      psd = λ s m h. h;
      eps = λ s m h. h;
      sockets = record {
        counted = λ i n m h. (
          rw (length-update_socket i (λ s. record s { pending = n s }) m.iface.sockets) h.0,
          h.1,
        );
        cleared = λ i m h. (rw (length-update_socket i clear_socket m.iface.sockets) h.0, h.1);
        called = λ f a m h. h;
        lost = λ m h. h;
      };
    };
  }

  Splits-recv_number :
      Splits
        (HasTable before)
        (λ h m. IsGiven before h × HasTable before m)
        (HasTable before)
        (recv_number "+USOCR: %d\n")
  unfolding recv_number emit
  Splits-recv_number =
      Splits-bind {V = λ _ m. IsGiven before (m.number m.trace) × HasTable before m} _ _
        (Splits-modify _ (λ m h. ((m.trace, ap (λ n. n (recv "+USOCR: %d\n" ∷ m.trace)) h.1), h)))
        (λ _.
          Splits-bind {V = λ m s. IsGiven before (m.number m.trace) × HasTable before s} _ _
            (Splits-gets _ (λ m h. h))
            (λ m. Splits-with _ (λ given.
              Splits-then _ _ (λ m h. h) (talk-handle_urcs HasTable-KeptByTalk (m.urcs m.trace))
                (λ _. Splits-guard _ _ (λ m h. h) (λ _. Splits-pure _ (λ m h. (given, h)))))))

  Splits-recv_handle :
      Splits
        (HasTable before)
        (λ h m. (((h ==ℤ socket_unused) ≡ false) × IsGiven before h) × HasTable before m)
        (HasTable before)
        recv_handle
  Splits-recv_handle = Splits-bind _ _ Splits-recv_number (λ h. Splits-with _ (λ given.
      Splits-guard _ _ (λ m t. t)
        (λ used.
          Splits-then _ _ (λ m t. t) (talk-recv HasTable-KeptByTalk _)
            (λ _. Splits-pure _ (λ m t. ((ground (arith, used), given), t))))))

  Splits-take_handle :
      (socket : ℕ) (o : Option ℤ)
      → find_socket socket_unused before.iface.sockets ≡ some socket
      → Splits
          (ByResult
            (λ h m. (((h ==ℤ socket_unused) ≡ false) × IsGiven before h) × HasTable before m)
            (HasTable before)
            o)
          (λ r m. IsOpening before r m)
          Never
          (take_handle socket o)
  unfolding ◌>>=◌
  Splits-take_handle socket none found = Splits-pure _ (λ m t e. ground arith)
  Splits-take_handle socket (some h) found = record {
    out = λ m t. (
      refl,
      found-lt socket_unused socket before.iface.sockets found,
      found,
      rw (stored m _ t.1.0) t.0.0,
      rw (stored m _ t.1.0) t.0.1,
    );
  }
    where
      stored :
          (m : Modem) (d : SockCtrl)
          → length m.iface.sockets ≡ length before.iface.sockets
          → SockCtrl.modem_handle (
              get_or
                (get_socket socket (
                  update_socket socket
                    (λ s. record (clear_socket s) { modem_handle = h })
                    m.iface.sockets))
                d)
            ≡ h
      stored m d e = stored_handle socket h m.iface.sockets d (
          subst (λ n. socket < n) (sym e)
            (found-lt socket_unused socket before.iface.sockets found))

  Splits-create :
      (socket : ℕ) (request : String)
      → find_socket socket_unused before.iface.sockets ≡ some socket
      → Splits (HasTable before) (IsOpening before) Never (create socket request)
  Splits-create socket request found =
      Splits-bind _ _ (Splits-always _ (talk-send HasTable-KeptByTalk request [])) (λ sent.
        Splits-if (is_some sent) _ _
          (λ _.
            Splits-bind _ _ (Splits-attempt _ Splits-recv_handle)
              (λ o. Splits-take_handle socket o found))
          (λ _. Splits-pure (device_error, none) (λ m t e. ground arith)))

  Splits-open_at :
      (o : Option ℕ) (p : Protocol)
      → find_socket socket_unused before.iface.sockets ≡ o
      → Splits (HasTable before) (IsOpening before) Never (open_at o p)
  Splits-open_at none p found = Splits-pure _ (λ m t e. ground arith)
  Splits-open_at (some socket) udp found = Splits-create socket _ found
  Splits-open_at (some socket) tcp found = Splits-create socket _ found
  Splits-open_at (some socket) other_protocol found = Splits-pure _ (λ m t e. ground arith)

  kept-IsOpening :
      (r : NsapiError × Option ℕ) (m : Modem)
      → IsOpening before r m
      → IsOpening before r (log unlock m)
  kept-IsOpening (e, none) m h = h
  kept-IsOpening (e, some i) m h = h

  Splits-socket_open :
      (p : Protocol) → Splits (λ m. m ≡ before) (IsOpening before) Never (socket_open p)
  unfolding socket_open
  Splits-socket_open p =
      with_lock-Splits
        {Q = λ m. (m.iface.sockets ≡ before.iface.sockets) × (m.number ≡ before.number)} _
        (λ m e. (ap (λ s. Interface.sockets (Modem.iface s)) e, ap Modem.number e)) kept-IsOpening
        (λ m h. h)
        (Splits-bind
          {V = λ o m. (find_socket socket_unused before.iface.sockets ≡ o) × HasTable before m} _ _
          (Splits-gets _ (λ m e. (rw e.0 refl, (rw e.0 refl, e.1))))
          (λ o. Splits-with _ (λ found. Splits-open_at o p found)))

-- An outcome of socket_open: a result, and never undefined behaviour.
abbrev pub HasOpened : Modem → Outcome (NsapiError × Option ℕ) × Modem → Type 0
HasOpened before (done r, after) = IsOpening before r after
HasOpened before (failed, after) = ⊥
HasOpened before (fault, after) = ⊥

opened :
    (before : Modem) (p : Outcome (NsapiError × Option ℕ) × Modem)
    → Either (IsOpening before) Never p.0 p.1
    → HasOpened before p
opened before (done r, after) h = h
opened before (failed, after) h = h
opened before (fault, after) h = h

-- For every modem and protocol, whatever messages come meanwhile: socket_open returns. It returns an
-- error and hands out no socket, or it returns NSAPI_ERROR_OK and hands out the first socket of the
-- table that was unused before the call; the handle of that socket is afterwards a number that the
-- modem has given as an answer to +USOCR, and not SOCKET_UNUSED.
pub socket_open-HasOpened : (p : Protocol) (m : Modem) → HasOpened m (socket_open p m)
socket_open-HasOpened p m = opened m (socket_open p m) ((Splits-socket_open m p).out m refl)
