-- ===== src/Cellular/Unasked.antt =====
-- What the callbacks of UbloxCellularBase.cpp keep: any property that the messages themselves, an
-- abort and a change of a registration status keep.
use example_ublox_mbed_clien.Prelude.{
  none, some, Option, List, [], ◌∷◌, ℤ, ℕ, Bool, true, false, if◌then◌else◌,
}
use example_ublox_mbed_clien.Act.{modify}
use example_ublox_mbed_clien.Act.Safe.{Safe, Moves-modify}
use example_ublox_mbed_clien.Cellular.{
  Urc, Modem, SockCtrl, set_sockets, log, urc, abort, callback, status_callback, error, cmx_error,
  creg, cgreg, cereg, umwi, uusord, uusorf, uusocl, uupsdd, cereg_n2xx, nsonmi, overrun,
}
use example_ublox_mbed_clien.Cellular.Callbacks.{
  handle_urc, handle_urcs, when_some, urc_status, urc_status_n2xx, set_nwk_reg_status_csd,
  set_nwk_reg_status_psd, set_nwk_reg_status_eps, call_back, at_socket, note_pending, add_pending,
  clear_at, close_handle, lose_handle, uusord_urc, uusocl_urc, uupsdd_urc, nsonmi_urc,
  cereg_n2xx_urc,
}
use example_ublox_mbed_clien.Cellular.Table.{find_socket, update_socket, clear_socket}

-- How the two kinds of driver read the status of a registration in a message.
pub record Reader : Type 0 where
  pub base : List ℕ → Option ℤ
  pub n2xx : List ℕ → Option ℤ

abbrev pub reader_of : Modem → Reader
reader_of m = record { base = λ input. urc_status input m; n2xx = λ input. urc_status_n2xx input m }

-- The changes that a callback about a socket makes.
pub record KeptBySockets (P : Modem → Type 0) : Type 0 where
  pub counted :
      (i : ℕ) (n : SockCtrl → ℕ) (m : Modem)
      → P m
      → P (set_sockets (update_socket i (λ s. record s { pending = n s })) m)
  pub cleared : (i : ℕ) (m : Modem) → P m → P (set_sockets (update_socket i clear_socket) m)
  pub called : (f a : ℕ) (m : Modem) → P m → P (log (callback f a) m)
  pub lost : (m : Modem) → P m → P (log status_callback m)

-- The changes that a callback makes.
pub record KeptByCallbacks (P : Modem → Type 0) : Type 0 where
  pub said : (u : Urc) (m : Modem) → P m → P (log (urc u) m)
  pub aborted : (m : Modem) → P m → P (log abort m)
  pub spoilt : (m : Modem) → P m → P (log overrun m)
  pub csd : (s : ℤ) (m : Modem) → P m → P (set_nwk_reg_status_csd s m)
  pub psd : (s : ℤ) (m : Modem) → P m → P (set_nwk_reg_status_psd s m)
  pub eps : (s : ℤ) (m : Modem) → P m → P (set_nwk_reg_status_eps s m)
  pub sockets : KeptBySockets P

if_keeps : (P : Modem → Type 0) (b : Bool) (n m : Modem) → P n → P m → P (if b then n else m)
if_keeps P true n m kn km = kn
if_keeps P false n m kn km = km

module _ {P : Modem → Type 0} (k : KeptBySockets P) where
  call_back_keeps : (o : Option SockCtrl) (m : Modem) → P m → P (call_back o m)
  call_back_keeps none m h = h
  call_back_keeps (some s) m h = call_keeps s.callback
    where
      call_keeps : (c : Option ℕ) → P (elim c [ none ↦ m | some f ↦ log (callback f s.argument) m ])
      call_keeps none = h
      call_keeps (some f) = k.called f s.argument m h

  at_socket_keeps :
      (o : Option ℕ) (n : SockCtrl → ℕ) (m : Modem)
      → P m
      → P (at_socket o (λ s. record s { pending = n s }) m)
  at_socket_keeps none n m h = h
  at_socket_keeps (some socket) n m h = call_back_keeps _ _ (k.counted socket n m h)

  note_pending_keeps : (o : Option (ℤ × ℤ)) (m : Modem) → P m → P (note_pending o m)
  note_pending_keeps none m h = h
  note_pending_keeps (some (a, b)) m h = at_socket_keeps _ _ m h

  add_pending_keeps : (o : Option (ℤ × ℤ)) (m : Modem) → P m → P (add_pending o m)
  add_pending_keeps none m h = h
  add_pending_keeps (some (a, b)) m h = at_socket_keeps _ _ m h

  clear_at_keeps : (o : Option ℕ) (m : Modem) → P m → P (clear_at o m)
  clear_at_keeps none m h = h
  clear_at_keeps (some socket) m h = k.cleared socket m h

  close_handle_keeps : (o : Option ℤ) (m : Modem) → P m → P (close_handle o m)
  close_handle_keeps none m h = h
  close_handle_keeps (some a) m h = clear_at_keeps _ m h

  lose_handle_keeps : (o : Option ℤ) (m : Modem) → P m → P (lose_handle o m)
  lose_handle_keeps none m h = h
  lose_handle_keeps (some a) m h =
      let h' = clear_at_keeps (find_socket a m.iface.sockets) m h in
      if_keeps P _ _ _ (k.lost _ h') h'

  pub uusord_keeps : (input : List ℕ) (m : Modem) → P m → P (uusord_urc input m)
  unfolding uusord_urc
  uusord_keeps input m h = if_keeps P _ _ _ (note_pending_keeps _ _ h) h

  pub uusocl_keeps : (input : List ℕ) (m : Modem) → P m → P (uusocl_urc input m)
  unfolding uusocl_urc
  uusocl_keeps input m h = if_keeps P _ _ _ (close_handle_keeps _ _ h) h

  pub uupsdd_keeps : (input : List ℕ) (m : Modem) → P m → P (uupsdd_urc input m)
  unfolding uupsdd_urc
  uupsdd_keeps input m h = if_keeps P _ _ _ (lose_handle_keeps _ _ h) h

  pub nsonmi_keeps : (input : List ℕ) (m : Modem) → P m → P (nsonmi_urc input m)
  unfolding nsonmi_urc
  nsonmi_keeps input m h = if_keeps P _ _ _ (add_pending_keeps _ _ h) h

module _ {P : Modem → Type 0} (k : KeptByCallbacks P) where
  when_some_keeps :
      (o : Option ℤ) (f : ℤ → Modem → Modem) (m : Modem)
      → ((s : ℤ) (m : Modem) → P m → P (f s m))
      → P m
      → P (when_some o f m)
  when_some_keeps none f m kf h = h
  when_some_keeps (some s) f m kf h = kf s m h

  pub handle_urc_keeps : (u : Urc) (m : Modem) → P m → P (handle_urc u m)
  unfolding handle_urc cereg_n2xx_urc
  handle_urc_keeps error m h = k.aborted _ (k.said _ m h)
  handle_urc_keeps (cmx_error input) m h = k.aborted _ (k.said _ m h)
  handle_urc_keeps (creg input) m h = when_some_keeps _ _ _ k.csd (k.said _ m h)
  handle_urc_keeps (cgreg input) m h = when_some_keeps _ _ _ k.psd (k.said _ m h)
  handle_urc_keeps (cereg input) m h = when_some_keeps _ _ _ k.eps (k.said _ m h)
  handle_urc_keeps (umwi input) m h = k.said _ m h
  handle_urc_keeps (uusord input) m h = uusord_keeps k.sockets input _ (k.said _ m h)
  handle_urc_keeps (uusorf input) m h = uusord_keeps k.sockets input _ (k.said _ m h)
  handle_urc_keeps (uusocl input) m h = uusocl_keeps k.sockets input _ (k.said _ m h)
  handle_urc_keeps (uupsdd input) m h = uupsdd_keeps k.sockets input _ (k.said _ m h)
  handle_urc_keeps (cereg_n2xx input) m h =
      let h' = k.said _ m h in when_some_keeps _ _ _ k.eps (if_keeps P _ _ _ (k.spoilt _ h') h')
  handle_urc_keeps (nsonmi input) m h = nsonmi_keeps k.sockets input _ (k.said _ m h)

  handle_urcs_keeps : (us : List Urc) (m : Modem) → P m → P (handle_urcs us m)
  unfolding handle_urcs
  handle_urcs_keeps [] m h = h
  handle_urcs_keeps (u ∷ us) m h = handle_urcs_keeps us (handle_urc u m) (handle_urc_keeps u m h)

  pub KeptByCallbacks-Safe : (us : List Urc) → Safe P (modify (handle_urcs us))
  KeptByCallbacks-Safe us = Moves-modify _ (handle_urcs_keeps us)
