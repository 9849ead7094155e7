-- ===== src/Cellular/Reports.antt =====
-- nwk_registration of UbloxCellularBase.cpp and what the modem reported.
pub mod Registration
use Prim.Native.String.{String}
use example_ublox_mbed_clien.Prelude.{
  ℕ, zero, suc, ◌≡◌, refl, Bool, true, false, ◌||◌, some, none, Option, List, [], ◌∷◌, ℤ, pos,
  ◌==ℤ◌, arith, sym, if◌then◌else◌,
}
use example_ublox_mbed_clien.Act.{Act, ◌>>=◌, ◌>>◌, modify, gets, attempt, done, expect, pure}
use example_ublox_mbed_clien.Act.Safe.{
  Moves, Safe, Safe-bind, Safe-if, Safe-pure, Moves-modify, Moves-attempt, safe_rules,
}
use example_ublox_mbed_clien.Act.Gives.{
  Gives, Gives-bind, Gives-pure, Gives-gets, Gives-attempt, Gives-expect, Gives-Moves, IfSomeAt,
}
use example_ublox_mbed_clien.Act.Ends.{Post}
use example_ublox_mbed_clien.Cellular.{
  SockCtrl, set_sockets, uusord, uusorf, uusocl, uupsdd, cereg_n2xx, nsonmi, overrun, Event, Arg,
  Urc, Modem, log, lock, unlock, urc, send, recv, error, cmx_error, creg, cgreg, cereg, umwi, abort,
}
use example_ublox_mbed_clien.Cellular.Callbacks.{
  handle_urc, handle_urcs, when_some, urc_status, urc_status_n2xx, scan_status, cereg_n2xx_urc,
  set_nwk_reg_status_csd, set_nwk_reg_status_psd, set_nwk_reg_status_eps, is_registered,
  is_registered_csd, is_registered_psd, is_registered_eps,
}
use example_ublox_mbed_clien.Cellular.Parser
use example_ublox_mbed_clien.Cellular.Parser.{
  emit, assert_at, recv_number, with_lock, at_set_timeout, command,
}
use example_ublox_mbed_clien.Cellular.Network.{
  nwk_registration, start_search, leave_manual, registration_loop, ask_rat, search_network, set_rat,
}
use example_ublox_mbed_clien.Cellular.Table.{update_socket, clear_socket}
use example_ublox_mbed_clien.Cellular.Unasked.{
  KeptBySockets, Reader, uusord_keeps, uusocl_keeps, uupsdd_keeps, nsonmi_keeps,
}

-- The statuses that mean a registration: home or roaming, and for circuit switched calls also one
-- without a preferred fallback.
abbrev means_registered : ℤ → Bool
means_registered s = s ==ℤ pos 1 || s ==ℤ pos 5

abbrev means_registered_csd : ℤ → Bool
means_registered_csd s = s ==ℤ pos 1 || s ==ℤ pos 5 || s ==ℤ pos 9

abbrev pub carries : (ℤ → Bool) → Option ℤ → Bool
carries good none = false
carries good (some s) = good s

-- The message carries a registered status, as `read` reads it.
abbrev tells : Reader → Urc → Bool
tells read (creg input) = carries means_registered_csd (read.base input)
tells read (cgreg input) = carries means_registered (read.base input)
tells read (cereg input) = carries means_registered (read.base input)
tells read (cereg_n2xx input) = carries means_registered (read.n2xx input)
tells read u = false

abbrev pub reported : Reader → List Event → Bool
reported read [] = false
reported read (urc u ∷ t) = tells read u || reported read t
reported read (e ∷ t) = reported read t

reported-log :
    (read : Reader) (e : Event) (t : List Event)
    → reported read t ≡ true
    → reported read (e ∷ t) ≡ true
reported-log read (urc u) t h = ground arith
reported-log read _ t h = h

-- Each registration that the object shows was reported, and so was one if `b`.
pub record Honest (read : Reader) (b : Bool) (m : Modem) : Type 0 where
  pub parser : m.at ≡ true
  pub reads : (input : List ℕ) → urc_status input m ≡ read.base input
  pub reads_n2xx : (input : List ℕ) → urc_status_n2xx input m ≡ read.n2xx input
  pub csd : is_registered_csd m ≡ true → reported read m.trace ≡ true
  pub psd : is_registered_psd m ≡ true → reported read m.trace ≡ true
  pub eps : is_registered_eps m ≡ true → reported read m.trace ≡ true
  pub told : b ≡ true → reported read m.trace ≡ true

-- A message that carries the status just read is in the trace.
first_tells :
    (good : ℤ → Bool) (o : Option ℤ) (p : Option ℤ) (rest : Bool)
    → o ≡ p
    → carries good o ≡ true
    → (carries good p || rest) ≡ true
first_tells good o p rest e k = simp (sym e, k)

module _ {read : Reader} {b : Bool} where
  pub log-Honest : (e : Event) (m : Modem) → Honest read b m → Honest read b (log e m)
  unfolding urc_status urc_status_n2xx scan_status is_registered_csd is_registered_psd
      is_registered_eps
  log-Honest e m h = record {
    parser = h.parser;
    reads = h.reads;
    reads_n2xx = h.reads_n2xx;
    csd = λ p. reported-log read e m.trace (h.csd p);
    psd = λ p. reported-log read e m.trace (h.psd p);
    eps = λ p. reported-log read e m.trace (h.eps p);
    told = λ p. reported-log read e m.trace (h.told p);
  }

  csd-Honest :
      (o : Option ℤ) (m : Modem)
      → (carries means_registered_csd o ≡ true → reported read m.trace ≡ true)
      → Honest read b m
      → Honest read b (when_some o set_nwk_reg_status_csd m)
  unfolding set_nwk_reg_status_csd urc_status urc_status_n2xx scan_status is_registered_csd
      is_registered_psd is_registered_eps
  csd-Honest none m k h = h
  csd-Honest (some s) m k h = record {
    parser = h.parser;
    reads = h.reads;
    reads_n2xx = h.reads_n2xx;
    csd = k;
    psd = h.psd;
    eps = h.eps;
    told = h.told;
  }

  psd-Honest :
      (o : Option ℤ) (m : Modem)
      → (carries means_registered o ≡ true → reported read m.trace ≡ true)
      → Honest read b m
      → Honest read b (when_some o set_nwk_reg_status_psd m)
  unfolding set_nwk_reg_status_psd urc_status urc_status_n2xx scan_status is_registered_csd
      is_registered_psd is_registered_eps
  psd-Honest none m k h = h
  psd-Honest (some s) m k h = record {
    parser = h.parser;
    reads = h.reads;
    reads_n2xx = h.reads_n2xx;
    csd = h.csd;
    psd = k;
    eps = h.eps;
    told = h.told;
  }

  eps-Honest :
      (o : Option ℤ) (m : Modem)
      → (carries means_registered o ≡ true → reported read m.trace ≡ true)
      → Honest read b m
      → Honest read b (when_some o set_nwk_reg_status_eps m)
  unfolding set_nwk_reg_status_eps urc_status urc_status_n2xx scan_status is_registered_csd
      is_registered_psd is_registered_eps
  eps-Honest none m k h = h
  eps-Honest (some s) m k h = record {
    parser = h.parser;
    reads = h.reads;
    reads_n2xx = h.reads_n2xx;
    csd = h.csd;
    psd = h.psd;
    eps = k;
    told = h.told;
  }

  spoilt_eps-Honest :
      (c : Bool) (o : Option ℤ) (m : Modem)
      → (carries means_registered o ≡ true → reported read m.trace ≡ true)
      → Honest read b m
      → Honest read b (when_some o set_nwk_reg_status_eps (if c then log overrun m else m))
  spoilt_eps-Honest true o m k h =
      eps-Honest o (log overrun m) (λ p. reported-log read overrun m.trace (k p))
        (log-Honest overrun m h)
  spoilt_eps-Honest false o m k h = eps-Honest o m k h

  set_sockets-Honest :
      (f : List SockCtrl → List SockCtrl) (m : Modem)
      → Honest read b m
      → Honest read b (set_sockets f m)
  unfolding urc_status urc_status_n2xx scan_status is_registered_csd is_registered_psd
      is_registered_eps
  set_sockets-Honest f m h = record {
    parser = h.parser;
    reads = h.reads;
    reads_n2xx = h.reads_n2xx;
    csd = h.csd;
    psd = h.psd;
    eps = h.eps;
    told = h.told;
  }

  pub Honest-KeptBySockets : KeptBySockets (Honest read b)
  Honest-KeptBySockets = record {
    counted = λ i n m h. set_sockets-Honest (update_socket i (λ s. record s { pending = n s })) m h;
    cleared = λ i m h. set_sockets-Honest (update_socket i clear_socket) m h;
    called = λ f a m h. log-Honest _ m h;
    lost = λ m h. log-Honest _ m h;
  }

  handle_urc-Honest : (u : Urc) (m : Modem) → Honest read b m → Honest read b (handle_urc u m)
  unfolding handle_urc cereg_n2xx_urc
  handle_urc-Honest error m h = log-Honest abort _ (log-Honest _ m h)
  handle_urc-Honest (cmx_error input) m h = log-Honest abort _ (log-Honest _ m h)
  handle_urc-Honest (creg input) m h =
      let h' = log-Honest (urc (creg input)) m h in
      csd-Honest _ _ (first_tells _ _ _ _ (h'.reads input)) h'
  handle_urc-Honest (cgreg input) m h =
      let h' = log-Honest (urc (cgreg input)) m h in
      psd-Honest _ _ (first_tells _ _ _ _ (h'.reads input)) h'
  handle_urc-Honest (cereg input) m h =
      let h' = log-Honest (urc (cereg input)) m h in
      eps-Honest _ _ (first_tells _ _ _ _ (h'.reads input)) h'
  handle_urc-Honest (umwi input) m h = log-Honest _ m h
  handle_urc-Honest (uusord input) m h =
      uusord_keeps Honest-KeptBySockets input _ (log-Honest _ m h)
  handle_urc-Honest (uusorf input) m h =
      uusord_keeps Honest-KeptBySockets input _ (log-Honest _ m h)
  handle_urc-Honest (uusocl input) m h =
      uusocl_keeps Honest-KeptBySockets input _ (log-Honest _ m h)
  handle_urc-Honest (uupsdd input) m h =
      uupsdd_keeps Honest-KeptBySockets input _ (log-Honest _ m h)
  handle_urc-Honest (cereg_n2xx input) m h =
      let h' = log-Honest (urc (cereg_n2xx input)) m h in
      spoilt_eps-Honest _ _ _ (first_tells _ _ _ _ (h'.reads_n2xx input)) h'
  handle_urc-Honest (nsonmi input) m h =
      nsonmi_keeps Honest-KeptBySockets input _ (log-Honest _ m h)

  pub handle_urcs-Honest :
      (us : List Urc) (m : Modem) → Honest read b m → Honest read b (handle_urcs us m)
  unfolding handle_urcs
  handle_urcs-Honest [] m h = h
  handle_urcs-Honest (u ∷ us) m h = handle_urcs-Honest us (handle_urc u m) (handle_urc-Honest u m h)
