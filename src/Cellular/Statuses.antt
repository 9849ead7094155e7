-- ===== src/Cellular/Statuses.antt =====
-- What the callbacks of UbloxCellularBase.cpp promise, as a machine with three registers, and that
-- they implement it.
use example_ublox_mbed_clien.Prelude.{
  ℕ, ◌≡◌, refl, none, some, Option, List, [], ◌∷◌, ℤ, get_or, Bool, true, false, if◌then◌else◌,
}
use example_ublox_mbed_clien.Cellular.{
  Urc, Modem, log, urc, error, cmx_error, creg, cgreg, cereg, umwi, uusord, uusorf, uusocl, uupsdd,
  cereg_n2xx, nsonmi, overrun,
}
use example_ublox_mbed_clien.Cellular.Callbacks.{
  handle_urc, handle_urcs, when_some, urc_status, urc_status_n2xx, scan_status, cereg_n2xx_urc,
  set_nwk_reg_status_csd, set_nwk_reg_status_psd, set_nwk_reg_status_eps,
}
use example_ublox_mbed_clien.Cellular.Unasked.{
  KeptByCallbacks, KeptBySockets, Reader, reader_of, handle_urc_keeps, uusord_keeps, uusocl_keeps,
  uupsdd_keeps, nsonmi_keeps,
}

-- the statuses of circuit switched, packet switched and LTE registration
pub record Statuses : Type 0 where
  pub csd : ℤ
  pub psd : ℤ
  pub eps : ℤ

abbrev pub statuses : Modem → Statuses
statuses m = record { csd = m.reg_status_csd; psd = m.reg_status_psd; eps = m.reg_status_eps }

-- A message changes the one register that it is about, if it can be read.
abbrev hear : Reader → Urc → Statuses → Statuses
hear read (creg input) s = record s { csd = get_or (read.base input) s.csd }
hear read (cgreg input) s = record s { psd = get_or (read.base input) s.psd }
hear read (cereg input) s = record s { eps = get_or (read.base input) s.eps }
hear read (cereg_n2xx input) s = record s { eps = get_or (read.n2xx input) s.eps }
hear read _ s = s

abbrev pub hear_all : Reader → List Urc → Statuses → Statuses
hear_all read [] s = s
hear_all read (u ∷ us) s = hear_all read us (hear read u s)

csd-statuses :
    (o : Option ℤ) (m : Modem)
    → statuses (when_some o set_nwk_reg_status_csd m)
      ≡ record (statuses m) { csd = get_or o m.reg_status_csd }
unfolding set_nwk_reg_status_csd
csd-statuses none m = refl
csd-statuses (some s) m = refl

psd-statuses :
    (o : Option ℤ) (m : Modem)
    → statuses (when_some o set_nwk_reg_status_psd m)
      ≡ record (statuses m) { psd = get_or o m.reg_status_psd }
unfolding set_nwk_reg_status_psd
psd-statuses none m = refl
psd-statuses (some s) m = refl

eps-statuses :
    (o : Option ℤ) (m : Modem)
    → statuses (when_some o set_nwk_reg_status_eps m)
      ≡ record (statuses m) { eps = get_or o m.reg_status_eps }
unfolding set_nwk_reg_status_eps
eps-statuses none m = refl
eps-statuses (some s) m = refl

spoilt_eps-statuses :
    (b : Bool) (o : Option ℤ) (m : Modem)
    → statuses (when_some o set_nwk_reg_status_eps (if b then log overrun m else m))
      ≡ record (statuses m) { eps = get_or o m.reg_status_eps }
spoilt_eps-statuses true o m = eps-statuses o (log overrun m)
spoilt_eps-statuses false o m = eps-statuses o m

-- Messages are read as `read` does.
record Reads (read : Reader) (m : Modem) : Type 0 where
  reads : (input : List ℕ) → urc_status input m ≡ read.base input
  reads_n2xx : (input : List ℕ) → urc_status_n2xx input m ≡ read.n2xx input

unchanged : (s : Statuses) → KeptBySockets (λ m. statuses m ≡ s)
unchanged s = record {
  counted = λ i n m h. h;
  cleared = λ i m h. h;
  called = λ f a m h. h;
  lost = λ m h. h;
}

module _ {read : Reader} where
  Reads-KeptByCallbacks : KeptByCallbacks (Reads read)
  unfolding urc_status urc_status_n2xx scan_status set_nwk_reg_status_csd set_nwk_reg_status_psd
      set_nwk_reg_status_eps
  Reads-KeptByCallbacks = record {
    said = λ u m h. record { reads = h.reads; reads_n2xx = h.reads_n2xx };
    aborted = λ m h. record { reads = h.reads; reads_n2xx = h.reads_n2xx };
    spoilt = λ m h. record { reads = h.reads; reads_n2xx = h.reads_n2xx };
    csd = λ s m h. record { reads = h.reads; reads_n2xx = h.reads_n2xx };
    psd = λ s m h. record { reads = h.reads; reads_n2xx = h.reads_n2xx };
    eps = λ s m h. record { reads = h.reads; reads_n2xx = h.reads_n2xx };
    sockets = record {
      counted = λ i n m h. record { reads = h.reads; reads_n2xx = h.reads_n2xx };
      cleared = λ i m h. record { reads = h.reads; reads_n2xx = h.reads_n2xx };
      called = λ f a m h. record { reads = h.reads; reads_n2xx = h.reads_n2xx };
      lost = λ m h. record { reads = h.reads; reads_n2xx = h.reads_n2xx };
    };
  }

  handle_urc-statuses :
      (u : Urc) (m : Modem) → Reads read m → statuses (handle_urc u m) ≡ hear read u (statuses m)
  unfolding handle_urc cereg_n2xx_urc
  handle_urc-statuses error m h = refl
  handle_urc-statuses (cmx_error input) m h = refl
  handle_urc-statuses (creg input) m h =
      let h' = Reads-KeptByCallbacks.said (creg input) m h in
      rw⁻¹ (h'.reads input) (csd-statuses _ (log (urc (creg input)) m))
  handle_urc-statuses (cgreg input) m h =
      let h' = Reads-KeptByCallbacks.said (cgreg input) m h in
      rw⁻¹ (h'.reads input) (psd-statuses _ (log (urc (cgreg input)) m))
  handle_urc-statuses (cereg input) m h =
      let h' = Reads-KeptByCallbacks.said (cereg input) m h in
      rw⁻¹ (h'.reads input) (eps-statuses _ (log (urc (cereg input)) m))
  handle_urc-statuses (umwi input) m h = refl
  handle_urc-statuses (uusord input) m h =
      uusord_keeps (unchanged (statuses m)) input (log (urc (uusord input)) m) refl
  handle_urc-statuses (uusorf input) m h =
      uusord_keeps (unchanged (statuses m)) input (log (urc (uusorf input)) m) refl
  handle_urc-statuses (uusocl input) m h =
      uusocl_keeps (unchanged (statuses m)) input (log (urc (uusocl input)) m) refl
  handle_urc-statuses (uupsdd input) m h =
      uupsdd_keeps (unchanged (statuses m)) input (log (urc (uupsdd input)) m) refl
  handle_urc-statuses (cereg_n2xx input) m h =
      let h' = Reads-KeptByCallbacks.said (cereg_n2xx input) m h in
      rw⁻¹ (h'.reads_n2xx input) (spoilt_eps-statuses _ _ (log (urc (cereg_n2xx input)) m))
  handle_urc-statuses (nsonmi input) m h =
      nsonmi_keeps (unchanged (statuses m)) input (log (urc (nsonmi input)) m) refl

  handle_urcs-hear_all :
      (us : List Urc) (m : Modem)
      → Reads read m
      → statuses (handle_urcs us m) ≡ hear_all read us (statuses m)
  unfolding handle_urcs
  handle_urcs-hear_all [] m h = refl
  handle_urcs-hear_all (u ∷ us) m h =
      rw⁻¹ (handle_urc-statuses u m h)
        (handle_urcs-hear_all us (handle_urc u m) (handle_urc_keeps Reads-KeptByCallbacks u m h))

-- The callbacks, run one after the other on whatever the modem says, do to the three registration
-- statuses what the three-register machine does to its registers: each message about a kind of
-- registration, if it can be read, sets the status of this kind and no other, and nothing else
-- sets one.
pub handle_urcs-statuses :
    (us : List Urc) (m : Modem)
    → statuses (handle_urcs us m) ≡ hear_all (reader_of m) us (statuses m)
handle_urcs-statuses us m =
    handle_urcs-hear_all us m (record { reads = λ i. refl; reads_n2xx = λ i. refl })
