-- ===== src/Narrowband/Discipline.antt =====
-- The rules for the AT parser and its mutex in the requests of UbloxCellularBaseN2xx.cpp.
use Prim.Native.String.{String}
use mathlib.Core.Path.{subst}
use example_ublox_mbed_clien.Prelude.{
  ℕ, suc, ◌<◌, ◌≤◌, Bool, true, some, none, Option, List, [], ◌∷◌, arith, ℤ, length, length-take,
  ltb, ◌≡◌, refl,
}
use example_ublox_mbed_clien.Act.{done, ◌>>=◌}
use example_ublox_mbed_clien.Act.Safe.{Safe, Safe-bind, Safe-pure, Moves-modify, Moves-attempt}
use example_ublox_mbed_clien.Act.Yields.{Yields, Yields-last, Yields-pure, Safe-bind-Yields}
use example_ublox_mbed_clien.Cellular.{Modem, Arg, Interface}
use example_ublox_mbed_clien.Cellular.Discipline.{
  Steady, at_rules, Safe-with_lock, Safe-assert_at, Safe-send, Safe-recv, Safe-recv_text,
}
use example_ublox_mbed_clien.Act.Gives.{Gives, Gives-bind, Gives-Moves}
use example_ublox_mbed_clien.Act.Ends.{Post}
use example_ublox_mbed_clien.Cellular.{Scanned, end_of_input, numbers, lock}
use example_ublox_mbed_clien.Cellular.Parser.{recv_text, emit}
use example_ublox_mbed_clien.Connection.{set_iface}
use example_ublox_mbed_clien.Narrowband.{
  fits, at_req_text, at_req_number, at_send, cgmi, cgmm, cgmr, cgsn, cereg, cops, get_cops, cfun,
  reboot, nconfig, get_cereg, get_csq, csq_answer, csq_rssi, get_sara_n2xx_info,
}

-- The text that is scanned is not longer than the format says.
recv_text-Yields : (width : ℕ) (f : String) → Yields (λ s. length s ≤ width) (recv_text width f)
unfolding recv_text
recv_text-Yields width f = Yields-last _ _ (λ _. Yields-last _ _ (λ m. Yields-last _ _ (λ _.
    Yields-last _ _ (λ _. Yields-pure _ (omega (arith, length-take width (m.field m.trace)))))))

module _ {t n : ℕ} where
  Safe-fits : (room : ℕ) (s : List ℕ) → length s < room → Safe (Steady t n) (fits room s)
  unfolding fits
  Safe-fits room s k = rw (ltb-true (length s) room k) (Safe-pure tt)
    where
      ltb-true : (a b : ℕ) → a < b → ltb a b ≡ true
      ltb-true a b k = ground (arith, k)

  Safe-set_iface_texts :
      (f : Interface → Interface)
      → ((i : Interface) → length (Interface.sockets (f i)) ≡ length i.sockets)
      → Safe (Steady t n) (set_iface f)
  Safe-set_iface_texts f k = Moves-modify _ (λ m h. ground (arith, k m.iface, h))

module _ {t n : ℕ} where
  pub Safe-at_req_text :
      (cmd : String) (arguments : List Arg) (width : ℕ) (format : String) (room : ℕ)
      → width < room
      → Safe (Steady t n) (at_req_text cmd arguments width format room)
  unfolding at_req_text
  Safe-at_req_text cmd arguments width format room k = Safe-with_lock _ (
      Safe-bind _ _ Safe-assert_at (λ _. Safe-bind _ _ (Safe-send cmd arguments) (λ _.
        Safe-bind-Yields _ _ (Safe-recv_text width format) (recv_text-Yields width format)
          (λ answer l.
            Safe-bind _ _ (Safe-fits room answer (omega (arith, k, l)))
              (λ _. Safe-bind _ _ (Safe-recv "OK") (λ _. Safe-pure answer))))))

  Safe-at_req_number : (cmd format : String) → Safe (Steady t n) (at_req_number cmd format)
  unfolding at_req_number
  Safe-at_req_number cmd format = search at_rules depth 20

  pub Safe-at_send :
      (cmd : String) (arguments : List Arg) → Safe (Steady t n) (at_send cmd arguments)
  unfolding at_send
  Safe-at_send cmd arguments = search at_rules depth 14

module _ {t n : ℕ} where
  pub Safe-get_sara_n2xx_info : Safe (Steady t n) get_sara_n2xx_info
  unfolding get_sara_n2xx_info cgmi cgmm cgmr cgsn
  Safe-get_sara_n2xx_info = Safe-bind _ _ (Safe-at_req_text _ _ 32 _ 33 (omega arith)) (λ a.
      Safe-bind _ _ (Safe-set_iface_texts _ (λ i. refl)) (λ _.
        Safe-bind _ _ (Safe-at_req_text _ _ 32 _ 33 (omega arith)) (λ b.
          Safe-bind _ _ (Safe-set_iface_texts _ (λ i. refl)) (λ _.
            Safe-bind _ _ (Safe-at_req_text _ _ 32 _ 33 (omega arith)) (λ c.
              Safe-bind _ _ (Safe-set_iface_texts _ (λ i. refl)) (λ _.
                Safe-bind _ _ (Safe-at_req_text _ _ 32 _ 33 (omega arith))
                  (λ d. Safe-set_iface_texts _ (λ i. refl))))))))

  pub Safe-cereg : (k : ℕ) → Safe (Steady t n) (cereg k)
  unfolding cereg
  Safe-cereg k = Safe-at_send _ _

  pub Safe-cops : (k : ℕ) → Safe (Steady t n) (cops k)
  unfolding cops
  Safe-cops k = Safe-at_send _ _

  pub Safe-get_cops : Safe (Steady t n) get_cops
  unfolding get_cops
  Safe-get_cops = Safe-at_req_number _ _

  pub Safe-reboot : Safe (Steady t n) reboot
  unfolding reboot
  Safe-reboot = Safe-at_send _ _

  pub Safe-cfun : (k : ℕ) → Safe (Steady t n) (cfun k)
  unfolding cfun
  Safe-cfun k = Safe-at_send _ _

  pub Safe-nconfig : (name : List ℕ) (state : Bool) → Safe (Steady t n) (nconfig name state)
  unfolding nconfig
  Safe-nconfig name state = Safe-at_send _ _

  pub Safe-get_cereg : Safe (Steady t n) get_cereg
  unfolding get_cereg
  Safe-get_cereg = search (at_rules, Safe-at_send) depth 14

-- The mutex under get_csq: held once more after a success.
module _ {t n : ℕ} where
  csq_answer-held :
      (o : Option (List ℕ)) → Gives (Steady t (suc n)) (λ _. Steady t (suc n)) (csq_answer o)
  unfolding emit ◌>>=◌
  csq_answer-held none = record { post = λ m h. tt }
  csq_answer-held (some s) = record { post = λ m h. rssi-held m h (m.mbed.scan_csq s) }
    where
      rssi-held :
          (m : Modem)
          → Steady t (suc n) m
          → (r : Scanned) → Post (λ _. Steady t (suc n)) (csq_rssi r m).0 (csq_rssi r m).1
      rssi-held m h end_of_input = tt
      rssi-held m h (numbers []) = tt
      rssi-held m h (numbers (r ∷ rs)) = h

  lock-held : Gives (Steady t n) (λ _. Steady t (suc n)) (emit lock)
  unfolding emit
  lock-held = record { post = λ m h. ground arith }

  get_csq-Gives : Gives (Steady t n) (λ _. Steady t (suc n)) get_csq
  unfolding get_csq
  get_csq-Gives = Gives-bind _ _ lock-held (λ _.
      Gives-bind _ _ (Gives-Moves _ (Safe-assert_at {t = t} {n = suc n}).at) (λ _.
        Gives-bind _ _
          (Gives-Moves _ ((Moves-attempt _ (Safe-at_req_text _ _ 5 _ 6 (omega arith))).at))
          (λ o. csq_answer-held o)))

-- For every modem with a parser, a PIN and seven sockets, and whatever it says and answers: when
-- get_csq returns a signal strength, the mutex is held once more than before. The parser's timeout
-- is as it was.
pub get_csq-held :
    (t n : ℕ) (m : Modem) (rssi : ℤ)
    → Steady t n m
    → (get_csq m).0 ≡ done rssi
    → Steady t (suc n) (get_csq m).1
get_csq-held t n m rssi h e =
    subst (λ r. Post (λ _. Steady t (suc n)) r (get_csq m).1) e (get_csq-Gives.post m h)
