-- ===== src/Connection/Discipline.antt =====
-- The rules for the AT parser in the connections of UbloxATCellularInterface.cpp.
use example_ublox_mbed_clien.Prelude.{ℕ, zero, suc, ◌+◌, Bool, some, none, Option, List, arith, ℤ}
use Prim.Native.String.{String}
use example_ublox_mbed_clien.Act.{◌>>=◌}
use example_ublox_mbed_clien.Act.Safe.{
  Safe, Safe-bind, Safe-pure, Safe-if, Safe-gets, Safe-guard, Moves-modify, Moves-attempt,
  Moves-gets,
}
use example_ublox_mbed_clien.Act.Runs.{Runs-bind, Runs-attempt}
use example_ublox_mbed_clien.Cellular.{Security}
use example_ublox_mbed_clien.Cellular.Discipline.{
  Steady, at_rules, at_set_timeout-Runs, Safe-with_lock,
}
use example_ublox_mbed_clien.Connection.{
  set_iface, allocate_ip, ask_ip, get_ip_address, is_connected, report_disconnect,
  disconnect_modem_stack, resolve, resolve_remotely, gethostbyname,
}
use example_ublox_mbed_clien.Connection.Profile.{
  get_next_credentials, activate, set_text, try_protocol, try_protocols, activate_profile,
  activate_profile_reuse_external, activate_profile_by_cid, try_credentials, credentials_loop,
  connect_if, query_profile, connect_modem_stack,
}

module _ {t n : ℕ} where
  pub Safe-set_ip :
      (ip : Option (List ℕ)) → Safe (Steady t n) (set_iface (λ i. record i { ip = ip }))
  Safe-set_ip ip = Moves-modify _ (λ m h. ground arith)

  Safe-set_auth : (auth : Security) → Safe (Steady t n) (set_iface (λ i. record i { auth = auth }))
  Safe-set_auth auth = Moves-modify _ (λ m h. ground arith)

  pub Safe-set_check_pending :
      (b : Bool) → Safe (Steady t n) (set_iface (λ i. record i { check_pending = b }))
  Safe-set_check_pending b = Moves-modify _ (λ m h. ground arith)

  pub Safe-set_pin_pending :
      (b : Bool) → Safe (Steady t n) (set_iface (λ i. record i { pin_pending = b }))
  Safe-set_pin_pending b = Moves-modify _ (λ m h. ground arith)

  Safe-next_credentials : (config : Option ℕ) → Safe (Steady t n) (get_next_credentials config)
  unfolding get_next_credentials ◌>>=◌
  Safe-next_credentials none = record { defined = λ m h. tt; at = λ m h. ground arith }
  Safe-next_credentials (some c) = record { defined = λ m h. tt; at = λ m h. ground arith }

  pub Safe-allocate_ip : (ip : Option (List ℕ)) → Safe (Steady t n) (allocate_ip ip)
  Safe-allocate_ip (some ip) = Safe-pure tt
  Safe-allocate_ip none = search at_rules depth 12

  pub Safe-report_disconnect : Safe (Steady t n) report_disconnect
  Safe-report_disconnect = search at_rules depth 9

module _ {t n : ℕ} where
  Safe-ask_ip : Safe (Steady t (suc n)) ask_ip
  Safe-ask_ip = search at_rules depth 20

  pub Safe-get_ip_address : Safe (Steady t n) get_ip_address
  unfolding get_ip_address
  Safe-get_ip_address = search (at_rules, Safe-allocate_ip, Safe-ask_ip, Safe-set_ip) depth 16

  Safe-resolve : (host : List ℕ) → Safe (Steady t (suc n)) (resolve host)
  unfolding resolve
  Safe-resolve host = search at_rules depth 20

module _ {t n : ℕ} where
  pub Safe-is_connected : Safe (Steady t n) is_connected
  unfolding is_connected
  Safe-is_connected = search (at_rules, Safe-get_ip_address) depth 9

  pub Safe-disconnect_modem_stack : Safe (Steady t n) disconnect_modem_stack
  unfolding disconnect_modem_stack
  Safe-disconnect_modem_stack =
      search (at_rules, Safe-get_ip_address, Safe-report_disconnect) depth 16

  Safe-resolve_remotely : (host : List ℕ) → Safe (Steady t n) (resolve_remotely host)
  Safe-resolve_remotely host = Safe-with_lock _ (
      Moves-gets _ t _ (λ m h. h.timeout)
        (Runs-bind _ _ (at_set_timeout-Runs 60000) (λ _.
          Runs-bind _ _ (Runs-attempt _ (Safe-resolve host))
            (λ ip. Runs-bind _ _ (at_set_timeout-Runs t) (λ _. Safe-pure ip)))))

  pub Safe-gethostbyname : (host : List ℕ) → Safe (Steady t n) (gethostbyname host)
  unfolding gethostbyname
  Safe-gethostbyname host =
      Safe-bind _ _ (Safe-gets _) (λ m. Safe-if _ _ _ (Safe-pure _) (Safe-resolve_remotely host))

  -- The timeout is put back to what it was when the activation began.
  Safe-activate : Safe (Steady t (suc n)) (activate t)
  Safe-activate = Runs-bind _ _ (at_set_timeout-Runs 30000) (λ _.
      Runs-bind {Q = Steady 30000 (suc n)} _ _ (Runs-attempt _ (search at_rules depth 9))
        (λ done_now. Runs-bind _ _ (at_set_timeout-Runs t) (λ _. Safe-guard _)))

  Safe-set_text : (format : String) (s : List ℕ) → Safe (Steady t (suc n)) (set_text format s)
  Safe-set_text format s = search at_rules depth 9

module _ {t n : ℕ} where
  Safe-try_protocol :
      (protocol : ℕ) (activated : Bool)
      → Safe (Steady t (suc n)) (try_protocol t protocol activated)
  Safe-try_protocol protocol activated = Safe-bind _ _ (search at_rules depth 12) (λ set.
      Safe-if _ _ _ (Safe-bind _ _ (Moves-attempt _ Safe-activate) (λ _. Safe-pure _))
        (Safe-pure activated))

  Safe-try_protocols :
      (left protocol : ℕ) (activated : Bool)
      → Safe (Steady t (suc n)) (try_protocols t left protocol activated)
  unfolding try_protocols
  Safe-try_protocols zero protocol activated = Safe-pure activated
  Safe-try_protocols (suc left) protocol activated = Safe-bind _ _ (Safe-gets _) (λ auth.
      Safe-bind _ _ (Safe-if _ _ _ (Safe-try_protocol protocol activated) (Safe-pure activated))
        (λ activated'. Safe-try_protocols left (protocol + 1) activated'))

  Safe-activate_profile :
      (apn username password : List ℕ)
      → Safe (Steady t (suc n)) (activate_profile apn username password)
  unfolding activate_profile
  Safe-activate_profile apn username password =
      Moves-gets _ t _ (λ m h. h.timeout)
        (search (at_rules, Safe-set_text, Safe-try_protocols) depth 30)

  Safe-reuse_external : Safe (Steady t (suc n)) activate_profile_reuse_external
  unfolding activate_profile_reuse_external
  Safe-reuse_external =
      Moves-gets _ t _ (λ m h. h.timeout) (search (at_rules, Safe-activate) depth 40)

  Safe-by_cid :
      (cid : ℕ) (apn username password : List ℕ) (auth : Security)
      → Safe (Steady t (suc n)) (activate_profile_by_cid cid apn username password auth)
  unfolding activate_profile_by_cid
  Safe-by_cid cid apn username password auth =
      Moves-gets _ t _ (λ m h. h.timeout) (search (at_rules, Safe-activate) depth 24)

  Safe-try_credentials : Safe (Steady t (suc n)) try_credentials
  unfolding try_credentials
  Safe-try_credentials = Safe-bind _ _ (Safe-gets _) (λ i. Safe-bind _ _ (Safe-set_auth _) (λ _.
      Safe-bind _ _ (Safe-gets _) (λ dev.
        Safe-if _ _ _
          (Safe-bind _ _ (Moves-attempt _ Safe-reuse_external)
            (λ reused. Safe-if _ _ _ (Safe-pure tt) (Safe-by_cid 1 _ _ _ _)))
          (Safe-activate_profile _ _ _))))

  Safe-credentials_loop :
      (rounds : ℕ) (config : Option ℕ) → Safe (Steady t (suc n)) (credentials_loop rounds config)
  unfolding credentials_loop
  Safe-credentials_loop zero config = Safe-pure none
  Safe-credentials_loop (suc rounds) config =
      Safe-bind _ _ (Safe-next_credentials config) (λ config'.
        Safe-bind _ _ (Moves-attempt _ Safe-try_credentials) (λ success.
          Safe-bind _ _ (Safe-gets _)
            (λ more. Safe-if _ _ _ (Safe-credentials_loop rounds config') (Safe-pure _))))

  Safe-connect_if : (rounds : ℕ) (o : Option ℤ) → Safe (Steady t (suc n)) (connect_if rounds o)
  Safe-connect_if rounds none = Safe-pure _
  Safe-connect_if rounds (some active) =
      Safe-if _ _ _ (Safe-bind _ _ (Safe-gets _) (λ config. Safe-credentials_loop rounds config))
        (Safe-pure _)

  Safe-query_profile : Safe (Steady t (suc n)) query_profile
  Safe-query_profile = search at_rules depth 14

  pub Safe-connect_modem_stack : (rounds : ℕ) → Safe (Steady t n) (connect_modem_stack rounds)
  unfolding connect_modem_stack
  Safe-connect_modem_stack rounds =
      Safe-with_lock _ (
        Safe-bind _ _ (Moves-attempt _ Safe-query_profile)
          (λ active. Safe-connect_if rounds active))
