-- ===== src/Sockets/Send/Blocks.antt =====
-- Which bytes a round of socket_send and socket_sendto of UbloxATCellularInterface.cpp writes.

use mathlib.Core.List.{append-nil}
use example_ublox_mbed_clien.Prelude.{ℕ, ◌≡◌, refl, sym, ◌∙◌, ap, List, [], ◌∷◌, ◌++◌, ℤ}
use example_ublox_mbed_clien.Act.{◌>>=◌}
use example_ublox_mbed_clien.Act.Splits.{Splits, Splits-then, Splits-last}
use example_ublox_mbed_clien.Act.Safe.{Safe, Safe-gets, Moves}
use example_ublox_mbed_clien.Cellular.{Modem, Event, write, log, wait_ms, lock, unlock}
use example_ublox_mbed_clien.Cellular.Talk.{
  KeptByTalk, talk_rules, IsTalk, talk-send, talk-recv, talk-emit, with_lock-Splits,
}
use example_ublox_mbed_clien.Cellular.Callbacks.{
  set_nwk_reg_status_csd, set_nwk_reg_status_psd, set_nwk_reg_status_eps,
}
use example_ublox_mbed_clien.Cellular.Parser.{emit, write_bytes}
use example_ublox_mbed_clien.Sockets.Send.{Target, peer, address, announce, send_block}

-- The bytes written, in order; the trace has the newest event first.
abbrev pub written : List Event → List ℕ
written [] = []
written (write b ∷ t) = written t ++ b
written (e ∷ t) = written t

abbrev pub Wrote : List ℕ → Modem → Type 0
Wrote x m = written m.trace ≡ x

module _ {x : List ℕ} where
  log-Wrote : (e : Event) (m : Modem) → IsTalk e → Wrote x m → Wrote x (log e m)
  log-Wrote (write b) m talk h = absurd talk
  log-Wrote _ m talk h = h

  Wrote-KeptByTalk : KeptByTalk (Wrote x)
  unfolding set_nwk_reg_status_csd set_nwk_reg_status_psd set_nwk_reg_status_eps
  Wrote-KeptByTalk = record {
    events = log-Wrote;
    callbacks = record {
      said = λ u m k. k;
      aborted = λ m k. k;
      spoilt = λ m k. k;
      csd = λ s m k. k;
      psd = λ s m k. k;
      eps = λ s m k. k;
      sockets = record {
        counted = λ i n m k. k;
        cleared = λ i m k. k;
        called = λ f a m k. k;
        lost = λ m k. k;
      };
    };
  }

  announce-Wrote : (target : Target) (h : ℤ) (blk : ℕ) → Safe (Wrote x) (announce target h blk)
  announce-Wrote peer h blk = talk-send Wrote-KeptByTalk _ _
  announce-Wrote (address ip port) h blk = talk-send Wrote-KeptByTalk _ _

-- `data_` has a first part that was written behind `x`.
abbrev pub WroteFirst : List ℕ → List ℕ → Modem → Type 0
WroteFirst x data_ m = (first rest : List ℕ) × (first ++ rest ≡ data_) × Wrote (x ++ first) m

Wrote-none : (x block : List ℕ) (m : Modem) → Wrote x m → WroteFirst x block m
Wrote-none x block m h = ([], block, refl, h ∙ sym (append-nil x))

Wrote-all : (x block : List ℕ) (m : Modem) → Wrote (x ++ block) m → WroteFirst x block m
Wrote-all x block m h = (block, [], append-nil block, h)

WroteFirst-log :
    (x block : List ℕ) (e : Event) (m : Modem)
    → IsTalk e
    → WroteFirst x block m
    → WroteFirst x block (log e m)
WroteFirst-log x block e m talk (first, rest, whole, h) = (first, rest, whole, log-Wrote e m talk h)

module _ {x : List ℕ} where
  write_bytes-Wrote : (block : List ℕ) → Moves (Wrote x) (Wrote (x ++ block)) (write_bytes block)
  unfolding write_bytes emit ◌>>=◌
  write_bytes-Wrote block = record { defined = λ m h. tt; at = λ m h. ap (λ l. l ++ block) h }

  pub send_block-Wrote :
      (target : Target) (socket : ℕ) (block : List ℕ)
      → Splits
          (Wrote x)
          (λ _. Wrote (x ++ block))
          (WroteFirst x block)
          (send_block target socket block)
  unfolding send_block
  send_block-Wrote target socket block =
      with_lock-Splits _ (λ m. log-Wrote lock m tt) (λ _ m. log-Wrote unlock m tt)
        (λ m. WroteFirst-log x block unlock m tt)
        (Splits-then _ _ none_yet (Safe-gets _) (λ h.
          Splits-then _ _ none_yet (announce-Wrote target h _) (λ _.
            Splits-then _ _ none_yet (talk-recv Wrote-KeptByTalk "@") (λ _.
              Splits-then _ _ none_yet (talk-emit Wrote-KeptByTalk (wait_ms 50) tt) (λ _.
                Splits-then _ _ (Wrote-all x block) (write_bytes-Wrote block) (λ taken.
                  Splits-last _ (Wrote-all x block)
                    (search (talk_rules, Wrote-KeptByTalk) depth 9)))))))
    where
      none_yet : (m : Modem) → Wrote x m → WroteFirst x block m
      none_yet = Wrote-none x block
