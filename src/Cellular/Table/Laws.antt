-- ===== src/Cellular/Table/Laws.antt =====
-- The table of sockets under changes through a pointer.
use mathlib.Core.Path.{subst}
use example_ublox_mbed_clien.Prelude.{
  ℕ, zero, suc, ◌<◌, ◌≡◌, refl, ap, true, false, inl, inr, Bool-cases, Option, none, some, get_or,
  List, [], ◌∷◌, length, ℤ, ◌==ℤ◌, arith,
}
use example_ublox_mbed_clien.Cellular.{SockCtrl}
use example_ublox_mbed_clien.Cellular.Table.{one_further, find_socket, update_socket, get_socket}

pub length-update_socket :
    (i : ℕ) (f : SockCtrl → SockCtrl) (sockets : List SockCtrl)
    → length (update_socket i f sockets) ≡ length sockets
unfolding update_socket
length-update_socket i f [] = refl
length-update_socket zero f (s ∷ rest) = refl
length-update_socket (suc i) f (s ∷ rest) = ap suc (length-update_socket i f rest)

-- The table has the handle at the index and not before it, or nowhere.
abbrev pub IsFirst : ℤ → List SockCtrl → Option ℕ → Type 0
IsFirst h sockets none =
    (j : ℕ) (s : SockCtrl) → get_socket j sockets ≡ some s → (s.modem_handle ==ℤ h) ≡ false
IsFirst h sockets (some i) =
    ((s : SockCtrl) × ((get_socket i sockets ≡ some s) × ((s.modem_handle ==ℤ h) ≡ true)))
    × ((j : ℕ) (s : SockCtrl)
        → j < i
        → get_socket j sockets ≡ some s
        → (s.modem_handle ==ℤ h) ≡ false)

same_handle :
    (h : ℤ) (s s' : SockCtrl)
    → some s ≡ some s'
    → (s.modem_handle ==ℤ h) ≡ false
    → (s'.modem_handle ==ℤ h) ≡ false
same_handle h s s' e n = subst (λ x. (SockCtrl.modem_handle x ==ℤ h) ≡ false) (get_or_some e) n
  where
    get_or_some : some s ≡ some s' → s ≡ s'
    get_or_some e = ap (λ o. get_or o s) e

one_further-IsFirst :
    (h : ℤ) (s : SockCtrl) (rest : List SockCtrl) (o : Option ℕ)
    → (s.modem_handle ==ℤ h) ≡ false
    → IsFirst h rest o
    → IsFirst h (s ∷ rest) (one_further o)
unfolding get_socket
one_further-IsFirst h s rest none n k = after_first
  where
    after_first : IsFirst h (s ∷ rest) none
    after_first zero s' e = same_handle h s s' e n
    after_first (suc j) s' e = k j s' e
one_further-IsFirst h s rest (some i) n (there, before) = (there, before_it)
  where
    before_it :
        (j : ℕ) (s' : SockCtrl)
        → j < suc i
        → get_socket j (s ∷ rest) ≡ some s'
        → (s'.modem_handle ==ℤ h) ≡ false
    before_it zero s' l e = same_handle h s s' e n
    before_it (suc j) s' l e = before j s' (omega (arith, l)) e

-- For every table and handle, find_socket returns the index of the first socket that has the handle,
-- and no index only where no socket has it.
pub find_socket-IsFirst :
    (h : ℤ) (sockets : List SockCtrl) → IsFirst h sockets (find_socket h sockets)
unfolding find_socket get_socket
find_socket-IsFirst h [] = λ j s e. absurd (ground arith)
find_socket-IsFirst h (s ∷ rest) = elim (Bool-cases (s.modem_handle ==ℤ h)) [
  | inl found ↦ rw found ((s, (refl, found)), λ j s' l e. absurd (omega (arith, l)))
  | inr other ↦ rw other (one_further-IsFirst h s rest _ other (find_socket-IsFirst h rest))
]
