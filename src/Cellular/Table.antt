-- ===== src/Cellular/Table.antt =====
-- The table of sockets of UbloxATCellularInterface.cpp and UbloxATCellularInterfaceN2xx.cpp. A pointer
-- to a socket is its index, and the null pointer is `none`.
pub mod Laws
use example_ublox_mbed_clien.Prelude.{
  ℕ, zero, suc, Bool, Option, none, some, List, [], ◌∷◌, ℤ, negsuc, ◌==ℤ◌, ltb, length,
  if◌then◌else◌,
}
use example_ublox_mbed_clien.Cellular.{SockCtrl}

-- SOCKET_UNUSED
abbrev pub socket_unused : ℤ
socket_unused = negsuc 0

abbrev pub one_further : Option ℕ → Option ℕ
one_further none = none
one_further (some i) = some (suc i)

-- The first socket with this handle.
unfoldable pub find_socket : ℤ → List SockCtrl → Option ℕ
find_socket modem_handle [] = none
find_socket modem_handle (s ∷ rest) =
    let further = one_further (find_socket modem_handle rest) in
    if s.modem_handle ==ℤ modem_handle then some 0 else further

unfoldable pub clear_socket : SockCtrl → SockCtrl
clear_socket s = record { modem_handle = socket_unused; pending = 0; callback = none; argument = 0 }

-- Does the pointer point into the table?
unfoldable pub check_socket : ℕ → List SockCtrl → Bool
check_socket socket sockets = ltb socket (length sockets)

-- an assignment through a pointer
unfoldable pub update_socket : ℕ → (SockCtrl → SockCtrl) → List SockCtrl → List SockCtrl
update_socket socket f [] = []
update_socket zero f (s ∷ rest) = f s ∷ rest
update_socket (suc socket) f (s ∷ rest) = s ∷ update_socket socket f rest

unfoldable pub get_socket : ℕ → List SockCtrl → Option SockCtrl
get_socket socket [] = none
get_socket zero (s ∷ rest) = some s
get_socket (suc socket) (s ∷ rest) = get_socket socket rest
