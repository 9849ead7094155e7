-- ===== src/Cellular/Callbacks.antt =====
-- The callbacks for unsolicited result codes: those of UbloxCellularBase.cpp, with read_at_to_char, the
-- registration status and errors; those of UbloxATCellularInterface.cpp for sockets; and those of
-- UbloxCellularBaseN2xx.cpp and UbloxATCellularInterfaceN2xx.cpp that differ.
use example_ublox_mbed_clien.Prelude.{
  ℕ, zero, suc, Bool, false, not, is_some, ◌&&◌, Option, none, some, List, [], ◌∷◌, ℤ, pos, ◌==ℤ◌,
  ltb, ◌==◌, ◌||◌, length, if◌then◌else◌, get_or, to_u32, ◌+◌, ◌%◌, ◌^◌,
}
use example_ublox_mbed_clien.Cellular.{
  Urc, Mbed, Modem, SockCtrl, overrun, set_sockets, error, cmx_error, creg, cgreg, cereg, umwi,
  uusord, uusorf, uusocl, uupsdd, cereg_n2xx, nsonmi, abort, urc, log, callback, status_callback,
}
use example_ublox_mbed_clien.Cellular.Table.{find_socket, update_socket, get_socket, clear_socket}

-- The loop of `read_at_to_char` with the room that is left: the characters that it stores, the end
-- character and the -1 of a parser that has no more, as a `char`, included.
unfoldable pub stored_chars : ℕ → ℕ → List ℕ → List ℕ
stored_chars zero end input = []
stored_chars (suc room) end [] = 255 ∷ []
stored_chars (suc room) end (c ∷ input) =
    let rest = stored_chars room end input in c ∷ (if c == end then [] else rest)

-- all but the last one
unfoldable pub drop_last : List ℕ → List ℕ
drop_last [] = []
drop_last (c ∷ []) = []
drop_last (c ∷ d ∷ rest) = c ∷ drop_last (d ∷ rest)

unfoldable pub ends_with : ℕ → List ℕ → Bool
ends_with e [] = false
ends_with e (c ∷ []) = c == e
ends_with e (c ∷ d ∷ rest) = ends_with e (d ∷ rest)

-- The last character stored is overwritten by the terminator, and so is a carriage return before a
-- line feed. `none` is a write before the buffer, with an end character of 0: the loop is then not
-- entered and the count is -1.
unfoldable pub read_at_to_char : ℕ → ℕ → List ℕ → Option (List ℕ)
unfolding stored_chars drop_last ends_with
read_at_to_char size end input =
    if size == 0
    then some []
    else if end == 0
    then none
    else let line = drop_last (stored_chars size end input) in
      some (if end == b'\n' && ends_with b'\r' line then drop_last line else line)

unfoldable pub set_nwk_reg_status_csd : ℤ → Modem → Modem
set_nwk_reg_status_csd status m = record m { reg_status_csd = status }

unfoldable pub set_nwk_reg_status_psd : ℤ → Modem → Modem
set_nwk_reg_status_psd status m = record m { reg_status_psd = status }

unfoldable pub set_nwk_reg_status_eps : ℤ → Modem → Modem
set_nwk_reg_status_eps status m = record m { reg_status_eps = status }

-- `sscanf` with ": %*d,%d", else with ": %d"
unfoldable pub scan_status : List ℕ → Modem → Option ℤ
scan_status buf m = elim (m.scan_second buf) [ some status ↦ some status | none ↦ m.scan_first buf ]

-- The status that a registration URC carries: a line in a buffer of 10 characters that is not
-- empty and can be scanned.
unfoldable pub urc_status : List ℕ → Modem → Option ℤ
unfolding read_at_to_char scan_status
urc_status input m = elim (read_at_to_char 10 b'\n' input) [
  | none ↦ none
  | some buf ↦ if ltb 0 (length buf) then scan_status buf m else none
]

abbrev pub when_some : Option ℤ → (ℤ → Modem → Modem) → Modem → Modem
when_some none f m = m
when_some (some status) f m = f status m

-- CREG_URC, CGREG_URC, CEREG_URC
unfoldable pub creg_urc : List ℕ → Modem → Modem
unfolding urc_status set_nwk_reg_status_csd
creg_urc input m = when_some (urc_status input m) set_nwk_reg_status_csd m

unfoldable cgreg_urc : List ℕ → Modem → Modem
unfolding urc_status set_nwk_reg_status_psd
cgreg_urc input m = when_some (urc_status input m) set_nwk_reg_status_psd m

unfoldable cereg_urc : List ℕ → Modem → Modem
unfolding urc_status set_nwk_reg_status_eps
cereg_urc input m = when_some (urc_status input m) set_nwk_reg_status_eps m

-- `_at->abort()`
unfoldable parser_abort_cb : Modem → Modem
parser_abort_cb = log abort

-- `socket->callback(socket->data)`, if there is one; what the client's function does is not part of
-- the sources.
abbrev pub call_back : Option SockCtrl → Modem → Modem
call_back none m = m
call_back (some s) m = elim s.callback [ none ↦ m | some f ↦ log (callback f s.argument) m ]

-- A change of the socket with this handle, and its callback, if there is such a socket.
abbrev pub at_socket : Option ℕ → (SockCtrl → SockCtrl) → Modem → Modem
at_socket none f m = m
at_socket (some socket) f m =
    let m' = set_sockets (update_socket socket f) m in
    call_back (get_socket socket m'.iface.sockets) m'

-- the line that a socket's URC reads, in a buffer of 32 characters, if it is not empty
abbrev pub socket_line : List ℕ → List ℕ
socket_line input = get_or (read_at_to_char 32 b'\n' input) []

abbrev pub note_pending : Option (ℤ × ℤ) → Modem → Modem
note_pending none m = m
note_pending (some (a, b)) m =
    at_socket (find_socket a m.iface.sockets) (λ s. record s { pending = to_u32 b }) m

-- UUSORD_URC, and UUSORF_URC, which is the same
unfoldable pub uusord_urc : List ℕ → Modem → Modem
unfolding read_at_to_char find_socket update_socket get_socket
uusord_urc input m =
    let line = socket_line input in
    if ltb 0 (length line) then note_pending (m.mbed.scan_pair line) m else m

abbrev pub clear_at : Option ℕ → Modem → Modem
clear_at none m = m
clear_at (some socket) m = set_sockets (update_socket socket clear_socket) m

abbrev pub close_handle : Option ℤ → Modem → Modem
close_handle none m = m
close_handle (some a) m = clear_at (find_socket a m.iface.sockets) m

unfoldable pub uusocl_urc : List ℕ → Modem → Modem
unfolding read_at_to_char find_socket update_socket clear_socket
uusocl_urc input m =
    let line = socket_line input in
    if ltb 0 (length line) then close_handle (m.scan_first line) m else m

-- the client's function for the state of the connection, with NSAPI_ERROR_CONNECTION_LOST
abbrev pub report_loss : Modem → Modem
report_loss m = if m.iface.status_cb then log status_callback m else m

abbrev pub lose_handle : Option ℤ → Modem → Modem
lose_handle none m = m
lose_handle (some a) m = report_loss (clear_at (find_socket a m.iface.sockets) m)

unfoldable pub uupsdd_urc : List ℕ → Modem → Modem
unfolding read_at_to_char find_socket update_socket clear_socket
uupsdd_urc input m =
    let line = socket_line input in
    if ltb 0 (length line) then lose_handle (m.scan_first line) m else m

-- `read_at_to_newline` of the N2xx base driver: it keeps a carriage return.
unfoldable pub read_at_to_newline : ℕ → List ℕ → List ℕ
unfolding stored_chars drop_last
read_at_to_newline size input = drop_last (stored_chars size b'\n' input)

-- more bytes, in place of a new number of them
abbrev pub add_pending : Option (ℤ × ℤ) → Modem → Modem
add_pending none m = m
add_pending (some (a, b)) m =
    at_socket (find_socket a m.iface.sockets)
      (λ s. record s { pending = (s.pending + to_u32 b) % 2 ^ 32 }) m

unfoldable pub nsonmi_urc : List ℕ → Modem → Modem
unfolding read_at_to_newline find_socket update_socket get_socket
nsonmi_urc input m =
    let line = read_at_to_newline 32 input in
    if ltb 0 (length line) then add_pending (m.mbed.scan_tight_pair line) m else m

abbrev pub or_else : Option ℤ → Option ℤ → Option ℤ
or_else none p = p
or_else (some s) p = some s

-- The status that CEREG_URC of the N2xx base driver takes from a message: by the first of four formats
-- that fits.
unfoldable pub urc_status_n2xx : List ℕ → Modem → Option ℤ
unfolding read_at_to_newline
urc_status_n2xx input m =
    let line = read_at_to_newline 20 input in
    let status =
      or_else (m.mbed.scan_five line)
        (or_else (m.mbed.scan_four line) (or_else (m.mbed.scan_two line) (m.mbed.scan_one line))) in
    if ltb 0 (length line) then status else none

-- Whether some text does not fit with its terminator into the four characters of `tac` or `ci`.
unfoldable pub too_long : List (List ℕ) → Bool
too_long [] = false
too_long (t ∷ ts) = ltb 3 (length t) || too_long ts

-- Whether the scans of a line write behind `tac` or `ci`: the first one, or the second one, which is
-- made if the first does not fit. The widths of both are unbounded.
unfoldable pub overruns : List ℕ → Mbed → Bool
unfolding too_long
overruns line b =
    too_long (b.texts_five line)
    || (not (is_some (b.scan_five line)) && too_long (b.texts_four line))

abbrev pub note_overrun : List ℕ → Modem → Modem
note_overrun line m = if ltb 0 (length line) && overruns line m.mbed then log overrun m else m

-- CEREG_URC of the N2xx base driver. A write behind an array is noted in the trace; what it destroys
-- is left out.
unfoldable pub cereg_n2xx_urc : List ℕ → Modem → Modem
unfolding urc_status_n2xx set_nwk_reg_status_eps overruns read_at_to_newline
cereg_n2xx_urc input m =
    when_some (urc_status_n2xx input m) set_nwk_reg_status_eps
      (note_overrun (read_at_to_newline 20 input) m)

-- The callback that the constructors and `baseClassInit` attach to the prefix; the text of an error
-- is only traced, and that of UMWI is thrown away.
unfoldable pub handle_urc : Urc → Modem → Modem
unfolding creg_urc cgreg_urc cereg_urc parser_abort_cb uusord_urc uusocl_urc uupsdd_urc
    cereg_n2xx_urc nsonmi_urc
handle_urc error m = parser_abort_cb (log (urc error) m)
handle_urc (cmx_error input) m = parser_abort_cb (log (urc (cmx_error input)) m)
handle_urc (creg input) m = creg_urc input (log (urc (creg input)) m)
handle_urc (cgreg input) m = cgreg_urc input (log (urc (cgreg input)) m)
handle_urc (cereg input) m = cereg_urc input (log (urc (cereg input)) m)
handle_urc (umwi input) m = log (urc (umwi input)) m
handle_urc (uusord input) m = uusord_urc input (log (urc (uusord input)) m)
handle_urc (uusorf input) m = uusord_urc input (log (urc (uusorf input)) m)
handle_urc (uusocl input) m = uusocl_urc input (log (urc (uusocl input)) m)
handle_urc (uupsdd input) m = uupsdd_urc input (log (urc (uupsdd input)) m)
handle_urc (cereg_n2xx input) m = cereg_n2xx_urc input (log (urc (cereg_n2xx input)) m)
handle_urc (nsonmi input) m = nsonmi_urc input (log (urc (nsonmi input)) m)

unfoldable pub handle_urcs : List Urc → Modem → Modem
unfolding handle_urc
handle_urcs [] m = m
handle_urcs (u ∷ us) m = handle_urcs us (handle_urc u m)

unfoldable pub is_registered_csd : Modem → Bool
is_registered_csd m =
    m.reg_status_csd ==ℤ pos 1 || m.reg_status_csd ==ℤ pos 5 || m.reg_status_csd ==ℤ pos 9

unfoldable pub is_registered_psd : Modem → Bool
is_registered_psd m = m.reg_status_psd ==ℤ pos 1 || m.reg_status_psd ==ℤ pos 5

unfoldable pub is_registered_eps : Modem → Bool
is_registered_eps m = m.reg_status_eps ==ℤ pos 1 || m.reg_status_eps ==ℤ pos 5

abbrev pub is_registered : Modem → Bool
is_registered m = is_registered_psd m || is_registered_csd m || is_registered_eps m
