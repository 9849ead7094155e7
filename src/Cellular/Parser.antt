-- ===== src/Cellular/Parser.antt =====
-- The calls that UbloxCellularBase.cpp makes of the AT parser, the mutex and the board.
use Prim.Native.String.{String}
use example_ublox_mbed_clien.Prelude.{[], some, none, Option, ℕ, List, ℤ, take, if◌then◌else◌}
use example_ublox_mbed_clien.Act.{
  Act, done, fault, pure, gets, modify, guard, attempt, expect, ◌>>=◌, ◌>>◌,
}
use example_ublox_mbed_clien.Cellular.{Event, Arg, Modem, log}
use example_ublox_mbed_clien.Cellular
use example_ublox_mbed_clien.Cellular.Callbacks.{handle_urcs}

-- A call that cannot fail.
unfoldable pub emit : Event → Act Modem Unit
emit e = modify (log e)

-- `MBED_ASSERT(_at != NULL)`: it stops the program.
unfoldable pub assert_at : Act Modem Unit
assert_at m = if m.at then (done tt, m) else (fault, m)

-- `_at->send(format, args)`, as a condition
unfoldable pub send : String → List Arg → Act Modem Unit
unfolding emit
send format args = do emit (Cellular.send format args); m ← gets (λ m. m); guard (m.sends m.trace)

-- `_at->recv(format)`, as a condition: the callbacks of what the modem says meanwhile run first.
unfoldable pub recv : String → Act Modem Unit
unfolding emit handle_urcs
recv format = do
  emit (Cellular.recv format)
  m ← gets (λ m. m)
  modify (handle_urcs (m.urcs m.trace))
  guard (m.receives m.trace)

-- The same with a `%s` or a `%d`, and what it scans if it succeeds: a field of at most `width`
-- characters, or a number.
unfoldable pub recv_text : ℕ → String → Act Modem (List ℕ)
unfolding emit handle_urcs
recv_text width format = do
  emit (Cellular.recv format)
  m ← gets (λ m. m)
  modify (handle_urcs (m.urcs m.trace))
  guard (m.receives m.trace)
  pure (take width (m.field m.trace))

unfoldable pub recv_number : String → Act Modem ℤ
unfolding emit handle_urcs
recv_number format = do
  emit (Cellular.recv format)
  m ← gets (λ m. m)
  modify (handle_urcs (m.urcs m.trace))
  guard (m.receives m.trace)
  pure (m.number m.trace)

-- With two numbers, or with a text and two numbers.
unfoldable pub recv_second : String → Act Modem (ℤ × ℤ)
unfolding emit handle_urcs
recv_second format = do
  emit (Cellular.recv format)
  m ← gets (λ m. m)
  modify (handle_urcs (m.urcs m.trace))
  guard (m.receives m.trace)
  pure (m.number m.trace, m.mbed.second m.trace)

unfoldable pub recv_address : ℕ → String → Act Modem (List ℕ × (ℤ × ℤ))
unfolding emit handle_urcs
recv_address width format = do
  emit (Cellular.recv format)
  m ← gets (λ m. m)
  modify (handle_urcs (m.urcs m.trace))
  guard (m.receives m.trace)
  pure (take width (m.field m.trace), (m.number m.trace, m.mbed.second m.trace))

-- `_at->write(buf, size)`
unfoldable pub write_bytes : List ℕ → Act Modem ℤ
unfolding emit
write_bytes buf = do emit (Cellular.write buf); gets (λ m. m.mbed.taken m.trace)

abbrev pub at_most : ℕ → Option (List ℕ) → List ℕ
at_most size none = []
at_most size (some b) = take size b

-- `_at->read(buf, size)`: at most `size` bytes, none if it fails
unfoldable pub read_bytes : ℕ → Act Modem (List ℕ)
unfolding emit
read_bytes size = do emit (Cellular.read size); gets (λ m. at_most size (m.mbed.bytes m.trace))

-- `_at->send(…) && _at->recv("OK")`
abbrev pub command : String → List Arg → Act Modem Unit
command format args = do send format args; recv "OK"

-- `LOCK(); … UNLOCK();`: the body's failure comes out behind the unlock.
unfoldable pub with_lock : {A : Type 0} → Act Modem A → Act Modem A
unfolding emit
with_lock body = do emit Cellular.lock; result ← attempt body; emit Cellular.unlock; expect result

unfoldable pub at_set_timeout : ℕ → Act Modem Unit
unfolding emit assert_at
at_set_timeout timeout = do
  assert_at
  modify (λ m. record m { at_timeout = timeout })
  emit (Cellular.set_timeout timeout)
