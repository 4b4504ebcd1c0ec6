-- ===== src/WebSocket/Termination.antt =====
-- That the loop of `WSRecvMessage` of src/http/WSSession.cpp ends: every round takes something off the
-- stream.
use routn.Stream.{Outcome, ok, overrun, spins}
use routn.WebSocket.{Received, received, out_of_fuel}

-- The loop is not out of fuel, and spins only where `P` does not hold.
abbrev pub IsDone : Type 0 → Outcome Received → Type 0
IsDone P overrun = Unit
IsDone P spins = ¬ P
IsDone P (ok (received msg s)) = Unit
IsDone P (ok out_of_fuel) = ⊥

-- A message or null is returned, or bytes are stored outside of the buffer.
abbrev pub Returns : Outcome Received → Type 0
Returns overrun = Unit
Returns spins = ⊥
Returns (ok (received msg s)) = Unit
Returns (ok out_of_fuel) = ⊥
