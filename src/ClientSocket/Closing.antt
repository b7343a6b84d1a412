-- ===== src/ClientSocket/Closing.antt =====
-- MyClientSocket: a connection ends once.
use drgb_server.Prelude.{ℕ, ◌+◌, ◌≡◌, List, if◌then◌else◌, arith}
use drgb_server.ClientSocket.{Socket, close, closed, enqueue, send_handle, send}
use drgb_server.ClientSocket.Sending.{
  World, sending, sent, Step, sends, takes, fails, closes, ends, loses, Steps, done, later,
}

-- The ends of the connection that are under way or done are those that were asked for: at most one.
abbrev pub EndsOnce {ℓ} : {C : Type ℓ} → Socket C → Type 0
EndsOnce s = s.cleaned + (if s.closing then 1 else 0) ≡ (if s.initiate_close then 1 else 0)

module _ {ℓ} {C : Type ℓ} (crypt : C → List ℕ → List ℕ × C) where
  Step-EndsOnce : {v w : World C} → Step crypt v w → EndsOnce v.socket → EndsOnce w.socket
  unfolding sending send enqueue sent send_handle close closed
  Step-EndsOnce (sends {w} m) o = ground arith
  Step-EndsOnce (takes {w} n bytes e pos le) o = ground arith
  Step-EndsOnce (fails {w} bytes e) o = ground arith
  Step-EndsOnce (closes {w}) o = ground arith
  Step-EndsOnce (ends {w} e) o = ground arith
  Step-EndsOnce (loses {w}) o = o

  -- Whoever closes a connection, and how often: its transport is closed at most once, and its
  -- clean-up handler is called at most once, and only if it was closed.
  pub Steps-EndsOnce : {v w : World C} → Steps crypt v w → EndsOnce v.socket → EndsOnce w.socket
  Steps-EndsOnce done o = o
  Steps-EndsOnce (later s steps) o = Steps-EndsOnce steps (Step-EndsOnce s o)
