-- ===== src/PacketProcessor/Waiting.antt =====
-- PacketProcessor.cpp, `Stop`, `GetMsg` and `JoinMsg`: what a waiting reader gets.
use drgb_server.Prelude.{ℕ, ◌≡◌, Bool, true, false, some, List, [], ◌∷◌, if◌then◌else◌, arith}
use drgb_server.PacketProcessor.{
  PacketProcessor, get_msg, join_msg, waiting, timed_out, closed, received,
}

-- What `JoinMsg` returns: a stopped processor closes the wait even if messages are queued; a running
-- one hands out the oldest message and keeps the others; with none it times out or sleeps on. The
-- queue is never read when it is empty.
pub join_msg_cases :
    (expired : Bool) (p : PacketProcessor)
    → (p.is_running ≡ false → join_msg expired p ≡ closed)
      × ((m : List ℕ) (rest : List (List ℕ))
          → p.is_running ≡ true
          → p.msgs ≡ m ∷ rest
          → (join_msg expired p ≡ received m (record p { msgs = rest }))
            × (get_msg p ≡ some (m, record p { msgs = rest })))
      × (p.is_running ≡ true
          → p.msgs ≡ []
          → join_msg expired p ≡ (if expired then timed_out else waiting))
unfolding join_msg get_msg
join_msg_cases expired p =
    (λ h. ground arith, λ m rest h h'. (ground arith, ground arith), λ h h'. ground arith)
