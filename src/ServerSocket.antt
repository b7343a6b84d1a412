-- ===== src/ServerSocket.antt =====
-- source/network/MyServerSocket: the clients of an accepting socket.
-- A client is a number in place of its pointer; each method holds its lock throughout.
use drgb_server.Prelude.{
  ℕ, ◌≡◌, ◌≢◌, refl, ap, Bool, false, not, List, [], ◌∷◌, ◌++◌, ◌==◌, ==_refl, if◌then◌else◌,
  length, map, All, arith,
}

-- A call of the thread pool, of the I/O context or of the acceptor.
pub data Call : Type 0 where
  -- `SetCleanUp` of a client, with RemoveClient
  cleans_up : ℕ → Call
  closes_socket : Call
  resets_guard : Call
  joins_threads : Call
  stops_context : Call

pub record Acceptor : Type 0 where
  pub clients : List ℕ
  pub is_open : Bool

unfoldable pub add_client : ℕ → Acceptor → List Call × Acceptor
add_client client s = (cleans_up client ∷ [], record s { clients = s.clients ++ (client ∷ []) })

-- The loop of `RemoveClient`, which erases one client at most.
unfoldable pub without : ℕ → List ℕ → List ℕ
without client [] = []
without client (c ∷ clients) =
    let rest = without client clients in if c == client then clients else c ∷ rest

unfoldable pub remove_client : ℕ → Acceptor → Acceptor
unfolding without
remove_client client s = record s { clients = without client s.clients }

-- `safe_loop`, whose calls are the results of `process`.
unfoldable pub safe_loop {ℓ} : {A : Type ℓ} → (ℕ → A) → Acceptor → List A
safe_loop process s = map process s.clients

unfoldable pub get_connected : Acceptor → ℕ
get_connected s = length s.clients

-- `CloseSocket` closes the acceptor.
unfoldable pub close_acceptor : Acceptor → List Call × Acceptor
close_acceptor s = if not s.is_open then ([], s) else (
  closes_socket ∷ resets_guard ∷ joins_threads ∷ stops_context ∷ [],
  record s { is_open = false },
)

without-append :
    (client : ℕ) (clients : List ℕ)
    → All (λ c. c ≢ client) clients
    → without client (clients ++ client ∷ []) ≡ clients
unfolding without
without-append client [] fresh = rw (without, ==_refl client) refl
without-append client (c ∷ clients) (ne, fresh) =
    let other : (c == client) ≡ false = ground arith in
    rw (without, other) (ap (◌∷◌ c) (without-append client clients fresh))

-- A new client that is added and removed leaves the clients as they were.
pub remove_client-add_client :
    (client : ℕ) (s : Acceptor)
    → All (λ c. c ≢ client) s.clients
    → remove_client client (add_client client s).1 ≡ s
unfolding remove_client add_client
remove_client-add_client client s fresh =
    ap (λ xs. record s { clients = xs }) (without-append client s.clients fresh)
