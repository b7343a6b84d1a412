-- ===== src/BattleService.antt =====
-- source/battle/BattleServiceClient: the battle server's end of the stream to the match server.
-- What a connection brings, and whether the stream is there, are arguments; the calls that are made
-- are the result.
use drgb_server.Prelude.{ℕ, ◌%◌, Bool, true, false, List, [], ◌∷◌, ◌++◌, map, if◌then◌else◌}
use drgb_server.MatchService.Stream.{Status, good, resource_exhausted, cancelled, already_exists}

pub record Client : Type 0 where
  pub machine_id : ℕ
  pub is_running : Bool
  pub is_connected : Bool

unfoldable pub new : ℕ → Client
new machine_id = record { machine_id = machine_id; is_running = true; is_connected = false }

pub data Call : Type 0 where
  -- `stream->Write`, of a usage of 32 bits
  writes : ℕ → Call
  -- `callback`, with the ids of the players
  calls_back : ℕ × ℕ → Call
  -- `ThrowThreadException`, of the status
  throws : Status → Call
  -- `stream->WritesDone`
  ends : Call
  -- RECONNECT_TIME
  sleeps : Call

-- What one connection brings: the transfers that are read, the status that `Finish` gives, and
-- whether `Close` was called before the test behind it.
pub record Connection : Type 0 where
  pub transfers : List (ℕ × ℕ)
  pub status : Status
  pub was_closed : Bool

-- `weak_stream.lock()` gives no stream before the first connection and behind each one.
unfoldable pub set_usage : Bool → ℕ → List Call
set_usage stream usage = if stream then writes (usage % 4294967296) ∷ [] else []

unfoldable pub close_stream : Bool → Client → List Call × Client
close_stream stream c = (if stream then ends ∷ [] else [], record c { is_running = false })

-- The `switch` on the status.
unfoldable pub reported : Status → List Call
reported good = []
reported cancelled = []
reported resource_exhausted = throws resource_exhausted ∷ []
reported already_exists = throws already_exists ∷ []

-- One round of `ReceiveLoop`.
unfoldable pub connected : ℕ → Connection → List Call
unfolding set_usage reported
connected machine_id k =
    set_usage true machine_id ++ (map calls_back k.transfers ++ reported k.status)

-- `ReceiveLoop` over the connections that it makes.
unfoldable pub receive_loop : Client → List Connection → List Call × Client
receive_loop c [] = ([], c)
receive_loop c (k ∷ connections) =
    let ended = record c { is_running = false; is_connected = false } in
    let (calls, c') = receive_loop (record c { is_connected = false }) connections in
    if c.is_running
    then (if k.was_closed
        then (connected c.machine_id k, ended)
        else (connected c.machine_id k ++ sleeps ∷ calls, c'))
    else ([], c)

unfoldable pub is_open : Client → Bool
is_open c = c.is_connected
