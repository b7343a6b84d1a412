-- ===== src/Tests/SocketTests.antt =====
-- A connection on concrete messages, with a toy cipher whose key counts up.
use drgb_server.Prelude.{ℕ, suc, ◌+◌, ◌%◌, refl, true, false, none, List, [], ◌∷◌, map, length}
use drgb_server.Prelude.Int.{pos}
use drgb_server.PacketProcessor
use drgb_server.PacketProcessor.{PacketProcessor, encapsulate, concat}
use drgb_server.ClientSocket.{Socket, is_usable, send, close, closed, enqueue, payload}
use drgb_server.ClientSocket.Sending.{
  World, IsOrdered, Steps, done, later, sends, closes, ends, sending,
}
use drgb_server.ClientSocket.Order.{Steps-IsOrdered}
use drgb_server.ClientSocket.Closing.{EndsOnce, Steps-EndsOnce}
use drgb_server.ClientSocket.Delivery.{drain, send_all, sealed}

abbrev cipher : ℕ → List ℕ → List ℕ × ℕ
cipher key bytes = (map (λ b. (b + key) % 256) bytes, suc key)

abbrev fresh : Socket ℕ
fresh = record {
  is_secure = true;
  encryptor = 5;
  decryptor = 5;
  recvbuffer = PacketProcessor.new;
  initiate_close = false;
  send_queue = [];
  in_flight = none;
  ttl = pos 3;
  timer = false;
  readable = true;
  closing = false;
  cleaned = 0;
}

abbrev start_world : World ℕ
start_world = record { socket = fresh; accepted = []; taken = [] }

abbrev messages : List (List ℕ)
messages = (1 ∷ 2 ∷ []) ∷ [] ∷ (233 ∷ []) ∷ []

abbrev on_the_wire : List ℕ
on_the_wire =
    (drain (length (concat (map encapsulate (sealed cipher true 5 messages)))) (λ _. 2)
      (send_all cipher messages start_world)).taken

start_world-IsOrdered : IsOrdered start_world
start_world-IsOrdered = record { rest = []; whole = refl; waits = refl }

-- A message is sent, the connection is closed twice, and its transport ends.
abbrev closed_world : World ℕ
closed_world =
    let w = sending cipher (1 ∷ []) start_world in
    let v : World ℕ = record w { socket = close w.socket } in
    let u : World ℕ = record v { socket = close v.socket } in record u { socket = closed u.socket }

abbrev events : Steps cipher start_world closed_world
unfolding close sending send is_usable enqueue payload
events = later (sends (1 ∷ [])) (later closes (later closes (later (ends refl) done)))

Steps-IsOrdered_example : IsOrdered closed_world
Steps-IsOrdered_example = Steps-IsOrdered cipher events start_world-IsOrdered

Steps-EndsOnce_example : EndsOnce closed_world.socket
Steps-EndsOnce_example = Steps-EndsOnce cipher events refl
