-- ===== src/ClientSocket/Sending.antt =====
-- MyClientSocket: what the transport is given, and closing once, through any order of events.
use drgb_server.Prelude.{
  ℕ, ◌≤◌, ◌<◌, ◌≡◌, refl, ap, sym, ◌∙◌, Bool, true, false, Option, none, some, List, [], ◌∷◌, ◌++◌,
  append_assoc, append-nil, if◌then◌else◌, length, take, length-append, All, arith,
}
use drgb_server.PacketProcessor.{encapsulate, escape, pattern_byte, eof, concat}
use drgb_server.ClientSocket.{Socket, is_usable, close, closed, front, send_handle, payload, send}

-- A socket with the messages that it took, as they are framed, and the bytes that its transport has
-- taken: of each buffer, as it is at the call of `DoSend`, as many as were then reported as sent.
pub record World {ℓ} (C : Type ℓ) : Type ℓ where
  pub socket : Socket C
  pub accepted : List (List ℕ)
  pub taken : List ℕ

module _ {ℓ} {C : Type ℓ} where
  unfoldable pub sent : ℕ → List ℕ → World C → World C
  sent n bytes w = record w {
    socket = send_handle false n bytes w.socket;
    taken = w.taken ++ take n bytes;
  }

module _ {ℓ} {C : Type ℓ} (crypt : C → List ℕ → List ℕ × C) where
  -- The call of `Send`, with the message noted if the socket takes it.
  unfoldable pub sending : List ℕ → World C → World C
  sending bytes w = record w {
    socket = send crypt bytes w.socket;
    accepted =
        if is_usable w.socket
        then w.accepted ++ (encapsulate (payload crypt bytes w.socket).0 ∷ [])
        else w.accepted;
  }

  pub data Step : World C → World C → Type ℓ where
    sends : {w : World C} (bytes : List ℕ) → Step w (sending bytes w)
    -- the transport reports some of the buffer as sent
    takes :
        {w : World C} (n : ℕ) (bytes : List ℕ)
        → w.socket.in_flight ≡ some bytes
        → 0 < n
        → n ≤ length bytes
        → Step w (sent n bytes w)
    fails :
        {w : World C} (bytes : List ℕ)
        → w.socket.in_flight ≡ some bytes
        → Step w (record w { socket = send_handle true 0 bytes w.socket })
    closes : {w : World C} → Step w (record w { socket = close w.socket })
    ends : {w : World C} → w.socket.closing ≡ true → Step w (record w { socket = closed w.socket })
    -- the peer has gone
    loses : {w : World C} → Step w (record w { socket = record w.socket { readable = false } })

  pub data Steps : World C → World C → Type ℓ where
    done : {w : World C} → Steps w w
    later : {u v w : World C} → Step u v → Steps v w → Steps u w

pub concat-append : (a : List (List ℕ)) (b : List ℕ) → concat (a ++ (b ∷ [])) ≡ concat a ++ b
concat-append [] b = append-nil b
concat-append (c ∷ a) b = ap (◌++◌ c) (concat-append a b) ∙ sym (append_assoc c (concat a) b)

-- The bytes that are still to be sent, by what is being sent and the queue. `usable` is false where
-- the sending has stopped.
abbrev pub IsRest : Option (List ℕ) → List (List ℕ) → Bool → List ℕ → Type 0
IsRest none [] usable rest = rest ≡ []
IsRest none (_ ∷ queue) usable rest = usable ≡ false
IsRest (some bytes) [] usable rest = true ≡ false
IsRest (some bytes) (_ ∷ queue) usable rest =
    (rest ≡ bytes ++ concat queue) × (0 < length bytes) × All (λ m. 0 < length m) queue

pub All-append_one :
    (queue : List (List ℕ)) (m : List ℕ)
    → All (λ m. 0 < length m) queue
    → 0 < length m
    → All (λ m. 0 < length m) (queue ++ (m ∷ []))
All-append_one [] m h k = (k, tt)
All-append_one (q ∷ queue) m h k = (h.0, All-append_one queue m h.1 k)

pub IsRest-enqueue :
    (flight : Option (List ℕ)) (queue : List (List ℕ)) (rest m : List ℕ)
    → 0 < length m
    → IsRest flight queue true rest
    → IsRest (elim queue [ [] ↦ some m | _ ∷ _ ↦ flight ]) (queue ++ (m ∷ [])) true (rest ++ m)
IsRest-enqueue none [] rest m k h = (ap (λ r. r ++ m) h ∙ sym (append-nil m), k, tt)
IsRest-enqueue none (q ∷ queue) rest m k h = cc
IsRest-enqueue (some bytes) [] rest m k h = cc
IsRest-enqueue (some bytes) (q ∷ queue) rest m k (e, l, a) = (
  ap (λ r. r ++ m) e
      ∙ append_assoc bytes (concat queue) m
      ∙ ap (◌++◌ bytes) (sym (concat-append queue m)),
  l,
  All-append_one queue m a k,
)

pub IsRest-front :
    (usable : Bool) (queue : List (List ℕ))
    → All (λ m. 0 < length m) queue
    → IsRest (front queue) queue usable (concat queue)
unfolding front
IsRest-front usable [] h = refl
IsRest-front usable (m ∷ queue) h = (refl, h.0, h.1)

pub encapsulate_nonempty : (m : List ℕ) → 0 < length (encapsulate m)
unfolding encapsulate
encapsulate_nonempty m = omega (arith, length-append (escape m) (pattern_byte ∷ eof ∷ []))

-- All that was accepted, in its order, is what was taken and what is still to be sent.
pub record IsOrdered {ℓ} {C : Type ℓ} (w : World C) : Type ℓ where
  pub rest : List ℕ
  pub whole : w.taken ++ rest ≡ concat w.accepted
  pub waits : IsRest w.socket.in_flight w.socket.send_queue (is_usable w.socket) rest
