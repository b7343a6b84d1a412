-- ===== src/PacketProcessor.antt =====
-- source/utils/PacketProcessor.hpp and .cpp: the framing of messages in a byte stream.
-- A byte is a number below 256, `recvbuffer` and each message a list of bytes. The operations hold
-- the mutex for their whole length, so each is one function from state to state. `none` stands for
-- undefined behaviour (a read through `end()`) and for the exception of `GetMsg`.
use drgb_server.Prelude.{
  ℕ, zero, suc, ◌+◌, Bool, true, false, not, ◌&&◌, ◌||◌, Option, none, some, List, [], ◌∷◌, ◌++◌,
  ◌==◌, ltb, leb, if◌then◌else◌, length, take, drop,
}
mod Frames
pub mod Framing
pub mod Stream
pub mod Waiting
use mathlib.Core.Option

abbrev pub eof : ℕ
eof = 0xff

abbrev pub pattern_byte : ℕ
pattern_byte = 0xee

pub record PacketProcessor : Type 0 where
  pub is_running : Bool
  pub msgs : List (List ℕ)
  pub recvbuffer : List ℕ

-- The loop of `split`, at index `i`, over what the buffer holds from there. `none` is -1.
unfoldable pub split_from : ℕ → List ℕ → Option ℕ
split_from i [] = none
split_from i (b ∷ []) = none
split_from i (b ∷ c ∷ rest) =
    let skipped = split_from (i + 2) rest in
    let next = split_from (i + 1) (c ∷ rest) in
    if b == pattern_byte && c == pattern_byte
    then skipped
    else if b == pattern_byte && c == eof
    then some i
    else next

unfoldable pub split : List ℕ → Option ℕ
unfolding split_from
split buffer = split_from 0 buffer

-- `none` is a read of `*end()`, which the loop makes when its last byte is a lone `pattern`.
unfoldable pub decapsulate : List ℕ → Option (List ℕ)
decapsulate [] = some []
decapsulate (b ∷ []) = if b == pattern_byte then none else some (b ∷ [])
decapsulate (b ∷ c ∷ rest) =
    let escaped = decapsulate rest in
    let plain = decapsulate (c ∷ rest) in
    if b == pattern_byte
    then if c == eof then some [] else Option.map (◌∷◌ c) escaped
    else Option.map (◌∷◌ b) plain

-- The loop of `encapsulate`, without the terminator that follows it.
unfoldable pub escape : List ℕ → List ℕ
escape [] = []
escape (b ∷ bytes) = if b == pattern_byte then pattern_byte ∷ b ∷ escape bytes else b ∷ escape bytes

unfoldable pub encapsulate : List ℕ → List ℕ
unfolding escape
encapsulate bytes = escape bytes ++ pattern_byte ∷ eof ∷ []

-- `if(data.size() > 0) msgs.push(decapsulate(data))`
unfoldable pub push_msg : List (List ℕ) → List ℕ → Option (List (List ℕ))
push_msg msgs bytes =
    if ltb 0 (length bytes) then Option.map (λ m. msgs ++ m ∷ []) (decapsulate bytes) else some msgs

-- The loop of `flush`. Each round shortens the buffer by two bytes at least, so `flush` gives fuel
-- for its length.
unfoldable pub flush_loop : ℕ → List (List ℕ) → List ℕ → Option (List (List ℕ) × List ℕ)
unfolding push_msg
flush_loop zero msgs buffer = none
flush_loop (suc fuel) msgs buffer = elim (split buffer) [
  | none ↦ some (msgs, buffer)
  | some ptr ↦ elim (push_msg msgs (take ptr buffer)) [
    | none ↦ none
    | some pushed ↦ flush_loop fuel pushed (drop (ptr + 2) buffer)
  ]
]

unfoldable pub flush : PacketProcessor → Option PacketProcessor
unfolding flush_loop
flush p =
    Option.map (λ (msgs, buffer). record p { msgs = msgs; recvbuffer = buffer })
      (flush_loop (suc (length p.recvbuffer)) p.msgs p.recvbuffer)

unfoldable pub recv : PacketProcessor → List ℕ → Option PacketProcessor
unfolding flush
recv p bytes = flush (record p { recvbuffer = p.recvbuffer ++ bytes })

-- The calls of `Recv` for the fragments of a stream, in order.
unfoldable pub recv_all : PacketProcessor → List (List ℕ) → Option PacketProcessor
recv_all p [] = some p
recv_all p (bytes ∷ chunks) = elim (recv p bytes) [ none ↦ none | some q ↦ recv_all q chunks ]

abbrev pub concat : List (List ℕ) → List ℕ
concat [] = []
concat (l ∷ ls) = l ++ concat ls

unfoldable pub new : PacketProcessor
new = record { is_running = true; msgs = []; recvbuffer = [] }

unfoldable pub start : PacketProcessor → PacketProcessor
start p = record p { is_running = true }

unfoldable pub clear : PacketProcessor → PacketProcessor
clear p = record p { msgs = []; recvbuffer = [] }

unfoldable pub stop : PacketProcessor → PacketProcessor
unfolding clear
stop p = clear (record p { is_running = false })

unfoldable pub is_msg_in : PacketProcessor → Bool
is_msg_in p = ltb 0 (length p.msgs)

-- `none` is the exception on an empty queue.
unfoldable pub get_msg : PacketProcessor → Option (List ℕ × PacketProcessor)
get_msg p = elim p.msgs [ [] ↦ none | m ∷ rest ↦ some (m, record p { msgs = rest }) ]

pub data Joined : Type 0 where
  -- the waiting thread sleeps on
  waiting : Joined
  timed_out : Joined
  closed : Joined
  received : List ℕ → PacketProcessor → Joined
  -- `front()` of an empty queue
  fault : Joined

unfoldable pub join_front : PacketProcessor → Joined
join_front p = elim p.msgs [ [] ↦ fault | m ∷ rest ↦ received m (record p { msgs = rest }) ]

-- `JoinMsg(dur)` in the state in which its wait looks at the predicate; `expired` says that `dur`
-- is positive and has passed.
unfoldable pub join_msg : (expired : Bool) → PacketProcessor → Joined
unfolding is_msg_in join_front
join_msg expired p =
    if not (is_msg_in p || not p.is_running)
    then if expired then timed_out else waiting
    else if p.is_running
    then join_front p
    else closed
