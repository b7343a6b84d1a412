-- ===== src/ClientSocket.antt =====
-- source/network/MyClientSocket: the sending and the receiving side of a connection, its time to live
-- and its end. The transport below it (`DoSend`, `DoRecv`, `DoClose`) is seen through its calls back;
-- `in_flight` is the copy of the bytes that is bound to the handler of the `DoSend` under way, which
-- `Send_Handle` gets back as its last argument. `DoSend` itself gets a pointer to a variable that the
-- caller destroys when it returns; what a transport that reads it later finds there is not modelled. The cipher is a parameter with a state of its own.
use drgb_server.Prelude.{
  ℕ, suc, ◌+◌, Bool, true, false, not, ◌&&◌, ◌||◌, Option, none, some, List, [], ◌∷◌, ◌++◌, ltb,
  ◌==◌, if◌then◌else◌, length, take, drop,
}
use drgb_server.Prelude.Int.{ℤ, dec, is_positive}
use drgb_server.PacketProcessor
use drgb_server.PacketProcessor.{PacketProcessor, encapsulate, is_msg_in, get_msg, recv}
pub mod Sending
pub mod Handle
pub mod Order
pub mod Closing
pub mod Delivery
pub mod Exchange

pub record Socket {ℓ} (C : Type ℓ) : Type ℓ where
  pub is_secure : Bool
  pub encryptor : C
  pub decryptor : C
  pub recvbuffer : PacketProcessor
  pub initiate_close : Bool
  pub send_queue : List (List ℕ)
  pub in_flight : Option (List ℕ)
  pub ttl : ℤ
  -- is a timeout set?
  pub timer : Bool
  -- `isReadable()`
  pub readable : Bool
  -- Is a `DoClose` under way, and how often was the clean-up handler called?
  pub closing : Bool
  pub cleaned : ℕ

-- What a call for the next message comes to.
pub data Outcome : Type 0 where
  -- the socket closes or is closed
  ignored : Outcome
  -- `DoRecv` waits for the transport
  waits : Outcome
  -- the handler is called, with a message or an error
  handled : List ℕ → Outcome
  broken : Outcome

-- What `send_queue.pop()` leaves, and its new front.
unfoldable pub popped : List (List ℕ) → List (List ℕ)
popped [] = []
popped (_ ∷ queue) = queue

unfoldable pub front : List (List ℕ) → Option (List ℕ)
front [] = none
front (bytes ∷ _) = some bytes

module _ {ℓ} {C : Type ℓ} where
  unfoldable pub is_usable : Socket C → Bool
  is_usable s = if s.readable then not s.initiate_close else false

  unfoldable pub cancel_timeout : Socket C → Socket C
  cancel_timeout s = record s { timer = false }

  unfoldable pub set_timeout : Socket C → Socket C
  set_timeout s = if s.initiate_close then s else record s { timer = true }

  unfoldable pub close : Socket C → Socket C
  close s =
      if s.initiate_close
      then s
      else if s.readable
      then record s { initiate_close = true; timer = false; closing = true }
      else record s { initiate_close = true; timer = false; cleaned = suc s.cleaned }

  -- The end of `DoClose` of the transport.
  unfoldable pub closed : Socket C → Socket C
  closed s = record s { readable = false; closing = false; cleaned = suc s.cleaned }

  unfoldable pub fill_ttl : ℤ → Socket C → Socket C
  fill_ttl max_ttl s = record s { ttl = max_ttl }

  unfoldable pub count_ttl : Socket C → Bool × Socket C
  count_ttl s = (is_positive (dec s.ttl), record s { ttl = dec s.ttl })

  -- The message is put into the queue, whose first element is the one that is being sent.
  unfoldable pub enqueue : List ℕ → Socket C → Socket C
  enqueue bytes s = record s {
    send_queue = s.send_queue ++ (bytes ∷ []);
    in_flight = elim s.send_queue [ [] ↦ some bytes | _ ∷ _ ↦ s.in_flight ];
  }

  -- The transport has sent `sent` of `bytes`, or failed.
  unfoldable pub send_handle : Bool → ℕ → List ℕ → Socket C → Socket C
  send_handle failed sent bytes s =
      let idle = record s { in_flight = none } in
      if failed || (sent == 0)
      then close idle
      else if not s.readable
      then idle
      else if ltb sent (length bytes)
      then record s { in_flight = some (drop sent bytes) }
      else record s { send_queue = popped s.send_queue; in_flight = front (popped s.send_queue) }

module _ {ℓ} {C : Type ℓ} (crypt : C → List ℕ → List ℕ × C) where
  -- The bytes that are framed, and the encryptor after them.
  unfoldable pub payload : List ℕ → Socket C → List ℕ × C
  payload bytes s = if s.is_secure then crypt s.encryptor bytes else (bytes, s.encryptor)

  unfoldable pub send : List ℕ → Socket C → Socket C
  send bytes s =
      let (sealed, encryptor) = payload bytes s in
      if is_usable s then enqueue (encapsulate sealed) (record s { encryptor = encryptor }) else s

  -- `Recv`: the next message that is complete, decrypted.
  unfoldable pub recv_msg : Socket C → Option (List ℕ × Socket C)
  recv_msg s = elim (get_msg s.recvbuffer) [
    | none ↦ none
    | some (bytes, recvbuffer) ↦
        let (opened, decryptor) = crypt s.decryptor bytes in
        if s.is_secure
        then some (opened, record s { recvbuffer = recvbuffer; decryptor = decryptor })
        else some (bytes, record s { recvbuffer = recvbuffer })
  ]

  unfoldable pub start_recv : Socket C → Outcome × Socket C
  start_recv s =
      if is_usable s
      then (elim (recv_msg s) [ none ↦ (waits, s) | some (bytes, s') ↦ (handled bytes, s') ])
      else (ignored, s)

  -- The transport has read `bytes`, or failed. `none` is the fault of `PacketProcessor::Recv`.
  unfoldable pub recv_handle : Bool → List ℕ → Socket C → Option (Outcome × Socket C)
  recv_handle failed bytes s =
      if failed then some (broken, close s) else elim (recv s.recvbuffer bytes) [
        | none ↦ none
        | some recvbuffer ↦
            let fed = record s { recvbuffer = recvbuffer } in
            elim (recv_msg fed) [
              | some (bytes', s') ↦ some (handled bytes', s')
              | none ↦ some (start_recv fed)
            ]
      ]
