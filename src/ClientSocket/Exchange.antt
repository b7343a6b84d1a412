-- ===== src/ClientSocket/Exchange.antt =====
-- source/network/MyClientSocket: the exchange of keys, and which errors are a normal close.
-- The key pair, the derivation and the cipher of OpenSSL are parameters.
use drgb_server.Prelude.{
  ℕ, ◌≡◌, refl, Bool, true, false, Option, none, some, List, [], ◌∷◌, ◌==◌, if◌then◌else◌, length,
  take, drop, arith,
}
use drgb_server.PacketProcessor.{encapsulate, get_msg}
use drgb_server.ErrorCode.{ErrorCode, is_successed, type_errno, type_custom, type_boost}
use drgb_server.ClientSocket.{
  Socket, Outcome, waits, ignored, cancel_timeout, set_timeout, send, payload, enqueue, is_usable,
  start_recv, recv_msg,
}

-- What the handler of the exchange is called with.
pub data Exchanged : Type 0 where
  exchanged : Exchanged
  -- the error of GetPublicKey, or of receiving
  failed : Exchanged
  connection_closed : Exchanged
  protocol_violation : Exchanged
  out_of_capacity : Exchanged

-- `KeyExchanger` of one end, with its own private key.
pub record KeyExchanger : Type 0 where
  pub public_key : Option (List ℕ)
  pub compute_key : List ℕ → Option (List ℕ)

-- The key of 32 bytes and the start vector of 16, of 48 bytes: the caller has tested the length.
unfoldable pub split_key : List ℕ → List ℕ × List ℕ
split_key derived = (take 32 derived, take 16 (drop 32 derived))

module _ {ℓ} {C : Type ℓ} (crypt : C → List ℕ → List ℕ × C) where
  -- `KeyExchange` up to the wait for the peer: the handler's call, or the result of `StartRecv`.
  unfoldable pub key_exchange : KeyExchanger → Socket C → Option Exchanged × Outcome × Socket C
  key_exchange keys s = elim keys.public_key [
    | none ↦ (some failed, ignored, s)
    | some pkey ↦
        let s' = send crypt pkey s in
        let (outcome, s'') = start_recv crypt (set_timeout s') in
        if s'.readable then (none, outcome, s'') else (some connection_closed, ignored, s')
  ]

module _ {ℓ} {C : Type ℓ} (kdf : List ℕ → List ℕ) (encrypts decrypts : List ℕ → List ℕ → C) where
  -- Both ciphers with the derived key.
  unfoldable pub secured : List ℕ × List ℕ → Socket C → Socket C
  secured (key, iv) s = record s {
    is_secure = true;
    encryptor = encrypts key iv;
    decryptor = decrypts key iv;
  }

  -- The handler of the peer's public key; `none` is an error of receiving.
  unfoldable pub key_received : KeyExchanger → Option (List ℕ) → Socket C → Exchanged × Socket C
  key_received keys none s = (failed, cancel_timeout s)
  key_received keys (some packet) s = elim (keys.compute_key packet) [
    | none ↦ (protocol_violation, cancel_timeout s)
    | some secret ↦
        if length (kdf secret) == 48
        then (exchanged, secured (split_key (kdf secret)) (cancel_timeout s))
        else (out_of_capacity, cancel_timeout s)
  ]

-- `isNormalClose`, with the numbers that the system and boost give to the errors.
unfoldable pub is_normal_close : ℕ → ℕ → ℕ → ℕ → ErrorCode → Bool
is_normal_close einval closed eof aborted ec =
    let by_type : Bool =
      if ec.type == type_errno
      then ec.code == einval
      else if ec.type == type_custom
      then ec.code == 18
      else if ec.type == type_boost
      then (if ec.code == closed then true else if ec.code == eof then true else ec.code == aborted)
      else false in
    if is_successed ec then true else by_type

-- A connection that is open, on which nothing was sent or received.
pub record IsNew {ℓ} {C : Type ℓ} (s : Socket C) : Type ℓ where
  pub readable : s.readable ≡ true
  pub not_closing : s.initiate_close ≡ false
  pub plain : s.is_secure ≡ false
  pub nothing_sent : s.send_queue ≡ []
  pub nothing_received : get_msg s.recvbuffer ≡ none

module _ {ℓ} {C : Type ℓ} (crypt : C → List ℕ → List ℕ × C) (kdf : List ℕ → List ℕ)
    (encrypts decrypts : List ℕ → List ℕ → C) where
  received_exchanged :
      (keys : KeyExchanger) (packet secret : List ℕ) (s : Socket C)
      → keys.compute_key packet ≡ some secret
      → length (kdf secret) ≡ 48
      → key_received kdf encrypts decrypts keys (some packet) s
        ≡ (exchanged, secured kdf encrypts decrypts (split_key (kdf secret)) (cancel_timeout s))
  unfolding key_received
  received_exchanged keys packet secret s shared whole =
      let test : (length (kdf secret) == 48) ≡ true = ground arith in
      rw (key_received, shared) (rw test refl)

  -- An open end sends its public key, framed and not sealed, and waits for the peer's.
  key_exchange-sends :
      (keys : KeyExchanger) (pkey : List ℕ) (s : Socket C)
      → keys.public_key ≡ some pkey
      → IsNew s
      → (s' : Socket C) × (key_exchange crypt keys s ≡ (none, waits, s'))
        × (s'.send_queue ≡ encapsulate pkey ∷ [])
        × (s'.timer ≡ true)
        × (s'.is_secure ≡ false)
  unfolding key_exchange send payload set_timeout enqueue start_recv recv_msg is_usable get_msg
  key_exchange-sends keys pkey s own new = (
    record s {
      send_queue = encapsulate pkey ∷ [];
      in_flight = some (encapsulate pkey);
      timer = true;
    },
    simp (key_exchange, own)
        (simp (new.readable, new.not_closing, new.plain, new.nothing_sent, new.nothing_received)
          refl),
    refl,
    refl,
    new.plain,
  )

  -- Both ends are new and have a key pair, each computes the same secret from the other's public key,
  -- 48 bytes are derived from it, and the cipher opens what it sealed with one key and start vector.
  -- Each end first sends its public key, framed and not sealed, and waits with a timeout; when it has
  -- got the other's, it is secure without an error, with no timeout; and the next message that one
  -- seals, whichever of the two it is, is opened by the other as it was.
  pub key_exchange-agrees :
      (left right : KeyExchanger) (lkey rkey secret message : List ℕ) (a b : Socket C)
      → left.public_key ≡ some lkey
      → right.public_key ≡ some rkey
      → left.compute_key rkey ≡ some secret
      → right.compute_key lkey ≡ some secret
      → length (kdf secret) ≡ 48
      → ((key iv bytes : List ℕ)
          → (crypt (decrypts key iv) (crypt (encrypts key iv) bytes).0).0 ≡ bytes)
      → IsNew a
      → IsNew b
      → (a1 : Socket C) × (b1 : Socket C) × (key_exchange crypt left a ≡ (none, waits, a1))
        × (key_exchange crypt right b ≡ (none, waits, b1))
        × (a1.send_queue ≡ encapsulate lkey ∷ [])
        × (b1.send_queue ≡ encapsulate rkey ∷ [])
        × (a1.timer ≡ true)
        × (b1.timer ≡ true)
        × let (result, a2) = key_received kdf encrypts decrypts left (some rkey) a1 in
          let (result', b2) = key_received kdf encrypts decrypts right (some lkey) b1 in
          (result ≡ exchanged)
          × (result' ≡ exchanged)
          × (a2.is_secure ≡ true)
          × (b2.is_secure ≡ true)
          × (a2.timer ≡ false)
          × (b2.timer ≡ false)
          × ((crypt b2.decryptor (payload crypt message a2).0).0 ≡ message)
          × ((crypt a2.decryptor (payload crypt message b2).0).0 ≡ message)
  unfolding payload secured cancel_timeout
  key_exchange-agrees left right lkey rkey secret message a b l r shared shared' whole opens new
        new' =
      let (a1, started, queue, timer, _) = key_exchange-sends left lkey a l new in
      let (b1, started', queue', timer', _) = key_exchange-sends right rkey b r new' in
      let e = received_exchanged left rkey secret a1 shared whole in
      let f = received_exchanged right lkey secret b1 shared' whole in
      let (key, iv) = split_key (kdf secret) in
      (
        a1,
        b1,
        started,
        started',
        queue,
        queue',
        timer,
        timer',
        (
          rw e refl,
          rw f refl,
          rw e refl,
          rw f refl,
          rw e refl,
          rw f refl,
          rw (e, f) (opens key iv message),
          rw (e, f) (opens key iv message),
        ),
      )
