-- ===== src/Tests/ExchangeTests.antt =====
-- The exchange of keys between two ends, with a toy cipher that adds and subtracts the key.
use drgb_server.Prelude.{
  ℕ, ◌+◌, ◌-◌, ◌*◌, ◌≡◌, refl, ap₂, Bool, true, false, none, some, List, [], ◌∷◌, ◌++◌, map, take,
  arith,
}
use drgb_server.Prelude.Int.{pos}
use drgb_server.PacketProcessor
use drgb_server.PacketProcessor.{encapsulate, get_msg}
use drgb_server.ClientSocket.{Socket, waits, payload}
use drgb_server.ClientSocket.Exchange.{
  KeyExchanger, IsNew, exchanged, key_exchange, key_received, key_exchange-agrees, is_normal_close,
}
use drgb_server.ErrorCode.{of_custom, is_successed}
use drgb_server.Tests.AuthTests.{zeros}
use drgb_server.Tests.DatabaseTests.{first_byte}

abbrev toy_crypt : Bool × ℕ → List ℕ → List ℕ × (Bool × ℕ)
toy_crypt (true, key) bytes = (map (λ b. b + key) bytes, (true, key))
toy_crypt (false, key) bytes = (map (λ b. b - key) bytes, (false, key))

toy_opens :
    (key : ℕ) (bytes : List ℕ) → (toy_crypt (false, key) (toy_crypt (true, key) bytes).0).0 ≡ bytes
toy_opens key [] = refl
toy_opens key (b ∷ bytes) =
    let same : b + key - key ≡ b = omega arith in ap₂ (◌∷◌) same (toy_opens key bytes)

abbrev toy_kdf : List ℕ → List ℕ
toy_kdf secret = first_byte secret ∷ (zeros ++ take 16 zeros)

abbrev toy_end : Socket (Bool × ℕ)
toy_end = record {
  is_secure = false;
  encryptor = (true, 0);
  decryptor = (false, 0);
  recvbuffer = PacketProcessor.new;
  initiate_close = false;
  send_queue = [];
  in_flight = none;
  ttl = pos 0;
  timer = false;
  readable = true;
  closing = false;
  cleaned = 0;
}

toy_end-IsNew : IsNew toy_end
unfolding PacketProcessor.new get_msg
toy_end-IsNew = record {
  readable = refl;
  not_closing = refl;
  plain = refl;
  nothing_sent = refl;
  nothing_received = refl;
}

-- The secret of 2 and 3 is their product.
abbrev toy_keys : ℕ → KeyExchanger
toy_keys n = record {
  public_key = some (n ∷ []);
  compute_key = λ packet. some ((n * first_byte packet) ∷ []);
}

abbrev sealing : List ℕ → List ℕ → Bool × ℕ
sealing key iv = (true, first_byte key)

abbrev opening : List ℕ → List ℕ → Bool × ℕ
opening key iv = (false, first_byte key)

key_exchange-agrees_example :
    (a1 : Socket (Bool × ℕ)) × (b1 : Socket (Bool × ℕ)) × (key_exchange toy_crypt
        (toy_keys 2)
        toy_end
      ≡ (none, waits, a1))
    × (key_exchange toy_crypt (toy_keys 3) toy_end ≡ (none, waits, b1))
    × (a1.send_queue ≡ encapsulate (2 ∷ []) ∷ [])
    × (b1.send_queue ≡ encapsulate (3 ∷ []) ∷ [])
    × (a1.timer ≡ true)
    × (b1.timer ≡ true)
    × let (result, a2) = key_received toy_kdf sealing opening (toy_keys 2) (some (3 ∷ [])) a1 in
      let (result', b2) = key_received toy_kdf sealing opening (toy_keys 3) (some (2 ∷ [])) b1 in
      (result ≡ exchanged)
      × (result' ≡ exchanged)
      × (a2.is_secure ≡ true)
      × (b2.is_secure ≡ true)
      × (a2.timer ≡ false)
      × (b2.timer ≡ false)
      × ((toy_crypt b2.decryptor (payload toy_crypt (7 ∷ 8 ∷ []) a2).0).0 ≡ 7 ∷ 8 ∷ [])
      × ((toy_crypt a2.decryptor (payload toy_crypt (7 ∷ 8 ∷ []) b2).0).0 ≡ 7 ∷ 8 ∷ [])
key_exchange-agrees_example =
    key_exchange-agrees toy_crypt toy_kdf sealing opening (toy_keys 2) (toy_keys 3) (2 ∷ [])
      (3 ∷ []) (6 ∷ []) (7 ∷ 8 ∷ []) toy_end toy_end refl refl refl refl refl
      (λ key iv bytes. toy_opens (first_byte key) bytes) toy_end-IsNew toy_end-IsNew

-- ERR_CONNECTION_CLOSED is a normal close, ERR_TIMEOUT is none.
closed_normally : is_normal_close 22 1 2 125 (of_custom 18) ≡ true
unfolding is_normal_close of_custom is_successed
closed_normally = refl

timed_out : is_normal_close 22 1 2 125 (of_custom 19) ≡ false
unfolding is_normal_close of_custom is_successed
timed_out = refl
