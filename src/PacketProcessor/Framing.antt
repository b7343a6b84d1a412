-- ===== src/PacketProcessor/Framing.antt =====
-- PacketProcessor.cpp, `encapsulate` against `decapsulate`, and a stream of messages.
use drgb_server.Prelude.{
  ℕ, ◌≡◌, refl, ap, ◌∙◌, inl, inr, some, List, [], ◌∷◌, ◌++◌, map, ◌<◌, zero, suc, append_assoc,
  append-nil, ==_iff, ◌==◌, Bool-cases, length, ltb, true, arith,
}
use drgb_server.PacketProcessor.{
  PacketProcessor, pattern_byte, eof, split, decapsulate, escape, encapsulate, push_msg, flush_loop,
  flush, recv, recv_all, concat,
}
use drgb_server.PacketProcessor.Frames.{decapsulate-plain, escape-Frame}
use drgb_server.PacketProcessor.Stream.{
  flush_loop-stop, flush_loop-Frame, length-Frame, recv_all-concat,
}

decapsulate-escape :
    (l m : List ℕ) (tail : List ℕ)
    → decapsulate tail ≡ some m
    → decapsulate (escape l ++ tail) ≡ some (l ++ m)
unfolding decapsulate escape
decapsulate-escape [] m tail e = e
decapsulate-escape (b ∷ l) m tail e = elim (Bool-cases (b == pattern_byte)) [
  | inl h ↦ rw h (rw ((==_iff b pattern_byte).0 h) (rw (decapsulate-escape l m tail e)))
  | inr h ↦ rw h (
      decapsulate-plain b (escape l ++ tail) (l ++ m) (ground arith)
        (decapsulate-escape l m tail e))
]

-- Decapsulating an encapsulated message gives the message, whatever bytes it holds.
pub decapsulate-encapsulate : (l : List ℕ) → decapsulate (encapsulate l) ≡ some l
unfolding encapsulate decapsulate
decapsulate-encapsulate l =
    decapsulate-escape l [] (pattern_byte ∷ eof ∷ []) refl ∙ ap some (append-nil l)

-- The messages that a receiver sees of those that were sent: the empty ones are dropped.
abbrev pub delivered : List (List ℕ) → List (List ℕ)
delivered [] = []
delivered ([] ∷ ms) = delivered ms
delivered ((b ∷ l) ∷ ms) = (b ∷ l) ∷ delivered ms

abbrev pub sent : List (List ℕ) → List ℕ
sent ms = concat (map encapsulate ms)

abbrev keep : List (List ℕ) → List ℕ → List (List ℕ)
keep msgs [] = msgs
keep msgs (b ∷ l) = msgs ++ (b ∷ l) ∷ []

escape-nonempty : (b : ℕ) (l : List ℕ) → ltb 0 (length (escape (b ∷ l))) ≡ true
unfolding escape
escape-nonempty b l = ground arith

push_msg-escape :
    (msgs : List (List ℕ)) (m : List ℕ) → push_msg msgs (escape m) ≡ some (keep msgs m)
unfolding push_msg
push_msg-escape msgs [] = unfold escape in refl
push_msg-escape msgs (b ∷ l) = rw (escape-nonempty b l) (
    rw
      (← append-nil (escape (b ∷ l)), decapsulate-escape (b ∷ l) [] [] (unfold decapsulate in refl))
      (rw append-nil))

keep-append :
    (msgs : List (List ℕ)) (m : List ℕ) (ms : List (List ℕ))
    → keep msgs m ++ delivered ms ≡ msgs ++ delivered (m ∷ ms)
keep-append msgs [] ms = refl
keep-append msgs (b ∷ l) ms = append_assoc msgs _ _

sent-cons :
    (m : List ℕ) (ms : List (List ℕ)) → sent (m ∷ ms) ≡ escape m ++ pattern_byte ∷ eof ∷ sent ms
unfolding encapsulate
sent-cons m ms = append_assoc (escape m) (pattern_byte ∷ eof ∷ []) (sent ms)

flush_loop-sent :
    (fuel : ℕ) (msgs ms : List (List ℕ))
    → length (sent ms) < fuel
    → flush_loop fuel msgs (sent ms) ≡ some (msgs ++ delivered ms, [])
flush_loop-sent zero msgs ms h = elim h [ ]
flush_loop-sent (suc fuel) msgs [] h =
    flush_loop-stop fuel msgs [] (unfold split in refl) ∙ rw append-nil
flush_loop-sent (suc fuel) msgs (m ∷ ms) h = rw sent-cons (
    flush_loop-Frame fuel msgs (keep msgs m) (sent ms) (escape-Frame m) (push_msg-escape msgs m)
    ∙ flush_loop-sent fuel (keep msgs m) ms
        (omega (arith, ap length (sent-cons m ms), length-Frame (escape m) (sent ms)))
    ∙ rw keep-append)

-- Every message that was sent arrives, once, whole and in order, and nothing else does, however the
-- network cuts the stream of encapsulated messages into fragments. Empty messages are dropped.
pub recv_all-sent :
    (p : PacketProcessor) (ms chunks : List (List ℕ))
    → p.recvbuffer ≡ []
    → concat chunks ≡ sent ms
    → recv_all p chunks ≡ some (record p { msgs = p.msgs ++ delivered ms; recvbuffer = [] })
unfolding recv flush
recv_all-sent p ms chunks empty e =
    recv_all-concat p chunks (rw empty (unfold split in refl))
    ∙ rw (e, empty) (rw (flush_loop-sent (suc (length (sent ms))) p.msgs ms (omega arith)))
