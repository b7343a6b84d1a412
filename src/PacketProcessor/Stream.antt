-- ===== src/PacketProcessor/Stream.antt =====
-- PacketProcessor.cpp, `flush` and `Recv`: the bytes of a stream in any fragments.
use drgb_server.Prelude.{
  ℕ, zero, suc, ◌+◌, ◌<◌, ◌≡◌, refl, sym, ap, ◌∙◌, inl, inr, Option, some, none, List, [], ◌∷◌,
  ◌++◌, append_assoc, append-nil, Option-cases, length, length-append, drop, take-append, arith,
  Bool-cases, ltb,
}
use drgb_server.PacketProcessor.{
  PacketProcessor, pattern_byte, eof, split, split_from, push_msg, flush_loop, flush, recv,
  recv_all, concat,
}
use drgb_server.PacketProcessor.Frames.{
  Frame, split_from-Frame, decapsulate-Frame, split_from-Found,
}

drop_past {ℓ} :
    {A : Type ℓ} (xs : List A) (a b : A) (rest : List A)
    → drop (length xs + 2) (xs ++ a ∷ b ∷ rest) ≡ rest
drop_past [] a b rest = refl
drop_past (x ∷ xs) a b rest =
    let e : suc (length xs) + 2 ≡ suc (length xs + 2) = omega arith in rw e (drop_past xs a b rest)

split-Frame :
    {d : List ℕ} (rest : List ℕ)
    → Frame d
    → split (d ++ pattern_byte ∷ eof ∷ rest) ≡ some (length d)
unfolding split
split-Frame rest f = split_from-Frame 0 rest f ∙ ap some (omega arith)

push_msg-Frame :
    (msgs : List (List ℕ)) {d : List ℕ}
    → Frame d
    → (pushed : List (List ℕ)) × (push_msg msgs d ≡ some pushed)
unfolding push_msg
push_msg-Frame msgs {d} f = elim (Bool-cases (ltb 0 (length d))) [
  | inl e ↦ let (m, e') = decapsulate-Frame f in (msgs ++ m ∷ [], rw e (rw e'))
  | inr e ↦ (msgs, rw e)
]

pub flush_loop-Frame :
    (fuel : ℕ) (msgs pushed : List (List ℕ)) {d : List ℕ} (rest : List ℕ)
    → Frame d
    → push_msg msgs d ≡ some pushed
    → flush_loop (suc fuel) msgs (d ++ pattern_byte ∷ eof ∷ rest) ≡ flush_loop fuel pushed rest
unfolding flush_loop
flush_loop-Frame fuel msgs pushed {d} rest f e =
    rw (split-Frame rest f, flush_loop) (rw (take-append d, e) (rw drop_past))

pub flush_loop-stop :
    (fuel : ℕ) (msgs : List (List ℕ)) (buffer : List ℕ)
    → split buffer ≡ none
    → flush_loop (suc fuel) msgs buffer ≡ some (msgs, buffer)
unfolding flush_loop
flush_loop-stop fuel msgs buffer e = rw (e, flush_loop)

-- One round of `flush`: nothing to deliver, or the first frame is taken off.
data Round (msgs : List (List ℕ)) (buffer : List ℕ) : Type 0 where
  stopped : split buffer ≡ none → Round msgs buffer
  framed :
      (d rest : List ℕ) (pushed : List (List ℕ))
      → Frame d
      → push_msg msgs d ≡ some pushed
      → buffer ≡ d ++ pattern_byte ∷ eof ∷ rest
      → Round msgs buffer

round : (msgs : List (List ℕ)) (buffer : List ℕ) → Round msgs buffer
unfolding split
round msgs buffer = elim (Option-cases (split_from 0 buffer)) [
  | inl e ↦ stopped e
  | inr (k, e) ↦
      let f = split_from-Found 0 k buffer e in
      let (pushed, e') = push_msg-Frame msgs f.frame in
      framed f.before f.after pushed f.frame e' f.shape
]

pub length-Frame :
    (d rest : List ℕ) → length (d ++ pattern_byte ∷ eof ∷ rest) ≡ length d + length rest + 2
length-Frame d rest = omega (arith, length-append d (pattern_byte ∷ eof ∷ rest))

-- The fuel is enough, and no message is read past its end: the loop ends with a value.
flush_loop-total :
    (fuel : ℕ) (msgs : List (List ℕ)) (buffer : List ℕ)
    → length buffer < fuel
    → (r : List (List ℕ) × List ℕ) × (flush_loop fuel msgs buffer ≡ some r) × (split r.1 ≡ none)
flush_loop-total zero msgs buffer h = elim h [ ]
flush_loop-total (suc fuel) msgs buffer h = elim (round msgs buffer) [
  | stopped e ↦ ((msgs, buffer), flush_loop-stop fuel msgs buffer e, e)
  | framed d rest pushed f e shape ↦
      let (r, e', s) =
        flush_loop-total fuel pushed rest (omega (arith, ap length shape, length-Frame d rest)) in
      (r, rw shape (flush_loop-Frame fuel msgs pushed rest f e ∙ e'), s)
]

flush_loop-enough :
    (fuel more : ℕ) (msgs : List (List ℕ)) (buffer : List ℕ)
    → length buffer < fuel
    → length buffer < more
    → flush_loop fuel msgs buffer ≡ flush_loop more msgs buffer
flush_loop-enough zero more msgs buffer h h' = elim h [ ]
flush_loop-enough (suc fuel) zero msgs buffer h h' = elim h' [ ]
flush_loop-enough (suc fuel) (suc more) msgs buffer h h' = elim (round msgs buffer) [
  | stopped e ↦ flush_loop-stop fuel msgs buffer e ∙ sym (flush_loop-stop more msgs buffer e)
  | framed d rest pushed f e shape ↦
      let size = λ (n : ℕ) (k : length buffer < suc n). shorter n k d rest shape in
      rw shape (
        flush_loop-Frame fuel msgs pushed rest f e
        ∙ flush_loop-enough fuel more pushed rest (size fuel h) (size more h')
        ∙ sym (flush_loop-Frame more msgs pushed rest f e))
]
  where
    shorter :
        (n : ℕ)
        → length buffer < suc n
        → (d rest : List ℕ) → buffer ≡ d ++ pattern_byte ∷ eof ∷ rest
        → length rest < n
    shorter n k d rest shape = omega (arith, ap length shape, length-Frame d rest)

-- Bytes that come later may as well have come at once.
flush_loop-append :
    (fuel more after : ℕ) (msgs msgs' : List (List ℕ)) (buffer rest bytes : List ℕ)
    → length (buffer ++ bytes) < more
    → length (rest ++ bytes) < after
    → flush_loop fuel msgs buffer ≡ some (msgs', rest)
    → flush_loop more msgs (buffer ++ bytes) ≡ flush_loop after msgs' (rest ++ bytes)
unfolding flush_loop
flush_loop-append zero more after msgs msgs' buffer rest bytes h h' e = cc
flush_loop-append (suc fuel) zero after msgs msgs' buffer rest bytes h h' e = elim h [ ]
flush_loop-append (suc fuel) (suc more) after msgs msgs' buffer rest bytes h h' e =
    elim (round msgs buffer) [
      | stopped s ↦
          let same : ◌≡◌ {A = Option (List (List ℕ) × List ℕ)} (some (msgs, buffer))
              (some (msgs', rest)) =
            sym (flush_loop-stop fuel msgs buffer s) ∙ e in
          let b : buffer ≡ rest = cc same in
          let m : msgs ≡ msgs' = cc same in
          rw (b, m) (flush_loop-enough (suc more) after msgs' (rest ++ bytes) (rw b at h) h')
      | framed d tail pushed f p shape ↦
          let inner = sym (flush_loop-Frame fuel msgs pushed tail f p) ∙ (rw shape at e) in
          rw (shape, append_assoc d (pattern_byte ∷ eof ∷ tail) bytes)
            (flush_loop-Frame more msgs pushed (tail ++ bytes) f p
              ∙ flush_loop-append fuel more after pushed msgs' tail rest bytes
                  (omega (
                    arith,
                    ap length shape,
                    length-Frame d tail,
                    length-append buffer bytes,
                    length-append tail bytes,
                  ))
                  h' inner)
    ]

-- `Recv` is defined on every byte sequence: no read past the end of a buffer and no endless loop.
-- It leaves no complete message in the buffer, and does not start or stop the processor.
pub recv_total :
    (p : PacketProcessor) (bytes : List ℕ)
    → (q : PacketProcessor) × (recv p bytes ≡ some q)
      × (split q.recvbuffer ≡ none)
      × (q.is_running ≡ p.is_running)
unfolding recv flush
recv_total p bytes =
    let buffer = p.recvbuffer ++ bytes in
    let (r, e, s) = flush_loop-total (suc (length buffer)) p.msgs buffer (omega arith) in
    (record p { msgs = r.0; recvbuffer = r.1 }, rw e, s, refl)

-- Receiving a fragment and then the next one is receiving both at once.
pub recv-append :
    (p q : PacketProcessor) (a b : List ℕ) → recv p a ≡ some q → recv p (a ++ b) ≡ recv q b
unfolding recv flush
recv-append p q a b e =
    let buffer = p.recvbuffer ++ a in
    elim (Option-cases (flush_loop (suc (length buffer)) p.msgs buffer)) [
      | inl e' ↦ cc (rw e' at e)
      | inr ((msgs', rest), e') ↦
          let same : record p { msgs = msgs'; recvbuffer = rest } ≡ q = cc (rw e' at e) in
          rw (← same, ← append_assoc p.recvbuffer a b)
            (rw (
              flush_loop-append (suc (length buffer)) (suc (length (buffer ++ b)))
                (suc (length (rest ++ b))) p.msgs msgs' buffer rest b (omega arith) (omega arith)
                e'))
    ]

recv-nil : (p : PacketProcessor) → split p.recvbuffer ≡ none → recv p [] ≡ some p
unfolding recv flush
recv-nil p s = rw append-nil (rw (flush_loop-stop (length p.recvbuffer) p.msgs p.recvbuffer s))

-- However the network cuts a byte sequence into fragments, the processor ends in the same state.
pub recv_all-concat :
    (p : PacketProcessor) (chunks : List (List ℕ))
    → split p.recvbuffer ≡ none
    → recv_all p chunks ≡ recv p (concat chunks)
unfolding recv_all
recv_all-concat p [] s = sym (recv-nil p s)
recv_all-concat p (c ∷ chunks) s =
    let (q, e, s', _) = recv_total p c in
    rw (e, recv_all) (recv_all-concat q chunks s' ∙ sym (recv-append p q c (concat chunks) e))
