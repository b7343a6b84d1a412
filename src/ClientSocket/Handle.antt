-- ===== src/ClientSocket/Handle.antt =====
-- MyClientSocket: what the transport's answers, and the end of the connection, leave to be sent.
use drgb_server.Prelude.{
  ℕ, ◌≤◌, ◌<◌, ◌≡◌, refl, ap, subst, sym, ◌∙◌, ◌⊎◌, inl, inr, Bool, true, false, Option, none, some,
  List, [], ◌∷◌, ◌++◌, append_assoc, Bool-cases, ltb, ltb→lt, ◌==◌, length, take, drop, length-drop,
  take-drop, drop_all, arith,
}
use drgb_server.PacketProcessor.{concat}
use drgb_server.ClientSocket.{Socket, is_usable, close, popped, front, send_handle}
use drgb_server.ClientSocket.Sending.{World, sent, IsRest, IsRest-front, IsOrdered}

-- A socket that stops sending.
IsRest-stop :
    (flight : Option (List ℕ)) (queue : List (List ℕ)) (usable : Bool) (rest : List ℕ)
    → IsRest flight queue usable rest
    → IsRest flight queue false rest
IsRest-stop none [] usable rest h = h
IsRest-stop none (q ∷ queue) usable rest h = refl
IsRest-stop (some b) [] usable rest h = h
IsRest-stop (some b) (q ∷ queue) usable rest h = h

IsRest-fail :
    (bytes : List ℕ) (queue : List (List ℕ)) (usable : Bool) (rest : List ℕ)
    → IsRest (some bytes) queue usable rest
    → IsRest none queue false rest
IsRest-fail bytes [] usable rest h = cc
IsRest-fail bytes (m ∷ queue) usable rest h = refl

module _ {ℓ} {C : Type ℓ} where
  pub close-queue :
      (s : Socket C) → ((close s).in_flight ≡ s.in_flight) × ((close s).send_queue ≡ s.send_queue)
  unfolding close
  close-queue s = (ground arith, ground arith)

  pub close-unusable : (s : Socket C) → is_usable (close s) ≡ false
  unfolding is_usable close
  close-unusable s = ground arith

  -- The three ways on after the transport has sent `n` of `bytes`.
  pub send_handle_cases :
      (n : ℕ) (bytes : List ℕ) (s : Socket C)
      → 0 < n
      → ((s.readable ≡ false) × (send_handle false n bytes s ≡ record s { in_flight = none }))
        ⊎ ((n < length bytes)
              × (send_handle false n bytes s ≡ record s { in_flight = some (drop n bytes) })
            ⊎ ((length bytes ≤ n)
                × (send_handle false n bytes s ≡ record s {
                  send_queue = popped s.send_queue;
                  in_flight = front (popped s.send_queue);
                })))
  unfolding send_handle
  send_handle_cases n bytes s pos =
      let some_sent : (n == 0) ≡ false = ground arith in
      elim (Bool-cases s.readable) [
        | inr lost ↦ inl (lost, simp (some_sent, lost) refl)
        | inl there ↦ elim (Bool-cases (ltb n (length bytes))) [
          | inl part ↦ inr (inl (ltb→lt n (length bytes) part, simp (some_sent, there, part) refl))
          | inr all ↦ inr (inr (ground arith, simp (some_sent, there, all) refl))
        ]
      ]

  lost_unusable : (s : Socket C) → s.readable ≡ false → is_usable s ≡ false
  unfolding is_usable
  lost_unusable s h = rw h refl

  -- The transport has sent `n` of `bytes`, the front of the queue.
  send_handle-IsRest :
      (n : ℕ) (bytes : List ℕ) (queue : List (List ℕ)) (rest : List ℕ) (s : Socket C)
      → s.send_queue ≡ queue
      → 0 < n
      → n ≤ length bytes
      → IsRest (some bytes) queue (is_usable s) rest
      → (rest' : List ℕ) × (take n bytes ++ rest' ≡ rest)
        × IsRest
            (send_handle false n bytes s).in_flight
            (send_handle false n bytes s).send_queue
            (is_usable (send_handle false n bytes s))
            rest'
  unfolding is_usable popped
  send_handle-IsRest n bytes [] rest s e pos le h = cc
  send_handle-IsRest n bytes (m ∷ queue) rest s e pos le (r, l, a) =
      let left = drop n bytes ++ concat queue in
      let split : take n bytes ++ left ≡ rest =
        sym (append_assoc (take n bytes) (drop n bytes) (concat queue))
        ∙ ap (λ b. b ++ concat queue) (take-drop n bytes)
        ∙ sym r in
      elim (send_handle_cases n bytes s pos) [
        | inl (lost, e') ↦ (
          left,
          split,
          subst (λ t. IsRest t.in_flight t.send_queue (is_usable t) left) (sym e')
              (subst (λ q. IsRest none q (is_usable s) left) (sym e) (lost_unusable s lost)),
        )
        | inr (inl (part, e')) ↦ (
          left,
          split,
          subst (λ t. IsRest t.in_flight t.send_queue (is_usable t) left) (sym e')
              (subst (λ q. IsRest (some (drop n bytes)) q (is_usable s) left) (sym e)
                (refl, omega (arith, length-drop n bytes), a)),
        )
        | inr (inr (whole, e')) ↦ (
          concat queue,
          subst (λ d. take n bytes ++ (d ++ concat queue) ≡ rest) (drop_all n bytes whole) split,
          subst (λ t. IsRest t.in_flight t.send_queue (is_usable t) (concat queue)) (sym e')
              (subst (λ q. IsRest (front (popped q)) (popped q) (is_usable s) (concat queue))
                (sym e) (IsRest-front (is_usable s) queue a)),
        )
      ]

  pub takes-IsOrdered :
      (n : ℕ) (bytes : List ℕ) (w : World C)
      → w.socket.in_flight ≡ some bytes
      → 0 < n
      → n ≤ length bytes
      → IsOrdered w
      → IsOrdered (sent n bytes w)
  unfolding sent
  takes-IsOrdered n bytes w e pos le o =
      let before : IsRest (some bytes) w.socket.send_queue (is_usable w.socket) o.rest =
        subst (λ f. IsRest f w.socket.send_queue (is_usable w.socket) o.rest) e o.waits in
      let (rest, split, waits) =
        send_handle-IsRest n bytes w.socket.send_queue o.rest w.socket refl pos le before in
      record {
        rest = rest;
        whole = append_assoc w.taken (take n bytes) rest ∙ ap (λ r. w.taken ++ r) split ∙ o.whole;
        waits = waits;
      }

  -- What `Close`, the end of it, or the loss of the peer leaves: nothing is sent any more, except
  -- what the transport has.
  pub stop-IsOrdered :
      (s : Socket C) (w : World C)
      → s.in_flight ≡ w.socket.in_flight
      → s.send_queue ≡ w.socket.send_queue
      → is_usable s ≡ false
      → IsOrdered w
      → IsOrdered (record w { socket = s })
  unfolding is_usable
  stop-IsOrdered s w e e' u o = record {
    rest = o.rest;
    whole = o.whole;
    waits =
        rw (e, e', u)
          (IsRest-stop w.socket.in_flight w.socket.send_queue (is_usable w.socket) o.rest o.waits);
  }

  pub fails-IsOrdered :
      (bytes : List ℕ) (w : World C)
      → w.socket.in_flight ≡ some bytes
      → IsOrdered w
      → IsOrdered (record w { socket = send_handle true 0 bytes w.socket })
  unfolding send_handle
  fails-IsOrdered bytes w e o = record {
    rest = o.rest;
    whole = o.whole;
    waits =
        let before : IsRest (some bytes) w.socket.send_queue (is_usable w.socket) o.rest =
          subst (λ f. IsRest f w.socket.send_queue (is_usable w.socket) o.rest) e o.waits in
        let (f, q) = close-queue (record w.socket { in_flight = none }) in
        let u = close-unusable (record w.socket { in_flight = none }) in
        subst
          (λ v.
            IsRest (close (record w.socket { in_flight = none })).in_flight
              (close (record w.socket { in_flight = none })).send_queue v o.rest)
          (sym u)
          (subst
            (λ x. IsRest x (close (record w.socket { in_flight = none })).send_queue false o.rest)
            (sym f)
            (subst (λ x. IsRest none x false o.rest) (sym q)
              (IsRest-fail bytes w.socket.send_queue (is_usable w.socket) o.rest before)));
  }
