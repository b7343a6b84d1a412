-- ===== src/ClientSocket/Delivery.antt =====
-- MyClientSocket and PacketProcessor: what one end sends, the other end receives.
use Prim.Native.Nat.{min}
use drgb_server.Prelude.{
  ℕ, zero, suc, ◌≤◌, ◌<◌, ◌≡◌, ap, subst, sym, ◌∙◌, inl, inr, Bool, true, none, some, List, [], ◌∷◌,
  ◌++◌, append-nil, Option-cases, if◌then◌else◌, length, take, length-append, length-take, arith,
}
use drgb_server.PacketProcessor.{PacketProcessor, concat}
use drgb_server.ClientSocket.{Socket, is_usable}
use drgb_server.ClientSocket.Sending.{World, sending, sent, IsRest, IsOrdered}
use drgb_server.ClientSocket.Handle.{takes-IsOrdered, send_handle_cases}

rest_empty : (queue : List (List ℕ)) (rest : List ℕ) → IsRest none queue true rest → rest ≡ []
rest_empty [] rest h = h
rest_empty (m ∷ queue) rest h = cc

rest_more :
    (bytes : List ℕ) (queue : List (List ℕ)) (usable : Bool) (rest : List ℕ)
    → IsRest (some bytes) queue usable rest
    → (0 < length bytes) × (0 < length rest)
rest_more bytes [] usable rest h = cc
rest_more bytes (m ∷ queue) usable rest (r, l, a) =
    (l, omega (arith, ap length r, length-append bytes (concat queue)))

module _ {ℓ} {C : Type ℓ} where
  -- A transport that works: each time it sends at least a byte of its buffer, up to `choice` more.
  unfoldable pub drain : ℕ → (ℕ → ℕ) → World C → World C
  drain zero choice w = w
  drain (suc fuel) choice w = elim w.socket.in_flight [
    | none ↦ w
    | some bytes ↦ drain fuel choice (sent (min (suc (choice fuel)) (length bytes)) bytes w)
  ]

  usable_readable : (s : Socket C) → is_usable s ≡ true → s.readable ≡ true
  unfolding is_usable
  usable_readable s u = ground arith

  sent-is_usable :
      (n : ℕ) (bytes : List ℕ) (w : World C)
      → 0 < n
      → is_usable w.socket ≡ true
      → is_usable (sent n bytes w).socket ≡ true
  unfolding sent is_usable
  sent-is_usable n bytes w pos u = elim (send_handle_cases n bytes w.socket pos) [
    | inl (lost, e) ↦ cc
    | inr (inl (_, e)) ↦ subst (λ s. is_usable s ≡ true) (sym e) u
    | inr (inr (_, e)) ↦ subst (λ s. is_usable s ≡ true) (sym e) u
  ]

  drained :
      (w : World C)
      → is_usable w.socket ≡ true
      → (o : IsOrdered w) → w.socket.in_flight ≡ none
      → w.taken ≡ concat w.accepted
  unfolding is_usable
  drained w u o e =
      let none_left : o.rest ≡ [] = rest_empty w.socket.send_queue o.rest (rw (e, u) at o.waits) in
      sym (append-nil w.taken) ∙ ap (◌++◌ w.taken) (sym none_left) ∙ o.whole

  more :
      (w : World C) (bytes : List ℕ) (o : IsOrdered w)
      → w.socket.in_flight ≡ some bytes
      → (0 < length bytes) × (0 < length o.rest)
  more w bytes o e =
      rest_more bytes w.socket.send_queue (is_usable w.socket) o.rest
        (subst (λ f. IsRest f w.socket.send_queue (is_usable w.socket) o.rest) e o.waits)

  -- A usable connection whose transport works sends all that it accepted, in as many sends as there
  -- are bytes at most.
  pub drain_lem :
      (fuel : ℕ) (choice : ℕ → ℕ) (w : World C)
      → is_usable w.socket ≡ true
      → (o : IsOrdered w) → length o.rest ≤ fuel
      → ((drain fuel choice w).socket.in_flight ≡ none)
        × ((drain fuel choice w).taken ≡ concat w.accepted)
  unfolding drain sent
  drain_lem zero choice w u o enough = elim (Option-cases w.socket.in_flight) [
    | inl e ↦ (e, drained w u o e)
    | inr (bytes, e) ↦
        let (_, left) = more w bytes o e in let empty : 1 ≤ 0 = omega arith in elim empty [ ]
  ]
  drain_lem (suc fuel) choice w u o enough = elim (Option-cases w.socket.in_flight) [
    | inl e ↦ rw (drain, e) (e, drained w u o e)
    | inr (bytes, e) ↦
        let n = min (suc (choice fuel)) (length bytes) in
        let some_left = more w bytes o e in
        let o' = takes-IsOrdered n bytes w e (omega arith) (omega arith) o in
        let u' = sent-is_usable n bytes w (omega arith) u in
        let whole : (w.taken ++ take n bytes) ++ o'.rest ≡ concat w.accepted = o'.whole in
        let shorter : length o'.rest ≤ fuel = omega (
          arith,
          ap length whole,
          ap length o.whole,
          length-append (w.taken ++ take n bytes) o'.rest,
          length-append w.taken (take n bytes),
          length-append w.taken o.rest,
          length-take n bytes,
        ) in
        rw (drain, e) (drain_lem fuel choice (sent n bytes w) u' o' shorter)
  ]

module _ {ℓ} {C : Type ℓ} (crypt : C → List ℕ → List ℕ × C) where
  -- The bytes that the messages are sealed to, one after the other.
  unfoldable pub sealed : Bool → C → List (List ℕ) → List (List ℕ)
  sealed secure c [] = []
  sealed secure c (m ∷ ms) =
      let (bytes, c') = crypt c m in
      if secure then bytes ∷ sealed secure c' ms else m ∷ sealed secure c ms

  unfoldable pub send_all : List (List ℕ) → World C → World C
  send_all [] w = w
  send_all (m ∷ ms) w = send_all ms (sending crypt m w)
