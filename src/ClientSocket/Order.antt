-- ===== src/ClientSocket/Order.antt =====
-- MyClientSocket: the transport is given the bytes of the accepted messages, in their order.
use drgb_server.Prelude.{
  ℕ, refl, ap, subst, sym, ◌∙◌, inl, inr, true, false, some, List, [], ◌∷◌, ◌++◌, append_assoc,
  Bool-cases,
}
use drgb_server.PacketProcessor.{encapsulate}
use drgb_server.ClientSocket.{is_usable, close, closed, enqueue, payload, send}
use drgb_server.ClientSocket.Sending.{
  World, sending, Step, sends, takes, fails, closes, ends, loses, Steps, done, later, concat-append,
  IsRest, IsRest-enqueue, encapsulate_nonempty, IsOrdered,
}
use drgb_server.ClientSocket.Handle.{
  close-queue, close-unusable, takes-IsOrdered, stop-IsOrdered, fails-IsOrdered,
}

module _ {ℓ} {C : Type ℓ} (crypt : C → List ℕ → List ℕ × C) where
  pub sending-IsOrdered : (m : List ℕ) (w : World C) → IsOrdered w → IsOrdered (sending crypt m w)
  unfolding sending send enqueue is_usable
  sending-IsOrdered m w o = elim (Bool-cases (is_usable w.socket)) [
    | inr h ↦ rw (sending, h) (record { rest = o.rest; whole = o.whole; waits = o.waits })
    | inl h ↦
        let sealed = encapsulate (payload crypt m w.socket).0 in
        let r : IsRest w.socket.in_flight w.socket.send_queue true o.rest = rw h at o.waits in
        rw (sending, h)
          (record {
            rest = o.rest ++ sealed;
            whole =
                sym (append_assoc w.taken o.rest sealed)
                ∙ ap (λ b. b ++ sealed) o.whole
                ∙ sym (concat-append w.accepted sealed);
            waits =
                subst
                  (λ u.
                    IsRest
                      (elim w.socket.send_queue [ [] ↦ some sealed | _ ∷ _ ↦ w.socket.in_flight ])
                      (w.socket.send_queue ++ (sealed ∷ [])) u (o.rest ++ sealed))
                  (sym h)
                  (IsRest-enqueue w.socket.in_flight w.socket.send_queue o.rest sealed
                    (encapsulate_nonempty (payload crypt m w.socket).0) r);
          })
  ]

  Step-IsOrdered : {v w : World C} → Step crypt v w → IsOrdered v → IsOrdered w
  unfolding close closed is_usable
  Step-IsOrdered (sends {w} m) o = sending-IsOrdered m w o
  Step-IsOrdered (takes {w} n bytes e pos le) o = takes-IsOrdered n bytes w e pos le o
  Step-IsOrdered (fails {w} bytes e) o = fails-IsOrdered bytes w e o
  Step-IsOrdered (closes {w}) o =
      let (f, q) = close-queue w.socket in
      stop-IsOrdered (close w.socket) w f q (close-unusable w.socket) o
  Step-IsOrdered (ends {w} e) o = stop-IsOrdered (closed w.socket) w refl refl refl o
  Step-IsOrdered (loses {w}) o =
      stop-IsOrdered (record w.socket { readable = false }) w refl refl refl o

  -- However messages are sent, and whatever the transport, the peer and the closing do to a
  -- connection: the buffers that `DoSend` is given, as they are at the calls, and each as far as it was
  -- reported as sent, are the framed messages that were accepted, in their order, up to a rest; while
  -- the socket is usable and nothing is being sent, the rest is empty. The theorem is not about what a
  -- transport that reads a buffer after the call puts on the wire.
  pub Steps-IsOrdered : {v w : World C} → Steps crypt v w → IsOrdered v → IsOrdered w
  Steps-IsOrdered done o = o
  Steps-IsOrdered (later s steps) o = Steps-IsOrdered steps (Step-IsOrdered s o)
