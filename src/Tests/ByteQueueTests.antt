-- ===== src/Tests/ByteQueueTests.antt =====
-- Byte queues on concrete bytes.
use drgb_server.Prelude.{
  ℕ, ◌≡◌, ◌<◌, ◌-◌, refl, inl, true, false, List, [], ◌∷◌, ok, err, some, length, map, arith,
}
use drgb_server.Prelude.Int.{pos}
use drgb_server.ByteQueue.{
  ByteQueue, out_of_range, in_order, pop, pops, prev, remain, new, push, split, start_of, end_of,
  push_head,
}
use drgb_server.ByteQueue.Cursor.{IsReadable, prev-pop, pops_all_throws}
use drgb_server.ByteQueue.Endian.{
  push_fields, pop_fields, pop_fields-push_fields, memory, wire, le_bytes,
}

abbrev numbers : ByteQueue
numbers = record { default_endian = true; bytes = 1 ∷ 2 ∷ 3 ∷ 4 ∷ []; ptr = 1 }

numbers-IsReadable : IsReadable numbers
numbers-IsReadable = (omega arith, omega arith)

big_endian_head :
    (push_head true false (1 ∷ 2 ∷ []) (push true true (3 ∷ 4 ∷ []) (new true))).bytes
    ≡ 2 ∷ 1 ∷ 3 ∷ 4 ∷ []
unfolding push_head push new in_order
big_endian_head = refl

middle : (split (some 1) (some 3) numbers).bytes ≡ 2 ∷ 3 ∷ []
unfolding split start_of end_of
middle = refl

prev-pop_example :
    ((prev (pos 5) numbers).ptr ≡ 18446744073709551616 - (5 - numbers.ptr))
    × (pop true true false 1 (prev (pos 5) numbers) ≡ err out_of_range)
prev-pop_example =
    prev-pop true true false 5 1 numbers numbers-IsReadable (omega arith) (omega arith)
      (omega arith)

pops_all_throws_example : pops true true false 1 (remain numbers) numbers ≡ err out_of_range
pops_all_throws_example =
    pops_all_throws true true false 1 numbers numbers-IsReadable (omega arith) (omega arith)
      (omega arith) (omega arith) (inl (omega arith))

abbrev fields : List (ℕ × ℕ)
fields = (1, 0x21) ∷ (4, 100) ∷ (2, 0x1234) ∷ []

fields_bytes : wire false fields ≡ 0x21 ∷ 0 ∷ 0 ∷ 0 ∷ 100 ∷ 0x12 ∷ 0x34 ∷ []
unfolding wire memory le_bytes
fields_bytes = refl

fields_small : length (wire false fields) < 9223372036854775808
fields_small = rw fields_bytes (omega arith)

pop_fields-push_fields_example :
    pop_fields false false (map (λ f. f.0) fields) (push_fields true false fields (new true))
    ≡ ok (
      map (λ f. memory false f.0 f.1) fields,
      record { default_endian = true; bytes = wire false fields; ptr = length (wire false fields) },
    )
pop_fields-push_fields_example = pop_fields-push_fields true false false fields fields_small
