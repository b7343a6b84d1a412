-- ===== src/ByteQueue/Cursor.antt =====
-- ByteQueue: the read position and its bounds.
use native.Mathlib.Nat.{mul-le-mul_right}
use drgb_server.Prelude.{
  ℕ, ◌+◌, ◌-◌, ◌≤◌, ◌<◌, ◌≡◌, ap, ◌==◌, ◌*◌, ◌⊎◌, inl, inr, Bool, true, false, ok, err, ltb,
  Bool-cases, if◌then◌else◌, length, take, drop, arith,
}
use drgb_server.Prelude.Int.{pos}
use drgb_server.ByteQueue.{
  ByteQueue, out_of_range, wrap, wrap_sub, in_order, window, skip, pop, pops, pops_size, remain,
  next, prev,
}

-- A vector is shorter than 2 ^ 63 bytes, and the read position is not past its end.
abbrev pub IsReadable : ByteQueue → Type 0
IsReadable q = (q.ptr ≤ length q.bytes) × (length q.bytes < 9223372036854775808)

pub Readable-remain : (q : ByteQueue) → IsReadable q → remain q ≡ length q.bytes - q.ptr
unfolding remain
Readable-remain q (h, k) = omega arith

wrap_small : (n : ℕ) → n < 18446744073709551616 → wrap n ≡ n
wrap_small n h = omega arith

-- `pop` of a value of `len` bytes: it throws exactly if fewer bytes remain, and otherwise returns
-- the next `len` bytes and moves past them, unless it peeks.
pub pop_cases :
    (host endian peek : Bool) (len : ℕ) (q : ByteQueue)
    → IsReadable q
    → len < 4294967296
    → ((length q.bytes - q.ptr < len) × (pop host endian peek len q ≡ err out_of_range))
      ⊎ ((len ≤ length q.bytes - q.ptr)
          × (pop host endian peek len q
              ≡ ok (
                in_order host endian (take len (drop q.ptr q.bytes)),
                record q { ptr = if peek then q.ptr else q.ptr + len },
              )))
unfolding pop window skip
pop_cases host endian peek len q (h, k) small =
    let s = wrap_small (q.ptr + len) (omega arith) in
    elim (Bool-cases (ltb (length q.bytes) (q.ptr + len))) [
      | inl e ↦ inl (ground arith, rw s (rw e))
      | inr e ↦ inr (ground arith, rw s (rw e))
    ]

-- `Next` and then `Prev` by the same length: the position is the old one.
pub prev-next :
    (n : ℕ) (q : ByteQueue)
    → IsReadable q
    → n ≤ length q.bytes - q.ptr
    → (q' : ByteQueue) × (next (pos n) q ≡ ok q') × IsReadable q' × (prev (pos n) q' ≡ q)
unfolding next prev
prev-next n q (h, k) fits =
    let e : ltb (length q.bytes) (wrap (q.ptr + wrap n)) ≡ false = ground arith in
    (
      record q { ptr = wrap (q.ptr + wrap n) },
      rw e,
      (omega arith, k),
      ap (λ p. record q { ptr = p }) (omega arith),
    )

-- `Prev` by more than the position does not stop at 0: the position wraps, is no longer in the
-- queue, and every `pop` of fewer bytes than were missing throws. (Of as many as were missing, the
-- sum of position and length is 0 again, modulo the width of the numbers.)
pub prev-pop :
    (host endian peek : Bool) (n len : ℕ) (q : ByteQueue)
    → IsReadable q
    → q.ptr < n
    → n < 2147483648
    → len < n - q.ptr
    → ((prev (pos n) q).ptr ≡ 18446744073709551616 - (n - q.ptr))
      × (pop host endian peek len (prev (pos n) q) ≡ err out_of_range)
unfolding prev pop
prev-pop host endian peek n len q (h, k) past small short =
    let e : ltb (length q.bytes) (wrap (wrap_sub q.ptr n + len)) ≡ true = ground arith in
    (omega arith, rw e)

-- In a queue of less than 2 ^ 32 bytes, of which some remain, and for a type of less than 65536 bytes:
-- `pops` of all the values that remain throws, though bytes are there, once anything was popped, and
-- for every type of more than a byte.
pub pops_all_throws :
    (host endian peek : Bool) (cell : ℕ) (q : ByteQueue)
    → IsReadable q
    → q.ptr < length q.bytes
    → 0 < cell
    → cell < 65536
    → length q.bytes < 4294967296
    → (0 < q.ptr) ⊎ (1 < cell)
    → pops host endian peek cell (remain q) q ≡ err out_of_range
unfolding pops pops_size
pops_all_throws host endian peek cell q (h, k) more one small few why =
    let r = Readable-remain q (h, k) in
    let b : cell * remain q ≤ 65536 * remain q = mul-le-mul_right (remain q) (omega arith) in
    let z : (remain q == 0) ≡ false = ground arith in
    let e : ltb (remain q) (wrap (q.ptr + wrap (cell * remain q))) ≡ true = elim why [
      | inl p ↦
          let a : 1 * remain q ≤ cell * remain q = mul-le-mul_right (remain q) one in ground arith
      | inr p ↦
          let a : 2 * remain q ≤ cell * remain q = mul-le-mul_right (remain q) p in ground arith
    ] in
    rw z (rw e)
