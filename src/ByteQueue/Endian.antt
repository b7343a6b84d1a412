-- ===== src/ByteQueue/Endian.antt =====
-- ByteQueue: values and their byte order, across hosts.
use mathlib.Core.List.{reverse, reverse-reverse, reverse_aux}
use drgb_server.Prelude.{
  ℕ, zero, suc, ◌+◌, ◌/◌, ◌%◌, ◌<◌, ◌≡◌, refl, sym, ap, ap₂, subst, ◌∙◌, Bool, true, false, List,
  [], ◌∷◌, ◌++◌, append_assoc, append-nil, map, Result, ok, err, ltb, length, take, take-append,
  drop-append, length-append, arith,
}
use drgb_server.ByteQueue.{ByteQueue, RangeError, wrap, in_order, window, skip, pop, push, new}

-- The `width` low bytes of a number, the least one first.
unfoldable pub le_bytes : ℕ → ℕ → List ℕ
le_bytes zero value = []
le_bytes (suc width) value = value % 256 ∷ le_bytes width (value / 256)

-- The memory of an integer of `width` bytes on a host.
unfoldable pub memory : Bool → ℕ → ℕ → List ℕ
memory true width value = le_bytes width value
memory false width value = reverse (le_bytes width value)

length-le_bytes : (width value : ℕ) → length (le_bytes width value) ≡ width
unfolding le_bytes
length-le_bytes zero value = refl
length-le_bytes (suc width) value = ap suc (length-le_bytes width (value / 256))

length-reverse_aux : (xs ys : List ℕ) → length (reverse_aux xs ys) ≡ length xs + length ys
length-reverse_aux [] ys = omega arith
length-reverse_aux (x ∷ xs) ys = omega (arith, length-reverse_aux xs (x ∷ ys))

length-reverse : (xs : List ℕ) → length (reverse xs) ≡ length xs
length-reverse xs = omega (arith, length-reverse_aux xs [])

-- The bytes on the wire are the same for every host.
in_order-memory :
    (host endian : Bool) (width value : ℕ)
    → in_order host endian (memory host width value) ≡ memory endian width value
unfolding in_order memory
in_order-memory true true width value = refl
in_order-memory true false width value = refl
in_order-memory false true width value = reverse-reverse (le_bytes width value)
in_order-memory false false width value = refl

in_order-back :
    (host endian : Bool) (width value : ℕ)
    → in_order host endian (memory endian width value) ≡ memory host width value
unfolding in_order memory
in_order-back true true width value = refl
in_order-back true false width value = reverse-reverse (le_bytes width value)
in_order-back false true width value = refl
in_order-back false false width value = refl

length-memory : (host : Bool) (width value : ℕ) → length (memory host width value) ≡ width
unfolding memory
length-memory true width value = length-le_bytes width value
length-memory false width value =
    length-reverse (le_bytes width value) ∙ length-le_bytes width value

-- A message: the width and the value of each field, as one program pushes them and another pops
-- them.
unfoldable pub push_fields : Bool → Bool → List (ℕ × ℕ) → ByteQueue → ByteQueue
push_fields host endian [] q = q
push_fields host endian ((width, value) ∷ fields) q =
    push_fields host endian fields (push host endian (memory host width value) q)

unfoldable pub pop_fields :
    Bool → Bool → List ℕ → ByteQueue → Result RangeError (List (List ℕ) × ByteQueue)
pop_fields host endian [] q = ok ([], q)
pop_fields host endian (width ∷ widths) q = elim (pop host endian false width q) [
  | err e ↦ err e
  | ok (image, q') ↦ elim (pop_fields host endian widths q') [
    | err e ↦ err e
    | ok (images, q'') ↦ ok (image ∷ images, q'')
  ]
]

unfoldable pub wire : Bool → List (ℕ × ℕ) → List ℕ
wire endian [] = []
wire endian ((width, value) ∷ fields) = memory endian width value ++ wire endian fields

push_fields-wire :
    (host endian : Bool) (fields : List (ℕ × ℕ)) (q : ByteQueue)
    → push_fields host endian fields q ≡ record q { bytes = q.bytes ++ wire endian fields }
unfolding push_fields wire push
push_fields-wire host endian [] q = ap (λ b. record q { bytes = b }) (sym (append-nil q.bytes))
push_fields-wire host endian ((width, value) ∷ fields) q =
    push_fields-wire host endian fields (push host endian (memory host width value) q)
    ∙ ap (λ b. record q { bytes = b })
        (rw (in_order-memory host endian width value)
          (append_assoc q.bytes (memory endian width value) (wire endian fields)))

take-memory :
    (endian : Bool) (width value : ℕ) (rest : List ℕ)
    → take width (memory endian width value ++ rest) ≡ memory endian width value
take-memory endian width value rest =
    subst (λ n. take n (memory endian width value ++ rest) ≡ memory endian width value)
      (length-memory endian width value) (take-append (memory endian width value) rest)

pop_field :
    (host endian : Bool) (width value : ℕ) (little : Bool) (before rest : List ℕ)
    → length (before ++ (memory endian width value ++ rest)) < 9223372036854775808
    → pop host endian false width (record {
      default_endian = little;
      bytes = before ++ (memory endian width value ++ rest);
      ptr = length before;
    })
      ≡ ok (
        memory host width value,
        record {
          default_endian = little;
          bytes = (before ++ memory endian width value) ++ rest;
          ptr = length (before ++ memory endian width value);
        },
      )
unfolding pop window skip
pop_field host endian width value little before rest small =
    let field = memory endian width value in
    let a = length-append before (field ++ rest) in
    let b = length-append field rest in
    let c = length-memory endian width value in
    let d = length-append before field in
    let fits : ltb (length (before ++ (field ++ rest))) (wrap (length before + width)) ≡ false =
      ground arith in
    let end : wrap (length before + width) ≡ length (before ++ field) = omega arith in
    rw
      (
        fits,
        window,
        skip,
        drop-append before (field ++ rest),
        take-memory endian width value rest,
        in_order-back host endian width value,
      )
      (ap₂
        (λ bs p.
          ok (memory host width value, record { default_endian = little; bytes = bs; ptr = p }))
        (sym (append_assoc before field rest)) end)

pop_fields_from :
    (host endian little : Bool) (fields : List (ℕ × ℕ)) (before : List ℕ)
    → length (before ++ wire endian fields) < 9223372036854775808
    → pop_fields host endian (map (λ f. f.0) fields) (record {
      default_endian = little;
      bytes = before ++ wire endian fields;
      ptr = length before;
    })
      ≡ ok (
        map (λ f. memory host f.0 f.1) fields,
        record {
          default_endian = little;
          bytes = before ++ wire endian fields;
          ptr = length (before ++ wire endian fields);
        },
      )
unfolding pop_fields wire
pop_fields_from host endian little [] before small =
    ap (λ p. ok ([], record { default_endian = little; bytes = before ++ []; ptr = length p }))
      (sym (append-nil before))
pop_fields_from host endian little ((width, value) ∷ fields) before small =
    let field = memory endian width value in
    let assoc = append_assoc before field (wire endian fields) in
    rw (pop_fields, pop_field host endian width value little before (wire endian fields) small)
      (rw (pop_fields_from host endian little fields (before ++ field) (rw assoc small)) (
        ap
          (λ bs. ok (
            memory host width value ∷ map (λ f. memory host f.0 f.1) fields,
            record { default_endian = little; bytes = bs; ptr = length bs },
          ))
          assoc))

-- Whatever the hosts are, a program that pops the fields of a message with the widths and the byte
-- order with which another program pushed them gets the values, and reads the message to its end.
pub pop_fields-push_fields :
    (writer reader endian : Bool) (fields : List (ℕ × ℕ))
    → length (wire endian fields) < 9223372036854775808
    → pop_fields reader endian
        (map (λ f. f.0) fields)
        (push_fields writer endian fields (new writer))
      ≡ ok (
        map (λ f. memory reader f.0 f.1) fields,
        record {
          default_endian = writer;
          bytes = wire endian fields;
          ptr = length (wire endian fields);
        },
      )
unfolding new
pop_fields-push_fields writer reader endian fields small =
    rw (push_fields-wire writer endian fields (new writer))
      (pop_fields_from reader endian writer fields [] small)
