-- ===== src/ByteQueue.antt =====
-- source/utils/ByteQueue: a vector of bytes with a read position, and values of any type in it.
-- A value of `T` is its `sizeof(T)` bytes in memory, and `host` is `g_isLittleEndian`. Positions and
-- lengths are `size_t`: sums and differences of them wrap at 2 ^ 64.
use mathlib.Core.List.{reverse}
use drgb_server.Prelude.{
  ℕ, zero, suc, ◌+◌, ◌-◌, ◌*◌, ◌%◌, ◌^◌, Bool, true, false, ◌||◌, Option, none, some, List, [], ◌∷◌,
  ◌++◌, Result, ok, err, ltb, leb, ◌==◌, if◌then◌else◌, length, get_elem?, take, drop,
}
use drgb_server.Prelude.Int.{ℤ, pos, negsuc}
pub mod Cursor
pub mod Endian

abbrev pub wrap : ℕ → ℕ
wrap n = n % 18446744073709551616

-- `a - b` of `size_t`
abbrev pub wrap_sub : ℕ → ℕ → ℕ
wrap_sub a b = wrap (a + 18446744073709551616 - b)

-- An `int` that is added to a `size_t`.
abbrev pub as_word : ℤ → ℕ
as_word (pos n) = wrap n
as_word (negsuc n) = wrap_sub 0 (suc n)

pub data RangeError : Type 0 where
  out_of_range : RangeError

pub record ByteQueue : Type 0 where
  pub default_endian : Bool
  pub bytes : List ℕ
  pub ptr : ℕ

abbrev same : Bool → Bool → Bool
same true b = b
same false true = false
same false false = true

-- The bytes of a value in memory, in the order in which `endian` puts them, and the way back.
unfoldable pub in_order : Bool → Bool → List ℕ → List ℕ
in_order host endian image = if same host endian then image else reverse image

-- The constructors. The argument of `of_vector` is counted by an `int`.
abbrev int_count : ℕ → ℕ
int_count n = let m = n % 4294967296 in if ltb m 2147483648 then m else 0

unfoldable pub of_vector : Bool → List ℕ → ByteQueue
of_vector host stream = record {
  default_endian = host;
  bytes = take (int_count (length stream)) stream;
  ptr = 0;
}

unfoldable pub of_endian : Bool → ByteQueue
of_endian endian = record { default_endian = endian; bytes = []; ptr = 0 }

unfoldable pub new : Bool → ByteQueue
new host = record { default_endian = host; bytes = []; ptr = 0 }

unfoldable pub of_buffer : Bool → List ℕ → ℕ → ByteQueue
of_buffer host buf size = record { default_endian = host; bytes = take size buf; ptr = 0 }

unfoldable pub copied : ByteQueue → ByteQueue
copied q = record { default_endian = q.default_endian; bytes = q.bytes; ptr = q.ptr }

-- The move constructor and the move assignment: the new queue, and what is left of the old one.
unfoldable pub moved : ByteQueue → ByteQueue × ByteQueue
moved q = (copied q, record q { bytes = []; ptr = 0 })

-- `operator+`, and `operator+=` on its left side
unfoldable pub appended : ByteQueue → ByteQueue → ByteQueue
appended q adder = record q { bytes = q.bytes ++ adder.bytes }

-- `operator[]`
unfoldable pub at : ByteQueue → ℕ → Result RangeError ℕ
at q index = elim (get_elem? q.bytes index) [ some b ↦ ok b | none ↦ err out_of_range ]

unfoldable pub pushraw : List ℕ → ByteQueue → ByteQueue
pushraw datas q = record q { bytes = q.bytes ++ datas }

unfoldable pub push : Bool → Bool → List ℕ → ByteQueue → ByteQueue
push host endian image q = record q { bytes = q.bytes ++ in_order host endian image }

-- Each byte goes in front of the byte that stood at its index.
unfoldable pub push_head : Bool → Bool → List ℕ → ByteQueue → ByteQueue
push_head host endian image q = record q { bytes = in_order host endian image ++ q.bytes }

unfoldable pub create : Bool → List ℕ → ByteQueue
create host image = push host host image (new host)

unfoldable pub size : ByteQueue → ℕ
size q = length q.bytes

unfoldable pub remain : ByteQueue → ℕ
remain q = wrap_sub (length q.bytes) q.ptr

-- The `len` bytes from the read position on.
unfoldable pub window : ByteQueue → ℕ → List ℕ
window q len = take len (drop q.ptr q.bytes)

unfoldable pub skip : Bool → ℕ → ByteQueue → ByteQueue
skip peek len q = record q { ptr = if peek then q.ptr else wrap (q.ptr + len) }

unfoldable pub pop : Bool → Bool → Bool → ℕ → ByteQueue → Result RangeError (List ℕ × ByteQueue)
pop host endian peek len q =
    if ltb (length q.bytes) (wrap (q.ptr + len))
    then err out_of_range
    else ok (in_order host endian (window q len), skip peek len q)

-- `count` cells of a list, each of `cell` bytes
unfoldable pub cells : Bool → Bool → ℕ → ℕ → List ℕ → List (List ℕ)
cells host endian cell zero stream = []
cells host endian cell (suc count) stream =
    in_order host endian (take cell stream) ∷ cells host endian cell count (drop cell stream)

-- `size` 0 stands for the bytes that remain, from which the code takes the position once more.
unfoldable pub pops_size : ℕ → ByteQueue → ℕ
pops_size size q = if size == 0 then wrap_sub (remain q) q.ptr else size

-- Past the end, where the code reads outside its vector, a cell is cut short.
unfoldable pub pops :
    Bool → Bool → Bool → ℕ → ℕ → ByteQueue → Result RangeError (List (List ℕ) × ByteQueue)
pops host endian peek cell size q =
    let count = pops_size size q in
    if ltb (remain q) (wrap (q.ptr + wrap (cell * count)))
    then err out_of_range
    else ok (cells host endian cell count (drop q.ptr q.bytes), skip peek (wrap (cell * count)) q)

unfoldable pub popstr : Bool → ℕ → ByteQueue → Result RangeError (List ℕ × ByteQueue)
popstr peek len q =
    if ltb (length q.bytes) (wrap (q.ptr + len))
    then err out_of_range
    else ok (window q len, skip peek len q)

unfoldable pub popstr_all : Bool → ByteQueue → Result RangeError (List ℕ × ByteQueue)
popstr_all peek q = popstr peek (remain q) q

unfoldable pub set_endian : Bool → ByteQueue → ByteQueue
set_endian endian q = record q { default_endian = endian }

unfoldable pub next : ℤ → ByteQueue → Result RangeError ByteQueue
next len q =
    if ltb (length q.bytes) (wrap (q.ptr + as_word len))
    then err out_of_range
    else ok (record q { ptr = wrap (q.ptr + as_word len) })

-- `std::max` of a `size_t` and 0 is the `size_t`.
unfoldable pub prev : ℤ → ByteQueue → ByteQueue
prev (negsuc n) q = record q { ptr = 0 }
prev (pos n) q = record q { ptr = wrap_sub q.ptr n }

unfoldable pub reset : ByteQueue → ByteQueue
reset q = record q { ptr = 0 }

unfoldable pub clear : ByteQueue → ByteQueue
clear q = record q { bytes = []; ptr = 0 }

-- The bounds of `split`; `none` is a bound below 0.
unfoldable pub start_of : Option ℕ → ByteQueue → ℕ
start_of none q = q.ptr
start_of (some start) q = if leb (length q.bytes) start then q.ptr else start

unfoldable pub end_of : Option ℕ → ByteQueue → ℕ
end_of none q = length q.bytes
end_of (some last) q = if leb (length q.bytes) last then length q.bytes else last

-- An end before the start, which the code passes on to `insert`, gives no bytes here.
unfoldable pub split : Option ℕ → Option ℕ → ByteQueue → ByteQueue
split start last q = record q {
  bytes = take (end_of last q - start_of start q) (drop (start_of start q) q.bytes);
  ptr = 0;
}
