-- ===== src/Encoder.antt =====
-- source/utils/Encoder.hpp and .cpp: base64 without padding.
-- A byte is a number below 256, a character its code. `char` is signed, so `(int)c` of a
-- code from 128 on is a negative index.
-- The bit fields are written as the masks and shifts of the source compute them on one byte.
use drgb_server.Prelude.{
  ℕ, zero, suc, ◌+◌, ◌-◌, ◌*◌, ◌/◌, ◌%◌, Bool, true, false, ◌&&◌, Option, none, some, List, [], ◌∷◌,
  ◌++◌, ◌==◌, ltb, leb, if◌then◌else◌, get_or, Result, ok, err, leb,
}
use Prim.Native.Nat.{bit_and, bit_or}
use Prim.Native.Char.{code}
use Prim.Native.String.{String}
pub mod Fields
pub mod RoundTrip

-- The characters of a literal.
abbrev pub codes : String → List ℕ
codes String.[] = []
codes (String.◌∷◌ letter text) = code letter ∷ codes text

abbrev charset_table : List ℕ
charset_table = codes "ABCDEFGHIJKLMNOPQRSTUVWXYZabcdefghijklmnopqrstuvwxyz0123456789+/"

abbrev mapset_table : List ℕ
mapset_table =
    255 ∷ 255 ∷ 255 ∷ 255 ∷ 255 ∷ 255 ∷ 255 ∷ 255 ∷ 255 ∷ 255 ∷ 255 ∷ 255 ∷ 255 ∷ 255 ∷ 255 ∷ 255
    ∷ 255 ∷ 255 ∷ 255 ∷ 255 ∷ 255 ∷ 255 ∷ 255 ∷ 255 ∷ 255 ∷ 255 ∷ 255 ∷ 255 ∷ 255 ∷ 255 ∷ 255 ∷ 255
    ∷ 255 ∷ 255 ∷ 255 ∷ 255 ∷ 255 ∷ 255 ∷ 255 ∷ 255 ∷ 255 ∷ 255 ∷ 255 ∷ 62 ∷ 255 ∷ 255 ∷ 255 ∷ 63
    ∷ 52 ∷ 53 ∷ 54 ∷ 55 ∷ 56 ∷ 57 ∷ 58 ∷ 59 ∷ 60 ∷ 61 ∷ 255 ∷ 255 ∷ 255 ∷ 255 ∷ 255 ∷ 255 ∷ 255 ∷ 0
    ∷ 1 ∷ 2 ∷ 3 ∷ 4 ∷ 5 ∷ 6 ∷ 7 ∷ 8 ∷ 9 ∷ 10 ∷ 11 ∷ 12 ∷ 13 ∷ 14 ∷ 15 ∷ 16 ∷ 17 ∷ 18 ∷ 19 ∷ 20 ∷ 21
    ∷ 22 ∷ 23 ∷ 24 ∷ 25 ∷ 255 ∷ 255 ∷ 255 ∷ 255 ∷ 255 ∷ 255 ∷ 26 ∷ 27 ∷ 28 ∷ 29 ∷ 30 ∷ 31 ∷ 32 ∷ 33
    ∷ 34 ∷ 35 ∷ 36 ∷ 37 ∷ 38 ∷ 39 ∷ 40 ∷ 41 ∷ 42 ∷ 43 ∷ 44 ∷ 45 ∷ 46 ∷ 47 ∷ 48 ∷ 49 ∷ 50 ∷ 51 ∷ 255
    ∷ 255 ∷ 255 ∷ 255 ∷ 255 ∷ 255 ∷ 255 ∷ 255 ∷ 255 ∷ 255 ∷ 255 ∷ 255 ∷ 255 ∷ 255 ∷ 255 ∷ 255 ∷ 255
    ∷ 255 ∷ 255 ∷ 255 ∷ 255 ∷ 255 ∷ 255 ∷ 255 ∷ 255 ∷ 255 ∷ 255 ∷ 255 ∷ 255 ∷ 255 ∷ 255 ∷ 255 ∷ 255
    ∷ 255 ∷ 255 ∷ 255 ∷ 255 ∷ 255 ∷ 255 ∷ 255 ∷ 255 ∷ 255 ∷ 255 ∷ 255 ∷ 255 ∷ 255 ∷ 255 ∷ 255 ∷ 255
    ∷ 255 ∷ 255 ∷ 255 ∷ 255 ∷ 255 ∷ 255 ∷ 255 ∷ 255 ∷ 255 ∷ 255 ∷ 255 ∷ 255 ∷ 255 ∷ 255 ∷ 255 ∷ 255
    ∷ 255 ∷ 255 ∷ 255 ∷ 255 ∷ 255 ∷ 255 ∷ 255 ∷ 255 ∷ 255 ∷ 255 ∷ 255 ∷ 255 ∷ 255 ∷ 255 ∷ 255 ∷ 255
    ∷ 255 ∷ 255 ∷ 255 ∷ 255 ∷ 255 ∷ 255 ∷ 255 ∷ 255 ∷ 255 ∷ 255 ∷ 255 ∷ 255 ∷ 255 ∷ 255 ∷ 255 ∷ 255
    ∷ 255 ∷ 255 ∷ 255 ∷ 255 ∷ 255 ∷ 255 ∷ 255 ∷ 255 ∷ 255 ∷ 255 ∷ 255 ∷ 255 ∷ 255 ∷ 255 ∷ 255 ∷ 255
    ∷ 255 ∷ 255 ∷ 255 ∷ 255 ∷ 255 ∷ 255 ∷ 255 ∷ 255 ∷ 255 ∷ 255 ∷ 255 ∷ 255 ∷ 255 ∷ 255 ∷ 255 ∷ 255
    ∷ 255 ∷ 255 ∷ 255 ∷ 255 ∷ []

-- `charset[i]`; its index is always below 64.
unfoldable pub charset : ℕ → ℕ
charset i = get_or charset_table i 0

-- `mapset[c]`, 255 for what is no character of the set; `c` is below 128.
unfoldable pub mapset : ℕ → ℕ
mapset c = get_or mapset_table c 255

unfoldable pub cut_6_2 : ℕ → ℕ
cut_6_2 s = bit_and s 0xfc / 4

unfoldable pub cut_2_6 : ℕ → ℕ
cut_2_6 s = bit_and s 0x3f

unfoldable pub mix_2_4 : ℕ → ℕ → ℕ
mix_2_4 lhs rhs = bit_or (bit_and lhs 0x03 * 16) (bit_and rhs 0xf0 / 16)

unfoldable pub mix_4_2 : ℕ → ℕ → ℕ
mix_4_2 lhs rhs = bit_or (bit_and lhs 0x0f * 4) (bit_and rhs 0xc0 / 64)

-- The results are `byte`s: what the shift moves past bit 7 is cut off.
unfoldable pub mix_6_2 : ℕ → ℕ → ℕ
mix_6_2 lhs rhs = bit_or (lhs * 4) (bit_and rhs 0x30 / 16) % 256

unfoldable pub mix_4_4 : ℕ → ℕ → ℕ
mix_4_4 lhs rhs = bit_or (bit_and lhs 0x0f * 16) (bit_and rhs 0x3c / 4) % 256

unfoldable pub mix_2_6 : ℕ → ℕ → ℕ
mix_2_6 lhs rhs = bit_or (bit_and lhs 0x03 * 64) rhs % 256

-- The loop over whole triples, then the `switch` on what is left.
unfoldable pub encode_base64 : List ℕ → List ℕ
encode_base64 [] = []
encode_base64 (c1 ∷ []) = charset (cut_6_2 c1) ∷ charset (mix_2_4 c1 0) ∷ []
encode_base64 (c1 ∷ c2 ∷ []) =
    charset (cut_6_2 c1) ∷ charset (mix_2_4 c1 c2) ∷ charset (mix_4_2 c2 0) ∷ []
encode_base64 (c1 ∷ c2 ∷ c3 ∷ bytes) =
    charset (cut_6_2 c1)
    ∷ charset (mix_2_4 c1 c2)
    ∷ charset (mix_4_2 c2 c3)
    ∷ charset (cut_2_6 c3)
    ∷ encode_base64 bytes

pub data DecodeError : Type 0 where
  -- the exception "Unknown Character"
  unknown_character : DecodeError
  -- the exception "Broken Data"
  broken_data : DecodeError
  -- undefined behaviour: `mapset` is read at a negative index
  out_of_bounds : DecodeError

-- The body of the loop: what the `switch` appends in each phase.
unfoldable pub decoded : (phase prev uc : ℕ) → List ℕ
decoded phase prev uc =
    if phase == 1
    then mix_6_2 prev uc ∷ []
    else if phase == 2
    then mix_4_4 prev uc ∷ []
    else if phase == 3
    then mix_2_6 prev uc ∷ []
    else []

-- `phase = -1` in the last phase, and `phase++` after each.
unfoldable pub next_phase : ℕ → ℕ
next_phase phase = if phase == 3 then 0 else phase + 1

unfoldable pub decode_loop :
    (phase prev : ℕ) (result : List ℕ) → List ℕ → Result DecodeError (List ℕ)
unfolding decoded next_phase
decode_loop phase prev result [] = if phase == 1 then err broken_data else ok result
decode_loop phase prev result (c ∷ str) =
    let uc = mapset c in
    let rest = decode_loop (next_phase phase) uc (result ++ decoded phase prev uc) str in
    if leb 128 c then err out_of_bounds else if leb 255 uc then err unknown_character else rest

unfoldable pub decode_base64 : List ℕ → Result DecodeError (List ℕ)
unfolding decode_loop
decode_base64 str = decode_loop 0 0 [] str
