-- ===== src/Encoder/RoundTrip.antt =====
-- Encoder.cpp: `DecodeBase64` undoes `EncodeBase64`.
use drgb_server.Prelude.{
  ℕ, ◌+◌, ◌*◌, ◌/◌, ◌%◌, ◌<◌, ◌≡◌, refl, sym, ap, ◌∙◌, false, ◌==◌, List, [], ◌∷◌, ◌++◌,
  append_assoc, append-nil, All, length, ok, arith,
}
use drgb_server.Encoder.{
  charset, cut_6_2, cut_2_6, mix_2_4, mix_4_2, mix_6_2, mix_4_4, mix_2_6, encode_base64,
  decode_base64, decode_loop, decoded, next_phase,
}
use drgb_server.Encoder.Fields.{
  mapset-charset, charset-lt, cut_6_2_lem, cut_2_6_lem, mix_2_4_lem, mix_4_2_lem, mix_6_2_lem,
  mix_4_4_lem, mix_2_6_lem,
}

abbrev pub IsByte : ℕ → Type 0
IsByte b = b < 256

-- One character of the set is decoded to its field.
decode_loop-charset :
    (phase prev i : ℕ) (result str : List ℕ)
    → i < 64
    → decode_loop phase prev result (charset i ∷ str)
      ≡ decode_loop (next_phase phase) i (result ++ decoded phase prev i) str
unfolding decode_loop
decode_loop-charset phase prev i result str h =
    rw (mapset-charset i h) (ground (arith, charset-lt i h))

-- The four fields of a triple are characters' indices, and give the three bytes back.
record Fields (c1 c2 c3 : ℕ) : Type 0 where
  in_1 : cut_6_2 c1 < 64
  in_2 : mix_2_4 c1 c2 < 64
  in_3 : mix_4_2 c2 c3 < 64
  in_4 : cut_2_6 c3 < 64
  byte_1 : mix_6_2 (cut_6_2 c1) (mix_2_4 c1 c2) ≡ c1
  byte_2 : mix_4_4 (mix_2_4 c1 c2) (mix_4_2 c2 c3) ≡ c2
  byte_3 : mix_2_6 (mix_4_2 c2 c3) (cut_2_6 c3) ≡ c3

fields : (c1 c2 c3 : ℕ) → c1 < 256 → c2 < 256 → c3 < 256 → Fields c1 c2 c3
fields c1 c2 c3 h1 h2 h3 =
    let e1 = cut_6_2_lem c1 h1 in
    let e2 = mix_2_4_lem c1 c2 h1 h2 in
    let e3 = mix_4_2_lem c2 c3 h2 h3 in
    let e4 = cut_2_6_lem c3 h3 in
    let l1 : c1 / 4 < 64 = omega arith in
    let l2 : c1 % 4 * 16 + c2 / 16 < 64 = omega arith in
    let l3 : c2 % 16 * 4 + c3 / 64 < 64 = omega arith in
    let l4 : c3 % 64 < 64 = omega arith in
    record {
      in_1 = rw e1 l1;
      in_2 = rw e2 l2;
      in_3 = rw e3 l3;
      in_4 = rw e4 l4;
      byte_1 = rw (e1, e2, mix_6_2_lem (c1 / 4) (c1 % 4 * 16 + c2 / 16) l1 l2) (omega arith);
      byte_2 =
          rw (e2, e3, mix_4_4_lem (c1 % 4 * 16 + c2 / 16) (c2 % 16 * 4 + c3 / 64) l2 l3)
            (omega arith);
      byte_3 = rw (e3, e4, mix_2_6_lem (c2 % 16 * 4 + c3 / 64) (c3 % 64) l3 l4) (omega arith);
    }

decode_loop-end :
    (phase prev : ℕ) (result : List ℕ)
    → (phase == 1) ≡ false
    → decode_loop phase prev result [] ≡ ok result
unfolding decode_loop
decode_loop-end phase prev result h = rw h

decode_loop-encode_base64 :
    (bytes : List ℕ) (prev : ℕ) (result : List ℕ)
    → All IsByte bytes
    → decode_loop 0 prev result (encode_base64 bytes) ≡ ok (result ++ bytes)
unfolding encode_base64 decoded next_phase
decode_loop-encode_base64 [] prev result h =
    decode_loop-end 0 prev result refl ∙ ap ok (sym (append-nil result))
decode_loop-encode_base64 (c1 ∷ []) prev result h =
    let f = fields c1 0 0 h.0 (omega arith) (omega arith) in
    decode_loop-charset 0 prev (cut_6_2 c1) result _ f.in_1
    ∙ decode_loop-charset 1 (cut_6_2 c1) (mix_2_4 c1 0) (result ++ []) [] f.in_2
    ∙ decode_loop-end 2 _ _ refl
    ∙ rw (append-nil, f.byte_1)
decode_loop-encode_base64 (c1 ∷ c2 ∷ []) prev result h =
    let f = fields c1 c2 0 h.0 h.1.0 (omega arith) in
    decode_loop-charset 0 prev (cut_6_2 c1) result _ f.in_1
    ∙ decode_loop-charset 1 (cut_6_2 c1) (mix_2_4 c1 c2) (result ++ []) _ f.in_2
    ∙ decode_loop-charset 2 (mix_2_4 c1 c2) (mix_4_2 c2 0) _ [] f.in_3
    ∙ decode_loop-end 3 _ _ refl
    ∙ simp (append-nil, append_assoc, f.byte_1, f.byte_2)
decode_loop-encode_base64 (c1 ∷ c2 ∷ c3 ∷ bytes) prev result h =
    let f = fields c1 c2 c3 h.0 h.1.0 h.1.1.0 in
    decode_loop-charset 0 prev (cut_6_2 c1) result _ f.in_1
    ∙ decode_loop-charset 1 (cut_6_2 c1) (mix_2_4 c1 c2) (result ++ []) _ f.in_2
    ∙ decode_loop-charset 2 (mix_2_4 c1 c2) (mix_4_2 c2 c3) _ _ f.in_3
    ∙ decode_loop-charset 3 (mix_4_2 c2 c3) (cut_2_6 c3) _ (encode_base64 bytes) f.in_4
    ∙ decode_loop-encode_base64 bytes _ _ h.1.1.1
    ∙ simp (append-nil, append_assoc, f.byte_1, f.byte_2, f.byte_3)

-- Decoding an encoded byte sequence gives it back, whatever its length: no exception is thrown and
-- no table is read out of bounds.
pub decode_base64-encode_base64 :
    (bytes : List ℕ) → All IsByte bytes → decode_base64 (encode_base64 bytes) ≡ ok bytes
unfolding decode_base64
decode_base64-encode_base64 bytes h = decode_loop-encode_base64 bytes 0 [] h

-- The text has no padding: four characters for three bytes, and two or three for what is left.
pub length-encode_base64 :
    (bytes : List ℕ) → length (encode_base64 bytes) ≡ (4 * length bytes + 2) / 3
unfolding encode_base64
length-encode_base64 [] = omega arith
length-encode_base64 (c1 ∷ []) = omega arith
length-encode_base64 (c1 ∷ c2 ∷ []) = omega arith
length-encode_base64 (c1 ∷ c2 ∷ c3 ∷ bytes) = omega (arith, length-encode_base64 bytes)
