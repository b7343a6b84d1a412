-- ===== src/Tests/EncoderTests.antt =====
-- Base64 on concrete bytes.
use drgb_server.Prelude.{◌≡◌, refl, [], ◌∷◌, ok, err, arith}
use drgb_server.Encoder.{
  codes, encode_base64, decode_base64, mapset, charset, cut_6_2, cut_2_6, mix_2_4, mix_4_2,
  unknown_character, broken_data, out_of_bounds,
}
use drgb_server.Encoder.RoundTrip.{decode_base64-encode_base64}

no_padding : encode_base64 (codes "light w") ≡ codes "bGlnaHQgdw"
unfolding encode_base64 charset cut_6_2 cut_2_6 mix_2_4 mix_4_2
no_padding = refl

bad_text : decode_base64 (codes "bG=n") ≡ err unknown_character
unfolding decode_base64 mapset
bad_text = refl

cut_text : decode_base64 (codes "bGlna") ≡ err broken_data
unfolding decode_base64 mapset
cut_text = refl

high_text : decode_base64 (0xe9 ∷ []) ≡ err out_of_bounds
unfolding decode_base64 mapset
high_text = refl

decode_base64-encode_base64_example :
    decode_base64 (encode_base64 (0x00 ∷ 0xff ∷ 0x10 ∷ 0x83 ∷ []))
    ≡ ok (0x00 ∷ 0xff ∷ 0x10 ∷ 0x83 ∷ [])
decode_base64-encode_base64_example =
    decode_base64-encode_base64 (0x00 ∷ 0xff ∷ 0x10 ∷ 0x83 ∷ []) (omega arith)
