-- ===== src/Encoder/Fields.antt =====
-- Encoder.cpp: the masks and shifts as arithmetic on bytes.
use Prim.Native.Nat.{bit_and, bit_or}
use drgb_server.Prelude.{
  ℕ, ◌+◌, ◌*◌, ◌/◌, ◌%◌, ◌<◌, ◌≡◌, refl, true, ◌==◌, ltb, ==_iff, each_under, each_under_at,
  each_under_at₂, arith,
}
use drgb_server.Encoder.{
  charset, mapset, cut_6_2, cut_2_6, mix_2_4, mix_4_2, mix_6_2, mix_4_4, mix_2_6,
}

-- A mask on one byte, by all of its values.
module _ (f g : ℕ → ℕ) (table : each_under (λ x. f x == g x) 256 ≡ true) where
  byte_eq : (x : ℕ) → x < 256 → f x ≡ g x
  byte_eq x h = (==_iff (f x) (g x)).0 (each_under_at (λ x. f x == g x) 256 x h table)

-- `|` of two fields that share no bit is their sum.
module _ (n m k : ℕ)
    (table : each_under (λ a. each_under (λ b. bit_or (a * k) b == a * k + b) m) n ≡ true) where
  or_eq : (a b : ℕ) → a < n → b < m → bit_or (a * k) b ≡ a * k + b
  or_eq a b h h' =
      (==_iff (bit_or (a * k) b) (a * k + b)).0
        (each_under_at₂ (λ a b. bit_or (a * k) b == a * k + b) n m a b h h' table)

pub mapset-charset : (i : ℕ) → i < 64 → mapset (charset i) ≡ i
unfolding mapset charset each_under
mapset-charset i h =
    (==_iff (mapset (charset i)) i).0 (each_under_at (λ i. mapset (charset i) == i) 64 i h refl)

pub charset-lt : (i : ℕ) → i < 64 → charset i < 128
unfolding charset each_under
charset-lt i h = ground (arith, each_under_at (λ i. ltb (charset i) 128) 64 i h refl)

pub cut_6_2_lem : (s : ℕ) → s < 256 → cut_6_2 s ≡ s / 4
unfolding cut_6_2 each_under
cut_6_2_lem = byte_eq (λ s. bit_and s 0xfc / 4) (λ s. s / 4) refl

pub cut_2_6_lem : (s : ℕ) → s < 256 → cut_2_6 s ≡ s % 64
unfolding cut_2_6 each_under
cut_2_6_lem = byte_eq (λ s. bit_and s 0x3f) (λ s. s % 64) refl

and_03 : (s : ℕ) → s < 256 → bit_and s 0x03 ≡ s % 4
unfolding each_under
and_03 = byte_eq (λ s. bit_and s 0x03) (λ s. s % 4) refl

and_0f : (s : ℕ) → s < 256 → bit_and s 0x0f ≡ s % 16
unfolding each_under
and_0f = byte_eq (λ s. bit_and s 0x0f) (λ s. s % 16) refl

and_f0 : (s : ℕ) → s < 256 → bit_and s 0xf0 / 16 ≡ s / 16
unfolding each_under
and_f0 = byte_eq (λ s. bit_and s 0xf0 / 16) (λ s. s / 16) refl

and_c0 : (s : ℕ) → s < 256 → bit_and s 0xc0 / 64 ≡ s / 64
unfolding each_under
and_c0 = byte_eq (λ s. bit_and s 0xc0 / 64) (λ s. s / 64) refl

and_30 : (s : ℕ) → s < 256 → bit_and s 0x30 / 16 ≡ s / 16 % 4
unfolding each_under
and_30 = byte_eq (λ s. bit_and s 0x30 / 16) (λ s. s / 16 % 4) refl

and_3c : (s : ℕ) → s < 256 → bit_and s 0x3c / 4 ≡ s / 4 % 16
unfolding each_under
and_3c = byte_eq (λ s. bit_and s 0x3c / 4) (λ s. s / 4 % 16) refl

pub mix_2_4_lem : (a b : ℕ) → a < 256 → b < 256 → mix_2_4 a b ≡ a % 4 * 16 + b / 16
unfolding mix_2_4 each_under
mix_2_4_lem a b h h' =
    rw (and_03 a h, and_f0 b h') (or_eq 4 16 16 refl (a % 4) (b / 16) (omega arith) (omega arith))

pub mix_4_2_lem : (a b : ℕ) → a < 256 → b < 256 → mix_4_2 a b ≡ a % 16 * 4 + b / 64
unfolding mix_4_2 each_under
mix_4_2_lem a b h h' =
    rw (and_0f a h, and_c0 b h') (or_eq 16 4 4 refl (a % 16) (b / 64) (omega arith) (omega arith))

pub mix_6_2_lem : (a b : ℕ) → a < 64 → b < 64 → mix_6_2 a b ≡ a * 4 + b / 16
unfolding mix_6_2 each_under
mix_6_2_lem a b h h' =
    rw (and_30 b (omega arith), or_eq 64 4 4 refl a (b / 16 % 4) h (omega arith)) (omega arith)

pub mix_4_4_lem : (a b : ℕ) → a < 64 → b < 64 → mix_4_4 a b ≡ a % 16 * 16 + b / 4
unfolding mix_4_4 each_under
mix_4_4_lem a b h h' =
    rw
      (
        and_0f a (omega arith),
        and_3c b (omega arith),
        or_eq 16 16 16 refl (a % 16) (b / 4 % 16) (omega arith) (omega arith),
      )
      (omega arith)

pub mix_2_6_lem : (a b : ℕ) → a < 64 → b < 64 → mix_2_6 a b ≡ a % 4 * 64 + b
unfolding mix_2_6 each_under
mix_2_6_lem a b h h' =
    rw (and_03 a (omega arith), or_eq 4 64 64 refl (a % 4) b (omega arith) h') (omega arith)
