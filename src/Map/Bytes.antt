-- ===== src/Map/Bytes.antt =====
-- Byte arrays as keys: the cookies of the sessions, in the order of `std::array`.
use Prim.Native.Nat.{Ordering, compare}
use drgb_server.Prelude.{ℕ, ◌≡◌, refl, ap₂, List, [], ◌∷◌, arith}
use drgb_server.Map.{Order}

unfoldable pub compare_bytes : List ℕ → List ℕ → Ordering
compare_bytes [] [] = Ordering.eq
compare_bytes [] (_ ∷ _) = Ordering.lt
compare_bytes (_ ∷ _) [] = Ordering.gt
compare_bytes (a ∷ as') (b ∷ bs) =
    let rest = compare_bytes as' bs in
    elim (compare a b) [
      | Ordering.lt ↦ Ordering.lt
      | Ordering.eq ↦ rest
      | Ordering.gt ↦ Ordering.gt
    ]

pub compare_bytes_refl : (a : List ℕ) → compare_bytes a a ≡ Ordering.eq
unfolding compare_bytes
compare_bytes_refl [] = refl
compare_bytes_refl (a ∷ rest) = let ih = compare_bytes_refl rest in ground arith

pub compare_bytes_eq : (a b : List ℕ) → compare_bytes a b ≡ Ordering.eq → a ≡ b
unfolding compare_bytes
compare_bytes_eq [] [] h = refl
compare_bytes_eq [] (b ∷ bs) h = cc
compare_bytes_eq (a ∷ rest) [] h = cc
compare_bytes_eq (a ∷ rest) (b ∷ bs) h =
    let head_eq : a ≡ b = ground arith in
    let rest_eq : compare_bytes rest bs ≡ Ordering.eq = ground arith in
    ap₂ ◌∷◌ head_eq (compare_bytes_eq rest bs rest_eq)

instance abbrev pub bytes_order : Order (List ℕ)
bytes_order = record {
  cmp = compare_bytes;
  cmp-refl = compare_bytes_refl;
  eq_of_cmp = compare_bytes_eq;
}
