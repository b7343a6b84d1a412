-- ===== src/Map.antt =====
-- `std::map` as the utilities use it: an association list in the order of the keys. Its users are
-- source/utils/DeMap.hpp and, through it, the servers.
use Prim.Native.Nat.{Ordering}
use drgb_server.Prelude.{ℕ, ◌≡◌, Option, none, some, List, [], ◌∷◌, length}
pub mod Bytes
pub mod Laws
pub mod Numbers

-- The order of a key type.
pub record Order {ℓ} (K : Type ℓ) : Type ℓ where
  pub cmp : K → K → Ordering
  pub cmp-refl : (a : K) → cmp a a ≡ Ordering.eq
  pub eq_of_cmp : (a b : K) → cmp a b ≡ Ordering.eq → a ≡ b

module _ {ℓ κ} {K : Type ℓ} {V : Type κ} ⦃o : Order K⦄ where
  -- `find`, with `end()` as `none`
  unfoldable pub find : K → List (K × V) → Option V
  find k [] = none
  find k ((j, v) ∷ m) = let rest = find k m in elim (o.cmp k j) [ Ordering.eq ↦ some v | _ ↦ rest ]

  -- `insert`, which keeps a value that is there
  unfoldable pub insert : K → V → List (K × V) → List (K × V)
  insert k v [] = (k, v) ∷ []
  insert k v ((j, w) ∷ m) =
      let rest = insert k v m in
      elim (o.cmp k j) [
        | Ordering.lt ↦ (k, v) ∷ (j, w) ∷ m
        | Ordering.eq ↦ (j, w) ∷ m
        | Ordering.gt ↦ (j, w) ∷ rest
      ]

  -- `m[k] = v`
  unfoldable pub assign : K → V → List (K × V) → List (K × V)
  assign k v [] = (k, v) ∷ []
  assign k v ((j, w) ∷ m) =
      let rest = assign k v m in
      elim (o.cmp k j) [
        | Ordering.lt ↦ (k, v) ∷ (j, w) ∷ m
        | Ordering.eq ↦ (j, v) ∷ m
        | Ordering.gt ↦ (j, w) ∷ rest
      ]

  unfoldable pub erase : K → List (K × V) → List (K × V)
  erase k [] = []
  erase k ((j, w) ∷ m) =
      let rest = erase k m in elim (o.cmp k j) [ Ordering.eq ↦ rest | _ ↦ (j, w) ∷ rest ]

  -- `m[k]` as a value: a key that is missing is inserted with the default value.
  unfoldable pub subscript : V → K → List (K × V) → V × List (K × V)
  unfolding find insert
  subscript default k m = elim (find k m) [ some v ↦ (v, m) | none ↦ (default, insert k default m) ]

abbrev pub size {ℓ κ} : {K : Type ℓ} {V : Type κ} → List (K × V) → ℕ
size m = length m
