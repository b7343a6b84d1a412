-- ===== src/DeMap.antt =====
-- source/utils/DeMap.hpp: a map with two keys for each value.
-- Each method holds the mutex throughout. `V` and the keys have default values, since `operator[]`
-- makes one for a key that is missing. `Expected` is `Option` (source/utils/Expected.hpp with no
-- error type).
use drgb_server.Prelude.{ℕ, Bool, true, false, ◌||◌, Option, none, some, List, [], ◌∷◌}
use drgb_server.Map
use drgb_server.Map.{Order, find, assign, erase, subscript}
pub mod Pairing
pub mod Keys
pub mod Calls

pub record DeMap {ℓ κ μ} (L : Type ℓ) (R : Type κ) (V : Type μ) : Type (ℓ ⊔ κ ⊔ μ) where
  pub lrm : List (L × R)
  pub rlm : List (R × L)
  pub kvm : List (L × V)

abbrev is_bound {ℓ} : {A : Type ℓ} → Option A → Bool
is_bound none = false
is_bound (some a) = true

module _ {ℓ κ μ} {L : Type ℓ} {R : Type κ} {V : Type μ} ⦃l : Order L⦄ ⦃r : Order R⦄ where
  unfoldable pub new : DeMap L R V
  new = record { lrm = []; rlm = []; kvm = [] }

  unfoldable pub insert : L → R → V → DeMap L R V → Bool × DeMap L R V
  insert lkey rkey value d = elim (is_bound (find lkey d.lrm) || is_bound (find rkey d.rlm)) [
    | true ↦ (false, d)
    | false ↦ (
      true,
      record {
        lrm = Map.insert lkey rkey d.lrm;
        rlm = Map.insert rkey lkey d.rlm;
        kvm = Map.insert lkey value d.kvm;
      },
    )
  ]

  unfoldable pub find_lkey : V → L → DeMap L R V → Option (R × V) × DeMap L R V
  find_lkey default key d = elim (find key d.lrm) [
    | none ↦ (none, d)
    | some rkey ↦
        let (value, kvm) = subscript default key d.kvm in
        (some (rkey, value), record d { kvm = kvm })
  ]

  unfoldable pub find_rkey : V → R → DeMap L R V → Option (L × V) × DeMap L R V
  find_rkey default key d = elim (find key d.rlm) [
    | none ↦ (none, d)
    | some lkey ↦
        let (value, kvm) = subscript default lkey d.kvm in
        (some (lkey, value), record d { kvm = kvm })
  ]

  unfoldable pub insert_lkey_value : L → V → DeMap L R V → Bool × DeMap L R V
  insert_lkey_value lkey value d = elim (find lkey d.kvm) [
    | none ↦ (false, d)
    | some _ ↦ (true, record d { kvm = assign lkey value d.kvm })
  ]

  unfoldable pub insert_rkey_value : R → V → DeMap L R V → Bool × DeMap L R V
  insert_rkey_value rkey value d = elim (find rkey d.rlm) [
    | none ↦ (false, d)
    | some lkey ↦ (true, record d { kvm = assign lkey value d.kvm })
  ]

  -- The three `erase` calls of both methods.
  unfoldable pub erase_both : L → R → DeMap L R V → DeMap L R V
  erase_both lkey rkey d = record {
    lrm = erase lkey d.lrm;
    rlm = erase rkey d.rlm;
    kvm = erase lkey d.kvm;
  }

  unfoldable pub erase_lkey : V → L → DeMap L R V → Option (L × R × V) × DeMap L R V
  unfolding erase_both
  erase_lkey default lkey d = elim (find lkey d.lrm) [
    | none ↦ (none, d)
    | some rkey ↦
        let (value, kvm) = subscript default lkey d.kvm in
        (some (lkey, rkey, value), erase_both lkey rkey (record d { kvm = kvm }))
  ]

  unfoldable pub erase_rkey : V → R → DeMap L R V → Option (L × R × V) × DeMap L R V
  unfolding erase_both
  erase_rkey default rkey d = elim (find rkey d.rlm) [
    | none ↦ (none, d)
    | some lkey ↦
        let (value, kvm) = subscript default lkey d.kvm in
        (some (lkey, rkey, value), erase_both lkey rkey (record d { kvm = kvm }))
  ]

  unfoldable pub clear : DeMap L R V → DeMap L R V
  clear d = record { lrm = []; rlm = []; kvm = [] }

  unfoldable pub size : DeMap L R V → ℕ
  size d = Map.size d.lrm

  -- The loop of `GetAll` over `kvm`; `lrm[lkey]` makes a default key where one is missing.
  unfoldable pub get_all_from : R → List (L × V) → List (L × R) → List (L × R × V) × List (L × R)
  get_all_from default [] lrm = ([], lrm)
  get_all_from default ((lkey, value) ∷ entries) lrm =
      let (rkey, lrm') = subscript default lkey lrm in
      let (rest, lrm'') = get_all_from default entries lrm' in ((lkey, rkey, value) ∷ rest, lrm'')

  unfoldable pub get_all : R → DeMap L R V → List (L × R × V) × DeMap L R V
  unfolding get_all_from
  get_all default d =
      let (result, lrm) = get_all_from default d.kvm d.lrm in (result, record d { lrm = lrm })
