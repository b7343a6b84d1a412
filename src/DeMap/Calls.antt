-- ===== src/DeMap/Calls.antt =====
-- DeMap.hpp: any sequence of calls keeps the three maps together.
use drgb_server.Prelude.{
  ◌≡◌, ◌≢◌, refl, ap, ◌∙◌, none, inl, inr, some, List, [], ◌∷◌, All, Option-cases,
}
use drgb_server.Map.{Order, find}
use drgb_server.Map.Laws.{key_eq_or_ne, subscript_present, All-found}
use drgb_server.DeMap.{
  DeMap, new, insert, find_lkey, find_rkey, insert_lkey_value, insert_rkey_value, erase_lkey,
  erase_rkey, get_all, get_all_from, clear,
}
use drgb_server.DeMap.Pairing.{IsPaired, new-IsPaired, assigned-IsPaired}
use drgb_server.DeMap.Keys.{find_lkey_cases, find_rkey_cases, insert_cases, erase_lkey-erase_rkey}

pub data Call {ℓ κ μ} (L : Type ℓ) (R : Type κ) (V : Type μ) : Type (ℓ ⊔ κ ⊔ μ) where
  inserts : L → R → V → Call L R V
  finds_lkey : L → Call L R V
  finds_rkey : R → Call L R V
  sets_lkey : L → V → Call L R V
  sets_rkey : R → V → Call L R V
  erases_lkey : L → Call L R V
  erases_rkey : R → Call L R V
  clears lists : Call L R V

module _ {ℓ κ μ} {L : Type ℓ} {R : Type κ} {V : Type μ} ⦃l : Order L⦄ ⦃r : Order R⦄ where
  unfoldable pub step : V → R → Call L R V → DeMap L R V → DeMap L R V
  step default first (inserts a b v) d = (insert a b v d).1
  step default first (finds_lkey a) d = (find_lkey default a d).1
  step default first (finds_rkey b) d = (find_rkey default b d).1
  step default first (sets_lkey a v) d = (insert_lkey_value a v d).1
  step default first (sets_rkey b v) d = (insert_rkey_value b v d).1
  step default first (erases_lkey a) d = (erase_lkey default a d).1
  step default first (erases_rkey b) d = (erase_rkey default b d).1
  step default first clears d = clear d
  step default first lists d = (get_all first d).1

  unfoldable pub run : V → R → List (Call L R V) → DeMap L R V → DeMap L R V
  unfolding step
  run default first [] d = d
  run default first (c ∷ calls) d = run default first calls (step default first c d)

  found_paired :
      (a : L) (d : DeMap L R V) (v : V)
      → IsPaired d
      → find a d.kvm ≡ some v
      → (b : R) × (find a d.lrm ≡ some b)
  found_paired a d v p h = elim (Option-cases (find a d.lrm)) [
    | inl e ↦ cc (p.alone a e)
    | inr found ↦ found
  ]

  pub set_lkey-IsPaired :
      (a : L) (v : V) (d : DeMap L R V) → IsPaired d → IsPaired (insert_lkey_value a v d).1
  unfolding insert_lkey_value
  set_lkey-IsPaired a v d p = elim (Option-cases (find a d.kvm)) [
    | inl e ↦ rw (e, insert_lkey_value) p
    | inr (w, e) ↦
        let (b, e') = found_paired a d w p e in
        rw (e, insert_lkey_value) (assigned-IsPaired a b v d e' p)
  ]

  set_rkey-IsPaired :
      (b : R) (v : V) (d : DeMap L R V) → IsPaired d → IsPaired (insert_rkey_value b v d).1
  unfolding insert_rkey_value
  set_rkey-IsPaired b v d p = elim (Option-cases (find b d.rlm)) [
    | inl e ↦ rw (e, insert_rkey_value) p
    | inr (a, e) ↦ rw (e, insert_rkey_value) (assigned-IsPaired a b v d (p.back a b e) p)
  ]

  pub erase_lkey-IsPaired :
      (default : V) (a : L) (d : DeMap L R V) → IsPaired d → IsPaired (erase_lkey default a d).1
  unfolding erase_lkey
  erase_lkey-IsPaired default a d p = elim (find_lkey_cases default a d p) [
    | inl (b, v, entry, _) ↦
        let (d', e, _, p', _, _, _) = erase_lkey-erase_rkey default v a b d p entry in rw e p'
    | inr (e, _) ↦ rw (e, erase_lkey) p
  ]

  erase_rkey-IsPaired :
      (default : V) (b : R) (d : DeMap L R V) → IsPaired d → IsPaired (erase_rkey default b d).1
  unfolding erase_rkey
  erase_rkey-IsPaired default b d p = elim (find_rkey_cases default b d p) [
    | inl (a, v, entry, _) ↦
        let (d', _, e, p', _, _, _) = erase_lkey-erase_rkey default v a b d p entry in rw e p'
    | inr (e, _) ↦ rw (e, erase_rkey) p
  ]

  get_all_from_keeps :
      (first : R) (entries : List (L × V)) (lrm : List (L × R))
      → All (λ e. (b : R) × (find e.0 lrm ≡ some b)) entries
      → (get_all_from first entries lrm).1 ≡ lrm
  unfolding get_all_from
  get_all_from_keeps first [] lrm h = refl
  get_all_from_keeps first ((a, v) ∷ entries) lrm h =
      rw (subscript_present first h.0.0 a lrm h.0.1) (get_all_from_keeps first entries lrm h.1)

  -- Every key of a map is found in it.
  keys_found :
      (d : DeMap L R V) (entries : List (L × V))
      → IsPaired d
      → All (λ e. (v : V) × (find e.0 d.kvm ≡ some v)) entries
      → All (λ e. (b : R) × (find e.0 d.lrm ≡ some b)) entries
  keys_found d [] p h = tt
  keys_found d ((a, v) ∷ entries) p h = (found_paired a d h.0.0 p h.0.1, keys_found d entries p h.1)

  get_all_keeps : (first : R) (d : DeMap L R V) → IsPaired d → (get_all first d).1 ≡ d
  unfolding get_all
  get_all_keeps first d p =
      ap (λ m. record d { lrm = m })
        (get_all_from_keeps first d.kvm d.lrm (keys_found d d.kvm p (All-found d.kvm)))

  step-IsPaired :
      (default : V) (first : R) (c : Call L R V) (d : DeMap L R V)
      → IsPaired d
      → IsPaired (step default first c d)
  unfolding step
  step-IsPaired default first (inserts a b v) d p = elim (insert_cases a b v d p) [
    | inl (_, e) ↦ rw (e, step) p
    | inr (d', e, p', _, _) ↦ rw (e, step) p'
  ]
  step-IsPaired default first (finds_lkey a) d p = elim (find_lkey_cases default a d p) [
    | inl (b, v, _, e) ↦ rw (e, step) p
    | inr (_, e) ↦ rw (e, step) p
  ]
  step-IsPaired default first (finds_rkey b) d p = elim (find_rkey_cases default b d p) [
    | inl (a, v, _, e) ↦ rw (e, step) p
    | inr (_, e) ↦ rw (e, step) p
  ]
  step-IsPaired default first (sets_lkey a v) d p = set_lkey-IsPaired a v d p
  step-IsPaired default first (sets_rkey b v) d p = set_rkey-IsPaired b v d p
  step-IsPaired default first (erases_lkey a) d p = erase_lkey-IsPaired default a d p
  step-IsPaired default first (erases_rkey b) d p = erase_rkey-IsPaired default b d p
  step-IsPaired default first clears d p = unfold clear new in new-IsPaired
  step-IsPaired default first lists d p = rw (get_all_keeps first d p, step) p

  -- After any calls on an empty map the two key maps are inverse to one another, and exactly the
  -- first keys that are in use have a value.
  pub run-IsPaired :
      (default : V) (first : R) (calls : List (Call L R V)) (d : DeMap L R V)
      → IsPaired d
      → IsPaired (run default first calls d)
  unfolding run
  run-IsPaired default first [] d p = p
  run-IsPaired default first (c ∷ calls) d p =
      run-IsPaired default first calls (step default first c d) (step-IsPaired default first c d p)

  -- After erasing a key it is free, and the entries of the other keys are as before.
  pub erase_lkey_cases :
      (default : V) (a : L) (d : DeMap L R V)
      → IsPaired d
      → (find a (erase_lkey default a d).1.lrm ≡ none)
        × ((x : L)
            → x ≢ a
            → (find x (erase_lkey default a d).1.lrm ≡ find x d.lrm)
              × (find x (erase_lkey default a d).1.kvm ≡ find x d.kvm))
  unfolding erase_lkey
  erase_lkey_cases default a d p = elim (find_lkey_cases default a d p) [
    | inl (b, v, entry, _) ↦
        let (d', e, _, _, free, _, others) = erase_lkey-erase_rkey default v a b d p entry in
        rw e (free, others)
    | inr (e, _) ↦ rw (erase_lkey, e) (e, λ x ne. (refl, refl))
  ]

  pub erase_lkey_stays :
      (default : V) (a x : L) (d : DeMap L R V)
      → IsPaired d
      → find x d.lrm ≡ none
      → find x (erase_lkey default a d).1.lrm ≡ none
  erase_lkey_stays default a x d p free = elim (key_eq_or_ne x a) [
    | inl e ↦ rw e (erase_lkey_cases default a d p).0
    | inr ne ↦ ((erase_lkey_cases default a d p).1 x ne).0 ∙ free
  ]
