-- ===== src/DeMap/Keys.antt =====
-- DeMap.hpp: what the methods return, and that both keys lead to the same entry.
use drgb_server.Prelude.{
  ◌≡◌, ◌≢◌, ◌↔◌, refl, ap, ◌∙◌, ◌⊎◌, inl, inr, true, false, Option, none, some, Option-cases,
}
use drgb_server.Map.{Order, find, assign}
use drgb_server.Map.Laws.{
  find-insert_self, find-insert_ne, find-erase_self, find-erase_ne, subscript_present,
}
use drgb_server.DeMap.{
  DeMap, insert, find_lkey, find_rkey, insert_lkey_value, erase_both, erase_lkey, erase_rkey,
  is_bound,
}
use drgb_server.DeMap.Pairing.{IsPaired, added, added-IsPaired, erase_both-IsPaired}

module _ {ℓ κ μ} {L : Type ℓ} {R : Type κ} {V : Type μ} ⦃l : Order L⦄ ⦃r : Order R⦄ where
  -- One entry of the map.
  abbrev pub Entry : DeMap L R V → L → R → V → Type (ℓ ⊔ κ ⊔ μ)
  Entry d a b v = (find a d.lrm ≡ some b) × (find b d.rlm ≡ some a) × (find a d.kvm ≡ some v)

  -- What a lookup by the first key returns: the entry with that key, or nothing if there is none.
  -- The map stays as it was.
  pub find_lkey_cases :
      (default : V) (a : L) (d : DeMap L R V)
      → IsPaired d
      → ((b : R) × (v : V) × Entry d a b v × (find_lkey default a d ≡ (some (b, v), d)))
        ⊎ ((find a d.lrm ≡ none) × (find_lkey default a d ≡ (none, d)))
  unfolding find_lkey
  find_lkey_cases default a d p = elim (Option-cases (find a d.lrm)) [
    | inl e ↦ inr (e, rw (e, find_lkey))
    | inr (b, e) ↦
        let (v, e') = p.valued a b e in
        inl (
          b,
          v,
          (e, p.forth a b e, e'),
          rw (e, find_lkey) (rw (subscript_present default v a d.kvm e')),
        )
  ]

  pub find_rkey_cases :
      (default : V) (b : R) (d : DeMap L R V)
      → IsPaired d
      → ((a : L) × (v : V) × Entry d a b v × (find_rkey default b d ≡ (some (a, v), d)))
        ⊎ ((find b d.rlm ≡ none) × (find_rkey default b d ≡ (none, d)))
  unfolding find_rkey
  find_rkey_cases default b d p = elim (Option-cases (find b d.rlm)) [
    | inl e ↦ inr (e, rw (e, find_rkey))
    | inr (a, e) ↦
        let e'' = p.back a b e in
        let (v, e') = p.valued a b e'' in
        inl (a, v, (e'', e, e'), rw (e, find_rkey) (rw (subscript_present default v a d.kvm e')))
  ]

  pub Entry-find_lkey :
      (default : V) (a : L) (b : R) (v : V) (d : DeMap L R V)
      → Entry d a b v
      → find_lkey default a d ≡ (some (b, v), d)
  unfolding find_lkey
  Entry-find_lkey default a b v d (e, _, e') =
      rw (e, find_lkey) (rw (subscript_present default v a d.kvm e'))

  pub Entry-find_rkey :
      (default : V) (a : L) (b : R) (v : V) (d : DeMap L R V)
      → Entry d a b v
      → find_rkey default b d ≡ (some (a, v), d)
  unfolding find_rkey
  Entry-find_rkey default a b v d (_, e, e') =
      rw (e, find_rkey) (rw (subscript_present default v a d.kvm e'))

  pub Entry-insert_lkey_value :
      (a : L) (b : R) (v w : V) (d : DeMap L R V)
      → Entry d a b v
      → insert_lkey_value a w d ≡ (true, record d { kvm = assign a w d.kvm })
  unfolding insert_lkey_value
  Entry-insert_lkey_value a b v w d (_, _, e) = rw (insert_lkey_value, e) refl

  -- A lookup by one key finds an entry exactly when the lookup by the entry's other key finds it.
  pub find_lkey-find_rkey :
      (default v : V) (a : L) (b : R) (d : DeMap L R V)
      → IsPaired d
      → ((find_lkey default a d).0 ≡ some (b, v)) ↔ ((find_rkey default b d).0 ≡ some (a, v))
  find_lkey-find_rkey default v a b d p = (forth, back)
    where
      forth : (find_lkey default a d).0 ≡ some (b, v) → (find_rkey default b d).0 ≡ some (a, v)
      forth h = elim (find_lkey_cases default a d p) [
        | inr (_, e) ↦ cc (rw e at h)
        | inl (b', v', entry, e) ↦
            let q : b' ≡ b = cc (rw e at h) in
            let q' : v' ≡ v = cc (rw e at h) in
            rw (← q, ← q')
              (ap (λ (t : Option (L × V) × DeMap L R V). t.0)
                (Entry-find_rkey default a b' v' d entry))
      ]

      back : (find_rkey default b d).0 ≡ some (a, v) → (find_lkey default a d).0 ≡ some (b, v)
      back h = elim (find_rkey_cases default b d p) [
        | inr (_, e) ↦ cc (rw e at h)
        | inl (a', v', entry, e) ↦
            let q : a' ≡ a = cc (rw e at h) in
            let q' : v' ≡ v = cc (rw e at h) in
            rw (← q, ← q')
              (ap (λ (t : Option (R × V) × DeMap L R V). t.0)
                (Entry-find_lkey default a' b v' d entry))
      ]

  pub insert-added :
      (a : L) (b : R) (v : V) (d : DeMap L R V)
      → find a d.lrm ≡ none
      → find b d.rlm ≡ none
      → insert a b v d ≡ (true, added a b v d)
  unfolding insert added
  insert-added a b v d e e' = rw (e, insert) (rw (e', is_bound))

  pub added-Entry :
      (a : L) (b : R) (v : V) (d : DeMap L R V)
      → IsPaired d
      → find a d.lrm ≡ none
      → find b d.rlm ≡ none
      → Entry (added a b v d) a b v
  unfolding added
  added-Entry a b v d p e e' = (
    find-insert_self a b d.lrm e,
    find-insert_self b a d.rlm e',
    find-insert_self a v d.kvm (p.alone a e),
  )

  -- An entry with other keys stays.
  pub added-Entry_other :
      (a a' : L) (b b' : R) (v v' : V) (d : DeMap L R V)
      → a' ≢ a
      → b' ≢ b
      → Entry d a' b' v'
      → Entry (added a b v d) a' b' v'
  unfolding added
  added-Entry_other a a' b b' v v' d ne ne' (e, e', e'') = (
    find-insert_ne a' a b d.lrm ne ∙ e,
    find-insert_ne b' b a d.rlm ne' ∙ e',
    find-insert_ne a' a v d.kvm ne ∙ e'',
  )

  -- `Insert` fails, and changes nothing, if one of the keys is in use. Otherwise the new entry is
  -- there, and the entries with other first keys are those that were there before.
  pub insert_cases :
      (a : L) (b : R) (v : V) (d : DeMap L R V)
      → IsPaired d
      → (((find a d.lrm ≢ none) ⊎ (find b d.rlm ≢ none)) × (insert a b v d ≡ (false, d)))
        ⊎ ((d' : DeMap L R V) × (insert a b v d ≡ (true, d'))
            × IsPaired d'
            × Entry d' a b v
            × ((a' : L)
                → a' ≢ a
                → (find a' d'.lrm ≡ find a' d.lrm) × (find a' d'.kvm ≡ find a' d.kvm)))
  unfolding insert added
  insert_cases a b v d p = elim (Option-cases (find a d.lrm)) [
    | inr (b', e) ↦ inl (inl (λ h. cc), rw (e, insert))
    | inl e ↦ elim (Option-cases (find b d.rlm)) [
      | inr (a', e') ↦ inl (inr (λ h. cc), rw (e, insert) (rw (e', is_bound)))
      | inl e' ↦ inr (
        added a b v d,
        rw (e, insert) (rw (e', is_bound)),
        added-IsPaired a b v d e e' p,
        (
          find-insert_self a b d.lrm e,
          find-insert_self b a d.rlm e',
          find-insert_self a v d.kvm (p.alone a e),
        ),
        λ a' ne. (find-insert_ne a' a b d.lrm ne, find-insert_ne a' a v d.kvm ne),
      )
    ]
  ]

  -- Erasing an entry by its first key or by its second is the same: it returns the entry, frees
  -- both keys, and keeps every other entry.
  pub erase_lkey-erase_rkey :
      (default v : V) (a : L) (b : R) (d : DeMap L R V)
      → IsPaired d
      → Entry d a b v
      → (d' : DeMap L R V) × (erase_lkey default a d ≡ (some (a, b, v), d'))
        × (erase_rkey default b d ≡ (some (a, b, v), d'))
        × IsPaired d'
        × (find a d'.lrm ≡ none)
        × (find b d'.rlm ≡ none)
        × ((a' : L) → a' ≢ a → (find a' d'.lrm ≡ find a' d.lrm) × (find a' d'.kvm ≡ find a' d.kvm))
  unfolding erase_lkey erase_rkey
  erase_lkey-erase_rkey default v a b d p (e, e', e'') = (
    erase_both a b d,
    rw (e, erase_lkey) (rw (subscript_present default v a d.kvm e'')),
    rw (e', erase_rkey) (rw (subscript_present default v a d.kvm e'')),
    erase_both-IsPaired a b d e p,
    find-erase_self a d.lrm,
    find-erase_self b d.rlm,
    λ a' ne. (find-erase_ne a' a d.lrm ne, find-erase_ne a' a d.kvm ne),
  )
