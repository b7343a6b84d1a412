-- ===== src/Map/Laws.antt =====
-- Lookup after each change of a map.
use Prim.Native.Nat.{Ordering}
use drgb_server.Prelude.{◌≡◌, ◌≢◌, refl, sym, ◌∙◌, ◌⊎◌, inl, inr, none, some, List, [], ◌∷◌, All}
use drgb_server.Map.{Order, find, insert, assign, erase, subscript}

-- The three ways in which two keys compare, with the equality that goes with each.
module _ {ℓ} {K : Type ℓ} ⦃o : Order K⦄ where
  pub cmp-cases :
      (a b : K)
      → (o.cmp a b ≡ Ordering.lt)
        ⊎ (o.cmp a b ≡ Ordering.gt)
        ⊎ ((o.cmp a b ≡ Ordering.eq) × (a ≡ b))
  cmp-cases a b = go (o.cmp a b) refl
    where
      go :
          (c : Ordering)
          → o.cmp a b ≡ c
          → (o.cmp a b ≡ Ordering.lt)
            ⊎ (o.cmp a b ≡ Ordering.gt)
            ⊎ ((o.cmp a b ≡ Ordering.eq) × (a ≡ b))
      go Ordering.lt e = inl e
      go Ordering.gt e = inr (inl e)
      go Ordering.eq e = inr (inr (e, o.eq_of_cmp a b e))

  pub key_eq_or_ne : (a b : K) → (a ≡ b) ⊎ (a ≢ b)
  key_eq_or_ne a b = elim (cmp-cases a b) [
    | inl e ↦ inr (λ h. cc (o.cmp-refl b, rw h at e))
    | inr (inl e) ↦ inr (λ h. cc (o.cmp-refl b, rw h at e))
    | inr (inr (e, h)) ↦ inl h
  ]

module _ {ℓ κ} {K : Type ℓ} {V : Type κ} ⦃o : Order K⦄ where
  pub find-cons_self : (k : K) (v : V) (m : List (K × V)) → find k ((k, v) ∷ m) ≡ some v
  unfolding find
  find-cons_self k v m = rw (o.cmp-refl k, find)

  pub find-cons_ne : (k j : K) (w : V) (m : List (K × V)) → k ≢ j → find k ((j, w) ∷ m) ≡ find k m
  unfolding find
  find-cons_ne k j w m h = elim (cmp-cases k j) [
    | inl e ↦ rw (e, find)
    | inr (inl e) ↦ rw (e, find)
    | inr (inr (_, e)) ↦ absurd (h e)
  ]

  -- Two maps with one head, compared at a key.
  find-cons :
      (k j : K) (w : V) (m n : List (K × V))
      → find k m ≡ find k n
      → find k ((j, w) ∷ m) ≡ find k ((j, w) ∷ n)
  find-cons k j w m n h = elim (key_eq_or_ne k j) [
    | inl e ↦ rw e (find-cons_self j w m ∙ sym (find-cons_self j w n))
    | inr e ↦ find-cons_ne k j w m e ∙ h ∙ sym (find-cons_ne k j w n e)
  ]

  pub find-insert_self :
      (k : K) (v : V) (m : List (K × V)) → find k m ≡ none → find k (insert k v m) ≡ some v
  unfolding insert
  find-insert_self k v [] h = find-cons_self k v []
  find-insert_self k v ((j, w) ∷ m) h = elim (cmp-cases k j) [
    | inl e ↦ rw (e, insert) (find-cons_self k v ((j, w) ∷ m))
    | inr (inl e) ↦
        let ne : k ≢ j = λ p. cc (o.cmp-refl j, rw p at e) in
        rw (e, insert)
          (find-cons_ne k j w (insert k v m) ne
            ∙ find-insert_self k v m (sym (find-cons_ne k j w m ne) ∙ h))
    | inr (inr (_, e)) ↦ cc (find-cons_self j w m, rw e at h)
  ]

  pub find-insert_ne :
      (j k : K) (v : V) (m : List (K × V)) → j ≢ k → find j (insert k v m) ≡ find j m
  unfolding insert
  find-insert_ne j k v [] h = find-cons_ne j k v [] h
  find-insert_ne j k v ((i, w) ∷ m) h = elim (cmp-cases k i) [
    | inl e ↦ rw (e, insert) (find-cons_ne j k v ((i, w) ∷ m) h)
    | inr (inl e) ↦ rw (e, insert) (find-cons j i w (insert k v m) m (find-insert_ne j k v m h))
    | inr (inr (e, _)) ↦ rw (e, insert)
  ]

  pub find-assign_self : (k : K) (v : V) (m : List (K × V)) → find k (assign k v m) ≡ some v
  unfolding assign
  find-assign_self k v [] = find-cons_self k v []
  find-assign_self k v ((j, w) ∷ m) = elim (cmp-cases k j) [
    | inl e ↦ rw (e, assign) (find-cons_self k v ((j, w) ∷ m))
    | inr (inl e) ↦
        let ne : k ≢ j = λ p. cc (o.cmp-refl j, rw p at e) in
        rw (e, assign) (find-cons_ne k j w (assign k v m) ne ∙ find-assign_self k v m)
    | inr (inr (e, p)) ↦ rw (e, assign) (rw p (find-cons_self j v m))
  ]

  pub find-assign_ne :
      (j k : K) (v : V) (m : List (K × V)) → j ≢ k → find j (assign k v m) ≡ find j m
  unfolding assign
  find-assign_ne j k v [] h = find-cons_ne j k v [] h
  find-assign_ne j k v ((i, w) ∷ m) h = elim (cmp-cases k i) [
    | inl e ↦ rw (e, assign) (find-cons_ne j k v ((i, w) ∷ m) h)
    | inr (inl e) ↦ rw (e, assign) (find-cons j i w (assign k v m) m (find-assign_ne j k v m h))
    | inr (inr (e, p)) ↦
        let ne : j ≢ i = λ q. h (q ∙ sym p) in
        rw (e, assign) (find-cons_ne j i v m ne ∙ sym (find-cons_ne j i w m ne))
  ]

  pub find-erase_self : (k : K) (m : List (K × V)) → find k (erase k m) ≡ none
  unfolding erase
  find-erase_self k [] = unfold find in refl
  find-erase_self k ((j, w) ∷ m) = elim (cmp-cases k j) [
    | inl e ↦
        let ne : k ≢ j = λ p. cc (o.cmp-refl j, rw p at e) in
        rw (e, erase) (find-cons_ne k j w (erase k m) ne ∙ find-erase_self k m)
    | inr (inl e) ↦
        let ne : k ≢ j = λ p. cc (o.cmp-refl j, rw p at e) in
        rw (e, erase) (find-cons_ne k j w (erase k m) ne ∙ find-erase_self k m)
    | inr (inr (e, _)) ↦ rw (e, erase) (find-erase_self k m)
  ]

  pub find-erase_ne : (j k : K) (m : List (K × V)) → j ≢ k → find j (erase k m) ≡ find j m
  unfolding erase
  find-erase_ne j k [] h = refl
  find-erase_ne j k ((i, w) ∷ m) h = elim (cmp-cases k i) [
    | inl e ↦ rw (e, erase) (find-cons j i w (erase k m) m (find-erase_ne j k m h))
    | inr (inl e) ↦ rw (e, erase) (find-cons j i w (erase k m) m (find-erase_ne j k m h))
    | inr (inr (e, p)) ↦
        rw (e, erase) (find-erase_ne j k m h ∙ sym (find-cons_ne j i w m (λ q. h (q ∙ sym p))))
  ]

  pub subscript_present :
      (default v : V) (k : K) (m : List (K × V))
      → find k m ≡ some v
      → subscript default k m ≡ (v, m)
  unfolding subscript
  subscript_present default v k m h = rw (h, subscript)

  still_found :
      (j : K) (w : V) (m entries : List (K × V))
      → All (λ e. (v : V) × (find e.0 m ≡ some v)) entries
      → All (λ e. (v : V) × (find e.0 ((j, w) ∷ m) ≡ some v)) entries
  still_found j w m [] h = tt
  still_found j w m ((a, v) ∷ entries) h = (
    elim (key_eq_or_ne a j) [
      | inl e ↦ (w, rw e (find-cons_self j w m))
      | inr ne ↦ (h.0.0, find-cons_ne a j w m ne ∙ h.0.1)
    ],
    still_found j w m entries h.1,
  )

  -- Every key of a map is found in it.
  pub All-found : (m : List (K × V)) → All (λ e. (v : V) × (find e.0 m ≡ some v)) m
  All-found [] = tt
  All-found ((j, w) ∷ m) = ((w, find-cons_self j w m), still_found j w m m (All-found m))
