-- ===== src/DeMap/Pairing.antt =====
-- DeMap.hpp: the three maps always describe one set of entries, with each key in one entry at most.
use drgb_server.Prelude.{◌≡◌, refl, sym, ◌∙◌, inl, inr, none, some}
use drgb_server.Map
use drgb_server.Map.{Order, find, assign, erase, subscript}
use drgb_server.Map.Laws.{
  key_eq_or_ne, find-insert_self, find-insert_ne, find-assign_self, find-assign_ne, find-erase_self,
  find-erase_ne,
}
use drgb_server.DeMap.{DeMap, new, erase_both}

module _ {ℓ κ μ} {L : Type ℓ} {R : Type κ} {V : Type μ} ⦃l : Order L⦄ ⦃r : Order R⦄ where
  pub record IsPaired (d : DeMap L R V) : Type (ℓ ⊔ κ ⊔ μ) where
    pub forth : (a : L) (b : R) → find a d.lrm ≡ some b → find b d.rlm ≡ some a
    pub back : (a : L) (b : R) → find b d.rlm ≡ some a → find a d.lrm ≡ some b
    pub valued : (a : L) (b : R) → find a d.lrm ≡ some b → (v : V) × (find a d.kvm ≡ some v)
    pub alone : (a : L) → find a d.lrm ≡ none → find a d.kvm ≡ none

  pub new-IsPaired : IsPaired (new {V = V})
  unfolding new find
  new-IsPaired = record {
    forth = λ a b h. cc;
    back = λ a b h. cc;
    valued = λ a b h. cc;
    alone = λ a h. refl;
  }

  -- An entry whose two keys are free.
  unfoldable pub added : L → R → V → DeMap L R V → DeMap L R V
  added a b v d = record {
    lrm = Map.insert a b d.lrm;
    rlm = Map.insert b a d.rlm;
    kvm = Map.insert a v d.kvm;
  }

  pub added-IsPaired :
      (a : L) (b : R) (v : V) (d : DeMap L R V)
      → find a d.lrm ≡ none
      → find b d.rlm ≡ none
      → IsPaired d
      → IsPaired (added a b v d)
  unfolding added
  added-IsPaired a b v d free_a free_b p = record {
    forth = λ a' b' h. elim (key_eq_or_ne a' a) [
      | inl e ↦
          let same : b ≡ b' = cc (find-insert_self a b d.lrm free_a, rw e at h) in
          rw (e, ← same) (find-insert_self b a d.rlm free_b)
      | inr ne ↦
          let old = p.forth a' b' (sym (find-insert_ne a' a b d.lrm ne) ∙ h) in
          find-insert_ne b' b a d.rlm (λ e. cc (free_b, rw e at old)) ∙ old
    ];
    back = λ a' b' h. elim (key_eq_or_ne b' b) [
      | inl e ↦
          let same : a ≡ a' = cc (find-insert_self b a d.rlm free_b, rw e at h) in
          rw (e, ← same) (find-insert_self a b d.lrm free_a)
      | inr ne ↦
          let old = p.back a' b' (sym (find-insert_ne b' b a d.rlm ne) ∙ h) in
          find-insert_ne a' a b d.lrm (λ e. cc (free_a, rw e at old)) ∙ old
    ];
    valued = λ a' b' h. elim (key_eq_or_ne a' a) [
      | inl e ↦ (v, rw e (find-insert_self a v d.kvm (p.alone a free_a)))
      | inr ne ↦
          let (w, e) = p.valued a' b' (sym (find-insert_ne a' a b d.lrm ne) ∙ h) in
          (w, find-insert_ne a' a v d.kvm ne ∙ e)
    ];
    alone = λ a' h. elim (key_eq_or_ne a' a) [
      | inl e ↦ cc (find-insert_self a b d.lrm free_a, rw e at h)
      | inr ne ↦
          find-insert_ne a' a v d.kvm ne ∙ p.alone a' (sym (find-insert_ne a' a b d.lrm ne) ∙ h)
    ];
  }

  pub erase_both-IsPaired :
      (a : L) (b : R) (d : DeMap L R V)
      → find a d.lrm ≡ some b
      → IsPaired d
      → IsPaired (erase_both a b d)
  unfolding erase_both
  erase_both-IsPaired a b d paired p =
      let paired' = p.forth a b paired in
      record {
        forth = λ a' b' h. elim (key_eq_or_ne a' a) [
          | inl e ↦ cc (find-erase_self a d.lrm, rw e at h)
          | inr ne ↦
              let old = p.forth a' b' (sym (find-erase_ne a' a d.lrm ne) ∙ h) in
              find-erase_ne b' b d.rlm (λ e. ne (cc (paired', rw e at old))) ∙ old
        ];
        back = λ a' b' h. elim (key_eq_or_ne b' b) [
          | inl e ↦ cc (find-erase_self b d.rlm, rw e at h)
          | inr ne ↦
              let old = p.back a' b' (sym (find-erase_ne b' b d.rlm ne) ∙ h) in
              find-erase_ne a' a d.lrm (λ e. ne (cc (paired, rw e at old))) ∙ old
        ];
        valued = λ a' b' h. elim (key_eq_or_ne a' a) [
          | inl e ↦ cc (find-erase_self a d.lrm, rw e at h)
          | inr ne ↦
              let (w, e) = p.valued a' b' (sym (find-erase_ne a' a d.lrm ne) ∙ h) in
              (w, find-erase_ne a' a d.kvm ne ∙ e)
        ];
        alone = λ a' h. elim (key_eq_or_ne a' a) [
          | inl e ↦ rw e (find-erase_self a d.kvm)
          | inr ne ↦
              find-erase_ne a' a d.kvm ne ∙ p.alone a' (sym (find-erase_ne a' a d.lrm ne) ∙ h)
        ];
      }

  pub assigned-IsPaired :
      (a : L) (b : R) (v : V) (d : DeMap L R V)
      → find a d.lrm ≡ some b
      → IsPaired d
      → IsPaired (record d { kvm = assign a v d.kvm })
  assigned-IsPaired a b v d paired p = record {
    forth = p.forth;
    back = p.back;
    valued = λ a' b' h. elim (key_eq_or_ne a' a) [
      | inl e ↦ (v, rw e (find-assign_self a v d.kvm))
      | inr ne ↦ let (w, e) = p.valued a' b' h in (w, find-assign_ne a' a v d.kvm ne ∙ e)
    ];
    alone = λ a' h. elim (key_eq_or_ne a' a) [
      | inl e ↦ cc (paired, rw e at h)
      | inr ne ↦ find-assign_ne a' a v d.kvm ne ∙ p.alone a' h
    ];
  }
