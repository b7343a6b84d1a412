-- ===== src/MatchService/Balance.antt =====
-- TransferMatch: the least of some streams.
use drgb_server.Prelude.{
  ℕ, ◌≤◌, ◌<◌, ◌≡◌, refl, ap, subst, sym, ◌⊎◌, inl, inr, true, false, List, [], ◌∷◌, ltb, ltb→lt,
  ◌==◌, ==_refl, Bool-cases, if◌then◌else◌, length, All, arith,
}
use drgb_server.MatchService.{least, without}

abbrev pub IsMember : ℕ × ℕ → List (ℕ × ℕ) → Type 0
IsMember s [] = true ≡ false
IsMember s (t ∷ streams) = (s ≡ t) ⊎ IsMember s streams

-- The next candidate replaces the best one, or does not.
least-next :
    (best s : ℕ × ℕ) (streams : List (ℕ × ℕ))
    → ((s.1 < best.1) × (least best (s ∷ streams) ≡ least s streams))
      ⊎ ((best.1 ≤ s.1) × (least best (s ∷ streams) ≡ least best streams))
unfolding least
least-next best s streams = elim (Bool-cases (ltb s.1 best.1)) [
  | inl h ↦ inl (ltb→lt s.1 best.1 h, ap (λ b. least (if b then s else best) streams) h)
  | inr h ↦ inr (ground arith, ap (λ b. least (if b then s else best) streams) h)
]

pub least-IsMember :
    (best : ℕ × ℕ) (streams : List (ℕ × ℕ)) → IsMember (least best streams) (best ∷ streams)
unfolding least
least-IsMember best [] = inl refl
least-IsMember best (s ∷ streams) = elim (least-next best s streams) [
  | inl (_, e) ↦
      subst (λ m. IsMember m (best ∷ s ∷ streams)) (sym e) (inr (least-IsMember s streams))
  | inr (_, e) ↦
      subst (λ m. IsMember m (best ∷ s ∷ streams)) (sym e)
        (elim (least-IsMember best streams) [ inl k ↦ inl k | inr m ↦ inr (inr m) ])
]

abbrev pub IsBound : ℕ → ℕ × ℕ → List (ℕ × ℕ) → Type 0
IsBound m best streams = (m ≤ best.1) × All (λ s. m ≤ s.1) streams

pub least-IsBound :
    (best : ℕ × ℕ) (streams : List (ℕ × ℕ)) → IsBound (least best streams).1 best streams
unfolding least
least-IsBound best [] = (omega arith, tt)
least-IsBound best (s ∷ streams) = elim (least-next best s streams) [
  | inl (lt, e) ↦
      let (a, b) = least-IsBound s streams in
      subst (λ m. IsBound m.1 best (s ∷ streams)) (sym e) (omega arith, (a, b))
  | inr (le, e) ↦
      let (a, b) = least-IsBound best streams in
      subst (λ m. IsBound m.1 best (s ∷ streams)) (sym e) (a, (omega arith, b))
]

without-length : (id : ℕ) (streams : List (ℕ × ℕ)) → length (without id streams) ≤ length streams
unfolding without
without-length id [] = omega arith
without-length id (s ∷ streams) = elim (Bool-cases (s.0 == id)) [
  | inl h ↦ rw (without, h) (omega (arith, without-length id streams))
  | inr h ↦ rw (without, h) (omega (arith, without-length id streams))
]

pub without_shorter :
    (s : ℕ × ℕ) (streams : List (ℕ × ℕ))
    → IsMember s streams
    → length (without s.0 streams) < length streams
unfolding without
without_shorter s [] m = cc
without_shorter s (t ∷ streams) m = elim (Bool-cases (t.0 == s.0)) [
  | inl h ↦ rw (without, h) (omega (arith, without-length s.0 streams))
  | inr h ↦ elim m [
    | inl e ↦ cc (rw (e, ==_refl t.0) at h)
    | inr m' ↦ rw (without, h) (omega (arith, without_shorter s streams m'))
  ]
]
