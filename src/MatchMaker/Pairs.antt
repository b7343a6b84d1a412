-- ===== src/MatchMaker/Pairs.antt =====
-- MatchMaker: what `Process` pairs.
use drgb_server.Prelude.{
  ℕ, zero, suc, ◌≤◌, ◌≡◌, refl, ap₂, ◌∙◌, inl, inr, true, false, none, some, List, [], ◌∷◌, ◌++◌,
  map, All, Bool-cases, Option-cases, ◌==◌, length, arith,
}
use drgb_server.MatchMaker.{
  Element, MatchMaker, Doubles, games, rated, waited, in_coverage, is_matchable, partner, pair_up,
  process,
}

rated-rated : (e : Element) → rated (rated e) ≡ rated e
unfolding rated
rated-rated e = elim (Bool-cases (games e == 0)) [
  | inl h ↦ rw h (rw h refl)
  | inr h ↦ rw h (rw h refl)
]

module _ {ℓ} {D : Type ℓ} (double : Doubles D) (interpolate : D) where
  unfoldable pub NoneMatches : Element → List Element → Type 0
  NoneMatches i [] = Unit
  NoneMatches i (j ∷ queue) = (is_matchable double interpolate i j ≡ false) × NoneMatches i queue

  unfoldable pub IsSettled : List Element → Type 0
  unfolding NoneMatches
  IsSettled [] = Unit
  IsSettled (i ∷ queue) = NoneMatches i queue × IsSettled queue

  is_matchable_alike :
      (a b c d : Element)
      → rated a ≡ rated c
      → rated b ≡ rated d
      → is_matchable double interpolate a b ≡ is_matchable double interpolate c d
  unfolding is_matchable
  is_matchable_alike a b c d e e' = ap₂ (in_coverage double interpolate) e e'

  partner-rated :
      (i : Element) (queue : List Element) → rated (partner double interpolate i queue).1 ≡ rated i
  unfolding partner
  partner-rated i [] = refl
  partner-rated i (j ∷ queue) = elim (Bool-cases (is_matchable double interpolate i j)) [
    | inl h ↦ rw (partner, h) (rated-rated i)
    | inr h ↦ rw (partner, h) (partner-rated (rated i) queue ∙ rated-rated i)
  ]

  partner-none :
      (i : Element) (queue : List Element)
      → (partner double interpolate i queue).0 ≡ none
      → NoneMatches (partner double interpolate i queue).1 (partner double interpolate i queue).2
  unfolding partner NoneMatches
  partner-none i [] e = tt
  partner-none i (j ∷ queue) e = elim (Bool-cases (is_matchable double interpolate i j)) [
    | inl h ↦ cc (rw (partner, h) at e)
    | inr h ↦
        let e' : (partner double interpolate (rated i) queue).0 ≡ none = rw (partner, h) at e in
        rw (partner, h)
          (
            is_matchable_alike (partner double interpolate (rated i) queue).1 (rated j) i j
                  (partner-rated (rated i) queue ∙ rated-rated i) (rated-rated j)
                ∙ h,
            partner-none (rated i) queue e',
          )
  ]

  partner-some :
      (i j' : Element) (queue : List Element)
      → (partner double interpolate i queue).0 ≡ some j'
      → is_matchable double interpolate (partner double interpolate i queue).1 j' ≡ true
  unfolding partner
  partner-some i j' [] e = cc
  partner-some i j' (j ∷ queue) e = elim (Bool-cases (is_matchable double interpolate i j)) [
    | inl h ↦
        let q : rated j ≡ j' = cc (rw (partner, h) at e) in
        rw (partner, h, ← q)
          (is_matchable_alike (rated i) (rated j) i j (rated-rated i) (rated-rated j) ∙ h)
    | inr h ↦ rw (partner, h) (partner-some (rated i) j' queue (rw (partner, h) at e))
  ]

  partner-length :
      (i : Element) (queue : List Element)
      → length (partner double interpolate i queue).2 ≤ length queue
  unfolding partner
  partner-length i [] = omega arith
  partner-length i (j ∷ queue) = elim (Bool-cases (is_matchable double interpolate i j)) [
    | inl h ↦ rw (partner, h) (omega arith)
    | inr h ↦ rw (partner, h) (omega (arith, partner-length (rated i) queue))
  ]

  partner-NoneMatches :
      (k i : Element) (queue : List Element)
      → NoneMatches k queue
      → NoneMatches k (partner double interpolate i queue).2
  unfolding partner NoneMatches
  partner-NoneMatches k i [] n = tt
  partner-NoneMatches k i (j ∷ queue) n = elim (Bool-cases (is_matchable double interpolate i j)) [
    | inl h ↦ rw (partner, h) n.1
    | inr h ↦
        rw (partner, h)
          (
            is_matchable_alike k (rated j) k j refl (rated-rated j) ∙ n.0,
            partner-NoneMatches k (rated i) queue n.1,
          )
  ]

  pair_up-NoneMatches :
      (k : Element) (fuel : ℕ) (queue : List Element)
      → NoneMatches k queue
      → NoneMatches k (pair_up double interpolate fuel queue).1
  unfolding pair_up NoneMatches
  pair_up-NoneMatches k zero queue n = n
  pair_up-NoneMatches k (suc fuel) [] n = tt
  pair_up-NoneMatches k (suc fuel) (i ∷ queue) n =
      let rest =
        pair_up-NoneMatches k fuel (partner double interpolate i queue).2
          (partner-NoneMatches k i queue n.1) in
      elim (Option-cases (partner double interpolate i queue).0) [
        | inl e ↦
            rw (pair_up, e)
              (
                is_matchable_alike k (partner double interpolate i queue).1 k i refl
                      (partner-rated i queue)
                    ∙ n.0,
                rest,
              )
        | inr (j, e) ↦ rw (pair_up, e) rest
      ]

  pair_up_settles :
      (fuel : ℕ) (queue : List Element)
      → length queue ≤ fuel
      → IsSettled (pair_up double interpolate fuel queue).1
        × All
            (λ m. is_matchable double interpolate m.0 m.1 ≡ true)
            (pair_up double interpolate fuel queue).0
  unfolding pair_up IsSettled
  pair_up_settles zero [] enough = (tt, tt)
  pair_up_settles zero (i ∷ queue) enough = elim enough [ ]
  pair_up_settles (suc fuel) [] enough = (tt, tt)
  pair_up_settles (suc fuel) (i ∷ queue) enough =
      let rest = (partner double interpolate i queue).2 in
      let (settled, good) = pair_up_settles fuel rest (omega (arith, partner-length i queue)) in
      elim (Option-cases (partner double interpolate i queue).0) [
        | inl e ↦
            rw (pair_up, e)
              (
                (
                  pair_up-NoneMatches (partner double interpolate i queue).1 fuel rest
                      (partner-none i queue e),
                  settled,
                ),
                good,
              )
        | inr (j, e) ↦ rw (pair_up, e) (settled, (partner-some i j queue e, good))
      ]

  -- `Process` makes only matches whose players are in each other's coverage, behind those that were
  -- there, and when it ends no two players that still wait (before their wait counts grow) match.
  pub process_settles :
      (m : MatchMaker)
      → (matches : List (Element × Element)) × (left : List Element) × (process double interpolate m
          ≡ record { wait_queue = map waited left; match_queue = m.match_queue ++ matches })
        × All (λ p. is_matchable double interpolate p.0 p.1 ≡ true) matches
        × IsSettled left
  unfolding process
  process_settles m =
      let (settled, good) = pair_up_settles (length m.wait_queue) m.wait_queue (omega arith) in
      (
        (pair_up double interpolate (length m.wait_queue) m.wait_queue).0,
        (pair_up double interpolate (length m.wait_queue) m.wait_queue).1,
        refl,
        good,
        settled,
      )
