-- ===== src/MatchMaker/Waiting.antt =====
-- MatchMaker: nobody gets lost or is doubled, and entering and leaving.
use drgb_server.Prelude.{
  ℕ, zero, suc, ◌+◌, ◌≡◌, refl, ap, inl, inr, false, Option, none, some, List, [], ◌∷◌, ◌++◌, map,
  Bool-cases, Option-cases, ◌==◌, ==_refl, if◌then◌else◌, length, arith,
}
use drgb_server.MatchMaker.{
  Element, MatchMaker, Doubles, games, rated, waited, is_matchable, less, partner, pair_up, process,
  insert_queue, enter, exit_queue, exit,
}

-- How often an id stands in a queue, and in the matches.
unfoldable pub waiting : ℕ → List Element → ℕ
waiting x [] = 0
waiting x (e ∷ queue) = (if e.id == x then 1 else 0) + waiting x queue

unfoldable pub matched : ℕ → List (Element × Element) → ℕ
matched x [] = 0
matched x ((i, j) ∷ matches) =
    (if i.id == x then 1 else 0) + (if j.id == x then 1 else 0) + matched x matches

rated-id : (e : Element) → (rated e).id ≡ e.id
unfolding rated
rated-id e = elim (Bool-cases (games e == 0)) [ inl h ↦ rw h refl | inr h ↦ rw h refl ]

waiting-waited : (x : ℕ) (queue : List Element) → waiting x (map waited queue) ≡ waiting x queue
unfolding waiting waited
waiting-waited x [] = refl
waiting-waited x (e ∷ queue) = ap (◌+◌ (if e.id == x then 1 else 0)) (waiting-waited x queue)

matched-append :
    (x : ℕ) (a b : List (Element × Element)) → matched x (a ++ b) ≡ matched x a + matched x b
unfolding matched
matched-append x [] b = omega arith
matched-append x (m ∷ a) b = omega (arith, matched-append x a b)

-- The partner that a search found.
abbrev found : ℕ → Option Element → ℕ
found x none = 0
found x (some j) = if j.id == x then 1 else 0

module _ {ℓ} {D : Type ℓ} (double : Doubles D) (interpolate : D) where
  partner-waiting :
      (x : ℕ) (i : Element) (queue : List Element)
      → found x (partner double interpolate i queue).0
          + (if (partner double interpolate i queue).1.id == x then 1 else 0)
          + waiting x (partner double interpolate i queue).2
        ≡ (if i.id == x then 1 else 0) + waiting x queue
  unfolding partner waiting rated
  partner-waiting x i [] = omega arith
  partner-waiting x i (j ∷ queue) = elim (Bool-cases (is_matchable double interpolate i j)) [
    | inl h ↦ rw (partner, h) (rw (rated-id i, rated-id j) (omega arith))
    | inr h ↦
        let rest = partner-waiting x (rated i) queue in
        rw (partner, h) (rw (rated-id j) (let rest' = rw (rated-id i) at rest in omega arith))
  ]

  pair_up-waiting :
      (x fuel : ℕ) (queue : List Element)
      → matched x (pair_up double interpolate fuel queue).0
          + waiting x (pair_up double interpolate fuel queue).1
        ≡ waiting x queue
  unfolding pair_up waiting matched
  pair_up-waiting x zero queue = omega arith
  pair_up-waiting x (suc fuel) [] = omega arith
  pair_up-waiting x (suc fuel) (i ∷ queue) =
      let one = partner-waiting x i queue in
      let rest = pair_up-waiting x fuel (partner double interpolate i queue).2 in
      elim (Option-cases (partner double interpolate i queue).0) [
        | inl e ↦ rw (pair_up, e) (let one' = rw e at one in omega arith)
        | inr (j, e) ↦ rw (pair_up, e) (let one' = rw e at one in omega arith)
      ]

  -- `Process` neither loses nor doubles a player: each id stands in the two queues together as often
  -- as before.
  pub process-waiting :
      (x : ℕ) (m : MatchMaker)
      → waiting x (process double interpolate m).wait_queue
          + matched x (process double interpolate m).match_queue
        ≡ waiting x m.wait_queue + matched x m.match_queue
  unfolding process
  process-waiting x m =
      let queue = m.wait_queue in
      let a = pair_up-waiting x (length queue) queue in
      let b = waiting-waited x (pair_up double interpolate (length queue) queue).1 in
      let c = matched-append x m.match_queue (pair_up double interpolate (length queue) queue).0 in
      omega arith

module _ {ℓ} {D : Type ℓ} (double : Doubles D) where
  other_id :
      (x : ℕ) (f : Element) (queue : List Element)
      → waiting x (f ∷ queue) ≡ 0
      → ((f.id == x) ≡ false) × (waiting x queue ≡ 0)
  unfolding waiting
  other_id x f queue none_there = ground arith

  exit_queue_absent :
      (x : ℕ) (queue : List Element) → waiting x queue ≡ 0 → exit_queue x queue ≡ queue
  unfolding exit_queue
  exit_queue_absent x [] none_there = refl
  exit_queue_absent x (f ∷ queue) none_there =
      let (h, rest) = other_id x f queue none_there in
      rw (exit_queue, h) (ap (◌∷◌ f) (exit_queue_absent x queue rest))

  exit_queue-insert_queue :
      (e : Element) (queue : List Element)
      → waiting e.id queue ≡ 0
      → exit_queue e.id (insert_queue double e queue) ≡ queue
  unfolding insert_queue exit_queue
  exit_queue-insert_queue e [] none_there = rw (==_refl e.id) refl
  exit_queue-insert_queue e (f ∷ queue) none_there =
      let (h, rest) = other_id e.id f queue none_there in
      elim (Bool-cases (less double e f)) [
        | inl k ↦ rw (insert_queue, k) (rw (==_refl e.id) refl)
        | inr k ↦ elim (Bool-cases (less double f e)) [
          | inl k' ↦
              rw (insert_queue, k)
                (rw k' (rw h (ap (◌∷◌ f) (exit_queue-insert_queue e queue rest))))
          | inr k' ↦
              rw (insert_queue, k) (rw k' (rw h (ap (◌∷◌ f) (exit_queue_absent e.id queue rest))))
        ]
      ]

  -- A player that was not waiting enters and leaves again: the match maker is the old one.
  pub exit-enter :
      (e : Element) (m : MatchMaker)
      → waiting e.id m.wait_queue ≡ 0
      → exit e.id (enter double e m) ≡ m
  unfolding exit enter
  exit-enter e m none_there = elim (Bool-cases (e.id == 0)) [
    | inl h ↦
        rw (enter, h)
          (ap (λ q. record m { wait_queue = q }) (exit_queue_absent e.id m.wait_queue none_there))
    | inr h ↦
        rw (enter, h)
          (ap (λ q. record m { wait_queue = q })
            (exit_queue-insert_queue e m.wait_queue none_there))
  ]
