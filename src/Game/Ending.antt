-- ===== src/Game/Ending.antt =====
-- MyGame.cpp: every battle ends, whatever the players send.
use drgb_server.Prelude.{
  ℕ, zero, suc, ◌+◌, ◌-◌, ◌^◌, ◌≤◌, ◌<◌, ◌≡◌, refl, ◌∙◌, ◌⊎◌, inl, inr, Bool, true, false, ◌||◌,
  Option, some, none, List, [], ◌∷◌, if◌then◌else◌, Bool-cases, length, All, arith,
}
use drgb_server.Prelude.Int.{ℤ, pos, negsuc, pos_part, neg_part, inc, ltb_ℤ}
use drgb_server.Game.{Game, Side, action, process, get_winner, rounds_over, is_some, max_round, new}
use drgb_server.Game.Rules.{round_result}
use drgb_server.Game.Round.{IsRunning-cases, process-round_result}
use drgb_server.Game.Standing.{IsFair, process-IsFair, new-IsFair}
use drgb_server.Game.Input.{action-IsFair}

-- The inputs that arrive between two rounds.
abbrev pub Inputs : Type 0
Inputs = List (Side × ℕ)

abbrev pub AreInts : Inputs → Type 0
AreInts = All (λ c. c.1 < 2 ^ 32)

-- `none` is an exception.
unfoldable pub take_inputs : Game → Inputs → Option Game
take_inputs g [] = some g
take_inputs g ((i, x) ∷ inputs) = elim (action g i x) [
  | none ↦ none
  | some h ↦ take_inputs h inputs
]

-- The rounds of a battle: inputs, then `process`, until it reports the end.
unfoldable pub play : Game → List Inputs → Option (Game × Bool)
unfolding take_inputs
play g [] = some (g, false)
play g (inputs ∷ later) = elim (take_inputs g inputs) [
  | none ↦ none
  | some h ↦
      let (k, over) = process h in let rest = play k later in if over then some (k, true) else rest
]

-- The rounds that are left, 11 for a new game.
abbrev pub rounds_left : Game → ℕ
rounds_left g = max_round + neg_part g.now_round - pos_part g.now_round

take_inputs-IsFair :
    (g : Game) (inputs : Inputs)
    → AreInts inputs
    → IsFair g
    → (h : Game) × (take_inputs g inputs ≡ some h) × IsFair h × (h.now_round ≡ g.now_round)
unfolding take_inputs
take_inputs-IsFair g [] b f = (g, refl, f, refl)
take_inputs-IsFair g ((i, x) ∷ inputs) b f =
    let (h, e, f', r) = action-IsFair g i x b.0 f in
    let (k, e', f'', r') = take_inputs-IsFair h inputs b.1 f' in
    (k, rw (e, take_inputs) e', f'', r' ∙ r)

abbrev IsOver : Game → Type 0
IsOver g = (is_some (get_winner g) || rounds_over g) ≡ true

-- A call of `process` reports the end only if somebody has won or the rounds are used up, and
-- otherwise it uses up one round.
process_progress :
    (g : Game)
    → IsFair g
    → (((process g).1 ≡ true) × IsOver (process g).0)
      ⊎ (((process g).1 ≡ false)
          × (rounds_left (process g).0 + 1 ≡ rounds_left g)
          × (0 < rounds_left (process g).0))
process_progress g f = elim (IsRunning-cases g) [
  | inr (e, over) ↦ inl (rw e refl, rw e over)
  | inl r ↦
      let e = process-round_result g f.left_ready f.right_ready r in
      let next = round_result f.left_ready.move f.right_ready.move g in
      elim (Bool-cases (is_some (get_winner next) || rounds_over next)) [
        | inl over ↦ inl (rw e over, rw e over)
        | inr goes ↦
            inr (rw e goes, rw e (inc_left g.now_round r.0), rw e (some_left next (ground arith)))
      ]
]
  where
    inc_left :
        (r : ℤ)
        → (if ltb_ℤ r (pos max_round) then false else true) ≡ false
        → max_round + neg_part (inc r) - pos_part (inc r) + 1 ≡ max_round + neg_part r - pos_part r
    inc_left (pos n) h = ground arith
    inc_left (negsuc zero) h = refl
    inc_left (negsuc (suc n)) h = omega arith

    some_left : (h : Game) → rounds_over h ≡ false → 0 < rounds_left h
    some_left h r = ground arith

-- Every battle ends, whatever the two clients send and whenever: a fair game that is given as many
-- rounds as it has left is over after one of them, with no exception, and then somebody has won or
-- the rounds are used up.
pub play_ends :
    (g : Game) (inputs : Inputs) (later : List Inputs)
    → IsFair g
    → AreInts inputs
    → All AreInts later
    → rounds_left g ≤ length (inputs ∷ later)
    → (h : Game) × (play g (inputs ∷ later) ≡ some (h, true))
      × IsFair h
      × ((is_some (get_winner h) || rounds_over h) ≡ true)
unfolding play
play_ends g inputs [] f b bs enough =
    let (h, e, f', r) = take_inputs-IsFair g inputs b f in
    elim (process_progress h f') [
      | inl (done, over) ↦ ((process h).0, rw (e, play) (rw done), process-IsFair h f', over)
      | inr (goes, less, some_left) ↦ absurd (omega (arith, rw r at less))
    ]
play_ends g inputs (next ∷ later) f b bs enough =
    let (h, e, f', r) = take_inputs-IsFair g inputs b f in
    elim (process_progress h f') [
      | inl (done, over) ↦ ((process h).0, rw (e, play) (rw done), process-IsFair h f', over)
      | inr (goes, less, some_left) ↦
          let (k, e', f'', over) =
            play_ends (process h).0 next later (process-IsFair h f') bs.0 bs.1
              (omega (arith, rw r at less)) in
          (k, rw (e, play) (rw goes e'), f'', over)
    ]

-- So a new battle is over after eleven rounds at most.
pub new-play_ends :
    (inputs : Inputs) (later : List Inputs)
    → AreInts inputs
    → All AreInts later
    → 10 ≤ length later
    → (h : Game) × (play new (inputs ∷ later) ≡ some (h, true))
      × IsFair h
      × ((is_some (get_winner h) || rounds_over h) ≡ true)
new-play_ends inputs later b bs enough =
    play_ends new inputs later new-IsFair b bs (unfold new in omega arith)
