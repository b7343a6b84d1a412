-- ===== src/Tests/GameTests.antt =====
-- Battles on concrete inputs.
use drgb_server.Prelude.{◌≡◌, refl, Bool, true, ◌||◌, Option, some, none, List, [], ◌∷◌, ◌≤◌, arith}
use drgb_server.Prelude.Int.{negsuc}
use drgb_server.Game.{
  Game, Side, left, right, new, opponent, Player, action, process, get_winner, rounds_over, is_some,
  meditate_code, guard_code, punch_code, fire_code, get_player_info,
}
use drgb_server.Game.Rules.{IsReady, meditating, round_result}
use drgb_server.Game.Standing.{IsFair, new-IsFair, process-IsFair}
use drgb_server.Game.Round.{process-round_result}
use drgb_server.Game.Ending.{Inputs, play, new-play_ends}

-- The rounds of `GameTest.NormalTest`: the left player fires at a meditating opponent.
abbrev normal : List Inputs
normal =
    []
    ∷ ((right, guard_code) ∷ [])
    ∷ ((left, guard_code) ∷ (right, punch_code) ∷ [])
    ∷ ((left, fire_code) ∷ [])
    ∷ []

abbrev after_normal : Option (Game × Bool) → Option (Option Side × Bool)
after_normal none = none
after_normal (some (g, over)) = some (get_winner g, over)

left_wins : after_normal (play new normal) ≡ some (some left, true)
unfolding play action process new
left_wins = refl

wrong_side : get_player_info new (negsuc 0) ≡ (0, negsuc 0, negsuc 0)
unfolding get_player_info
wrong_side = refl

abbrev idle_rounds : List Inputs
idle_rounds = [] ∷ [] ∷ [] ∷ [] ∷ [] ∷ [] ∷ [] ∷ [] ∷ [] ∷ [] ∷ []

new-play_ends_example :
    (h : Game) × (play new (((left, 0x33) ∷ []) ∷ idle_rounds) ≡ some (h, true))
    × IsFair h
    × ((is_some (get_winner h) || rounds_over h) ≡ true)
new-play_ends_example =
    new-play_ends ((left, 0x33) ∷ []) idle_rounds (omega arith) (omega arith) (omega arith)

process-IsFair_example : IsFair (process new).0
process-IsFair_example = process-IsFair new new-IsFair

ready :
    (i : Side) (p : Player)
    → p.action ≡ meditate_code
    → p.target ≡ opponent i
    → p.energy ≤ 2
    → IsReady i p
ready i p e t h = record {
  move = meditating;
  chosen = e;
  affordable = omega arith;
  energy_capped = h;
  faces = t;
}

process-round_result_example : process new ≡ (
  round_result meditating meditating new,
  is_some (get_winner (round_result meditating meditating new))
      || rounds_over (round_result meditating meditating new),
)
unfolding new get_winner ready
process-round_result_example =
    process-round_result new (ready left (new.left_player) refl refl (omega arith))
      (ready right (new.right_player) refl refl (omega arith)) (refl, refl)
