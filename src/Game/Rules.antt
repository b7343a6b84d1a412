-- ===== src/Game/Rules.antt =====
-- The rules that source/battle/MyGame.cpp implements, without bit masks: five moves, what each
-- costs, and which beats which.
use drgb_server.Prelude.{
  ℕ, ◌+◌, ◌-◌, ◌≤◌, ◌≡◌, Bool, true, false, none, List, [], ◌∷◌, ◌++◌, ◌==◌, ltb, if◌then◌else◌,
}
use drgb_server.Prelude.Int.{dec, is_positive, inc}
use drgb_server.Game.{
  Side, Player, Game, Achievement, opponent, left, right, meditate_code, guard_code, evade_code,
  punch_code, fire_code, meditate_addiction, guard_addiction, evade_addiction, punch_addiction,
  fire_addiction, kneel_in_my_sight, doppelganger, max_energy, rounds_over, get_winner,
}

pub data Move : Type 0 where
  meditating guarding evading punching firing : Move

abbrev pub code : Move → ℕ
code meditating = meditate_code
code guarding = guard_code
code evading = evade_code
code punching = punch_code
code firing = fire_code

abbrev pub cost : Move → ℕ
cost meditating = 0
cost guarding = 0
cost evading = 1
cost punching = 1
cost firing = 2

-- Does the first move hurt a player who makes the second?
abbrev pub beats : Move → Move → Bool
beats punching meditating = true
beats firing meditating = true
beats firing guarding = true
beats firing punching = true
beats _ _ = false

abbrev pub energy_after : Move → ℕ → ℕ
energy_after meditating e = if ltb max_energy (e + 1) then max_energy else e + 1
energy_after guarding e = e
energy_after evading e = e - 1
energy_after punching e = e - 1
energy_after firing e = e - 2

-- How often the player has now made the same move.
abbrev pub streak : Player → ℕ
streak p = if p.prev_action == p.action then p.consecutive + 1 else 1

-- A player who made the move `a`.
abbrev pub acted : Move → Player → Player
acted a p = record p {
  prev_action = p.action;
  consecutive = streak p;
  energy = energy_after a p.energy;
}

-- A player with the move `b` against whom the move `a` was made.
abbrev pub struck : Move → Move → Player → Player
struck a b q = if beats a b then record q { health = dec q.health } else q

abbrev is_punching : Move → Bool
is_punching punching = true
is_punching _ = false

-- What player `p` at side `i` earns by the move `a` against `b` of player `q`, in order.
abbrev pub earned : Side → Move → Move → Player → Player → List (Side × Achievement × ℕ)
earned i meditating b p q =
    if ltb max_energy (p.energy + 1) then (i, meditate_addiction, 1) ∷ [] else []
earned i guarding b p q = (i, guard_addiction, streak p) ∷ []
earned i evading b p q = (i, evade_addiction, streak p) ∷ []
earned i punching punching p q = (i, doppelganger, 1) ∷ (i, punch_addiction, streak p) ∷ []
earned i punching b p q = (i, punch_addiction, streak p) ∷ []
earned i firing punching p q =
    if is_positive (dec q.health)
    then (i, fire_addiction, 1) ∷ []
    else (i, kneel_in_my_sight, 1) ∷ (i, fire_addiction, 1) ∷ []
earned i firing firing p q = (i, doppelganger, 1) ∷ (i, fire_addiction, 1) ∷ []
earned i firing b p q = (i, fire_addiction, 1) ∷ []

-- What holds of a player between two calls.
pub record IsReady (i : Side) (p : Player) : Type 0 where
  pub move : Move
  pub chosen : p.action ≡ code move
  pub affordable : cost move ≤ p.energy
  pub energy_capped : p.energy ≤ max_energy
  pub faces : p.target ≡ opponent i

-- A player after a round, ready for the next input.
abbrev pub resolved : Move → Move → Player → Player
resolved mine theirs p = record (struck theirs mine (acted mine p)) { action = meditate_code }

-- A game in which the rounds are not used up and nobody has won.
abbrev pub IsRunning : Game → Type 0
IsRunning g = (rounds_over g ≡ false) × (get_winner g ≡ none)

-- One round by the rules: both moves count at once.
abbrev pub round_result : Move → Move → Game → Game
round_result a b g = record {
  now_round = inc g.now_round;
  left_player = resolved a b g.left_player;
  right_player = resolved b a g.right_player;
  achievements =
      (g.achievements ++ earned left a b g.left_player g.right_player)
      ++ earned right b a g.right_player g.left_player;
}
