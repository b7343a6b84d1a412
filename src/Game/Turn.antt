-- ===== src/Game/Turn.antt =====
-- MyGame.cpp, the body of the loop of `process`: one player's turn follows the rules.
use drgb_server.Prelude.{ℕ, ◌≤◌, ◌≡◌, sym, subst, [], ◌∷◌, ◌++◌, append-nil, append_assoc, arith}
use drgb_server.Game.{
  Game, Achievement, Side, left, right, opponent, player, turn, doppelganger, punch_addiction,
  fire_addiction, kneel_in_my_sight,
}
use drgb_server.Game.Rules.{
  Move, meditating, guarding, evading, punching, firing, code, cost, acted, struck, earned, streak,
}

-- The turn of side `i`, with the moves of both players known.
pub record Turned (i : Side) (g h : Game) (a b : Move) : Type 0 where
  pub mover : player h i ≡ acted a (player g i)
  pub other : player h (opponent i) ≡ struck a b (player g (opponent i))
  pub same_round : h.now_round ≡ g.now_round
  pub gains : h.achievements ≡ g.achievements ++ earned i a b (player g i) (player g (opponent i))

pub record Moves (i : Side) (g : Game) (a b : Move) : Type 0 where
  pub mine : (player g i).action ≡ code a
  pub theirs : (player g (opponent i)).action ≡ code b
  pub paid : cost a ≤ (player g i).energy
  pub aim : (player g i).target ≡ opponent i

-- The game with the moves of both players written out.
abbrev arranged : Side → Move → Move → Game → Game
arranged left a b g = record g {
  left_player = record g.left_player { action = code a; target = right };
  right_player = record g.right_player { action = code b };
}
arranged right a b g = record g {
  right_player = record g.right_player { action = code a; target = left };
  left_player = record g.left_player { action = code b };
}

arranged_lem : (i : Side) (a b : Move) (g : Game) → Moves i g a b → g ≡ arranged i a b g
arranged_lem left a b g m = ground arith
arranged_lem right a b g m = ground arith

append_twice :
    (g : Game) (a b : Side × Achievement × ℕ)
    → (g.achievements ++ a ∷ []) ++ b ∷ [] ≡ g.achievements ++ a ∷ b ∷ []
append_twice g a b = append_assoc g.achievements (a ∷ []) (b ∷ [])

turn-arranged :
    (i : Side) (a b : Move) (g : Game)
    → cost a ≤ (player g i).energy
    → Turned i (arranged i a b g) (turn i (arranged i a b g)) a b
unfolding turn
turn-arranged left meditating meditating g h = ground (arith, append-nil g.achievements)
turn-arranged left guarding meditating g h = ground (arith, append-nil g.achievements)
turn-arranged left evading meditating g h = ground (arith, append-nil g.achievements)
turn-arranged left punching meditating g h = ground (arith, append-nil g.achievements)
turn-arranged left punching punching g h = ground (
  arith,
  append_twice g (left, doppelganger, 1)
      (left, punch_addiction, streak (player (arranged left punching punching g) left)),
)
turn-arranged left firing meditating g h = ground (arith, append-nil g.achievements)
turn-arranged left firing punching g h =
    ground (arith, append_twice g (left, kneel_in_my_sight, 1) (left, fire_addiction, 1))
turn-arranged left firing firing g h =
    ground (arith, append_twice g (left, doppelganger, 1) (left, fire_addiction, 1))
turn-arranged right meditating meditating g h = ground (arith, append-nil g.achievements)
turn-arranged right guarding meditating g h = ground (arith, append-nil g.achievements)
turn-arranged right evading meditating g h = ground (arith, append-nil g.achievements)
turn-arranged right punching meditating g h = ground (arith, append-nil g.achievements)
turn-arranged right punching punching g h = ground (
  arith,
  append_twice g (right, doppelganger, 1)
      (right, punch_addiction, streak (player (arranged right punching punching g) right)),
)
turn-arranged right firing meditating g h = ground (arith, append-nil g.achievements)
turn-arranged right firing punching g h =
    ground (arith, append_twice g (right, kneel_in_my_sight, 1) (right, fire_addiction, 1))
turn-arranged right firing firing g h =
    ground (arith, append_twice g (right, doppelganger, 1) (right, fire_addiction, 1))
turn-arranged _ _ _ g h = ground (arith, append-nil g.achievements)

pub turn-Turned : (i : Side) (a b : Move) (g : Game) → Moves i g a b → Turned i g (turn i g) a b
turn-Turned i a b g m =
    subst (λ k. Turned i k (turn i k) a b) (sym e) (turn-arranged i a b g m.paid)
  where
    e : g ≡ arranged i a b g
    e = arranged_lem i a b g m
