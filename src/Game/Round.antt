-- ===== src/Game/Round.antt =====
-- MyGame.cpp, `process`: a round resolves both moves at once, in spite of the loop's order.
use drgb_server.Prelude.{
  ◌≡◌, refl, ap, ◌∙◌, true, ap₂, ◌||◌, inl, inr, ◌++◌, Bool-cases, Option-cases, ◌⊎◌, arith,
}
use drgb_server.Prelude.Int.{inc}
use drgb_server.Game.{
  Game, Player, Side, left, right, turn, reset_input, process, rounds_over, get_winner, is_some,
}
use drgb_server.Game.Rules.{
  Move, meditating, guarding, evading, punching, firing, acted, struck, earned, beats, round_result,
  IsReady, IsRunning,
}
use drgb_server.Game.Turn.{Turned, Moves, turn-Turned}

acted-struck : (a b : Move) (q : Player) → acted b (struck a b q) ≡ struck a b (acted b q)
acted-struck a b q = elim (Bool-cases (beats a b)) [ inl e ↦ rw e | inr e ↦ rw e ]

earned-struck :
    (i : Side) (b a : Move) (q p : Player)
    → earned i b a (struck a b q) (acted a p) ≡ earned i b a q p
earned-struck i meditating meditating q p = refl
earned-struck i guarding meditating q p = refl
earned-struck i evading meditating q p = refl
earned-struck i punching meditating q p = refl
earned-struck i firing meditating q p = refl
earned-struck _ _ _ q p = refl

struck_keeps :
    (a b : Move) (q : Player)
    → ((struck a b q).action ≡ q.action)
      × ((struck a b q).energy ≡ q.energy)
      × ((struck a b q).target ≡ q.target)
struck_keeps a b q = ground arith

mover-Moves :
    (g : Game) (l : IsReady left g.left_player) (r : IsReady right g.right_player)
    → Moves left g l.move r.move
mover-Moves g l r = record {
  mine = l.chosen;
  theirs = r.chosen;
  paid = l.affordable;
  aim = l.faces;
}

second-Moves :
    (g h : Game) (l : IsReady left g.left_player) (r : IsReady right g.right_player)
    → Turned left g h l.move r.move
    → Moves right h r.move l.move
second-Moves g h l r t =
    let k = struck_keeps l.move r.move g.right_player in
    record {
      mine = ap (λ (p : Player). p.action) t.other ∙ k.0 ∙ r.chosen;
      theirs = ap (λ (p : Player). p.action) t.mover ∙ l.chosen;
      paid = omega (arith, ap (λ (p : Player). p.energy) t.other, k.1, r.affordable);
      aim = ap (λ (p : Player). p.target) t.other ∙ k.2 ∙ r.faces;
    }

-- The two turns and the reset of the input.
both_turns :
    (g h k : Game) (a b : Move)
    → Turned left g h a b
    → Turned right h k b a
    → reset_input k ≡ record (round_result a b g) { now_round = g.now_round }
unfolding reset_input
both_turns g h k a b t u = λ i. record {
  now_round = (u.same_round ∙ t.same_round) i;
  left_player = record (mine i) { action = 1 };
  right_player = record (theirs i) { action = 1 };
  achievements = gained i;
}
  where
    mine : k.left_player ≡ struck b a (acted a g.left_player)
    mine = u.other ∙ ap (struck b a) t.mover

    theirs : k.right_player ≡ struck a b (acted b g.right_player)
    theirs = u.mover ∙ ap (acted b) t.other ∙ acted-struck a b g.right_player

    gained :
        k.achievements
        ≡ (g.achievements ++ earned left a b g.left_player g.right_player)
          ++ earned right b a g.right_player g.left_player
    gained =
        u.gains
        ∙ ap₂ (λ x y. x ++ y) t.gains
            (ap₂ (earned right b a) t.other t.mover
              ∙ earned-struck right b a g.right_player g.left_player)

-- On a running game `process` plays the round that the rules describe for the moves that the
-- players have chosen: neither player's turn changes what the other's turn does. It reports
-- whether that round has left a winner or was the last.
pub process-round_result :
    (g : Game) (l : IsReady left g.left_player) (r : IsReady right g.right_player)
    → IsRunning g
    → let next = round_result l.move r.move g in
      process g ≡ (next, is_some (get_winner next) || rounds_over next)
unfolding process
process-round_result g l r h =
    let g' = record g { now_round = inc g.now_round } in
    let t = turn-Turned left l.move r.move g' (mover-Moves g' l r) in
    let u = turn-Turned right r.move l.move (turn left g') (second-Moves g' (turn left g') l r t) in
    rw (h.0, h.1)
      (ap (λ n. (n, is_some (get_winner n) || rounds_over n))
        (both_turns g' (turn left g') (turn right (turn left g')) l.move r.move t u))

-- `process` plays a round, or leaves a game that is over as it is and says so.
pub IsRunning-cases :
    (g : Game)
    → IsRunning g ⊎ ((process g ≡ (g, true)) × ((is_some (get_winner g) || rounds_over g) ≡ true))
unfolding process
IsRunning-cases g = elim (Bool-cases (rounds_over g)) [
  | inl e ↦ inr (rw e, ground arith)
  | inr e ↦ elim (Option-cases (get_winner g)) [
    | inl e' ↦ inl (e, e')
    | inr (i, e') ↦ inr (rw (e, e'), rw e')
  ]
]
