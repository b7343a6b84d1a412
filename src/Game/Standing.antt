-- ===== src/Game/Standing.antt =====
-- MyGame.cpp: what holds of a game at all times, and who can be alive.
use drgb_server.Prelude.{ℕ, ◌≤◌, ◌≡◌, refl, ◌⊎◌, inl, inr, true, false, Bool-cases, arith}
use drgb_server.Prelude.Int.{pos, ◌≤ℤ◌}
use drgb_server.Game.{
  Game, Player, Side, left, right, new, process, get_winner, max_round, max_energy,
}
use drgb_server.Game.Rules.{
  Move, meditating, guarding, evading, punching, firing, beats, energy_after, resolved,
  round_result, IsReady, IsRunning,
}
use drgb_server.Game.Round.{IsRunning-cases, process-round_result}

abbrev IsUp : Player → Type 0
IsUp p = p.health ≡ pos 1

abbrev IsDown : Player → Type 0
IsDown p = p.health ≡ pos 0

pub record IsFair (g : Game) : Type 0 where
  pub left_ready : IsReady left g.left_player
  pub right_ready : IsReady right g.right_player
  pub rounds : g.now_round ≤ℤ pos max_round
  pub standing :
      (IsUp g.left_player × IsUp g.right_player)
      ⊎ (IsUp g.left_player × IsDown g.right_player)
      ⊎ (IsDown g.left_player × IsUp g.right_player)

-- No two moves hurt each other.
beats_once : (a b : Move) → beats a b ≡ true → beats b a ≡ false
beats_once meditating meditating h = cc
beats_once guarding meditating h = cc
beats_once evading meditating h = cc
beats_once punching meditating h = refl
beats_once firing meditating h = refl
beats_once _ _ h = ground arith

energy_after_capped : (m : Move) (e : ℕ) → e ≤ max_energy → energy_after m e ≤ max_energy
energy_after_capped meditating e h = ground arith
energy_after_capped _ e h = omega arith

resolved-IsReady :
    (i : Side) (a b : Move) (p : Player) (h : IsReady i p) → IsReady i (resolved a b p)
resolved-IsReady i a b p h = record {
  move = meditating;
  chosen = refl;
  affordable = omega arith;
  energy_capped = ground (arith, energy_after_capped a p.energy h.energy_capped);
  faces = ground arith;
}

running-IsUp : (g : Game) → IsFair g → IsRunning g → IsUp g.left_player × IsUp g.right_player
unfolding get_winner
running-IsUp g f r = ground arith

pub new-IsFair : IsFair new
unfolding new
new-IsFair = record {
  left_ready = record {
    move = meditating;
    chosen = refl;
    affordable = omega arith;
    energy_capped = omega arith;
    faces = refl;
  };
  right_ready = record {
    move = meditating;
    chosen = refl;
    affordable = omega arith;
    energy_capped = omega arith;
    faces = refl;
  };
  rounds = omega arith;
  standing = inl (refl, refl);
}

resolved_hit :
    (mine theirs : Move) (p : Player)
    → beats theirs mine ≡ true
    → IsUp p
    → IsDown (resolved mine theirs p)
resolved_hit mine theirs p h up = rw h (rw up)

resolved_miss :
    (mine theirs : Move) (p : Player)
    → beats theirs mine ≡ false
    → IsUp p
    → IsUp (resolved mine theirs p)
resolved_miss mine theirs p h up = rw h up

abbrev Standing : Player → Player → Type 0
Standing p q = (IsUp p × IsUp q) ⊎ (IsUp p × IsDown q) ⊎ (IsDown p × IsUp q)

Standing-after :
    (a b : Move) (p q : Player) → IsUp p → IsUp q → Standing (resolved a b p) (resolved b a q)
Standing-after a b p q up up' = elim (Bool-cases (beats a b)) [
  | inl e ↦ inr (inl (resolved_miss a b p (beats_once a b e) up, resolved_hit b a q e up'))
  | inr e ↦ elim (Bool-cases (beats b a)) [
    | inl e' ↦ inr (inr (resolved_hit a b p e' up, resolved_miss b a q e up'))
    | inr e' ↦ inl (resolved_miss a b p e' up, resolved_miss b a q e up')
  ]
]

round_result-IsFair :
    (g : Game) (f : IsFair g)
    → IsRunning g
    → IsFair (round_result f.left_ready.move f.right_ready.move g)
round_result-IsFair g f r =
    let a = f.left_ready.move in
    let b = f.right_ready.move in
    record {
      left_ready = resolved-IsReady left a b g.left_player f.left_ready;
      right_ready = resolved-IsReady right b a g.right_player f.right_ready;
      rounds = ground arith;
      standing =
          let up = running-IsUp g f r in Standing-after a b g.left_player g.right_player up.0 up.1;
    }

-- `process` keeps a game fair, whether it plays a round or not: each player has chosen a move that
-- the player's energy pays for, the energy is at most 2, the rounds are at most 10, and at most
-- one of the two is down.
pub process-IsFair : (g : Game) → IsFair g → IsFair (process g).0
process-IsFair g f = elim (IsRunning-cases g) [
  | inl r ↦ rw (process-round_result g f.left_ready f.right_ready r) (round_result-IsFair g f r)
  | inr e ↦ rw e.0 f
]
