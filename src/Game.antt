-- ===== src/Game.antt =====
-- source/battle/MyGame.hpp and .cpp: the rules of one battle.
-- The two array places of `players` are the sides `left` (0) and `right` (1). Actions are `int`s,
-- held as their 32-bit patterns (-1 is 0xffffffff); `health` and `now_round` are integers, `energy`
-- and `consecutive` never fall below 0. The counters are bounded by the rounds and do not wrap.
use Prim.Native.Nat.{bit_and}
use drgb_server.Prelude.{
  ℕ, zero, suc, ◌+◌, ◌-◌, ◌/◌, ◌%◌, Bool, true, false, ◌||◌, Option, none, some, List, [], ◌∷◌,
  ◌++◌, ◌==◌, ltb, if◌then◌else◌,
}
pub mod Rules
pub mod Turn
pub mod Round
pub mod Standing
pub mod Ending
pub mod Input
use drgb_server.Prelude.Int.{ℤ, pos, negsuc, inc, dec, ltb_ℤ, is_positive}

pub data Side : Type 0 where
  left right : Side

abbrev pub opponent : Side → Side
opponent left = right
opponent right = left

abbrev pub max_health : ℕ
max_health = 1

abbrev pub max_energy : ℕ
max_energy = 2

abbrev pub max_round : ℕ
max_round = 10

abbrev pub meditate_code : ℕ
meditate_code = 1

abbrev pub guard_code : ℕ
guard_code = 2

abbrev pub evade_code : ℕ
evade_code = 4

abbrev pub punch_code : ℕ
punch_code = 8

abbrev pub fire_code : ℕ
fire_code = 16

-- `ACHIEVE_…` of source/utils/MyCodes.hpp, as far as the game counts them.
pub data Achievement : Type 0 where
  meditate_addiction guard_addiction evade_addiction punch_addiction fire_addiction : Achievement
  kneel_in_my_sight doppelganger : Achievement

pub record Player : Type 0 where
  pub action : ℕ
  pub health : ℤ
  pub energy : ℕ
  pub target : Side
  pub prev_action : ℕ
  pub consecutive : ℕ

pub record Game : Type 0 where
  pub now_round : ℤ
  pub left_player : Player
  pub right_player : Player
  pub achievements : List (Side × Achievement × ℕ)

-- `players[i]`
abbrev pub player : Game → Side → Player
player g left = g.left_player
player g right = g.right_player

abbrev pub set_player : Game → Side → Player → Game
set_player g left p = record g { left_player = p }
set_player g right p = record g { right_player = p }

-- `required_energy`
unfoldable pub required_energy : List (ℕ × ℕ)
required_energy =
    (meditate_code, 0) ∷ (guard_code, 0) ∷ (evade_code, 1) ∷ (punch_code, 1) ∷ (fire_code, 2) ∷ []

unfoldable pub find : List (ℕ × ℕ) → ℕ → Option ℕ
find [] k = none
find ((j, v) ∷ m) k = if j == k then some v else find m k

abbrev new_player : Side → Player
new_player i = record {
  action = meditate_code;
  health = pos max_health;
  energy = 0;
  target = opponent i;
  prev_action = 0xffff_ffff;
  consecutive = 0;
}

unfoldable pub new : Game
new = record {
  now_round = negsuc 0;
  left_player = new_player left;
  right_player = new_player right;
  achievements = [];
}

-- `__builtin_popcount`: the bits of a number below 2 ^ `width`.
unfoldable pub popcount : ℕ → ℕ → ℕ
popcount zero x = 0
popcount (suc width) x = x % 2 + popcount width (x / 2)

-- `~0x1F` is 0xffffffe0.
unfoldable pub check_action : ℕ → Bool
unfolding popcount
check_action action = if bit_and action 0xffff_ffe0 == 0 then popcount 32 action == 1 else false

-- `at` throws for a key that is missing: `none`.
unfoldable pub action : Game → Side → ℕ → Option Game
unfolding check_action find required_energy
action g side act =
    if check_action act
    then elim (find required_energy act) [
      | none ↦ none
      | some cost ↦ some (
          if ltb (player g side).energy cost
          then g
          else set_player g side (record (player g side) { action = act }))
    ]
    else some g

-- -1 is `none`
unfoldable pub get_winner : Game → Option Side
get_winner g =
    if is_positive g.left_player.health
    then if is_positive g.right_player.health then none else some left
    else if is_positive g.right_player.health
    then some right
    else none

unfoldable pub achieve_progress : Side → Achievement → ℕ → Game → Game
achieve_progress side achieve count g = record g {
  achievements = g.achievements ++ (side, achieve, count) ∷ [];
}

-- `players[target].health -= 1`
unfoldable pub hit : Side → Game → Game
hit target g =
    set_player g target (record (player g target) { health = dec (player g target).health })

abbrev pub set_energy : Side → ℕ → Game → Game
set_energy i e g = set_player g i (record (player g i) { energy = e })

-- `case MEDITATE`
unfoldable pub meditate : Side → Game → Game
unfolding achieve_progress
meditate i g =
    let energy = (player g i).energy + 1 in
    if ltb max_energy energy
    then set_energy i max_energy (achieve_progress i meditate_addiction 1 g)
    else set_energy i energy g

unfoldable pub same_action : Side → Side → Game → Game
unfolding achieve_progress
same_action i target g =
    if (player g target).action == (player g i).action
    then achieve_progress i doppelganger 1 g
    else g

-- `case PUNCH`
unfoldable pub punch : Side → Game → Game
unfolding hit same_action achieve_progress
punch i g =
    let target = (player g i).target in
    let struck = if bit_and (player g target).action 0x01 == 0 then g else hit target g in
    let met = same_action i target struck in
    achieve_progress i punch_addiction (player met i).consecutive met

unfoldable pub kneel : Side → Side → Game → Game
unfolding achieve_progress
kneel i target g =
    if is_positive (player g target).health
    then g
    else if (player g target).action == punch_code
    then achieve_progress i kneel_in_my_sight 1 g
    else g

-- `case FIRE`
unfoldable pub fire : Side → Game → Game
unfolding hit kneel same_action achieve_progress
fire i g =
    let target = (player g i).target in
    let struck =
      if bit_and (player g target).action 0x0b == 0 then g else kneel i target (hit target g) in
    achieve_progress i fire_addiction 1 (same_action i target struck)

-- `case GUARD` and `case EVADE`
unfoldable pub defend : Side → Game → Game
unfolding achieve_progress
defend i g =
    let p = player g i in
    achieve_progress i (if p.action == guard_code then guard_addiction else evade_addiction)
      p.consecutive g

-- The `switch`; `none` is its `default`.
unfoldable pub perform : Side → Game → Option Game
unfolding meditate punch fire defend
perform i g =
    let act = (player g i).action in
    if act == meditate_code
    then some (meditate i g)
    else if act == punch_code
    then some (punch i g)
    else if act == fire_code
    then some (fire i g)
    else if act == guard_code || act == evade_code
    then some (defend i g)
    else none

-- `prev_action` and `consecutive`
unfoldable pub remember : Side → Game → Game
remember i g =
    let p = player g i in
    set_player g i (record p {
      prev_action = p.action;
      consecutive = if p.prev_action == p.action then p.consecutive + 1 else 1;
    })

-- The body of the loop of `process`, for player `i`.
unfoldable pub turn : Side → Game → Game
unfolding remember find required_energy perform
turn i g =
    let noted = remember i g in
    elim (find required_energy (player g i).action) [
      | none ↦ noted
      | some use_energy ↦
          if ltb (player g i).energy use_energy then noted else elim (perform i noted) [
            | none ↦ noted
            | some acted ↦ set_energy i ((player acted i).energy - use_energy) acted
          ]
    ]

-- "Initialize Input"
unfoldable pub reset_input : Game → Game
reset_input g = record g {
  left_player = record g.left_player { action = meditate_code };
  right_player = record g.right_player { action = meditate_code };
}

abbrev pub is_some {ℓ} : {A : Type ℓ} → Option A → Bool
is_some none = false
is_some (some a) = true

abbrev pub rounds_over : Game → Bool
rounds_over g = if ltb_ℤ g.now_round (pos max_round) then false else true

unfoldable pub process : Game → Game × Bool
unfolding get_winner turn reset_input
process g =
    if rounds_over g
    then (g, true)
    else if is_some (get_winner g)
    then (g, true)
    else let played = turn right (turn left (record g { now_round = inc g.now_round })) in
      let next = reset_input played in (next, is_some (get_winner next) || rounds_over next)

-- `{prev_action, health, energy}`, the first cut to a byte; {0, -1, -1} for a wrong side.
unfoldable pub get_player_info : Game → ℤ → ℕ × ℤ × ℤ
get_player_info g (pos zero) =
    let p = g.left_player in (p.prev_action % 256, p.health, pos p.energy)
get_player_info g (pos (suc zero)) =
    let p = g.right_player in (p.prev_action % 256, p.health, pos p.energy)
get_player_info g _ = (0, negsuc 0, negsuc 0)

unfoldable pub get_achievement : Game → Option ((Side × Achievement × ℕ) × Game)
get_achievement g = elim g.achievements [
  | [] ↦ none
  | a ∷ rest ↦ some (a, record g { achievements = rest })
]
