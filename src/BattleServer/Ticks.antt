-- ===== src/BattleServer/Ticks.antt =====
-- source/battle/MyBattle: GameProcess, the handler of a battle's timer, and SendRoundResult.
use drgb_server.Prelude.{
  ℕ, zero, suc, ◌-◌, ◌%◌, Bool, true, false, Option, none, some, List, [], ◌∷◌, ◌++◌, if◌then◌else◌,
  length,
}
use drgb_server.Prelude.Int.{ℤ, pos, negsuc}
use drgb_server.Map.Numbers.{nat_order}
use drgb_server.DeMap.{get_all}
use drgb_server.Game
use drgb_server.Game.{
  Game, Side, left, right, Achievement, meditate_addiction, guard_addiction, evade_addiction,
  punch_addiction, fire_addiction, kneel_in_my_sight, doppelganger, get_player_info,
  get_achievement,
}
use drgb_server.GameInfo.{GameInfo, is_all_in}
use drgb_server.Session.{
  Effect, sends, alive, message_of, game_round_result, game_player_disconnected,
  game_player_all_connected,
}
use drgb_server.BattleServer.{Battle}
use drgb_server.BattleServer.Finish.{Database, tell_achievement, seat, finish}

-- The memory of an `int` as a number of 32 bits.
unfoldable pub int_word : ℤ → ℕ
int_word (pos n) = n % 4294967296
int_word (negsuc n) = 4294967295 - n % 4294967296

abbrev pub achieve_code : Achievement → ℕ
achieve_code meditate_addiction = 2
achieve_code guard_addiction = 3
achieve_code evade_addiction = 4
achieve_code punch_addiction = 5
achieve_code fire_addiction = 6
achieve_code kneel_in_my_sight = 12
achieve_code doppelganger = 13

abbrev pub side_index : Side → ℕ
side_index left = 0
side_index right = 1

-- A player of the message on a round: the action, the health and the energy, while the game runs.
unfoldable pub result_fields : Game → ℕ → List (ℕ × ℕ)
result_fields game side = elim game.now_round [
  | negsuc _ ↦ []
  | pos _ ↦
      let (action, health, energy) = get_player_info game (pos side) in
      (1, action) ∷ (4, int_word health) ∷ (4, int_word energy) ∷ []
]

unfoldable pub round_message : Bool → ℕ → Game → ℕ → List ℕ
round_message host code game side =
    message_of host code
      ((4, int_word game.now_round) ∷ (result_fields game side ++ result_fields game (1 - side)))

-- The same call for each player whose socket exists; the message is made for a side.
unfoldable pub send_each : (ℕ → Bool) → (ℕ → List ℕ) → List (ℕ × ℕ × Option ℕ) → List Effect
send_each live message [] = []
send_each live message ((_, side, socket) ∷ players) =
    let rest = send_each live message players in
    elim (alive live socket) [ none ↦ rest | some s ↦ sends s (message side) ∷ rest ]

unfoldable pub send_round_result : Bool → (ℕ → Bool) → ℕ → GameInfo → List Effect
send_round_result host live code g =
    send_each live (round_message host code g.game) (get_all 0 g.session).0

-- What the timer waits for next.
pub data Delay : Type 0 where
  start_animation disconnect_time round_time : Delay
  -- `expires_after` is not called
  as_before : Delay

-- How the handler ends: it waits again, or not since the pool was stopped, or the battle is over.
pub data Course : Type 0 where
  waits : Delay → Course
  stopped : Course
  finished : Course

-- The call of `GameProcess`
unfoldable pub rearmed : Delay → Battle (List ℕ) → Course
rearmed delay b = if b.gamepool.is_running then waits delay else stopped

module _ (host : Bool) (self_keyword : List ℕ) (live : ℕ → Bool) (is_open : ℕ → Bool)
    (db : Database) where
  -- The loop over the achievements, on fuel.
  unfoldable pub achievements_told : ℕ → GameInfo → List Effect × GameInfo
  achievements_told zero g = ([], g)
  achievements_told (suc fuel) g = elim (get_achievement g.game) [
    | none ↦ ([], g)
    | some ((side, achieve, count), game) ↦
        let (id, socket) = seat live (side_index side) g in
        let told = tell_achievement host is_open db id (achieve_code achieve) count socket in
        let (later, g') = achievements_told fuel (record g { game = game }) in (told ++ later, g')
  ]

  -- The wait was cancelled: a player came or went.
  unfoldable pub interrupted :
      Bool → Bool → GameInfo → Battle (List ℕ) → List Effect × GameInfo × Battle (List ℕ) × Course
  interrupted prev_allin now_allin g b =
      if now_allin
      then (
        send_round_result host live game_player_all_connected g,
        g,
        b,
        rearmed start_animation b,
      )
      else if prev_allin
      then (
        send_each live (λ side. game_player_disconnected ∷ []) (get_all 0 g.session).0,
        g,
        b,
        rearmed disconnect_time b,
      )
      else ([], g, b, rearmed as_before b)

  unfoldable pub ended :
      Bool
      → List Effect
      → GameInfo
      → Battle (List ℕ)
      → Option (List Effect × GameInfo × Battle (List ℕ) × Course)
  ended now_allin calls g b = elim (finish host self_keyword live is_open db now_allin g b) [
    | none ↦ none
    | some (last, b') ↦ some (calls ++ last, g, b', finished)
  ]

  -- A round is played.
  unfoldable pub played :
      GameInfo → Battle (List ℕ) → Option (List Effect × GameInfo × Battle (List ℕ) × Course)
  played g b =
      let (game, is_game_over) = Game.process g.game in
      let g' = record g { game = game } in
      let (told, g'') = achievements_told (length game.achievements) g' in
      let calls = send_round_result host live game_round_result g' ++ told in
      if is_game_over then ended true calls g'' b else some (calls, g'', b, rearmed round_time b)

  -- The handler of the timer; `none` is a null pointer.
  unfoldable pub tick :
      Bool → GameInfo → Battle (List ℕ) → Option (List Effect × GameInfo × Battle (List ℕ) × Course)
  tick failed g b =
      let now_allin = is_all_in is_open g in
      let g' = record g { previous_all_in = now_allin } in
      if failed
      then some (interrupted g.previous_all_in now_allin g' b)
      else if now_allin
      then played g' b
      else ended false [] g' b
