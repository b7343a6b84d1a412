-- ===== src/BattleServer.antt =====
-- source/battle/MyBattle: the transfer of a match to the battle server.
-- `sessions` maps an account id and a cookie to a battle, by its index in `games`, where the code has
-- a shared pointer. Redis, Postgres and the match server are seen through arguments and answers.
use drgb_server.Prelude.{
  ℕ, suc, Bool, true, false, ◌||◌, Option, none, some, List, [], ◌∷◌, ◌++◌, ◌==◌, if◌then◌else◌,
  length,
}
use drgb_server.Map.{Order}
use drgb_server.Map.Numbers.{nat_order}
use drgb_server.DeMap
use drgb_server.DeMap.{DeMap, find_lkey}
use drgb_server.TimerPool
use drgb_server.TimerPool.{TimerPool, get_timer, release_timer}
use drgb_server.Game
use drgb_server.GameInfo.{GameInfo}
pub mod Transfer
pub mod Finish
pub mod Ticks
pub mod Release
pub mod Course
pub mod Client
pub mod Seating

pub record Battle {ℓ} (C : Type ℓ) : Type ℓ where
  pub sessions : DeMap ℕ C ℕ
  pub games : List GameInfo
  pub gamepool : TimerPool
  -- the calls of `SetUsage`
  pub usages : List ℕ

-- A new battle, with a seat without a socket for each player.
unfoldable pub new_info : ℕ → ℕ → ℕ → List (List ℕ) → GameInfo
new_info timer lpid rpid infos = record {
  game = Game.new;
  timer = timer;
  cancels = 0;
  session = (DeMap.insert rpid 1 none (DeMap.insert lpid 0 none DeMap.new).1).1;
  player_infos = infos;
  previous_all_in = false;
}

module _ {ℓ} {C : Type ℓ} ⦃o : Order C⦄ where
  -- The two calls of `SetUsage` of each branch.
  unfoldable pub answered : ℕ → Battle C → Battle C
  answered usage b = record b { usages = b.usages ++ (usage ∷ DeMap.size b.sessions ∷ []) }

  -- Both sessions and the battle; the results of `Insert` are not looked at.
  unfoldable pub opened : ℕ → ℕ → ℕ → C → C → List (List ℕ) → Battle C → Battle C
  opened timer lpid rpid lcookie rcookie infos b =
      let game = length b.games in
      record b {
        sessions = (DeMap.insert rpid rcookie game (DeMap.insert lpid lcookie game b.sessions).1).1;
        games = b.games ++ (new_info timer lpid rpid infos ∷ []);
      }

  -- `MatchTransfer`; the arguments after the two ids are the cookies that Redis has for them, and the
  -- information on the players, which is missing if the database failed.
  unfoldable pub match_transfer :
      ℕ → ℕ → Option C → Option C → Option (List (List ℕ)) → Battle C → Battle C
  match_transfer lpid rpid lpresult rpresult infos b =
      let (timer, gamepool) = get_timer b.gamepool in
      let b' = record b { gamepool = gamepool } in
      if (lpid == 0) || (rpid == 0) then answered 0 b else elim timer [
        | none ↦ answered 1 b'
        | some t ↦ elim lpresult [
          | none ↦ answered 1 b'
          | some lcookie ↦ elim rpresult [
            | none ↦ answered 1 b'
            | some rcookie ↦ elim infos [
              | none ↦ answered 0 (record b' { gamepool = release_timer t gamepool })
              | some players ↦ answered 1 (opened t lpid rpid lcookie rcookie players b')
            ]
          ]
        ]
      ]

  unfoldable pub check_account : ℕ → ℕ → Battle C → Bool
  check_account default id b = elim (find_lkey default id b.sessions).0 [
    | none ↦ false
    | some _ ↦ true
  ]

unfoldable pub get_usage {ℓ} : {C : Type ℓ} → Battle C → ℕ
get_usage b = TimerPool.size b.gamepool
