-- ===== src/BattleServer/Finish.antt =====
-- source/battle/MyBattle: the end of a battle in GameProcess, and the achievements.
-- `live` says which sockets still exist, `is_open` which of them are open. The database is seen
-- through its replies, `none` for a call that threw; the archive takes a battle or fails.
use drgb_server.Prelude.{
  ℕ, Bool, true, false, not, ◌&&◌, ◌||◌, Option, none, some, List, [], ◌∷◌, ◌++◌, leb, ◌==◌,
  if◌then◌else◌,
}
use drgb_server.Map.Numbers.{nat_order}
use drgb_server.Map.Bytes.{bytes_order}
use drgb_server.DeMap.{find_rkey, erase_lkey}
use drgb_server.TimerPool.{release_timer}
use drgb_server.Game.{Side, left, right, get_winner}
use drgb_server.GameInfo.{GameInfo}
use drgb_server.Session.{
  Effect, sends, closes, sets_info, clears_info, throws, alive, message_of, err_db_failed,
  game_finished_win, game_finished_draw, game_finished_loose, game_crashed, game_player_achieve,
  keyword_match,
}
use drgb_server.BattleServer.{Battle}

pub record Database : Type 0 where
  -- `AchieveProgress` of an account, an achievement and a count, and `Achieve`
  pub progressed : ℕ → ℕ → ℕ → Option Bool
  pub achieved : ℕ → ℕ → Option Bool
  -- `ArchiveBattle` and the commit
  pub archived : ℕ → ℕ → Bool → Bool → Bool

-- The achievements that count up to a maximum, and those that count each time.
abbrev is_counted : ℕ → Bool
is_counted code = leb 2 code && leb code 5

abbrev is_ticked : ℕ → Bool
is_ticked code = (code == 1) || (leb 6 code && leb code 14)

-- Has the account achieved it just now?
unfoldable pub is_achieved : Database → ℕ → ℕ → ℕ → Bool
is_achieved db id code count = is_true (
    if is_counted code
    then db.progressed id code count
    else if is_ticked code
    then db.achieved id code
    else none)
  where
    is_true : Option Bool → Bool
    is_true none = false
    is_true (some b) = b

-- `MyBattle::AchieveProgress`
unfoldable pub tell_achievement : Bool → (ℕ → Bool) → Database → ℕ → ℕ → ℕ → Option ℕ → List Effect
tell_achievement host is_open db id code count socket = elim (alive is_open socket) [
  | none ↦ []
  | some s ↦
      if is_achieved db id code count
      then sends s (message_of host game_player_achieve ((8, code) ∷ [])) ∷ []
      else []
]

-- `FindRKey` of a side: the account and its socket.
unfoldable pub seat : (ℕ → Bool) → ℕ → GameInfo → ℕ × Option ℕ
seat live side g = elim (find_rkey none side g.session).0 [
  | none ↦ (0, none)
  | some (id, socket) ↦ (id, alive live socket)
]

-- Both players are told that the archive failed, without a look at the pointers: `none` is a null
-- pointer.
unfoldable pub archive_failed : Option ℕ → Option ℕ → Option (List Effect)
archive_failed none rsocket = none
archive_failed (some l) none = none
archive_failed (some l) (some r) =
    some (sends l (err_db_failed ∷ []) ∷ sends r (err_db_failed ∷ []) ∷ [])

unfoldable pub archive : Database → ℕ → ℕ → Option Side → Bool → Bool
archive db lid rid none crashed = db.archived lid rid true crashed
archive db lid rid (some left) crashed = db.archived lid rid false crashed
archive db lid rid (some right) crashed = db.archived rid lid false crashed

unfoldable pub result_code : Bool → Option Side → Side → ℕ
result_code crashed none side = if crashed then game_crashed else game_finished_draw
result_code crashed (some left) left = game_finished_win
result_code crashed (some left) right = game_finished_loose
result_code crashed (some right) left = game_finished_loose
result_code crashed (some right) right = game_finished_win

-- The calls for one player whose session was erased.
unfoldable pub farewell : (ℕ → Bool) → List ℕ → ℕ → ℕ → List ℕ → Option ℕ → List Effect
farewell is_open self_keyword code id cookie socket = elim (alive is_open socket) [
  | none ↦ clears_info id cookie self_keyword ∷ []
  | some s ↦ sets_info id cookie keyword_match ∷ sends s (code ∷ []) ∷ closes s ∷ []
]

-- One round of the loop that erases the sessions.
unfoldable pub dismiss :
    (ℕ → Bool) → List ℕ → ℕ → ℕ → Option ℕ → Battle (List ℕ) → List Effect × Battle (List ℕ)
dismiss is_open self_keyword code id socket b =
    let (gone, sessions) = erase_lkey 0 id b.sessions in
    elim gone [
      | none ↦ ([], record b { sessions = sessions })
      | some (_, cookie, _) ↦
          (farewell is_open self_keyword code id cookie socket, record b { sessions = sessions })
    ]

-- The end of the handler, which is reached with an exception or without.
unfoldable pub cleaned_up : ℕ → ℕ → ℕ → Battle (List ℕ) → Battle (List ℕ)
cleaned_up timer lid rid b = record b {
  gamepool = release_timer timer b.gamepool;
  sessions = (erase_lkey 0 rid (erase_lkey 0 lid b.sessions).1).1;
}

module _ (host : Bool) (self_keyword : List ℕ) (live : ℕ → Bool) (is_open : ℕ → Bool)
    (db : Database) where
  -- The achievement of a draw.
  unfoldable pub draw_told : Bool → Option Side → ℕ × Option ℕ → ℕ × Option ℕ → List Effect
  draw_told crashed (some _) l r = []
  draw_told crashed none (lid, lsocket) (rid, rsocket) =
      if crashed
      then []
      else tell_achievement host is_open db lid 14 1 lsocket
        ++ tell_achievement host is_open db rid 14 1 rsocket

  -- The five achievements of the winner.
  unfoldable pub wins : ℕ × Option ℕ → List Effect
  wins (id, socket) =
      tell_achievement host is_open db id 7 1 socket
      ++ (tell_achievement host is_open db id 8 1 socket
          ++ (tell_achievement host is_open db id 9 1 socket
              ++ (tell_achievement host is_open db id 10 1 socket
                  ++ tell_achievement host is_open db id 11 1 socket)))

  unfoldable pub win_told : Option Side → ℕ × Option ℕ → ℕ × Option ℕ → List Effect
  win_told none l r = []
  win_told (some left) l r = wins l
  win_told (some right) l r = wins r

  -- Both players' sessions and results.
  unfoldable pub results :
      Bool
      → Option Side
      → ℕ × Option ℕ
      → ℕ × Option ℕ
      → Battle (List ℕ)
      → List Effect × Battle (List ℕ)
  results crashed winner (lid, lsocket) (rid, rsocket) b =
      let (lcalls, b') =
        dismiss is_open self_keyword (result_code crashed winner left) lid lsocket b in
      let (rcalls, b'') =
        dismiss is_open self_keyword (result_code crashed winner right) rid rsocket b' in
      (win_told winner (lid, lsocket) (rid, rsocket) ++ (lcalls ++ rcalls), b'')

  unfoldable pub finish_with :
      Bool
      → Option Side
      → ℕ × Option ℕ
      → ℕ × Option ℕ
      → ℕ
      → Battle (List ℕ)
      → Option (List Effect × Battle (List ℕ))
  finish_with crashed winner l r timer b =
      let (calls, b') = results crashed winner l r b in
      let drawn = draw_told crashed winner l r in
      if archive db l.0 r.0 winner crashed
      then some (drawn ++ calls, cleaned_up timer l.0 r.0 b')
      else elim (archive_failed l.1 r.1) [
        | none ↦ none
        | some told ↦ some (drawn ++ (told ++ (throws ∷ [])), cleaned_up timer l.0 r.0 b)
      ]

  -- The end of a battle; `none` is a null pointer.
  unfoldable pub finish : Bool → GameInfo → Battle (List ℕ) → Option (List Effect × Battle (List ℕ))
  finish now_allin g b =
      finish_with (not now_allin) (get_winner g.game) (seat live 0 g) (seat live 1 g) g.timer b
