-- ===== src/BattleServer/Client.antt =====
-- source/battle/MyBattle: AuthenticateProcess and ClientProcess.
-- `live` says which sockets still exist. A session leads to a battle by its index in `games`.
use mathlib.Core.List.{reverse}
use drgb_server.Prelude.{
  ℕ, ◌+◌, ◌-◌, ◌*◌, Bool, true, false, Option, none, some, List, [], ◌∷◌, ◌++◌, ◌==◌, if◌then◌else◌,
  ok, err, get_elem?, get_or, set_at,
}
use drgb_server.ConfigParser.{same_text}
use drgb_server.Map.Numbers.{nat_order}
use drgb_server.Map.Bytes.{bytes_order}
use drgb_server.ByteQueue.{ByteQueue, of_vector}
use drgb_server.DeMap.{find_lkey, find_rkey, erase_lkey}
use drgb_server.Game.{Side, action}
use drgb_server.GameInfo
use drgb_server.GameInfo.{GameInfo}
use drgb_server.Session.{
  Effect, sends, closes, cancels, fills, receives, arms, sets_info, throws, alive, rejected,
  message_of, take_field, header_of, err_protocol_violation, err_no_match_account,
  err_duplicated_access, ans_heartbeat, req_game_action, game_player_info_name, keyword_match,
}
use drgb_server.BattleServer.{Battle}

-- The names of both players, the client's own first.
unfoldable pub welcome : Bool → ℕ → ℕ → GameInfo → List Effect
welcome host client side g =
    sends client (
      message_of host game_player_info_name []
      ++ (get_or g.player_infos side [] ++ get_or g.player_infos (1 - side) []))
    ∷ fills client
    ∷ receives client
    ∷ arms client
    ∷ []

-- The error, with the session given back to the match server.
abbrev pub turned_back : ℕ → ℕ → List ℕ → List Effect
turned_back client id cookie =
    sends client (err_no_match_account ∷ [])
    ∷ sets_info id cookie keyword_match
    ∷ closes client
    ∷ []

-- The player's side; 0 is the default of a lookup that failed.
unfoldable pub side_of : Option (ℕ × Option ℕ) → ℕ
side_of none = 0
side_of (some (side, _)) = side

-- What follows the result of `Enter`.
unfoldable pub entered :
    Bool
    → (ℕ → Bool)
    → ℕ
    → ℕ
    → List ℕ
    → ℕ
    → Option (Option ℕ)
    → GameInfo
    → Battle (List ℕ)
    → List Effect × Battle (List ℕ)
entered host live client id cookie side none g b =
    (turned_back client id cookie, record b { sessions = (erase_lkey 0 id b.sessions).1 })
entered host live client id cookie side (some origin) g b = elim (alive live origin) [
  | none ↦ (welcome host client side g, b)
  | some old ↦ (rejected old err_duplicated_access ++ welcome host client side g, b)
]

-- The battle of the session, which is one of `games`.
unfoldable pub seated :
    Bool
    → (ℕ → Bool)
    → ℕ
    → ℕ
    → List ℕ
    → ℕ
    → Option GameInfo
    → Battle (List ℕ)
    → List Effect × Battle (List ℕ)
seated host live client id cookie index none b = ([], b)
seated host live client id cookie index (some g) b =
    let side = side_of (find_lkey none id g.session).0 in
    let (origin, g') = GameInfo.enter id client g in
    entered host live client id cookie side origin g' (record b { games = set_at b.games index g' })

-- The session of the cookie, if the server has it.
unfoldable pub found_session :
    Bool
    → (ℕ → Bool)
    → ℕ
    → ℕ
    → List ℕ
    → Option (ℕ × ℕ)
    → Battle (List ℕ)
    → List Effect × Battle (List ℕ)
found_session host live client id cookie none b = (turned_back client id cookie, b)
found_session host live client id cookie (some (_, index)) b =
    seated host live client id cookie index (get_elem? b.games index) b

-- `AuthenticateProcess` from the reply of GetInfoFromCookie on.
unfoldable pub admitted :
    Bool
    → List ℕ
    → (ℕ → Bool)
    → ℕ
    → List ℕ
    → Option (ℕ × List ℕ)
    → Battle (List ℕ)
    → List Effect × Battle (List ℕ)
admitted host self_keyword live client cookie none b = (rejected client err_no_match_account, b)
admitted host self_keyword live client cookie (some (id, server)) b =
    let (found, sessions) = find_rkey 0 cookie b.sessions in
    if same_text server self_keyword
    then found_session host live client id cookie found (record b { sessions = sessions })
    else (rejected client err_no_match_account, b)

unfoldable pub authenticate :
    Bool
    → List ℕ
    → (ℕ → Bool)
    → ℕ
    → Option (List ℕ)
    → (List ℕ → Option (ℕ × List ℕ))
    → Battle (List ℕ)
    → List Effect × Battle (List ℕ)
authenticate host self_keyword live client none found b = (cancels client ∷ closes client ∷ [], b)
authenticate host self_keyword live client (some message) found b =
    elim (take_field host 32 (of_vector host message)) [
      | err e ↦ (cancels client ∷ throws ∷ [], b)
      | ok (cookie, _) ↦
          let (calls, b') = admitted host self_keyword live client cookie (found cookie) b in
          (cancels client ∷ calls, b')
    ]

-- The battle of an account that goes.
unfoldable pub left_battle :
    (ℕ → Bool) → ℕ → ℕ → Option (List ℕ × ℕ) → Battle (List ℕ) → Battle (List ℕ)
left_battle live client id none b = b
left_battle live client id (some (_, index)) b = elim (get_elem? b.games index) [
  | none ↦ b
  | some g ↦ record b { games = set_at b.games index (GameInfo.exit live id client g) }
]

-- A number from its memory.
unfoldable pub le_value : List ℕ → ℕ
le_value [] = 0
le_value (byte ∷ bytes) = byte + 256 * le_value bytes

unfoldable pub value_of : Bool → List ℕ → ℕ
value_of true image = le_value image
value_of false image = le_value (reverse image)

-- `REQ_GAME_ACTION`; an exception of the game or of the packet is told to the client.
unfoldable pub game_action : Bool → ℕ → Side → ByteQueue → GameInfo → List Effect × GameInfo
game_action host client side packet g = elim (take_field host 4 packet) [
  | err e ↦ (sends client (err_protocol_violation ∷ []) ∷ [], g)
  | ok (image, _) ↦ elim (action g.game side (value_of host image)) [
    | none ↦ (sends client (err_protocol_violation ∷ []) ∷ [], g)
    | some game ↦ ([], record g { game = game })
  ]
]

-- The messages of a client in the battle `g`. A header that is missing leaves the handler, which
-- does not receive again.
unfoldable pub client_message : Bool → ℕ → Side → List ℕ → GameInfo → List Effect × GameInfo
client_message host client side message g = elim (header_of host message) [
  | err e ↦ (throws ∷ [], g)
  | ok (header, packet) ↦
      let (calls, g') = game_action host client side packet g in
      if header == ans_heartbeat
      then (fills client ∷ receives client ∷ [], g)
      else if header == req_game_action
      then (calls ++ (receives client ∷ []), g')
      else (sends client (err_protocol_violation ∷ []) ∷ receives client ∷ [], g)
]

-- The handler of `ClientProcess`: `message` is `none` for an error, `index` the battle of the client.
unfoldable pub client_process :
    Bool
    → (ℕ → Bool)
    → ℕ
    → ℕ
    → Side
    → ℕ
    → Option (List ℕ)
    → Battle (List ℕ)
    → List Effect × Battle (List ℕ)
client_process host live client id side index none b =
    let (found, sessions) = find_lkey 0 id b.sessions in
    (closes client ∷ [], left_battle live client id found (record b { sessions = sessions }))
client_process host live client id side index (some message) b = elim (get_elem? b.games index) [
  | none ↦ ([], b)
  | some g ↦
      let (calls, g') = client_message host client side message g in
      (calls, record b { games = set_at b.games index g' })
]
