-- ===== src/MatchServer.antt =====
-- source/match/MyMatch: the handlers of the match server and the loop that hands matches over.
-- Replies of Redis and of the database are arguments: `none` is a missing session, or a database
-- call that threw. `live` says which sockets still exist behind a `weak_ptr`.
use drgb_server.Prelude.{
  ℕ, zero, suc, Bool, true, false, not, Option, none, some, List, [], ◌∷◌, ◌++◌, ◌==◌,
  if◌then◌else◌, Result, ok, err, length, map,
}
use drgb_server.ConfigParser.{same_text}
use drgb_server.Encoder.{codes}
use drgb_server.Map.{Order}
use drgb_server.Map.Numbers.{nat_order}
use drgb_server.Map.Bytes.{bytes_order}
use drgb_server.ByteQueue.{ByteQueue, of_vector}
use drgb_server.DeMap
use drgb_server.DeMap.{DeMap, find_lkey, find_rkey, insert_lkey_value, erase_lkey}
use drgb_server.MatchMaker
use drgb_server.MatchMaker.{
  Element, MatchMaker, Doubles, element, is_there_match, get_match, pop_match,
}
use drgb_server.MatchService
use drgb_server.Session.{
  alive, rejected, Effect, sends, closes, cancels, fills, receives, beats, sets_info, notifies,
  throws, PlayerInfo, message_of, info_fields, take_field, header_of, success,
  err_protocol_violation, err_no_match_account, err_db_failed, err_duplicated_access, ans_heartbeat,
  ans_matchmade, game_player_info, req_chpwd, req_startmatch, req_pausematch, req_chname,
  keyword_match,
}
pub mod Handover
pub mod Sessions
pub mod Admission
pub mod Rounds
pub mod PutBack
pub mod Verdict
pub mod Loop

pub record Server : Type 0 where
  pub sessions : DeMap ℕ (List ℕ) (Option ℕ)
  pub matchmaker : MatchMaker

-- An account that is known by its cookie: its old socket, if it exists, has to go.
unfoldable pub rejoin : (ℕ → Bool) → ℕ → ℕ → Option ℕ → Server → List Effect × Server
rejoin live client id origin m =
    let stored = record m { sessions = (insert_lkey_value id (some client) m.sessions).1 } in
    elim (alive live origin) [
      | none ↦ ([], stored)
      | some old ↦ (
        rejected old err_duplicated_access,
        record stored { matchmaker = MatchMaker.exit id m.matchmaker },
      )
    ]

unfoldable pub joined :
    (ℕ → Bool) → ℕ → ℕ → List ℕ → Option (ℕ × Option ℕ) → Server → List Effect × Server
joined live client id cookie none m =
    ([], record m { sessions = (DeMap.insert id cookie (some client) m.sessions).1 })
joined live client id cookie (some (_, origin)) m = rejoin live client id origin m

-- The local session of an account that Redis knows.
unfoldable pub join : (ℕ → Bool) → ℕ → ℕ → List ℕ → Server → List Effect × Server
join live client id cookie m =
    let (found, sessions) = find_rkey none cookie m.sessions in
    joined live client id cookie found (record m { sessions = sessions })

-- The message on the player and on the achievements.
unfoldable pub player_info : Bool → PlayerInfo → List (ℕ × ℕ) → List ℕ
player_info host info achieves =
    message_of host game_player_info (info_fields info ++ achieve_fields achieves)
  where
    achieve_fields : List (ℕ × ℕ) → List (ℕ × ℕ)
    achieve_fields [] = []
    achieve_fields ((id, count) ∷ rest) = (8, id) ∷ (4, count) ∷ achieve_fields rest

-- What the end of `AuthenticateProcess` does with the reply of the database.
unfoldable pub welcomed : Bool → ℕ → Option (PlayerInfo × List (ℕ × ℕ)) → List Effect
welcomed host client none = rejected client err_db_failed ++ (throws ∷ [])
welcomed host client (some (info, achieves)) =
    sends client (player_info host info achieves)
    ∷ fills client
    ∷ receives client
    ∷ beats client
    ∷ []

-- `AuthenticateProcess` from the reply of GetInfoFromCookie on.
unfoldable pub admitted :
    Bool
    → (ℕ → Bool)
    → ℕ
    → List ℕ
    → Option (ℕ × List ℕ)
    → (ℕ → Option (PlayerInfo × List (ℕ × ℕ)))
    → Server
    → List Effect × Server
admitted host live client cookie none infos m =
    (cancels client ∷ rejected client err_no_match_account, m)
admitted host live client cookie (some (id, server)) infos m =
    let (calls, m') = join live client id cookie m in
    if same_text server keyword_match
    then (cancels client ∷ (calls ++ welcomed host client (infos id)), m')
    else (cancels client ∷ rejected client err_no_match_account, m)

-- `AuthenticateProcess`; `message` is `none` for an error, `found` the reply of GetInfoFromCookie.
unfoldable pub authenticate :
    Bool
    → (ℕ → Bool)
    → ℕ
    → Option (List ℕ)
    → (List ℕ → Option (ℕ × List ℕ))
    → (ℕ → Option (PlayerInfo × List (ℕ × ℕ)))
    → Server
    → List Effect × Server
authenticate host live client none found infos m = (cancels client ∷ closes client ∷ [], m)
authenticate host live client (some message) found infos m =
    elim (take_field host 32 (of_vector host message)) [
      | err e ↦ (cancels client ∷ throws ∷ [], m)
      | ok (cookie, _) ↦ admitted host live client cookie (found cookie) infos m
    ]

-- The session that ends, if it is still the one of this client.
unfoldable pub session_ended :
    (ℕ → Bool) → ℕ → ℕ → Option (List ℕ × Option ℕ) → Server → List Effect × Server
session_ended live client id none m = ([], m)
session_ended live client id (some (_, socket)) m = elim (alive live socket) [
  | none ↦ (closes client ∷ [], m)
  | some s ↦
      let ended = record m { sessions = (erase_lkey none id m.sessions).1 } in
      (closes client ∷ [], if s == client then ended else m)
]

-- The branch of the handler for a connection that ended.
unfoldable pub disconnected : (ℕ → Bool) → ℕ → ℕ → Server → List Effect × Server
disconnected live client id m =
    let (found, sessions) = find_lkey none id m.sessions in
    session_ended live client id found
      (record { sessions = sessions; matchmaker = MatchMaker.exit id m.matchmaker })

-- What the database answers to a request.
pub record Replies : Type 0 where
  -- `ChangePwd` with the two passwords
  pub changes : List ℕ → List ℕ → Option Bool
  -- `GetInfo`
  pub info : Option PlayerInfo
  -- `SetNickName` with a name, and `GetInfo` after it
  pub renamed : List ℕ → Option PlayerInfo

unfoldable pub change_password : Bool → ℕ → Replies → ByteQueue → List Effect
change_password host client replies packet = elim (take_field host 32 packet) [
  | err e ↦ sends client (err_protocol_violation ∷ []) ∷ throws ∷ []
  | ok (old, packet') ↦ elim (take_field host 32 packet') [
    | err e ↦ sends client (err_protocol_violation ∷ []) ∷ throws ∷ []
    | ok (new, _) ↦ elim (replies.changes old new) [
      | none ↦ sends client (err_db_failed ∷ []) ∷ []
      | some true ↦ sends client (success ∷ []) ∷ []
      | some false ↦ sends client (err_no_match_account ∷ []) ∷ []
    ]
  ]
]

unfoldable pub change_name : Bool → ℕ → Replies → ByteQueue → List Effect
change_name host client replies packet = elim (take_field host 8 packet) [
  | err e ↦ sends client (err_protocol_violation ∷ []) ∷ throws ∷ []
  | ok (name, _) ↦ elim (replies.renamed name) [
    | none ↦ rejected client err_db_failed
    | some info ↦ sends client (message_of host game_player_info (info_fields info)) ∷ []
  ]
]

module _ {ℓ} {D : Type ℓ} (double : Doubles D) where
  unfoldable pub start_match : ℕ → ℕ → Replies → Server → List Effect × Server
  start_match client id replies m = elim replies.info [
    | none ↦ (rejected client err_db_failed, m)
    | some info ↦
        let e = element id info.win info.draw info.loose in
        (notifies ∷ [], record m { matchmaker = MatchMaker.enter double e m.matchmaker })
  ]

  -- The requests of a client.
  unfoldable pub request : Bool → ℕ → ℕ → Replies → ℕ → ByteQueue → Server → List Effect × Server
  request host client id replies header packet m =
      if header == ans_heartbeat
      then (fills client ∷ [], m)
      else if header == req_chpwd
      then (change_password host client replies packet, m)
      else if header == req_startmatch
      then start_match client id replies m
      else if header == req_pausematch
      then (notifies ∷ [], record m { matchmaker = MatchMaker.exit id m.matchmaker })
      else if header == req_chname
      then (change_name host client replies packet, m)
      else (sends client (err_protocol_violation ∷ []) ∷ [], m)

  -- The handler of `ClientProcess`; `message` is `none` for an error.
  unfoldable pub client_process :
      Bool → (ℕ → Bool) → ℕ → ℕ → Replies → Option (List ℕ) → Server → List Effect × Server
  client_process host live client id replies none m = disconnected live client id m
  client_process host live client id replies (some message) m = elim (header_of host message) [
    | err e ↦ (sends client (err_protocol_violation ∷ []) ∷ throws ∷ receives client ∷ [], m)
    | ok (header, packet) ↦
        let (calls, m') = request host client id replies header packet m in
        (calls ++ (receives client ∷ []), m')
  ]

unfoldable pub check_account : ℕ → Server → Bool
check_account id m = elim (find_lkey none id m.sessions).0 [ none ↦ false | some _ ↦ true ]
