-- ===== src/AuthServer.antt =====
-- source/auth/MyAuth: logging in, registering, and the cookie of a new session.
-- Replies of Redis and of the database are arguments; `sha256` and the clock are parameters. The loop
-- that hashes until a cookie is free runs on fuel. A connection to the database is always there: the
-- code does not test it.
use drgb_server.Prelude.{
  ℕ, zero, suc, ◌+◌, ◌-◌, ◌*◌, Bool, true, false, not, ◌&&◌, ◌||◌, Option, none, some, List, [],
  ◌∷◌, ◌++◌, leb, ltb, ◌==◌, if◌then◌else◌, Result, ok, err, length, take, drop,
}
use drgb_server.ConfigParser.{same_text}
use drgb_server.Encoder.{codes}
use drgb_server.ByteQueue.{ByteQueue, popstr_all}
use drgb_server.ByteQueue.Endian.{memory}
use drgb_server.Session.{
  Effect, sends, closes, fills, receives, beats, sets_info, take_field, header_of, success,
  err_protocol_violation, err_no_match_account, err_exist_account, err_exist_account_match,
  err_exist_account_battle, err_db_failed, ans_heartbeat, req_register, req_login, keyword_match,
}
pub mod Cookie
pub mod Login

-- `AcceptProcess`
unfoldable pub accept_process : Bool → Bool → ℕ → List Effect
accept_process failed is_open client =
    if failed || not is_open
    then closes client ∷ []
    else fills client ∷ receives client ∷ beats client ∷ []

-- What the database answers to a login or a registration.
pub data Account : Type 0 where
  -- an id, 0 for a wrong password
  identified : ℕ → Account
  -- `unique_violation`
  exists : Account
  -- no row, or more than one
  unknown : Account
  broken : Account
  -- an exception that is not the database's: the hash that is stored is none
  thrown : Account

-- The reply of GetInfoFromID.
pub data Info : Type 0 where
  found : List ℕ → List ℕ → Info
  missing : Info
  disconnected : Info

-- What the server asks of Redis, of the hash and of the clock.
pub record Outside : Type 0 where
  pub info : ℕ → Info
  -- is there a session with this cookie?
  pub taken : List ℕ → Bool
  pub stores : ℕ → List ℕ → Bool
  pub sha256 : List ℕ → List ℕ
  pub now : List ℕ

-- `std::stoi` of digits, if it fits into an `int`
unfoldable pub digits_value : ℕ → List ℕ → Option ℕ
digits_value value [] = if ltb value 2147483648 then some value else none
digits_value value (c ∷ text) =
    if leb 48 c && leb c 57 then digits_value (10 * value + (c - 48)) text else none

-- The battle server of a name: `battle` and digits, of a number above 0.
unfoldable pub battle_id : List ℕ → Option ℕ
battle_id name = elim (digits_value 0 (drop 6 name)) [
  | none ↦ none
  | some zero ↦ none
  | some (suc id) ↦ if same_text (take 6 name) (codes "battle") then some (suc id) else none
]

module _ (host : Bool) (outside : Outside) where
  -- The loop that looks for a free cookie.
  unfoldable pub fresh_cookie : ℕ → List ℕ → Option (List ℕ)
  fresh_cookie zero cookie = none
  fresh_cookie (suc fuel) cookie =
      let next = fresh_cookie fuel (outside.sha256 cookie) in
      if outside.taken cookie then next else some cookie

  unfoldable pub seed : ℕ → List ℕ
  seed id = memory host 8 id ++ outside.now

  -- A session for an account that has none.
  unfoldable pub new_session : ℕ → ℕ → ℕ → Option (List Effect)
  new_session fuel client id = elim (fresh_cookie fuel (outside.sha256 (seed id))) [
    | none ↦ none
    | some cookie ↦
        let stored = sets_info id cookie keyword_match in
        some (
          if outside.stores id cookie
          then stored ∷ sends client (success ∷ cookie) ∷ closes client ∷ []
          else stored ∷ sends client (err_db_failed ∷ []) ∷ [])
  ]

  -- The account has a session: where it is.
  unfoldable pub old_session : ℕ → List ℕ → List ℕ → List Effect
  old_session client cookie server =
      let elsewhere : List ℕ = elim (battle_id server) [
        | none ↦ err_db_failed ∷ []
        | some id ↦ err_exist_account_battle ∷ (cookie ++ memory host 4 id)
      ] in
      sends client
        (if same_text server keyword_match then err_exist_account_match ∷ cookie else elsewhere)
      ∷ closes client
      ∷ []

  unfoldable pub session_check : ℕ → ℕ → ℕ → Option (List Effect)
  session_check fuel client id = elim (outside.info id) [
    | found cookie server ↦ some (old_session client cookie server)
    | missing ↦ new_session fuel client id
    | disconnected ↦ elim (new_session fuel client id) [
      | none ↦ none
      | some calls ↦ some (sends client (err_db_failed ∷ []) ∷ calls)
    ]
  ]

  -- What follows the answer of the database.
  unfoldable pub identify : ℕ → ℕ → Account → Option (List Effect)
  identify fuel client (identified zero) = some (sends client (err_no_match_account ∷ []) ∷ [])
  identify fuel client (identified (suc id)) = session_check fuel client (suc id)
  identify fuel client exists = some (sends client (err_exist_account ∷ []) ∷ [])
  identify fuel client unknown = some (sends client (err_no_match_account ∷ []) ∷ [])
  identify fuel client broken = some (sends client (err_db_failed ∷ []) ∷ [])
  identify fuel client thrown = some (sends client (err_protocol_violation ∷ []) ∷ [])

  -- A registration or a login: the password and the address. An empty address asks nobody.
  unfoldable pub login : ℕ → ℕ → (List ℕ → List ℕ → Account) → ByteQueue → Option (List Effect)
  login fuel client asks packet = elim (take_field host 32 packet) [
    | err e ↦ some (sends client (err_protocol_violation ∷ []) ∷ [])
    | ok (password, packet') ↦ elim (popstr_all false packet') [
      | err e ↦ some (sends client (err_protocol_violation ∷ []) ∷ [])
      | ok ([], _) ↦ some []
      | ok (letter ∷ email, _) ↦ identify fuel client (asks (letter ∷ email) password)
    ]
  ]

  unfoldable pub request :
      ℕ
      → ℕ
      → (List ℕ → List ℕ → Account)
      → (List ℕ → List ℕ → Account)
      → ℕ
      → ByteQueue
      → Option (List Effect)
  request fuel client registers finds header packet =
      if header == ans_heartbeat
      then some (fills client ∷ [])
      else if header == req_register
      then login fuel client registers packet
      else if header == req_login
      then login fuel client finds packet
      else some (sends client (err_protocol_violation ∷ []) ∷ [])

  -- The handler of `ClientProcess`; `message` is `none` for an error.
  unfoldable pub client_process :
      ℕ
      → ℕ
      → (List ℕ → List ℕ → Account)
      → (List ℕ → List ℕ → Account)
      → Option (List ℕ)
      → Option (List Effect)
  client_process fuel client registers finds none = some (closes client ∷ [])
  client_process fuel client registers finds (some message) = elim (header_of host message) [
    | err e ↦ some (sends client (err_protocol_violation ∷ []) ∷ receives client ∷ [])
    | ok (header, packet) ↦ elim (request fuel client registers finds header packet) [
      | none ↦ none
      | some calls ↦ some (calls ++ (receives client ∷ []))
    ]
  ]
