-- ===== src/SessionStore.antt =====
-- source/redis/MyRedis: the sessions that the servers share in Redis.
-- An operation returns its result and the state behind it. The cookie is its 32 bytes, a text its
-- characters. The connection is a parameter; connecting and closing are calls of hiredis.
use drgb_server.Prelude.{
  ℕ, zero, suc, ◌+◌, ◌-◌, Bool, true, false, ◌&&◌, Option, none, some, List, [], ◌∷◌, ◌++◌, leb,
  ltb, if◌then◌else◌, length, take, get_elem?, Result, ok, err,
}
use drgb_server.ConfigParser.{same_text}
use drgb_server.Encoder.{codes, encode_base64, decode_base64, DecodeError}
use drgb_server.SessionStore.Redis.{
  Reply, text, nil, status, failure, integer, array, elements, str, integer_of, is_array, Command,
  multi, exec, watch, del, rpush, pexpire, set, get, lrange, Connection, query,
}
use drgb_server.SessionStore.Numerals.{to_string, stoull}
pub mod Numerals
pub mod Redis
pub mod Replies
pub mod Keys
pub mod Writes
pub mod Reads
pub mod RoundTrip
pub mod Isolation
pub mod Login
pub mod Link

-- How an operation fails.
pub data Failure : Type 0 where
  -- ERR_CONNECTION_CLOSED
  closed : Failure
  -- `GetErrorCode()`: the error of the connection
  context : Failure
  -- ERR_NO_MATCH_ACCOUNT
  no_match_account : Failure
  -- an exception of DecodeBase64
  undecoded : DecodeError → Failure
  -- an exception of std::stoull
  no_number : Failure
  -- undefined behaviour: 32 bytes are copied from a shorter sequence
  out_of_bounds : Failure

unfoldable pub cookie_key : List ℕ → List ℕ
cookie_key cookie_str = codes "cookie:" ++ cookie_str

unfoldable pub account_key : List ℕ → List ℕ
account_key idstr = codes "account:" ++ idstr

-- The tests of the replies of LRANGE in RefreshInfo and ClearInfo.
unfoldable pub held_by : List ℕ → List ℕ → List Reply → Bool
held_by idstr name [] = false
held_by idstr name (a ∷ []) = false
held_by idstr name (a ∷ b ∷ rest) = same_text (str a) idstr && same_text (str b) name

unfoldable pub verified : List ℕ → List ℕ → List Reply → Bool
unfolding held_by
verified idstr name [] = false
verified idstr name (r ∷ replies) = held_by idstr name (elements r)

-- The tests of the replies to EXEC, the last of `size` commands.
unfoldable pub both_above : List Reply → Bool
both_above [] = false
both_above (a ∷ []) = false
both_above (a ∷ b ∷ rest) = leb 1 (integer_of a) && leb 1 (integer_of b)

unfoldable pub confirmed : ℕ → List Reply → Bool
unfolding both_above
confirmed size replies = elim (get_elem? replies (size - 1)) [
  | none ↦ false
  | some r ↦ is_array r && both_above (elements r)
]

-- The cookie's text that GET answers.
unfoldable pub cookie_of : List Reply → Result Failure (List ℕ)
cookie_of [] = err context
cookie_of (text t ∷ replies) = ok t
cookie_of (nil ∷ replies) = err no_match_account
cookie_of (status t ∷ replies) = err no_match_account
cookie_of (failure t ∷ replies) = err no_match_account
cookie_of (integer n ∷ replies) = err no_match_account
cookie_of (array rs ∷ replies) = err no_match_account

-- The two elements of a list: the account and the server.
unfoldable pub pair_of : List Reply → Result Failure (List ℕ × List ℕ)
pair_of [] = err no_match_account
pair_of (a ∷ []) = err no_match_account
pair_of (a ∷ b ∷ rest) = ok (str a, str b)

-- The reply of LRANGE that stands last, behind the four of a transaction.
unfoldable pub last_pair : List Reply → Result Failure (List ℕ × List ℕ)
unfolding pair_of
last_pair replies = elim (get_elem? replies 4) [
  | none ↦ err context
  | some r ↦ pair_of (elements r)
]

unfoldable pub array_pair : Reply → Result Failure (List ℕ × List ℕ)
unfolding pair_of
array_pair r = if is_array r then pair_of (elements r) else err no_match_account

unfoldable pub first_pair : List Reply → Result Failure (List ℕ × List ℕ)
unfolding array_pair
first_pair [] = err context
first_pair (r ∷ replies) = array_pair r

unfoldable pub numbered : List ℕ × List ℕ → Result Failure (ℕ × List ℕ)
numbered (idstr, name) = elim (stoull idstr) [ none ↦ err no_number | some id ↦ ok (id, name) ]

-- The transaction of GetInfoFromID and GetInfoFromCookie.
unfoldable pub renewal : List ℕ → List ℕ → List Command
renewal account cookie = multi ∷ pexpire account ∷ pexpire cookie ∷ exec ∷ lrange cookie ∷ []

module _ {S : Type 0} (redis : Connection S) where
  -- `none` is SUCCESS.
  unfoldable pub set_info : ℕ → List ℕ → List ℕ → S → Option Failure × S
  set_info id cookie name s =
      let idstr = to_string id in
      let cookie_str = encode_base64 cookie in
      let (replies, s') =
        query redis
          (multi
            ∷ del (cookie_key cookie_str)
            ∷ rpush (cookie_key cookie_str) idstr name
            ∷ pexpire (cookie_key cookie_str)
            ∷ set (account_key idstr) cookie_str
            ∷ exec
            ∷ [])
          s in
      if redis.is_open s
      then (if leb (length replies) 0 then some context else none, s')
      else (some closed, s)

  unfoldable pub refresh_info : ℕ → List ℕ → List ℕ → S → Bool × S
  refresh_info id cookie name s =
      let idstr = to_string id in
      let cookie_str = encode_base64 cookie in
      let (found, s') = query redis (lrange (cookie_key cookie_str) ∷ []) s in
      let (replies, s'') =
        query redis
          (watch (cookie_key cookie_str)
            ∷ watch (account_key idstr)
            ∷ multi
            ∷ pexpire (cookie_key cookie_str)
            ∷ pexpire (account_key idstr)
            ∷ exec
            ∷ [])
          s' in
      if redis.is_open s
      then (if verified idstr name found then (confirmed 6 replies, s'') else (false, s'))
      else (false, s)

  unfoldable pub clear_info : ℕ → List ℕ → List ℕ → S → Bool × S
  clear_info id cookie name s =
      let idstr = to_string id in
      let cookie_str = encode_base64 cookie in
      let (found, s') = query redis (lrange (cookie_key cookie_str) ∷ []) s in
      let (replies, s'') =
        query redis
          (watch (cookie_key cookie_str)
            ∷ watch (account_key idstr)
            ∷ multi
            ∷ del (cookie_key cookie_str)
            ∷ del (account_key idstr)
            ∷ exec
            ∷ [])
          s' in
      if redis.is_open s
      then (if verified idstr name found then (confirmed 6 replies, s'') else (false, s'))
      else (false, s)

  -- The part of GetInfoFromID behind the decoded cookie.
  unfoldable pub server_of : List ℕ → List ℕ → List ℕ → S → Result Failure (List ℕ × List ℕ) × S
  server_of idstr cookie_str cookie s =
      let (replies, s') = query redis (renewal (account_key idstr) (cookie_key cookie_str)) s in
      (elim (last_pair replies) [ err e ↦ err e | ok (_, name) ↦ ok (cookie, name) ], s')

  unfoldable pub decoded_info :
      List ℕ → Result Failure (List ℕ) → S → Result Failure (List ℕ × List ℕ) × S
  decoded_info idstr (err e) s = (err e, s)
  decoded_info idstr (ok cookie_str) s = elim (decode_base64 cookie_str) [
    | err e ↦ (err (undecoded e), s)
    | ok vec ↦
        if ltb (length vec) 32
        then (err out_of_bounds, s)
        else server_of idstr cookie_str (take 32 vec) s
  ]

  unfoldable pub get_info_from_id : ℕ → S → Result Failure (List ℕ × List ℕ) × S
  get_info_from_id id s =
      let idstr = to_string id in
      let (replies, s') = query redis (get (account_key idstr) ∷ []) s in
      if redis.is_open s then decoded_info idstr (cookie_of replies) s' else (err closed, s)

  -- The part of GetInfoFromCookie behind the first reply.
  unfoldable pub renewed_info :
      List ℕ → Result Failure (List ℕ × List ℕ) → S → Result Failure (ℕ × List ℕ) × S
  renewed_info cookie_str (err e) s = (err e, s)
  renewed_info cookie_str (ok (idstr, _)) s =
      let (replies, s') = query redis (renewal (account_key idstr) (cookie_key cookie_str)) s in
      (
        elim (get_elem? replies 4) [
          | none ↦ err context
          | some r ↦ elim (array_pair r) [ err e ↦ err e | ok pair ↦ numbered pair ]
        ],
        s',
      )

  unfoldable pub get_info_from_cookie : List ℕ → S → Result Failure (ℕ × List ℕ) × S
  get_info_from_cookie cookie s =
      let cookie_str = encode_base64 cookie in
      let (replies, s') = query redis (lrange (cookie_key cookie_str) ∷ []) s in
      if redis.is_open s then renewed_info cookie_str (first_pair replies) s' else (err closed, s)
