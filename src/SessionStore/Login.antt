-- ===== src/SessionStore/Login.antt =====
-- source/auth/MyAuth and source/match/MyMatch over source/redis/MyRedis: a session from the login to
-- the match server.
use drgb_server.Prelude.{
  ℕ, ◌<◌, ◌≡◌, refl, ap, Bool, true, false, Option, none, some, List, [], ◌∷◌, length, Result, ok,
  err,
}
use drgb_server.Session.{PlayerInfo, sends, closes, sets_info, success, keyword_match}
use drgb_server.Map.Numbers.{nat_order}
use drgb_server.Map.Bytes.{bytes_order}
use drgb_server.DeMap.Pairing.{IsPaired}
use drgb_server.DeMap.Keys.{Entry}
use drgb_server.MatchServer.{Server, authenticate}
use drgb_server.MatchServer.Sessions.{Fits}
use drgb_server.AuthServer.{Outside, Info, found, missing, disconnected, seed, session_check}
use drgb_server.AuthServer.Cookie.{rehashed, session_check-authenticate}
use drgb_server.SessionStore.{
  Failure, closed, context, no_match_account, undecoded, no_number, out_of_bounds, account_key,
  set_info, get_info_from_id, get_info_from_cookie,
}
use drgb_server.SessionStore.Numerals.{to_string}
use drgb_server.SessionStore.Redis.{Connection, Documented, State, Values}
use drgb_server.SessionStore.Keys.{idle}
use drgb_server.SessionStore.Writes.{set_info_lem}
use drgb_server.SessionStore.Reads.{get_info_from_id-none, get_info_from_cookie_lem}
use drgb_server.SessionStore.RoundTrip.{looked_up-recorded}

-- What the login takes from the result of GetInfoFromID. An exception does not reach it; it stands
-- with the other errors.
unfoldable pub info_of : Result Failure (List ℕ × List ℕ) → Info
info_of (ok (cookie, name)) = found cookie name
info_of (err closed) = disconnected
info_of (err context) = missing
info_of (err no_match_account) = missing
info_of (err (undecoded e)) = missing
info_of (err no_number) = missing
info_of (err out_of_bounds) = missing

-- `isSuccessed` of a result, and what the match server takes from it.
unfoldable pub is_found : Result Failure (ℕ × List ℕ) → Bool
is_found (ok p) = true
is_found (err e) = false

unfoldable pub found_info : Result Failure (ℕ × List ℕ) → Option (ℕ × List ℕ)
found_info (ok p) = some p
found_info (err e) = none

unfoldable pub succeeded : Option Failure → Bool
succeeded none = true
succeeded (some e) = false

module _ {S : Type 0} (redis : Connection S) where
  -- The authentication server over Redis in a state: the lookups leave the sessions as they are.
  unfoldable pub over_redis : S → (List ℕ → List ℕ) → List ℕ → Outside
  over_redis s sha256 now = record {
    info = λ id. info_of (get_info_from_id redis id s).0;
    taken = λ cookie. is_found (get_info_from_cookie redis cookie s).0;
    stores = λ id cookie. succeeded (set_info redis id cookie keyword_match s).0;
    sha256 = sha256;
    now = now;
  }

module _ {S : Type 0} (redis : Connection S) (view : S → State) (d : Documented redis view) where
  -- Redis behaves as documented and no transaction is open; an account that has no session there
  -- logs in, its id fits into 64 bits, a hash is 32 bytes, and the hashes of the seed have a cookie
  -- without a session behind `n` that have one: the client gets that cookie, and the session is
  -- recorded. When it then shows the bytes that it got to a match server that asks the same Redis and
  -- knows neither the account nor the cookie itself, the server has the session of the account, with
  -- that cookie and the new connection.
  pub set_info-authenticate :
      (host : Bool) (sha256 : List ℕ → List ℕ) (now : List ℕ) (n fuel client id : ℕ)
      (live : ℕ → Bool) (socket : ℕ) (infos : ℕ → Option (PlayerInfo × List (ℕ × ℕ))) (m : Server)
      (s : S) (values : Values)
      → view s ≡ idle values
      → values (account_key (to_string id)) ≡ none
      → id < 18446744073709551616
      → n < fuel
      → ((x : List ℕ) → length (sha256 x) ≡ 32)
      → let outside = over_redis redis s sha256 now in
        let cookie = rehashed sha256 n (sha256 (seed host outside id)) in
        ((k : ℕ)
          → k < n
          → is_found
              (get_info_from_cookie redis (rehashed sha256 k (sha256 (seed host outside id))) s).0
            ≡ true)
        → is_found (get_info_from_cookie redis cookie s).0 ≡ false
        → IsPaired m.sessions
        → Fits id cookie m.sessions
        → (session_check host outside fuel client id
            ≡ some (
                sets_info id cookie keyword_match
                ∷ sends client (success ∷ cookie)
                ∷ closes client
                ∷ []))
          × Entry
              (authenticate host live socket
                (some cookie)
                (λ shown.
                  found_info
                    (get_info_from_cookie redis shown
                      (set_info redis id cookie keyword_match s).1).0)
                infos
                m).1.sessions
              id
              cookie
              (some socket)
  unfolding over_redis info_of found_info succeeded
  set_info-authenticate host sha256 now n fuel client id live socket infos m s values e free fits
        enough sized used unused p at =
      let outside = over_redis redis s sha256 now in
      let cookie = rehashed sha256 n (sha256 (seed host outside id)) in
      let (_, unknown, _) = get_info_from_id-none redis view d id s values e free in
      let (s', set, e') = set_info_lem redis view d id cookie keyword_match s values e in
      let (_, known, _) = get_info_from_cookie_lem redis view d cookie s' _ e' in
      session_check-authenticate host outside n fuel client id live socket
        (λ shown.
          found_info
            (get_info_from_cookie redis shown (set_info redis id cookie keyword_match s).1).0)
        infos m (rw unknown refl) enough sized used unused (rw set refl)
        (rw set (rw known (ap found_info (looked_up-recorded id _ keyword_match values fits)))) p at
