-- ===== src/AuthServer/Cookie.antt =====
-- MyAuth: the cookie of a session, from the login to the match server.
use drgb_server.Prelude.{
  ℕ, zero, suc, ◌+◌, ◌<◌, ◌%◌, ◌≡◌, refl, sym, ap, ◌∙◌, inl, inr, Bool, true, false, Option, some,
  List, [], ◌∷◌, if◌then◌else◌, length, take, take_all, ltb, ok, arith,
}
use drgb_server.ConfigParser.{same_text}
use drgb_server.Session.{PlayerInfo, take_field, sends, closes, sets_info, success, keyword_match}
use drgb_server.Map.Numbers.{nat_order}
use drgb_server.Map.Bytes.{bytes_order}
use drgb_server.ByteQueue.{ByteQueue, of_vector, pop, in_order}
use drgb_server.ByteQueue.Cursor.{pop_cases}
use drgb_server.DeMap.Pairing.{IsPaired}
use drgb_server.DeMap.Keys.{Entry}
use drgb_server.MatchServer.{Server, admitted, authenticate}
use drgb_server.MatchServer.Sessions.{Fits, join-Entry}
use drgb_server.AuthServer.{Outside, missing, fresh_cookie, seed, new_session, session_check}

-- A hash that is applied so often.
unfoldable pub rehashed : (List ℕ → List ℕ) → ℕ → List ℕ → List ℕ
rehashed hash zero cookie = cookie
rehashed hash (suc n) cookie = rehashed hash n (hash cookie)

module _ (host : Bool) (outside : Outside) where
  -- The first cookie that is free is found, with fuel for the hashes before it.
  fresh_cookie-first :
      (n fuel : ℕ) (cookie : List ℕ)
      → n < fuel
      → ((k : ℕ) → k < n → outside.taken (rehashed outside.sha256 k cookie) ≡ true)
      → outside.taken (rehashed outside.sha256 n cookie) ≡ false
      → fresh_cookie host outside fuel cookie ≡ some (rehashed outside.sha256 n cookie)
  unfolding fresh_cookie rehashed
  fresh_cookie-first n zero cookie enough used free = elim enough [ ]
  fresh_cookie-first zero (suc fuel) cookie enough used free = rw (fresh_cookie, free) refl
  fresh_cookie-first (suc n) (suc fuel) cookie enough used free =
      rw (fresh_cookie, used 0 (omega arith))
        (fresh_cookie-first n fuel (outside.sha256 cookie) (omega arith)
          (λ k small. used (suc k) (omega arith)) free)

pub in_order_same : (host : Bool) (image : List ℕ) → in_order host host image ≡ image
unfolding in_order
in_order_same true image = refl
in_order_same false image = refl

pub of_vector_whole :
    (host : Bool) (message : List ℕ)
    → length message < 2147483648
    → of_vector host message ≡ record { default_endian = host; bytes = message; ptr = 0 }
unfolding of_vector
of_vector_whole host message small =
    let count : (let m = length message % 4294967296 in if ltb m 2147483648 then m else 0)
        ≡ length message =
      ground arith in
    ap (λ xs. record { default_endian = host; bytes = xs; ptr = 0 })
      (ap (λ k. take k message) count ∙ take_all message)

-- A message that is one field is popped whole.
take_field_whole :
    (host : Bool) (width : ℕ) (message : List ℕ)
    → width < 2147483648
    → length message ≡ width
    → (rest : ByteQueue) × (take_field host width (of_vector host message) ≡ ok (message, rest))
unfolding take_field
take_field_whole host width message small whole =
    let q : ByteQueue = record { default_endian = host; bytes = message; ptr = 0 } in
    let image : in_order host host (take width message) ≡ message =
      ap (λ k. in_order host host (take k message)) (sym whole)
      ∙ ap (in_order host host) (take_all message)
      ∙ in_order_same host message in
    elim (pop_cases host host false width q (omega arith, omega arith) (omega arith)) [
      | inl (short, _) ↦ absurd (omega arith)
      | inr (_, e) ↦ (
        record q { ptr = 0 + width },
        ap (pop host host false width) (of_vector_whole host message (omega arith))
            ∙ e
            ∙ ap (λ i. ok (i, record q { ptr = 0 + width })) image,
      )
    ]

length-rehashed :
    (hash : List ℕ → List ℕ) (n : ℕ) (cookie : List ℕ)
    → ((x : List ℕ) → length (hash x) ≡ 32)
    → length cookie ≡ 32
    → length (rehashed hash n cookie) ≡ 32
unfolding rehashed
length-rehashed hash zero cookie h l = l
length-rehashed hash (suc n) cookie h l = length-rehashed hash n (hash cookie) h (h cookie)

-- From the login to the match server. An account that has no session logs in, the hashes of the seed
-- have a free cookie behind `n` that are in use, and Redis stores the session: the client gets that
-- cookie and is closed. When it then shows the bytes that it got to a match server that knows neither
-- the account nor the cookie, and Redis has the session there, the server has the session of the
-- account, with that cookie and the new connection.
pub session_check-authenticate :
    (host : Bool) (outside : Outside) (n fuel client id : ℕ) (live : ℕ → Bool) (socket : ℕ)
    (redis : List ℕ → Option (ℕ × List ℕ)) (infos : ℕ → Option (PlayerInfo × List (ℕ × ℕ)))
    (m : Server)
    → outside.info id ≡ missing
    → n < fuel
    → ((x : List ℕ) → length (outside.sha256 x) ≡ 32)
    → let cookie = rehashed outside.sha256 n (outside.sha256 (seed host outside id)) in
      ((k : ℕ)
        → k < n
        → outside.taken (rehashed outside.sha256 k (outside.sha256 (seed host outside id))) ≡ true)
      → outside.taken cookie ≡ false
      → outside.stores id cookie ≡ true
      → redis cookie ≡ some (id, keyword_match)
      → IsPaired m.sessions
      → Fits id cookie m.sessions
      → (session_check host outside fuel client id
          ≡ some (
              sets_info id cookie keyword_match
              ∷ sends client (success ∷ cookie)
              ∷ closes client
              ∷ []))
        × Entry
            (authenticate host live socket (some cookie) redis infos m).1.sessions
            id
            cookie
            (some socket)
unfolding session_check new_session authenticate admitted same_text
session_check-authenticate host outside n fuel client id live socket redis infos m none_yet enough
      sized used free stored known p fits =
    let start = outside.sha256 (seed host outside id) in
    let first = fresh_cookie-first host outside n fuel start enough used free in
    let whole = length-rehashed outside.sha256 n start sized (sized (seed host outside id)) in
    let (rest, popped_whole) =
      take_field_whole host 32 (rehashed outside.sha256 n start) (omega arith) whole in
    (
      rw (session_check, none_yet) (rw (new_session, first) (rw stored refl)),
      rw (authenticate, popped_whole)
          (rw known (join-Entry live socket id (rehashed outside.sha256 n start) m p fits)),
    )
