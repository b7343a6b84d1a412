-- ===== src/AuthServer/Login.antt =====
-- source/auth/MyAuth over source/postgres/MyPostgres: the message of a login, and the account.
use drgb_server.Prelude.{
  ℕ, suc, ◌+◌, ◌<◌, ◌≡◌, ◌≢◌, refl, sym, ap, ◌∙◌, inl, inr, Bool, false, Option, none, some, List,
  [], ◌∷◌, ◌++◌, length, length-append, take, take_all, take-append, drop, drop-append, ltb, Result,
  ok, err, arith,
}
use drgb_server.ByteQueue.{ByteQueue, in_order, window, skip, remain, popstr, popstr_all, wrap}
use drgb_server.ByteQueue.Cursor.{pop_cases}
use drgb_server.Session.{
  Effect, sends, receives, take_field, header_of, err_no_match_account, req_login,
}
use drgb_server.AuthServer.{
  Outside, Account, identified, unknown, thrown, session_check, identify, login, request,
  client_process,
}
use drgb_server.AuthServer.Cookie.{in_order_same, of_vector_whole}
use drgb_server.Database.{
  Statements, DbError, failed, undecoded, wrong_size, register_account, find_account, get_pwd_hash,
}
use drgb_server.Database.Password.{HasUsers, IsHash, register_account-find_account}

-- What FindAccount comes to in the handler, its exceptions included.
unfoldable pub found_account : Result DbError ℕ → Account
found_account (ok id) = identified id
found_account (err failed) = unknown
found_account (err (undecoded e)) = thrown
found_account (err wrong_size) = thrown

module _ (host : Bool) (header : ℕ) (pwd email : List ℕ) (whole : length pwd ≡ 32)
    (small : length email < 2000000000) where
  at : ℕ → ByteQueue
  at position = record { default_endian = host; bytes = header ∷ (pwd ++ email); ptr = position }

  length-message : length (header ∷ (pwd ++ email)) ≡ 33 + length email
  length-message = omega (arith, length-append pwd email)

  rest_of_message : drop 32 (pwd ++ email) ≡ email
  rest_of_message = ap (λ n. drop n (pwd ++ email)) (sym whole) ∙ drop-append pwd email

  -- The three fields of the message: the header, the password and the address.
  header_read : header_of host (header ∷ (pwd ++ email)) ≡ ok (header, at 1)
  unfolding header_of take_field at
  header_read =
      elim (pop_cases host host false 1 (at 0) (omega arith, omega (arith, length-message))
        (omega arith)) [
          | inl (short, _) ↦ absurd (omega (arith, length-message))
          | inr (_, e) ↦
              rw
                (
                  header_of,
                  of_vector_whole host (header ∷ (pwd ++ email)) (omega (arith, length-message)),
                )
                (rw e (rw (in_order_same host (header ∷ [])) refl))
        ]

  password_read : take_field host 32 (at 1) ≡ ok (pwd, at 33)
  unfolding take_field at
  password_read =
      elim (pop_cases host host false 32 (at 1)
        (omega (arith, length-message), omega (arith, length-message)) (omega arith)) [
          | inl (short, _) ↦ absurd (omega (arith, length-message))
          | inr (_, e) ↦
              e
              ∙ ap (λ i. ok (i, at 33))
                  (ap (in_order host host)
                      (ap (λ n. take n (pwd ++ email)) (sym whole) ∙ take-append pwd email)
                    ∙ in_order_same host pwd)
        ]

  email_read : popstr_all false (at 33) ≡ ok (email, at (33 + length email))
  unfolding popstr_all popstr at window skip
  email_read =
      let rest : remain (at 33) ≡ length email = unfold remain in omega (arith, length-message) in
      let end : wrap (33 + length email) ≡ 33 + length email = omega arith in
      let fits : ltb (length (header ∷ (pwd ++ email))) (33 + length email) ≡ false =
        ground (arith, length-message) in
      rw (popstr_all, rest)
        (rw end (
          rw fits (
            ap (λ t. ok (t, at (33 + length email)))
              (ap (take (length email)) rest_of_message ∙ take_all email))))

-- What the handler adds to the calls of a request.
abbrev pub then_receives : ℕ → Option (List Effect) → Option (List Effect)
then_receives client none = none
then_receives client (some calls) = some (calls ++ (receives client ∷ []))

module _ (host : Bool) (outside : Outside) where
  -- The message of a login reaches the database with the password and the address that it holds.
  client_process-login :
      (fuel client letter : ℕ) (pwd email : List ℕ) (registers finds : List ℕ → List ℕ → Account)
      → length pwd ≡ 32
      → length (letter ∷ email) < 2000000000
      → client_process host outside fuel client registers finds
          (some (req_login ∷ (pwd ++ letter ∷ email)))
        ≡ then_receives client (identify host outside fuel client (finds (letter ∷ email) pwd))
  unfolding client_process request login
  client_process-login fuel client letter pwd email registers finds whole small =
      rw (client_process, header_read host req_login pwd (letter ∷ email) whole small)
        (rw (login, password_read host req_login pwd (letter ∷ email) whole small)
          (rw (email_read host req_login pwd (letter ∷ email) whole small) refl))

module _ {S : Type 0} (db : Statements S) (users : HasUsers db) (host : Bool) (outside : Outside)
    (h : IsHash outside.sha256) where
  -- From the registration to the session. The statements do what they say, a hash is 32 bytes, an
  -- account is inserted with an id above 0, and its address is not empty. The message of a login with
  -- the address and the password of 32 bytes that was registered leads to the check of the account's
  -- session, and the server then waits for the next message; with another password of 32 bytes, of
  -- another hash, the client is told that there is no such account, and there is no session.
  pub client_process-registered :
      (temporary pwd other email reg_time : List ℕ) (letter id fuel client : ℕ) (s s' : S)
      (registers : List ℕ → List ℕ → Account)
      → db.insert_user (letter ∷ email) temporary s ≡ some ((suc id, reg_time), s')
      → get_pwd_hash outside.sha256 (suc id) other reg_time
        ≢ get_pwd_hash outside.sha256 (suc id) pwd reg_time
      → length pwd ≡ 32
      → length other ≡ 32
      → length (letter ∷ email) < 2000000000
      → (registered : S) × (register_account db outside.sha256 temporary (letter ∷ email) pwd s
          ≡ ok (suc id, registered))
        × let finds = λ (address : List ℕ) (shown : List ℕ).
          found_account (find_account db outside.sha256 address shown registered) in
          (client_process host outside fuel client registers finds
              (some (req_login ∷ (pwd ++ letter ∷ email)))
            ≡ then_receives client (session_check host outside fuel client (suc id)))
          × (client_process host outside fuel client registers finds
                (some (req_login ∷ (other ++ letter ∷ email)))
              ≡ some (sends client (err_no_match_account ∷ []) ∷ receives client ∷ []))
  unfolding identify found_account
  client_process-registered temporary pwd other email reg_time letter id fuel client s s' registers
        row ne whole whole' small =
      let (registered, _, done, good, bad, _, _, _, _) =
        register_account-find_account db users outside.sha256 h temporary (letter ∷ email) pwd other
          other reg_time (suc id) s s' row ne (λ e. ne (sym e)) in
      let finds = λ (address : List ℕ) (shown : List ℕ).
        found_account (find_account db outside.sha256 address shown registered) in
      (
        registered,
        done,
        (
          client_process-login host outside fuel client letter pwd email registers finds whole small
              ∙ rw good refl,
          client_process-login host outside fuel client letter other email registers finds whole'
                small
              ∙ rw bad refl,
        ),
      )
