-- ===== src/Database/Password.antt =====
-- source/postgres/MyPostgres: registering, logging in, and changing the password.
use drgb_server.Prelude.{
  ℕ, zero, suc, ◌<◌, ◌≡◌, ◌≢◌, refl, sym, ap, ◌∙◌, true, false, some, List, ltb, length, take,
  take_all, All, if◌then◌else◌, ok, ◌++◌, ◌%◌, ◌^◌, arith,
}
use native.Mathlib.Nat.{pow-succ'}
use drgb_server.ConfigParser.{same_text}
use drgb_server.Encoder.{encode_base64}
use drgb_server.Encoder.RoundTrip.{IsByte, decode_base64-encode_base64}
use drgb_server.SessionStore.Keys.{same_text_refl}
use drgb_server.SessionStore.RoundTrip.{same_text-ne}
use drgb_server.Database.{
  Statements, salted, get_pwd_hash, stored_hash, register_account, find_account, change_pwd,
}

-- What the statements on userlist do, for an email that is in one row at most.
pub record HasUsers {S : Type 0} (db : Statements S) : Type 0 where
  pub inserted :
      (email temporary reg_time : List ℕ) (id : ℕ) (s s' : S)
      → db.insert_user email temporary s ≡ some ((id, reg_time), s')
      → db.select_email email s' ≡ some (id, temporary, reg_time)
  pub by_id :
      (email encoded reg_time : List ℕ) (id : ℕ) (s : S)
      → db.select_email email s ≡ some (id, encoded, reg_time)
      → db.select_id id s ≡ some (encoded, reg_time)
  pub updated :
      (email encoded new reg_time : List ℕ) (id : ℕ) (s : S)
      → db.select_email email s ≡ some (id, encoded, reg_time)
      → db.select_email email (db.update_hash id new s) ≡ some (id, new, reg_time)

-- A hash of 32 bytes, of anything.
pub record IsHash (sha256 : List ℕ → List ℕ) : Type 0 where
  pub sized : (x : List ℕ) → length (sha256 x) ≡ 32
  pub bytes : (x : List ℕ) → All IsByte (sha256 x)

power_pos : (n : ℕ) → 0 < 2 ^ n
power_pos zero = omega arith
power_pos (suc n) = omega (arith, power_pos n, pow-succ' 2 n)

module _ (sha256 : List ℕ → List ℕ) (h : IsHash sha256) where
  salted-IsHash :
      (salt : List ℕ) (n : ℕ) (x : List ℕ)
      → 0 < n
      → (length (salted sha256 salt n x) ≡ 32) × All IsByte (salted sha256 salt n x)
  unfolding salted
  salted-IsHash salt zero x some_round = elim some_round [ ]
  salted-IsHash salt (suc zero) x some_round = (h.sized (x ++ salt), h.bytes (x ++ salt))
  salted-IsHash salt (suc (suc n)) x some_round =
      salted-IsHash salt (suc n) (sha256 (x ++ salt)) (omega arith)

  hash-IsHash :
      (id : ℕ) (pwd reg_time : List ℕ)
      → (length (get_pwd_hash sha256 id pwd reg_time) ≡ 32)
        × All IsByte (get_pwd_hash sha256 id pwd reg_time)
  unfolding get_pwd_hash
  hash-IsHash id pwd reg_time = salted-IsHash reg_time (2 ^ (id % 17)) pwd (power_pos (id % 17))

  stored_hash-encode_base64 :
      (id : ℕ) (pwd reg_time : List ℕ)
      → stored_hash (encode_base64 (get_pwd_hash sha256 id pwd reg_time))
        ≡ ok (get_pwd_hash sha256 id pwd reg_time)
  unfolding stored_hash
  stored_hash-encode_base64 id pwd reg_time =
      let hash = get_pwd_hash sha256 id pwd reg_time in
      let whole = (hash-IsHash id pwd reg_time).0 in
      let long : ltb (length hash) 32 ≡ false = ground arith in
      rw (stored_hash, decode_base64-encode_base64 hash (hash-IsHash id pwd reg_time).1)
        (rw long (ap ok (ap (λ n. take n hash) (sym whole) ∙ take_all hash)))

module _ {S : Type 0} (db : Statements S) (users : HasUsers db) (sha256 : List ℕ → List ℕ)
    (h : IsHash sha256) where
  -- What FindAccount answers where the hash of a password is stored.
  find_account-stored :
      (email pwd other reg_time : List ℕ) (id : ℕ) (s : S)
      → db.select_email email s
        ≡ some (id, encode_base64 (get_pwd_hash sha256 id pwd reg_time), reg_time)
      → find_account db sha256 email other s
        ≡ ok (
            if same_text
              (get_pwd_hash sha256 id other reg_time)
              (get_pwd_hash sha256 id pwd reg_time)
            then id
            else 0)
  unfolding find_account
  find_account-stored email pwd other reg_time id s there =
      rw (find_account, there) (rw (stored_hash-encode_base64 sha256 h id pwd reg_time) refl)

  -- The statements do what they say, a hash is 32 bytes, and the row is inserted. The account that is
  -- registered is found with its password; with another password, of another hash, the answer is 0
  -- and ChangePwd fails.
  -- When the password is changed by the one that was registered, the new password finds the account,
  -- and the old one, if its hash is another, does not.
  pub register_account-find_account :
      (temporary email pwd new_pwd other reg_time : List ℕ) (id : ℕ) (s s' : S)
      → db.insert_user email temporary s ≡ some ((id, reg_time), s')
      → get_pwd_hash sha256 id other reg_time ≢ get_pwd_hash sha256 id pwd reg_time
      → get_pwd_hash sha256 id pwd reg_time ≢ get_pwd_hash sha256 id new_pwd reg_time
      → (registered : S) × (changed : S) × (register_account db sha256 temporary email pwd s
          ≡ ok (id, registered))
        × (find_account db sha256 email pwd registered ≡ ok id)
        × (find_account db sha256 email other registered ≡ ok 0)
        × (change_pwd db sha256 id other new_pwd registered ≡ ok (false, registered))
        × (change_pwd db sha256 id pwd new_pwd registered ≡ ok (true, changed))
        × (find_account db sha256 email new_pwd changed ≡ ok id)
        × (find_account db sha256 email pwd changed ≡ ok 0)
  unfolding register_account change_pwd
  register_account-find_account temporary email pwd new_pwd other reg_time id s s' row ne ne' =
      let hash = get_pwd_hash sha256 id pwd reg_time in
      let new_hash = get_pwd_hash sha256 id new_pwd reg_time in
      let registered = db.update_hash id (encode_base64 hash) s' in
      let changed = db.update_hash id (encode_base64 new_hash) registered in
      let there =
        users.updated email temporary (encode_base64 hash) reg_time id s'
          (users.inserted email temporary reg_time id s s' row) in
      let there' =
        users.updated email (encode_base64 hash) (encode_base64 new_hash) reg_time id registered
          there in
      let row' = users.by_id email (encode_base64 hash) reg_time id registered there in
      let known = stored_hash-encode_base64 sha256 h id pwd reg_time in
      (
        registered,
        changed,
        rw (register_account, row) refl,
        rw (find_account-stored email pwd pwd reg_time id registered there)
            (rw (same_text_refl hash) refl),
        rw (find_account-stored email pwd other reg_time id registered there)
            (rw (same_text-ne _ hash ne) refl),
        rw (change_pwd, row') (rw known (rw (same_text-ne _ hash ne) refl)),
        rw (change_pwd, row') (rw known (rw (same_text_refl hash) refl)),
        rw (find_account-stored email new_pwd new_pwd reg_time id changed there')
            (rw (same_text_refl new_hash) refl),
        rw (find_account-stored email new_pwd pwd reg_time id changed there')
            (rw (same_text-ne hash new_hash ne') refl),
      )
