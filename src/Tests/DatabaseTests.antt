-- ===== src/Tests/DatabaseTests.antt =====
-- Accounts and achievements in a database of one row.
use drgb_server.Prelude.{
  ℕ, suc, ◌+◌, ◌%◌, ◌≡◌, refl, subst, inl, inr, true, false, ◌&&◌, Bool-cases, none, some, List, [],
  ◌∷◌, ◌++◌, ◌==◌, ltb, leb, if◌then◌else◌, ok, arith,
}
use drgb_server.Encoder.{codes}
use drgb_server.ConfigParser.{same_text}
use drgb_server.Database.{
  Statements, get_pwd_hash, salted, register_account, find_account, change_pwd, archive_battle,
}
use drgb_server.Database.Password.{HasUsers, IsHash, register_account-find_account}
use drgb_server.Database.Progress.{HasCounts, repeated, repeated_once}
use drgb_server.SessionStore.Keys.{same_text_refl}
use drgb_server.Session.{sends, receives, err_no_match_account, req_login}
use drgb_server.AuthServer.{Outside, missing, exists, client_process, session_check}
use drgb_server.AuthServer.Login.{found_account, then_receives, client_process-registered}
use drgb_server.Tests.AuthTests.{zeros}

abbrev pub first_byte : List ℕ → ℕ
first_byte [] = 0
first_byte (b ∷ x) = b

-- A hash that keeps the first byte.
abbrev first_hash : List ℕ → List ℕ
first_hash x = (first_byte x % 256) ∷ zeros

first_hash-IsHash : IsHash first_hash
first_hash-IsHash = record { sized = λ x. refl; bytes = λ x. omega arith }

record Row : Type 0 where
  pub email : List ℕ
  pub id : ℕ
  pub hash : List ℕ
  pub time : List ℕ
  pub count : ℕ
  pub flags : ℕ

abbrev one_row : Statements Row
one_row = record {
  insert_user = λ email hash s.
      some ((1, codes "now"), record s { email = email; id = 1; hash = hash; time = codes "now" });
  update_hash = λ id hash s. if id == s.id then record s { hash = hash } else s;
  select_email = λ email s. if same_text email s.email then some (s.id, s.hash, s.time) else none;
  select_id = λ id s. if id == s.id then some (s.hash, s.time) else none;
  select_achieve = λ id achieve s. some (s.count, 3);
  increase_achieve = λ id achieve s. record s { count = suc s.count };
  write_achieve = λ id achieve c s. record s { count = c };
  update_nickname = λ id achieve s. s;
  insert_battle = λ winner looser flags s. record s { flags = flags };
}

one_row_inserted :
    (email temporary reg_time : List ℕ) (id : ℕ) (s s' : Row)
    → one_row.insert_user email temporary s ≡ some ((id, reg_time), s')
    → one_row.select_email email s' ≡ some (id, temporary, reg_time)
one_row_inserted email temporary reg_time id s s' h =
    let row = record s { email = email; id = 1; hash = temporary; time = codes "now" } in
    let same : row ≡ s' = cc h in
    let same_id : 1 ≡ id = cc h in
    let same_time : codes "now" ≡ reg_time = cc h in
    subst (λ r. one_row.select_email email r ≡ some (id, temporary, reg_time)) same
      (rw (same_text_refl email) (cc (same_id, same_time)))

module _ (email encoded reg_time : List ℕ) (id : ℕ) (s : Row)
    (h : one_row.select_email email s ≡ some (id, encoded, reg_time)) where
  one_row_by_id : one_row.select_id id s ≡ some (encoded, reg_time)
  one_row_by_id = elim (Bool-cases (same_text email s.email)) [
    | inl e ↦ let h' = rw e at h in ground arith
    | inr e ↦ cc (rw e at h)
  ]

  one_row_updated :
      (new : List ℕ)
      → one_row.select_email email (one_row.update_hash id new s) ≡ some (id, new, reg_time)
  one_row_updated new = elim (Bool-cases (same_text email s.email)) [
    | inl e ↦
        let h' = rw e at h in
        let same : (id == s.id) ≡ true = ground arith in rw same (rw e (ground arith))
    | inr e ↦ cc (rw e at h)
  ]

one_row-HasUsers : HasUsers one_row
one_row-HasUsers = record {
  inserted = one_row_inserted;
  by_id = one_row_by_id;
  updated = λ email encoded new reg_time id s h. one_row_updated email encoded reg_time id s h new;
}

one_row-HasCounts : HasCounts one_row
one_row-HasCounts = record { increased = λ id achieve count require s h. cc h }

abbrev empty_row : Row
empty_row = record { email = []; id = 0; hash = []; time = []; count = 1; flags = 0 }

repeated_once_example :
    (s' : Row) × (repeated one_row 4 1 6 empty_row
      ≡ ok ((if ltb 1 3 && leb 3 (1 + 4) then 1 else 0), s'))
    × (one_row.select_achieve 1 6 s'
        ≡ some ((if ltb 1 3 then (if leb 3 (1 + 4) then 3 else 1 + 4) else 1), 3))
repeated_once_example = repeated_once one_row one_row-HasCounts 4 1 6 1 3 empty_row refl

crashed_draw : (archive_battle one_row 1 2 true true empty_row).flags ≡ 3
unfolding archive_battle
crashed_draw = refl

abbrev alice : List ℕ
alice = codes "a"

abbrev inserted_row : Row
inserted_row = record empty_row { email = alice; id = 1; hash = codes "tmp"; time = codes "now" }

register_account-find_account_example :
    (registered : Row) × (changed : Row) × (register_account one_row first_hash
        (codes "tmp")
        alice
        (1 ∷ zeros)
        empty_row
      ≡ ok (1, registered))
    × (find_account one_row first_hash alice (1 ∷ zeros) registered ≡ ok 1)
    × (find_account one_row first_hash alice (3 ∷ zeros) registered ≡ ok 0)
    × (change_pwd one_row first_hash 1 (3 ∷ zeros) (2 ∷ zeros) registered ≡ ok (false, registered))
    × (change_pwd one_row first_hash 1 (1 ∷ zeros) (2 ∷ zeros) registered ≡ ok (true, changed))
    × (find_account one_row first_hash alice (2 ∷ zeros) changed ≡ ok 1)
    × (find_account one_row first_hash alice (1 ∷ zeros) changed ≡ ok 0)
unfolding get_pwd_hash salted
register_account-find_account_example =
    register_account-find_account one_row one_row-HasUsers first_hash first_hash-IsHash
      (codes "tmp") alice (1 ∷ zeros) (2 ∷ zeros) (3 ∷ zeros) (codes "now") 1 empty_row inserted_row
      refl (λ e. cc e) (λ e. cc e)

-- An authentication server that uses the same hash.
abbrev quiet : Outside
quiet = record {
  info = λ id. missing;
  taken = λ cookie. false;
  stores = λ id cookie. true;
  sha256 = first_hash;
  now = [];
}

client_process-registered_example :
    (registered : Row) × (register_account one_row first_hash
        (codes "tmp")
        alice
        (1 ∷ zeros)
        empty_row
      ≡ ok (1, registered))
    × let finds = λ (address : List ℕ) (shown : List ℕ).
      found_account (find_account one_row first_hash address shown registered) in
      (client_process true quiet 5 90
          (λ address shown. exists)
          finds
          (some (req_login ∷ ((1 ∷ zeros) ++ alice)))
        ≡ then_receives 90 (session_check true quiet 5 90 1))
      × (client_process true quiet 5 90
            (λ address shown. exists)
            finds
            (some (req_login ∷ ((2 ∷ zeros) ++ alice)))
          ≡ some (sends 90 (err_no_match_account ∷ []) ∷ receives 90 ∷ []))
unfolding get_pwd_hash salted
client_process-registered_example =
    client_process-registered one_row one_row-HasUsers true quiet first_hash-IsHash (codes "tmp")
      (1 ∷ zeros) (2 ∷ zeros) [] (codes "now") 97 0 5 90 empty_row inserted_row
      (λ address shown. exists) refl (λ e. cc e) refl refl (omega arith)
