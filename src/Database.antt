-- ===== src/Database.antt =====
-- source/postgres/MyPostgres: accounts, passwords and achievements over SQL statements.
-- The statements are parameters: `Statements` has one field for each. sha256 is a parameter too. A
-- statement on a row that is not there is an exception, which leaves the transaction aborted.
use drgb_server.Prelude.{
  ℕ, zero, suc, ◌+◌, ◌-◌, ◌*◌, ◌%◌, ◌^◌, Bool, true, false, Option, none, some, List, [], ◌∷◌, ◌++◌,
  ◌==◌, ltb, leb, if◌then◌else◌, length, take, Result, ok, err,
}
use drgb_server.ConfigParser.{same_text}
use drgb_server.Encoder.{encode_base64, decode_base64, DecodeError}
pub mod Password
pub mod Progress

-- How a method ends by an exception.
pub data DbError : Type 0 where
  -- `exec_params1` with no row, or a broken constraint
  failed : DbError
  undecoded : DecodeError → DbError
  -- "Hash in DB size doesn't match"
  wrong_size : DbError

pub record Statements (S : Type 0) : Type 0 where
  -- INSERT INTO userlist: the id and the time of registration
  pub insert_user : List ℕ → List ℕ → S → Option ((ℕ × List ℕ) × S)
  -- UPDATE userlist SET pwd_hash
  pub update_hash : ℕ → List ℕ → S → S
  -- SELECT id, pwd_hash, register_time, by the email
  pub select_email : List ℕ → S → Option (ℕ × List ℕ × List ℕ)
  -- SELECT pwd_hash, register_time, by the id
  pub select_id : ℕ → S → Option (List ℕ × List ℕ)
  -- the count of an achievement, and the one that is required
  pub select_achieve : ℕ → ℕ → S → Option (ℕ × ℕ)
  -- INSERT INTO user_achievement, or add 1 to the count
  pub increase_achieve : ℕ → ℕ → S → S
  -- INSERT INTO user_achievement, or write the count
  pub write_achieve : ℕ → ℕ → ℕ → S → S
  pub update_nickname : ℕ → ℕ → S → S
  -- INSERT INTO battlelog, with the winner, the looser and the flags
  pub insert_battle : ℕ → ℕ → ℕ → S → S

-- The loop of `GetPwdHash`.
unfoldable pub salted : (List ℕ → List ℕ) → List ℕ → ℕ → List ℕ → List ℕ
salted sha256 salt zero result = result
salted sha256 salt (suc n) result = salted sha256 salt n (sha256 (result ++ salt))

unfoldable pub get_pwd_hash : (List ℕ → List ℕ) → ℕ → List ℕ → List ℕ → List ℕ
get_pwd_hash sha256 id pwd reg_time = salted sha256 reg_time (2 ^ (id % 17)) pwd

-- The hash that is stored, as the 32 bytes that it encodes.
unfoldable pub stored_hash : List ℕ → Result DbError (List ℕ)
stored_hash encoded = elim (decode_base64 encoded) [
  | err e ↦ err (undecoded e)
  | ok decoded ↦ if ltb (length decoded) 32 then err wrong_size else ok (take 32 decoded)
]

module _ {S : Type 0} (db : Statements S) (sha256 : List ℕ → List ℕ) where
  -- `temporary` is the text that stands for the hash until it is known.
  unfoldable pub register_account : List ℕ → List ℕ → List ℕ → S → Result DbError (ℕ × S)
  register_account temporary email pwd s = elim (db.insert_user email temporary s) [
    | none ↦ err failed
    | some ((id, reg_time), s') ↦
        ok (id, db.update_hash id (encode_base64 (get_pwd_hash sha256 id pwd reg_time)) s')
  ]

  unfoldable pub find_account : List ℕ → List ℕ → S → Result DbError ℕ
  find_account email pwd s = elim (db.select_email email s) [
    | none ↦ err failed
    | some (id, encoded, reg_time) ↦ elim (stored_hash encoded) [
      | err e ↦ err e
      | ok answer ↦ ok (if same_text (get_pwd_hash sha256 id pwd reg_time) answer then id else 0)
    ]
  ]

  unfoldable pub change_pwd : ℕ → List ℕ → List ℕ → S → Result DbError (Bool × S)
  change_pwd id old_pwd new_pwd s = elim (db.select_id id s) [
    | none ↦ err failed
    | some (encoded, reg_time) ↦ elim (stored_hash encoded) [
      | err e ↦ err e
      | ok answer ↦
          let new = encode_base64 (get_pwd_hash sha256 id new_pwd reg_time) in
          ok (
            if same_text (get_pwd_hash sha256 id old_pwd reg_time) answer
            then (true, db.update_hash id new s)
            else (false, s))
    ]
  ]

module _ {S : Type 0} (db : Statements S) where
  unfoldable pub set_nick_name : ℕ → ℕ → S → Result DbError (Bool × S)
  set_nick_name id achieve s = elim (db.select_achieve id achieve s) [
    | none ↦ err failed
    | some (count, goal) ↦
        ok (if ltb count goal then (false, s) else (true, db.update_nickname id achieve s))
  ]

  -- `Achieve`; the commit ends the transaction, and the state holds what was written.
  unfoldable pub achieved : ℕ → ℕ → S → Result DbError (Bool × S)
  achieved id achieve s = elim (db.select_achieve id achieve s) [
    | none ↦ err failed
    | some (count, require) ↦ ok (
        if ltb count require
        then (require - count == 1, db.increase_achieve id achieve s)
        else (false, s))
  ]

  unfoldable pub achieve_progressed : ℕ → ℕ → ℕ → S → Result DbError (Bool × S)
  achieve_progressed id achieve c s = elim (db.select_achieve id achieve s) [
    | none ↦ err failed
    | some (count, require) ↦
        let c' = if ltb c require then c else require in
        let progress =
          if ltb count c then (leb require c', db.write_achieve id achieve c' s) else (false, s) in
        ok (if ltb count require then progress else (false, s))
  ]

  unfoldable pub archive_battle : ℕ → ℕ → Bool → Bool → S → S
  archive_battle winner looser draw crashed s =
      db.insert_battle winner looser ((if draw then 2 else 0) + (if crashed then 1 else 0)) s
