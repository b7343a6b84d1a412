-- ===== src/PostgresPool.antt =====
-- source/postgres/MyPostgresPool: a pool of connections to the database, lent to one user at a time.
-- The database is seen through `Attempt`, what an attempt to connect comes to, and through whether
-- a transaction begins on an open connection.
use drgb_server.Prelude.{
  ℕ, zero, suc, ◌+◌, ◌-◌, Bool, true, false, List, [], ◌∷◌, ◌++◌, if◌then◌else◌, length, get_or,
  set_at,
}
pub mod Slots

-- An entry of `connectionPool`: `nullptr`, or a connection and its `is_open()`.
pub data Slot : Type 0 where
  null_slot open_slot closed_slot : Slot

pub data Attempt : Type 0 where
  opens fails throws : Attempt

abbrev pub is_open : Slot → Bool
is_open open_slot = true
is_open _ = false

unfoldable pub slot_after : Attempt → Slot
slot_after opens = open_slot
slot_after fails = closed_slot
slot_after throws = null_slot

pub record Pool : Type 0 where
  pub is_running : Bool
  pub pool_size : ℕ
  pub connection_pool : List Slot
  pub wait_pool : List ℕ

-- The loop of the constructor; `attempts i` is the outcome for slot `i`.
unfoldable pub filled : (ℕ → Attempt) → ℕ → List Slot × List ℕ
filled attempts zero = ([], [])
filled attempts (suc i) =
    let (slots, waiting) = filled attempts i in
    (slots ++ (slot_after (attempts i) ∷ []), waiting ++ (i ∷ []))

unfoldable pub new : (ℕ → Attempt) → ℕ → Pool
new attempts size =
    let (slots, waiting) = filled attempts size in
    record { is_running = true; pool_size = size; connection_pool = slots; wait_pool = waiting }

-- The slot after the test of its connection, which is opened anew if it is not open.
unfoldable pub checked : Attempt → Slot → Slot
checked attempt slot = if is_open slot then slot else slot_after attempt

-- What a call of `GetConnection` comes to: `nullptr`, a `MyPostgres` on the slot, or the exception of
-- the constructor of `MyPostgres`, which leaves nobody who calls the callback of the slot.
pub data Lending : Type 0 where
  nothing : Lending
  lends unreleased : ℕ → Lending

-- `make_shared<MyPostgres>` behind the `pop`: its constructor begins a `pqxx::work`, or throws.
unfoldable pub begun : Bool → ℕ → Lending
begun begins ptr = if begins then lends ptr else unreleased ptr

-- `GetConnection` from the moment its wait ends: with no slot the time ran out or the pool stops.
unfoldable pub get_connection : Attempt → Bool → Pool → Lending × Pool
get_connection attempt begins p = elim p.wait_pool [
  | [] ↦ (nothing, p)
  | ptr ∷ waiting ↦
      let slot = checked attempt (get_or p.connection_pool ptr null_slot) in
      let q = record p { connection_pool = set_at p.connection_pool ptr slot } in
      if p.is_running
      then if is_open slot
        then (begun begins ptr, record q { wait_pool = waiting })
        else (nothing, q)
      else (nothing, p)
]

-- The callback with which a `MyPostgres` gives its slot back.
unfoldable pub give_back : ℕ → Pool → Pool
give_back ptr p = record p { wait_pool = p.wait_pool ++ (ptr ∷ []) }

unfoldable pub open_count : List Slot → ℕ
open_count [] = 0
open_count (slot ∷ slots) = (if is_open slot then 1 else 0) + open_count slots

unfoldable pub get_connect_usage : Pool → ℕ
get_connect_usage p = open_count p.connection_pool

unfoldable pub get_pool_usage : Pool → ℕ
get_pool_usage p = p.pool_size - length p.wait_pool
