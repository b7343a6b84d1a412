-- ===== src/Tests/PoolTests.antt =====
-- The pool of connections, on concrete outcomes of the attempts to connect.
use drgb_server.Prelude.{ℕ, zero, suc, ◌+◌, ◌≡◌, refl, true, false, [], length}
use drgb_server.PostgresPool.{
  Pool, Attempt, opens, fails, throws, new, filled, slot_after, checked, get_connection, begun,
  nothing, lends, unreleased, get_connect_usage, get_pool_usage, open_count,
}
use drgb_server.PostgresPool.Slots.{
  World, IsAccounted, answered, asks, later, done, Steps-IsAccounted,
}

-- The first slot cannot connect at the start.
abbrev attempts : ℕ → Attempt
attempts zero = throws
attempts (suc i) = opens

abbrev pool : Pool
pool = new attempts 2

one_connected : get_connect_usage pool ≡ 1
unfolding get_connect_usage open_count new filled slot_after
one_connected = refl

reconnects : (get_connection opens true pool).0 ≡ lends 0
unfolding get_connection begun checked new filled slot_after
reconnects = refl

loses_slot : (get_connection opens false pool).0 ≡ unreleased 0
unfolding get_connection begun checked new filled slot_after
loses_slot = refl

still_broken : (get_connection throws true pool).0 ≡ nothing
unfolding get_connection checked new filled slot_after
still_broken = refl

abbrev idle : World
idle = record { pool = pool; lent = []; lost = [] }

abbrev lent_once : World
lent_once = answered idle (get_connection opens true idle.pool)

abbrev lost_one : World
lost_one = answered lent_once (get_connection fails false lent_once.pool)

Steps-IsAccounted_example :
    IsAccounted lost_one
    × (get_pool_usage lost_one.pool ≡ length lost_one.lent + length lost_one.lost)
Steps-IsAccounted_example =
    Steps-IsAccounted attempts 2 lost_one (later (asks opens true) (later (asks fails false) done))

sized : length pool.connection_pool ≡ pool.pool_size
unfolding new filled
sized = refl
