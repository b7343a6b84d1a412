-- ===== src/SessionStore/Link.antt =====
-- source/redis/MyRedis: connecting to Redis and closing the connection.
-- The context of hiredis is its error, 0 for none; `freed` counts the contexts that are freed.
use drgb_server.Prelude.{ℕ, suc, Bool, false, Option, none, some, ◌==◌, if◌then◌else◌}
use drgb_server.SessionStore.{Failure, closed, context}

pub record Link : Type 0 where
  pub ctx : Option ℕ
  pub freed : ℕ

unfoldable pub close_link : Link → Link
close_link l = elim l.ctx [ none ↦ l | some _ ↦ record { ctx = none; freed = suc l.freed } ]

-- What `redisConnectWithOptions` gives is the argument; `none` is the result SUCCESS.
unfoldable pub connect : Option ℕ → Link → Option Failure × Link
unfolding close_link
connect none l = (some closed, record (close_link l) { ctx = none })
connect (some error) l =
    (if error == 0 then none else some context, record (close_link l) { ctx = some error })

unfoldable pub is_open : Link → Bool
is_open l = elim l.ctx [ none ↦ false | some error ↦ error == 0 ]
