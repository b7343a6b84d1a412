-- ===== src/MatchService/Stream.antt =====
-- source/match/MatchServiceServer: `SessionStream`, the stream of one battle server.
-- Each stream has a handler, here a phase of it; what `Read` gives is a message or `none` for a
-- stream that broke. A stream is known by a number in place of its address. The usage of a message
-- has 32 bits, and `Seed_t` and `Recent_Success` are their patterns (-1 is 2 ^ 32 - 1), so ids are
-- those of numbers below 2 ^ 31 in their order.
use drgb_server.Prelude.{ℕ, Bool, ◌&&◌, Option, none, some, List, [], ◌∷◌, leb, ltb, if◌then◌else◌}
use drgb_server.Map.Numbers.{nat_order}
use drgb_server.DeMap
use drgb_server.DeMap.{DeMap, find_lkey, insert_lkey_value, erase_lkey}

pub record Service : Type 0 where
  pub streams : DeMap ℕ ℕ ℕ
  pub recent_success : ℕ

unfoldable pub new : Service
new = record { streams = DeMap.new; recent_success = 4294967295 }

pub data Status : Type 0 where
  good : Status
  resource_exhausted : Status
  cancelled : Status
  already_exists : Status

-- Where the handler of a stream stands.
pub data Phase : Type 0 where
  arriving : Phase
  -- before the first `Read`
  opening : Phase
  -- the id is free, and not stored yet
  named : ℕ → Phase
  -- before the first `Read` of a round
  reading : ℕ → Phase
  -- before the second one, which holds the mutex
  answering : ℕ → Phase
  finished : Status → Phase

-- The end of the handler: its stream is not stored any more.
unfoldable pub unstored : ℕ → Service → Phase × Service
unstored id s = (finished good, record s { streams = (erase_lkey 0 id s.streams).1 })

-- The first message, which is the id.
unfoldable pub identified : Option ℕ → Service → Phase × Service
identified none s = (finished cancelled, s)
identified (some id) s =
    let (found, streams) = find_lkey 0 id s.streams in
    (
      elim found [ none ↦ named id | some _ ↦ finished already_exists ],
      record s { streams = streams },
    )

-- The answer to a transfer.
unfoldable pub answer_read : ℕ → Option ℕ → Service → Phase × Service
unfolding unstored
answer_read id none s = unstored id s
answer_read id (some answer) s = (answering id, record s { recent_success = answer })

-- The usage behind it.
unfoldable pub usage_read : ℕ → Option ℕ → Service → Phase × Service
unfolding unstored
usage_read id none s = unstored id (record s { recent_success = 0 })
usage_read id (some usage) s =
    (reading id, record s { streams = (insert_lkey_value id usage s.streams).1 })

-- One part of the handler of `stream`, from one call on the shared state to the next. `message` is
-- what `Read` gives, in the phases that read.
unfoldable pub handle : ℕ → Phase → Option ℕ → Service → Phase × Service
unfolding identified answer_read usage_read
handle stream arriving message s =
    ((if leb 2147483646 (DeMap.size s.streams) then finished resource_exhausted else opening), s)
handle stream opening message s = identified message s
handle stream (named id) message s =
    (reading id, record s { streams = (DeMap.insert id stream 0 s.streams).1 })
handle stream (reading id) message s = answer_read id message s
handle stream (answering id) message s = usage_read id message s
handle stream (finished status) message s = (finished status, s)

-- The loop of the handler, on the messages that come, with no other handler between.
unfoldable pub loop : ℕ → Phase × Service → List (Option ℕ) → Phase × Service
unfolding handle
loop stream (phase, s) [] = (phase, s)
loop stream (phase, s) (message ∷ messages) = loop stream (handle stream phase message s) messages

-- The whole handler.
unfoldable pub session_stream : ℕ → Option ℕ → List (Option ℕ) → Service → Phase × Service
session_stream stream first messages s =
    let (phase, s') = handle stream arriving none s in
    let (phase', s'') = handle stream phase first s' in
    loop stream (handle stream phase' none s'') messages

-- The test behind the wait for the answer: `Recent_Success >= 1`
unfoldable pub accepted : Service → Bool
accepted s = leb 1 s.recent_success && ltb s.recent_success 2147483648

unfoldable pub get_stream_usage : Service → ℕ
get_stream_usage s = DeMap.size s.streams
