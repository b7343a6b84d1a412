-- ===== src/MatchService/Rounds.antt =====
-- source/match/MatchServiceServer: how a stream is stored, and one round of its handler.
use drgb_server.Prelude.{
  ℕ, ◌<◌, ◌≡◌, refl, inl, inr, false, Option, none, some, List, ◌∷◌, leb, arith,
}
use drgb_server.Map.{find, assign}
use drgb_server.Map.Numbers.{nat_order}
use drgb_server.DeMap
use drgb_server.DeMap.{DeMap}
use drgb_server.DeMap.Pairing.{IsPaired, added}
use drgb_server.DeMap.Keys.{Entry, find_lkey_cases, insert-added, Entry-insert_lkey_value}
use drgb_server.MatchService.Stream.{
  Service, reading, arriving, opening, named, handle, loop, session_stream, identified, answer_read,
  usage_read,
}

-- A round of the loop, on a stream that is stored.
pub loop_round :
    (stream id old answer usage : ℕ) (messages : List (Option ℕ)) (s : Service)
    → Entry s.streams id stream old
    → loop stream (reading id, s) (some answer ∷ some usage ∷ messages)
      ≡ loop stream
          (
            reading id,
            record {
              streams = record s.streams { kvm = assign id usage s.streams.kvm };
              recent_success = answer;
            },
          )
          messages
unfolding loop handle answer_read usage_read
loop_round stream id old answer usage messages s entry =
    rw (Entry-insert_lkey_value id stream old usage s.streams entry) refl

arrives :
    (stream : ℕ) (s : Service)
    → DeMap.size s.streams < 2147483646
    → handle stream arriving none s ≡ (opening, s)
unfolding handle
arrives stream s room =
    let fits : leb 2147483646 (DeMap.size s.streams) ≡ false = ground arith in rw fits refl

opens :
    (stream id : ℕ) (s : Service)
    → IsPaired s.streams
    → find id s.streams.lrm ≡ none
    → handle stream opening (some id) s ≡ (named id, s)
unfolding handle identified
opens stream id s p free = elim (find_lkey_cases 0 id s.streams p) [
  | inl (_, _, (there, _, _), _) ↦ cc
  | inr (_, e) ↦ rw e refl
]

stores :
    (stream id : ℕ) (s : Service)
    → find id s.streams.lrm ≡ none
    → find stream s.streams.rlm ≡ none
    → handle stream (named id) none s
      ≡ (reading id, record s { streams = added id stream 0 s.streams })
unfolding handle
stores stream id s free free' = rw (insert-added id stream 0 s.streams free free') refl

pub session_stream-loop :
    (stream id : ℕ) (messages : List (Option ℕ)) (s : Service)
    → IsPaired s.streams
    → DeMap.size s.streams < 2147483646
    → find id s.streams.lrm ≡ none
    → find stream s.streams.rlm ≡ none
    → session_stream stream (some id) messages s
      ≡ loop stream (reading id, record s { streams = added id stream 0 s.streams }) messages
unfolding session_stream
session_stream-loop stream id messages s p room free free' =
    rw (arrives stream s room)
      (rw (opens stream id s p free) (rw (stores stream id s free free') refl))
