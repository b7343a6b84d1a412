-- ===== src/Tests/StreamTests.antt =====
-- Battle servers on their streams, and the thread that waits for exceptions.
use drgb_server.Prelude.{ℕ, suc, ◌<◌, ◌%◌, ◌≡◌, refl, true, none, some, List, [], ◌∷◌, ◌++◌, arith}
use drgb_server.Map
use drgb_server.Map.{find}
use drgb_server.Map.Numbers.{nat_order}
use drgb_server.DeMap
use drgb_server.DeMap.{find_lkey, insert_lkey_value}
use drgb_server.DeMap.Pairing.{new-IsPaired}
use drgb_server.DeMap.Keys.{Entry}
use drgb_server.MatchService.Stream.{new, handle, reading, session_stream, identified}
use drgb_server.MatchService.Reports.{
  Request, transfers, sent, told_usage, last_answer, Others, session_stream-transfers,
}
use drgb_server.MatchService.Worlds
use drgb_server.MatchService.Worlds.{IsOpen, World, stepped, goes_on}
use drgb_server.MatchService.Handlers.{beginning, Steps-IsOpen}
use drgb_server.Threads
use drgb_server.Threads.{is_ready, pushed}
use drgb_server.Threads.Waiting
use drgb_server.Threads.Waiting.{
  waits, tests_false, sleeps, throws, stops, notifies, asleep, Steps-wake,
}
use drgb_server.Tests.BattleTests.{idle}

-- A request for two players that Redis does not know, and one for no player.
abbrev two_requests : List (Request ℕ)
two_requests =
    record { lpid = 21; rpid = 22; lpresult = none; rpresult = none; infos = none }
    ∷ record { lpid = 0; rpid = 22; lpresult = none; rpresult = none; infos = none }
    ∷ []

new-Stream-IsPaired : DeMap.Pairing.IsPaired new.streams
unfolding new
new-Stream-IsPaired = new-IsPaired

session_stream-transfers_example :
    (told_usages : List ℕ) × ((transfers two_requests idle).usages ≡ idle.usages ++ told_usages)
    × let r = session_stream 70 (some 3) (sent told_usages) new in
      (r.0 ≡ reading 3)
      × Entry r.1.streams 3 70 (
          told_usage two_requests 0
            (DeMap.size (transfers two_requests idle).sessions % 4294967296))
      × (r.1.recent_success ≡ last_answer new.recent_success told_usages)
      × Others 3 new.streams r.1.streams
unfolding new DeMap.new DeMap.size find
session_stream-transfers_example =
    session_stream-transfers 70 3 two_requests idle new new-IsPaired (omega arith) refl refl

-- The stream 70 comes and tells the id 3, which is stored.
abbrev came : World
came = stepped 70 (handle 70 (beginning.phases 70) none beginning.service) beginning

abbrev told_id : World
told_id = stepped 70 (handle 70 (came.phases 70) (some 3) came.service) came

abbrev stored_id : World
stored_id = stepped 70 (handle 70 (told_id.phases 70) none told_id.service) told_id

Steps-IsOpen_example :
    IsOpen 3 (stored_id.phases 70)
    × ((id' : ℕ) → find id' stored_id.service.streams.lrm ≡ some 70 → id' ≡ 3)
unfolding stepped handle identified new DeMap.new DeMap.insert DeMap.size find_lkey find Map.insert
Steps-IsOpen_example =
    Steps-IsOpen
      (Worlds.later (goes_on 70 none)
        (Worlds.later (goes_on 70 (some 3)) (Worlds.later (goes_on 70 none) Worlds.done)))
      3 70 refl

-- A thread sleeps, and an exception comes.
abbrev sleeping : Waiting.World
sleeping = record Waiting.beginning { waiter = asleep }

abbrev thrown : Waiting.World
thrown = record sleeping { handler = pushed 9 sleeping.handler; notifiers = suc sleeping.notifiers }

Steps-wake_example : 0 < thrown.notifiers
unfolding is_ready pushed Threads.new
Steps-wake_example =
    Steps-wake {w = thrown}
      (Waiting.later (waits refl) (
        Waiting.later (tests_false refl refl)
          (Waiting.later (sleeps refl) (Waiting.later (throws 9 (λ h. h)) Waiting.done))))
      refl (λ e. cc e)

-- The flag is set, and its notification sent, between the test and the sleep: nothing wakes the thread.
abbrev missed : Waiting.World
missed = record sleeping { handler = record sleeping.handler { is_gracefully_stop = true } }

stop_missed : Waiting.Steps Waiting.beginning missed
unfolding is_ready Threads.new
stop_missed = Waiting.later (waits refl) (
    Waiting.later (tests_false refl refl) (
      Waiting.later stops
        (Waiting.later (notifies (omega arith)) (Waiting.later (sleeps refl) Waiting.done))))
