-- ===== src/Tests/BalanceTests.antt =====
-- The choice of a battle server on concrete usages.
use drgb_server.Prelude.{ℕ, ◌≡◌, refl, Bool, true, some, List, ◌==◌, if◌then◌else◌}
use drgb_server.Map
use drgb_server.Map.{assign, subscript, find}
use drgb_server.Map.Numbers.{nat_order}
use drgb_server.DeMap
use drgb_server.DeMap.{get_all, get_all_from}
use drgb_server.MatchService.{least, without}
use drgb_server.MatchService.Stream.{Service, accepted}
use drgb_server.MatchService.Asking.{candidates, asked, asks, transfer}
use drgb_server.MatchService.Refusals.{Refusals, IsLast, transfer-Refusals}

-- Three battle servers, of which the second is the least loaded.
abbrev three_streams : Service
three_streams = record {
  streams = (DeMap.insert 3 30 4 (DeMap.insert 2 20 0 (DeMap.insert 1 10 7 DeMap.new).1).1).1;
  recent_success = 4294967295;
}

abbrev everyone : ℕ → Bool
everyone id = true

-- The second server does not answer.
abbrev all_but_two : ℕ → Service → Service
all_but_two id s = if id == 2 then s else record s { recent_success = 1 }

third : (transfer everyone all_but_two three_streams).0 ≡ some 3
unfolding transfer asks candidates asked accepted least without get_all get_all_from DeMap.insert
    DeMap.new Map.insert find assign subscript
third = refl

transfer-Refusals_example :
    (rest : List (ℕ × ℕ)) × (s' : Service) × Refusals everyone all_but_two
      (candidates three_streams)
      three_streams
      rest
      s'
    × IsLast everyone all_but_two rest s' (transfer everyone all_but_two three_streams)
transfer-Refusals_example = transfer-Refusals everyone all_but_two three_streams
