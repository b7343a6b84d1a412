-- ===== src/MatchService/Asking.antt =====
-- source/match/MatchServiceServer: `TransferMatch` with its waits.
-- What `Write` to a stream gives, and what the handlers do to the service until the wait is over, by
-- the answer or by RESPONSE_TIME, are arguments, by the id of the battle server that is asked.
use drgb_server.Prelude.{
  ℕ, zero, suc, Bool, Option, none, some, List, [], ◌∷◌, length, map, if◌then◌else◌,
}
use drgb_server.Map.Numbers.{nat_order}
use drgb_server.DeMap.{get_all}
use drgb_server.MatchService.{least, without}
use drgb_server.MatchService.Stream.{Service, accepted}

-- `GetAll`, without the streams themselves.
unfoldable pub candidates : Service → List (ℕ × ℕ)
candidates s = map (λ e. (e.0, e.2)) (get_all 0 s.streams).0

module _ (written : ℕ → Bool) (waited : ℕ → Service → Service) where
  -- One battle server is asked: the service behind it.
  unfoldable pub asked : ℕ → Service → Service
  asked id s =
      let reset = record s { recent_success = 4294967295 } in
      if written id then waited id reset else reset

  -- The loop, on fuel for the candidates.
  unfoldable pub asks : ℕ → List (ℕ × ℕ) → Service → Option ℕ × Service
  asks zero streams s = (none, s)
  asks (suc fuel) [] s = (none, s)
  asks (suc fuel) (c ∷ streams) s =
      let best = least c streams in
      let s' = asked best.0 s in
      let later = asks fuel (without best.0 (c ∷ streams)) s' in
      let answer = if accepted s' then (some best.0, s') else later in
      if written best.0 then answer else later

  unfoldable pub transfer : Service → Option ℕ × Service
  unfolding asks candidates
  transfer s = asks (length (candidates s)) (candidates s) s
