-- ===== src/MatchService.antt =====
-- source/match/MatchServiceServer: the choice of a battle server for a match.
-- A stream is the id of its battle server and the usage that it told last.
use drgb_server.Prelude.{
  ℕ, zero, suc, Bool, true, false, Option, none, some, List, [], ◌∷◌, ltb, ◌==◌, if◌then◌else◌,
  length, map,
}
pub mod Balance
pub mod Stream
pub mod Rounds
pub mod Reports
pub mod Worlds
pub mod Handlers
pub mod Asking
pub mod Refusals

-- `std::min_element`: the first of the least.
unfoldable pub least : ℕ × ℕ → List (ℕ × ℕ) → ℕ × ℕ
least best [] = best
least best (s ∷ streams) = least (if ltb s.1 best.1 then s else best) streams

-- `vec.erase`
unfoldable pub without : ℕ → List (ℕ × ℕ) → List (ℕ × ℕ)
without id [] = []
without id (s ∷ streams) = let rest = without id streams in if s.0 == id then rest else s ∷ rest

unfoldable pub get_streams : List (ℕ × ℕ) → List ℕ
get_streams streams = map (λ s. s.0) streams
