-- ===== src/MatchMaker.antt =====
-- source/match/MyMatchMaker: the queue of waiting players, and the matches made of it.
-- `std::set` is a list in its order. The counts of a player are not negative. `double` is a
-- parameter: its operations stand in `Doubles`.
use drgb_server.Prelude.{
  ℕ, zero, suc, ◌+◌, Bool, true, false, ◌&&◌, ◌||◌, Option, none, some, List, [], ◌∷◌, ◌++◌, map,
  ltb, leb, ◌==◌, if◌then◌else◌, length,
}
pub mod Pairs
pub mod Waiting

-- The operations of `double` that the match maker calls.
pub record Doubles {ℓ} (D : Type ℓ) : Type ℓ where
  pub of_int : ℕ → D
  pub quotient : D → D → D
  pub times : D → D → D
  pub distance : D → D → D
  pub max_of : D → D → D
  pub is_equal : D → D → Bool
  pub is_less : D → D → Bool
  pub is_at_most : D → D → Bool

-- `queue_element`
pub record Element : Type 0 where
  pub id : ℕ
  pub win : ℕ
  pub draw : ℕ
  pub loose : ℕ
  pub wait_count : ℕ

unfoldable pub element : ℕ → ℕ → ℕ → ℕ → Element
element id win draw loose = record {
  id = id;
  win = win;
  draw = draw;
  loose = loose;
  wait_count = 1;
}

abbrev pub empty_element : Element
empty_element = record { id = 0; win = 0; draw = 0; loose = 0; wait_count = 1 }

abbrev pub games : Element → ℕ
games e = e.win + e.loose + e.draw

-- What `ratio()` does to its element: a player without games gets a wait count of 10.
unfoldable pub rated : Element → Element
rated e = if games e == 0 then record e { wait_count = 10 } else e

unfoldable pub waited : Element → Element
waited e = record e { wait_count = suc e.wait_count }

pub record MatchMaker : Type 0 where
  pub wait_queue : List Element
  pub match_queue : List (Element × Element)

unfoldable pub exit_queue : ℕ → List Element → List Element
exit_queue id [] = []
exit_queue id (e ∷ queue) = let rest = exit_queue id queue in if e.id == id then queue else e ∷ rest

unfoldable pub exit : ℕ → MatchMaker → MatchMaker
exit id m = record m { wait_queue = exit_queue id m.wait_queue }

unfoldable pub is_there_match : MatchMaker → Bool
is_there_match m = elim m.match_queue [ [] ↦ false | _ ∷ _ ↦ true ]

unfoldable pub get_match : MatchMaker → Element × Element
get_match m = elim m.match_queue [ [] ↦ (empty_element, empty_element) | pair ∷ _ ↦ pair ]

unfoldable pub pop_match : MatchMaker → MatchMaker
pop_match m = elim m.match_queue [ [] ↦ m | _ ∷ rest ↦ record m { match_queue = rest } ]

unfoldable pub size : MatchMaker → ℕ
size m = length m.wait_queue

module _ {ℓ} {D : Type ℓ} (double : Doubles D) where
  unfoldable pub ratio : Element → D
  ratio e =
      double.quotient (double.of_int e.win) (double.of_int (if games e == 0 then 1 else games e))

  unfoldable pub less : Element → Element → Bool
  less a b =
      if double.is_equal (ratio a) (ratio b)
      then ltb a.id b.id
      else double.is_less (ratio a) (ratio b)

  -- `insert` of the set, which keeps an equivalent element. Its comparisons call `ratio()` too; the
  -- wait count of a player without games is not read before the next such call.
  unfoldable pub insert_queue : Element → List Element → List Element
  insert_queue e [] = e ∷ []
  insert_queue e (f ∷ queue) =
      let rest = insert_queue e queue in
      if less e f then e ∷ f ∷ queue else if less f e then f ∷ rest else f ∷ queue

  unfoldable pub enter : Element → MatchMaker → MatchMaker
  enter e m = if e.id == 0 then m else record m { wait_queue = insert_queue e m.wait_queue }

module _ {ℓ} {D : Type ℓ} (double : Doubles D) (interpolate : D) where
  -- `isMatchable` on elements that `ratio()` has seen
  unfoldable pub in_coverage : Element → Element → Bool
  in_coverage a b = double.is_at_most (double.distance (ratio double a) (ratio double b)) (
      double.max_of (double.times (double.of_int a.wait_count) interpolate)
        (double.times (double.of_int b.wait_count) interpolate))

  unfoldable pub is_matchable : Element → Element → Bool
  is_matchable a b = in_coverage (rated a) (rated b)

  -- The inner loop of `Process`: the first partner for `i`, and what `ratio()` leaves of `i` and of
  -- the others.
  unfoldable pub partner : Element → List Element → Option Element × Element × List Element
  partner i [] = (none, i, [])
  partner i (j ∷ queue) =
      let (found, i', rest) = partner (rated i) queue in
      if is_matchable i j then (some (rated j), rated i, queue) else (found, i', rated j ∷ rest)

  -- The outer loop, on fuel: the matches, and the players that are left.
  unfoldable pub pair_up : ℕ → List Element → List (Element × Element) × List Element
  pair_up zero queue = ([], queue)
  pair_up (suc fuel) [] = ([], [])
  pair_up (suc fuel) (i ∷ queue) =
      let (found, i', rest) = partner i queue in
      let (matches, left) = pair_up fuel rest in
      elim found [ none ↦ (matches, i' ∷ left) | some j ↦ ((i', j) ∷ matches, left) ]

  unfoldable pub process : MatchMaker → MatchMaker
  process m =
      let (matches, left) = pair_up (length m.wait_queue) m.wait_queue in
      record { wait_queue = map waited left; match_queue = m.match_queue ++ matches }
