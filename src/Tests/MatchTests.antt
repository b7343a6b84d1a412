-- ===== src/Tests/MatchTests.antt =====
-- The match maker on concrete queues. The tests count in thousandths where the program has doubles.
use drgb_server.Prelude.{
  ℕ, ◌+◌, ◌-◌, ◌*◌, ◌/◌, ◌≡◌, refl, true, List, [], ◌∷◌, ◌++◌, map, All, leb, ltb, ◌==◌,
  if◌then◌else◌,
}
use drgb_server.MatchMaker.{
  Doubles, Element, MatchMaker, element, enter, process, ratio, less, in_coverage, is_matchable,
  insert_queue, partner, pair_up, rated, waited,
}
use drgb_server.MatchMaker.Pairs.{IsSettled, process_settles}
use drgb_server.MatchMaker.Waiting.{waiting, matched, process-waiting}

abbrev pub thousandths : Doubles ℕ
thousandths = record {
  of_int = λ n. n * 1000;
  quotient = λ a b. a * 1000 / b;
  times = λ a b. a * b / 1000;
  distance = λ a b. (a - b) + (b - a);
  max_of = λ a b. if leb a b then b else a;
  is_equal = ◌==◌;
  is_less = ltb;
  is_at_most = leb;
}

-- Three players that win half, nearly all and nothing of their games.
abbrev three : MatchMaker
three = enter thousandths (element 7 10 0 10) (
    enter thousandths (element 8 19 0 1)
      (enter thousandths (element 9 0 0 30) (record { wait_queue = []; match_queue = [] })))

abbrev newcomer : Element
newcomer = element 3 0 0 0

nobody_near : (process thousandths 100 three).match_queue ≡ []
unfolding enter insert_queue less ratio element process pair_up partner is_matchable in_coverage
    rated
nobody_near = refl

-- A player without games is matched at once.
newcomer_matched :
    map (λ m. m.1.id) (process thousandths 100 (enter thousandths newcomer three)).match_queue
    ≡ 9 ∷ []
unfolding enter insert_queue less ratio element process pair_up partner is_matchable in_coverage
    rated
newcomer_matched = refl

process_settles_example :
    (matches : List (Element × Element)) × (left : List Element) × (process thousandths 100 three
      ≡ record { wait_queue = map waited left; match_queue = three.match_queue ++ matches })
    × All (λ p. is_matchable thousandths 100 p.0 p.1 ≡ true) matches
    × IsSettled thousandths 100 left
process_settles_example = process_settles thousandths 100 three

process-waiting_example :
    waiting 7 (process thousandths 100 three).wait_queue
      + matched 7 (process thousandths 100 three).match_queue
    ≡ waiting 7 three.wait_queue + matched 7 three.match_queue
process-waiting_example = process-waiting thousandths 100 7 three
