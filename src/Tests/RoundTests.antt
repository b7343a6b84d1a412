-- ===== src/Tests/RoundTests.antt =====
-- The timer of a battle whose player 22 has not come.
use drgb_server.Prelude.{
  ℕ, ◌≡◌, refl, ◌⊎◌, true, false, get_elem?, arith, Option, none, some, List, [], ◌∷◌, ◌==◌,
}
use drgb_server.Encoder.{codes}
use drgb_server.Map
use drgb_server.Map.{find}
use drgb_server.Map.Numbers.{nat_order}
use drgb_server.Map.Bytes.{bytes_order, compare_bytes}
use drgb_server.DeMap
use drgb_server.DeMap.{DeMap}
use drgb_server.DeMap.Pairing.{IsPaired, new-IsPaired, added, added-IsPaired}
use drgb_server.Game
use drgb_server.GameInfo.{GameInfo}
use drgb_server.BattleServer.{Battle}
use drgb_server.BattleServer.Finish.{Database}
use drgb_server.BattleServer.Ticks.{int_word, tick}
use drgb_server.Prelude.Int.{negsuc}
use drgb_server.BattleServer.Client.{admitted, turned_back}
use drgb_server.BattleServer.Seating.{IsHosted, IsHere, IsSeated, seating_cases}
use drgb_server.DeMap.Keys.{Entry}
use drgb_server.Session.{Effect, rejected, err_no_match_account}
use drgb_server.BattleServer.Course.{Outcomes, tick_cases}

minus_one : int_word (negsuc 0) ≡ 4294967295
unfolding int_word
minus_one = refl

abbrev two_seats : DeMap ℕ ℕ (Option ℕ)
two_seats = added 22 1 none (added 21 0 (some 5) DeMap.new)

abbrev battle_room : GameInfo
battle_room = record {
  game = Game.new;
  timer = 3;
  cancels = 1;
  session = two_seats;
  player_infos = [];
  previous_all_in = false;
}

abbrev battle_sessions : DeMap ℕ (List ℕ) ℕ
battle_sessions = added 22 (2 ∷ []) 0 (added 21 (1 ∷ []) 0 DeMap.new)

battle_sessions-IsPaired : IsPaired battle_sessions
unfolding added DeMap.new Map.insert find compare_bytes
battle_sessions-IsPaired =
    added-IsPaired 22 (2 ∷ []) 0 (added 21 (1 ∷ []) 0 DeMap.new) refl refl
      (added-IsPaired 21 (1 ∷ []) 0 DeMap.new refl refl new-IsPaired)

abbrev one_battle : Battle (List ℕ)
one_battle = record {
  sessions = battle_sessions;
  games = battle_room ∷ [];
  gamepool = record { is_running = true; timer_set = 3 ∷ []; made = 4 };
  usages = [];
}

abbrev willing : Database
willing = record {
  progressed = λ id achieve count. some false;
  achieved = λ id achieve. some (id == 21);
  archived = λ winner loser drawn crashed. true;
}

tick_cases_example :
    Outcomes true
      (codes "battle1")
      (λ s. true)
      (λ s. true)
      willing
      false
      battle_room
      one_battle
      (tick true (codes "battle1") (λ s. true) (λ s. true) willing false battle_room one_battle)
tick_cases_example =
    tick_cases true (codes "battle1") (λ s. true) (λ s. true) willing false battle_room one_battle
      refl battle_sessions-IsPaired

two_seats-IsPaired : IsPaired two_seats
unfolding added DeMap.new Map.insert find
two_seats-IsPaired =
    added-IsPaired 22 1 none (added 21 0 (some 5) DeMap.new) refl refl
      (added-IsPaired 21 0 (some 5) DeMap.new refl refl new-IsPaired)

battle_index : (a i : ℕ) → find a battle_sessions.kvm ≡ some i → i ≡ 0
unfolding added DeMap.new Map.insert find
battle_index a i h = ground arith

one_battle-IsHosted : IsHosted one_battle
one_battle-IsHosted = record {
  paired = battle_sessions-IsPaired;
  hosted = λ a c i entry. (battle_room, rw (battle_index a i entry.2) refl, two_seats-IsPaired);
}

abbrev battle1_knows : List ℕ → Option (ℕ × List ℕ)
battle1_knows cookie = some (21, codes "battle1")

abbrev let_in : List Effect × Battle (List ℕ)
let_in = admitted true (codes "battle1") (λ s. true) 6 (1 ∷ []) (battle1_knows (1 ∷ [])) one_battle

seating_cases_example :
    ((¬ ((id : ℕ) × IsHere (codes "battle1") battle1_knows (1 ∷ []) id))
      × (let_in ≡ (rejected 6 err_no_match_account, one_battle)))
    ⊎ ((id : ℕ) × IsHere (codes "battle1") battle1_knows (1 ∷ []) id
        × (((find (1 ∷ []) battle_sessions.rlm ≡ none)
              × (let_in ≡ (turned_back 6 id (1 ∷ []), one_battle)))
            ⊎ ((a : ℕ) × (index : ℕ) × (g : GameInfo) × Entry battle_sessions a (1 ∷ []) index
                × (get_elem? one_battle.games index ≡ some g)
                × IsSeated true (λ s. true) 6 id (1 ∷ []) index g one_battle let_in)))
seating_cases_example =
    seating_cases true (codes "battle1") (λ s. true) 6 (1 ∷ []) battle1_knows one_battle
      one_battle-IsHosted
