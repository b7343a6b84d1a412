-- ===== src/Tests/BattleTests.antt =====
-- The battle server on concrete players.
use drgb_server.Prelude.{
  ℕ, ◌≡◌, ◌≢◌, refl, true, false, none, some, [], ◌∷◌, ◌++◌, length, get_elem?, arith,
}
use drgb_server.Map
use drgb_server.Map.{find, assign, subscript}
use drgb_server.Map.Numbers.{nat_order}
use drgb_server.DeMap
use drgb_server.DeMap.{DeMap, find_lkey, insert_lkey_value, get_all, get_all_from}
use drgb_server.DeMap.Pairing.{IsPaired, new-IsPaired}
use drgb_server.DeMap.Keys.{Entry}
use drgb_server.DeMap.Calls.{inserts, run, step, run-IsPaired}
use drgb_server.Game
use drgb_server.GameInfo.{GameInfo, enter, all_open, is_all_in}
use drgb_server.BattleServer.{Battle, match_transfer, new_info}
use drgb_server.BattleServer.Transfer.{IsFresh, transfer-Entry}

abbrev room : GameInfo
room = record {
  game = Game.new;
  timer = 0;
  cancels = 0;
  session = run none 0 (inserts 21 0 none ∷ inserts 22 1 none ∷ []) DeMap.new;
  player_infos = [];
  previous_all_in = false;
}

room-IsPaired : IsPaired room.session
room-IsPaired =
    run-IsPaired none 0 (inserts 21 0 none ∷ inserts 22 1 none ∷ []) DeMap.new new-IsPaired

room-Entry : Entry room.session 21 0 none
unfolding run step DeMap.insert DeMap.new Map.insert find
room-Entry = (refl, refl, refl)

both_in : is_all_in (λ s. true) (enter 22 5 (enter 21 4 room).1).1 ≡ true
unfolding is_all_in all_open get_all get_all_from enter find_lkey insert_lkey_value run step
    DeMap.insert DeMap.new Map.insert find assign subscript
both_in = refl

one_in : is_all_in (λ s. true) (enter 21 4 room).1 ≡ false
unfolding is_all_in all_open get_all get_all_from enter find_lkey insert_lkey_value run step
    DeMap.insert DeMap.new Map.insert find assign subscript
one_in = refl

four_is_not_five : ◌≢◌ {A = ℕ} 5 4
four_is_not_five e = omega arith

abbrev pub idle : Battle ℕ
idle = record {
  sessions = DeMap.new;
  games = [];
  gamepool = record { is_running = true; timer_set = 0 ∷ []; made = 1 };
  usages = [];
}

idle-IsFresh : IsFresh idle.gamepool
idle-IsFresh = (omega arith, tt)

other_player : ◌≢◌ {A = ℕ} 22 21
other_player e = omega arith

other_cookie : ◌≢◌ {A = ℕ} 901 900
other_cookie e = omega arith

transfer-Entry_example :
    (b' : Battle ℕ) × (match_transfer 21 22 (some 900) (some 901) (some []) idle ≡ b')
    × IsPaired b'.sessions
    × Entry b'.sessions 21 900 (length idle.games)
    × Entry b'.sessions 22 901 (length idle.games)
    × ((x c game : ℕ) → Entry idle.sessions x c game → Entry b'.sessions x c game)
    × (get_elem? b'.games (length idle.games) ≡ some (new_info idle.gamepool.made 21 22 []))
    × (b'.usages ≡ idle.usages ++ (1 ∷ DeMap.size b'.sessions ∷ []))
unfolding DeMap.new find
transfer-Entry_example =
    transfer-Entry 21 22 900 901 [] idle refl refl refl new-IsPaired other_player other_cookie refl
      refl refl refl
