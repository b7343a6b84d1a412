-- ===== src/Tests/DeMapTests.antt =====
-- Maps with two keys, on concrete calls.
use drgb_server.Prelude.{ℕ, ◌≡◌, refl, List, [], ◌∷◌}
use drgb_server.Map.{Order, find, assign, erase, subscript}
use drgb_server.Map
use drgb_server.Map.Numbers.{nat_order}
use drgb_server.DeMap.{DeMap, new, insert, erase_both, erase_lkey, get_all, get_all_from}
use drgb_server.DeMap.Pairing.{IsPaired, new-IsPaired}
use drgb_server.DeMap.Keys.{Entry}
use drgb_server.DeMap.Calls.{Call, inserts, erases_lkey, run, step, run-IsPaired}

abbrev calls : List (Call ℕ ℕ ℕ)
calls = inserts 1 11 100 ∷ inserts 2 12 200 ∷ inserts 3 11 300 ∷ erases_lkey 2 ∷ []

abbrev table : DeMap ℕ ℕ ℕ
table = run 0 0 calls new

table-IsPaired : IsPaired table
table-IsPaired = run-IsPaired 0 0 calls new new-IsPaired

one_left : (get_all 0 table).0 ≡ (1, 11, 100) ∷ []
unfolding get_all get_all_from new insert erase_lkey erase_both step run find subscript erase
    Map.insert
one_left = refl

table-Entry : Entry table 1 11 100
unfolding new insert erase_lkey erase_both step run find subscript erase Map.insert
table-Entry = (refl, refl, refl)

run-IsPaired_example : IsPaired (run 0 0 calls (new {L = ℕ} {R = ℕ} {V = ℕ}))
run-IsPaired_example = run-IsPaired 0 0 calls new new-IsPaired
