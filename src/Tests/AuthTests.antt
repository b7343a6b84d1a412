-- ===== src/Tests/AuthTests.antt =====
-- A hash for the tests of the login, and the battle servers of names.
use drgb_server.Prelude.{ℕ, suc, ◌≡◌, refl, none, some, List, [], ◌∷◌, length}
use drgb_server.Encoder.{codes}
use drgb_server.ConfigParser.{same_text}
use drgb_server.Map.Numbers.{nat_order}
use drgb_server.Map.Bytes.{bytes_order}
use drgb_server.AuthServer.{battle_id, digits_value}

battle_seven : battle_id (codes "battle7") ≡ some 7
unfolding battle_id digits_value same_text
battle_seven = refl

no_battle : battle_id (codes "battles7") ≡ none
unfolding battle_id digits_value same_text
no_battle = refl

abbrev pub zeros : List ℕ
zeros =
    0 ∷ 0 ∷ 0 ∷ 0 ∷ 0 ∷ 0 ∷ 0 ∷ 0 ∷ 0 ∷ 0 ∷ 0 ∷ 0 ∷ 0 ∷ 0 ∷ 0 ∷ 0 ∷ 0 ∷ 0 ∷ 0 ∷ 0 ∷ 0 ∷ 0 ∷ 0 ∷ 0
    ∷ 0 ∷ 0 ∷ 0 ∷ 0 ∷ 0 ∷ 0 ∷ 0 ∷ []

-- A hash that counts the first byte.
abbrev pub next_hash : List ℕ → List ℕ
next_hash [] = 1 ∷ zeros
next_hash (b ∷ _) = suc b ∷ zeros

pub length-next_hash : (x : List ℕ) → length (next_hash x) ≡ 32
length-next_hash [] = refl
length-next_hash (b ∷ x) = refl

abbrev pub eleven : List ℕ
eleven = 11 ∷ zeros
