-- ===== src/GameInfo.antt =====
-- source/battle/MyBattle, GameInfo: a battle, its timer and the sockets of its players.
-- A socket is a number, and a `weak_ptr` to it an `Option`; `live` says which sockets still exist.
use drgb_server.Prelude.{
  ℕ, suc, Bool, true, false, ◌&&◌, Option, none, some, List, [], ◌∷◌, ◌==◌, if◌then◌else◌,
}
use drgb_server.Map.Numbers.{nat_order}
use drgb_server.DeMap.{DeMap, find_lkey, insert_lkey_value, get_all}
use drgb_server.Game.{Game}
pub mod Sockets

pub record GameInfo : Type 0 where
  pub game : Game
  pub timer : ℕ
  -- how often the timer was cancelled
  pub cancels : ℕ
  pub session : DeMap ℕ ℕ (Option ℕ)
  pub player_infos : List (List ℕ)
  pub previous_all_in : Bool

-- The loop of `isAllIn`. `is_open` is false of a socket that does not exist.
unfoldable pub all_open : (ℕ → Bool) → List (ℕ × ℕ × Option ℕ) → Bool
all_open is_open [] = true
all_open is_open ((_, _, none) ∷ players) = false
all_open is_open ((_, _, some socket) ∷ players) =
    let rest = all_open is_open players in if is_open socket then rest else false

unfoldable pub is_all_in : (ℕ → Bool) → GameInfo → Bool
is_all_in is_open g = all_open is_open (get_all 0 g.session).0

-- The socket of a lookup; that of a failed one is a default `weak_ptr`.
unfoldable pub socket_of : Option (ℕ × Option ℕ) → Option ℕ
socket_of none = none
socket_of (some (_, socket)) = socket

unfoldable pub enter : ℕ → ℕ → GameInfo → Option (Option ℕ) × GameInfo
enter id socket g =
    let (found, session) = find_lkey none id g.session in
    let (stored, session') = insert_lkey_value id (some socket) session in
    if stored
    then (some (socket_of found), record g { session = session'; cancels = suc g.cancels })
    else (none, record g { session = session' })

-- Does the player's entry hold this very socket?
unfoldable pub holds : (ℕ → Bool) → ℕ → Option ℕ → Bool
holds live socket none = false
holds live socket (some stored) = if live stored then stored == socket else false

unfoldable pub exit : (ℕ → Bool) → ℕ → ℕ → GameInfo → GameInfo
exit live id socket g =
    let (found, session) = find_lkey none id g.session in
    if holds live socket (socket_of found)
    then record g { session = (insert_lkey_value id none session).1; cancels = suc g.cancels }
    else record g { session = session }
