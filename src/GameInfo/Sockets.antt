-- ===== src/GameInfo/Sockets.antt =====
-- GameInfo: who is connected, through any order of coming and going.
use drgb_server.Prelude.{
  ℕ, suc, ◌≡◌, ◌≢◌, refl, inl, inr, Bool, true, false, Option, none, some, ◌==◌, ==_refl,
  Bool-cases, arith,
}
use drgb_server.Map.{find, assign}
use drgb_server.Map.Laws.{find-assign_self, find-assign_ne}
use drgb_server.Map.Numbers.{nat_order}
use drgb_server.DeMap.{find_lkey, insert_lkey_value}
use drgb_server.DeMap.Pairing.{IsPaired, assigned-IsPaired}
use drgb_server.DeMap.Keys.{Entry, Entry-find_lkey, Entry-insert_lkey_value}
use drgb_server.GameInfo.{GameInfo, enter, exit, holds, socket_of}

-- The battle in which a player's socket is replaced and the timer cancelled once more.
unfoldable pub reseated : ℕ → Option ℕ → GameInfo → GameInfo
reseated id socket g = record g {
  session = record g.session { kvm = assign id socket g.session.kvm };
  cancels = suc g.cancels;
}

reseated-Entry :
    (id side : ℕ) (old new : Option ℕ) (g : GameInfo)
    → Entry g.session id side old
    → Entry (reseated id new g).session id side new
unfolding reseated
reseated-Entry id side old new g (a, b, c) = (a, b, find-assign_self id new g.session.kvm)

enter-reseated :
    (id side socket : ℕ) (old : Option ℕ) (g : GameInfo)
    → Entry g.session id side old
    → enter id socket g ≡ (some old, reseated id (some socket) g)
unfolding enter reseated socket_of
enter-reseated id side socket old g e =
    rw (Entry-find_lkey none id side old g.session e)
      (rw (Entry-insert_lkey_value id side old (some socket) g.session e) refl)

exit-reseated :
    (live : ℕ → Bool) (id side socket : ℕ) (g : GameInfo)
    → live socket ≡ true
    → Entry g.session id side (some socket)
    → exit live id socket g ≡ reseated id none g
unfolding exit reseated socket_of holds
exit-reseated live id side socket g h e =
    rw (Entry-find_lkey none id side (some socket) g.session e) (
      rw (h, ==_refl socket)
        (rw (Entry-insert_lkey_value id side (some socket) none g.session e) refl))

-- A player of a battle enters: the call returns the socket that the player had, the player's entry
-- holds the new socket, the timer is cancelled, and the entries of the others stay.
pub enter_replaces :
    (id side socket : ℕ) (old : Option ℕ) (g : GameInfo)
    → IsPaired g.session
    → Entry g.session id side old
    → (g' : GameInfo) × (enter id socket g ≡ (some old, g'))
      × Entry g'.session id side (some socket)
      × (g'.cancels ≡ suc g.cancels)
      × IsPaired g'.session
      × ((other : ℕ) → other ≢ id → find other g'.session.kvm ≡ find other g.session.kvm)
unfolding reseated
enter_replaces id side socket old g p e = (
  reseated id (some socket) g,
  enter-reseated id side socket old g e,
  reseated-Entry id side old (some socket) g e,
  refl,
  assigned-IsPaired id side (some socket) g.session e.0 p,
  λ other ne. find-assign_ne other id (some socket) g.session.kvm ne,
)

-- A player enters and leaves with one socket: the entry is empty.
pub exit-Entry :
    (live : ℕ → Bool) (id side socket : ℕ) (old : Option ℕ) (g : GameInfo)
    → live socket ≡ true
    → Entry g.session id side old
    → Entry (exit live id socket (enter id socket g).1).session id side none
exit-Entry live id side socket old g h e =
    let e' = reseated-Entry id side old (some socket) g e in
    rw (enter-reseated id side socket old g e) (
      rw (exit-reseated live id side socket (reseated id (some socket) g) h e')
        (reseated-Entry id side (some socket) none (reseated id (some socket) g) e'))

-- The end of a connection that was replaced by a newer one of the same player changes nothing: the
-- newer socket stays, and the timer is not cancelled again.
pub exit_replaced :
    (live : ℕ → Bool) (id side socket newer : ℕ) (old : Option ℕ) (g : GameInfo)
    → newer ≢ socket
    → Entry g.session id side old
    → exit live id socket (enter id newer g).1 ≡ (enter id newer g).1
unfolding exit socket_of holds
exit_replaced live id side socket newer old g ne e =
    let e' = reseated-Entry id side old (some newer) g e in
    let differ : (newer == socket) ≡ false = ground arith in
    rw (enter-reseated id side newer old g e) (
      rw (Entry-find_lkey none id side (some newer) (reseated id (some newer) g).session e')
        (elim (Bool-cases (live newer)) [ inl h ↦ rw (h, differ) refl | inr h ↦ rw h refl ]))

-- An account that is no player of the battle does not get in.
pub enter_absent :
    (id socket : ℕ) (g : GameInfo)
    → IsPaired g.session
    → find id g.session.lrm ≡ none
    → enter id socket g ≡ (none, g)
unfolding enter find_lkey insert_lkey_value
enter_absent id socket g p free =
    let alone = p.alone id free in simp (enter, find_lkey, free, insert_lkey_value, alone) refl
