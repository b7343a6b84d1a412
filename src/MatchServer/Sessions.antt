-- ===== src/MatchServer/Sessions.antt =====
-- MyMatch: the sessions of the match server.
use drgb_server.Prelude.{
  ℕ, ◌≡◌, refl, ◌⊎◌, inl, inr, Bool, true, Option, none, some, List, ◌==◌, Bool-cases, Option-cases,
}
use drgb_server.Map.{find, assign}
use drgb_server.Map.Numbers.{nat_order}
use drgb_server.Map.Bytes.{bytes_order}
use drgb_server.Map.Laws.{find-assign_self}
use drgb_server.DeMap.{DeMap}
use drgb_server.DeMap.Pairing.{IsPaired}
use drgb_server.DeMap.Keys.{
  Entry, find_lkey_cases, find_rkey_cases, insert-added, added-Entry, Entry-insert_lkey_value,
  Entry-find_rkey, insert_cases,
}
use drgb_server.DeMap.Calls.{set_lkey-IsPaired, erase_lkey-IsPaired}
use drgb_server.MatchMaker
use drgb_server.MatchMaker.{MatchMaker}
use drgb_server.Session.{rejected, alive, err_duplicated_access}
use drgb_server.MatchServer.{Server, rejoin, joined, join, session_ended, disconnected}

-- The local sessions know no other account by this cookie, and no other cookie of this account.
abbrev pub Fits : ℕ → List ℕ → DeMap ℕ (List ℕ) (Option ℕ) → Type 0
Fits id cookie d =
    ((find id d.lrm ≡ none) × (find cookie d.rlm ≡ none)) ⊎ (find id d.lrm ≡ some cookie)

pub rejoin-IsPaired :
    (live : ℕ → Bool) (client id : ℕ) (origin : Option ℕ) (m : Server)
    → IsPaired m.sessions
    → IsPaired (rejoin live client id origin m).1.sessions
unfolding rejoin
rejoin-IsPaired live client id origin m p =
    let stored = set_lkey-IsPaired id (some client) m.sessions p in
    elim (Option-cases (alive live origin)) [
      | inl e ↦ rw (rejoin, e) stored
      | inr (old, e) ↦ rw (rejoin, e) stored
    ]

pub joined-IsPaired :
    (live : ℕ → Bool) (client id : ℕ) (cookie : List ℕ) (found : Option (ℕ × Option ℕ)) (m : Server)
    → IsPaired m.sessions
    → IsPaired (joined live client id cookie found m).1.sessions
unfolding joined
joined-IsPaired live client id cookie none m p =
    elim (insert_cases id cookie (some client) m.sessions p) [
      | inl (_, e) ↦ rw e p
      | inr (d', e, p', _, _) ↦ rw e p'
    ]
joined-IsPaired live client id cookie (some (a, origin)) m p =
    rejoin-IsPaired live client id origin m p

pub join-IsPaired :
    (live : ℕ → Bool) (client id : ℕ) (cookie : List ℕ) (m : Server)
    → IsPaired m.sessions
    → IsPaired (join live client id cookie m).1.sessions
unfolding join
join-IsPaired live client id cookie m p = elim (find_rkey_cases none cookie m.sessions p) [
  | inr (_, e) ↦ rw e (joined-IsPaired live client id cookie none m p)
  | inl (a, v, _, e) ↦ rw e (joined-IsPaired live client id cookie (some (a, v)) m p)
]

-- A session that Redis and the server know alike: afterwards the server has it, with this client.
pub join-Entry :
    (live : ℕ → Bool) (client id : ℕ) (cookie : List ℕ) (m : Server)
    → IsPaired m.sessions
    → Fits id cookie m.sessions
    → Entry (join live client id cookie m).1.sessions id cookie (some client)
unfolding join joined rejoin
join-Entry live client id cookie m p (inl (free, free')) =
    elim (find_rkey_cases none cookie m.sessions p) [
      | inl (a, v, (_, e, _), _) ↦ cc
      | inr (_, e) ↦ rw e (
          rw (insert-added id cookie (some client) m.sessions free free')
            (added-Entry id cookie (some client) m.sessions p free free'))
    ]
join-Entry live client id cookie m p (inr there) =
    let (v, e') = p.valued id cookie there in
    let entry : Entry m.sessions id cookie v = (there, p.forth id cookie there, e') in
    let stored = Entry-insert_lkey_value id cookie v (some client) m.sessions entry in
    let kept : Entry (record m.sessions { kvm = assign id (some client) m.sessions.kvm }) id cookie
        (some client) =
      (there, p.forth id cookie there, find-assign_self id (some client) m.sessions.kvm) in
    rw (Entry-find_rkey none id cookie v m.sessions entry) (elim (Option-cases (alive live v)) [
      | inl q ↦ rw (rejoin, q) (rw stored kept)
      | inr (old, q) ↦ rw (rejoin, q) (rw stored kept)
    ])

alive_lem : (live : ℕ → Bool) (s : ℕ) → live s ≡ true → alive live (some s) ≡ some s
unfolding alive
alive_lem live s l = rw l refl

-- A live old socket of the account is told and closed, and the account leaves the queue.
pub join_old :
    (live : ℕ → Bool) (client id old : ℕ) (cookie : List ℕ) (m : Server)
    → Entry m.sessions id cookie (some old)
    → live old ≡ true
    → ((join live client id cookie m).0 ≡ rejected old err_duplicated_access)
      × ((join live client id cookie m).1.matchmaker ≡ MatchMaker.exit id m.matchmaker)
unfolding join joined rejoin
join_old live client id old cookie m entry l =
    rw (Entry-find_rkey none id cookie (some old) m.sessions entry)
      (rw (rejoin, alive_lem live old l) (refl, refl))

pub session_ended-IsPaired :
    (live : ℕ → Bool) (client id : ℕ) (found : Option (List ℕ × Option ℕ)) (m : Server)
    → IsPaired m.sessions
    → IsPaired (session_ended live client id found m).1.sessions
unfolding session_ended
session_ended-IsPaired live client id none m p = p
session_ended-IsPaired live client id (some (cookie, socket)) m p =
    let erased = erase_lkey-IsPaired none id m.sessions p in
    elim (Option-cases (alive live socket)) [
      | inl e ↦ rw (session_ended, e) p
      | inr (s, e) ↦ elim (Bool-cases (s == client)) [
        | inl same ↦ rw (session_ended, e) (rw same erased)
        | inr other ↦ rw (session_ended, e) (rw other p)
      ]
    ]

pub disconnected-IsPaired :
    (live : ℕ → Bool) (client id : ℕ) (m : Server)
    → IsPaired m.sessions
    → IsPaired (disconnected live client id m).1.sessions
unfolding disconnected
disconnected-IsPaired live client id m p =
    let left = record m { matchmaker = MatchMaker.exit id m.matchmaker } in
    elim (find_lkey_cases none id m.sessions p) [
      | inr (_, e) ↦ rw e (session_ended-IsPaired live client id none left p)
      | inl (cookie, v, entry, e) ↦
          rw e (session_ended-IsPaired live client id (some (cookie, v)) left p)
    ]
