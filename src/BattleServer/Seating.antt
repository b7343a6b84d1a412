-- ===== src/BattleServer/Seating.antt =====
-- MyBattle: who is let into a battle.
use drgb_server.Prelude.{
  ℕ, suc, ◌≡◌, refl, ◌⊎◌, inl, inr, Bool, true, false, Option, none, some, List, ◌++◌, Bool-cases,
  Option-cases, get_elem?, set_at,
}
use drgb_server.ConfigParser.{same_text}
use drgb_server.Map.{find}
use drgb_server.Map.Numbers.{nat_order}
use drgb_server.Map.Bytes.{bytes_order}
use drgb_server.DeMap.{erase_lkey}
use drgb_server.DeMap.Pairing.{IsPaired}
use drgb_server.DeMap.Keys.{Entry, find_lkey_cases, find_rkey_cases}
use drgb_server.DeMap.Calls.{erase_lkey_cases}
use drgb_server.GameInfo.{GameInfo}
use drgb_server.GameInfo.Sockets.{enter_replaces, enter_absent}
use drgb_server.Session.{Effect, alive, rejected, err_no_match_account, err_duplicated_access}
use drgb_server.BattleServer.{Battle}
use drgb_server.BattleServer.Client.{
  welcome, turned_back, side_of, entered, seated, found_session, admitted,
}

-- The maps of the sessions are together, and each session leads to a battle whose maps are.
pub record IsHosted (b : Battle (List ℕ)) : Type 0 where
  pub paired : IsPaired b.sessions
  pub hosted :
      (a : ℕ) (c : List ℕ) (i : ℕ)
      → Entry b.sessions a c i
      → (g : GameInfo) × (get_elem? b.games i ≡ some g) × IsPaired g.session

-- An old socket that exists is told and closed first.
abbrev pub after_old : Option ℕ → List Effect → List Effect
after_old none calls = calls
after_old (some old) calls = rejected old err_duplicated_access ++ calls

module _ (host : Bool) (live : ℕ → Bool) (client id : ℕ) (cookie : List ℕ) where
  -- The battle of the session does not know the account, or seats its new socket.
  abbrev pub IsSeated : ℕ → GameInfo → Battle (List ℕ) → List Effect × Battle (List ℕ) → Type 0
  IsSeated index g b after =
      ((find id g.session.lrm ≡ none)
        × (b' : Battle (List ℕ)) × (after ≡ (turned_back client id cookie, b'))
        × (find id b'.sessions.lrm ≡ none))
      ⊎ ((side : ℕ) × (old : Option ℕ) × (g' : GameInfo) × Entry g.session id side old
          × Entry g'.session id side (some client)
          × (g'.cancels ≡ suc g.cancels)
          × (after ≡ (
            after_old (alive live old) (welcome host client side g'),
            record b { games = set_at b.games index g' },
          )))

  entered_lem :
      (side : ℕ) (old : Option ℕ) (g : GameInfo) (b : Battle (List ℕ))
      → entered host live client id cookie side (some old) g b
        ≡ (after_old (alive live old) (welcome host client side g), b)
  unfolding entered
  entered_lem side old g b = elim (Option-cases (alive live old)) [
    | inl e ↦ rw (entered, e) refl
    | inr (s, e) ↦ rw (entered, e) refl
  ]

  seated-IsSeated :
      (index : ℕ) (g : GameInfo) (b : Battle (List ℕ))
      → IsPaired b.sessions
      → IsPaired g.session
      → IsSeated index g b (seated host live client id cookie index (some g) b)
  unfolding seated entered side_of
  seated-IsSeated index g b p pg = elim (find_lkey_cases none id g.session pg) [
    | inr (free, e) ↦
        let entered_none = enter_absent id client g pg free in
        inl (
          free,
          record b { games = set_at b.games index g; sessions = (erase_lkey 0 id b.sessions).1 },
          rw (seated, entered_none) refl,
          (erase_lkey_cases 0 id b.sessions p).0,
        )
    | inl (side, old, entry, e) ↦
        let (g', e', entry', cancelled, _, _) = enter_replaces id side client old g pg entry in
        inr (
          side,
          old,
          g',
          entry,
          entry',
          cancelled,
          rw e (rw e' (entered_lem side old g' (record b { games = set_at b.games index g' }))),
        )
  ]

-- Redis has the session, and it is at this battle server.
abbrev pub IsHere : List ℕ → (List ℕ → Option (ℕ × List ℕ)) → List ℕ → ℕ → Type 0
IsHere self_keyword found cookie id =
    (server : List ℕ) × (found cookie ≡ some (id, server)) × (same_text server self_keyword ≡ true)

nobody :
    (self_keyword : List ℕ) (found : List ℕ → Option (ℕ × List ℕ)) (cookie : List ℕ)
    → found cookie ≡ none
    → ¬ ((id : ℕ) × IsHere self_keyword found cookie id)
nobody self_keyword found cookie e (id, (server, k, _)) = cc

elsewhere :
    (self_keyword : List ℕ) (found : List ℕ → Option (ℕ × List ℕ)) (cookie : List ℕ) (id : ℕ)
    (server : List ℕ)
    → found cookie ≡ some (id, server)
    → same_text server self_keyword ≡ false
    → ¬ ((i : ℕ) × IsHere self_keyword found cookie i)
elsewhere self_keyword found cookie id server e h (i, (server', k, h')) = cc

-- A cookie that was shown at a battle server, whose three session maps are together and whose
-- sessions each lead to a battle of the list with its seats together. If Redis has no session of it at this server, the client
-- gets an error and nothing changes. Otherwise, if the server has no session of it, the session is
-- given back to the match server, and nothing changes here. Otherwise the session leads to a battle: if
-- that does not know the account, the account has no session here any more, and it is given back too;
-- if it does, its seat has the new socket, the timer of the battle is cancelled, an old socket that
-- exists is told and closed, and the client gets its welcome; the sessions stay as they were.
pub seating_cases :
    (host : Bool) (self_keyword : List ℕ) (live : ℕ → Bool) (client : ℕ) (cookie : List ℕ)
    (found : List ℕ → Option (ℕ × List ℕ)) (b : Battle (List ℕ))
    → IsHosted b
    → ((¬ ((id : ℕ) × IsHere self_keyword found cookie id))
        × (admitted host self_keyword live client cookie (found cookie) b
            ≡ (rejected client err_no_match_account, b)))
      ⊎ ((id : ℕ) × IsHere self_keyword found cookie id
          × (((find cookie b.sessions.rlm ≡ none)
                × (admitted host self_keyword live client cookie (found cookie) b
                    ≡ (turned_back client id cookie, b)))
              ⊎ ((a : ℕ) × (index : ℕ) × (g : GameInfo) × Entry b.sessions a cookie index
                  × (get_elem? b.games index ≡ some g)
                  × IsSeated host live client id cookie index g b
                      (admitted host self_keyword live client cookie (found cookie) b))))
unfolding admitted found_session
seating_cases host self_keyword live client cookie found b h = elim (Option-cases (found cookie)) [
  | inl e ↦ inl (nobody self_keyword found cookie e, rw e refl)
  | inr ((id, server), e) ↦ elim (Bool-cases (same_text server self_keyword)) [
    | inr k ↦ inl (elsewhere self_keyword found cookie id server e k, rw (e, k) refl)
    | inl k ↦ inr (
      id,
      (server, e, k),
      elim (find_rkey_cases 0 cookie b.sessions h.paired) [
        | inr (free, q) ↦ inl (free, rw (e, k) (rw q refl))
        | inl (a, index, entry, q) ↦
            let (g, there, pg) = h.hosted a cookie index entry in
            inr (
              a,
              index,
              g,
              entry,
              there,
              rw (e, k)
                  (rw q
                    (rw there (seated-IsSeated host live client id cookie index g b h.paired pg))),
            )
      ],
    )
  ]
]
