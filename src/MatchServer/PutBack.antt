-- ===== src/MatchServer/PutBack.antt =====
-- MyMatch: the players of a match that is off.
use drgb_server.Prelude.{
  ℕ, ◌≤◌, ◌<◌, ◌≡◌, ◌≢◌, refl, sym, subst, inl, inr, true, false, none, List, ◌∷◌, ◌==◌, Bool-cases,
  arith,
}
use drgb_server.Map.{find}
use drgb_server.Map.Numbers.{nat_order}
use drgb_server.Map.Bytes.{bytes_order}
use drgb_server.DeMap.Pairing.{IsPaired}
use drgb_server.MatchMaker.{Element, MatchMaker, Doubles, enter, pop_match}
use drgb_server.MatchMaker.Waiting.{waiting}
use drgb_server.MatchServer.{Server}
use drgb_server.MatchServer.Handover.{Claim, crash, gone, ready, erased, match_popped, put_back}
use drgb_server.MatchServer.Rounds.{
  IsTotal, erased-IsPaired, erased_cases, erased_stays, insert_queue-waiting, insert_queue_grows,
}

-- A player of a match that is off: one that is there waits again, the other has no session.
abbrev pub IsKept : Claim → ℕ → Server → Type 0
IsKept (ready _ _) id m = 0 < waiting id m.matchmaker.wait_queue
IsKept gone id m = find id m.sessions.lrm ≡ none
IsKept crash id m = true ≡ false

pub pop_match_lem :
    (pair : Element × Element) (rest : List (Element × Element)) (m : MatchMaker)
    → m.match_queue ≡ pair ∷ rest
    → pop_match m ≡ record m { match_queue = rest }
unfolding pop_match
pop_match_lem pair rest m q = simp (pop_match, q) refl

pub match_popped-IsKept :
    (c : Claim) (x : ℕ) (pair : Element × Element) (rest : List (Element × Element)) (m : Server)
    → m.matchmaker.match_queue ≡ pair ∷ rest
    → IsKept c x m
    → IsKept c x (match_popped m)
unfolding match_popped
match_popped-IsKept crash x pair rest m q k = k
match_popped-IsKept gone x pair rest m q k = k
match_popped-IsKept (ready cookie s) x pair rest m q k =
    subst (λ mm. 0 < waiting x mm.wait_queue) (sym (pop_match_lem pair rest m.matchmaker q)) k

module _ {ℓ} {D : Type ℓ} (double : Doubles D) where
  pub enter_grows :
      (x : ℕ) (e : Element) (m : MatchMaker)
      → waiting x m.wait_queue ≤ waiting x (enter double e m).wait_queue
  unfolding enter
  enter_grows x e m =
      let grows = insert_queue_grows double x e m.wait_queue in
      elim (Bool-cases (e.id == 0)) [
        | inl h ↦ rw (enter, h) (omega arith)
        | inr h ↦ rw (enter, h) grows
      ]

  pub put_back-IsPaired :
      (e : Element) (c : Claim) (m : Server)
      → IsPaired m.sessions
      → IsPaired (put_back double e c m).sessions
  unfolding put_back
  put_back-IsPaired e crash m p = p
  put_back-IsPaired e gone m p = erased-IsPaired e.id m p
  put_back-IsPaired e (ready cookie s) m p = p

  pub put_back-match_queue :
      (e : Element) (c : Claim) (m : Server)
      → (put_back double e c m).matchmaker.match_queue ≡ m.matchmaker.match_queue
  unfolding put_back enter erased
  put_back-match_queue e crash m = refl
  put_back-match_queue e gone m = refl
  put_back-match_queue e (ready cookie s) m = elim (Bool-cases (e.id == 0)) [
    | inl h ↦ rw (enter, h) refl
    | inr h ↦ rw (enter, h) refl
  ]

  pub put_back-IsKept :
      (e : Element) (c : Claim) (m : Server)
      → IsTotal double
      → (e.id == 0) ≡ false
      → IsPaired m.sessions
      → c ≢ crash
      → IsKept c e.id (put_back double e c m)
  unfolding put_back enter
  put_back-IsKept e crash m total h p sound = elim (sound refl) [ ]
  put_back-IsKept e gone m total h p sound = (erased_cases e.id m p).0
  put_back-IsKept e (ready cookie s) m total h p sound =
      rw (enter, h) (insert_queue-waiting double e m.matchmaker.wait_queue total)

  -- The other player stays kept.
  pub put_back_keeps :
      (e : Element) (c c' : Claim) (x : ℕ) (m : Server)
      → IsPaired m.sessions
      → IsKept c' x m
      → IsKept c' x (put_back double e c m)
  unfolding put_back erased
  put_back_keeps e crash c' x m p k = k
  put_back_keeps e gone crash x m p k = k
  put_back_keeps e gone gone x m p k = erased_stays e.id x m p k
  put_back_keeps e gone (ready cookie s) x m p k = k
  put_back_keeps e (ready _ _) crash x m p k = k
  put_back_keeps e (ready _ _) gone x m p k = k
  put_back_keeps e (ready _ _) (ready cookie s) x m p k =
      let grows = enter_grows x e m.matchmaker in omega arith
