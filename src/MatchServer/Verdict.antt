-- ===== src/MatchServer/Verdict.antt =====
-- MyMatch: how a match ends in `MatchMake`, and how the loop does.
use drgb_server.Prelude.{
  ℕ, ◌≡◌, ◌≢◌, refl, sym, ap, ◌∙◌, subst, ◌⊎◌, inl, inr, Bool, false, none, some, List, ◌∷◌, ◌++◌,
  ◌==◌, Option-cases,
}
use drgb_server.Encoder.{codes}
use drgb_server.Map.{find}
use drgb_server.Map.Numbers.{nat_order}
use drgb_server.Map.Bytes.{bytes_order}
use drgb_server.DeMap.Pairing.{IsPaired}
use drgb_server.MatchMaker.{Element, Doubles, get_match}
use drgb_server.MatchService.Stream.{Service}
use drgb_server.MatchService.Asking.{transfer}
use drgb_server.Session.{Effect, sets_info}
use drgb_server.MatchServer.{Server}
use drgb_server.MatchServer.Handover.{
  Claim, crash, gone, ready, claim, erased, match_popped, told, taken_by, hand_over, put_back,
  Round, crashes, stops, goes_on, decided, round_of, match_round,
}
use drgb_server.MatchServer.Rounds.{
  IsTotal, IsClaim, erased-IsPaired, erased_cases, erased_stays, claim_cases,
}
use drgb_server.MatchServer.PutBack.{
  pop_match_lem, match_popped-IsKept, IsKept, put_back-IsPaired, put_back-match_queue,
  put_back-IsKept, put_back_keeps,
}

module _ {ℓ} {D : Type ℓ} (double : Doubles D) (host : Bool) (to_string : ℕ → List ℕ)
    (live : ℕ → Bool) (is_open : ℕ → Bool) (refresh : ℕ → List ℕ → Bool) (written : ℕ → Bool)
    (waited : ℕ → Service → Service) (service : Service) where
  -- What a round comes to, by the claims of the two players.
  abbrev pub IsVerdict :
      Claim → Claim → Element → Element → List (Element × Element) → Server → Round → Type 0
  IsVerdict crash rc lp rp rest m round = round ≡ crashes
  IsVerdict gone crash lp rp rest m round = round ≡ crashes
  IsVerdict (ready _ _) crash lp rp rest m round = round ≡ crashes
  IsVerdict (ready lcookie ls) (ready rcookie rs) lp rp rest m round =
      (beats : List Effect) × (((taken_by (transfer written waited service).0 ≡ none)
          × (round ≡ stops beats m))
        ⊎ ((battle : ℕ) × (m' : Server) × (taken_by (transfer written waited service).0
              ≡ some battle)
            × (round
                ≡ goes_on
                    (beats
                      ++ (sets_info lp.id lcookie (codes "battle" ++ to_string battle)
                          ∷ sets_info rp.id rcookie (codes "battle" ++ to_string battle)
                          ∷ (told host ls battle ++ told host rs battle)))
                    m')
            × (m'.matchmaker ≡ record m.matchmaker { match_queue = rest })
            × (find lp.id m'.sessions.lrm ≡ none)
            × (find rp.id m'.sessions.lrm ≡ none)))
  IsVerdict lc rc lp rp rest m round =
      (calls : List Effect) × (m' : Server) × (round ≡ goes_on calls m')
      × (m'.matchmaker.match_queue ≡ rest)
      × IsKept lc lp.id m'
      × IsKept rc rp.id m'

  put_both :
      (lc rc : Claim) (lp rp : Element) (rest : List (Element × Element)) (m : Server)
      → IsTotal double
      → (lp.id == 0) ≡ false
      → (rp.id == 0) ≡ false
      → m.matchmaker.match_queue ≡ (lp, rp) ∷ rest
      → IsPaired m.sessions
      → lc ≢ crash
      → rc ≢ crash
      → let m' = match_popped (put_back double rp rc (put_back double lp lc m)) in
        (m'.matchmaker.match_queue ≡ rest) × IsKept lc lp.id m' × IsKept rc rp.id m'
  unfolding match_popped
  put_both lc rc lp rp rest m total hl hr q p soundl soundr =
      let one = put_back double lp lc m in
      let p' = put_back-IsPaired double lp lc m p in
      let queue = put_back-match_queue double rp rc one ∙ put_back-match_queue double lp lc m ∙ q in
      let left =
        put_back_keeps double rp rc lc lp.id one p'
          (put_back-IsKept double lp lc m total hl p soundl) in
      let right = put_back-IsKept double rp rc one total hr p' soundr in
      (
        ap (λ mm. mm.match_queue)
            (pop_match_lem (lp, rp) rest (put_back double rp rc one).matchmaker queue),
        match_popped-IsKept lc lp.id (lp, rp) rest (put_back double rp rc one) queue left,
        match_popped-IsKept rc rp.id (lp, rp) rest (put_back double rp rc one) queue right,
      )

  decided-IsVerdict :
      (lc rc : Claim) (lp rp : Element) (rest : List (Element × Element)) (beats : List Effect)
      (m : Server)
      → IsTotal double
      → (lp.id == 0) ≡ false
      → (rp.id == 0) ≡ false
      → m.matchmaker.match_queue ≡ (lp, rp) ∷ rest
      → IsPaired m.sessions
      → IsVerdict lc rc lp rp rest m (
          decided double host to_string live is_open refresh written waited service lp rp lc rc
            beats m)
  unfolding decided hand_over match_popped erased
  decided-IsVerdict crash rc lp rp rest beats m total hl hr q p = refl
  decided-IsVerdict gone crash lp rp rest beats m total hl hr q p = refl
  decided-IsVerdict (ready _ _) crash lp rp rest beats m total hl hr q p = refl
  decided-IsVerdict gone gone lp rp rest beats m total hl hr q p =
      let (a, b, c) = put_both gone gone lp rp rest m total hl hr q p (λ e. cc) (λ e. cc) in
      (beats, _, refl, a, b, c)
  decided-IsVerdict gone (ready c s) lp rp rest beats m total hl hr q p =
      let (a, b, c) = put_both gone (ready c s) lp rp rest m total hl hr q p (λ e. cc) (λ e. cc) in
      (beats, _, refl, a, b, c)
  decided-IsVerdict (ready c s) gone lp rp rest beats m total hl hr q p =
      let (a, b, c) = put_both (ready c s) gone lp rp rest m total hl hr q p (λ e. cc) (λ e. cc) in
      (beats, _, refl, a, b, c)
  decided-IsVerdict (ready lcookie ls) (ready rcookie rs) lp rp rest beats m total hl hr q p =
      elim (Option-cases (taken_by (transfer written waited service).0)) [
        | inl e ↦ (beats, inl (e, rw (decided, e) refl))
        | inr (battle, e) ↦ (
          beats,
          inr (
            battle,
            match_popped (erased rp.id (erased lp.id m)),
            e,
            rw (decided, e) refl,
            pop_match_lem (lp, rp) rest m.matchmaker q,
            erased_stays rp.id lp.id (erased lp.id m) (erased-IsPaired lp.id m p)
                (erased_cases lp.id m p).0,
            (erased_cases rp.id (erased lp.id m) (erased-IsPaired lp.id m p)).0,
          ),
        )
      ]

  pub match_round-claims :
      (lp rp : Element) (rest : List (Element × Element)) (lc rc : Claim)
      (lbeats rbeats : List Effect) (m : Server)
      → m.matchmaker.match_queue ≡ (lp, rp) ∷ rest
      → claim live is_open refresh lp.id m ≡ ((lc, lbeats), m)
      → claim live is_open refresh rp.id m ≡ ((rc, rbeats), m)
      → match_round double host to_string live is_open refresh written waited service m
        ≡ decided double host to_string live is_open refresh written waited service lp rp lc rc
            (lbeats ++ rbeats)
            m
  unfolding match_round round_of get_match
  match_round-claims lp rp rest lc rc lbeats rbeats m q le re =
      let first : get_match m.matchmaker ≡ (lp, rp) = simp (get_match, q) refl in
      ap (λ pair. round_of double host to_string live is_open refresh written waited service pair m)
        first
      ∙ simp (round_of, le, re) refl

  -- A round of the loop on the match at the front, of two accounts that are not 0. The claims of both
  -- players look at their sessions. A session whose socket is gone crashes the loop. If both players are
  -- connected, then no battle server takes the match, and the loop stops with nothing changed; or one
  -- does: Redis is told it for both cookies, both clients are told and closed, both sessions are gone,
  -- and the match is removed. Otherwise the match is removed, each connected player waits again, and
  -- the other has no session.
  pub match_round_cases :
      (lp rp : Element) (rest : List (Element × Element)) (m : Server)
      → IsTotal double
      → (lp.id == 0) ≡ false
      → (rp.id == 0) ≡ false
      → m.matchmaker.match_queue ≡ (lp, rp) ∷ rest
      → IsPaired m.sessions
      → (lc : Claim) × (rc : Claim) × IsClaim live is_open refresh lc lp.id m
        × IsClaim live is_open refresh rc rp.id m
        × IsVerdict lc rc lp rp rest m
            (match_round double host to_string live is_open refresh written waited service m)
  match_round_cases lp rp rest m total hl hr q p =
      let (lc, lbeats, le, l) = claim_cases live is_open refresh lp.id m p in
      let (rc, rbeats, re, r) = claim_cases live is_open refresh rp.id m p in
      let e = match_round-claims lp rp rest lc rc lbeats rbeats m q le re in
      (
        lc,
        rc,
        l,
        r,
        subst (IsVerdict lc rc lp rp rest m) (sym e)
            (decided-IsVerdict lc rc lp rp rest (lbeats ++ rbeats) m total hl hr q p),
      )
