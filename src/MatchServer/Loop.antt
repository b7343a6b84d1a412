-- ===== src/MatchServer/Loop.antt =====
-- MyMatch: the loop of `MatchMake` over all the matches.
use drgb_server.Prelude.{
  ℕ, zero, suc, ◌+◌, ◌≤◌, ◌<◌, ◌≡◌, ◌≢◌, refl, sym, ap, ◌∙◌, subst, ◌⊎◌, inl, inr, Bool, true,
  false, Option, none, some, List, [], ◌∷◌, ◌++◌, Option-cases, length, arith,
}
use drgb_server.Map.{find}
use drgb_server.Map.Numbers.{nat_order}
use drgb_server.Map.Bytes.{bytes_order}
use drgb_server.Map.Laws.{key_eq_or_ne}
use drgb_server.DeMap.Pairing.{IsPaired}
use drgb_server.MatchMaker.{Element, MatchMaker, Doubles, process, is_there_match}
use drgb_server.MatchService.Stream.{Service}
use drgb_server.MatchService.Asking.{transfer}
use drgb_server.Session.{alive, Effect}
use drgb_server.MatchServer.{Server}
use drgb_server.MatchServer.Handover.{
  Claim, crash, gone, ready, erased, match_popped, taken_by, hand_over, put_back, Round, stops,
  goes_on, decided, match_round, continued, hand_matches, match_make, Surroundings, named_server,
  round_in,
}
use drgb_server.MatchServer.Rounds.{IsClaim, erased-IsPaired, erased_cases, claim_cases}
use drgb_server.MatchServer.Verdict.{match_round-claims}
use drgb_server.MatchServer.PutBack.{put_back-match_queue, pop_match_lem}

-- The maps of the sessions are together, and no session has a socket that is gone in some round.
pub record IsSound (lives : ℕ → ℕ → Bool) (m : Server) : Type 0 where
  pub paired : IsPaired m.sessions
  pub present : (n x : ℕ) (v : Option ℕ) → find x m.sessions.kvm ≡ some v → alive (lives n) v ≢ none

module _ (lives : ℕ → ℕ → Bool) where
  erased-IsSound : (id : ℕ) (m : Server) → IsSound lives m → IsSound lives (erased id m)
  erased-IsSound id m s =
      let p = erased-IsPaired id m s.paired in
      record {
        paired = p;
        present = λ n x v h. elim (key_eq_or_ne x id) [
          | inl e ↦ (λ _. cc (p.alone id (erased_cases id m s.paired).0, rw e at h))
          | inr ne ↦ s.present n x v (sym ((erased_cases id m s.paired).1 x ne).1 ∙ h)
        ];
      }

  match_popped-IsSound : (m : Server) → IsSound lives m → IsSound lives (match_popped m)
  unfolding match_popped
  match_popped-IsSound m s = record { paired = s.paired; present = s.present }

  put_back-IsSound {ℓ} :
      {D : Type ℓ} (double : Doubles D) (e : Element) (c : Claim) (m : Server)
      → IsSound lives m
      → IsSound lives (put_back double e c m)
  unfolding put_back
  put_back-IsSound double e crash m s = s
  put_back-IsSound double e gone m s = erased-IsSound e.id m s
  put_back-IsSound double e (ready _ _) m s = record { paired = s.paired; present = s.present }

match_popped-match_queue :
    (pair : Element × Element) (rest : List (Element × Element)) (m : Server)
    → m.matchmaker.match_queue ≡ pair ∷ rest
    → (match_popped m).matchmaker.match_queue ≡ rest
unfolding match_popped
match_popped-match_queue pair rest m q =
    ap (λ mm. mm.match_queue) (pop_match_lem pair rest m.matchmaker q)

is_there_match_lem :
    (pair : Element × Element) (rest : List (Element × Element)) (m : MatchMaker)
    → m.match_queue ≡ pair ∷ rest
    → is_there_match m ≡ true
unfolding is_there_match
is_there_match_lem pair rest m q = simp (is_there_match, q) refl

no_match_lem : (m : MatchMaker) → m.match_queue ≡ [] → is_there_match m ≡ false
unfolding is_there_match
no_match_lem m q = simp (is_there_match, q) refl

module _ {ℓ} {D : Type ℓ} (double : Doubles D) (host : Bool) (to_string : ℕ → List ℕ)
    (lives : ℕ → ℕ → Bool) (n : ℕ) (is_open : ℕ → Bool) (refresh : ℕ → List ℕ → Bool)
    (written : ℕ → Bool) (waited : ℕ → Service → Service) (service : Service) where
  -- A round that neither crashes nor changes more than it should.
  abbrev GoesWell : List (Element × Element) → Server → Round → Type 0
  GoesWell rest m round =
      ((taken_by (transfer written waited service).0 ≡ none)
        × (beats : List Effect) × (round ≡ stops beats m))
      ⊎ ((calls : List Effect) × (m' : Server) × (round ≡ goes_on calls m')
          × (m'.matchmaker.match_queue ≡ rest)
          × IsSound lives m')

  put_back_both :
      (lc rc : Claim) (lp rp : Element) (rest : List (Element × Element)) (m : Server)
      → m.matchmaker.match_queue ≡ (lp, rp) ∷ rest
      → IsSound lives m
      → let m' = match_popped (put_back double rp rc (put_back double lp lc m)) in
        (m'.matchmaker.match_queue ≡ rest) × IsSound lives m'
  put_back_both lc rc lp rp rest m q s =
      let one = put_back double lp lc m in
      let queue = put_back-match_queue double rp rc one ∙ put_back-match_queue double lp lc m ∙ q in
      (
        match_popped-match_queue (lp, rp) rest (put_back double rp rc one) queue,
        match_popped-IsSound lives (put_back double rp rc one)
            (put_back-IsSound lives double rp rc one (put_back-IsSound lives double lp lc m s)),
      )

  decided-GoesWell :
      (lc rc : Claim) (lp rp : Element) (rest : List (Element × Element)) (beats : List Effect)
      (m : Server)
      → lc ≢ crash
      → rc ≢ crash
      → m.matchmaker.match_queue ≡ (lp, rp) ∷ rest
      → IsSound lives m
      → GoesWell rest m (
          decided double host to_string
            (lives n)
            is_open
            refresh
            written
            waited
            service
            lp
            rp
            lc
            rc
            beats
            m)
  unfolding decided hand_over
  decided-GoesWell crash rc lp rp rest beats m l r q s = elim (l refl) [ ]
  decided-GoesWell gone crash lp rp rest beats m l r q s = elim (r refl) [ ]
  decided-GoesWell (ready _ _) crash lp rp rest beats m l r q s = elim (r refl) [ ]
  decided-GoesWell gone gone lp rp rest beats m l r q s =
      let (queue, sound) = put_back_both gone gone lp rp rest m q s in
      inr (beats, _, refl, queue, sound)
  decided-GoesWell gone (ready c t) lp rp rest beats m l r q s =
      let (queue, sound) = put_back_both gone (ready c t) lp rp rest m q s in
      inr (beats, _, refl, queue, sound)
  decided-GoesWell (ready c t) gone lp rp rest beats m l r q s =
      let (queue, sound) = put_back_both (ready c t) gone lp rp rest m q s in
      inr (beats, _, refl, queue, sound)
  decided-GoesWell (ready lcookie ls) (ready rcookie rs) lp rp rest beats m l r q s =
      let two = erased rp.id (erased lp.id m) in
      let queue : two.matchmaker.match_queue ≡ (lp, rp) ∷ rest = unfold erased in q in
      elim (Option-cases (taken_by (transfer written waited service).0)) [
        | inl e ↦ inl (e, beats, rw (decided, e) refl)
        | inr (battle, e) ↦ inr (
          beats ++ (hand_over host to_string lp.id rp.id lcookie rcookie ls rs battle m).0,
          match_popped two,
          rw (decided, e) refl,
          match_popped-match_queue (lp, rp) rest two queue,
          match_popped-IsSound lives two
              (erased-IsSound lives rp.id (erased lp.id m) (erased-IsSound lives lp.id m s)),
        )
      ]

  claim_sound :
      (id : ℕ) (c : Claim) (m : Server)
      → IsSound lives m
      → IsClaim (lives n) is_open refresh c id m
      → c ≢ crash
  claim_sound id crash m s (cookie, v, (_, _, e), gone_socket) h = s.present n id v e gone_socket
  claim_sound id gone m s k h = cc
  claim_sound id (ready cookie t) m s k h = cc

  match_round-GoesWell :
      (pair : Element × Element) (rest : List (Element × Element)) (m : Server)
      → m.matchmaker.match_queue ≡ pair ∷ rest
      → IsSound lives m
      → GoesWell rest m
          (match_round double host to_string (lives n) is_open refresh written waited service m)
  match_round-GoesWell (lp, rp) rest m q s =
      let (lc, lbeats, le, l) = claim_cases (lives n) is_open refresh lp.id m s.paired in
      let (rc, rbeats, re, r) = claim_cases (lives n) is_open refresh rp.id m s.paired in
      let e =
        match_round-claims double host to_string (lives n) is_open refresh written waited service lp
          rp rest lc rc lbeats rbeats m q le re in
      subst (GoesWell rest m) (sym e) (
        decided-GoesWell lc rc lp rp rest (lbeats ++ rbeats) m (claim_sound lp.id lc m s l)
          (claim_sound rp.id rc m s r) q s)

module _ {ℓ} {D : Type ℓ} (double : Doubles D) (host : Bool) (to_string : ℕ → List ℕ)
    (outside : ℕ → Surroundings) where
  -- Which sockets exist in each round.
  abbrev pub lives : ℕ → ℕ → Bool
  lives n = (outside n).live

  -- The loop came to its end with this state, from a queue of so many matches: there are no more, or
  -- TransferMatch named no battle server in the round behind those that removed a match each.
  abbrev pub IsEnd : ℕ → Server → Type 0
  IsEnd total m =
      (m.matchmaker.match_queue ≡ [])
      ⊎ ((n : ℕ) × (n + length m.matchmaker.match_queue ≡ total)
          × (0 < length m.matchmaker.match_queue)
          × (named_server (outside n) ≡ none))

  abbrev IsDone : ℕ → Option (List Effect × Server) → Type 0
  IsDone total result =
      (calls : List Effect) × (m' : Server) × (result ≡ some (calls, m'))
      × IsEnd total m'
      × IsSound lives m'

  round_in-GoesWell :
      (n : ℕ) (pair : Element × Element) (rest : List (Element × Element)) (m : Server)
      → m.matchmaker.match_queue ≡ pair ∷ rest
      → IsSound lives m
      → ((named_server (outside n) ≡ none)
          × (beats : List Effect) × (round_in double host to_string outside (outside n) m
              ≡ stops beats m))
        ⊎ ((calls : List Effect) × (m' : Server) × (round_in double host to_string outside
                (outside n)
                m
              ≡ goes_on calls m')
            × (m'.matchmaker.match_queue ≡ rest)
            × IsSound lives m')
  unfolding named_server round_in
  round_in-GoesWell n pair rest m q s =
      let o = outside n in
      match_round-GoesWell double host to_string lives n o.is_open o.refresh o.written o.after_wait
        o.service pair rest m q s

  hand_matches_ends :
      (fuel n total : ℕ) (queue : List (Element × Element)) (m : Server)
      → m.matchmaker.match_queue ≡ queue
      → n + length queue ≡ total
      → length queue ≤ fuel
      → IsSound lives m
      → IsDone total (hand_matches double host to_string outside fuel n m)
  unfolding hand_matches continued
  hand_matches_ends zero n total [] m q size enough s = ([], m, refl, inl q, s)
  hand_matches_ends zero n total (pair ∷ rest) m q size enough s = elim enough [ ]
  hand_matches_ends (suc fuel) n total [] m q size enough s =
      ([], m, rw (hand_matches, no_match_lem m.matchmaker q) refl, inl q, s)
  hand_matches_ends (suc fuel) n total (pair ∷ rest) m q size enough s =
      let there = is_there_match_lem pair rest m.matchmaker q in
      elim (round_in-GoesWell n pair rest m q s) [
        | inl (none_named, beats, e) ↦
            let left = ap length q in
            (
              beats,
              m,
              rw (hand_matches, there) (rw e refl),
              inr (n, omega (arith, left, size), omega (arith, left), none_named),
              s,
            )
        | inr (calls, m', e, q', s') ↦
            let (later, m'', e', ends, s'') =
              hand_matches_ends fuel (suc n) total rest m' q' (omega (arith, size)) (omega arith)
                s' in
            (
              calls ++ later,
              m'',
              rw (hand_matches, there) (rw e (rw (continued, e') refl)),
              ends,
              s'',
            )
      ]

  -- While no session has a socket that is gone in some round of the loop, and no other handler changes
  -- the sessions or the queues meanwhile, whatever the streams, the answers and Redis are in each
  -- round: after the players are paired, the loop over the matches comes to its end without following
  -- a null pointer. Then no match is left; or matches are left, each round before removed one, and in
  -- the round on the next one TransferMatch named no battle server.
  -- No session has a socket that is gone then either, and the three maps are still together.
  pub match_make_ends :
      (interpolate : D) (m : Server)
      → IsSound lives m
      → (calls : List Effect) × (m' : Server) × (match_make double host to_string outside
            interpolate m
          ≡ some (calls, m'))
        × IsEnd (length (process double interpolate m.matchmaker).match_queue) m'
        × IsSound lives m'
  unfolding match_make
  match_make_ends interpolate m s =
      let paired = process double interpolate m.matchmaker in
      hand_matches_ends (length paired.match_queue) 0 (length paired.match_queue) paired.match_queue
        (record m { matchmaker = paired }) refl (omega arith) (omega arith)
        (record { paired = s.paired; present = s.present })
