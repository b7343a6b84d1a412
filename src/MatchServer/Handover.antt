-- ===== src/MatchServer/Handover.antt =====
-- source/match/MyMatch: the body of the loop of `MatchMake`.
-- `live` says which sockets still exist, `is_open` which of them are open, `refresh` is the reply of
-- RefreshInfo for an account and its cookie; `service`, `written` and `waited` are those of
-- MatchService/Asking at the call of TransferMatch. Each round of the loop has its own.
use drgb_server.Prelude.{
  ℕ, zero, suc, Bool, true, false, ◌&&◌, ◌||◌, leb, Option, none, some, List, [], ◌∷◌, ◌++◌, ◌==◌,
  if◌then◌else◌, length,
}
use drgb_server.Encoder.{codes}
use drgb_server.Map.Numbers.{nat_order}
use drgb_server.Map.Bytes.{bytes_order}
use drgb_server.DeMap.{find_lkey, erase_lkey}
use drgb_server.MatchMaker.{Element, Doubles, is_there_match, get_match, pop_match, enter, process}
use drgb_server.MatchService.Stream.{Service}
use drgb_server.MatchService.Asking.{transfer}
use drgb_server.Session.{
  alive, Effect, sends, closes, sets_info, message_of, ans_heartbeat, ans_matchmade,
}
use drgb_server.MatchServer.{Server}

-- A player of a match: no session or a closed connection, or the cookie and the socket; a session
-- whose socket is gone makes the code follow a null pointer.
pub data Claim : Type 0 where
  crash : Claim
  gone : Claim
  ready : List ℕ → ℕ → Claim

module _ (live : ℕ → Bool) (is_open : ℕ → Bool) (refresh : ℕ → List ℕ → Bool) where
  unfoldable pub claimed : ℕ → Option (List ℕ × Option ℕ) → Claim × List Effect
  claimed id none = (gone, [])
  claimed id (some (cookie, socket)) = elim (alive live socket) [
    | none ↦ (crash, [])
    | some s ↦
        let beat = sends s (ans_heartbeat ∷ []) in
        if refresh id cookie && is_open s
        then (ready cookie s, beat ∷ [])
        else (gone, beat ∷ closes s ∷ [])
  ]

  unfoldable pub claim : ℕ → Server → (Claim × List Effect) × Server
  claim id m =
      let (found, sessions) = find_lkey none id m.sessions in
      (claimed id found, record m { sessions = sessions })

unfoldable pub erased : ℕ → Server → Server
erased id m = record m { sessions = (erase_lkey none id m.sessions).1 }

unfoldable pub match_popped : Server → Server
match_popped m = record m { matchmaker = pop_match m.matchmaker }

-- One player is told the battle server.
abbrev pub told : Bool → ℕ → ℕ → List Effect
told host socket battle =
    sends socket (message_of host ans_matchmade ((4, battle) ∷ [])) ∷ closes socket ∷ []

-- Does the result of `TransferMatch` name a battle server? It is not, as an `int`, at most 0.
unfoldable pub taken_by : Option ℕ → Option ℕ
taken_by none = none
taken_by (some server) = if server == 0 || leb 2147483648 server then none else some server

module _ (host : Bool) (to_string : ℕ → List ℕ) where
  unfoldable pub hand_over : ℕ → ℕ → List ℕ → List ℕ → ℕ → ℕ → ℕ → Server → List Effect × Server
  hand_over lid rid lcookie rcookie lsocket rsocket battle m =
      let name = codes "battle" ++ to_string battle in
      (
        sets_info lid lcookie name
            ∷ sets_info rid rcookie name
            ∷ (told host lsocket battle ++ told host rsocket battle),
        match_popped (erased rid (erased lid m)),
      )

module _ {ℓ} {D : Type ℓ} (double : Doubles D) where
  -- A player of a match that is off goes back to the queue, or its session ends.
  unfoldable pub put_back : Element → Claim → Server → Server
  put_back e (ready _ _) m = record m { matchmaker = enter double e m.matchmaker }
  put_back e gone m = erased e.id m
  put_back e crash m = m

-- How one round of the loop ends: with a null pointer, with `break`, or with the next round.
pub data Round : Type 0 where
  crashes : Round
  stops : List Effect → Server → Round
  goes_on : List Effect → Server → Round

-- What a round leads to, with the rest of the loop.
unfoldable pub continued :
    (Server → Option (List Effect × Server)) → Round → Option (List Effect × Server)
continued again crashes = none
continued again (stops beats m) = some (beats, m)
continued again (goes_on calls m) = elim (again m) [
  | none ↦ none
  | some (later, m') ↦ some (calls ++ later, m')
]

module _ {ℓ} {D : Type ℓ} (double : Doubles D) (host : Bool) (to_string : ℕ → List ℕ)
    (live : ℕ → Bool) (is_open : ℕ → Bool) (refresh : ℕ → List ℕ → Bool) (written : ℕ → Bool)
    (waited : ℕ → Service → Service) (service : Service) where
  -- The two branches on the claims of both players.
  unfoldable pub decided : Element → Element → Claim → Claim → List Effect → Server → Round
  decided lp rp crash rc beats m = crashes
  decided lp rp lc crash beats m = crashes
  decided lp rp (ready lcookie lsocket) (ready rcookie rsocket) beats m =
      elim (taken_by (transfer written waited service).0) [
        | none ↦ stops beats m
        | some battle ↦
            let (calls, m') =
              hand_over host to_string lp.id rp.id lcookie rcookie lsocket rsocket battle m in
            goes_on (beats ++ calls) m'
      ]
  decided lp rp lc rc beats m =
      goes_on beats (match_popped (put_back double rp rc (put_back double lp lc m)))

  unfoldable pub round_of : Element × Element → Server → Round
  round_of (lp, rp) m =
      let (l, m') = claim live is_open refresh lp.id m in
      let (r, m'') = claim live is_open refresh rp.id m' in decided lp rp l.0 r.0 (l.1 ++ r.1) m''

  unfoldable pub match_round : Server → Round
  match_round m = round_of (get_match m.matchmaker) m

-- What a round of the loop meets.
pub record Surroundings : Type 0 where
  pub live : ℕ → Bool
  pub is_open : ℕ → Bool
  pub refresh : ℕ → List ℕ → Bool
  pub written : ℕ → Bool
  pub after_wait : ℕ → Service → Service
  pub service : Service

-- What TransferMatch names in a round.
unfoldable pub named_server : Surroundings → Option ℕ
named_server o = taken_by (transfer o.written o.after_wait o.service).0

module _ {ℓ} {D : Type ℓ} (double : Doubles D) (host : Bool) (to_string : ℕ → List ℕ)
    (outside : ℕ → Surroundings) where
  unfoldable pub round_in : Surroundings → Server → Round
  round_in o m =
      match_round double host to_string o.live o.is_open o.refresh o.written o.after_wait o.service
        m

  -- The inner loop from round `n` on, on fuel; `none` is the null pointer.
  unfoldable pub hand_matches : ℕ → ℕ → Server → Option (List Effect × Server)
  hand_matches zero n m = some ([], m)
  hand_matches (suc fuel) n m = elim (is_there_match m.matchmaker) [
    | false ↦ some ([], m)
    | true ↦ continued (hand_matches fuel (suc n)) (round_in (outside n) m)
  ]

  -- What follows the wait in the outer loop.
  unfoldable pub match_make : D → Server → Option (List Effect × Server)
  match_make interpolate m =
      let paired = process double interpolate m.matchmaker in
      hand_matches (length paired.match_queue) 0 (record m { matchmaker = paired })
