-- ===== src/MatchServer/Admission.antt =====
-- MyMatch: who is let in, and that any course of events keeps the sessions together.
use drgb_server.Prelude.{
  ℕ, ◌≡◌, refl, sym, ap, ◌⊎◌, inl, inr, Bool, true, false, Option, none, some, List, [], ◌∷◌, ◌++◌,
  Bool-cases, Option-cases, Result-cases, subst, arith,
}
use drgb_server.ConfigParser.{same_text}
use drgb_server.Map.Numbers.{nat_order}
use drgb_server.Map.Bytes.{bytes_order}
use drgb_server.ByteQueue.{ByteQueue, of_vector}
use drgb_server.DeMap.Pairing.{IsPaired}
use drgb_server.DeMap.Keys.{Entry}
use drgb_server.MatchMaker.{Doubles}
use drgb_server.Session.{
  rejected, Effect, sends, closes, fills, receives, beats, throws, cancels, err_no_match_account,
  err_db_failed, take_field, header_of, keyword_match, PlayerInfo,
}
use drgb_server.MatchServer.{
  Server, Replies, player_info, join, authenticate, admitted, welcomed, start_match, request,
  client_process,
}
use drgb_server.MatchServer.Sessions.{Fits, join-IsPaired, join-Entry, disconnected-IsPaired}

-- Redis has a session of the account under the cookie, and it is at the match server.
abbrev pub Knows : (List ℕ → Option (ℕ × List ℕ)) → List ℕ → ℕ → Type 0
Knows found cookie id =
    (server : List ℕ) × (found cookie ≡ some (id, server)) × (same_text server keyword_match ≡ true)

-- The client got the error and is closed.
abbrev pub IsTurnedAway : ℕ → List Effect × Server → Server → Type 0
IsTurnedAway client after m = after ≡ (cancels client ∷ rejected client err_no_match_account, m)

no_info :
    (found : List ℕ → Option (ℕ × List ℕ)) (cookie : List ℕ)
    → found cookie ≡ none
    → ¬ ((id : ℕ) × Knows found cookie id)
no_info found cookie e (id, (server, k, _)) = cc

other_server :
    (found : List ℕ → Option (ℕ × List ℕ)) (cookie : List ℕ) (id : ℕ) (server : List ℕ)
    → found cookie ≡ some (id, server)
    → same_text server keyword_match ≡ false
    → ¬ ((i : ℕ) × Knows found cookie i)
other_server found cookie id server e h (i, (server', k, h')) = cc

-- What a client that is admitted is told: its player, if the database answers, or the failure.
abbrev pub informed : Bool → ℕ → Option (PlayerInfo × List (ℕ × ℕ)) → List Effect
informed host client none = sends client (err_db_failed ∷ []) ∷ closes client ∷ throws ∷ []
informed host client (some (info, achieves)) =
    sends client (player_info host info achieves)
    ∷ fills client
    ∷ receives client
    ∷ beats client
    ∷ []

welcomed-informed :
    (host : Bool) (client : ℕ) (reply : Option (PlayerInfo × List (ℕ × ℕ)))
    → welcomed host client reply ≡ informed host client reply
unfolding welcomed
welcomed-informed host client none = refl
welcomed-informed host client (some _) = refl

-- A cookie that was shown is admitted exactly when Redis has its session, at the match server: then
-- the three maps of the sessions stay together, the account has the session with this cookie and
-- client if the server knew nothing else of either. If the database answers, the client gets the
-- message on its player and its timer and its next handler are set; if not, it gets ERR_DB_FAILED and
-- is closed, an exception leaves the handler, and the session stays. A cookie that is not admitted
-- gets an error and its client is closed, and nothing changes.
pub admitted_cases :
    (host : Bool) (live : ℕ → Bool) (client : ℕ) (cookie : List ℕ)
    (found : List ℕ → Option (ℕ × List ℕ)) (infos : ℕ → Option (PlayerInfo × List (ℕ × ℕ)))
    (m : Server)
    → IsPaired m.sessions
    → ((id : ℕ) × Knows found cookie id
        × IsPaired (admitted host live client cookie (found cookie) infos m).1.sessions
        × (Fits id cookie m.sessions
            → Entry
                (admitted host live client cookie (found cookie) infos m).1.sessions
                id
                cookie
                (some client))
        × ((admitted host live client cookie (found cookie) infos m).0
            ≡ cancels client
              ∷ ((join live client id cookie m).0 ++ informed host client (infos id))))
      ⊎ ((¬ ((id : ℕ) × Knows found cookie id))
          × IsTurnedAway client (admitted host live client cookie (found cookie) infos m) m)
unfolding admitted
admitted_cases host live client cookie found infos m p = elim (Option-cases (found cookie)) [
  | inl e ↦ inr (λ k. no_info found cookie e k, rw e refl)
  | inr ((id, server), e) ↦ elim (Bool-cases (same_text server keyword_match)) [
    | inl h ↦ inl (
      id,
      (server, e, h),
      rw (e, h) (join-IsPaired live client id cookie m p),
      λ f. rw (e, h) (join-Entry live client id cookie m p f),
      rw (e, h)
          (ap (λ told. cancels client ∷ ((join live client id cookie m).0 ++ told))
            (welcomed-informed host client (infos id))),
    )
    | inr h ↦ inr (λ k. other_server found cookie id server e h k, rw (e, h) refl)
  ]
]

pub authenticate-IsPaired :
    (host : Bool) (live : ℕ → Bool) (client : ℕ) (message : Option (List ℕ))
    (found : List ℕ → Option (ℕ × List ℕ)) (infos : ℕ → Option (PlayerInfo × List (ℕ × ℕ)))
    (m : Server)
    → IsPaired m.sessions
    → IsPaired (authenticate host live client message found infos m).1.sessions
unfolding authenticate
authenticate-IsPaired host live client none found infos m p = p
authenticate-IsPaired host live client (some message) found infos m p =
    elim (Result-cases (take_field host 32 (of_vector host message))) [
      | inl (fault, e) ↦ rw (authenticate, e) p
      | inr (taken, e) ↦ elim (admitted_cases host live client taken.0 found infos m p) [
        | inl (id, k, p', _, _) ↦ rw (authenticate, e) p'
        | inr (_, away) ↦ rw (authenticate, e) (rw away p)
      ]
    ]

module _ {ℓ} {D : Type ℓ} (double : Doubles D) (host : Bool) where
  start_match-sessions :
      (client id : ℕ) (replies : Replies) (m : Server)
      → (start_match double client id replies m).1.sessions ≡ m.sessions
  unfolding start_match
  start_match-sessions client id replies m = elim (Option-cases replies.info) [
    | inl e ↦ rw (start_match, e) refl
    | inr (info, e) ↦ rw (start_match, e) refl
  ]

  request-sessions :
      (client id header : ℕ) (replies : Replies) (packet : ByteQueue) (m : Server)
      → (request double host client id replies header packet m).1.sessions ≡ m.sessions
  unfolding request
  request-sessions client id header replies packet m =
      let started = start_match-sessions client id replies m in ground arith

  pub client_process-IsPaired :
      (live : ℕ → Bool) (client id : ℕ) (replies : Replies) (message : Option (List ℕ)) (m : Server)
      → IsPaired m.sessions
      → IsPaired (client_process double host live client id replies message m).1.sessions
  unfolding client_process
  client_process-IsPaired live client id replies none m p = disconnected-IsPaired live client id m p
  client_process-IsPaired live client id replies (some message) m p =
      elim (Result-cases (header_of host message)) [
        | inl (fault, e) ↦ rw (client_process, e) p
        | inr (found, e) ↦
            rw (client_process, e)
              (subst IsPaired (sym (request-sessions client id found.0 replies found.1 m)) p)
      ]
