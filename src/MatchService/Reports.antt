-- ===== src/MatchService/Reports.antt =====
-- source/match/MatchServiceServer and source/battle/MyBattle: the answers of a battle server on its
-- stream.
use drgb_server.Prelude.{
  ℕ, ◌<◌, ◌%◌, ◌≡◌, ◌≢◌, refl, sym, ap, subst, ◌∙◌, inl, inr, ◌||◌, ◌==◌, Bool-cases, Option, none,
  some, Option-cases, List, [], ◌∷◌, ◌++◌, append_assoc, append-nil, map, arith,
}
use drgb_server.Map.{Order, find, assign}
use drgb_server.Map.Numbers.{nat_order}
use drgb_server.Map.Laws.{find-assign_self, find-assign_ne, find-insert_ne}
use drgb_server.DeMap
use drgb_server.DeMap.{DeMap}
use drgb_server.DeMap.Pairing.{IsPaired, added}
use drgb_server.DeMap.Keys.{Entry, added-Entry}
use drgb_server.TimerPool.{get_timer}
use drgb_server.BattleServer.{Battle, answered, opened, match_transfer}
use drgb_server.MatchService.Stream.{Service, reading, loop, session_stream}
use drgb_server.MatchService.Rounds.{loop_round, session_stream-loop}

-- The arguments of one call of MatchTransfer.
pub record Request {ℓ} (C : Type ℓ) : Type ℓ where
  pub lpid : ℕ
  pub rpid : ℕ
  pub lpresult : Option C
  pub rpresult : Option C
  pub infos : Option (List (List ℕ))

-- What SetUsage writes to the stream.
abbrev pub sent : List ℕ → List (Option ℕ)
sent usages = map (λ u. some (u % 4294967296)) usages

-- The answer that came last.
abbrev pub last_answer : ℕ → List ℕ → ℕ
last_answer answer [] = answer
last_answer answer (a ∷ []) = a
last_answer answer (a ∷ usage ∷ rest) = last_answer a rest

module _ {ℓ} {C : Type ℓ} ⦃o : Order C⦄ where
  unfoldable pub transferred : Request C → Battle C → Battle C
  transferred r b = match_transfer r.lpid r.rpid r.lpresult r.rpresult r.infos b

  unfoldable pub transfers : List (Request C) → Battle C → Battle C
  transfers [] b = b
  transfers (r ∷ requests) b = transfers requests (transferred r b)

  -- The usage that is stored behind some requests: the one that was there, or the count of sessions.
  abbrev pub told_usage : List (Request C) → ℕ → ℕ → ℕ
  told_usage [] old count = old
  told_usage (r ∷ requests) old count = count

  -- A call tells the answer, which is 0 or 1, and then the count of sessions.
  abbrev Tells : Battle C → Battle C → Type 0
  Tells b b' = (a : ℕ) × (a < 2) × (b'.usages ≡ b.usages ++ (a ∷ DeMap.size b'.sessions ∷ []))

  answered-Tells : (a : ℕ) (b c : Battle C) → a < 2 → c.usages ≡ b.usages → Tells b (answered a c)
  unfolding answered
  answered-Tells a b c small same =
      (a, small, ap (λ us. us ++ (a ∷ DeMap.size c.sessions ∷ [])) same)

  transferred-Tells : (r : Request C) (b : Battle C) → Tells b (transferred r b)
  unfolding transferred match_transfer opened
  transferred-Tells r b =
      let (timer, gamepool) = get_timer b.gamepool in
      let b' = record b { gamepool = gamepool } in
      let taken = answered-Tells 1 b b' (omega arith) refl in
      elim (Bool-cases ((r.lpid == 0) || (r.rpid == 0))) [
        | inl e ↦ rw (match_transfer, e) (answered-Tells 0 b b (omega arith) refl)
        | inr e ↦ elim (Option-cases timer) [
          | inl t ↦ rw (match_transfer, e, t) taken
          | inr (timer', t) ↦ elim (Option-cases r.lpresult) [
            | inl l ↦ rw (match_transfer, e, t, l) taken
            | inr (lcookie, l) ↦ elim (Option-cases r.rpresult) [
              | inl q ↦ rw (match_transfer, e, t, l, q) taken
              | inr (rcookie, q) ↦ elim (Option-cases r.infos) [
                | inl i ↦
                    rw (match_transfer, e, t, l, q, i) (answered-Tells 0 b _ (omega arith) refl)
                | inr (players, i) ↦
                    rw (match_transfer, e, t, l, q, i) (answered-Tells 1 b _ (omega arith) refl)
              ]
            ]
          ]
        ]
      ]

-- The streams with other ids are as they were.
abbrev pub Others : ℕ → DeMap ℕ ℕ ℕ → DeMap ℕ ℕ ℕ → Type 0
Others id d d' = (x : ℕ) → x ≢ id → (find x d'.lrm ≡ find x d.lrm) × (find x d'.kvm ≡ find x d.kvm)

module _ {ℓ} {C : Type ℓ} ⦃o : Order C⦄ where
  told_count :
      (requests : List (Request C)) (b : Battle C)
      → let count = DeMap.size (transfers requests b).sessions % 4294967296 in
        told_usage requests (DeMap.size b.sessions % 4294967296) count ≡ count
  unfolding transfers
  told_count [] b = refl
  told_count (r ∷ requests) b = refl

  -- The loop follows any requests that the battle server answers.
  loop-transfers :
      (stream id old : ℕ) (requests : List (Request C)) (b : Battle C) (s : Service)
      → Entry s.streams id stream old
      → (new : List ℕ) × ((transfers requests b).usages ≡ b.usages ++ new)
        × let r = loop stream (reading id, s) (sent new) in
          (r.0 ≡ reading id)
          × Entry r.1.streams id stream
              (told_usage requests old (DeMap.size (transfers requests b).sessions % 4294967296))
          × (r.1.recent_success ≡ last_answer s.recent_success new)
          × Others id s.streams r.1.streams
  unfolding transfers loop
  loop-transfers stream id old [] b s entry =
      ([], sym (append-nil b.usages), (refl, entry, refl, λ x ne. (refl, refl)))
  loop-transfers stream id old (request ∷ requests) b s entry =
      let b1 = transferred request b in
      let (a, small, tells) = transferred-Tells request b in
      let n = DeMap.size b1.sessions % 4294967296 in
      let s1 : Service = record {
        streams = record s.streams { kvm = assign id n s.streams.kvm };
        recent_success = a % 4294967296;
      } in
      let entry1 : Entry s1.streams id stream n =
        (entry.0, entry.1, find-assign_self id n s.streams.kvm) in
      let (new, usages, after) = loop-transfers stream id n requests b1 s1 entry1 in
      let same : a % 4294967296 ≡ a = omega arith in
      (
        a ∷ DeMap.size b1.sessions ∷ new,
        usages ∙ ap (λ us. us ++ new) tells ∙ append_assoc b.usages _ new,
        rw (loop_round stream id old (a % 4294967296) n (sent new) s entry) (
          after.0,
          subst (λ u. Entry (loop stream (reading id, s1) (sent new)).1.streams id stream u)
              (told_count requests b1) after.1,
          after.2 ∙ ap (λ r. last_answer r new) same,
          λ x ne. ((after.3 x ne).0, (after.3 x ne).1 ∙ find-assign_ne x id n s.streams.kvm ne),
        ),
      )

  -- A battle server connects with an id that no stream has, while there are fewer streams than the
  -- limit, and then answers any requests in turn: its handler goes on reading; the stream is stored
  -- under the id, with the count of the battle server's sessions as its usage, or 0 before the first
  -- request; `Recent_Success` is the answer to the last request; the other streams stay as they were.
  pub session_stream-transfers :
      (stream id : ℕ) (requests : List (Request C)) (b : Battle C) (s : Service)
      → IsPaired s.streams
      → DeMap.size s.streams < 2147483646
      → find id s.streams.lrm ≡ none
      → find stream s.streams.rlm ≡ none
      → (new : List ℕ) × ((transfers requests b).usages ≡ b.usages ++ new)
        × let r = session_stream stream (some id) (sent new) s in
          (r.0 ≡ reading id)
          × Entry r.1.streams id stream
              (told_usage requests 0 (DeMap.size (transfers requests b).sessions % 4294967296))
          × (r.1.recent_success ≡ last_answer s.recent_success new)
          × Others id s.streams r.1.streams
  unfolding added
  session_stream-transfers stream id requests b s p room free free' =
      let s1 : Service = record s { streams = added id stream 0 s.streams } in
      let (new, usages, after) =
        loop-transfers stream id 0 requests b s1 (added-Entry id stream 0 s.streams p free free') in
      (
        new,
        usages,
        rw (session_stream-loop stream id (sent new) s p room free free') (
          after.0,
          after.1,
          after.2,
          λ x ne. (
            (after.3 x ne).0 ∙ find-insert_ne x id stream s.streams.lrm ne,
            (after.3 x ne).1 ∙ find-insert_ne x id 0 s.streams.kvm ne,
          ),
        ),
      )
