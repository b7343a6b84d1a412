-- ===== src/BattleServer/Transfer.antt =====
-- MatchTransfer: what each outcome leaves.
use drgb_server.Prelude.{
  ℕ, suc, ◌≡◌, ◌≢◌, ◌<◌, refl, ap, sym, ◌∙◌, true, false, none, some, List, [], ◌∷◌, ◌++◌, ◌==◌,
  ==_refl, length, get_elem?, All, arith,
}
use drgb_server.Map.{Order, find}
use drgb_server.Map.Numbers.{nat_order}
use drgb_server.DeMap
use drgb_server.DeMap.{DeMap}
use drgb_server.DeMap.Pairing.{IsPaired, added, added-IsPaired}
use drgb_server.Map.Laws.{find-insert_ne}
use drgb_server.DeMap.Keys.{Entry, insert-added, added-Entry, added-Entry_other}
use drgb_server.TimerPool.{TimerPool, get_timer, release_timer, without}
use drgb_server.BattleServer.{Battle, answered, opened, match_transfer, new_info}

-- The timers of a running pool are numbered below the next one.
abbrev pub IsFresh : TimerPool → Type 0
IsFresh p = All (λ t. t < p.made) p.timer_set

without_new :
    (made : ℕ) (timers : List ℕ) → All (λ t. t < made) timers → without made timers ≡ timers
unfolding without
without_new made [] h = refl
without_new made (t ∷ timers) h =
    let differ : (t == made) ≡ false = (let small = h.0 in ground arith) in
    rw (without, differ) (ap (◌∷◌ t) (without_new made timers h.1))

get_timer-running :
    (p : TimerPool)
    → p.is_running ≡ true
    → get_timer p ≡ (some p.made, record p { timer_set = p.made ∷ p.timer_set; made = suc p.made })
unfolding get_timer
get_timer-running p r = simp r refl

-- A timer that is acquired and released again leaves the pool's timers as they were.
pub release_timer-get_timer :
    (p : TimerPool)
    → IsFresh p
    → p.is_running ≡ true
    → (t : ℕ) × ((get_timer p).0 ≡ some t)
      × ((release_timer t (get_timer p).1).timer_set ≡ p.timer_set)
unfolding get_timer release_timer without
release_timer-get_timer p h r =
    (p.made, rw r refl, rw r (rw (==_refl p.made) (without_new p.made p.timer_set h)))

released :
    (p : TimerPool)
    → IsFresh p
    → p.is_running ≡ true
    → (release_timer p.made
        (record p { timer_set = p.made ∷ p.timer_set; made = suc p.made })).timer_set
      ≡ p.timer_set
unfolding release_timer without
released p h r = rw r (rw (==_refl p.made) (without_new p.made p.timer_set h))

get_elem?-length :
    {A : Type 0} (xs : List A) (x : A) → get_elem? (xs ++ (x ∷ [])) (length xs) ≡ some x
get_elem?-length [] x = refl
get_elem?-length (y ∷ xs) x = get_elem?-length xs x

module _ {ℓ} {C : Type ℓ} ⦃o : Order C⦄ where
  -- Keys that differ from those of a new entry stay free.
  added_free :
      (a a' : ℕ) (c c' : C) (game : ℕ) (d : DeMap ℕ C ℕ)
      → a' ≢ a
      → c' ≢ c
      → find a' d.lrm ≡ none
      → find c' d.rlm ≡ none
      → (find a' (added a c game d).lrm ≡ none) × (find c' (added a c game d).rlm ≡ none)
  unfolding added
  added_free a a' c c' game d ne ne' e e' =
      (find-insert_ne a' a c d.lrm ne ∙ e, find-insert_ne c' c a d.rlm ne' ∙ e')

  -- A new entry under free keys leaves each entry that is there.
  added-Entry_fresh :
      (a : ℕ) (c : C) (x : ℕ) (k : C) (game v : ℕ) (d : DeMap ℕ C ℕ)
      → find a d.lrm ≡ none
      → find c d.rlm ≡ none
      → Entry d x k v
      → Entry (added a c game d) x k v
  added-Entry_fresh a c x k game v d e e' entry =
      added-Entry_other a x c k game v d (λ same. cc (ap (λ y. find y d.lrm) same, entry.0, e))
        (λ same. cc (ap (λ y. find y d.rlm) same, entry.1, e')) entry

  -- A transfer whose players the database cannot tell is answered with 0, and leaves the sessions,
  -- the battles and the timers as they were.
  pub transfer_failed :
      (lpid rpid : ℕ) (lcookie rcookie : C) (b : Battle C)
      → (lpid == 0) ≡ false
      → (rpid == 0) ≡ false
      → b.gamepool.is_running ≡ true
      → IsFresh b.gamepool
      → (b' : Battle C) × (match_transfer lpid rpid (some lcookie) (some rcookie) none b ≡ b')
        × (b'.sessions ≡ b.sessions)
        × (b'.games ≡ b.games)
        × (b'.gamepool.timer_set ≡ b.gamepool.timer_set)
        × (b'.usages ≡ b.usages ++ (0 ∷ DeMap.size b.sessions ∷ []))
  unfolding match_transfer answered
  transfer_failed lpid rpid lcookie rcookie b l r running fresh = (
    answered 0 (record b {
      gamepool = release_timer b.gamepool.made (record b.gamepool {
        timer_set = b.gamepool.made ∷ b.gamepool.timer_set;
        made = suc b.gamepool.made;
      });
    }),
    rw (match_transfer, l, r, get_timer-running b.gamepool running)
        (rw (get_timer-running b.gamepool running) refl),
    refl,
    refl,
    released b.gamepool fresh running,
    refl,
  )

  -- A transfer of two players with different ids that are not 0 and different cookies, of whom the
  -- server has no session under either, while Redis has both cookies, the database answers and the
  -- timer pool runs: the three maps of the sessions stay together, both sessions lead to the new
  -- battle, at the end of the list, every session that was there before is still there as it was,
  -- and the answer is success.
  pub transfer-Entry :
      (lpid rpid : ℕ) (lcookie rcookie : C) (infos : List (List ℕ)) (b : Battle C)
      → (lpid == 0) ≡ false
      → (rpid == 0) ≡ false
      → b.gamepool.is_running ≡ true
      → IsPaired b.sessions
      → rpid ≢ lpid
      → rcookie ≢ lcookie
      → find lpid b.sessions.lrm ≡ none
      → find rpid b.sessions.lrm ≡ none
      → find lcookie b.sessions.rlm ≡ none
      → find rcookie b.sessions.rlm ≡ none
      → (b' : Battle C) × (match_transfer lpid rpid (some lcookie) (some rcookie) (some infos) b
          ≡ b')
        × IsPaired b'.sessions
        × Entry b'.sessions lpid lcookie (length b.games)
        × Entry b'.sessions rpid rcookie (length b.games)
        × ((x : ℕ) (c : C) (game : ℕ) → Entry b.sessions x c game → Entry b'.sessions x c game)
        × (get_elem? b'.games (length b.games) ≡ some (new_info b.gamepool.made lpid rpid infos))
        × (b'.usages ≡ b.usages ++ (1 ∷ DeMap.size b'.sessions ∷ []))
  unfolding match_transfer answered opened
  transfer-Entry lpid rpid lcookie rcookie infos b l r running p ne ne' fl fr fl' fr' =
      let game = length b.games in
      let one = added lpid lcookie game b.sessions in
      let one-IsPaired = added-IsPaired lpid lcookie game b.sessions fl fl' p in
      let (free, free') = added_free lpid rpid lcookie rcookie game b.sessions ne ne' fr fr' in
      let two = added rpid rcookie game one in
      (
        record b {
          sessions = two;
          games = b.games ++ (new_info b.gamepool.made lpid rpid infos ∷ []);
          gamepool = record b.gamepool {
            timer_set = b.gamepool.made ∷ b.gamepool.timer_set;
            made = suc b.gamepool.made;
          };
          usages = b.usages ++ (1 ∷ DeMap.size two ∷ []);
        },
        rw (match_transfer, l, r, get_timer-running b.gamepool running)
            (rw
              (
                get_timer-running b.gamepool running,
                insert-added lpid lcookie game b.sessions fl fl',
              )
              (rw (insert-added rpid rcookie game one free free') refl)),
        added-IsPaired rpid rcookie game one free free' one-IsPaired,
        added-Entry_other rpid lpid rcookie lcookie game game one (λ e. ne (sym e))
            (λ e. ne' (sym e)) (added-Entry lpid lcookie game b.sessions p fl fl'),
        added-Entry rpid rcookie game one one-IsPaired free free',
        λ x c v entry.
            added-Entry_fresh rpid rcookie x c game v one free free'
              (added-Entry_fresh lpid lcookie x c game v b.sessions fl fl' entry),
        get_elem?-length b.games (new_info b.gamepool.made lpid rpid infos),
        refl,
      )
