-- ===== src/MatchServer/Rounds.antt =====
-- MyMatch: what a round of `MatchMake` does with the two players of the first match.
use drgb_server.Prelude.{
  ℕ, ◌≤◌, ◌<◌, ◌≡◌, ◌≢◌, refl, sym, ap, ◌∙◌, subst, ◌⊎◌, inl, inr, Bool, true, false, ◌&&◌, Option,
  none, some, List, [], ◌∷◌, Bool-cases, Option-cases, arith,
}
use drgb_server.Map.{find}
use drgb_server.Map.Numbers.{nat_order}
use drgb_server.Map.Bytes.{bytes_order}
use drgb_server.DeMap.Pairing.{IsPaired}
use drgb_server.DeMap.Keys.{Entry, find_lkey_cases}
use drgb_server.DeMap.Calls.{erase_lkey-IsPaired, erase_lkey_cases, erase_lkey_stays}
use drgb_server.MatchMaker.{Element, Doubles, ratio, less, insert_queue}
use drgb_server.MatchMaker.Waiting.{waiting}
use drgb_server.Session.{alive, Effect, sends, closes, ans_heartbeat}
use drgb_server.MatchServer.{Server}
use drgb_server.MatchServer.Handover.{Claim, crash, gone, ready, claimed, claim, erased}

-- Equality is symmetric, and two numbers that are in neither order are equal, as holds of doubles that
-- are numbers.
abbrev pub IsTotal {ℓ} : {D : Type ℓ} → Doubles D → Type ℓ
IsTotal {D = D} double =
    (a b : D)
    → (double.is_equal a b ≡ double.is_equal b a)
      × (double.is_less a b ≡ false → double.is_less b a ≡ false → double.is_equal a b ≡ true)

pub erased-IsPaired : (id : ℕ) (m : Server) → IsPaired m.sessions → IsPaired (erased id m).sessions
unfolding erased
erased-IsPaired id m p = erase_lkey-IsPaired none id m.sessions p

-- Erasing a session: the account has none, and no other account's session changes.
pub erased_cases :
    (id : ℕ) (m : Server)
    → IsPaired m.sessions
    → (find id (erased id m).sessions.lrm ≡ none)
      × ((x : ℕ)
          → x ≢ id
          → (find x (erased id m).sessions.lrm ≡ find x m.sessions.lrm)
            × (find x (erased id m).sessions.kvm ≡ find x m.sessions.kvm))
unfolding erased
erased_cases id m p = erase_lkey_cases none id m.sessions p

pub erased_stays :
    (id x : ℕ) (m : Server)
    → IsPaired m.sessions
    → find x m.sessions.lrm ≡ none
    → find x (erased id m).sessions.lrm ≡ none
unfolding erased
erased_stays id x m p none_there = erase_lkey_stays none id x m.sessions p none_there

module _ {ℓ} {D : Type ℓ} (double : Doubles D) where
  -- Neither of two players comes before the other: they are the same.
  pub less_neither :
      (e f : Element)
      → IsTotal double
      → less double e f ≡ false
      → less double f e ≡ false
      → f.id ≡ e.id
  unfolding less
  less_neither e f total h h' =
      let a = ratio double e in
      let b = ratio double f in
      let (symmetric, equal) = total a b in
      elim (Bool-cases (double.is_equal a b)) [
        | inl q ↦
            let q' : double.is_equal b a ≡ true = sym symmetric ∙ q in
            let k = rw (less, q) at h in let k' = rw (less, q') at h' in ground arith
        | inr q ↦
            let q' : double.is_equal b a ≡ false = sym symmetric ∙ q in
            let k = rw (less, q) at h in let k' = rw (less, q') at h' in cc (q, equal k k')
      ]

  pub insert_queue-waiting :
      (e : Element) (queue : List Element)
      → IsTotal double
      → 0 < waiting e.id (insert_queue double e queue)
  unfolding insert_queue waiting
  insert_queue-waiting e [] total = ground arith
  insert_queue-waiting e (f ∷ queue) total =
      let ih = insert_queue-waiting e queue total in
      elim (Bool-cases (less double e f)) [
        | inl h ↦ rw (insert_queue, h) (ground arith)
        | inr h ↦ elim (Bool-cases (less double f e)) [
          | inl h' ↦ rw (insert_queue, h) (rw h' (omega arith))
          | inr h' ↦
              let same = less_neither e f total h h' in rw (insert_queue, h) (rw h' (ground arith))
        ]
      ]

  pub insert_queue_grows :
      (x : ℕ) (e : Element) (queue : List Element)
      → waiting x queue ≤ waiting x (insert_queue double e queue)
  unfolding insert_queue waiting
  insert_queue_grows x e [] = omega arith
  insert_queue_grows x e (f ∷ queue) =
      let ih = insert_queue_grows x e queue in
      elim (Bool-cases (less double e f)) [
        | inl h ↦ rw (insert_queue, h) (omega arith)
        | inr h ↦ elim (Bool-cases (less double f e)) [
          | inl h' ↦ rw (insert_queue, h) (rw h' (omega arith))
          | inr h' ↦ rw (insert_queue, h) (rw h' (omega arith))
        ]
      ]

-- What the server has of a player whose claim came out so.
abbrev pub IsClaim : (ℕ → Bool) → (ℕ → Bool) → (ℕ → List ℕ → Bool) → Claim → ℕ → Server → Type 0
IsClaim live is_open refresh (ready cookie s) id m =
    Entry m.sessions id cookie (some s)
    × (live s ≡ true)
    × (refresh id cookie ≡ true)
    × (is_open s ≡ true)
IsClaim live is_open refresh gone id m =
    (find id m.sessions.lrm ≡ none)
    ⊎ ((cookie : List ℕ) × (s : ℕ) × Entry m.sessions id cookie (some s)
        × ((refresh id cookie && is_open s) ≡ false))
IsClaim live is_open refresh crash id m =
    (cookie : List ℕ) × (v : Option ℕ) × Entry m.sessions id cookie v × (alive live v ≡ none)

module _ (live : ℕ → Bool) (is_open : ℕ → Bool) (refresh : ℕ → List ℕ → Bool) where
  pub alive-some : (v : Option ℕ) (s : ℕ) → alive live v ≡ some s → (v ≡ some s) × (live s ≡ true)
  unfolding alive
  alive-some none s h = cc
  alive-some (some t) s h = elim (Bool-cases (live t)) [
    | inl l ↦ let same : t ≡ s = cc (rw l at h) in (ap some same, subst (λ x. live x ≡ true) same l)
    | inr l ↦ cc (rw l at h)
  ]

  -- A claim looks at the session and changes nothing.
  pub claim_cases :
      (id : ℕ) (m : Server)
      → IsPaired m.sessions
      → (c : Claim) × (beats : List Effect) × (claim live is_open refresh id m ≡ ((c, beats), m))
        × IsClaim live is_open refresh c id m
  unfolding claim claimed
  claim_cases id m p = elim (find_lkey_cases none id m.sessions p) [
    | inr (free, e) ↦ (gone, [], rw e refl, inl free)
    | inl (cookie, v, entry, e) ↦ elim (Option-cases (alive live v)) [
      | inl q ↦ (crash, [], rw e (rw (claimed, q) refl), (cookie, v, entry, q))
      | inr (s, q) ↦
          let (same, l) = alive-some v s q in
          let entry' : Entry m.sessions id cookie (some s) =
            subst (λ x. Entry m.sessions id cookie x) same entry in
          elim (Bool-cases (refresh id cookie && is_open s)) [
            | inl h ↦ (
              ready cookie s,
              sends s (ans_heartbeat ∷ []) ∷ [],
              rw e (rw (claimed, q) (rw h refl)),
              (entry', l, ground arith, ground arith),
            )
            | inr h ↦ (
              gone,
              sends s (ans_heartbeat ∷ []) ∷ closes s ∷ [],
              rw e (rw (claimed, q) (rw h refl)),
              inr (cookie, s, entry', h),
            )
          ]
    ]
  ]
