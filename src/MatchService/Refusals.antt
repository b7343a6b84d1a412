-- ===== src/MatchService/Refusals.antt =====
-- TransferMatch: the battle servers that are asked, in their order, and what the last of them answers.
use drgb_server.Prelude.{
  ℕ, zero, suc, ◌≤◌, ◌≡◌, refl, ◌⊎◌, inl, inr, Bool, true, false, Option, none, some, List, [], ◌∷◌,
  Bool-cases, length, All, arith,
}
use drgb_server.MatchService.{least, without}
use drgb_server.MatchService.Balance.{IsMember, least-IsMember, least-IsBound, without_shorter}
use drgb_server.MatchService.Stream.{Service, accepted}
use drgb_server.MatchService.Asking.{candidates, asked, asks, transfer}

-- A stream of the list, and no other has a smaller usage.
abbrev pub IsLeast : ℕ × ℕ → List (ℕ × ℕ) → Type 0
IsLeast best streams = IsMember best streams × All (λ t. best.1 ≤ t.1) streams

module _ (written : ℕ → Bool) (waited : ℕ → Service → Service) where
  -- Battle servers that are asked one after the other, each the least loaded of those that are left,
  -- and that get no message or whose wait ends without an acceptance.
  pub data Refusals : List (ℕ × ℕ) → Service → List (ℕ × ℕ) → Service → Type 0 where
    done : {streams : List (ℕ × ℕ)} {s : Service} → Refusals streams s streams s
    refuses :
        {streams rest : List (ℕ × ℕ)} {s s' : Service} (best : ℕ × ℕ)
        → IsLeast best streams
        → (written best.0 ≡ false) ⊎ (accepted (asked written waited best.0 s) ≡ false)
        → Refusals (without best.0 streams) (asked written waited best.0 s) rest s'
        → Refusals streams s rest s'

  -- How the asking ends behind the refusals: no stream is left, or the least loaded of those that are
  -- left gets the message, and its wait ends with an acceptance.
  abbrev pub IsLast : List (ℕ × ℕ) → Service → Option ℕ × Service → Type 0
  IsLast rest s result =
      ((rest ≡ []) × (result ≡ (none, s)))
      ⊎ ((best : ℕ × ℕ) × IsLeast best rest
          × (written best.0 ≡ true)
          × (accepted (asked written waited best.0 s) ≡ true)
          × (result ≡ (some best.0, asked written waited best.0 s)))

  abbrev IsRun : List (ℕ × ℕ) → Service → Option ℕ × Service → Type 0
  IsRun streams s result =
      (rest : List (ℕ × ℕ)) × (s' : Service) × Refusals streams s rest s' × IsLast rest s' result

  refused :
      (streams : List (ℕ × ℕ)) (s : Service) (best : ℕ × ℕ) (result : Option ℕ × Service)
      → IsLeast best streams
      → (written best.0 ≡ false) ⊎ (accepted (asked written waited best.0 s) ≡ false)
      → IsRun (without best.0 streams) (asked written waited best.0 s) result
      → IsRun streams s result
  refused streams s best result least_one negative (rest, s', run, end) =
      (rest, s', refuses best least_one negative run, end)

  asks-IsRun :
      (fuel : ℕ) (streams : List (ℕ × ℕ)) (s : Service)
      → length streams ≤ fuel
      → IsRun streams s (asks written waited fuel streams s)
  unfolding asks
  asks-IsRun zero [] s enough = ([], s, done, inl (refl, refl))
  asks-IsRun zero (c ∷ streams) s enough = elim enough [ ]
  asks-IsRun (suc fuel) [] s enough = ([], s, done, inl (refl, refl))
  asks-IsRun (suc fuel) (c ∷ streams) s enough =
      let best = least c streams in
      let s' = asked written waited best.0 s in
      let rest = without best.0 (c ∷ streams) in
      let member = least-IsMember c streams in
      let least_one : IsLeast best (c ∷ streams) = (member, least-IsBound c streams) in
      let shorter = without_shorter best (c ∷ streams) member in
      let later = asks-IsRun fuel rest s' (omega arith) in
      let after = refused (c ∷ streams) s best (asks written waited fuel rest s') least_one in
      elim (Bool-cases (written best.0)) [
        | inr w ↦ rw (asks, w) (after (inl w) later)
        | inl w ↦ elim (Bool-cases (accepted s')) [
          | inr a ↦ rw (asks, w) (rw a (after (inr a) later))
          | inl a ↦ rw (asks, w) (rw a ((c ∷ streams), s, done, inr (best, least_one, w, a, refl)))
        ]
      ]

  -- `TransferMatch` ends, and asks the battle servers that are stored at its call one by one, each time
  -- the least loaded of those that are left: first some that get no message, or whose wait ends
  -- without an acceptance; then, if any is left, one that gets the message and whose wait ends with
  -- `Recent_Success` an acceptance, which it returns. It returns none only behind the last of them.
  -- The acceptance may be a late answer of a server asked before: Recent_Success is shared.
  pub transfer-Refusals :
      (s : Service)
      → (rest : List (ℕ × ℕ)) × (s' : Service) × Refusals (candidates s) s rest s'
        × IsLast rest s' (transfer written waited s)
  unfolding transfer
  transfer-Refusals s = asks-IsRun (length (candidates s)) (candidates s) s (omega arith)
