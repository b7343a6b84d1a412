-- ===== src/Game/Input.antt =====
-- MyGame.cpp, `CheckAction` and `Action`: which inputs are taken.
use Prim.Native.Nat.{min, digits, bit_and, bit_and-bitwise}
use drgb_server.Prelude.{
  ℕ, zero, suc, ◌+◌, ◌*◌, ◌/◌, ◌^◌, ◌≤◌, ◌<◌, ◌≡◌, ◌↔◌, refl, sym, ◌∙◌, ◌⊎◌, inl, inr, Bool, true,
  ◌||◌, some, ◌==◌, ltb, ==_iff, if◌then◌else◌, Bool-cases, each_under, each_under_at, arith,
}
use drgb_server.Game.{
  Game, Player, Side, left, right, player, set_player, check_action, popcount, action, find,
  required_energy,
}
use drgb_server.Game.Rules.{
  Move, meditating, guarding, evading, punching, firing, code, cost, IsReady,
}
use drgb_server.Game.Standing.{IsFair}

-- `x & m`, as the native operation is defined, with `n` for its count of digits.
abbrev masked : ℕ → ℕ → ℕ → ℕ
masked n x m = digits (λ b. 0) min n x m

abbrev pow2 : ℕ → ℕ
pow2 zero = 1
pow2 (suc k) = pow2 k * 2

abbrev ones : ℕ → ℕ
ones zero = 0
ones (suc k) = ones k * 2 + 1

masked-ones : (k n x : ℕ) → x ≤ n → x < pow2 k → masked n x (ones k) ≡ x
masked-ones k zero zero h b = refl
masked-ones k zero (suc x) h b = absurd (omega arith)
masked-ones k (suc n) zero h b = refl
masked-ones zero (suc n) (suc x) h b = absurd (omega arith)
masked-ones (suc k) (suc n) (suc x) h b =
    let e : ones (suc k) / 2 ≡ ones k = omega arith in
    rw e (omega (arith, masked-ones k n (suc x / 2) (omega arith) (omega arith)))

-- A number that shares no bit with a block of `k` ones above bit `j` has its bits below `j`.
masked_high :
    (j k n x : ℕ) → x ≤ n → x < pow2 k * pow2 j → masked n x (ones k * pow2 j) ≡ 0 → x < pow2 j
masked_high j k n zero h b e = pow2-pos j
  where
    pow2-pos : (i : ℕ) → 0 < pow2 i
    pow2-pos zero = omega arith
    pow2-pos (suc i) = omega (arith, pow2-pos i)
masked_high j k zero (suc x) h b e = absurd (omega arith)
masked_high zero k (suc n) (suc x) h b e =
    let m : ones k * 1 ≡ ones k = omega arith in
    omega (arith, masked-ones k (suc n) (suc x) h (omega arith), rw m at e)
masked_high (suc j) k (suc n) (suc x) h b e =
    let q : ones k * (pow2 j * 2) / 2 ≡ ones k * pow2 j = omega arith in
    omega
      (arith, masked_high j k n (suc x / 2) (omega arith) (omega arith) (omega (arith, rw q at e)))

-- `action & ~0x1F` is 0 for the numbers below 32 only.
bit_and-high : (x : ℕ) → x < 2 ^ 32 → bit_and x 0xffff_ffe0 ≡ 0 → x < 32
bit_and-high x h e = masked_high 5 27 x x (omega arith) h (sym (bit_and-bitwise x 0xffff_ffe0) ∙ e)

one_bit : ℕ → Bool
one_bit x = if popcount 32 x == 1 then x == 1 || x == 2 || x == 4 || x == 8 || x == 16 else true

to_move :
    (x : ℕ) → (x == 1 || x == 2 || x == 4 || x == 8 || x == 16) ≡ true → (m : Move) × (x ≡ code m)
to_move x h = elim (Bool-cases (x == 1)) [
  | inl e ↦ (meditating, (==_iff x 1).0 e)
  | inr a ↦ elim (Bool-cases (x == 2)) [
    | inl e ↦ (guarding, (==_iff x 2).0 e)
    | inr b ↦ elim (Bool-cases (x == 4)) [
      | inl e ↦ (evading, (==_iff x 4).0 e)
      | inr c ↦ elim (Bool-cases (x == 8)) [
        | inl e ↦ (punching, (==_iff x 8).0 e)
        | inr d ↦ (firing, ground arith)
      ]
    ]
  ]
]

-- `CheckAction` takes exactly the codes of the five moves, among all the 2 ^ 32 inputs.
pub check_action_iff : (x : ℕ) → x < 2 ^ 32 → (check_action x ≡ true) ↔ ((m : Move) × (x ≡ code m))
unfolding check_action one_bit each_under
check_action_iff x h = (forth, back)
  where
    forth : check_action x ≡ true → (m : Move) × (x ≡ code m)
    forth e =
        let low : x < 32 = bit_and-high x h (ground arith) in
        to_move x (ground (arith, each_under_at one_bit 32 x low refl))

    is_checked : (m : Move) → check_action (code m) ≡ true
    is_checked meditating = refl
    is_checked guarding = refl
    is_checked evading = refl
    is_checked punching = refl
    is_checked firing = refl

    back : ((m : Move) × (x ≡ code m)) → check_action x ≡ true
    back (m, e) = rw e (is_checked m)

find-code : (m : Move) → find required_energy (code m) ≡ some (cost m)
unfolding find required_energy
find-code meditating = refl
find-code guarding = refl
find-code evading = refl
find-code punching = refl
find-code firing = refl

-- `Action` never throws. It changes the player's chosen action, and nothing else, if the input is
-- the code of a move that the player's energy pays for; any other input changes nothing.
pub action_cases :
    (g : Game) (i : Side) (x : ℕ)
    → x < 2 ^ 32
    → ((m : Move) × (x ≡ code m)
        × (cost m ≤ (player g i).energy)
        × (action g i x ≡ some (set_player g i (record (player g i) { action = x }))))
      ⊎ (action g i x ≡ some g)
unfolding action
action_cases g i x h = elim (Bool-cases (check_action x)) [
  | inr e ↦ inr (rw e)
  | inl e ↦
      let (m, c) = (check_action_iff x h).0 e in
      let f : find required_energy x ≡ some (cost m) = rw c (find-code m) in
      elim (Bool-cases (ltb (player g i).energy (cost m))) [
        | inl p ↦ inr (rw (e, f) (rw p))
        | inr p ↦ inl (m, c, ground arith, rw (e, f) (rw p))
      ]
]

chosen-IsReady :
    (i : Side) (p : Player) (m : Move) (x : ℕ)
    → x ≡ code m
    → cost m ≤ p.energy
    → IsReady i p
    → IsReady i (record p { action = x })
chosen-IsReady i p m x e paid r = record {
  move = m;
  chosen = e;
  affordable = paid;
  energy_capped = r.energy_capped;
  faces = r.faces;
}

chosen-IsFair :
    (g : Game) (i : Side) (m : Move) (x : ℕ)
    → x ≡ code m
    → cost m ≤ (player g i).energy
    → IsFair g
    → IsFair (set_player g i (record (player g i) { action = x }))
chosen-IsFair g left m x e paid f = record {
  left_ready = chosen-IsReady left g.left_player m x e paid f.left_ready;
  right_ready = f.right_ready;
  rounds = f.rounds;
  standing = f.standing;
}
chosen-IsFair g right m x e paid f = record {
  left_ready = f.left_ready;
  right_ready = chosen-IsReady right g.right_player m x e paid f.right_ready;
  rounds = f.rounds;
  standing = f.standing;
}

-- So any input of a client is taken without an exception, and a fair game stays fair and in its
-- round.
pub action-IsFair :
    (g : Game) (i : Side) (x : ℕ)
    → x < 2 ^ 32
    → IsFair g
    → (h : Game) × (action g i x ≡ some h) × IsFair h × (h.now_round ≡ g.now_round)
action-IsFair g i x b f = elim (action_cases g i x b) [
  | inl (m, e, paid, a) ↦ (
    set_player g i (record (player g i) { action = x }),
    a,
    chosen-IsFair g i m x e paid f,
    same i,
  )
  | inr a ↦ (g, a, f, refl)
]
  where
    same :
        (i : Side) → (set_player g i (record (player g i) { action = x })).now_round ≡ g.now_round
    same left = refl
    same right = refl
