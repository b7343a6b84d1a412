-- ===== src/SessionStore/Numerals.antt =====
-- std::to_string of an account id, and std::stoull of the text that source/redis/MyRedis reads back.
use drgb_server.Prelude.{
  ℕ, zero, suc, ◌+◌, ◌-◌, ◌*◌, ◌/◌, ◌%◌, ◌<◌, ◌≡◌, refl, ap, ◌∙◌, Bool, true, ◌&&◌, ◌||◌, Option,
  none, some, List, [], ◌∷◌, ◌++◌, ltb, leb, ◌==◌, if◌then◌else◌, All, length, length-append,
  Bool-cases, inl, inr, arith,
}

-- The decimal digits of a number; a number has fewer digits than the fuel.
unfoldable pub digits : ℕ → ℕ → List ℕ
digits zero n = []
digits (suc fuel) n =
    let front = digits fuel (n / 10) in
    if ltb n 10 then (48 + n) ∷ [] else front ++ (48 + n % 10) ∷ []

unfoldable pub to_string : ℕ → List ℕ
unfolding digits
to_string n = digits (suc n) n

unfoldable pub is_digit : ℕ → Bool
is_digit c = leb 48 c && leb c 57

-- The value of the digits that a text starts with.
unfoldable pub leading : ℕ → List ℕ → ℕ
leading value [] = value
leading value (c ∷ text) =
    let more = leading (10 * value + (c - 48)) text in if is_digit c then more else value

-- What follows blanks and a sign. `none` is an exception: no digit, or a number of 2 ^ 64 and more.
unfoldable pub unsigned : List ℕ → Option ℕ
unsigned [] = none
unsigned (c ∷ text) =
    let value = leading 0 (c ∷ text) in
    if is_digit c then (if ltb value 18446744073709551616 then some value else none) else none

-- A minus sign negates the unsigned number.
unfoldable pub negated : Option ℕ → Option ℕ
negated none = none
negated (some n) = some ((18446744073709551616 - n) % 18446744073709551616)

unfoldable pub stoull : List ℕ → Option ℕ
stoull [] = none
stoull (c ∷ text) =
    let after_blank = stoull text in
    if c == 32 || (leb 9 c && leb c 13)
    then after_blank
    else if c == 43
    then unsigned text
    else if c == 45
    then negated (unsigned text)
    else unsigned (c ∷ text)

abbrev IsDigit : ℕ → Type 0
IsDigit c = is_digit c ≡ true

leading-append :
    (value c : ℕ) (text : List ℕ)
    → All IsDigit text
    → IsDigit c
    → leading value (text ++ c ∷ []) ≡ 10 * leading value text + (c - 48)
unfolding leading
leading-append value c [] t d = rw (leading, d) refl
leading-append value c (b ∷ text) (first, rest) d =
    rw (leading, first) (leading-append (10 * value + (b - 48)) c text rest d)

All-snoc : (c : ℕ) (text : List ℕ) → All IsDigit text → IsDigit c → All IsDigit (text ++ c ∷ [])
All-snoc c [] t d = (d, tt)
All-snoc c (b ∷ text) (first, rest) d = (first, All-snoc c text rest d)

IsDigit-code : (n : ℕ) → n < 10 → IsDigit (48 + n)
unfolding is_digit
IsDigit-code n small = ground arith

digits_lem : (fuel n : ℕ) → n < fuel → All IsDigit (digits fuel n) × (leading 0 (digits fuel n) ≡ n)
unfolding digits leading
digits_lem zero n enough = elim enough [ ]
digits_lem (suc fuel) n enough = elim (Bool-cases (ltb n 10)) [
  | inl small ↦ rw small (let d = IsDigit-code n (ground arith) in ((d, tt), rw d (omega arith)))
  | inr large ↦
      let (front, value) = digits_lem fuel (n / 10) (ground arith) in
      let d = IsDigit-code (n % 10) (omega arith) in
      rw large (
        All-snoc (48 + n % 10) (digits fuel (n / 10)) front d,
        omega (arith, leading-append 0 (48 + n % 10) (digits fuel (n / 10)) front d),
      )
]

length-digits : (fuel n : ℕ) → 0 < length (digits (suc fuel) n)
unfolding digits
length-digits fuel n = ground (arith, length-append (digits fuel (n / 10)) ((48 + n % 10) ∷ []))

stoull_lem :
    (text : List ℕ)
    → All IsDigit text
    → 0 < length text
    → leading 0 text < 18446744073709551616
    → stoull text ≡ some (leading 0 text)
unfolding stoull unsigned is_digit leading
stoull_lem [] d filled small = elim filled [ ]
stoull_lem (c ∷ text) (d, _) filled small = ground arith

-- Every id that fits into 64 bits is read back.
pub stoull-to_string : (n : ℕ) → n < 18446744073709551616 → stoull (to_string n) ≡ some n
unfolding to_string
stoull-to_string n small =
    let (d, value) = digits_lem (suc n) n (omega arith) in
    stoull_lem (digits (suc n) n) d (length-digits n n) (omega arith) ∙ ap some value
