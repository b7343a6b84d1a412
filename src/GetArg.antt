-- ===== src/GetArg.antt =====
-- source/utils/GetArg: the arguments of the command line, `name=value`.
-- A text is its characters; `find` gives a position that fits into an `int`.
use drgb_server.Prelude.{
  ℕ, suc, ◌<◌, ◌≡◌, ◌≢◌, refl, false, ◌||◌, Option, none, some, List, [], ◌∷◌, ◌++◌, ◌==◌, leb,
  if◌then◌else◌, length, take, drop, All, take-append, length-append, arith,
}

-- `input.find('=')`
unfoldable pub find_equal : List ℕ → Option ℕ
find_equal [] = none
find_equal (c ∷ text) =
    let later : Option ℕ = elim (find_equal text) [ none ↦ none | some i ↦ some (suc i) ] in
    if c == 61 then some 0 else later

-- `none` is the result false, which leaves `var` and `value` as they were.
unfoldable pub splitarg : List ℕ → Option (List ℕ × List ℕ)
splitarg input = elim (find_equal input) [
  | none ↦ none
  | some ptr ↦
      if leb ptr 0 || leb (length input) ptr
      then none
      else some (take ptr input, drop (suc ptr) input)
]

find_equal-append :
    (name value : List ℕ)
    → All (λ c. c ≢ 61) name
    → find_equal (name ++ 61 ∷ value) ≡ some (length name)
unfolding find_equal
find_equal-append [] value plain = refl
find_equal-append (c ∷ name) value (ne, plain) =
    let other : (c == 61) ≡ false = ground arith in
    rw (find_equal, other) (rw (find_equal-append name value plain) refl)

drop-append_one :
    (name value : List ℕ) (c : ℕ) → drop (suc (length name)) (name ++ c ∷ value) ≡ value
drop-append_one [] value c = refl
drop-append_one (b ∷ name) value c = drop-append_one name value c

-- A name that is not empty and has no equal sign, an equal sign, and any value: both are given back.
pub splitarg-append :
    (name value : List ℕ)
    → 0 < length name
    → All (λ c. c ≢ 61) name
    → splitarg (name ++ 61 ∷ value) ≡ some (name, value)
unfolding splitarg
splitarg-append name value filled plain =
    let inside : (leb (length name) 0 || leb (length (name ++ 61 ∷ value)) (length name)) ≡ false =
      ground (arith, length-append name (61 ∷ value)) in
    rw (splitarg, find_equal-append name value plain)
      (rw inside (rw (take-append name (61 ∷ value), drop-append_one name value 61) refl))
