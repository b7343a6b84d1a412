-- ===== src/ConfigParser.antt =====
-- source/utils/ConfigParser: lines `key = value`, with comments and quotes. A character is its code.
use drgb_server.Prelude.{
  ℕ, suc, Bool, true, false, ◌&&◌, ◌||◌, Option, none, some, List, [], ◌∷◌, ◌++◌, Result, ok, err,
  leb, ◌==◌, if◌then◌else◌,
}
use drgb_server.Prelude.Int.{ℤ}
pub mod Line

-- `erase` of a position past the end of a string
pub data OutOfRange : Type 0 where
  out_of_range : OutOfRange

abbrev pub equal_sign : ℕ
equal_sign = 61

abbrev pub is_quote : ℕ → Bool
is_quote c = (c == 34) || (c == 39)

-- The blanks of `trim`: the space, and the characters from tab to carriage return.
abbrev pub is_blank : ℕ → Bool
is_blank c = (c == 32) || (leb 9 c && leb c 13)

-- The state of `check_line`: the open quote and the number of `=`.
unfoldable pub check_step : Option ℕ → ℕ → ℕ → Option ℕ × ℕ
check_step (some quote) num c = (if quote == c then none else some quote, num)
check_step none num c =
    if is_quote c then (some c, num) else if c == equal_sign then (none, suc num) else (none, num)

unfoldable pub check_from : Option ℕ → ℕ → List ℕ → Option ℕ × ℕ
check_from quotes num [] = (quotes, num)
check_from quotes num (c ∷ line) =
    let rest = check_from (check_step quotes num c).0 (check_step quotes num c).1 line in
    if leb 2 num then (quotes, num) else rest

unfoldable pub is_line : Option ℕ × ℕ → Bool
is_line (none, num) = num == 1
is_line (some _, num) = false

unfoldable pub check_line : List ℕ → Bool
check_line line = is_line (check_from none 0 line)

unfoldable pub trim_front : List ℕ → List ℕ
trim_front [] = []
trim_front (c ∷ text) = let rest = trim_front text in if is_blank c then rest else c ∷ text

-- `c`, if it is no blank or something is left behind it.
unfoldable pub kept : ℕ → List ℕ → List ℕ
kept c [] = if is_blank c then [] else c ∷ []
kept c (d ∷ rest) = c ∷ d ∷ rest

unfoldable pub trim_end : List ℕ → List ℕ
trim_end [] = []
trim_end (c ∷ text) = kept c (trim_end text)

unfoldable pub trim : List ℕ → List ℕ
trim text = trim_front (trim_end text)

unfoldable pub delete_comment : List ℕ → List ℕ
delete_comment [] = []
delete_comment (c ∷ text) = let rest = delete_comment text in if c == 35 then [] else c ∷ rest

-- The text in front of the first character that passes, and the text behind it.
unfoldable pub cut_at : (ℕ → Bool) → List ℕ → Option (List ℕ × List ℕ)
cut_at test [] = none
cut_at test (c ∷ text) =
    let rest = cut_at test text in
    if test c
    then some ([], text)
    else elim rest [ none ↦ none | some (front, back) ↦ some (c ∷ front, back) ]

-- A value with a quote is what stands behind it, up to the next quote, of whatever kind.
unfoldable pub unquoted : List ℕ → Result OutOfRange (List ℕ)
unquoted text = elim (cut_at is_quote text) [
  | none ↦ ok text
  | some (_, inner) ↦ elim (cut_at is_quote inner) [
    | none ↦ err out_of_range
    | some (value, _) ↦ ok value
  ]
]

unfoldable pub split : List ℕ → Result OutOfRange (List ℕ × List ℕ)
split line = elim (cut_at (λ c. c == equal_sign) line) [
  | none ↦ ok ([], line)
  | some (front, back) ↦ elim (unquoted (trim back)) [
    | err e ↦ err e
    | ok value ↦ ok (trim front, value)
  ]
]

unfoldable pub same_text : List ℕ → List ℕ → Bool
same_text [] [] = true
same_text [] (d ∷ b) = false
same_text (c ∷ a) [] = false
same_text (c ∷ a) (d ∷ b) = let rest = same_text a b in if c == d then rest else false

unfoldable pub find : List ℕ → List (List ℕ × List ℕ) → Option (List ℕ)
find key [] = none
find key ((k, value) ∷ dict) =
    let rest = find key dict in if same_text key k then some value else rest

-- `insert` of the map, which keeps a value that is there.
unfoldable pub insert : List ℕ → List ℕ → List (List ℕ × List ℕ) → List (List ℕ × List ℕ)
insert key value dict = elim (find key dict) [ some _ ↦ dict | none ↦ (key, value) ∷ dict ]

-- A line without a key stores nothing.
unfoldable pub stored : List ℕ → List ℕ → List (List ℕ × List ℕ) → List (List ℕ × List ℕ)
stored [] value dict = dict
stored (c ∷ key) value dict = insert (c ∷ key) value dict

-- The body of the loop of `ReadFile`.
unfoldable pub read_line :
    List ℕ → List (List ℕ × List ℕ) → Result OutOfRange (List (List ℕ × List ℕ))
read_line line dict =
    let text = trim (delete_comment line) in
    if check_line text
    then (elim (split text) [ err e ↦ err e | ok (key, value) ↦ ok (stored key value dict) ])
    else ok dict

unfoldable pub read_file :
    List (List ℕ) → List (List ℕ × List ℕ) → Result OutOfRange (List (List ℕ × List ℕ))
read_file [] dict = ok dict
read_file (line ∷ lines) dict = elim (read_line line dict) [
  | err e ↦ err e
  | ok dict' ↦ read_file lines dict'
]

unfoldable pub get_string : List ℕ → List ℕ → List (List ℕ × List ℕ) → List ℕ
get_string key default dict = elim (find key dict) [ none ↦ default | some value ↦ value ]

-- `stoi` and `stod` are the standard library's; `none` is their exception.
unfoldable pub get_parsed {ℓ} :
    {A : Type ℓ} → (List ℕ → Option A) → List ℕ → A → List (List ℕ × List ℕ) → A
get_parsed parse key default dict = elim (find key dict) [
  | none ↦ default
  | some value ↦ elim (parse value) [ none ↦ default | some a ↦ a ]
]
