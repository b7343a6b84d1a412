-- ===== src/ConfigParser/Line.antt =====
-- ConfigParser: what a line stores.
use drgb_server.Prelude.{
  ℕ, ◌≡◌, refl, ap, sym, ◌∙◌, Bool, true, false, none, some, List, [], ◌∷◌, ◌++◌, append_assoc, ok,
  ◌==◌, ==_refl, All, arith,
}
use drgb_server.ConfigParser.{
  check_from, check_step, check_line, is_line, trim_front, kept, trim_end, trim, delete_comment,
  cut_at, unquoted, split, same_text, find, insert, stored, read_line, get_string, is_quote,
  is_blank, equal_sign,
}

-- A character of a key, and of a quoted value.
abbrev pub IsKeyChar : ℕ → Type 0
IsKeyChar c = ((c == equal_sign) ≡ false) × (is_quote c ≡ false) × ((c == 35) ≡ false)

abbrev pub IsValueChar : ℕ → Type 0
IsValueChar c = (is_quote c ≡ false) × ((c == 35) ≡ false)

-- `key="value"`, and what stands behind it
abbrev pub written : List ℕ → List ℕ → List ℕ → List ℕ
written key value after = key ++ (equal_sign ∷ 34 ∷ (value ++ (34 ∷ after)))

All-weaken : {P Q : ℕ → Type 0} → ((c : ℕ) → P c → Q c) → (text : List ℕ) → All P text → All Q text
All-weaken f [] h = tt
All-weaken f (c ∷ text) h = (f c h.0, All-weaken f text h.1)

trim_end-append :
    (text : List ℕ) (c : ℕ) → is_blank c ≡ false → trim_end (text ++ (c ∷ [])) ≡ text ++ (c ∷ [])
unfolding trim_end kept
trim_end-append [] c h = rw h refl
trim_end-append (d ∷ []) c h = rw (trim_end-append [] c h) refl
trim_end-append (d ∷ e ∷ text) c h = rw (trim_end-append (e ∷ text) c h) refl

delete_comment-value :
    (value : List ℕ) (rest : List ℕ)
    → All (λ c. (c == 35) ≡ false) value
    → delete_comment (value ++ rest) ≡ value ++ delete_comment rest
unfolding delete_comment
delete_comment-value [] rest h = refl
delete_comment-value (c ∷ value) rest h = rw h.0 (ap (◌∷◌ c) (delete_comment-value value rest h.1))

cut_at-append :
    (test : ℕ → Bool) (front back : List ℕ) (c : ℕ)
    → All (λ d. test d ≡ false) front
    → test c ≡ true
    → cut_at test (front ++ (c ∷ back)) ≡ some (front, back)
unfolding cut_at
cut_at-append test [] back c h k = rw k refl
cut_at-append test (d ∷ front) back c h k = rw h.0 (rw (cut_at-append test front back c h.1 k) refl)

check_from-key :
    (key rest : List ℕ)
    → All IsKeyChar key
    → check_from none 0 (key ++ rest) ≡ check_from none 0 rest
unfolding check_from check_step
check_from-key [] rest h = refl
check_from-key (c ∷ key) rest h = rw (h.0.1, h.0.0) (check_from-key key rest h.1)

check_from-value :
    (value : List ℕ)
    → All IsValueChar value
    → check_from (some 34) 1 (value ++ (34 ∷ [])) ≡ (none, 1)
unfolding check_from check_step
check_from-value [] h = refl
check_from-value (c ∷ value) h =
    let other : (34 == c) ≡ false = (let q = h.0.0 in ground arith) in
    rw other (check_from-value value h.1)

same_text_refl : (text : List ℕ) → same_text text text ≡ true
unfolding same_text
same_text_refl [] = refl
same_text_refl (c ∷ text) = rw (==_refl c) (same_text_refl text)

delete_comment-written :
    (key value after : List ℕ)
    → All IsKeyChar key
    → All IsValueChar value
    → delete_comment after ≡ []
    → delete_comment (written key value after) ≡ written key value []
unfolding delete_comment
delete_comment-written key value after hk hv comment =
    rw
      (
        delete_comment-value key (equal_sign ∷ 34 ∷ (value ++ (34 ∷ after)))
            (All-weaken (λ c h. h.2) key hk),
        delete_comment-value value (34 ∷ after) (All-weaken (λ c h. h.1) value hv),
        comment,
      )
      refl

trim-written :
    (c : ℕ) (key value : List ℕ)
    → is_blank c ≡ false
    → trim (written (c ∷ key) value []) ≡ written (c ∷ key) value []
unfolding trim trim_front
trim-written c key value h =
    let assoc = append_assoc (c ∷ key) (equal_sign ∷ 34 ∷ value) (34 ∷ []) in
    ap trim_front (
      ap trim_end (sym assoc)
      ∙ trim_end-append ((c ∷ key) ++ (equal_sign ∷ 34 ∷ value)) 34 refl
      ∙ assoc)
    ∙ rw h refl

check_line-written :
    (key value : List ℕ)
    → All IsKeyChar key
    → All IsValueChar value
    → check_line (written key value []) ≡ true
unfolding check_line check_from check_step is_line
check_line-written key value hk hv =
    rw (check_line, check_from-key key (equal_sign ∷ 34 ∷ (value ++ (34 ∷ []))) hk)
      (rw (check_from-value value hv) refl)

trim-key :
    (c : ℕ) (key : List ℕ)
    → is_blank c ≡ false
    → trim_end (c ∷ key) ≡ c ∷ key
    → trim (c ∷ key) ≡ c ∷ key
unfolding trim trim_front
trim-key c key h e = ap trim_front e ∙ rw h refl

unquoted-value :
    (value : List ℕ)
    → All IsValueChar value
    → unquoted (trim (34 ∷ (value ++ (34 ∷ [])))) ≡ ok value
unfolding unquoted trim trim_front cut_at
unquoted-value value hv =
    rw (trim_end-append (34 ∷ value) 34 refl) (
      rw (unquoted, cut_at-append is_quote value [] 34 (All-weaken (λ c h. h.0) value hv) refl)
        refl)

split-written :
    (c : ℕ) (key value : List ℕ)
    → is_blank c ≡ false
    → trim_end (c ∷ key) ≡ c ∷ key
    → All IsKeyChar (c ∷ key)
    → All IsValueChar value
    → split (written (c ∷ key) value []) ≡ ok (c ∷ key, value)
unfolding split
split-written c key value h e hk hv =
    rw
      (
        split,
        cut_at-append (λ d. d == equal_sign) (c ∷ key) (34 ∷ (value ++ (34 ∷ []))) equal_sign
            (All-weaken (λ d h. h.0) (c ∷ key) hk) refl,
      )
      (rw (unquoted-value value hv) (rw (trim-key c key h e) refl))

find-insert :
    (key value : List ℕ) (dict : List (List ℕ × List ℕ))
    → find key dict ≡ none
    → find key (insert key value dict) ≡ some value
unfolding find insert
find-insert key value dict e = rw (insert, e) (rw (same_text_refl key) refl)

-- A key that starts and ends with no blank, and has no `=`, `#` or quote, with a value in double
-- quotes that has no `#` and no quote but may have `=` and blanks, and anything behind it that
-- `delete_comment` removes: the line is read, and if the key is new its value is found then.
pub get_string-read_line :
    (c : ℕ) (key value after default : List ℕ) (dict : List (List ℕ × List ℕ))
    → is_blank c ≡ false
    → trim_end (c ∷ key) ≡ c ∷ key
    → All IsKeyChar (c ∷ key)
    → All IsValueChar value
    → delete_comment after ≡ []
    → find (c ∷ key) dict ≡ none
    → (dict' : List (List ℕ × List ℕ)) × (read_line (written (c ∷ key) value after) dict ≡ ok dict')
      × (get_string (c ∷ key) default dict' ≡ value)
unfolding read_line stored get_string
get_string-read_line c key value after default dict h e hk hv comment fresh = (
  insert (c ∷ key) value dict,
  rw (read_line, delete_comment-written (c ∷ key) value after hk hv comment)
      (rw (trim-written c key value h) (
        rw (check_line-written (c ∷ key) value hk hv)
          (rw (split-written c key value h e hk hv) refl))),
  rw (get_string, find-insert (c ∷ key) value dict fresh) refl,
)
