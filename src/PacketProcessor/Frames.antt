-- ===== src/PacketProcessor/Frames.antt =====
-- PacketProcessor.cpp, `split`: what stands before the first terminator of a buffer.
use drgb_server.Prelude.{
  ℕ, ◌+◌, ◌≡◌, refl, ap, ◌∙◌, ◌≢◌, inl, inr, some, List, [], ◌∷◌, ◌++◌, ◌==◌, sym, ==_iff,
  Bool-cases, length, arith,
}
use drgb_server.PacketProcessor.{pattern_byte, eof, split_from, decapsulate, escape}

-- The bytes that `split` passes over.
pub data Frame : List ℕ → Type 0 where
  done : Frame []
  pair : {d : List ℕ} → Frame d → Frame (pattern_byte ∷ pattern_byte ∷ d)
  lone : {c : ℕ} {d : List ℕ} → c ≢ pattern_byte → c ≢ eof → Frame d → Frame (pattern_byte ∷ c ∷ d)
  plain : {b : ℕ} {d : List ℕ} → b ≢ pattern_byte → Frame d → Frame (b ∷ d)

-- A byte that is no `pattern` is passed over whatever follows.
pub split_from-plain :
    (i b : ℕ) (l : List ℕ) → b ≢ pattern_byte → split_from i (b ∷ l) ≡ split_from (i + 1) l
unfolding split_from
split_from-plain i b [] h = refl
split_from-plain i b (c ∷ rest) h = ground arith

pub decapsulate-plain :
    (b : ℕ) (l m : List ℕ)
    → b ≢ pattern_byte
    → decapsulate l ≡ some m
    → decapsulate (b ∷ l) ≡ some (b ∷ m)
unfolding decapsulate
decapsulate-plain b [] m h e = ground arith
decapsulate-plain b (c ∷ rest) m h e = ground arith

-- A terminator behind a frame is found, wherever the buffer goes on from there.
pub split_from-Frame :
    (i : ℕ) {d : List ℕ} (rest : List ℕ)
    → Frame d
    → split_from i (d ++ pattern_byte ∷ eof ∷ rest) ≡ some (i + length d)
unfolding split_from
split_from-Frame i rest done = ground arith
split_from-Frame i rest (pair f) = split_from-Frame (i + 2) rest f ∙ ap some (omega arith)
split_from-Frame i rest (lone {c = c} {d = d} p q f) =
    let step = split_from-plain (i + 1) c (d ++ pattern_byte ∷ eof ∷ rest) p in
    ground (arith, step, split_from-Frame (i + 1 + 1) rest f)
split_from-Frame i rest (plain {b = b} {d = d} p f) =
    split_from-plain i b (d ++ pattern_byte ∷ eof ∷ rest) p
    ∙ split_from-Frame (i + 1) rest f
    ∙ ap some (omega arith)

-- `decapsulate` never reads past the end of a frame.
pub decapsulate-Frame : {d : List ℕ} → Frame d → (m : List ℕ) × (decapsulate d ≡ some m)
unfolding decapsulate
decapsulate-Frame done = ([], refl)
decapsulate-Frame (pair f) = let (m, e) = decapsulate-Frame f in (pattern_byte ∷ m, rw e)
decapsulate-Frame (lone {c = c} p q f) = let (m, e) = decapsulate-Frame f in (c ∷ m, ground arith)
decapsulate-Frame (plain {b = b} {d = d} p f) =
    let (m, e) = decapsulate-Frame f in (b ∷ m, decapsulate-plain b d m p e)

pub escape-Frame : (l : List ℕ) → Frame (escape l)
unfolding escape
escape-Frame [] = done
escape-Frame (b ∷ l) = elim (Bool-cases (b == pattern_byte)) [
  | inl e ↦ rw e (rw ((==_iff b pattern_byte).0 e) (pair (escape-Frame l)))
  | inr e ↦ rw e (plain (ground arith) (escape-Frame l))
]

-- What `split` finds is a terminator behind a frame.
pub record Found (i k : ℕ) (l : List ℕ) : Type 0 where
  pub before : List ℕ
  pub after : List ℕ
  pub shape : l ≡ before ++ pattern_byte ∷ eof ∷ after
  pub frame : Frame before
  pub place : k ≡ i + length before

Found-plain : (i k b : ℕ) (l : List ℕ) → b ≢ pattern_byte → Found (i + 1) k l → Found i k (b ∷ l)
Found-plain i k b l h f = record {
  before = b ∷ f.before;
  after = f.after;
  shape = ap (◌∷◌ b) f.shape;
  frame = plain h f.frame;
  place = f.place ∙ omega arith;
}

Found-pair :
    (i k : ℕ) (l : List ℕ) → Found (i + 2) k l → Found i k (pattern_byte ∷ pattern_byte ∷ l)
Found-pair i k l f = record {
  before = pattern_byte ∷ pattern_byte ∷ f.before;
  after = f.after;
  shape = ap (λ t. pattern_byte ∷ pattern_byte ∷ t) f.shape;
  frame = pair f.frame;
  place = f.place ∙ omega arith;
}

Found-lone :
    (i k c : ℕ) (l : List ℕ)
    → c ≢ pattern_byte
    → c ≢ eof
    → Found (i + 1 + 1) k l
    → Found i k (pattern_byte ∷ c ∷ l)
Found-lone i k c l p q f = record {
  before = pattern_byte ∷ c ∷ f.before;
  after = f.after;
  shape = ap (λ t. pattern_byte ∷ c ∷ t) f.shape;
  frame = lone p q f.frame;
  place = f.place ∙ omega arith;
}

pub split_from-Found : (i k : ℕ) (l : List ℕ) → split_from i l ≡ some k → Found i k l
unfolding split_from
split_from-Found i k [] h = cc
split_from-Found i k (b ∷ []) h = cc
split_from-Found i k (b ∷ c ∷ rest) h = elim (Bool-cases (b == pattern_byte)) [
  | inr e ↦
      let p : b ≢ pattern_byte = ground arith in
      Found-plain i k b (c ∷ rest) p
        (split_from-Found (i + 1) k (c ∷ rest) (sym (split_from-plain i b (c ∷ rest) p) ∙ h))
  | inl e ↦ rw ((==_iff b pattern_byte).0 e) (elim (Bool-cases (c == pattern_byte)) [
    | inl e' ↦
        rw ((==_iff c pattern_byte).0 e')
          (Found-pair i k rest (split_from-Found (i + 2) k rest (ground arith)))
    | inr e' ↦ elim (Bool-cases (c == eof)) [
      | inl e'' ↦ record {
        before = [];
        after = rest;
        shape = ground arith;
        frame = done;
        place = ground arith;
      }
      | inr e'' ↦
          let p : c ≢ pattern_byte = ground arith in
          Found-lone i k c rest p (ground arith) (
            split_from-Found (i + 1 + 1) k rest (ground (arith, split_from-plain (i + 1) c rest p)))
    ]
  ])
]
