-- ===== src/PostgresPool/Slots.antt =====
-- MyPostgresPool: every slot waits, is lent to one user, or is lost to an exception of `MyPostgres`.
use drgb_server.Prelude.{
  ℕ, zero, suc, ◌+◌, ◌<◌, ◌≡◌, refl, ap, ◌∙◌, ◌⊎◌, inl, inr, Bool, true, false, List, [], ◌∷◌, ◌++◌,
  Bool-cases, ◌==◌, ltb, if◌then◌else◌, length, get_or, set_at, length-append, length-set_at,
  get_or-set_at, arith,
}
use drgb_server.PostgresPool.{
  Slot, null_slot, closed_slot, Attempt, Pool, is_open, slot_after, filled, new, checked,
  get_connection, begun, Lending, nothing, lends, unreleased, give_back, get_pool_usage,
}

unfoldable pub occurrences : ℕ → List ℕ → ℕ
occurrences x [] = 0
occurrences x (y ∷ ys) = (if y == x then 1 else 0) + occurrences x ys

occurrences-append :
    (x : ℕ) (a b : List ℕ) → occurrences x (a ++ b) ≡ occurrences x a + occurrences x b
unfolding occurrences
occurrences-append x [] b = omega arith
occurrences-append x (y ∷ a) b = omega (arith, occurrences-append x a b)

List-cases : (xs : List ℕ) → (xs ≡ []) ⊎ ((y : ℕ) × (ys : List ℕ) × (xs ≡ y ∷ ys))
List-cases [] = inl refl
List-cases (y ∷ ys) = inr (y, ys, refl)

-- The pool, the slots that its users hold, and those whose `MyPostgres` could not be made.
pub record World : Type 0 where
  pub pool : Pool
  pub lent : List ℕ
  pub lost : List ℕ

abbrev pub answered : World → Lending × Pool → World
answered w (nothing, p) = record w { pool = p }
answered w (lends ptr, p) = record w { pool = p; lent = ptr ∷ w.lent }
answered w (unreleased ptr, p) = record w { pool = p; lost = ptr ∷ w.lost }

-- One call of a user while the pool lives, or the loss of a connection.
pub data Step : World → World → Type 0 where
  asks :
      {w : World} (attempt : Attempt) (begins : Bool)
      → Step w (answered w (get_connection attempt begins w.pool))
  gives_back :
      {p : Pool} {lost : List ℕ} (before after : List ℕ) (ptr : ℕ)
      → Step
          (record { pool = p; lent = before ++ (ptr ∷ after); lost = lost })
          (record { pool = give_back ptr p; lent = before ++ after; lost = lost })
  drops :
      {w : World} (ptr : ℕ)
      → Step w (record w {
        pool = record w.pool { connection_pool = set_at w.pool.connection_pool ptr closed_slot };
      })

pub data Steps : World → World → Type 0 where
  done : {w : World} → Steps w w
  later : {u v w : World} → Step u v → Steps v w → Steps u w

-- Each slot of the pool stands once among those that wait, those that are lent and those lost.
pub record IsAccounted (w : World) : Type 0 where
  pub slots : length w.pool.connection_pool ≡ w.pool.pool_size
  pub all : length w.pool.wait_pool + length w.lent + length w.lost ≡ w.pool.pool_size
  pub once :
      (x : ℕ)
      → occurrences x w.pool.wait_pool + occurrences x w.lent + occurrences x w.lost
        ≡ (if ltb x w.pool.pool_size then 1 else 0)

filled-length :
    (attempts : ℕ → Attempt) (n : ℕ)
    → (length (filled attempts n).0 ≡ n) × (length (filled attempts n).1 ≡ n)
unfolding filled
filled-length attempts zero = (refl, refl)
filled-length attempts (suc n) =
    let (a, b) = filled-length attempts n in
    (
      omega (arith, length-append (filled attempts n).0 (slot_after (attempts n) ∷ []), a),
      omega (arith, length-append (filled attempts n).1 (n ∷ []), b),
    )

filled-occurrences :
    (attempts : ℕ → Attempt) (n x : ℕ)
    → occurrences x (filled attempts n).1 ≡ (if ltb x n then 1 else 0)
unfolding filled occurrences
filled-occurrences attempts zero x = ground arith
filled-occurrences attempts (suc n) x =
    let rest = filled-occurrences attempts n x in
    let both = occurrences-append x (filled attempts n).1 (n ∷ []) in ground (arith, rest, both)

-- What `GetConnection` does: it takes the first slot that waits, the connection of the slot is then
-- open, and the slot is lent or, if no transaction begins, lost; or it returns nothing, and no slot
-- leaves the queue.
pub get_connection_cases :
    (attempt : Attempt) (begins : Bool) (p : Pool)
    → length p.connection_pool ≡ p.pool_size
    → ((ptr : ℕ) × (waiting : List ℕ) × (slots : List Slot) × (p.wait_pool ≡ ptr ∷ waiting)
        × (get_connection attempt begins p
            ≡ (begun begins ptr, record p { connection_pool = slots; wait_pool = waiting }))
        × (length slots ≡ p.pool_size)
        × (ptr < p.pool_size → is_open (get_or slots ptr null_slot) ≡ true))
      ⊎ ((slots : List Slot) × (get_connection attempt begins p
            ≡ (nothing, record p { connection_pool = slots }))
          × (length slots ≡ p.pool_size))
unfolding get_connection
get_connection_cases attempt begins p sized = elim (List-cases p.wait_pool) [
  | inl e ↦ inr (
    p.connection_pool,
    rw (get_connection, e) (ap (λ q. (nothing, record p { wait_pool = q })) e),
    sized,
  )
  | inr (ptr, waiting, e) ↦
      let slot = checked attempt (get_or p.connection_pool ptr null_slot) in
      let slots = set_at p.connection_pool ptr slot in
      let sized' = length-set_at p.connection_pool ptr slot ∙ sized in
      elim (Bool-cases p.is_running) [
        | inr h ↦ inr (
          p.connection_pool,
          rw (get_connection, e)
              (rw h (ap (λ q. (nothing, record p { is_running = false; wait_pool = q })) e)),
          sized,
        )
        | inl h ↦ elim (Bool-cases (is_open slot)) [
          | inl k ↦ inl (
            ptr,
            waiting,
            slots,
            e,
            rw (get_connection, e) (rw h (rw k refl)),
            sized',
            λ small.
                ap is_open (get_or-set_at p.connection_pool ptr slot null_slot (omega arith)) ∙ k,
          )
          | inr k ↦ inr (
            slots,
            rw (get_connection, e)
                (rw h (
                  rw k (
                    ap
                      (λ q. (
                        nothing,
                        record p { is_running = true; connection_pool = slots; wait_pool = q },
                      ))
                      e))),
            sized',
          )
        ]
      ]
]

new-IsAccounted :
    (attempts : ℕ → Attempt) (size : ℕ)
    → IsAccounted (record { pool = new attempts size; lent = []; lost = [] })
unfolding new occurrences
new-IsAccounted attempts size =
    let (a, b) = filled-length attempts size in
    record {
      slots = a;
      all = omega arith;
      once = λ x. omega (arith, filled-occurrences attempts size x);
    }

taken-IsAccounted :
    (w : World) (begins : Bool) (ptr : ℕ) (waiting : List ℕ) (slots : List Slot)
    → w.pool.wait_pool ≡ ptr ∷ waiting
    → length slots ≡ w.pool.pool_size
    → IsAccounted w
    → IsAccounted (
        answered w
          (begun begins ptr, record w.pool { connection_pool = slots; wait_pool = waiting }))
unfolding begun occurrences
taken-IsAccounted w true ptr waiting slots e sized a = record {
  slots = sized;
  all = (let all = rw e at a.all in omega arith);
  once = λ x. (let once = rw e at a.once x in omega arith);
}
taken-IsAccounted w false ptr waiting slots e sized a = record {
  slots = sized;
  all = (let all = rw e at a.all in omega arith);
  once = λ x. (let once = rw e at a.once x in omega arith);
}

answered-IsAccounted :
    (w : World) (attempt : Attempt) (begins : Bool)
    → IsAccounted w
    → IsAccounted (answered w (get_connection attempt begins w.pool))
unfolding occurrences
answered-IsAccounted w attempt begins a =
    elim (get_connection_cases attempt begins w.pool a.slots) [
      | inl (ptr, waiting, slots, e, e', sized, _) ↦
          rw e' (taken-IsAccounted w begins ptr waiting slots e sized a)
      | inr (slots, e', sized) ↦ rw e' (record { slots = sized; all = a.all; once = a.once })
    ]

Step-IsAccounted : {v w : World} → Step v w → IsAccounted v → IsAccounted w
unfolding give_back occurrences
Step-IsAccounted (asks {w} attempt begins) a = answered-IsAccounted w attempt begins a
Step-IsAccounted (gives_back {p} before after ptr) a = record {
  slots = a.slots;
  all = omega (
    arith,
    a.all,
    length-append p.wait_pool (ptr ∷ []),
    length-append before (ptr ∷ after),
    length-append before after,
  );
  once = λ x. omega (
    arith,
    a.once x,
    occurrences-append x p.wait_pool (ptr ∷ []),
    occurrences-append x before (ptr ∷ after),
    occurrences-append x before after,
  );
}
Step-IsAccounted (drops {w} ptr) a = record {
  slots = length-set_at w.pool.connection_pool ptr closed_slot ∙ a.slots;
  all = a.all;
  once = a.once;
}

Steps-from : {v w : World} → Steps v w → IsAccounted v → IsAccounted w
Steps-from done a = a
Steps-from (later s steps) a = Steps-from steps (Step-IsAccounted s a)

IsAccounted-get_pool_usage :
    (w : World) → IsAccounted w → get_pool_usage w.pool ≡ length w.lent + length w.lost
unfolding get_pool_usage
IsAccounted-get_pool_usage w a = omega (arith, a.all)

-- However users take and give back connections, and whichever connections are lost, each slot of the
-- pool stands exactly once among the slots that wait, those that are lent to a user, and those that
-- an exception of the constructor of `MyPostgres` left in nobody's hands. `GetPoolUsage` counts the
-- last two.
pub Steps-IsAccounted :
    (attempts : ℕ → Attempt) (size : ℕ) (w : World)
    → Steps (record { pool = new attempts size; lent = []; lost = [] }) w
    → IsAccounted w × (get_pool_usage w.pool ≡ length w.lent + length w.lost)
Steps-IsAccounted attempts size w reached =
    let a = Steps-from reached (new-IsAccounted attempts size) in
    (a, IsAccounted-get_pool_usage w a)
