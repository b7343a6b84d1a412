-- ===== src/Database/Progress.antt =====
-- source/postgres/MyPostgres: an achievement is told once.
use drgb_server.Prelude.{
  ℕ, zero, suc, ◌+◌, ◌-◌, ◌<◌, ◌≤◌, ◌≡◌, refl, ap, ◌∙◌, true, false, ◌&&◌, some, ltb, leb, ◌==◌,
  Bool-cases, inl, inr, if◌then◌else◌, Result, ok, err, arith,
}
use drgb_server.Database.{Statements, DbError, achieved}

-- What the statements on the counts do.
pub record HasCounts {S : Type 0} (db : Statements S) : Type 0 where
  pub increased :
      (id achieve count require : ℕ) (s : S)
      → db.select_achieve id achieve s ≡ some (count, require)
      → db.select_achieve id achieve (db.increase_achieve id achieve s) ≡ some (suc count, require)

module _ {S : Type 0} (db : Statements S) where
  -- The achievement `n` times, and how often it was told to be reached.
  unfoldable pub repeated : ℕ → ℕ → ℕ → S → Result DbError (ℕ × S)
  repeated zero id achieve s = ok (0, s)
  repeated (suc n) id achieve s = elim (achieved db id achieve s) [
    | err e ↦ err e
    | ok (told, s') ↦ elim (repeated n id achieve s') [
      | err e ↦ err e
      | ok (others, s'') ↦ ok ((if told then suc others else others), s'')
    ]
  ]

module _ {S : Type 0} (db : Statements S) (counts : HasCounts db) where
  achieved_below :
      (id achieve count require : ℕ) (s : S)
      → db.select_achieve id achieve s ≡ some (count, require)
      → count < require
      → achieved db id achieve s ≡ ok ((require - count == 1), db.increase_achieve id achieve s)
  unfolding achieved
  achieved_below id achieve count require s there below =
      let test : ltb count require ≡ true = ground arith in rw (achieved, there) (rw test refl)

  achieved_above :
      (id achieve count require : ℕ) (s : S)
      → db.select_achieve id achieve s ≡ some (count, require)
      → require ≤ count
      → achieved db id achieve s ≡ ok (false, s)
  unfolding achieved
  achieved_above id achieve count require s there above =
      let test : ltb count require ≡ false = ground arith in rw (achieved, there) (rw test refl)

  -- The statements do what they say. An achievement that happens `n` times, with any count before:
  -- it is told to be reached once, if the count was below what is required and comes to it with these
  -- `n` times, and otherwise never; the count goes up to what is required and no further.
  pub repeated_once :
      (n id achieve count require : ℕ) (s : S)
      → db.select_achieve id achieve s ≡ some (count, require)
      → (s' : S) × (repeated db n id achieve s
          ≡ ok ((if ltb count require && leb require (count + n) then 1 else 0), s'))
        × (db.select_achieve id achieve s'
            ≡ some (
              (if ltb count require
                  then (if leb require (count + n) then require else count + n)
                  else count),
              require,
            ))
  unfolding repeated
  repeated_once zero id achieve count require s there = (s, ground arith, there ∙ ground arith)
  repeated_once (suc n) id achieve count require s there = elim (Bool-cases (ltb count require)) [
    | inl below ↦
        let (s', others, after) =
          repeated_once n id achieve (suc count) require (db.increase_achieve id achieve s)
            (counts.increased id achieve count require s there) in
        (
          s',
          rw (repeated, achieved_below id achieve count require s there (ground arith))
              (rw others (ap (λ k. ok (k, s')) (ground arith))),
          after ∙ ap (λ k. some (k, require)) (ground arith),
        )
    | inr above ↦
        let (s', others, after) = repeated_once n id achieve count require s there in
        (
          s',
          rw (repeated, achieved_above id achieve count require s there (ground arith))
              (rw others (ap (λ k. ok (k, s')) (ground arith))),
          after ∙ ap (λ k. some (k, require)) (ground arith),
        )
  ]
