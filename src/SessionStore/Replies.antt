-- ===== src/SessionStore/Replies.antt =====
-- source/redis/MyRedis: what `Query` gives of a server that does what Redis documents.
use drgb_server.Prelude.{◌≡◌, refl, ap, ◌∙◌, Option, none, some, List, [], ◌∷◌}
use drgb_server.SessionStore.Redis.{
  Reply, Command, Connection, Documented, State, replies, replied, query, step, steps,
}

module _ {S : Type 0} (redis : Connection S) (view : S → State) (d : Documented redis view) where
  -- Every command is answered, and the server is where the commands lead it.
  replies-steps :
      (commands : List Command) (s : S) (v : State)
      → view s ≡ v
      → (s' : S) × (replies redis commands s ≡ (some (steps commands v).0, s'))
        × (view s' ≡ (steps commands v).1)
  unfolding replies steps replied
  replies-steps [] s v e = (s, refl, e)
  replies-steps (c ∷ commands) s v e =
      let answered : (redis.answer c s).0 ≡ some (step c v.queued v.values).0 =
        d.answers c s ∙ ap (λ (w : State). some (step c w.queued w.values).0) e in
      let moved : view (redis.answer c s).1 ≡ (step c v.queued v.values).1 =
        d.moves c s ∙ ap (λ (w : State). (step c w.queued w.values).1) e in
      let (s', all, there) =
        replies-steps commands (redis.answer c s).1 (step c v.queued v.values).1 moved in
      let first : redis.answer c s ≡ (some (step c v.queued v.values).0, (redis.answer c s).1) =
        ap (λ o. (o, (redis.answer c s).1)) answered in
      (
        s',
        ap (λ p. replied redis p (replies redis commands)) first
            ∙ ap
                (λ (p : Option (List Reply) × S). (
                  elim p.0 [ none ↦ none | some rs ↦ some ((step c v.queued v.values).0 ∷ rs) ],
                  p.1,
                ))
                all,
        there,
      )

  pub query-steps :
      (c : Command) (commands : List Command) (s : S) (v : State)
      → view s ≡ v
      → (s' : S) × (query redis (c ∷ commands) s ≡ ((steps (c ∷ commands) v).0, s'))
        × (view s' ≡ (steps (c ∷ commands) v).1)
  unfolding query
  query-steps c commands s v e =
      let (s', all, there) = replies-steps (c ∷ commands) s v e in
      (s', rw (query, d.opens s) (rw all refl), there)
