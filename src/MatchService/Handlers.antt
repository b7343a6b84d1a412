-- ===== src/MatchService/Handlers.antt =====
-- source/match/MatchServiceServer: every stream that is stored has a handler that reads from it.
use drgb_server.Prelude.{ℕ, ◌≡◌, refl, sym, ap, ◌∙◌, inl, inr, Option, none, some, Option-cases}
use drgb_server.Map.{find}
use drgb_server.Map.Numbers.{nat_order}
use drgb_server.Map.Laws.{key_eq_or_ne}
use drgb_server.DeMap
use drgb_server.DeMap.{DeMap, insert, find_lkey, insert_lkey_value, erase_lkey}
use drgb_server.DeMap.Pairing.{IsPaired, new-IsPaired}
use drgb_server.DeMap.Keys.{find_lkey_cases, insert_cases}
use drgb_server.DeMap.Calls.{set_lkey-IsPaired, erase_lkey-IsPaired, erase_lkey_cases}
use drgb_server.MatchService.Stream.{
  Service, Phase, arriving, opening, named, reading, answering, finished, handle, new, identified,
  answer_read, usage_read, unstored,
}
use drgb_server.MatchService.Worlds.{
  World, stepped, Step, goes_on, returns, Steps, done, later, IsOpen, IsSound, stepped-IsSound,
  idle-IsSound,
}

module _ (w : World) (sound : IsSound w) (stream id : ℕ)
    (is_open : IsOpen id (w.phases stream)) where
  -- The stream of an open handler is stored under its own id only.
  own_id : (id' : ℕ) → find id' w.service.streams.lrm ≡ some stream → id' ≡ id
  own_id id' h = elim (sound.open_streams id' stream h) [
    | inl e ↦ elim is_open [ inl e' ↦ cc (e, e') | inr e' ↦ cc (e, e') ]
    | inr e ↦ elim is_open [ inl e' ↦ cc (e, e') | inr e' ↦ cc (e, e') ]
  ]

  unstored-IsSound :
      (answer : ℕ)
      → IsSound (stepped stream (unstored id (record w.service { recent_success = answer })) w)
  unfolding unstored
  unstored-IsSound answer =
      let (gone, others) = erase_lkey_cases 0 id w.service.streams sound.paired in
      stepped-IsSound w sound stream _ _ (erase_lkey-IsPaired 0 id w.service.streams sound.paired)
        (λ id' other h. elim (key_eq_or_ne id' id) [
          | inl e ↦ cc (gone, rw e at h)
          | inr ne ↦
              let old = sym (others id' ne).0 ∙ h in
              elim (key_eq_or_ne other stream) [
                | inl e ↦ absurd (ne (own_id id' (rw e at old)))
                | inr ne' ↦ inr (ne', old)
              ]
        ])

  -- A handler that goes on reading, while the entries stay.
  kept-IsSound :
      (p : Phase) (s : Service)
      → IsOpen id p
      → IsPaired s.streams
      → s.streams.lrm ≡ w.service.streams.lrm
      → IsSound (stepped stream (p, s) w)
  kept-IsSound p s is_open' paired same = stepped-IsSound w sound stream p s paired (λ id' other h.
      let old = rw same at h in
      elim (key_eq_or_ne other stream) [
        | inl e ↦ inl (e, rw (own_id id' (rw e at old)) is_open')
        | inr ne ↦ inr (ne, old)
      ])

set_lkey-lrm : (id usage : ℕ) (d : DeMap ℕ ℕ ℕ) → (insert_lkey_value id usage d).1.lrm ≡ d.lrm
unfolding insert_lkey_value
set_lkey-lrm id usage d = elim (Option-cases (find id d.kvm)) [
  | inl e ↦ rw (e, insert_lkey_value) refl
  | inr (v, e) ↦ rw (e, insert_lkey_value) refl
]

-- A handler that does not read in the loop.
abbrev IsAway : Phase → Type 0
IsAway (reading id) = ⊥
IsAway (answering id) = ⊥
IsAway arriving = Unit
IsAway opening = Unit
IsAway (named id) = Unit
IsAway (finished status) = Unit

IsAway-not-IsOpen : (q : Phase) → IsAway q → (id : ℕ) → ¬ IsOpen id q
IsAway-not-IsOpen (reading i) a id o = elim a [ ]
IsAway-not-IsOpen (answering i) a id o = elim a [ ]
IsAway-not-IsOpen arriving a id o = elim o [ inl e ↦ cc | inr e ↦ cc ]
IsAway-not-IsOpen opening a id o = elim o [ inl e ↦ cc | inr e ↦ cc ]
IsAway-not-IsOpen (named i) a id o = elim o [ inl e ↦ cc | inr e ↦ cc ]
IsAway-not-IsOpen (finished status) a id o = elim o [ inl e ↦ cc | inr e ↦ cc ]

module _ (w : World) (sound : IsSound w) (stream : ℕ) where
  away : (q : Phase) → w.phases stream ≡ q → IsAway q → (id : ℕ) → ¬ IsOpen id (w.phases stream)
  away q e a id = rw e (IsAway-not-IsOpen q a id)

  -- A handler that leaves the entries as they are.
  still-IsSound :
      (q p : Phase) → w.phases stream ≡ q → IsAway q → IsSound (stepped stream (p, w.service) w)
  still-IsSound q p e a =
      idle-IsSound w sound stream p w.service (away q e a) sound.paired (λ id other h. h)

  -- The stream is stored, unless the id is in use.
  stored-IsSound :
      (id : ℕ)
      → w.phases stream ≡ named id
      → IsSound (
          stepped stream
            (reading id, record w.service { streams = (insert id stream 0 w.service.streams).1 })
            w)
  stored-IsSound id e =
      let idle = away (named id) e tt in
      elim (insert_cases id stream 0 w.service.streams sound.paired) [
        | inl (_, same) ↦
            rw same (idle-IsSound w sound stream _ _ idle sound.paired (λ id' other h. h))
        | inr (d', same, paired, entry, others) ↦ rw same (
            stepped-IsSound w sound stream (reading id) (record w.service { streams = d' }) paired
              (λ id' other h. elim (key_eq_or_ne id' id) [
                | inl e' ↦ inl (cc (entry.0, rw e' at h), inl (ap reading (sym e')))
                | inr ne ↦
                    let old = sym (others id' ne).0 ∙ h in
                    elim (key_eq_or_ne other stream) [
                      | inl e' ↦ absurd (idle id' (rw e' at (sound.open_streams id' other old)))
                      | inr ne' ↦ inr (ne', old)
                    ]
              ]))
      ]

  handle-IsSound :
      (phase : Phase) (message : Option ℕ)
      → w.phases stream ≡ phase
      → IsSound (stepped stream (handle stream phase message w.service) w)
  unfolding handle identified answer_read usage_read
  handle-IsSound arriving message e = still-IsSound arriving _ e tt
  handle-IsSound opening none e = still-IsSound opening _ e tt
  handle-IsSound opening (some id) e = elim (find_lkey_cases 0 id w.service.streams sound.paired) [
    | inl (_, _, _, same) ↦ rw same (still-IsSound opening _ e tt)
    | inr (_, same) ↦ rw same (still-IsSound opening _ e tt)
  ]
  handle-IsSound (named id) message e = stored-IsSound id e
  handle-IsSound (reading id) none e =
      unstored-IsSound w sound stream id (inl e) w.service.recent_success
  handle-IsSound (reading id) (some answer) e =
      kept-IsSound w sound stream id (inl e) (answering id) _ (inr refl) sound.paired refl
  handle-IsSound (answering id) none e = unstored-IsSound w sound stream id (inr e) 0
  handle-IsSound (answering id) (some usage) e =
      kept-IsSound w sound stream id (inr e) (reading id) _ (inl refl)
        (set_lkey-IsPaired id usage w.service.streams sound.paired)
        (set_lkey-lrm id usage w.service.streams)
  handle-IsSound (finished status) message e = still-IsSound (finished status) _ e tt

Step-IsSound : {u w : World} → Step u w → IsSound u → IsSound w
Step-IsSound (goes_on {w} stream message) sound =
    handle-IsSound w sound stream (w.phases stream) message refl
Step-IsSound (returns {w} stream status e) sound =
    still-IsSound w sound stream (finished status) arriving e tt

Steps-IsSound : {u w : World} → Steps u w → IsSound u → IsSound w
Steps-IsSound done sound = sound
Steps-IsSound (later step steps) sound = Steps-IsSound steps (Step-IsSound step sound)

-- The service before any battle server came.
abbrev pub beginning : World
beginning = record { service = new; phases = λ stream. arriving }

beginning-IsSound : IsSound beginning
unfolding new DeMap.new find
beginning-IsSound = record { paired = new-IsPaired; open_streams = λ id stream h. cc }

-- However battle servers connect, with whatever ids, answer and break off, and in whatever order
-- their handlers run: a stream that is stored, so that a match may be written to it, has a handler
-- that is still reading from it, under the id of the entry, and no stream is stored under two ids.
pub Steps-IsOpen :
    {w : World}
    → Steps beginning w
    → (id stream : ℕ) → find id w.service.streams.lrm ≡ some stream
    → IsOpen id (w.phases stream)
      × ((id' : ℕ) → find id' w.service.streams.lrm ≡ some stream → id' ≡ id)
Steps-IsOpen {w} steps id stream h =
    let sound = Steps-IsSound steps beginning-IsSound in
    let open_there = sound.open_streams id stream h in
    (open_there, own_id w sound stream id open_there)
