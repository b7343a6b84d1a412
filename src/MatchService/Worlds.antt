-- ===== src/MatchService/Worlds.antt =====
-- source/match/MatchServiceServer: the handlers of several streams, in any order of their calls.
-- The mutex, which a handler holds while it answers, excludes some of these orders.
use drgb_server.Prelude.{
  ℕ, ◌≡◌, ◌≢◌, ◌⊎◌, inl, inr, false, ◌==◌, ==_iff, if◌then◌else◌, Option, some, arith,
}
use drgb_server.Map.{find}
use drgb_server.Map.Numbers.{nat_order}
use drgb_server.Map.Laws.{key_eq_or_ne}
use drgb_server.DeMap.Pairing.{IsPaired}
use drgb_server.MatchService.Stream.{
  Service, Phase, Status, arriving, reading, answering, finished, handle,
}

-- The service, and where the handler of each stream stands.
pub record World : Type 0 where
  pub service : Service
  pub phases : ℕ → Phase

unfoldable pub stepped : ℕ → Phase × Service → World → World
stepped stream r w = record {
  service = r.1;
  phases = λ other. if other == stream then r.0 else w.phases other;
}

-- A handler goes on, or a handler that is finished makes room for a stream at the same address.
pub data Step : World → World → Type 0 where
  goes_on :
      {w : World} (stream : ℕ) (message : Option ℕ)
      → Step w (stepped stream (handle stream (w.phases stream) message w.service) w)
  returns :
      {w : World} (stream : ℕ) (status : Status)
      → w.phases stream ≡ finished status
      → Step w (stepped stream (arriving, w.service) w)

pub data Steps : World → World → Type 0 where
  done : {w : World} → Steps w w
  later : {u v w : World} → Step u v → Steps v w → Steps u w

-- Does a handler in this phase read from its stream under the id?
abbrev pub IsOpen : ℕ → Phase → Type 0
IsOpen id phase = (phase ≡ reading id) ⊎ (phase ≡ answering id)

-- Every stream that is stored has a handler that reads from it, under the id of the entry.
pub record IsSound (w : World) : Type 0 where
  pub paired : IsPaired w.service.streams
  pub open_streams :
      (id stream : ℕ) → find id w.service.streams.lrm ≡ some stream → IsOpen id (w.phases stream)

module _ (w : World) (sound : IsSound w) (stream : ℕ) (p : Phase) (s : Service) where
  -- What a step has to show: of the entries that are left, those of other streams were there.
  pub stepped-IsSound :
      IsPaired s.streams
      → ((id other : ℕ)
          → find id s.streams.lrm ≡ some other
          → ((other ≡ stream) × IsOpen id p)
            ⊎ ((other ≢ stream) × (find id w.service.streams.lrm ≡ some other)))
      → IsSound (stepped stream (p, s) w)
  unfolding stepped
  stepped-IsSound paired entries = record {
    paired = paired;
    open_streams = λ id other h. elim (entries id other h) [
      | inl (e, is_open) ↦ rw ((==_iff other stream).1 e) is_open
      | inr (ne, old) ↦
          let apart : (other == stream) ≡ false = ground arith in
          rw apart (sound.open_streams id other old)
    ];
  }

  -- A handler that reads from no stream has none stored.
  pub idle-IsSound :
      ((id : ℕ) → ¬ IsOpen id (w.phases stream))
      → IsPaired s.streams
      → ((id other : ℕ)
          → find id s.streams.lrm ≡ some other
          → find id w.service.streams.lrm ≡ some other)
      → IsSound (stepped stream (p, s) w)
  idle-IsSound idle paired kept = stepped-IsSound paired (λ id other h.
      elim (key_eq_or_ne other stream) [
        | inl e ↦ absurd (idle id (rw e at (sound.open_streams id other (kept id other h))))
        | inr ne ↦ inr (ne, kept id other h)
      ])
