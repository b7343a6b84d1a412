-- ===== src/SessionStore/Writes.antt =====
-- source/redis/MyRedis: what the operations that write do to the keys and values of Redis.
use drgb_server.Prelude.{
  ℕ, ◌≡◌, refl, ◌∙◌, ◌&&◌, none, List, [], ◌∷◌, if◌then◌else◌, Bool-cases, inl, inr,
}
use drgb_server.SessionStore.{
  cookie_key, account_key, set_info, refresh_info, clear_info, confirmed,
}
use drgb_server.SessionStore.Numerals.{to_string}
use drgb_server.SessionStore.Redis.{
  Connection, Documented, State, Values, written, step, steps, done, executed, pushed, multi, exec,
  watch, del, rpush, pexpire, set, lrange, elements, is_array,
}
use drgb_server.SessionStore.Replies.{query-steps}
use drgb_server.Encoder.{encode_base64}
use drgb_server.SessionStore.Keys.{
  idle, recorded, is_held, present, written_self, written_other, verified-ranged, is_held-present,
  both_above-counted, cookie_key-ne-account_key,
}

module _ {S : Type 0} (redis : Connection S) (view : S → State) (d : Documented redis view) where
  pub set_info_lem :
      (id : ℕ) (cookie name : List ℕ) (s : S) (values : Values)
      → view s ≡ idle values
      → (s' : S) × (set_info redis id cookie name s ≡ (none, s'))
        × (view s' ≡ idle (recorded (to_string id) (encode_base64 cookie) name values))
  unfolding set_info steps step executed done pushed recorded
  set_info_lem id cookie name s values e =
      let k = cookie_key (encode_base64 cookie) in
      let (s', all, there) =
        query-steps redis view d multi
          (del k
            ∷ rpush k (to_string id) name
            ∷ pexpire k
            ∷ set (account_key (to_string id)) (encode_base64 cookie)
            ∷ exec
            ∷ [])
          s (idle values) e in
      (s', rw (set_info, all) (rw (d.opens s) refl), there ∙ simp (written_self k) refl)

  pub refresh_info_lem :
      (id : ℕ) (cookie name : List ℕ) (s : S) (values : Values)
      → view s ≡ idle values
      → let held = is_held (to_string id) name (values (cookie_key (encode_base64 cookie))) in
        (s' : S) × (refresh_info redis id cookie name s
          ≡ ((held && present (values (account_key (to_string id)))), s'))
        × (view s' ≡ idle values)
  unfolding refresh_info steps step executed done confirmed elements is_array
  refresh_info_lem id cookie name s values e =
      let k = cookie_key (encode_base64 cookie) in
      let a = account_key (to_string id) in
      let (s', all, there) = query-steps redis view d (lrange k) [] s (idle values) e in
      let (s'', all', there') =
        query-steps redis view d (watch k) (watch a ∷ multi ∷ pexpire k ∷ pexpire a ∷ exec ∷ []) s'
          (idle values) there in
      let start = verified-ranged (to_string id) name (values k) in
      elim (Bool-cases (is_held (to_string id) name (values k))) [
        | inl h ↦ (
          s'',
          rw (refresh_info, all)
              (rw (d.opens s, start, h, all')
                (rw (both_above-counted (values k) (values a))
                  (rw (is_held-present (to_string id) name (values k) h) refl))),
          there',
        )
        | inr h ↦ (s', rw (refresh_info, all) (rw (d.opens s, start, h) refl), there)
      ]

  pub clear_info_lem :
      (id : ℕ) (cookie name : List ℕ) (s : S) (values : Values)
      → view s ≡ idle values
      → let k = cookie_key (encode_base64 cookie) in
        let a = account_key (to_string id) in
        (s' : S) × (clear_info redis id cookie name s
          ≡ ((is_held (to_string id) name (values k) && present (values a)), s'))
        × (view s'
            ≡ idle (
                if is_held (to_string id) name (values k)
                then written a none (written k none values)
                else values))
  unfolding clear_info steps step executed done confirmed elements is_array
  clear_info_lem id cookie name s values e =
      let k = cookie_key (encode_base64 cookie) in
      let a = account_key (to_string id) in
      let (s', all, there) = query-steps redis view d (lrange k) [] s (idle values) e in
      let (s'', all', there') =
        query-steps redis view d (watch k) (watch a ∷ multi ∷ del k ∷ del a ∷ exec ∷ []) s'
          (idle values) there in
      let start = verified-ranged (to_string id) name (values k) in
      let kept =
        written_other k a none values
          (cookie_key-ne-account_key (encode_base64 cookie) (to_string id)) in
      elim (Bool-cases (is_held (to_string id) name (values k))) [
        | inl h ↦ (
          s'',
          rw (clear_info, all)
              (rw (d.opens s, start, h, all')
                (rw kept (
                  rw (both_above-counted (values k) (values a))
                    (rw (is_held-present (to_string id) name (values k) h) refl)))),
          rw h there',
        )
        | inr h ↦ (s', rw (clear_info, all) (rw (d.opens s, start, h) refl), rw h there)
      ]
