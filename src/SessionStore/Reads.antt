-- ===== src/SessionStore/Reads.antt =====
-- source/redis/MyRedis: what the operations that look a session up read from Redis.
use drgb_server.Prelude.{
  ℕ, ◌≡◌, refl, sym, ap, ◌∙◌, false, Option, none, some, List, [], ◌∷◌, inl, inr, Result, ok, err,
  Result-cases, length, take, take_all, ltb, arith,
}
use drgb_server.Encoder.{encode_base64, decode_base64}
use drgb_server.SessionStore.{
  Failure, no_match_account, cookie_key, account_key, renewal, get_info_from_id,
  get_info_from_cookie, server_of, decoded_info, renewed_info, first_pair, array_pair, pair_of,
  last_pair, cookie_of, numbered,
}
use drgb_server.SessionStore.Numerals.{to_string}
use drgb_server.SessionStore.Redis.{
  Connection, Documented, State, Value, items, string, Values, step, steps, done, executed, got,
  ranged, multi, exec, pexpire, get, lrange, elements, str, is_array, two_of, wrong_type,
}
use drgb_server.SessionStore.Replies.{query-steps}
use drgb_server.SessionStore.Keys.{idle}

-- The account and the server that the value of a cookie's key names.
unfoldable pub named : Option Value → Result Failure (List ℕ × List ℕ)
named none = err no_match_account
named (some (string t)) = err no_match_account
named (some (items [])) = err no_match_account
named (some (items (i ∷ []))) = err no_match_account
named (some (items (i ∷ n ∷ rest))) = ok (i, n)

array_pair-ranged : (v : Option Value) → array_pair (ranged v) ≡ named v
unfolding array_pair ranged named is_array elements two_of wrong_type pair_of str
array_pair-ranged none = refl
array_pair-ranged (some (string t)) = refl
array_pair-ranged (some (items [])) = refl
array_pair-ranged (some (items (i ∷ []))) = refl
array_pair-ranged (some (items (i ∷ n ∷ rest))) = refl

pair_of-ranged : (v : Option Value) → pair_of (elements (ranged v)) ≡ named v
unfolding ranged named elements two_of wrong_type pair_of str
pair_of-ranged none = refl
pair_of-ranged (some (string t)) = refl
pair_of-ranged (some (items [])) = refl
pair_of-ranged (some (items (i ∷ []))) = refl
pair_of-ranged (some (items (i ∷ n ∷ rest))) = refl

-- What is answered for a cookie, by the value of its key.
unfoldable pub looked_up : Option Value → Result Failure (ℕ × List ℕ)
looked_up v = elim (named v) [ err e ↦ err e | ok pair ↦ numbered pair ]

module _ {S : Type 0} (redis : Connection S) (view : S → State) (d : Documented redis view) where
  pub get_info_from_cookie_lem :
      (cookie : List ℕ) (s : S) (values : Values)
      → view s ≡ idle values
      → (s' : S) × (get_info_from_cookie redis cookie s
          ≡ (looked_up (values (cookie_key (encode_base64 cookie))), s'))
        × (view s' ≡ idle values)
  unfolding get_info_from_cookie first_pair renewed_info renewal steps step executed done looked_up
  get_info_from_cookie_lem cookie s values e =
      let k = cookie_key (encode_base64 cookie) in
      let (s', all, there) = query-steps redis view d (lrange k) [] s (idle values) e in
      elim (Result-cases (named (values k))) [
        | inl (f, h) ↦ (
          s',
          rw (get_info_from_cookie, all)
              (rw (d.opens s) (rw (array_pair-ranged (values k)) (rw (looked_up, h) refl))),
          there,
        )
        | inr ((i, n), h) ↦
            let (s'', all', there') =
              query-steps redis view d multi
                (pexpire (account_key i) ∷ pexpire k ∷ exec ∷ lrange k ∷ []) s' (idle values)
                there in
            (
              s'',
              rw (get_info_from_cookie, all)
                  (rw (d.opens s) (
                    rw (array_pair-ranged (values k)) (
                      rw (looked_up, h)
                        (rw all' (rw (array_pair-ranged (values k)) (rw h refl)))))),
              there',
            )
      ]

  pub get_info_from_id-none :
      (id : ℕ) (s : S) (values : Values)
      → view s ≡ idle values
      → values (account_key (to_string id)) ≡ none
      → (s' : S) × (get_info_from_id redis id s ≡ (err no_match_account, s'))
        × (view s' ≡ idle values)
  unfolding get_info_from_id steps step done cookie_of decoded_info got
  get_info_from_id-none id s values e free =
      let (s', all, there) =
        query-steps redis view d (get (account_key (to_string id))) [] s (idle values) e in
      (s', rw (get_info_from_id, all) (rw (d.opens s) (rw free refl)), there)

  pub get_info_from_id-some :
      (id : ℕ) (cookie i name : List ℕ) (s : S) (values : Values)
      → view s ≡ idle values
      → values (account_key (to_string id)) ≡ some (string (encode_base64 cookie))
      → decode_base64 (encode_base64 cookie) ≡ ok cookie
      → length cookie ≡ 32
      → named (values (cookie_key (encode_base64 cookie))) ≡ ok (i, name)
      → (s' : S) × (get_info_from_id redis id s ≡ (ok (cookie, name), s')) × (view s' ≡ idle values)
  unfolding get_info_from_id steps step executed done cookie_of decoded_info got server_of renewal
      last_pair
  get_info_from_id-some id cookie i name s values e known decoded whole there =
      let k = cookie_key (encode_base64 cookie) in
      let a = account_key (to_string id) in
      let (s', all, e') = query-steps redis view d (get a) [] s (idle values) e in
      let (s'', all', e'') =
        query-steps redis view d multi (pexpire a ∷ pexpire k ∷ exec ∷ lrange k ∷ []) s'
          (idle values) e' in
      let long : ltb (length cookie) 32 ≡ false = ground arith in
      (
        s'',
        rw (get_info_from_id, all)
            (rw (d.opens s) (
              rw known (
                rw (decoded_info, decoded)
                  (rw long (
                    rw (server_of, all')
                      (rw (pair_of-ranged (values k)) (
                        rw there (
                          ap (λ c. (ok (c, name), s''))
                            (ap (λ n. take n cookie) (sym whole) ∙ take_all cookie))))))))),
        e'',
      )
