-- ===== src/SessionStore/RoundTrip.antt =====
-- source/redis/MyRedis: sessions that are recorded, found, handed over and cleared.
use drgb_server.Prelude.{
  ℕ, ◌<◌, ◌≡◌, ◌≢◌, refl, ap, ap₂, ◌∙◌, inl, inr, true, false, ◌&&◌, ◌==◌, ==_iff, Bool-cases, none,
  some, List, [], ◌∷◌, if◌then◌else◌, All, length, ok, err,
}
use drgb_server.ConfigParser.{same_text}
use drgb_server.Encoder.{encode_base64}
use drgb_server.Encoder.RoundTrip.{IsByte, decode_base64-encode_base64}
use drgb_server.SessionStore.{
  no_match_account, cookie_key, account_key, set_info, refresh_info, clear_info, get_info_from_id,
  get_info_from_cookie, numbered,
}
use drgb_server.SessionStore.Numerals.{to_string, stoull-to_string}
use drgb_server.SessionStore.Redis.{
  Connection, Documented, State, Value, items, string, Values, written,
}
use drgb_server.SessionStore.Keys.{
  idle, recorded, is_held, present, written_self, written_other, same_text_refl,
  account_key-ne-cookie_key,
}
use drgb_server.SessionStore.Writes.{set_info_lem, refresh_info_lem, clear_info_lem}
use drgb_server.SessionStore.Reads.{
  named, looked_up, get_info_from_cookie_lem, get_info_from_id-none, get_info_from_id-some,
}

same_text-eq : (a b : List ℕ) → same_text a b ≡ true → a ≡ b
unfolding same_text
same_text-eq [] [] h = refl
same_text-eq [] (d ∷ b) h = cc
same_text-eq (c ∷ a) [] h = cc
same_text-eq (c ∷ a) (d ∷ b) h = elim (Bool-cases (c == d)) [
  | inl e ↦ ap₂ (◌∷◌) ((==_iff c d).0 e) (same_text-eq a b (rw e at h))
  | inr e ↦ cc
]

pub same_text-ne : (a b : List ℕ) → a ≢ b → same_text a b ≡ false
same_text-ne a b ne = elim (Bool-cases (same_text a b)) [
  | inl e ↦ absurd (ne (same_text-eq a b e))
  | inr e ↦ e
]

-- What SetInfo leaves under the two keys.
recorded_cookie :
    (i c name : List ℕ) (values : Values)
    → recorded i c name values (cookie_key c) ≡ some (items (i ∷ name ∷ []))
unfolding recorded
recorded_cookie i c name values =
    written_other (account_key i) (cookie_key c) (some (string c))
      (written (cookie_key c) (some (items (i ∷ name ∷ []))) (written (cookie_key c) none values))
      (account_key-ne-cookie_key c i)
    ∙ written_self (cookie_key c) (some (items (i ∷ name ∷ [])))
        (written (cookie_key c) none values)

recorded_account :
    (i c name : List ℕ) (values : Values)
    → recorded i c name values (account_key i) ≡ some (string c)
unfolding recorded
recorded_account i c name values =
    written_self (account_key i) (some (string c))
      (written (cookie_key c) (some (items (i ∷ name ∷ []))) (written (cookie_key c) none values))

is_held-recorded :
    (i c name other : List ℕ) (values : Values)
    → is_held i other (recorded i c name values (cookie_key c)) ≡ same_text name other
unfolding is_held
is_held-recorded i c name other values =
    rw (is_held, recorded_cookie i c name values) (rw (same_text_refl i) refl)

present_some : (v : Value) → present (some v) ≡ true
unfolding present
present_some v = refl

looked_up-none : looked_up none ≡ err no_match_account
unfolding looked_up named
looked_up-none = refl

pub looked_up-recorded :
    (id : ℕ) (c name : List ℕ) (values : Values)
    → id < 18446744073709551616
    → looked_up (recorded (to_string id) c name values (cookie_key c)) ≡ ok (id, name)
unfolding looked_up named numbered
looked_up-recorded id c name values fits =
    rw (looked_up, recorded_cookie (to_string id) c name values)
      (rw (numbered, stoull-to_string id fits) refl)

module _ {S : Type 0} (redis : Connection S) (view : S → State) (d : Documented redis view) where
  -- Redis behaves as documented and no transaction is open, an account id fits into 64 bits and a
  -- cookie is 32 bytes. SetInfo succeeds; in the state right behind it the cookie gives the account
  -- and the server, the account gives the cookie and the server, and RefreshInfo of that session succeeds.
  pub set_info-get_info :
      (id : ℕ) (cookie name : List ℕ) (s : S) (values : Values)
      → view s ≡ idle values
      → id < 18446744073709551616
      → All IsByte cookie
      → length cookie ≡ 32
      → let after = (set_info redis id cookie name s).1 in
        ((set_info redis id cookie name s).0 ≡ none)
        × ((get_info_from_cookie redis cookie after).0 ≡ ok (id, name))
        × ((get_info_from_id redis id after).0 ≡ ok (cookie, name))
        × ((refresh_info redis id cookie name after).0 ≡ true)
  set_info-get_info id cookie name s values e fits bytes whole =
      let i = to_string id in
      let c = encode_base64 cookie in
      let values' = recorded i c name values in
      let (s', set, e') = set_info_lem redis view d id cookie name s values e in
      let (_, by_cookie, _) = get_info_from_cookie_lem redis view d cookie s' values' e' in
      let named_there : named (values' (cookie_key c)) ≡ ok (i, name) =
        unfold named in rw (named, recorded_cookie i c name values) refl in
      let (_, by_id, _) =
        get_info_from_id-some redis view d id cookie i name s' values' e'
          (recorded_account i c name values) (decode_base64-encode_base64 cookie bytes) whole
          named_there in
      let (_, kept, _) = refresh_info_lem redis view d id cookie name s' values' e' in
      rw set (
        refl,
        ap (λ p. p.0) by_cookie ∙ looked_up-recorded id c name values fits,
        ap (λ p. p.0) by_id,
        ap (λ p. p.0) kept
            ∙ (rw (is_held-recorded i c name name values, same_text_refl name)
                (ap present (recorded_account i c name values) ∙ present_some (string c))),
      )

  -- Redis behaves as documented and no transaction is open. Behind SetInfo of a session at one
  -- server, RefreshInfo and ClearInfo by a server of another name fail, and the cookie still gives
  -- the session; ClearInfo by the server itself succeeds, and then neither the cookie nor the
  -- account gives a session.
  pub clear_info-set_info :
      (id : ℕ) (cookie name other : List ℕ) (s : S) (values : Values)
      → view s ≡ idle values
      → id < 18446744073709551616
      → name ≢ other
      → let after = (set_info redis id cookie name s).1 in
        ((refresh_info redis id cookie other after).0 ≡ false)
        × ((clear_info redis id cookie other after).0 ≡ false)
        × ((get_info_from_cookie redis cookie (clear_info redis id cookie other after).1).0
            ≡ ok (id, name))
        × ((clear_info redis id cookie name after).0 ≡ true)
        × ((get_info_from_cookie redis cookie (clear_info redis id cookie name after).1).0
            ≡ err no_match_account)
        × ((get_info_from_id redis id (clear_info redis id cookie name after).1).0
            ≡ err no_match_account)
  clear_info-set_info id cookie name other s values e fits ne =
      let i = to_string id in
      let c = encode_base64 cookie in
      let k = cookie_key c in
      let a = account_key i in
      let values' = recorded i c name values in
      let (s', set, e') = set_info_lem redis view d id cookie name s values e in
      let (_, refreshed, _) = refresh_info_lem redis view d id cookie other s' values' e' in
      let refused : is_held i other (values' k) ≡ false =
        is_held-recorded i c name other values ∙ same_text-ne name other ne in
      let allowed : is_held i name (values' k) ≡ true =
        is_held-recorded i c name name values ∙ same_text_refl name in
      let there : present (values' a) ≡ true =
        ap present (recorded_account i c name values) ∙ present_some (string c) in
      let (t, kept, f) = clear_info_lem redis view d id cookie other s' values' e' in
      let f' : view t ≡ idle values' =
        f
        ∙ ap (λ b. idle (if b then written a none (written k none values') else values')) refused in
      let (_, still, _) = get_info_from_cookie_lem redis view d cookie t values' f' in
      let (u, cleared, g) = clear_info_lem redis view d id cookie name s' values' e' in
      let empty = written a none (written k none values') in
      let g' : view u ≡ idle empty = g ∙ ap (λ b. idle (if b then empty else values')) allowed in
      let (_, gone, _) = get_info_from_cookie_lem redis view d cookie u empty g' in
      let (_, gone', _) =
        get_info_from_id-none redis view d id u empty g'
          (written_self a none (written k none values')) in
      let no_cookie : empty k ≡ none =
        written_other a k none (written k none values') (account_key-ne-cookie_key c i)
        ∙ written_self k none values' in
      rw set (
        ap (λ p. p.0) refreshed ∙ ap (λ b. b && present (values' a)) refused,
        ap (λ p. p.0) kept ∙ ap (λ b. b && present (values' a)) refused,
        rw kept (ap (λ p. p.0) still ∙ looked_up-recorded id c name values fits),
        ap (λ p. p.0) cleared ∙ ap₂ (◌&&◌) allowed there,
        rw cleared (ap (λ p. p.0) gone ∙ ap looked_up no_cookie ∙ looked_up-none),
        rw cleared (ap (λ p. p.0) gone'),
      )
