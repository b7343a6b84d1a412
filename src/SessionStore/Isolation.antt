-- ===== src/SessionStore/Isolation.antt =====
-- source/redis/MyRedis: an operation on one session does not reach the sessions of other cookies.
use drgb_server.Prelude.{
  ℕ, ◌≡◌, ◌≢◌, refl, sym, ap, ◌∙◌, Bool, true, false, none, some, List, [], ◌∷◌, if◌then◌else◌, All,
  ok,
}
use drgb_server.ConfigParser.{same_text}
use drgb_server.Encoder.{encode_base64, decode_base64}
use drgb_server.Encoder.RoundTrip.{IsByte, decode_base64-encode_base64}
use drgb_server.SessionStore.{
  cookie_key, account_key, set_info, refresh_info, clear_info, get_info_from_cookie,
}
use drgb_server.SessionStore.Numerals.{to_string}
use drgb_server.SessionStore.Redis.{Connection, Documented, State, items, string, Values, written}
use drgb_server.SessionStore.Keys.{
  idle, recorded, is_held, written_other, account_key-ne-cookie_key, same_text-cookie_key,
}
use drgb_server.SessionStore.Writes.{set_info_lem, refresh_info_lem, clear_info_lem}
use drgb_server.SessionStore.Reads.{looked_up, get_info_from_cookie_lem}
use drgb_server.SessionStore.RoundTrip.{same_text-ne}

encode_base64-ne :
    (a b : List ℕ)
    → All IsByte a
    → All IsByte b
    → a ≢ b
    → same_text (cookie_key (encode_base64 a)) (cookie_key (encode_base64 b)) ≡ false
encode_base64-ne a b bytes bytes' ne =
    same_text-cookie_key (encode_base64 a) (encode_base64 b)
    ∙ same_text-ne (encode_base64 a) (encode_base64 b) (λ e.
      let back : ok a ≡ ok b =
        sym (decode_base64-encode_base64 a bytes)
        ∙ ap decode_base64 e
        ∙ decode_base64-encode_base64 b bytes' in
      ne (cc))

module _ (i c name c' : List ℕ) (values : Values)
    (ne : same_text (cookie_key c) (cookie_key c') ≡ false) where
  recorded_elsewhere : recorded i c name values (cookie_key c') ≡ values (cookie_key c')
  unfolding recorded
  recorded_elsewhere =
      written_other (account_key i) (cookie_key c') (some (string c))
        (written (cookie_key c) (some (items (i ∷ name ∷ []))) (written (cookie_key c) none values))
        (account_key-ne-cookie_key c' i)
      ∙ written_other (cookie_key c) (cookie_key c') (some (items (i ∷ name ∷ [])))
          (written (cookie_key c) none values) ne
      ∙ written_other (cookie_key c) (cookie_key c') none values ne

module _ (i c c' : List ℕ) (values : Values)
    (ne : same_text (cookie_key c) (cookie_key c') ≡ false) where
  elsewhere_cleared :
      (held : Bool)
      → (if held then written (account_key i) none (written (cookie_key c) none values) else values)
          (cookie_key c')
        ≡ values (cookie_key c')
  elsewhere_cleared false = refl
  elsewhere_cleared true =
      written_other (account_key i) (cookie_key c') none (written (cookie_key c) none values)
        (account_key-ne-cookie_key c' i)
      ∙ written_other (cookie_key c) (cookie_key c') none values ne

module _ {S : Type 0} (redis : Connection S) (view : S → State) (d : Documented redis view) where
  -- Two states whose values agree at the key of a cookie answer alike for the cookie.
  same_answer :
      (cookie : List ℕ) (s t : S) (values values' : Values)
      → view s ≡ idle values
      → view t ≡ idle values'
      → values' (cookie_key (encode_base64 cookie)) ≡ values (cookie_key (encode_base64 cookie))
      → (get_info_from_cookie redis cookie t).0 ≡ (get_info_from_cookie redis cookie s).0
  same_answer cookie s t values values' e f same =
      let (_, before, _) = get_info_from_cookie_lem redis view d cookie s values e in
      let (_, after, _) = get_info_from_cookie_lem redis view d cookie t values' f in
      ap (λ p. p.0) after ∙ ap looked_up same ∙ sym (ap (λ p. p.0) before)

  -- Redis behaves as documented and no transaction is open. SetInfo, RefreshInfo and ClearInfo of
  -- one cookie, and the lookups by a cookie, whatever they answer, leave what is answered for any
  -- other cookie as it was.
  pub get_info_elsewhere :
      (id : ℕ) (cookie name cookie' : List ℕ) (s : S) (values : Values)
      → view s ≡ idle values
      → All IsByte cookie
      → All IsByte cookie'
      → cookie ≢ cookie'
      → let answer = (get_info_from_cookie redis cookie' s).0 in
        ((get_info_from_cookie redis cookie' (set_info redis id cookie name s).1).0 ≡ answer)
        × ((get_info_from_cookie redis cookie' (refresh_info redis id cookie name s).1).0 ≡ answer)
        × ((get_info_from_cookie redis cookie' (clear_info redis id cookie name s).1).0 ≡ answer)
        × ((get_info_from_cookie redis cookie' (get_info_from_cookie redis cookie s).1).0 ≡ answer)
  get_info_elsewhere id cookie name cookie' s values e bytes bytes' ne =
      let i = to_string id in
      let c = encode_base64 cookie in
      let apart = encode_base64-ne cookie cookie' bytes bytes' ne in
      let (s1, set, e1) = set_info_lem redis view d id cookie name s values e in
      let (s2, kept, e2) = refresh_info_lem redis view d id cookie name s values e in
      let (s3, cleared, e3) = clear_info_lem redis view d id cookie name s values e in
      let (s4, read, e4) = get_info_from_cookie_lem redis view d cookie s values e in
      let held = is_held i name (values (cookie_key c)) in
      (
        rw set (
            same_answer cookie' s s1 values (recorded i c name values) e e1
              (recorded_elsewhere i c name (encode_base64 cookie') values apart)),
        rw kept (same_answer cookie' s s2 values values e e2 refl),
        rw cleared (
            same_answer cookie' s s3 values
              (if held
                then written (account_key i) none (written (cookie_key c) none values)
                else values)
              e e3 (elsewhere_cleared i c (encode_base64 cookie') values apart held)),
        rw read (same_answer cookie' s s4 values values e e4 refl),
      )
