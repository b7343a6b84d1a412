-- ===== src/SessionStore/Keys.antt =====
-- source/redis/MyRedis: the keys of a session, and what the operations do to their values.
use drgb_server.Prelude.{
  ℕ, ◌≡◌, refl, Bool, true, false, ◌&&◌, Option, none, some, List, [], ◌∷◌, ==_refl,
}
use drgb_server.ConfigParser.{same_text}
use drgb_server.SessionStore.{cookie_key, account_key, verified, held_by, both_above}
use drgb_server.SessionStore.Redis.{
  State, Value, items, string, Values, written, counted, ranged, elements, str, integer_of, two_of,
  wrong_type,
}

pub same_text_refl : (t : List ℕ) → same_text t t ≡ true
unfolding same_text
same_text_refl [] = refl
same_text_refl (c ∷ t) = rw (same_text, ==_refl c) (same_text_refl t)

abbrev pub idle : Values → State
idle values = record { queued = none; values = values }

pub cookie_key-ne-account_key : (a b : List ℕ) → same_text (cookie_key a) (account_key b) ≡ false
unfolding cookie_key account_key same_text
cookie_key-ne-account_key a b = refl

pub account_key-ne-cookie_key : (a b : List ℕ) → same_text (account_key b) (cookie_key a) ≡ false
unfolding cookie_key account_key same_text
account_key-ne-cookie_key a b = refl

pub same_text-cookie_key : (a b : List ℕ) → same_text (cookie_key a) (cookie_key b) ≡ same_text a b
unfolding cookie_key same_text
same_text-cookie_key a b = refl

pub written_self :
    (key : List ℕ) (v : Option Value) (values : Values) → written key v values key ≡ v
unfolding written
written_self key v values = rw (same_text_refl key) refl

pub written_other :
    (key other : List ℕ) (v : Option Value) (values : Values)
    → same_text key other ≡ false
    → written key v values other ≡ values other
unfolding written
written_other key other v values ne = rw ne refl

-- The values behind SetInfo.
unfoldable pub recorded : List ℕ → List ℕ → List ℕ → Values → Values
recorded idstr cookie_str name values = written (account_key idstr) (some (string cookie_str)) (
    written (cookie_key cookie_str) (some (items (idstr ∷ name ∷ [])))
      (written (cookie_key cookie_str) none values))

-- Does the value of a cookie's key say that the account is at this server?
unfoldable pub is_held : List ℕ → List ℕ → Option Value → Bool
is_held idstr name none = false
is_held idstr name (some (string t)) = false
is_held idstr name (some (items [])) = false
is_held idstr name (some (items (i ∷ []))) = false
is_held idstr name (some (items (i ∷ n ∷ rest))) = same_text i idstr && same_text n name

unfoldable pub present : Option Value → Bool
present none = false
present (some v) = true

pub verified-ranged :
    (idstr name : List ℕ) (v : Option Value)
    → verified idstr name (ranged v ∷ []) ≡ is_held idstr name v
unfolding verified held_by ranged is_held elements two_of wrong_type str
verified-ranged idstr name none = refl
verified-ranged idstr name (some (string t)) = refl
verified-ranged idstr name (some (items [])) = refl
verified-ranged idstr name (some (items (i ∷ []))) = refl
verified-ranged idstr name (some (items (i ∷ n ∷ rest))) = refl

pub is_held-present :
    (idstr name : List ℕ) (v : Option Value) → is_held idstr name v ≡ true → present v ≡ true
unfolding is_held present
is_held-present idstr name none h = cc
is_held-present idstr name (some v) h = refl

pub both_above-counted :
    (v w : Option Value) → both_above (counted v ∷ counted w ∷ []) ≡ (present v && present w)
unfolding both_above counted integer_of present
both_above-counted none w = refl
both_above-counted (some a) none = refl
both_above-counted (some a) (some b) = refl
