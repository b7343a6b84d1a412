-- ===== src/Tests/StoreTests.antt =====
-- Sessions in a store that does what Redis documents.
use drgb_server.Prelude.{
  ℕ, ◌<◌, ◌≡◌, refl, inl, true, false, none, some, List, [], ◌∷◌, ok, err, arith,
}
use drgb_server.Encoder.{codes, encode_base64, charset, cut_6_2, cut_2_6, mix_2_4, mix_4_2}
use drgb_server.ConfigParser.{same_text}
use drgb_server.Map
use drgb_server.Map.{find}
use drgb_server.Map.Numbers.{nat_order}
use drgb_server.Map.Bytes.{bytes_order, compare_bytes}
use drgb_server.DeMap
use drgb_server.DeMap.Pairing.{added}
use drgb_server.DeMap.Keys.{Entry}
use drgb_server.ByteQueue.Endian.{memory, le_bytes}
use drgb_server.Session.{sends, closes, sets_info, success, keyword_match}
use drgb_server.AuthServer.{session_check, seed}
use drgb_server.AuthServer.Cookie.{rehashed}
use drgb_server.MatchServer.{authenticate}
use drgb_server.SessionStore.{
  first_pair, renewed_info, renewal, array_pair, numbered, cookie_key, account_key,
  no_match_account, set_info, refresh_info, clear_info, get_info_from_id, get_info_from_cookie,
}
use drgb_server.SessionStore.Numerals.{to_string, stoull, unsigned, negated, leading, is_digit}
use drgb_server.SessionStore.Redis.{
  Connection, Documented, State, step, Values, written, query, replies, pushed, counted, ranged,
  is_array, elements, str, two_of,
}
use drgb_server.SessionStore.Keys.{idle, recorded}
use drgb_server.SessionStore.RoundTrip.{set_info-get_info, clear_info-set_info}
use drgb_server.SessionStore.Isolation.{get_info_elsewhere}
use drgb_server.SessionStore.Login.{found_info, is_found, over_redis, set_info-authenticate}
use drgb_server.Tests.AuthTests.{zeros, next_hash, length-next_hash, eleven}
use drgb_server.Tests.MatchServerTests.{pair_ready, two_sessions-IsPaired, everything, known_infos}

digits_of_id : to_string 1205 ≡ codes "1205"
unfolding to_string
digits_of_id = refl

blanks_and_sign : stoull (codes " +12ab") ≡ some 12
unfolding stoull unsigned negated leading is_digit
blanks_and_sign = refl

no_digits : stoull (codes "ab") ≡ none
unfolding stoull unsigned negated leading is_digit
no_digits = refl

abbrev memory_redis : Connection State
memory_redis = record {
  is_open = λ s. true;
  answer = λ c s. (some (step c s.queued s.values).0, (step c s.queued s.values).1);
}

memory_redis-Documented : Documented memory_redis (λ s. s)
memory_redis-Documented = record { opens = λ s. refl; answers = λ c s. refl; moves = λ c s. refl }

abbrev no_values : Values
no_values = λ key. none

abbrev ten : List ℕ
ten = 10 ∷ zeros

abbrev no_bytes : List ℕ
no_bytes = 0 ∷ zeros

set_info-get_info_example :
    let after = (set_info memory_redis 5 no_bytes (codes "match") (idle no_values)).1 in
    ((set_info memory_redis 5 no_bytes (codes "match") (idle no_values)).0 ≡ none)
    × ((get_info_from_cookie memory_redis no_bytes after).0 ≡ ok (5, codes "match"))
    × ((get_info_from_id memory_redis 5 after).0 ≡ ok (no_bytes, codes "match"))
    × ((refresh_info memory_redis 5 no_bytes (codes "match") after).0 ≡ true)
set_info-get_info_example =
    set_info-get_info memory_redis (λ s. s) memory_redis-Documented 5 no_bytes (codes "match")
      (idle no_values) no_values refl (omega arith) (omega arith) refl

clear_info-set_info_example :
    let after = (set_info memory_redis 5 no_bytes (codes "battle1") (idle no_values)).1 in
    ((refresh_info memory_redis 5 no_bytes (codes "match") after).0 ≡ false)
    × ((clear_info memory_redis 5 no_bytes (codes "match") after).0 ≡ false)
    × ((get_info_from_cookie memory_redis no_bytes
          (clear_info memory_redis 5 no_bytes (codes "match") after).1).0
        ≡ ok (5, codes "battle1"))
    × ((clear_info memory_redis 5 no_bytes (codes "battle1") after).0 ≡ true)
    × ((get_info_from_cookie memory_redis no_bytes
          (clear_info memory_redis 5 no_bytes (codes "battle1") after).1).0
        ≡ err no_match_account)
    × ((get_info_from_id memory_redis 5
          (clear_info memory_redis 5 no_bytes (codes "battle1") after).1).0
        ≡ err no_match_account)
clear_info-set_info_example =
    clear_info-set_info memory_redis (λ s. s) memory_redis-Documented 5 no_bytes (codes "battle1")
      (codes "match") (idle no_values) no_values refl (omega arith) (λ e. cc e)

get_info_elsewhere_example :
    let answer = (get_info_from_cookie memory_redis ten (idle no_values)).0 in
    ((get_info_from_cookie memory_redis ten
        (set_info memory_redis 5 no_bytes (codes "match") (idle no_values)).1).0
      ≡ answer)
    × ((get_info_from_cookie memory_redis ten
          (refresh_info memory_redis 5 no_bytes (codes "match") (idle no_values)).1).0
        ≡ answer)
    × ((get_info_from_cookie memory_redis ten
          (clear_info memory_redis 5 no_bytes (codes "match") (idle no_values)).1).0
        ≡ answer)
    × ((get_info_from_cookie memory_redis ten
          (get_info_from_cookie memory_redis no_bytes (idle no_values)).1).0
        ≡ answer)
get_info_elsewhere_example =
    get_info_elsewhere memory_redis (λ s. s) memory_redis-Documented 5 no_bytes (codes "match") ten
      (idle no_values) no_values refl (omega arith) (omega arith) (λ e. cc e)

-- Another account has the cookie that the hash gives first.
abbrev one_session : Values
one_session = recorded (codes "7") (encode_base64 ten) keyword_match no_values

nine_is_free : one_session (account_key (to_string 9)) ≡ none
unfolding recorded written same_text account_key cookie_key to_string
nine_is_free = refl

ten_is_used : is_found (get_info_from_cookie memory_redis ten (idle one_session)).0 ≡ true
unfolding get_info_from_cookie query replies step pushed counted ranged first_pair renewed_info
    renewal array_pair numbered is_array elements str stoull unsigned leading is_digit recorded
    written same_text encode_base64 charset cut_6_2 cut_2_6 mix_2_4 mix_4_2 cookie_key account_key
    is_found two_of
ten_is_used = refl

eleven_is_free : is_found (get_info_from_cookie memory_redis eleven (idle one_session)).0 ≡ false
unfolding get_info_from_cookie query replies step ranged first_pair renewed_info array_pair is_array
    elements recorded written same_text encode_base64 charset cut_6_2 cut_2_6 mix_2_4 mix_4_2
    cookie_key account_key is_found
eleven_is_free = refl

set_info-authenticate_example :
    (session_check true (over_redis memory_redis (idle one_session) next_hash []) 5 90 9
      ≡ some (sets_info 9 eleven keyword_match ∷ sends 90 (success ∷ eleven) ∷ closes 90 ∷ []))
    × Entry
        (authenticate true everything 91
          (some eleven)
          (λ shown.
            found_info
              (get_info_from_cookie memory_redis shown
                (set_info memory_redis 9 eleven keyword_match (idle one_session)).1).0)
          known_infos
          pair_ready).1.sessions
        9
        eleven
        (some 91)
unfolding seed memory le_bytes rehashed added DeMap.new Map.insert find compare_bytes
set_info-authenticate_example =
    set_info-authenticate memory_redis (λ s. s) memory_redis-Documented true next_hash [] 1 5 90 9
      everything 91 known_infos pair_ready (idle one_session) one_session refl nine_is_free
      (omega arith) (omega arith) length-next_hash (λ k small. first_used k small) eleven_is_free
      two_sessions-IsPaired (inl (refl, refl))
  where
    first_used :
        (k : ℕ)
        → k < 1
        → is_found
            (get_info_from_cookie memory_redis
              (rehashed next_hash k
                (next_hash (seed true (over_redis memory_redis (idle one_session) next_hash []) 9)))
              (idle one_session)).0
          ≡ true
    first_used k small = (let zero_is : k ≡ 0 = omega arith in rw zero_is ten_is_used)
