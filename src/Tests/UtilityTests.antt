-- ===== src/Tests/UtilityTests.antt =====
-- The utilities, the list of clients and the client of the match service on concrete inputs.
use drgb_server.Prelude.{ℕ, ◌≡◌, refl, true, false, none, some, [], ◌∷◌, ◌==◌}
use drgb_server.Encoder.{codes}
use drgb_server.SessionStore.Numerals.{to_string}
use drgb_server.GetArg.{find_equal, splitarg}
use drgb_server.Expected.{of_error, equal}
use drgb_server.ErrorCode.{of_custom, of_openssl, set_message, message_code}
use drgb_server.ServerSocket.{remove_client}
use drgb_server.MatchService.Stream.{cancelled, already_exists}
use drgb_server.BattleService
use drgb_server.BattleService.{receive_loop, connected, writes, calls_back, throws, sleeps}

arg : splitarg (codes "--port=80=a") ≡ some (codes "--port", codes "80=a")
unfolding splitarg find_equal
arg = refl

no_name : splitarg (codes "=80") ≡ none
unfolding splitarg find_equal
no_name = refl

-- Two failures compare equal.
two_failures :
    equal {T = ℕ} {E = ℕ} (λ a b. a == b) (λ a b. a == b) (of_error 0 7) (of_error 0 7) ≡ true
unfolding equal of_error
two_failures = refl

timeout_text : message_code (set_message (codes "Redis") (of_custom 19)) ≡ codes "(19) (Redis)"
unfolding message_code set_message of_custom to_string
timeout_text = refl

negative_text : message_code (of_openssl (λ ec. []) 4294967295) ≡ codes "(-1) "
unfolding message_code of_openssl to_string
negative_text = refl

first_of_two :
    (remove_client 5 (record { clients = 4 ∷ 5 ∷ 6 ∷ []; is_open = true })).clients ≡ 4 ∷ 6 ∷ []
unfolding remove_client
first_of_two = refl

-- The stream breaks, the next one is refused, and the client is closed.
two_connections :
    (receive_loop (BattleService.new 3) (
      record { transfers = (21, 22) ∷ []; status = cancelled; was_closed = false }
      ∷ record { transfers = []; status = already_exists; was_closed = true }
      ∷ [])).0
    ≡ writes 3 ∷ calls_back (21, 22) ∷ sleeps ∷ writes 3 ∷ throws already_exists ∷ []
unfolding receive_loop connected BattleService.new
two_connections = refl
