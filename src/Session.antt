-- ===== src/Session.antt =====
-- What the servers do with their clients, in source/match/MyMatch, source/battle/MyBattle,
-- source/auth/MyAuth, and the codes of source/utils/MyCodes.hpp that they send.
-- A socket is a number; a handler gives the list of the calls that it makes, in their order. Cookies
-- and texts are lists of bytes, account ids numbers. `host` is the byte order of the machine.
use drgb_server.Prelude.{
  ℕ, Bool, true, false, Option, none, some, List, [], ◌∷◌, Result, ok, err, if◌then◌else◌,
}
use drgb_server.Encoder.{codes}
use drgb_server.ByteQueue.{ByteQueue, RangeError, create, pop, of_vector}
use drgb_server.ByteQueue.Endian.{push_fields}
pub mod Heartbeat

abbrev pub success : ℕ
success = 0

abbrev pub err_protocol_violation : ℕ
err_protocol_violation = 10

abbrev pub err_no_match_account : ℕ
err_no_match_account = 11

abbrev pub err_exist_account : ℕ
err_exist_account = 12

abbrev pub err_exist_account_match : ℕ
err_exist_account_match = 13

abbrev pub err_exist_account_battle : ℕ
err_exist_account_battle = 14

abbrev pub err_out_of_capacity : ℕ
err_out_of_capacity = 15

abbrev pub err_db_failed : ℕ
err_db_failed = 16

abbrev pub err_duplicated_access : ℕ
err_duplicated_access = 17

abbrev pub req_register : ℕ
req_register = 20

abbrev pub req_login : ℕ
req_login = 21

abbrev pub req_chpwd : ℕ
req_chpwd = 22

abbrev pub req_startmatch : ℕ
req_startmatch = 23

abbrev pub req_pausematch : ℕ
req_pausematch = 24

abbrev pub req_game_action : ℕ
req_game_action = 25

abbrev pub req_chname : ℕ
req_chname = 26

abbrev pub ans_heartbeat : ℕ
ans_heartbeat = 29

abbrev pub ans_matchmade : ℕ
ans_matchmade = 30

abbrev pub game_round_result : ℕ
game_round_result = 31

abbrev pub game_finished_win : ℕ
game_finished_win = 32

abbrev pub game_finished_draw : ℕ
game_finished_draw = 33

abbrev pub game_finished_loose : ℕ
game_finished_loose = 34

abbrev pub game_crashed : ℕ
game_crashed = 35

abbrev pub game_player_disconnected : ℕ
game_player_disconnected = 36

abbrev pub game_player_all_connected : ℕ
game_player_all_connected = 37

abbrev pub game_player_info : ℕ
game_player_info = 38

abbrev pub game_player_info_name : ℕ
game_player_info_name = 39

abbrev pub game_player_achieve : ℕ
game_player_achieve = 40

abbrev pub keyword_match : List ℕ
keyword_match = codes "match"

-- A call that a handler makes.
pub data Effect : Type 0 where
  sends : ℕ → List ℕ → Effect
  closes : ℕ → Effect
  -- `CancelTimeout`
  cancels : ℕ → Effect
  -- `FillTTL(SESSION_TTL)`
  fills : ℕ → Effect
  -- `StartRecv` with the next handler
  receives : ℕ → Effect
  -- `SetTimeout(SESSION_TIMEOUT / 2, ...)` with the heartbeat of the session
  beats : ℕ → Effect
  -- `SetTimeout(SESSION_TIMEOUT / 2, ...)` with `SessionProcess` itself: this timeout only sets the
  -- next one, with the heartbeat of the session
  arms : ℕ → Effect
  -- `SetTimeout(TIME_AUTHENTICATE, ...)` with the closing of the socket
  expects : ℕ → Effect
  -- `redis.SetInfo(account, cookie, server)`
  sets_info : ℕ → List ℕ → List ℕ → Effect
  -- `redis.ClearInfo(account, cookie, server)`
  clears_info : ℕ → List ℕ → List ℕ → Effect
  -- `matchmaker_cv.notify_one()`
  notifies : Effect
  -- an exception leaves the handler, or is handed to the thread's handler
  throws : Effect

-- `GetInfo`: the name, and the counts of the won, drawn and lost games.
pub record PlayerInfo : Type 0 where
  pub nickname : ℕ
  pub win : ℕ
  pub draw : ℕ
  pub loose : ℕ

unfoldable pub message_of : Bool → ℕ → List (ℕ × ℕ) → List ℕ
message_of host header fields = (push_fields host host fields (create host (header ∷ []))).bytes

abbrev pub info_fields : PlayerInfo → List (ℕ × ℕ)
info_fields p = (8, p.nickname) ∷ (4, p.win) ∷ (4, p.draw) ∷ (4, p.loose) ∷ []

-- `packet.pop<T>()` of a type of `width` bytes
unfoldable pub take_field : Bool → ℕ → ByteQueue → Result RangeError (List ℕ × ByteQueue)
take_field host width packet = pop host host false width packet

-- The first byte of a message, and the rest of it.
unfoldable pub header_of : Bool → List ℕ → Result RangeError (ℕ × ByteQueue)
header_of host message = elim (take_field host 1 (of_vector host message)) [
  | err e ↦ err e
  | ok ([], packet) ↦ err RangeError.out_of_range
  | ok (header ∷ _, packet) ↦ ok (header, packet)
]

-- `AcceptProcess` of the match and of the battle server, after a handshake that failed or not.
unfoldable pub accept_process : Bool → ℕ → List Effect
accept_process failed client =
    if failed then closes client ∷ [] else receives client ∷ expects client ∷ []

-- The socket behind a `weak_ptr`, if it exists; or, with `is_open` for `live`, one that is open.
unfoldable pub alive : (ℕ → Bool) → Option ℕ → Option ℕ
alive live none = none
alive live (some socket) = if live socket then some socket else none

-- Closing a socket after an error.
abbrev pub rejected : ℕ → ℕ → List Effect
rejected client error = sends client (error ∷ []) ∷ closes client ∷ []
