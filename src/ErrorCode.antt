-- ===== src/ErrorCode.antt =====
-- source/utils/ErrorCode: codes of the servers, of the system, of boost and of OpenSSL.
-- The texts that strerror, boost and OpenSSL give for a code are arguments. A code is the pattern of
-- an `int` of 32 bits.
use drgb_server.Prelude.{ℕ, ◌-◌, ◌%◌, Bool, List, [], ◌∷◌, ◌++◌, ◌==◌, ltb, if◌then◌else◌}
use drgb_server.Encoder.{codes}
use drgb_server.SessionStore.Numerals.{to_string}

pub record ErrorCode : Type 0 where
  pub code : ℕ
  pub type : ℕ
  pub type_str : List ℕ
  pub message : List ℕ

abbrev pub type_errno : ℕ
type_errno = 0

abbrev pub type_boost : ℕ
type_boost = 1

abbrev pub type_openssl : ℕ
type_openssl = 2

abbrev pub type_custom : ℕ
type_custom = 3

abbrev pub strerrcode : List (ℕ × List ℕ)
strerrcode =
    (0, codes "Success")
    ∷ (10, codes "Protocol Violation")
    ∷ (11, codes "There is no matched account")
    ∷ (12, codes " There is already existing account")
    ∷ (13, codes "There is already existing account in Match Server")
    ∷ (14, codes "There is already existing account in Battle Server")
    ∷ (15, codes "The Server is Out of Capacity")
    ∷ (16, codes "DB Fail")
    ∷ (17, codes "There is another Access already connected")
    ∷ (18, codes "Connection is Closed")
    ∷ (19, codes "Time out")
    ∷ []

unfoldable pub message_at : ℕ → List (ℕ × List ℕ) → List ℕ
message_at ec [] = codes "Unknown Code"
message_at ec ((c, message) ∷ table) =
    let later = message_at ec table in if c == ec then message else later

unfoldable pub of_custom : ℕ → ErrorCode
unfolding message_at
of_custom ec = record {
  code = ec;
  type = type_custom;
  type_str = codes "CustomCode";
  message = message_at ec strerrcode;
}

unfoldable pub of_errno : (ℕ → List ℕ) → ℕ → ErrorCode
of_errno strerror errno = record {
  code = errno;
  type = type_errno;
  type_str = codes "Errno";
  message = strerror errno;
}

unfoldable pub of_boost : ℕ → List ℕ → ErrorCode
of_boost value message = record {
  code = value;
  type = type_boost;
  type_str = codes "Boost";
  message = message;
}

-- An `unsigned long`, of which the code keeps 32 bits.
unfoldable pub of_openssl : (ℕ → List ℕ) → ℕ → ErrorCode
of_openssl error_string ec = record {
  code = ec % 4294967296;
  type = type_openssl;
  type_str = codes "OpenSSL";
  message = error_string ec;
}

unfoldable pub set_message : List ℕ → ErrorCode → ErrorCode
set_message message e = record e { message = codes "(" ++ (message ++ codes ")") }

-- The decimal text of the `int` with a pattern.
unfoldable pub signed_text : ℕ → List ℕ
signed_text n = if ltb n 2147483648 then to_string n else codes "-" ++ to_string (4294967296 - n)

unfoldable pub message_code : ErrorCode → List ℕ
unfolding signed_text
message_code e = codes "(" ++ (signed_text e.code ++ (codes ") " ++ e.message))

unfoldable pub is_successed : ErrorCode → Bool
is_successed e = e.code == 0
