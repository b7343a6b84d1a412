-- ===== src/SessionStore/Redis.antt =====
-- source/redis/MyRedisReply, and the exchange of commands and replies in source/redis/MyRedis.
-- A command is a constructor with the words that the code writes into its text. The server is a
-- parameter: what it answers to a command, in a state of its own. `Documented` says what the
-- documentation of Redis promises for these commands; it is a hypothesis of the theorems.
use drgb_server.Prelude.{
  ℕ, ◌+◌, Bool, true, false, Option, none, some, List, [], ◌∷◌, ◌++◌, ◌≡◌, length, if◌then◌else◌,
}
use drgb_server.ConfigParser.{same_text}

-- What redisGetReply gives, in the fields that the code reads.
mutual
  pub data Reply : Type 0 where
    nil : Reply
    status : List ℕ → Reply
    failure : List ℕ → Reply
    integer : ℕ → Reply
    text : List ℕ → Reply
    array : Elements → Reply

  pub data Elements : Type 0 where
    end : Elements
    element : Reply → Elements → Elements

abbrev pub listed : Elements → List Reply
listed end = []
listed (element r rest) = r ∷ listed rest

-- `elements`, empty for what is no array
unfoldable pub elements : Reply → List Reply
elements (array rs) = listed rs
elements nil = []
elements (status t) = []
elements (failure t) = []
elements (integer n) = []
elements (text t) = []

unfoldable pub str : Reply → List ℕ
str (text t) = t
str (status t) = t
str (failure t) = t
str nil = []
str (integer n) = []
str (array rs) = []

unfoldable pub integer_of : Reply → ℕ
integer_of (integer n) = n
integer_of nil = 0
integer_of (status t) = 0
integer_of (failure t) = 0
integer_of (text t) = 0
integer_of (array rs) = 0

-- `type == REDIS_REPLY_ARRAY`
unfoldable pub is_array : Reply → Bool
is_array (array rs) = true
is_array nil = false
is_array (status t) = false
is_array (failure t) = false
is_array (integer n) = false
is_array (text t) = false

pub data Command : Type 0 where
  multi : Command
  exec : Command
  watch : List ℕ → Command
  del : List ℕ → Command
  -- RPUSH of two words
  rpush : List ℕ → List ℕ → List ℕ → Command
  -- PEXPIRE, with the session's timeout
  pexpire : List ℕ → Command
  -- SET with PX and the session's timeout
  set : List ℕ → List ℕ → Command
  get : List ℕ → Command
  -- LRANGE key 0 1
  lrange : List ℕ → Command

-- A connection: `is_open`, and the next reply with the state behind it. No reply: it broke.
pub record Connection (S : Type 0) : Type 0 where
  pub is_open : S → Bool
  pub answer : Command → S → Option Reply × S

module _ {S : Type 0} (redis : Connection S) where
  -- One pass of the loop that reads the replies.
  unfoldable pub replied :
      Option Reply × S → (S → Option (List Reply) × S) → Option (List Reply) × S
  replied (none, s) others = (none, s)
  replied (some r, s) others =
      let (rs, s') = others s in (elim rs [ none ↦ none | some replies ↦ some (r ∷ replies) ], s')

  unfoldable pub replies : List Command → S → Option (List Reply) × S
  unfolding replied
  replies [] s = (some [], s)
  replies (c ∷ commands) s = replied (redis.answer c s) (replies commands)

  -- `Query`: every reply, or none at all.
  unfoldable pub query : List Command → S → List Reply × S
  query [] s = ([], s)
  query (c ∷ commands) s =
      let (rs, s') = replies (c ∷ commands) s in
      if redis.is_open s then (elim rs [ none ↦ [] | some all ↦ all ], s') else ([], s)

-- A value of Redis, and the keys with their values.
pub data Value : Type 0 where
  string : List ℕ → Value
  items : List (List ℕ) → Value

abbrev pub Values : Type 0
Values = List ℕ → Option Value

unfoldable pub written : List ℕ → Option Value → Values → Values
written key value values = λ other. if same_text key other then value else values other

unfoldable pub wrong_type : Reply
wrong_type = failure []

unfoldable pub two_of : List (List ℕ) → Elements
two_of [] = end
two_of (a ∷ []) = element (text a) end
two_of (a ∷ b ∷ rest) = element (text a) (element (text b) end)

-- The effect of RPUSH on the value of its key.
unfoldable pub pushed : List ℕ → List ℕ → List ℕ → Option Value → Values → Reply × Values
unfolding written wrong_type
pushed key a b none values = (integer 2, written key (some (items (a ∷ b ∷ []))) values)
pushed key a b (some (items old)) values =
    (integer (length old + 2), written key (some (items (old ++ a ∷ b ∷ []))) values)
pushed key a b (some (string old)) values = (wrong_type, values)

-- The replies of DEL and PEXPIRE, of GET, and of LRANGE.
unfoldable pub counted : Option Value → Reply
counted none = integer 0
counted (some _) = integer 1

unfoldable pub got : Option Value → Reply
unfolding wrong_type
got none = nil
got (some (string t)) = text t
got (some (items _)) = wrong_type

unfoldable pub ranged : Option Value → Reply
unfolding two_of wrong_type
ranged none = array end
ranged (some (items all)) = array (two_of all)
ranged (some (string _)) = wrong_type

-- What Redis documents of a command outside of a transaction, while no key expires and no other
-- client writes.
unfoldable pub done : Command → Values → Reply × Values
done multi values = (status [], values)
done exec values = (failure [], values)
done (watch key) values = (status [], values)
done (del key) values = (counted (values key), written key none values)
done (rpush key a b) values = pushed key a b (values key) values
done (pexpire key) values = (counted (values key), values)
done (set key t) values = (status [], written key (some (string t)) values)
done (get key) values = (got (values key), values)
done (lrange key) values = (ranged (values key), values)

-- The commands queued behind MULTI, run one after another by EXEC.
unfoldable pub executed : List Command → Values → Elements × Values
unfolding done
executed [] values = (end, values)
executed (c ∷ commands) values =
    let first = done c values in
    let others = executed commands first.1 in (element first.0 others.0, others.1)

-- The commands that wait for EXEC, if MULTI came, and the values.
pub record State : Type 0 where
  pub queued : Option (List Command)
  pub values : Values

-- Is the command run at once, also behind MULTI?
unfoldable pub step : Command → Option (List Command) → Values → Reply × State
unfolding done executed
step multi none values = (status [], record { queued = some []; values = values })
step multi (some q) values = (failure [], record { queued = some q; values = values })
step exec none values = (failure [], record { queued = none; values = values })
step exec (some q) values =
    let (rs, values') = executed q values in (array rs, record { queued = none; values = values' })
step c none values =
    let (r, values') = done c values in (r, record { queued = none; values = values' })
step c (some q) values = (status [], record { queued = some (q ++ c ∷ []); values = values })

-- The connection is open and the server does what Redis documents; `view` shows its state.
pub record Documented {S : Type 0} (redis : Connection S) (view : S → State) : Type 0 where
  pub opens : (s : S) → redis.is_open s ≡ true
  pub answers :
      (c : Command) (s : S) → (redis.answer c s).0 ≡ some (step c (view s).queued (view s).values).0
  pub moves :
      (c : Command) (s : S) → view (redis.answer c s).1 ≡ (step c (view s).queued (view s).values).1

-- The replies and the state behind a sequence of commands.
unfoldable pub steps : List Command → State → List Reply × State
unfolding step
steps [] v = ([], v)
steps (c ∷ commands) v =
    let (r, v') = step c v.queued v.values in let (rs, v'') = steps commands v' in (r ∷ rs, v'')
