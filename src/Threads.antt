-- ===== src/Threads.antt =====
-- source/threads/ThreadExceptHandler: exceptions of threads, handed to the thread that waits.
-- An exception is a number. A handler with a parent hands its exceptions to it.
use drgb_server.Prelude.{
  ℕ, zero, suc, Bool, true, false, ◌||◌, Option, none, some, List, [], ◌∷◌, ◌++◌, ◌==◌,
  if◌then◌else◌,
}
pub mod Waiting

pub record Handler : Type 0 where
  pub parent : Option ℕ
  pub is_gracefully_stop : Bool
  pub exceptions : List ℕ

unfoldable pub new : Option ℕ → Handler
new parent = record { parent = parent; is_gracefully_stop = false; exceptions = [] }

abbrev pub Handlers : Type 0
Handlers = ℕ → Handler

unfoldable pub update : ℕ → Handler → Handlers → Handlers
update i h hs = λ j. if j == i then h else hs j

unfoldable pub set_parent : ℕ → Option ℕ → Handlers → Handlers
unfolding update
set_parent i parent hs = update i (record (hs i) { parent = parent }) hs

-- `push`
unfoldable pub pushed : ℕ → Handler → Handler
pushed exception h = record h { exceptions = h.exceptions ++ (exception ∷ []) }

-- `ThrowThreadException`, on fuel for the parents above the handler.
unfoldable pub throw_thread_exception : ℕ → ℕ → ℕ → Handlers → Option Handlers
unfolding update pushed
throw_thread_exception zero exception i hs = none
throw_thread_exception (suc fuel) exception i hs = elim (hs i).parent [
  | some parent ↦ throw_thread_exception fuel exception parent hs
  | none ↦ some (update i (pushed exception (hs i)) hs)
]

-- What `WaitForThreadException` does behind the wait: nothing, or the exception is thrown on.
unfoldable pub rethrown : List ℕ → Handler → Option ℕ × Handler
rethrown [] h = (none, h)
rethrown (exception ∷ exceptions) h = (some exception, record h { exceptions = exceptions })

-- The predicate of the wait.
unfoldable pub is_ready : Handler → Bool
is_ready h = elim h.exceptions [ [] ↦ h.is_gracefully_stop | _ ∷ _ ↦ true ]
