-- ===== src/Threads/Waiting.antt =====
-- source/threads/ThreadExceptHandler: one thread that waits, while others throw and stop.
-- `wait` of the condition variable gives the mutex back and falls asleep at once; the test of the
-- predicate and the push of an exception hold the mutex, the write of the flag does not.
use drgb_server.Prelude.{
  ℕ, suc, ◌-◌, ◌<◌, ◌≡◌, ◌≢◌, refl, true, false, none, List, [], ◌∷◌, ◌++◌, arith,
}
use drgb_server.Threads.{Handler, new, pushed, is_ready, rethrown}

-- The thread in WaitForThreadException.
pub data Waiter : Type 0 where
  -- outside
  away : Waiter
  -- about to test the predicate, with the mutex
  testing : Waiter
  -- the test failed, and the mutex is still held
  refused : Waiter
  asleep : Waiter
  -- the test passed, with the mutex
  taking : Waiter

pub record World : Type 0 where
  pub handler : Handler
  pub waiter : Waiter
  -- threads that have pushed, or set the flag, and not notified yet
  pub notifiers : ℕ

-- Does the waiting thread hold the mutex?
abbrev pub Holds : Waiter → Type 0
Holds away = ⊥
Holds testing = Unit
Holds refused = Unit
Holds asleep = ⊥
Holds taking = Unit

abbrev woken : Waiter → Waiter
woken away = away
woken testing = testing
woken refused = refused
woken asleep = testing
woken taking = taking

pub data Step : World → World → Type 0 where
  waits : {w : World} → w.waiter ≡ away → Step w (record w { waiter = testing })
  tests_true :
      {w : World}
      → w.waiter ≡ testing
      → is_ready w.handler ≡ true
      → Step w (record w { waiter = taking })
  tests_false :
      {w : World}
      → w.waiter ≡ testing
      → is_ready w.handler ≡ false
      → Step w (record w { waiter = refused })
  sleeps : {w : World} → w.waiter ≡ refused → Step w (record w { waiter = asleep })
  takes :
      {w : World}
      → w.waiter ≡ taking
      → Step w (record w { waiter = away; handler = (rethrown w.handler.exceptions w.handler).1 })
  throws :
      {w : World} (exception : ℕ)
      → ¬ Holds w.waiter
      → Step w (record w { handler = pushed exception w.handler; notifiers = suc w.notifiers })
  stops :
      {w : World}
      → Step w (record w {
        handler = record w.handler { is_gracefully_stop = true };
        notifiers = suc w.notifiers;
      })
  notifies :
      {w : World}
      → 0 < w.notifiers
      → Step w (record w { waiter = woken w.waiter; notifiers = w.notifiers - 1 })

pub data Steps : World → World → Type 0 where
  done : {w : World} → Steps w w
  later : {u v w : World} → Step u v → Steps v w → Steps u w

abbrev pub beginning : World
beginning = record { handler = new none; waiter = away; notifiers = 0 }

-- A thread that has given up, or sleeps, has seen every exception, or a notification is due.
abbrev IsHeard : Waiter → List ℕ → ℕ → Type 0
IsHeard refused exceptions notifiers = exceptions ≡ []
IsHeard asleep [] notifiers = Unit
IsHeard asleep (e ∷ exceptions) notifiers = 0 < notifiers
IsHeard away exceptions notifiers = Unit
IsHeard testing exceptions notifiers = Unit
IsHeard taking exceptions notifiers = Unit

is_ready-false : (h : Handler) (xs : List ℕ) → h.exceptions ≡ xs → is_ready h ≡ false → xs ≡ []
unfolding is_ready
is_ready-false h [] e f = refl
is_ready-false h (x ∷ xs) e f = cc (rw (is_ready, e) at f)

asleep-IsHeard :
    (p : Waiter) (xs : List ℕ) (n : ℕ) → IsHeard p xs n → p ≡ refused → IsHeard asleep xs n
asleep-IsHeard p [] n h e = tt
asleep-IsHeard refused (x ∷ xs) n h e = cc
asleep-IsHeard away (x ∷ xs) n h e = cc
asleep-IsHeard testing (x ∷ xs) n h e = cc
asleep-IsHeard asleep (x ∷ xs) n h e = h
asleep-IsHeard taking (x ∷ xs) n h e = cc

late-IsHeard : (xs : List ℕ) (n : ℕ) → IsHeard asleep xs (suc n)
late-IsHeard [] n = tt
late-IsHeard (x ∷ xs) n = omega arith

more-IsHeard : (p : Waiter) (xs : List ℕ) (n : ℕ) → IsHeard p xs n → IsHeard p xs (suc n)
more-IsHeard away xs n h = tt
more-IsHeard testing xs n h = tt
more-IsHeard refused xs n h = h
more-IsHeard asleep xs n h = late-IsHeard xs n
more-IsHeard taking xs n h = tt

free-IsHeard : (p : Waiter) (xs : List ℕ) (n : ℕ) → ¬ Holds p → IsHeard p xs (suc n)
free-IsHeard away xs n h = tt
free-IsHeard testing xs n h = absurd (h tt)
free-IsHeard refused xs n h = absurd (h tt)
free-IsHeard asleep xs n h = late-IsHeard xs n
free-IsHeard taking xs n h = tt

woken-IsHeard : (p : Waiter) (xs : List ℕ) (n m : ℕ) → IsHeard p xs n → IsHeard (woken p) xs m
woken-IsHeard away xs n m h = tt
woken-IsHeard testing xs n m h = tt
woken-IsHeard refused xs n m h = h
woken-IsHeard asleep xs n m h = tt
woken-IsHeard taking xs n m h = tt

abbrev AllHeard : World → Type 0
AllHeard w = IsHeard w.waiter w.handler.exceptions w.notifiers

Step-AllHeard : {u w : World} → Step u w → AllHeard u → AllHeard w
unfolding pushed
Step-AllHeard (waits e) h = tt
Step-AllHeard (tests_true e r) h = tt
Step-AllHeard (tests_false {w} e r) h = is_ready-false w.handler w.handler.exceptions refl r
Step-AllHeard (sleeps {w} e) h = asleep-IsHeard w.waiter w.handler.exceptions w.notifiers h e
Step-AllHeard (takes e) h = tt
Step-AllHeard (throws {w} exception free) h =
    free-IsHeard w.waiter (w.handler.exceptions ++ (exception ∷ [])) w.notifiers free
Step-AllHeard (stops {w}) h = more-IsHeard w.waiter w.handler.exceptions w.notifiers h
Step-AllHeard (notifies {w} due) h =
    woken-IsHeard w.waiter w.handler.exceptions w.notifiers (w.notifiers - 1) h

Steps-AllHeard : {u w : World} → Steps u w → AllHeard u → AllHeard w
Steps-AllHeard done h = h
Steps-AllHeard (later step steps) h = Steps-AllHeard steps (Step-AllHeard step h)

heard_asleep : (p : Waiter) (xs : List ℕ) (n : ℕ) → IsHeard p xs n → p ≡ asleep → xs ≢ [] → 0 < n
heard_asleep asleep [] n h e filled = absurd (filled refl)
heard_asleep asleep (x ∷ xs) n h e filled = h
heard_asleep away xs n h e filled = cc
heard_asleep testing xs n h e filled = cc
heard_asleep refused xs n h e filled = cc
heard_asleep taking xs n h e filled = cc

-- Whenever threads throw and stop, and in whatever order with the thread that waits: if it sleeps
-- while an exception is there, then a thread is still about to notify it. So no exception is missed.
pub Steps-wake :
    {w : World}
    → Steps beginning w
    → w.waiter ≡ asleep
    → w.handler.exceptions ≢ []
    → 0 < w.notifiers
Steps-wake {w} steps e filled =
    heard_asleep w.waiter w.handler.exceptions w.notifiers (Steps-AllHeard steps tt) e filled
