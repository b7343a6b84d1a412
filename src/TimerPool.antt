-- ===== src/TimerPool.antt =====
-- source/threads/TimerPool: the timers that are in use. A timer is a number, since `make_shared`
-- gives a new object every time; `made` counts them.
use drgb_server.Prelude.{
  ℕ, suc, Bool, true, false, Option, none, some, List, [], ◌∷◌, ◌==◌, if◌then◌else◌, length,
}

pub record TimerPool : Type 0 where
  pub is_running : Bool
  pub timer_set : List ℕ
  pub made : ℕ

unfoldable pub new : TimerPool
new = record { is_running = true; timer_set = []; made = 0 }

-- `TimerSet.erase`
unfoldable pub without : ℕ → List ℕ → List ℕ
without timer [] = []
without timer (t ∷ timers) =
    let rest = without timer timers in if t == timer then rest else t ∷ rest

unfoldable pub get_timer : TimerPool → Option ℕ × TimerPool
get_timer p =
    if p.is_running
    then (some p.made, record p { timer_set = p.made ∷ p.timer_set; made = suc p.made })
    else (none, p)

unfoldable pub release_timer : ℕ → TimerPool → TimerPool
release_timer timer p =
    if p.is_running then record p { timer_set = without timer p.timer_set } else p

unfoldable pub stop : TimerPool → TimerPool
stop p = record p { is_running = false; timer_set = [] }

unfoldable pub size : TimerPool → ℕ
size p = length p.timer_set
