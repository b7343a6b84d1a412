-- ===== src/Session/Heartbeat.antt =====
-- The heartbeat of a session: `SessionProcess` of source/match/MyMatch, source/battle/MyBattle and
-- source/auth/MyAuth over source/network/MyClientSocket.
-- `is_open()` of the socket is taken for `isReadable()`: of a websocket whose stream is closed and
-- whose TCP socket is still open, the code goes on where this stops. In the battle server the first
-- timeout of a session only sets the timer once more, and this is what the later ones do.
-- The callback runs when the timeout of the socket has passed, which is over with that. `refreshed`
-- is the reply of `redis.RefreshInfo`; the auth server has no session to refresh, which is `true`.
use drgb_server.Prelude.{
  ℕ, zero, suc, ◌+◌, ◌-◌, ◌≤◌, ◌≡◌, ap, subst, ◌∙◌, Bool, true, false, not, List, [], ◌∷◌,
  if◌then◌else◌, arith,
}
use drgb_server.Prelude.Int.{ℤ, pos}
use drgb_server.ClientSocket.{
  Socket, is_usable, close, set_timeout, count_ttl, enqueue, payload, send,
}

abbrev pub session_ttl : ℤ
session_ttl = pos 4

module _ {ℓ} {C : Type ℓ} (crypt : C → List ℕ → List ℕ × C) where
  unfoldable pub heartbeat : Bool → Socket C → Socket C
  heartbeat refreshed fired =
      let s = record fired { timer = false } in
      let (left, s') = count_ttl s in
      if not s.readable
      then s
      else if not refreshed
      then close s
      else if left
      then set_timeout (send crypt (29 ∷ []) s')
      else close s'

  -- `n` timeouts one after another, while the client answers nothing.
  unfoldable pub silence : ℕ → Socket C → Socket C
  silence zero s = s
  silence (suc n) s = silence n (heartbeat true s)

  -- The session goes on: the socket takes messages, its timer runs, and this is its time to live.
  pub record IsWatched (ttl : ℕ) (s : Socket C) : Type ℓ where
    pub usable : is_usable s ≡ true
    pub lives : s.ttl ≡ pos ttl
    pub runs : s.timer ≡ true

  heartbeat-IsWatched :
      (ttl : ℕ) (s : Socket C)
      → is_usable s ≡ true
      → s.ttl ≡ pos (suc (suc ttl))
      → IsWatched (suc ttl) (heartbeat true s)
  unfolding heartbeat is_usable count_ttl set_timeout send enqueue payload
  heartbeat-IsWatched ttl s u l = record {
    usable = ground arith;
    lives = ground arith;
    runs = ground arith;
  }

  heartbeat_last :
      (s : Socket C)
      → is_usable s ≡ true
      → s.ttl ≡ pos 1
      → ((heartbeat true s).initiate_close ≡ true)
        × ((heartbeat true s).closing ≡ true)
        × ((heartbeat true s).timer ≡ false)
  unfolding heartbeat is_usable count_ttl close
  heartbeat_last s u l = ground arith

  silence-IsWatched :
      (n left ttl : ℕ) (s : Socket C)
      → ttl ≡ n + suc left
      → IsWatched ttl s
      → IsWatched (suc left) (silence n s)
  unfolding silence
  silence-IsWatched zero left ttl s e w =
      let same : ttl ≡ suc left = omega arith in subst (λ k. IsWatched k s) same w
  silence-IsWatched (suc n) left ttl s e w =
      silence-IsWatched n left (suc (n + left)) (heartbeat true s) (omega arith)
        (heartbeat-IsWatched (n + left) s w.usable (w.lives ∙ ap pos (omega arith)))

  silence_ends :
      (n : ℕ) (s : Socket C)
      → IsWatched (suc n) s
      → ((silence (suc n) s).initiate_close ≡ true)
        × ((silence (suc n) s).closing ≡ true)
        × ((silence (suc n) s).timer ≡ false)
  unfolding silence
  silence_ends zero s w = heartbeat_last s w.usable w.lives
  silence_ends (suc n) s w =
      silence_ends n (heartbeat true s) (heartbeat-IsWatched n s w.usable w.lives)

  -- A client that answers nothing, in a session of `ttl + 1` to live that is refreshed: after `n`
  -- timeouts, while they are at most `ttl`, the socket still takes messages, its timer is set and
  -- `n` less are left to live; after `ttl + 1` timeouts the socket is being closed, with no timer set.
  pub silence_closes :
      (n ttl : ℕ) (s : Socket C)
      → n ≤ ttl
      → IsWatched (suc ttl) s
      → IsWatched (suc (ttl - n)) (silence n s)
        × ((silence (suc ttl) s).initiate_close ≡ true)
        × ((silence (suc ttl) s).closing ≡ true)
        × ((silence (suc ttl) s).timer ≡ false)
  silence_closes n ttl s h w =
      let (a, b, c) = silence_ends ttl s w in
      (silence-IsWatched n (ttl - n) (suc ttl) s (omega arith) w, a, b, c)
