-- ===== src/BattleServer/Course.antt =====
-- MyBattle: GameProcess from one wait of a battle's timer to the next.
use drgb_server.Prelude.{
  ℕ, ◌≡◌, refl, sym, ap, subst, ◌⊎◌, inl, inr, Bool, true, false, not, none, some, List, [], ◌∷◌,
  ◌++◌, Option, Bool-cases, length, if◌then◌else◌,
}
use drgb_server.Map.Numbers.{nat_order}
use drgb_server.Map.Bytes.{bytes_order}
use drgb_server.DeMap.{get_all}
use drgb_server.DeMap.Pairing.{IsPaired}
use drgb_server.Game
use drgb_server.Game.{Game}
use drgb_server.GameInfo.{GameInfo, is_all_in}
use drgb_server.Session.{
  Effect, game_round_result, game_player_disconnected, game_player_all_connected,
}
use drgb_server.BattleServer.{Battle}
use drgb_server.BattleServer.Finish.{Database, seat}
use drgb_server.BattleServer.Ticks.{
  Delay, Course, waits, finished, start_animation, disconnect_time, round_time, as_before, rearmed,
  achievements_told, send_each, send_round_result, interrupted, ended, played, tick,
}
use drgb_server.BattleServer.Release.{IsOver, IsFatal, ended_cases, achievements_told-game}

rearmed-running :
    (delay : Delay) (b : Battle (List ℕ))
    → b.gamepool.is_running ≡ true
    → rearmed delay b ≡ waits delay
unfolding rearmed
rearmed-running delay b running = rw running refl

taken_branch {ℓ} : {A : Type ℓ} (test : Bool) (x y : A) → test ≡ true → x ≡ (if test then x else y)
taken_branch test x y h = rw h refl

other_branch {ℓ} : {A : Type ℓ} (test : Bool) (x y : A) → test ≡ false → y ≡ (if test then x else y)
other_branch test x y h = rw h refl

module _ (host : Bool) (self_keyword : List ℕ) (live : ℕ → Bool) (is_open : ℕ → Bool)
    (db : Database) where
  -- The handler's three ends: a null pointer, another wait, the end of the battle. Each with what led
  -- to it.
  abbrev pub Outcomes :
      Bool
      → GameInfo
      → Battle (List ℕ)
      → Option (List Effect × GameInfo × Battle (List ℕ) × Course)
      → Type 0
  Outcomes failed g b result =
      ((result ≡ none)
        × (failed ≡ false)
        × IsFatal host self_keyword live is_open db (not (is_all_in is_open g)) g)
      ⊎ (((calls : List Effect) × (g' : GameInfo) × (delay : Delay) × (result
              ≡ some (calls, g', b, waits delay))
            × ((failed ≡ true)
                ⊎ ((is_all_in is_open g ≡ true)
                    × ((Game.process g.game).1 ≡ false)
                    × (delay ≡ round_time)))
            × (g'.session ≡ g.session))
          ⊎ ((calls : List Effect) × (g' : GameInfo) × (b' : Battle (List ℕ)) × (result
                ≡ some (calls, g', b', finished))
              × (failed ≡ false)
              × ((is_all_in is_open g ≡ false) ⊎ ((Game.process g.game).1 ≡ true))
              × IsOver host self_keyword live is_open db g b'))

  interrupted-waits :
      (prev_allin now_allin : Bool) (g : GameInfo) (b : Battle (List ℕ))
      → b.gamepool.is_running ≡ true
      → (calls : List Effect) × (delay : Delay) × (interrupted host self_keyword live is_open db
            prev_allin now_allin g b
          ≡ (calls, g, b, waits delay))
  unfolding interrupted
  interrupted-waits prev_allin true g b running =
      let calls = send_round_result host live game_player_all_connected g in
      (
        calls,
        start_animation,
        ap (λ c. (calls, g, b, c)) (rearmed-running start_animation b running),
      )
  interrupted-waits true false g b running =
      let calls = send_each live (λ side. game_player_disconnected ∷ []) (get_all 0 g.session).0 in
      (
        calls,
        disconnect_time,
        ap (λ c. (calls, g, b, c)) (rearmed-running disconnect_time b running),
      )
  interrupted-waits false false g b running =
      ([], as_before, ap (λ c. ([], g, b, c)) (rearmed-running as_before b running))

  played-Outcomes :
      (g : GameInfo) (previous : Bool) (b : Battle (List ℕ))
      → b.gamepool.is_running ≡ true
      → IsPaired b.sessions
      → is_all_in is_open g ≡ true
      → Outcomes false g b
          (played host self_keyword live is_open db (record g { previous_all_in = previous }) b)
  unfolding played seat
  played-Outcomes g previous b running p all_in =
      let game = (Game.process g.game).0 in
      let g' = record g { previous_all_in = previous; game = game } in
      let told =
        achievements_told host self_keyword live is_open db (length game.achievements) g' in
      let calls = send_round_result host live game_round_result g' ++ told.0 in
      let (last, e) =
        achievements_told-game host self_keyword live is_open db (length game.achievements) g' in
      elim (Bool-cases (Game.process g.game).1) [
        | inr goes ↦ inr (
            inl (
              calls,
              told.1,
              round_time,
              rw (played, goes)
                  (ap (λ c. some (calls, told.1, b, c)) (rearmed-running round_time b running)),
              inr (all_in, goes, refl),
              ap (λ (x : GameInfo). x.session) e,
            ))
        | inl over ↦
            elim (ended_cases host self_keyword live is_open db true calls told.1 b running p) [
              | inl (n, fatal) ↦ inl (
                rw (played, over) n,
                refl,
                subst (λ c. IsFatal host self_keyword live is_open db (not c) g) (sym all_in)
                    (subst (IsFatal host self_keyword live is_open db false) e fatal),
              )
              | inr (more, b', n, closed) ↦ inr (
                  inr (
                    more,
                    told.1,
                    b',
                    rw (played, over) n,
                    refl,
                    inr over,
                    subst (λ x. IsOver host self_keyword live is_open db x b') e closed,
                  ))
            ]
      ]

  -- What the handler of a battle's timer comes to while the pool runs. If the wait was cancelled, since
  -- a player came or went, or if both are in and the round that is played is not the last, it waits
  -- again (for a round's time in the second case), with nothing changed in the server. Otherwise,
  -- with a player missing or with the last round played, the battle is over: no session of either
  -- account and no timer of it is left in the server, whether the archive took the battle or not.
  -- Only if it did not, and the socket of a player is gone, the handler follows a null pointer.
  pub tick_cases :
      (failed : Bool) (g : GameInfo) (b : Battle (List ℕ))
      → b.gamepool.is_running ≡ true
      → IsPaired b.sessions
      → Outcomes failed g b (tick host self_keyword live is_open db failed g b)
  unfolding tick seat
  tick_cases true g b running p =
      let now = is_all_in is_open g in
      let g' = record g { previous_all_in = now } in
      let (calls, delay, e) = interrupted-waits g.previous_all_in now g' b running in
      inr (inl (calls, g', delay, ap some e, inl refl, refl))
  tick_cases false g b running p =
      let now = is_all_in is_open g in
      let g' = record g { previous_all_in = now } in
      let round = played host self_keyword live is_open db g' b in
      let last = ended host self_keyword live is_open db false [] g' b in
      elim (Bool-cases now) [
        | inl all_in ↦
            subst (Outcomes false g b) (taken_branch now round last all_in)
              (played-Outcomes g now b running p all_in)
        | inr missing ↦
            subst (Outcomes false g b) (other_branch now round last missing)
              (elim (ended_cases host self_keyword live is_open db false [] g' b running p) [
                | inl (n, fatal) ↦ inl (
                  n,
                  refl,
                  subst (λ c. IsFatal host self_keyword live is_open db (not c) g) (sym missing)
                      fatal,
                )
                | inr (calls, b', n, closed) ↦
                    inr (inr (calls, g', b', n, refl, inl missing, closed))
              ])
      ]
