-- ===== src/BattleServer/Release.antt =====
-- MyBattle: what is left of a battle when it is over, and when it goes on.
use drgb_server.Prelude.{
  ℕ, zero, suc, ◌≡◌, ◌≢◌, refl, ap, ◌∙◌, ◌⊎◌, inl, inr, Bool, true, false, not, Option, none, some,
  List, [], ◌∷◌, ◌++◌, ◌==◌, Bool-cases, Option-cases, All, arith,
}
use drgb_server.Map.{find}
use drgb_server.Map.Numbers.{nat_order}
use drgb_server.Map.Bytes.{bytes_order}
use drgb_server.DeMap.{erase_lkey}
use drgb_server.DeMap.Pairing.{IsPaired}
use drgb_server.DeMap.Calls.{erase_lkey-IsPaired, erase_lkey_cases, erase_lkey_stays}
use drgb_server.TimerPool.{without, release_timer}
use drgb_server.Game
use drgb_server.Game.{Game, Side, left, right, get_winner}
use drgb_server.GameInfo.{GameInfo}
use drgb_server.Session.{Effect, throws}
use drgb_server.BattleServer.{Battle}
use drgb_server.BattleServer.Finish.{
  Database, seat, archive, archive_failed, dismiss, result_code, cleaned_up, results, draw_told,
  finish_with, finish,
}
use drgb_server.BattleServer.Ticks.{finished, achievements_told, ended}

without-All : (t : ℕ) (timers : List ℕ) → All (λ s. s ≢ t) (without t timers)
unfolding without
without-All t [] = tt
without-All t (s ∷ timers) =
    let rest = without-All t timers in
    elim (Bool-cases (s == t)) [
      | inl h ↦ rw (without, h) rest
      | inr h ↦ rw (without, h) ((λ e. ground arith), rest)
    ]

-- The battle has no timer and no session in the server any more.
pub record IsClosed (timer lid rid : ℕ) (b : Battle (List ℕ)) : Type 0 where
  pub paired : IsPaired b.sessions
  pub left_gone : find lid b.sessions.lrm ≡ none
  pub right_gone : find rid b.sessions.lrm ≡ none
  pub timer_gone : All (λ t. t ≢ timer) b.gamepool.timer_set

cleaned_up-IsClosed :
    (timer lid rid : ℕ) (b : Battle (List ℕ))
    → b.gamepool.is_running ≡ true
    → IsPaired b.sessions
    → IsClosed timer lid rid (cleaned_up timer lid rid b)
unfolding cleaned_up release_timer
cleaned_up-IsClosed timer lid rid b running p =
    let p' = erase_lkey-IsPaired 0 lid b.sessions p in
    let d = (erase_lkey 0 lid b.sessions).1 in
    record {
      paired = erase_lkey-IsPaired 0 rid d p';
      left_gone = erase_lkey_stays 0 rid lid d p' (erase_lkey_cases 0 lid b.sessions p).0;
      right_gone = (erase_lkey_cases 0 rid d p').0;
      timer_gone = rw running (without-All timer b.gamepool.timer_set);
    }

module _ (is_open : ℕ → Bool) (self_keyword : List ℕ) where
  dismiss_keeps :
      (code id : ℕ) (socket : Option ℕ) (b : Battle (List ℕ))
      → IsPaired b.sessions
      → IsPaired (dismiss is_open self_keyword code id socket b).1.sessions
        × ((dismiss is_open self_keyword code id socket b).1.gamepool ≡ b.gamepool)
  unfolding dismiss
  dismiss_keeps code id socket b p =
      let p' = erase_lkey-IsPaired 0 id b.sessions p in
      elim (Option-cases (erase_lkey 0 id b.sessions).0) [
        | inl e ↦ rw (dismiss, e) (p', refl)
        | inr (gone, e) ↦ rw (dismiss, e) (p', refl)
      ]

module _ (host : Bool) (self_keyword : List ℕ) (live : ℕ → Bool) (is_open : ℕ → Bool)
    (db : Database) where
  results_keep :
      (crashed : Bool) (winner : Option Side) (l r : ℕ × Option ℕ) (b : Battle (List ℕ))
      → IsPaired b.sessions
      → IsPaired (results host self_keyword live is_open db crashed winner l r b).1.sessions
        × ((results host self_keyword live is_open db crashed winner l r b).1.gamepool ≡ b.gamepool)
  unfolding results
  results_keep crashed winner (lid, lsocket) (rid, rsocket) b p =
      let one = dismiss is_open self_keyword (result_code crashed winner left) lid lsocket b in
      let (p', e) =
        dismiss_keeps is_open self_keyword (result_code crashed winner left) lid lsocket b p in
      let (p'', e') =
        dismiss_keeps is_open self_keyword (result_code crashed winner right) rid rsocket one.1
          p' in
      (p'', e' ∙ e)

  null_socket : (l r : Option ℕ) → archive_failed l r ≡ none → (l ≡ none) ⊎ (r ≡ none)
  unfolding archive_failed
  null_socket none r e = inl refl
  null_socket (some s) none e = inr refl
  null_socket (some s) (some t) e = cc

  finish_with_cases :
      (crashed : Bool) (winner : Option Side) (l r : ℕ × Option ℕ) (timer : ℕ) (b : Battle (List ℕ))
      → b.gamepool.is_running ≡ true
      → IsPaired b.sessions
      → ((finish_with host self_keyword live is_open db crashed winner l r timer b ≡ none)
          × (archive db l.0 r.0 winner crashed ≡ false)
          × ((l.1 ≡ none) ⊎ (r.1 ≡ none)))
        ⊎ ((calls : List Effect) × (b' : Battle (List ℕ)) × (finish_with host self_keyword live
                is_open db crashed winner l r timer b
              ≡ some (calls, b'))
            × IsClosed timer l.0 r.0 b')
  unfolding finish_with
  finish_with_cases crashed winner l r timer b running p =
      let after = (results host self_keyword live is_open db crashed winner l r b).1 in
      let (p', e) = results_keep crashed winner l r b p in
      let running' = ap (λ pool. pool.is_running) e ∙ running in
      elim (Bool-cases (archive db l.0 r.0 winner crashed)) [
        | inl h ↦ inr (
          draw_told host self_keyword live is_open db crashed winner l r
              ++ (results host self_keyword live is_open db crashed winner l r b).0,
          cleaned_up timer l.0 r.0 after,
          rw (finish_with, h) refl,
          cleaned_up-IsClosed timer l.0 r.0 after running' p',
        )
        | inr h ↦ elim (Option-cases (archive_failed l.1 r.1)) [
          | inl n ↦ inl (rw (finish_with, h) (rw n refl), h, null_socket l.1 r.1 n)
          | inr (told, n) ↦ inr (
            draw_told host self_keyword live is_open db crashed winner l r
                ++ (told ++ (throws ∷ [])),
            cleaned_up timer l.0 r.0 b,
            rw (finish_with, h) (rw n refl),
            cleaned_up-IsClosed timer l.0 r.0 b running p,
          )
        ]
      ]

  -- The battle of `g` is over, and gone.
  abbrev pub IsOver : GameInfo → Battle (List ℕ) → Type 0
  IsOver g b = IsClosed g.timer (seat live 0 g).0 (seat live 1 g).0 b

  -- The archive failed, and a player is told it whose socket is gone.
  abbrev pub IsFatal : Bool → GameInfo → Type 0
  IsFatal crashed g =
      (winner : Option Side) × (archive db (seat live 0 g).0 (seat live 1 g).0 winner crashed
        ≡ false)
      × (((seat live 0 g).1 ≡ none) ⊎ ((seat live 1 g).1 ≡ none))

  pub ended_cases :
      (now_allin : Bool) (calls : List Effect) (g : GameInfo) (b : Battle (List ℕ))
      → b.gamepool.is_running ≡ true
      → IsPaired b.sessions
      → ((ended host self_keyword live is_open db now_allin calls g b ≡ none)
          × IsFatal (not now_allin) g)
        ⊎ ((calls' : List Effect) × (b' : Battle (List ℕ)) × (ended host self_keyword live is_open
                db now_allin calls g b
              ≡ some (calls', g, b', finished))
            × IsOver g b')
  unfolding ended finish
  ended_cases now_allin calls g b running p =
      elim (finish_with_cases (not now_allin) (get_winner g.game) (seat live 0 g) (seat live 1 g)
        g.timer b running p) [
          | inl (e, h, k) ↦ inl (rw (ended, e) refl, (get_winner g.game, h, k))
          | inr (last, b', e, c) ↦ inr (calls ++ last, b', rw (ended, e) refl, c)
        ]

  -- The achievements change nothing of the battle but its game.
  pub achievements_told-game :
      (fuel : ℕ) (g : GameInfo)
      → (game : Game) × ((achievements_told host self_keyword live is_open db fuel g).1
          ≡ record g { game = game })
  unfolding achievements_told
  achievements_told-game zero g = (g.game, refl)
  achievements_told-game (suc fuel) g = elim (Option-cases (Game.get_achievement g.game)) [
    | inl e ↦ (g.game, rw (achievements_told, e) refl)
    | inr (((side, achieve, count), game), e) ↦
        let (last, e') = achievements_told-game fuel (record g { game = game }) in
        (last, rw (achievements_told, e) e')
  ]
