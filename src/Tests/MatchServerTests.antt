-- ===== src/Tests/MatchServerTests.antt =====
-- The match server on two accounts, and a silent client.
use drgb_server.Prelude.{
  ℕ, zero, suc, length, ◌+◌, ◌≡◌, ◌≢◌, refl, ◌⊎◌, Bool, true, false, Option, none, some, List, [],
  ◌∷◌, ◌++◌, arith,
}
use drgb_server.Map
use drgb_server.Map.{Order, find, assign, erase, subscript}
use drgb_server.Map.Numbers.{nat_order}
use drgb_server.Map.Bytes.{bytes_order, compare_bytes}
use drgb_server.DeMap
use drgb_server.DeMap.{DeMap}
use drgb_server.DeMap.Pairing.{IsPaired, new-IsPaired, added, added-IsPaired}
use drgb_server.DeMap.Keys.{Entry}
use drgb_server.MatchMaker.{element, process}
use drgb_server.Session.{alive, Effect, PlayerInfo, cancels, keyword_match}
use drgb_server.Session.Heartbeat.{session_ttl, silence, IsWatched, silence_closes}
use drgb_server.ClientSocket.{Socket, is_usable}
use drgb_server.PacketProcessor
use drgb_server.MatchServer.{Server, join, admitted}
use drgb_server.MatchServer.Sessions.{Fits}
use drgb_server.MatchServer.Handover.{Claim, Surroundings, match_round, match_make}
use drgb_server.MatchService.Stream.{Service}
use drgb_server.MatchServer.Rounds.{IsTotal, IsClaim}
use drgb_server.MatchServer.Verdict.{IsVerdict, match_round_cases}
use drgb_server.MatchServer.Loop.{IsSound, IsEnd, match_make_ends}
use drgb_server.MatchServer.Admission.{Knows, IsTurnedAway, informed, admitted_cases}
use drgb_server.Tests.MatchTests.{thousandths}

thousandths-IsTotal : IsTotal thousandths
thousandths-IsTotal a b = (ground arith, λ h h'. ground arith)

-- Accounts 7 and 8 with sockets 70 and 80, whose match is next.
abbrev pub two_sessions : DeMap ℕ (List ℕ) (Option ℕ)
two_sessions = added 8 (2 ∷ []) (some 80) (added 7 (1 ∷ []) (some 70) DeMap.new)

abbrev pub pair_ready : Server
pair_ready = record {
  sessions = two_sessions;
  matchmaker = record { wait_queue = []; match_queue = (element 7 1 0 1, element 8 2 0 2) ∷ [] };
}

pub two_sessions-IsPaired : IsPaired two_sessions
unfolding added DeMap.new Map.insert find compare_bytes
two_sessions-IsPaired =
    added-IsPaired 8 (2 ∷ []) (some 80) (added 7 (1 ∷ []) (some 70) DeMap.new) refl refl
      (added-IsPaired 7 (1 ∷ []) (some 70) DeMap.new refl refl new-IsPaired)

abbrev pub everything : ℕ → Bool
everything s = true

abbrev any_refresh : ℕ → List ℕ → Bool
any_refresh id cookie = true

abbrev one_digit : ℕ → List ℕ
one_digit n = (48 + n) ∷ []

-- One battle server, 4, which takes each match.
abbrev one_stream : Service
one_stream = record { streams = (DeMap.insert 4 40 0 DeMap.new).1; recent_success = 4294967295 }

abbrev takes_match : ℕ → Service → Service
takes_match id s = record s { recent_success = 1 }

match_round_cases_example :
    (lc : Claim) × (rc : Claim) × IsClaim everything everything any_refresh lc 7 pair_ready
    × IsClaim everything everything any_refresh rc 8 pair_ready
    × IsVerdict thousandths true one_digit everything everything any_refresh everything takes_match
        one_stream lc rc
        (element 7 1 0 1)
        (element 8 2 0 2)
        []
        pair_ready
        (match_round thousandths true one_digit everything everything any_refresh everything
          takes_match one_stream pair_ready)
unfolding element
match_round_cases_example =
    match_round_cases thousandths true one_digit everything everything any_refresh everything
      takes_match one_stream (element 7 1 0 1) (element 8 2 0 2) [] pair_ready thousandths-IsTotal
      refl refl refl two_sessions-IsPaired

-- The battle server takes the match of the first round, and refuses those behind it.
abbrev first_taken : ℕ → Surroundings
first_taken n = record {
  live = everything;
  is_open = everything;
  refresh = any_refresh;
  written = everything;
  after_wait = elim n [ zero ↦ takes_match | suc k ↦ (λ id s. s) ];
  service = one_stream;
}

-- Accounts 9 and 10 have a match too.
abbrev four_ready : Server
four_ready = record {
  sessions = added 10 (4 ∷ []) (some 81) (added 9 (3 ∷ []) (some 71) two_sessions);
  matchmaker = record {
    wait_queue = [];
    match_queue = (element 7 1 0 1, element 8 2 0 2) ∷ (element 9 1 0 1, element 10 2 0 2) ∷ [];
  };
}

four_ready-IsPaired : IsPaired four_ready.sessions
unfolding added DeMap.new Map.insert find compare_bytes
four_ready-IsPaired =
    added-IsPaired 10 (4 ∷ []) (some 81) (added 9 (3 ∷ []) (some 71) two_sessions) refl refl
      (added-IsPaired 9 (3 ∷ []) (some 71) two_sessions refl refl two_sessions-IsPaired)

four_ready-present :
    (n x : ℕ) (v : Option ℕ)
    → find x four_ready.sessions.kvm ≡ some v
    → alive (first_taken n).live v ≢ none
unfolding added DeMap.new Map.insert find compare_bytes alive
four_ready-present n x none h e = ground arith
four_ready-present n x (some s) h e = cc

match_make_ends_example :
    (calls : List Effect) × (m' : Server) × (match_make thousandths true one_digit first_taken 100
        four_ready
      ≡ some (calls, m'))
    × IsEnd thousandths true one_digit first_taken
        (length (process thousandths 100 four_ready.matchmaker).match_queue)
        m'
    × IsSound (λ n. (first_taken n).live) m'
match_make_ends_example =
    match_make_ends thousandths true one_digit first_taken 100 four_ready
      (record { paired = four_ready-IsPaired; present = four_ready-present })

abbrev redis_knows : List ℕ → Option (ℕ × List ℕ)
redis_knows cookie = some (7, keyword_match)

abbrev pub known_infos : ℕ → Option (PlayerInfo × List (ℕ × ℕ))
known_infos id = some (record { nickname = 5; win = 3; draw = 1; loose = 2 }, (1, 10) ∷ [])

admitted_cases_example :
    ((id : ℕ) × Knows redis_knows (1 ∷ []) id
      × IsPaired
          (admitted true everything 71
            (1 ∷ [])
            (redis_knows (1 ∷ []))
            known_infos
            pair_ready).1.sessions
      × (Fits id (1 ∷ []) two_sessions
          → Entry
              (admitted true everything 71
                (1 ∷ [])
                (redis_knows (1 ∷ []))
                known_infos
                pair_ready).1.sessions
              id
              (1 ∷ [])
              (some 71))
      × ((admitted true everything 71 (1 ∷ []) (redis_knows (1 ∷ [])) known_infos pair_ready).0
          ≡ cancels 71
            ∷ ((join everything 71 id (1 ∷ []) pair_ready).0 ++ informed true 71 (known_infos id))))
    ⊎ ((¬ ((id : ℕ) × Knows redis_knows (1 ∷ []) id))
        × IsTurnedAway 71
            (admitted true everything 71 (1 ∷ []) (redis_knows (1 ∷ [])) known_infos pair_ready)
            pair_ready)
admitted_cases_example =
    admitted_cases true everything 71 (1 ∷ []) redis_knows known_infos pair_ready
      two_sessions-IsPaired

abbrev plain : ℕ → List ℕ → List ℕ × ℕ
plain key bytes = (bytes, key)

-- A client in a session of four timeouts.
abbrev watched : Socket ℕ
watched = record {
  is_secure = false;
  encryptor = 0;
  decryptor = 0;
  recvbuffer = PacketProcessor.new;
  initiate_close = false;
  send_queue = [];
  in_flight = none;
  ttl = session_ttl;
  timer = true;
  readable = true;
  closing = false;
  cleaned = 0;
}

watched-IsWatched : IsWatched plain 4 watched
unfolding is_usable
watched-IsWatched = record { usable = refl; lives = refl; runs = refl }

silence_closes_example :
    IsWatched plain 2 (silence plain 2 watched)
    × ((silence plain 4 watched).initiate_close ≡ true)
    × ((silence plain 4 watched).closing ≡ true)
    × ((silence plain 4 watched).timer ≡ false)
silence_closes_example = silence_closes plain 2 3 watched (omega arith) watched-IsWatched
