-- ===== src/Server.antt =====
-- source/templates/MyServer: starting and stopping, common to the three servers.
-- The calls of the other components are effects, in their order.
use drgb_server.Prelude.{
  ℕ, ◌+◌, ◌≡◌, refl, Bool, true, false, List, [], ◌∷◌, ◌++◌, if◌then◌else◌, arith,
}
use drgb_server.Encoder.{codes}

pub data Call : Type 0 where
  -- `ServiceBuilder.BuildAndStart`, and the thread that waits for it
  starts_service : Call
  connects_redis : Call
  starts_accept : Call
  -- the virtual `Open` and `Close` of the server
  opens : Call
  closes : Call
  closes_web : Call
  shuts_service : Call
  joins_service : Call
  closes_redis : Call
  wakes_up : Call
  -- `KeyExchange` of a socket, with AcceptProcess
  exchanges_keys : ℕ → Call

unfoldable pub start_server : Bool → List Call × Bool
start_server true = ([], true)
start_server false = (starts_service ∷ connects_redis ∷ starts_accept ∷ opens ∷ [], true)

-- `joinable` is that of the service's thread.
unfoldable pub stop_server : Bool → Bool → List Call × Bool
stop_server joinable false = ([], false)
stop_server joinable true = (
  closes_web
      ∷ shuts_service
      ∷ ((if joinable then joins_service ∷ [] else []) ++ closes_redis ∷ closes ∷ wakes_up ∷ []),
  false,
)

-- The destructor.
unfoldable pub destroyed : Bool → Bool → List Call × Bool
unfolding stop_server
destroyed joinable running = if running then stop_server joinable running else ([], running)

-- The handler of a new connection; `failed` is an error of accepting it.
unfoldable pub accept_handle : Bool → ℕ → List Call
accept_handle failed socket = if failed then [] else exchanges_keys socket ∷ []

-- The usages that the manager is told, of open connections.
unfoldable pub connect_usage : Bool → ℕ → ℕ → List (List ℕ × ℕ)
connect_usage redis connected waiting =
    (codes "Postgres", connected)
    ∷ (codes "PostgresPool", waiting)
    ∷ (codes "Redis", if redis then 1 else 0)
    ∷ []

-- Calls of `Start` and `Stop`, by whoever makes them.
pub data Request : Type 0 where
  starts : Request
  stops : Request

unfoldable pub requested : Request → Bool → List Call × Bool
unfolding start_server stop_server
requested starts running = start_server running
requested stops running = stop_server true running

unfoldable pub requests : List Request → Bool → List Call × Bool
unfolding requested
requests [] running = ([], running)
requests (r ∷ rs) running =
    let (calls, running') = requested r running in
    let (others, running'') = requests rs running' in (calls ++ others, running'')

-- How often a list of calls opens the server, and closes it.
pub openings : Call → ℕ
openings opens = 1
openings _ = 0

pub closings : Call → ℕ
closings closes = 1
closings _ = 0

pub sum : (Call → ℕ) → List Call → ℕ
sum weight [] = 0
sum weight (c ∷ calls) = weight c + sum weight calls

sum-append :
    (weight : Call → ℕ) (a b : List Call) → sum weight (a ++ b) ≡ sum weight a + sum weight b
unfolding sum
sum-append weight [] b = omega arith
sum-append weight (c ∷ a) b = omega (arith, sum-append weight a b)

abbrev pub as_number : Bool → ℕ
as_number true = 1
as_number false = 0

requested_balance :
    (r : Request) (running : Bool)
    → sum openings (requested r running).0 + as_number running
      ≡ sum closings (requested r running).0 + as_number (requested r running).1
unfolding requested sum openings closings
requested_balance starts true = refl
requested_balance starts false = refl
requested_balance stops true = refl
requested_balance stops false = refl

-- However often Start and Stop are called, and in whatever order: the server was opened as often as
-- closed, and once more while it runs.
pub requests_balance :
    (rs : List Request) (running : Bool)
    → sum openings (requests rs running).0 + as_number running
      ≡ sum closings (requests rs running).0 + as_number (requests rs running).1
unfolding requests sum
requests_balance [] running = refl
requests_balance (r ∷ rs) running =
    let (calls, running') = requested r running in
    let others = (requests rs running').0 in
    omega (
      arith,
      requested_balance r running,
      requests_balance rs running',
      sum-append openings calls others,
      sum-append closings calls others,
    )
