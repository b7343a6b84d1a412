-- ===== src/Lib.antt =====
-- Verification library of the drgb server, a turn-based two-player game served by three kinds of
-- process: the auth server logs a player in and makes a session, the match server pairs waiting
-- players, the battle server plays their game. They share the session store (Redis), a database
-- (Postgres) and the utilities below.
--
-- Paths below are the repository's. A method that changes its object is a function from the old
-- state to the new one, with its result beside it; a byte is a number below 256.
--
-- Game (source/battle/MyGame): the rules of one battle. `action`, `process`, `get_winner`,
--   `get_player_info` and `get_achievement` are the public methods, `turn` the body of the loop of
--   `process`, `perform` its switch with one function for each case. Game/Rules states the rules
--   once more without bit masks, and Game/Round relates the two. Actions are 32-bit patterns.
-- MatchMaker (source/match/MyMatchMaker): the pairing of waiting players. `process` runs `pair_up`
--   on the length of the wait queue as fuel, which is enough since each round removes a player.
--   Doubles are a parameter without laws.
-- MatchService (source/match/MatchServiceServer): `least` and `without`, the choice among the streams.
--   MatchService/Stream is SessionStream: `handle` is a part of a stream's handler between two calls
--   on the shared state. Worlds runs those of several streams in any order, for Handlers, and
--   Reports joins one with the battle server behind it. MatchService/Asking is
--   TransferMatch with its waits, on the number of streams as fuel, which is enough since each round
--   drops one, and Refusals says whom it asks.
-- BattleService (source/battle/BattleServiceClient): the battle server's end of that stream.
-- Session (source/utils/MyCodes.hpp and what the servers share): the codes, the calls that a handler
--   makes as a list of effects, and Session/Heartbeat, the SessionProcess of all the servers.
-- MatchServer (source/match/MyMatch): `authenticate`, `client_process` with `disconnected`, and
--   `match_make`, the body of the loop of MatchMake, which takes the number of matches as fuel: each
--   round removes one. Replies of Redis and of the database are arguments, in each round of
--   the loop anew, and so are the streams at its call of TransferMatch. MatchServer/Handover has the
--   loop.
-- AuthServer (source/auth/MyAuth): `client_process` with `login`, `identify` and `session_check`; the
--   search for a free cookie takes fuel, and AuthServer/Cookie says how much is enough. AuthServer/Login
--   joins the message of a login with the accounts of Database.
-- SessionStore (source/redis): the sessions in Redis. SessionStore/Redis has the commands and replies
--   and `query` over a connection that is a parameter; `Documented` there is the hypothesis that the
--   server does what Redis documents of these commands. Link is its context. Login joins it with
--   AuthServer and MatchServer.
-- GameInfo (source/battle/MyBattle): the sockets of the players of one battle, who come and go.
-- BattleServer (source/battle/MyBattle): `match_transfer` is MatchTransfer; BattleServer/Ticks has
--   GameProcess as `tick`, from one wait of the timer to the next, and SendRoundResult;
--   BattleServer/Finish the achievements and the end of a battle. Replies of Redis and of the database
--   are arguments, a null pointer that is followed is `none`. The writes to the database are not
--   modelled, only what its calls answer. BattleServer/Client has AuthenticateProcess and
--   ClientProcess.
-- Server (source/templates/MyServer): starting and stopping. ServerSocket
--   (source/network/MyServerSocket): the list of clients.
-- Threads (source/threads/ThreadExceptHandler): exceptions handed to the thread that waits, whose
--   sleep and waking Threads/Waiting has as steps.
-- GetArg, Expected, ErrorCode (source/utils): small utilities.
-- TimerPool (source/threads/TimerPool): the timers that are in use.
-- PacketProcessor (source/utils/PacketProcessor): the framing of messages. `split`, `decapsulate`,
--   `encapsulate`, `flush` and `recv` follow the code; `flush` takes the buffer's length as fuel,
--   which is enough since each round removes at least two bytes.
-- ClientSocket (source/network/MyClientSocket): sending, receiving and closing over a transport that
--   is seen through its answers, with the copy of a buffer that is bound to its handler; the memory
--   behind the pointer that `DoSend` gets is not modelled. ClientSocket/Sending has a connection's
--   life as a step relation, ClientSocket/Exchange the exchange of keys with OpenSSL as a parameter.
-- ByteQueue (source/utils/ByteQueue): bytes with a read position; the messages of all the servers.
--   One function for each method, with `host` for the byte order of the machine.
-- Encoder (source/utils/Encoder): base64 without padding, both tables as in the source.
-- DeMap (source/utils/DeMap.hpp): the map with two keys. Each method is a function of its name;
--   Calls is any sequence of them. Map is std::map under it, as an association list in key order.
-- PostgresPool (source/postgres/MyPostgresPool): the connections to the database, whose
--   transactions begin or do not. The destructor is not modelled. PostgresPool/Slots has its
--   users as a step relation.
-- Database (source/postgres/MyPostgres): accounts, passwords and achievements, over the SQL statements
--   and sha256 as parameters. Database/Password and Database/Progress say what they take from them.
-- ConfigParser (source/utils/ConfigParser): the lines of a configuration file, as character codes.
-- Prelude: tests on native numbers, lists, integers, results, tables over small numbers.
-- Tests: runs of the model and the theorems at concrete inputs.
--
-- Not modelled: the mutexes (each modelled method holds its lock throughout), the expiry of keys in
-- Redis, accepting, the transports and TLS of source/network, gRPC below its streams, what the
-- database does with the SQL of source/postgres/MyPostgres, OpenSSL and Crypto++ behind
-- source/security, the threads of the servers, logging, daemon and command-line glue, and the
-- stress-test client.
pub mod Session
pub mod MatchServer
pub mod AuthServer
pub mod SessionStore
pub mod Database
pub mod BattleService
pub mod GetArg
pub mod Expected
pub mod ServerSocket
pub mod Server
pub mod ErrorCode
pub mod Threads
pub mod Prelude
pub mod PacketProcessor
pub mod Map
pub mod DeMap
pub mod ClientSocket
pub mod MatchService
pub mod ConfigParser
pub mod BattleServer
pub mod TimerPool
pub mod GameInfo
pub mod PostgresPool
pub mod MatchMaker
pub mod ByteQueue
pub mod Encoder
pub mod Game
mod Tests
