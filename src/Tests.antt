-- ===== src/Tests.antt =====
-- Runs of the model on concrete inputs, and the theorems at inputs that meet their hypotheses.
mod PacketTests
mod EncoderTests
mod GameTests
mod DeMapTests
mod SocketTests
mod BalanceTests
mod ConfigTests
mod BattleTests
mod AuthTests
mod StoreTests
mod StreamTests
mod UtilityTests
mod DatabaseTests
mod ExchangeTests
mod RoundTests
mod PoolTests
mod MatchTests
mod MatchServerTests
mod ByteQueueTests
