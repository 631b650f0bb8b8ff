-- ===== src/Server.antt =====
-- src/htnstratum/stratum_server.go: the handlers that the server installs, and a connection under
-- them.
pub mod Miner
pub mod Growth
pub mod Bounded
pub mod Positions
pub mod Submits
pub mod Recovery
pub mod Waiting
pub mod Rounds
pub mod Recovered
pub mod Alone
mod RecoveryTests
mod Tests
