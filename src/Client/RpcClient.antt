-- ===== src/Client/RpcClient.antt =====
-- client/rpc-client.ts: how often a call is tried, the failover, and what a call does to the client.
pub mod Retries
pub mod Attempts
pub mod Failover
pub mod AfterFailure
pub mod History
pub mod Pools
pub mod Codecs
pub mod Lending
pub mod Direct
pub mod Calls
pub mod Breaking
pub mod PoolTests
pub mod Tests
