-- ===== src/Client/Connection.antt =====
-- packages/core/src/client/connection.ts and pending-request.ts: one connection of a client, its
-- requests that wait for an answer, its heartbeat, and how it connects again.
pub mod State
pub mod Requests
pub mod Lifecycle
pub mod Run
pub mod Ledger
pub mod Settlement
pub mod Account
pub mod Answers
pub mod Trying
pub mod Reconnecting
pub mod Closing
pub mod Closed
pub mod Tests
