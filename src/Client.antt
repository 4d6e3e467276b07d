-- ===== src/Client.antt =====
-- packages/core/src/client: the parts of a client that decide whether, where and how often to call.
pub mod CircuitBreaker
pub mod RateLimiter
pub mod RetryPolicy
pub mod RpcClient
pub mod ConnectionPool
pub mod Proxy
pub mod Connection
