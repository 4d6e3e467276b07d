-- ===== src/Server.antt =====
-- packages/core/src/server: the services that a server offers and how it calls them.
pub mod ServiceRegistry
pub mod MethodInvoker
pub mod RpcServer
pub mod Handling
pub mod Tests
