-- ===== src/Discovery.antt =====
-- packages/core/src/discovery: endpoints, the static registry and the load balancers.
pub mod Types
pub mod Cycle
pub mod Turns
pub mod RoundRobin
pub mod WeightedRoundRobin
pub mod LeastActive
pub mod Random
pub mod Tests
