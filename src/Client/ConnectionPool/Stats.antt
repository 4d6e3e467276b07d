-- ===== src/Client/ConnectionPool/Stats.antt =====
-- The counts that getStats of connection-pool.ts gives.
use weisley_rpc_framework.Prelude.{ℕ, ◌+◌, ◌≡◌, List, [], ◌∷◌, if◌then◌else◌, length, arith}
use weisley_rpc_framework.Client.ConnectionPool.{
  ConnectionState, idle, connecting, connected, reconnecting, closed_state, same_state,
  RpcConnectionPool, count_states, get_stats,
}

-- The counts of all states together.
unfoldable pub total_of : (ConnectionState → ℕ) → ℕ
total_of counts =
    counts idle + counts connecting + counts connected + counts reconnecting + counts closed_state

total_of_one_more :
    (counts : ConnectionState → ℕ) (s : ConnectionState)
    → total_of (λ t. if same_state s t then counts t + 1 else counts t) ≡ total_of counts + 1
unfolding total_of
total_of_one_more counts idle = omega arith
total_of_one_more counts connecting = omega arith
total_of_one_more counts connected = omega arith
total_of_one_more counts reconnecting = omega arith
total_of_one_more counts closed_state = omega arith

total_of-count_states :
    {C : Type 0} (state_of : C → ConnectionState) (cs : List C) (counts : ConnectionState → ℕ)
    → total_of (count_states state_of cs counts) ≡ total_of counts + length cs
unfolding count_states
total_of-count_states state_of [] counts = omega arith
total_of-count_states state_of (c ∷ cs) counts = omega (
  arith,
  total_of-count_states state_of cs
      (λ t. if same_state (state_of c) t then counts t + 1 else counts t),
  total_of_one_more counts (state_of c),
)

-- Every connection of the pool is counted in exactly one state: the counts add up to the total.
pub get_stats_total :
    {C : Type 0} (state_of : C → ConnectionState) (pool : RpcConnectionPool C)
    → total_of (get_stats state_of pool).states ≡ (get_stats state_of pool).total
unfolding get_stats total_of
get_stats_total state_of pool =
    omega (arith, total_of-count_states state_of pool.connections (λ _. 0))
