-- ===== src/Client/ConnectionPool/Tests.antt =====
-- The theorems of the connection pool at concrete inputs, and calls of it.
use weisley_rpc_framework.Prelude.{ℕ, zero, suc, ◌≡◌, refl, [], ◌∷◌, ok, arith, map}
use weisley_rpc_framework.Prelude.Number.{integer}
use weisley_rpc_framework.Discovery.Cycle.{turned}
use weisley_rpc_framework.Client.ConnectionPool.{
  ConnectionState, idle, connected, RpcConnectionPool, new_connection_pool, get_connection,
}
use weisley_rpc_framework.Client.ConnectionPool.Rotation.{
  IsValid, Gives, get_connection-Gives, lend, lend_round,
}

-- A connection is the number of its making.
abbrev handle : ℕ → ℕ
handle n = n

abbrev empty_pool : RpcConnectionPool ℕ
empty_pool = record { connections = []; next_index = 0; max_connections = integer 2 }

abbrev full_pool : RpcConnectionPool ℕ
full_pool = record { connections = 0 ∷ 1 ∷ []; next_index = 1; max_connections = integer 2 }

pool_of_two : new_connection_pool (integer 2) ≡ ok empty_pool
unfolding new_connection_pool
pool_of_two = refl

five_calls : lend handle 5 empty_pool ≡ ok 0 ∷ ok 1 ∷ ok 0 ∷ ok 1 ∷ ok 0 ∷ []
unfolding lend get_connection
five_calls = refl

empty_pool-IsValid : IsValid 2 empty_pool
empty_pool-IsValid = record { limit = refl; within_limit = omega arith; in_range = omega arith }

full_pool-IsValid : IsValid 2 full_pool
full_pool-IsValid = record { limit = refl; within_limit = omega arith; in_range = omega arith }

get_connection-Gives_example : Gives handle 2 empty_pool (get_connection handle empty_pool)
get_connection-Gives_example = get_connection-Gives handle 2 empty_pool empty_pool-IsValid

lend_round_example : lend handle 2 full_pool ≡ map ok (turned 1 (0 ∷ 1 ∷ []))
lend_round_example = lend_round handle 2 full_pool full_pool-IsValid refl

abbrev first_idle : ℕ → ConnectionState
first_idle zero = idle
first_idle (suc n) = connected
