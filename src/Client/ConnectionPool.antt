-- ===== src/Client/ConnectionPool.antt =====
-- client/connection-pool.ts. A connection is a handle of a type C; `create` stands for
-- `new RpcConnection(...)` and is given how many connections the pool has made before.
pub mod Rotation
pub mod Stats
pub mod Tests
use weisley_rpc_framework.Prelude.{
  ℕ, suc, ◌+◌, ◌%◌, Bool, true, false, Option, none, some, List, [], ◌∷◌, ◌++◌, if◌then◌else◌, ◌==◌,
  Outcome, ok, throws, ◌>>=◌, ◌>>◌, throw_if, length, get_elem?,
}
use weisley_rpc_framework.Prelude.Number.{Number, nat_lt, is_nonpositive}
use weisley_rpc_framework.Errors.{Thrown, error}

pub data ConnectionState : Type 0 where
  idle connecting connected reconnecting closed_state : ConnectionState

pub record EndpointConnectionStats : Type 0 where
  pub total : ℕ
  pub states : ConnectionState → ℕ

pub record RpcConnectionPool (C : Type 0) : Type 0 where
  pub connections : List C
  pub next_index : ℕ
  pub max_connections : Number

abbrev pub same_state : ConnectionState → ConnectionState → Bool
same_state idle idle = true
same_state connecting connecting = true
same_state connected connected = true
same_state reconnecting reconnecting = true
same_state closed_state closed_state = true
same_state _ _ = false

module _ {C : Type 0} where
  unfoldable pub new_connection_pool : Number → Outcome Thrown (RpcConnectionPool C)
  new_connection_pool max_connections = do
    throw_if (is_nonpositive max_connections)
        (error "maxConnections must be greater than 0" none none)
    ok (record { connections = []; next_index = 0; max_connections = max_connections })

  -- The counts after the loop over the connections, from those before it.
  unfoldable pub count_states :
      (C → ConnectionState) → List C → (ConnectionState → ℕ) → ConnectionState → ℕ
  count_states state_of [] counts s = counts s
  count_states state_of (c ∷ cs) counts s =
      count_states state_of cs (λ t. if same_state (state_of c) t then counts t + 1 else counts t) s

  unfoldable pub get_stats : (C → ConnectionState) → RpcConnectionPool C → EndpointConnectionStats
  unfolding count_states
  get_stats state_of pool = record {
    total = length pool.connections;
    states = count_states state_of pool.connections (λ _. 0);
  }

  -- The pool afterwards, and the connection.
  unfoldable pub get_connection :
      (ℕ → C) → RpcConnectionPool C → RpcConnectionPool C × Outcome Thrown C
  get_connection create pool =
      let existing = length pool.connections in
      if nat_lt existing pool.max_connections
      then (
        record pool { connections = pool.connections ++ create existing ∷ [] },
        ok (create existing),
      )
      else elim (get_elem? pool.connections pool.next_index) [
        | none ↦ (pool, throws (error "Connection pool has no available connection" none none))
        | some c ↦ (record pool { next_index = (pool.next_index + 1) % existing }, ok c)
      ]

  unfoldable pub get_state : (C → ConnectionState) → RpcConnectionPool C → ConnectionState
  get_state state_of pool = elim (get_elem? pool.connections 0) [
    | none ↦ idle
    | some c ↦ state_of c
  ]

  -- `close` of every connection in turn, on the state S that the connections are part of.
  unfoldable pub close_all : {S : Type 0} → (S → C → S) → List C → S → S
  close_all close_connection [] s = s
  close_all close_connection (c ∷ cs) s = close_all close_connection cs (close_connection s c)
