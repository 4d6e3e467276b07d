-- ===== src/Client/RpcClient/Lending.antt =====
-- client/rpc-client.ts: getConnection gives connections of the endpoint that it is asked for.
use weisley_rpc_framework.Prelude.{
  ℕ, zero, suc, ◌<◌, ◌≡◌, refl, sym, ap, subst, ◌∙◌, false, some, String, List, [], ◌∷◌, ◌++◌,
  ◌or_else◌, Outcome, ok, length, get_elem?, str_eq, eq_iff, arith, Bool-cases, Option-cases, inl,
  inr,
}
use weisley_rpc_framework.Prelude.Dict
use weisley_rpc_framework.Prelude.Number.{Number, integer, nat_lt, is_nonpositive}
use weisley_rpc_framework.Prelude.Text.{joined_inj}
use weisley_rpc_framework.Errors.{Thrown}
use weisley_rpc_framework.Client.ConnectionPool
use weisley_rpc_framework.Client.ConnectionPool.{RpcConnectionPool, new_connection_pool}
use weisley_rpc_framework.Client.ConnectionPool.Rotation.{IsValid, get_connection-Gives}
use weisley_rpc_framework.Client.RpcClient.Pools.{
  RpcClientOptions, Handle, Pools, get_endpoint_key, from_pool, get_connection,
}

-- The connections of a list belong to the endpoint of a key.
unfoldable pub AllOf : String → List Handle → Type 0
AllOf key [] = Unit {0}
AllOf key (h ∷ hs) = (get_endpoint_key h.host h.port ≡ key) × AllOf key hs

AllOf-snoc :
    (key : String) (hs : List Handle) (h : Handle)
    → AllOf key hs
    → get_endpoint_key h.host h.port ≡ key
    → AllOf key (hs ++ h ∷ [])
unfolding AllOf
AllOf-snoc key [] h all e = (e, tt)
AllOf-snoc key (g ∷ hs) h (d, all) e = (d, AllOf-snoc key hs h all e)

AllOf-get_elem? :
    (key : String) (hs : List Handle) (n : ℕ) (h : Handle)
    → AllOf key hs
    → get_elem? hs n ≡ some h
    → get_endpoint_key h.host h.port ≡ key
unfolding AllOf
AllOf-get_elem? key [] n h all e = cc
AllOf-get_elem? key (g ∷ hs) zero h (d, all) e =
    let same : g ≡ h = cc in ap (λ x. get_endpoint_key x.host x.port) (sym same) ∙ d
AllOf-get_elem? key (g ∷ hs) (suc n) h (d, all) e = AllOf-get_elem? key hs n h all e

get_connection-AllOf :
    (key : String) (create : ℕ → Handle) (pool : RpcConnectionPool Handle)
    → ((n : ℕ) → get_endpoint_key (create n).host (create n).port ≡ key)
    → AllOf key pool.connections
    → AllOf key (ConnectionPool.get_connection create pool).0.connections
unfolding ConnectionPool.get_connection
get_connection-AllOf key create pool made all =
    elim (Bool-cases (nat_lt (length pool.connections) pool.max_connections)) [
      | inl t ↦
          rw (t, ConnectionPool.get_connection)
            (AllOf-snoc key pool.connections (create (length pool.connections)) all
              (made (length pool.connections)))
      | inr f ↦ elim (Option-cases (get_elem? pool.connections pool.next_index)) [
        | inl e ↦ rw (f, e, ConnectionPool.get_connection) all
        | inr (c, e) ↦ rw (f, e, ConnectionPool.get_connection) all
      ]
    ]

-- A pool under a key: within its limit, its connections the endpoint's.
pub record Holds (max : ℕ) (key : String) (pool : RpcConnectionPool Handle) : Type 0 where
  pub valid : IsValid max pool
  pub of_endpoint : AllOf key pool.connections

-- Every pool of the client is such a pool.
abbrev pub AllHold : ℕ → Pools → Type 0
AllHold max pools =
    (key : String) (pool : RpcConnectionPool Handle)
    → Dict.get pools key ≡ some pool
    → Holds max key pool

-- What getConnection promises: the pools hold on, and a connection to the host and port is given.
pub record Lends (max : ℕ) (host : String) (port : ℕ) (r : Pools × Outcome Thrown Handle)
    : Type 0 where
  pub hold : AllHold max r.0
  pub connection : Handle
  pub given : r.1 ≡ ok connection
  pub same_host : connection.host ≡ host
  pub same_port : connection.port ≡ port

-- Two endpoints of one key are one.
get_endpoint_key_inj :
    (host host' : String) (port port' : ℕ)
    → get_endpoint_key host port ≡ get_endpoint_key host' port'
    → (host ≡ host') × (port ≡ port')
unfolding get_endpoint_key
get_endpoint_key_inj host host' port port' same = joined_inj host host' port port' same

no_pools : {max : ℕ} → AllHold max []
unfolding Dict.get
no_pools key pool found = cc

AllHold-set :
    (max : ℕ) (pools : Pools) (key : String) (pool : RpcConnectionPool Handle)
    → AllHold max pools
    → Holds max key pool
    → AllHold max (Dict.set pools key pool)
AllHold-set max pools key pool all h key' pool' found = elim (Bool-cases (str_eq key key')) [
  | inl t ↦
      let here : Dict.get (Dict.set pools key pool) key' ≡ some pool = rw (Dict.get-set, t) refl in
      let same_pool : pool ≡ pool' = cc in
      let same_key : key ≡ key' = ground (arith, eq_iff key key') in
      subst (λ k. Holds max k pool') same_key (subst (Holds max key) same_pool h)
  | inr f ↦
      let there : Dict.get (Dict.set pools key pool) key' ≡ Dict.get pools key' =
        rw (Dict.get-set, f) refl in
      all key' pool' (sym there ∙ found)
]

from_pool-Lends :
    (max : ℕ) (host : String) (port : ℕ) (pools : Pools) (pool : RpcConnectionPool Handle)
    → AllHold max pools
    → Holds max (get_endpoint_key host port) pool
    → Lends max host port (from_pool host port pools pool)
unfolding from_pool
from_pool-Lends max host port pools pool all h =
    let create : ℕ → Handle = λ n. record { host = host; port = port; number = n } in
    let key = get_endpoint_key host port in
    let g = get_connection-Gives create max pool h.valid in
    let mine = get_connection-AllOf key create pool (λ n. refl) h.of_endpoint in
    let (same_host, same_port) =
      get_endpoint_key_inj g.connection.host host g.connection.port port (
        AllOf-get_elem? key (ConnectionPool.get_connection create pool).0.connections g.place
          g.connection mine g.held) in
    record {
      hold =
          AllHold-set max pools key (ConnectionPool.get_connection create pool).0 all
            (record { valid = g.valid; of_endpoint = mine });
      connection = g.connection;
      given = g.given;
      same_host = same_host;
      same_port = same_port;
    }

new_connection_pool-Holds :
    (n : Number) (max : ℕ) (key : String)
    → n ≡ integer max
    → 0 < max
    → (pool : RpcConnectionPool Handle) × (new_connection_pool n ≡ ok pool) × Holds max key pool
unfolding new_connection_pool AllOf
new_connection_pool-Holds n max key e h =
    let positive : is_nonpositive n ≡ false = ap is_nonpositive e ∙ ground arith in
    (
      record { connections = []; next_index = 0; max_connections = n },
      rw positive refl,
      record {
        valid = record { limit = e; within_limit = omega arith; in_range = h };
        of_endpoint = tt;
      },
    )

module _ {Value : Type 0} (o : RpcClientOptions Value) (max : ℕ) where
  get_connection-Lends :
      (host : String) (port : ℕ) (pools : Pools)
      → (o.max_connections_per_endpoint or_else integer 1) ≡ integer max
      → 0 < max
      → AllHold max pools
      → Lends max host port (get_connection o host port pools)
  unfolding get_connection
  get_connection-Lends host port pools limit h all =
      elim (Option-cases (Dict.get pools (get_endpoint_key host port))) [
        | inr (pool, e) ↦
            rw (e, get_connection)
              (from_pool-Lends max host port pools pool all
                (all (get_endpoint_key host port) pool e))
        | inl e ↦
            let (pool, made, holds) =
              new_connection_pool-Holds (o.max_connections_per_endpoint or_else integer 1) max
                (get_endpoint_key host port) limit h in
            rw (e, get_connection) (rw made (from_pool-Lends max host port pools pool all holds))
      ]

  -- The pools after getConnection was called for one endpoint after another.
  unfoldable pub pools_after : Pools → List (String × ℕ) → Pools
  unfolding get_connection
  pools_after pools [] = pools
  pools_after pools ((host, port) ∷ asked) = pools_after (get_connection o host port pools).0 asked

  pools_after-AllHold :
      (pools : Pools) (asked : List (String × ℕ))
      → (o.max_connections_per_endpoint or_else integer 1) ≡ integer max
      → 0 < max
      → AllHold max pools
      → AllHold max (pools_after pools asked)
  unfolding pools_after
  pools_after-AllHold pools [] limit h all = all
  pools_after-AllHold pools ((host, port) ∷ asked) limit h all =
      pools_after-AllHold (get_connection o host port pools).0 asked limit h
        (get_connection-Lends host port pools limit h all).hold

  -- Where the limit of connections per endpoint is a whole number above 0, as the 1 is that holds
  -- where none is set: whatever endpoints a new client has asked for, getConnection never throws.
  -- It gives a connection to the host and the port asked for, and every pool stays within the limit
  -- and has only connections whose endpoint has the key that it is kept under.
  pub get_connection-pools_after :
      (asked : List (String × ℕ)) (host : String) (port : ℕ)
      → (o.max_connections_per_endpoint or_else integer 1) ≡ integer max
      → 0 < max
      → Lends max host port (get_connection o host port (pools_after [] asked))
  get_connection-pools_after asked host port limit h =
      get_connection-Lends host port (pools_after [] asked) limit h
        (pools_after-AllHold [] asked limit h no_pools)
