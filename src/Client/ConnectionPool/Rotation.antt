-- ===== src/Client/ConnectionPool/Rotation.antt =====
-- The pool of connection-pool.ts opens connections up to its limit and then hands them out in turn.
use native.Mathlib.Nat.{mod-eq_of_lt, mod-add-mod}
use weisley_rpc_framework.Prelude.{
  ℕ, zero, suc, ◌+◌, ◌*◌, ◌%◌, ◌≤◌, ◌<◌, ◌≡◌, ◌≢◌, refl, sym, ap, ◌∙◌, true, false, Option, none,
  some, List, [], ◌∷◌, ◌++◌, map, append-nil, Outcome, ok, throws, length, get_elem?, get_elem?_lt,
  get_elem?_last, arith, ltb→lt, ltb→le, le→ltb, lt→ltb, ltb, inl, inr, Bool-cases, length-append,
}
use weisley_rpc_framework.Prelude.Number.{nat_lt, integer}
use weisley_rpc_framework.Errors.{Thrown, error}
use weisley_rpc_framework.Discovery.Cycle.{picks, turned, picks_cycle}
use weisley_rpc_framework.Client.ConnectionPool.{RpcConnectionPool, get_connection}

-- The pool has no more connections than its limit, and its index is below the limit.
pub record IsValid {C : Type 0} (max : ℕ) (pool : RpcConnectionPool C) : Type 0 where
  pub limit : pool.max_connections ≡ integer max
  pub within_limit : length pool.connections ≤ max
  pub in_range : pool.next_index < max

module _ {C : Type 0} (create : ℕ → C) where
  -- `getConnection` below the limit, and at it.
  get_connection_below :
      (max : ℕ) (pool : RpcConnectionPool C)
      → pool.max_connections ≡ integer max
      → length pool.connections < max
      → get_connection create pool ≡ (
        record pool { connections = pool.connections ++ create (length pool.connections) ∷ [] },
        ok (create (length pool.connections)),
      )
  unfolding get_connection
  get_connection_below max pool limit h =
      let t : nat_lt (length pool.connections) pool.max_connections ≡ true =
        ap (nat_lt (length pool.connections)) limit
        ∙ lt→ltb (length pool.connections * 1) max (omega arith) in
      rw t refl

  get_connection_full :
      (max : ℕ) (pool : RpcConnectionPool C) (c : C)
      → pool.max_connections ≡ integer max
      → length pool.connections ≡ max
      → get_elem? pool.connections pool.next_index ≡ some c
      → get_connection create pool
        ≡ (record pool { next_index = (pool.next_index + 1) % length pool.connections }, ok c)
  unfolding get_connection
  get_connection_full max pool c limit h found =
      let f : nat_lt (length pool.connections) pool.max_connections ≡ false =
        ap (nat_lt (length pool.connections)) limit
        ∙ le→ltb (length pool.connections * 1) max (omega arith) in
      rw f (rw found refl)

  -- What `getConnection` promises on a valid pool: a valid pool with the connections it had and what
  -- was added, and the connection of that pool at a place. Below the limit a new connection is added
  -- and given; at the limit none is added, and the one at the pool's index is given.
  pub record Gives (max : ℕ) (pool : RpcConnectionPool C)
      (r : RpcConnectionPool C × Outcome Thrown C) : Type 0 where
    pub valid : IsValid max r.0
    pub added : List C
    pub keeps : r.0.connections ≡ pool.connections ++ added
    pub place : ℕ
    pub connection : C
    pub given : r.1 ≡ ok connection
    pub held : get_elem? r.0.connections place ≡ some connection
    pub opens :
        length pool.connections < max
        → (added ≡ create (length pool.connections) ∷ []) × (place ≡ length pool.connections)
    pub reuses : length pool.connections ≡ max → (added ≡ []) × (place ≡ pool.next_index)

  -- A valid pool always has a connection to give: a new one, which it keeps, as long as there are
  -- fewer than its limit, and then the one at its index of those it has. It stays valid and keeps
  -- its connections in their places.
  pub get_connection-Gives :
      (max : ℕ) (pool : RpcConnectionPool C)
      → IsValid max pool
      → Gives max pool (get_connection create pool)
  get_connection-Gives max pool v = elim (Bool-cases (ltb (length pool.connections) max)) [
    | inl t ↦
        let below = ltb→lt (length pool.connections) max t in
        rw (get_connection_below max pool v.limit below) (record {
          valid = record {
            limit = v.limit;
            within_limit = omega (
              arith,
              length-append pool.connections (create (length pool.connections) ∷ []),
              below,
            );
            in_range = v.in_range;
          };
          added = create (length pool.connections) ∷ [];
          keeps = refl;
          place = length pool.connections;
          connection = create (length pool.connections);
          given = refl;
          held = get_elem?_last pool.connections (create (length pool.connections));
          opens = λ _. (refl, refl);
          reuses = λ full. absurd (omega (arith, below, full));
        })
    | inr f ↦
        let full : length pool.connections ≡ max =
          omega (arith, v.within_limit, ltb→le (length pool.connections) max f) in
        let (c, found) =
          get_elem?_lt pool.connections pool.next_index (omega (arith, v.in_range, full)) in
        rw (get_connection_full max pool c v.limit full found) (record {
          valid = record {
            limit = v.limit;
            within_limit = v.within_limit;
            in_range = omega (arith, v.in_range, full);
          };
          added = [];
          keeps = sym (append-nil pool.connections);
          place = pool.next_index;
          connection = c;
          given = refl;
          held = found;
          opens = λ below. absurd (omega (arith, below, full));
          reuses = λ _. (refl, refl);
        })
  ]

  -- The results of k calls in a row.
  unfoldable pub lend : ℕ → RpcConnectionPool C → List (Outcome Thrown C)
  lend zero pool = []
  lend (suc k) pool = let (pool', c) = get_connection create pool in c ∷ lend k pool'

  answer : Option C → Outcome Thrown C
  answer none = throws (error "Connection pool has no available connection" none none)
  answer (some c) = ok c

  lend_full :
      (k max cursor : ℕ) (pool : RpcConnectionPool C)
      → IsValid max pool
      → length pool.connections ≡ max
      → pool.next_index ≡ cursor % length pool.connections
      → lend k pool ≡ map answer (picks pool.connections cursor k)
  unfolding lend answer
  lend_full zero max cursor pool v full at = refl
  lend_full (suc k) max cursor pool v full at =
      let n = length pool.connections in
      let (c, found) =
        get_elem?_lt pool.connections pool.next_index (omega (arith, v.in_range, full)) in
      let found_at : get_elem? pool.connections (cursor % n) ≡ some c =
        ap (get_elem? pool.connections) (sym at) ∙ found in
      let next_pool = record pool { next_index = (pool.next_index + 1) % n } in
      let still : IsValid max next_pool = record {
        limit = v.limit;
        within_limit = v.within_limit;
        in_range = omega (arith, v.in_range, full);
      } in
      let next_at : (pool.next_index + 1) % n ≡ (cursor + 1) % n =
        ap (λ i. (i + 1) % n) at ∙ mod-add-mod cursor n 1 in
      let rest = lend_full k max (cursor + 1) next_pool still full next_at in
      rw (get_connection_full max pool c v.limit full found) (rw found_at (ap (◌∷◌ (ok c)) rest))

  map-answer : (cs : List C) → map answer (map some cs) ≡ map ok cs
  unfolding answer
  map-answer [] = refl
  map-answer (c ∷ cs) = ap (◌∷◌ (ok c)) (map-answer cs)

  -- A full pool hands out each of its connections once in as many calls as it has connections, in
  -- order from its index on.
  pub lend_round :
      (max : ℕ) (pool : RpcConnectionPool C)
      → IsValid max pool
      → length pool.connections ≡ max
      → lend (length pool.connections) pool ≡ map ok (turned pool.next_index pool.connections)
  lend_round max pool v full =
      let n = length pool.connections in
      let index : pool.next_index % n ≡ pool.next_index =
        mod-eq_of_lt (omega (arith, v.in_range, full)) in
      let nonempty : pool.connections ≢ [] =
        λ e. let z : length pool.connections ≡ 0 = ap length e in omega (arith, v.in_range, full) in
      lend_full n max pool.next_index pool v full (sym index)
      ∙ ap (map answer) (picks_cycle pool.connections pool.next_index nonempty)
      ∙ map-answer (turned (pool.next_index % n) pool.connections)
      ∙ ap (λ i. map ok (turned i pool.connections)) index
