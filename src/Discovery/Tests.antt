-- ===== src/Discovery/Tests.antt =====
-- The theorems of the load balancers at concrete inputs, and runs of them.
use weisley_rpc_framework.Prelude.{
  ℕ, ◌<◌, ◌%◌, map, none, ◌≡◌, ◌≢◌, refl, ◌⊎◌, some, String, List, [], ◌∷◌, ok, throws,
}
use weisley_rpc_framework.Prelude.Dict
use weisley_rpc_framework.Prelude.Number.{integer}
use weisley_rpc_framework.Discovery.Types.{Endpoint, no_endpoint}
use weisley_rpc_framework.Discovery.Turns.{turns}
use weisley_rpc_framework.Discovery.Cycle.{turned}
use weisley_rpc_framework.Discovery.RoundRobin
use weisley_rpc_framework.Discovery.RoundRobin.{
  RoundRobinLoadBalancer, round_robin, round_robin_fair,
}
use weisley_rpc_framework.Discovery.WeightedRoundRobin
use weisley_rpc_framework.Discovery.WeightedRoundRobin.{
  WeightedRoundRobinLoadBalancer, weighted_round_robin, weighted_round_robin_fair, sum_of_weights,
  InRows, expand_weighted_endpoints, get_weight,
}
use weisley_rpc_framework.Discovery.LeastActive
use weisley_rpc_framework.Discovery.LeastActive.{
  LeastActiveLoadBalancer, IsFirstLeast, select-IsFirstLeast, get_active_count, set_active_count,
  get_endpoint_key, get_active_count-set_active_count,
}

abbrev first : Endpoint
first = record { host = "127.0.0.1"; port = 4000; weight = some (integer 1) }

abbrev second : Endpoint
second = record { host = "127.0.0.1"; port = 4001; weight = some (integer 3) }

abbrev both : List Endpoint
both = first ∷ second ∷ []

both-ne-nil : both ≢ []
both-ne-nil h = cc h

abbrev rotating : RoundRobinLoadBalancer
rotating = record { cursors = ("UserService", 3) ∷ [] }

round_robin_fair_example :
    (b' : RoundRobinLoadBalancer) × (turns round_robin 2 rotating "UserService" both
      ≡ ok (b', some second ∷ some first ∷ []))
    × ((t : String)
        → "UserService" ≢ t
        → RoundRobin.cursor_of b' t ≡ RoundRobin.cursor_of rotating t)
unfolding Dict.get
round_robin_fair_example = round_robin_fair rotating "UserService" both both-ne-nil

abbrev weighing : WeightedRoundRobinLoadBalancer
weighing = record { cursors = ("UserService", 5) ∷ [] }

weighted_round_robin_fair_example :
    (order : List Endpoint) × InRows both order
    × ((b' : WeightedRoundRobinLoadBalancer) × (turns weighted_round_robin
            (sum_of_weights both)
            weighing
            "UserService"
            both
          ≡ ok (
            b',
            map some (
                turned
                  (WeightedRoundRobin.cursor_of weighing "UserService" % sum_of_weights both)
                  order),
          ))
        × ((t : String)
            → "UserService" ≢ t
            → WeightedRoundRobin.cursor_of b' t ≡ WeightedRoundRobin.cursor_of weighing t))
    × ((e : Endpoint) (w : ℕ) → e.weight ≡ some (integer w) → 0 < w → get_weight e ≡ w)
    × ((e : Endpoint) → e.weight ≡ none → get_weight e ≡ 1)
weighted_round_robin_fair_example =
    weighted_round_robin_fair weighing "UserService" both both-ne-nil

abbrev busy : LeastActiveLoadBalancer
busy = record { active_counts = ("127.0.0.1:4000", 5) ∷ ("127.0.0.1:4001", 2) ∷ [] }

key_of_first : get_endpoint_key first ≡ "127.0.0.1:4000"
unfolding get_endpoint_key
key_of_first = refl

least_is_second : LeastActive.select busy "UserService" both ≡ ok second
unfolding LeastActive.select LeastActive.select_from get_active_count get_endpoint_key Dict.get
least_is_second = refl

select-IsFirstLeast_example :
    ((both ≡ [])
      × (LeastActive.select busy "UserService" both ≡ throws (no_endpoint "UserService")))
    ⊎ ((e : Endpoint) × (LeastActive.select busy "UserService" both ≡ ok e)
        × IsFirstLeast busy e both)
select-IsFirstLeast_example = select-IsFirstLeast busy "UserService" both
