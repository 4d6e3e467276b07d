-- ===== src/Discovery/WeightedRoundRobin.antt =====
-- discovery/weighted-round-robin-load-balancer.ts.
use weisley_rpc_framework.Prelude.{
  ℕ, zero, suc, ◌+◌, ◌%◌, ◌<◌, ◌≡◌, ◌≢◌, refl, ap, Option, some, none, ◌∙◌, String, List, [], ◌∷◌,
  ◌++◌, map, length, get_elem?, ◌==◌, replicate, Outcome, ok, ◌>>◌, throw_if, ◌or_else◌,
  if◌then◌else◌, arith, str_eq, not, false, length-append, length-replicate, sym,
}
use weisley_rpc_framework.Prelude.Dict
use weisley_rpc_framework.Prelude.Dict.{Dict, dict_laws}
use weisley_rpc_framework.Prelude.Number.{integer, is_finite, floor_at_least}
use weisley_rpc_framework.Errors.{Thrown}
use weisley_rpc_framework.Discovery.Cycle.{turned}
use weisley_rpc_framework.Discovery.Turns.{CursorBalancer, turns, turns_round}
use weisley_rpc_framework.Discovery.Types.{Endpoint, no_endpoint}

pub record WeightedRoundRobinLoadBalancer : Type 0 where
  pub cursors : Dict ℕ

abbrev pub cursor_of : WeightedRoundRobinLoadBalancer → String → ℕ
cursor_of b service_name = Dict.get b.cursors service_name or_else 0

unfoldable pub get_weight : Endpoint → ℕ
get_weight endpoint =
    let weight = endpoint.weight or_else integer 1 in
    if not (is_finite weight) then 1 else floor_at_least 1 weight

unfoldable pub expand_weighted_endpoints : List Endpoint → List Endpoint
unfolding get_weight
expand_weighted_endpoints [] = []
expand_weighted_endpoints (e ∷ es) = replicate (get_weight e) e ++ expand_weighted_endpoints es

unfoldable pub select :
    WeightedRoundRobinLoadBalancer
    → String
    → List Endpoint
    → Outcome Thrown (WeightedRoundRobinLoadBalancer × Option Endpoint)
select b service_name endpoints = do
  throw_if (length endpoints == 0) (no_endpoint service_name)
  let weighted_endpoints = expand_weighted_endpoints endpoints
  let cursor = cursor_of b service_name
  ok (
    record { cursors = Dict.set b.cursors service_name (cursor + 1) },
    get_elem? weighted_endpoints (cursor % length weighted_endpoints),
  )

pub set_cursor : WeightedRoundRobinLoadBalancer → String → ℕ → WeightedRoundRobinLoadBalancer
set_cursor b service_name cursor = record { cursors = Dict.set b.cursors service_name cursor }

pub cursor_of-set_cursor :
    (b : WeightedRoundRobinLoadBalancer) (s t : String) (c : ℕ)
    → cursor_of (set_cursor b s c) t ≡ (if str_eq s t then c else cursor_of b t)
unfolding set_cursor
cursor_of-set_cursor b s t c = simp dict_laws (ground arith)

pub select_lem :
    (b : WeightedRoundRobinLoadBalancer) (s : String) (endpoints : List Endpoint)
    → endpoints ≢ []
    → select b s endpoints
      ≡ ok (
        set_cursor b s (cursor_of b s + 1),
        get_elem?
            (expand_weighted_endpoints endpoints)
            (cursor_of b s % length (expand_weighted_endpoints endpoints)),
      )
unfolding select set_cursor
select_lem b s [] h = absurd (h refl)
select_lem b s (e ∷ es) h =
    let some_there : (suc (length es) == 0) ≡ false = ground arith in rw some_there

abbrev pub weighted_round_robin : CursorBalancer
weighted_round_robin = record {
  Balancer = WeightedRoundRobinLoadBalancer;
  select = select;
  cursor_of = cursor_of;
  pool = expand_weighted_endpoints;
  after = λ b s. set_cursor b s (cursor_of b s + 1);
  selects = select_lem;
  advances = λ b s t. cursor_of-set_cursor b s t (cursor_of b s + 1);
}

get_weight_pos : (e : Endpoint) → 0 < get_weight e
unfolding get_weight
get_weight_pos e = ground arith

unfoldable pub sum_of_weights : List Endpoint → ℕ
sum_of_weights [] = 0
sum_of_weights (e ∷ es) = get_weight e + sum_of_weights es

length-expand : (es : List Endpoint) → length (expand_weighted_endpoints es) ≡ sum_of_weights es
unfolding expand_weighted_endpoints sum_of_weights
length-expand [] = refl
length-expand (e ∷ es) = omega (
  arith,
  length-append (replicate (get_weight e) e) (expand_weighted_endpoints es),
  length-replicate (get_weight e) e,
  length-expand es,
)

expand-ne-nil :
    (endpoints : List Endpoint) → endpoints ≢ [] → expand_weighted_endpoints endpoints ≢ []
unfolding sum_of_weights
expand-ne-nil [] h w = h refl
expand-ne-nil (e ∷ es) h w = omega (arith, ap length w, length-expand (e ∷ es), get_weight_pos e)

get_elem?-replicate :
    (n : ℕ) (e : Endpoint) (rest : List Endpoint) (r : ℕ)
    → r < n
    → get_elem? (replicate n e ++ rest) r ≡ some e
get_elem?-replicate zero e rest r h = let never : ⊥ = omega arith in absurd never
get_elem?-replicate (suc n) e rest zero h = refl
get_elem?-replicate (suc n) e rest (suc r) h = get_elem?-replicate n e rest r (omega arith)

get_elem?-after_replicate :
    (n : ℕ) (e : Endpoint) (rest : List Endpoint) (k : ℕ)
    → get_elem? (replicate n e ++ rest) (n + k) ≡ get_elem? rest k
get_elem?-after_replicate zero e rest k =
    let same : 0 + k ≡ k = omega arith in ap (get_elem? rest) same
get_elem?-after_replicate (suc n) e rest k =
    let next : suc n + k ≡ suc (n + k) = omega arith in
    ap (get_elem? (replicate (suc n) e ++ rest)) next ∙ get_elem?-after_replicate n e rest k

get_elem?-expand :
    (front back : List Endpoint) (e : Endpoint) (r : ℕ)
    → r < get_weight e
    → get_elem? (expand_weighted_endpoints (front ++ e ∷ back)) (sum_of_weights front + r) ≡ some e
unfolding expand_weighted_endpoints sum_of_weights
get_elem?-expand [] back e r h =
    let same : 0 + r ≡ r = omega arith in
    ap (get_elem? (replicate (get_weight e) e ++ expand_weighted_endpoints back)) same
    ∙ get_elem?-replicate (get_weight e) e (expand_weighted_endpoints back) r h
get_elem?-expand (f ∷ front) back e r h =
    let rest = expand_weighted_endpoints (front ++ e ∷ back) in
    let sum_first : get_weight f + sum_of_weights front + r
        ≡ get_weight f + (sum_of_weights front + r) =
      omega arith in
    ap (get_elem? (replicate (get_weight f) f ++ rest)) sum_first
    ∙ get_elem?-after_replicate (get_weight f) f rest (sum_of_weights front + r)
    ∙ get_elem?-expand front back e r h

-- An order of turns in which each endpoint, after those before it in the list, has as many turns in
-- a row as its weight says, and no other turns.
pub record InRows (endpoints order : List Endpoint) : Type 0 where
  pub total : length order ≡ sum_of_weights endpoints
  pub row :
      (front back : List Endpoint) (e : Endpoint) (r : ℕ)
      → endpoints ≡ front ++ e ∷ back
      → r < get_weight e
      → get_elem? order (sum_of_weights front + r) ≡ some e

expand-InRows : (endpoints : List Endpoint) → InRows endpoints (expand_weighted_endpoints endpoints)
expand-InRows endpoints = record {
  total = length-expand endpoints;
  row = λ front back e r split h.
      ap (λ es. get_elem? (expand_weighted_endpoints es) (sum_of_weights front + r)) split
      ∙ get_elem?-expand front back e r h;
}

-- In as many calls of `select` for a service as the weights add up to, the endpoints are selected in
-- an order in which each has as many turns in a row as its weight says, turned to where the
-- service's cursor stands in it; no other service's cursor moves. A weight that is a whole number
-- above 0 counts as it is, and an endpoint without one has one turn.
pub weighted_round_robin_fair :
    (b : WeightedRoundRobinLoadBalancer) (s : String) (endpoints : List Endpoint)
    → endpoints ≢ []
    → (order : List Endpoint) × InRows endpoints order
      × ((b' : WeightedRoundRobinLoadBalancer) × (turns weighted_round_robin
              (sum_of_weights endpoints)
              b
              s
              endpoints
            ≡ ok (b', map some (turned (cursor_of b s % sum_of_weights endpoints) order)))
          × ((t : String) → s ≢ t → cursor_of b' t ≡ cursor_of b t))
      × ((e : Endpoint) (w : ℕ) → e.weight ≡ some (integer w) → 0 < w → get_weight e ≡ w)
      × ((e : Endpoint) → e.weight ≡ none → get_weight e ≡ 1)
unfolding get_weight
weighted_round_robin_fair b s endpoints h = (
  expand_weighted_endpoints endpoints,
  expand-InRows endpoints,
  rw (sym (length-expand endpoints))
      (turns_round weighted_round_robin b s endpoints h (expand-ne-nil endpoints h)),
  λ e w whole positive. ground arith,
  λ e without. ground arith,
)
