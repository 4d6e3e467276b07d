-- ===== src/Discovery/RoundRobin.antt =====
-- discovery/round-robin-load-balancer.ts. A selection is `undefined` (`none`) where the index is
-- out of range.
use weisley_rpc_framework.Prelude.{
  ℕ, suc, ◌+◌, ◌%◌, ◌≡◌, ◌≢◌, refl, Option, some, String, List, [], ◌∷◌, map, length, get_elem?,
  ◌==◌, Outcome, ok, ◌>>◌, throw_if, ◌or_else◌, if◌then◌else◌, false, arith, str_eq,
}
use weisley_rpc_framework.Prelude.Dict
use weisley_rpc_framework.Prelude.Dict.{Dict, dict_laws}
use weisley_rpc_framework.Errors.{Thrown}
use weisley_rpc_framework.Discovery.Cycle.{turned}
use weisley_rpc_framework.Discovery.Turns.{CursorBalancer, turns, turns_round}
use weisley_rpc_framework.Discovery.Types.{Endpoint, no_endpoint}

-- The cursor of each service.
pub record RoundRobinLoadBalancer : Type 0 where
  pub cursors : Dict ℕ

abbrev pub cursor_of : RoundRobinLoadBalancer → String → ℕ
cursor_of b service_name = Dict.get b.cursors service_name or_else 0

unfoldable pub select :
    RoundRobinLoadBalancer
    → String
    → List Endpoint
    → Outcome Thrown (RoundRobinLoadBalancer × Option Endpoint)
select b service_name endpoints = do
  throw_if (length endpoints == 0) (no_endpoint service_name)
  let cursor = cursor_of b service_name
  ok (
    record { cursors = Dict.set b.cursors service_name (cursor + 1) },
    get_elem? endpoints (cursor % length endpoints),
  )

pub set_cursor : RoundRobinLoadBalancer → String → ℕ → RoundRobinLoadBalancer
set_cursor b service_name cursor = record { cursors = Dict.set b.cursors service_name cursor }

pub cursor_of-set_cursor :
    (b : RoundRobinLoadBalancer) (s t : String) (c : ℕ)
    → cursor_of (set_cursor b s c) t ≡ (if str_eq s t then c else cursor_of b t)
unfolding set_cursor
cursor_of-set_cursor b s t c = simp dict_laws (ground arith)

pub select_lem :
    (b : RoundRobinLoadBalancer) (s : String) (endpoints : List Endpoint)
    → endpoints ≢ []
    → select b s endpoints
      ≡ ok (
        set_cursor b s (cursor_of b s + 1),
        get_elem? (endpoints) (cursor_of b s % length (endpoints)),
      )
unfolding select set_cursor
select_lem b s [] h = absurd (h refl)
select_lem b s (e ∷ es) h =
    let some_there : (suc (length es) == 0) ≡ false = ground arith in rw some_there

abbrev pub round_robin : CursorBalancer
round_robin = record {
  Balancer = RoundRobinLoadBalancer;
  select = select;
  cursor_of = cursor_of;
  pool = λ endpoints. endpoints;
  after = λ b s. set_cursor b s (cursor_of b s + 1);
  selects = select_lem;
  advances = λ b s t. cursor_of-set_cursor b s t (cursor_of b s + 1);
}

-- In as many calls of `select` for a service as there are endpoints, each endpoint is selected once,
-- in order from the service's cursor on; no other service's cursor moves.
pub round_robin_fair :
    (b : RoundRobinLoadBalancer) (s : String) (endpoints : List Endpoint)
    → endpoints ≢ []
    → let n = length endpoints in
      (b' : RoundRobinLoadBalancer) × (turns round_robin n b s endpoints
        ≡ ok (b', map some (turned (cursor_of b s % n) endpoints)))
      × ((t : String) → s ≢ t → cursor_of b' t ≡ cursor_of b t)
round_robin_fair b s endpoints h = turns_round round_robin b s endpoints h h
