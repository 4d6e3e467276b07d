-- ===== src/Server/RpcServer.antt =====
-- server/rpc-server.ts: the count of the active requests and the drains that wait for it. What the
-- event loop runs between two awaits is one function. Sockets and the net server are left out.
pub mod Drains
pub mod Tests
use weisley_rpc_framework.Prelude.{
  ℕ, ◌+◌, ◌-◌, Bool, true, false, not, Option, none, some, List, [], ◌∷◌, ◌++◌, if◌then◌else◌, ◌==◌,
}
use weisley_rpc_framework.Protocol.Types.{RpcRequest, RpcResponse}

pub data RpcServerState : Type 0 where
  idle listening draining closed_state : RpcServerState

-- The functions that can stand in `drainResolvers`, for the n-th drain: the `resolve` of its
-- promise, and the `resolver` that also clears its timer.
pub data Callback : Type 0 where
  resolve_of resolver_of : ℕ → Callback

-- `drains` counts the calls of waitForActiveRequests and `resolved` lists the promises of theirs
-- that are resolved.
pub record RpcServer : Type 0 where
  pub has_server : Bool
  pub state : RpcServerState
  pub active_requests : ℕ
  pub drain_resolvers : List Callback
  pub drains : ℕ
  pub resolved : List ℕ

abbrev pub new_server : RpcServer
new_server = record {
  has_server = false;
  state = idle;
  active_requests = 0;
  drain_resolvers = [];
  drains = 0;
  resolved = [];
}

abbrev pub same_callback : Callback → Callback → Bool
same_callback (resolve_of n) (resolve_of m) = n == m
same_callback (resolver_of n) (resolver_of m) = n == m
same_callback _ _ = false

abbrev pub drain_of : Callback → ℕ
drain_of (resolve_of n) = n
drain_of (resolver_of n) = n

unfoldable pub call_all : List Callback → List ℕ → List ℕ
call_all [] resolved = resolved
call_all (c ∷ cs) resolved = call_all cs (resolved ++ drain_of c ∷ [])

unfoldable pub without : Callback → List Callback → List Callback
without callback [] = []
without callback (c ∷ cs) =
    let rest = without callback cs in if same_callback c callback then rest else c ∷ rest

unfoldable pub remove_drain_resolver : Callback → RpcServer → RpcServer
unfolding without
remove_drain_resolver callback s = record s { drain_resolvers = without callback s.drain_resolvers }

unfoldable pub resolve_drain_if_idle : RpcServer → RpcServer
unfolding call_all
resolve_drain_if_idle s =
    if not (s.active_requests == 0)
    then s
    else record s { drain_resolvers = []; resolved = call_all s.drain_resolvers s.resolved }

unfoldable pub wait_for_active_requests : RpcServer → RpcServer
wait_for_active_requests s =
    if s.active_requests == 0
    then record s { drains = s.drains + 1; resolved = s.resolved ++ s.drains ∷ [] }
    else record s {
      drains = s.drains + 1;
      drain_resolvers = s.drain_resolvers ++ resolver_of s.drains ∷ [];
    }

-- The timer of the n-th drain.
unfoldable pub drain_times_out : ℕ → RpcServer → RpcServer
unfolding remove_drain_resolver
drain_times_out n s =
    let s1 = remove_drain_resolver (resolve_of n) s in
    record s1 { resolved = s1.resolved ++ n ∷ [] }

unfoldable pub listen : RpcServer → RpcServer
listen s = record s { has_server = true; state = listening }

-- `close` up to its first `await`.
unfoldable pub close : Bool → RpcServer → RpcServer
unfolding wait_for_active_requests
close graceful s =
    if not s.has_server
    then s
    else if graceful
    then wait_for_active_requests (record s { has_server = false; state = draining })
    else record s { has_server = false; state = closed_state }

-- `close` after a graceful drain.
unfoldable pub drained : RpcServer → RpcServer
drained s = record s { state = closed_state }

module _ {Value : Type 0} where
  unfoldable pub draining_response : RpcRequest Value → RpcResponse Value
  draining_response request = record {
    id = request.id;
    is_ok = false;
    result = none;
    error =
        some
          (record { code = "SERVER_DRAINING"; message = "RPC server is draining"; stack = none });
    metadata = request.metadata;
  }

abbrev pub is_draining : RpcServerState → Bool
is_draining draining = true
is_draining _ = false

-- A request arrives: the server afterwards, and whether it is invoked or refused.
unfoldable pub begin_request : RpcServer → RpcServer × Bool
begin_request s =
    if is_draining s.state
    then (s, false)
    else (record s { active_requests = s.active_requests + 1 }, true)

-- The `finally` block of a request that was invoked.
unfoldable pub end_request : RpcServer → RpcServer
unfolding resolve_drain_if_idle
end_request s = resolve_drain_if_idle (record s { active_requests = s.active_requests - 1 })
