-- ===== src/Server/RpcServer/Tests.antt =====
-- The theorems of the server's drains at concrete inputs.
use weisley_rpc_framework.Prelude.{◌≡◌, refl, true, false, [], ◌∷◌}
use weisley_rpc_framework.Server.RpcServer.{RpcServer, draining, resolver_of, drain_times_out}
use weisley_rpc_framework.Server.RpcServer.Drains.{has, waits, drain_times_out_keeps}

abbrev waiting : RpcServer
waiting = record {
  has_server = false;
  state = draining;
  active_requests = 1;
  drain_resolvers = resolver_of 0 ∷ [];
  drains = 1;
  resolved = [];
}

drain_times_out_keeps_example :
    (waits (drain_times_out 0 waiting).drain_resolvers 1 ≡ waits (resolver_of 0 ∷ []) 1)
    × (waits (drain_times_out 0 waiting).drain_resolvers 0 ≡ true)
    × (has (drain_times_out 0 waiting).resolved 0 ≡ true)
unfolding waits
drain_times_out_keeps_example = drain_times_out_keeps 0 1 waiting refl
