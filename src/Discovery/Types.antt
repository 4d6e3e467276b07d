-- ===== src/Discovery/Types.antt =====
-- discovery/types.ts and static-registry.ts.
use weisley_rpc_framework.Prelude.{ℕ, String, Option, List, [], ◌or_else◌}
use weisley_rpc_framework.Prelude.Dict
use weisley_rpc_framework.Prelude.Dict.{Dict}
use weisley_rpc_framework.Prelude.Number.{Number}
use weisley_rpc_framework.Prelude.Text.{◌<>◌}
use weisley_rpc_framework.Errors.{Thrown, rpc_error}

pub record Endpoint : Type 0 where
  pub host : String
  pub port : ℕ
  pub weight : Option Number

-- `StaticRegistry.lookup`, for service names that are no properties of `Object.prototype`.
unfoldable pub lookup : Dict (List Endpoint) → String → List Endpoint
lookup services service_name = Dict.get services service_name or_else []

abbrev pub no_endpoint : String → Thrown
no_endpoint service_name =
    rpc_error ("No endpoints available for service: " <> service_name) "NO_ENDPOINT_AVAILABLE"
