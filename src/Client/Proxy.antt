-- ===== src/Client/Proxy.antt =====
-- packages/core/src/client/proxy.ts. A JavaScript Proxy is the function of its `get` trap.
use weisley_rpc_framework.Prelude.{String, Option, none, some, List}

pub data PropertyKey : Type 0 where
  string_key : String → PropertyKey
  symbol_key : PropertyKey

-- The value of a property of a service's proxy, which is a function of the arguments or undefined.
-- `call` stands for the client's `call` with its state.
unfoldable pub create_proxy :
    {Value Called : Type 0}
    → (String → String → List Value → Called)
    → String
    → PropertyKey
    → Option (List Value → Called)
create_proxy call service_name symbol_key = none
create_proxy call service_name (string_key property) = some (call service_name property)
