-- ===== src/Server/Tests.antt =====
-- The theorems of the server at concrete inputs, and requests that it answers.
use weisley_rpc_framework.Prelude.{
  ℕ, ◌≡◌, refl, none, some, [], ◌∷◌, List, ok, throws, str_eq, if◌then◌else◌,
}
use weisley_rpc_framework.Prelude.Dict
use weisley_rpc_framework.Errors.{error}
use weisley_rpc_framework.Protocol.Types.{RpcRequest}
use weisley_rpc_framework.Server.ServiceRegistry.{
  Method, function, ServiceImplementation, ServiceRegistry, get_method,
}
use weisley_rpc_framework.Server.MethodInvoker.{invoke, IsAnswer, invoke_lem}

abbrev first_of : Method ℕ
first_of [] = throws (error "empty" none none)
first_of (n ∷ ns) = ok n

abbrev numbers : ServiceImplementation ℕ
numbers name = if str_eq name "first" then some (function first_of) else none

abbrev registry : ServiceRegistry ℕ
registry = record { services = ("Numbers", numbers) ∷ [] }

abbrev ask_first : List ℕ → RpcRequest ℕ
ask_first params = record {
  id = "1";
  service = "Numbers";
  method = "first";
  params = params;
  metadata = none;
}

first_is_seven : (invoke registry (ask_first (7 ∷ 8 ∷ []))).result ≡ some 7
unfolding invoke get_method Dict.get
first_is_seven = refl

invoke_lem_example : IsAnswer registry (ask_first []) (invoke registry (ask_first []))
invoke_lem_example = invoke_lem registry (ask_first [])
