-- ===== src/Server/MethodInvoker.antt =====
-- server/method-invoker.ts: the answer to a request.
use weisley_rpc_framework.Prelude.{
  ◌≡◌, refl, true, false, Option, none, some, String, Outcome, ok, throws, ◌>>=◌, if◌then◌else◌,
  str_eq, ◌≢◌, ◌↔◌, inl, inr, Option-cases,
}
use weisley_rpc_framework.Prelude.Text.{◌<>◌}
use weisley_rpc_framework.Errors.{
  Thrown, rpc_error, error, other, service_not_found, method_not_found,
}
use weisley_rpc_framework.Protocol.Types.{RpcRequest, RpcResponse, ResponseError}
use weisley_rpc_framework.Server.ServiceRegistry.{
  Method, ServiceImplementation, Property, function, not_function, ServiceRegistry, get_method,
  method_of, as_method,
}
use weisley_rpc_framework.Prelude.Dict

-- `if (error.stack)`: an empty stack is left out.
abbrev pub nonempty : Option String → Option String
nonempty none = none
nonempty (some text) = if str_eq text "" then none else some text

unfoldable pub to_rpc_error : Thrown → ResponseError
to_rpc_error (rpc_error message code) = record { code = code; message = message; stack = none }
to_rpc_error (error message code stack) = record {
  code = "INTERNAL_ERROR";
  message = message;
  stack = nonempty stack;
}
to_rpc_error (other text code) = record { code = "INTERNAL_ERROR"; message = text; stack = none }

module _ {Value : Type 0} where
  -- The `return` of the `try` block, and that of the `catch` block.
  unfoldable pub respond : RpcRequest Value → Outcome Thrown Value → RpcResponse Value
  unfolding to_rpc_error
  respond request (ok result) = record {
    id = request.id;
    is_ok = true;
    result = some result;
    error = none;
    metadata = request.metadata;
  }
  respond request (throws thrown) = record {
    id = request.id;
    is_ok = false;
    result = none;
    error = some (to_rpc_error thrown);
    metadata = request.metadata;
  }

  unfoldable pub invoke : ServiceRegistry Value → RpcRequest Value → RpcResponse Value
  unfolding respond
  invoke registry request =
      respond request
        (do method ← get_method registry request.service request.method; method request.params)

  -- The result or the error of an answer, by what is registered and by what the method does.
  pub data Answers (registry : ServiceRegistry Value) (request : RpcRequest Value)
      : Option Value → Option ResponseError → Type 0 where
    no_service :
        Dict.get registry.services request.service ≡ none
        → Answers registry request none (
            some (record {
              code = "SERVICE_NOT_FOUND";
              message = "Service not found: " <> request.service;
              stack = none;
            }))
    no_method :
        (service : ServiceImplementation Value)
        → Dict.get registry.services request.service ≡ some service
        → ((f : Method Value) → service request.method ≢ some (function f))
        → Answers registry request none (
            some (record {
              code = "METHOD_NOT_FOUND";
              message = "Method not found: " <> request.service <> "." <> request.method;
              stack = none;
            }))
    returned :
        (service : ServiceImplementation Value) (f : Method Value) (result : Value)
        → Dict.get registry.services request.service ≡ some service
        → service request.method ≡ some (function f)
        → f request.params ≡ ok result
        → Answers registry request (some result) none
    threw :
        (service : ServiceImplementation Value) (f : Method Value) (thrown : Thrown)
        → Dict.get registry.services request.service ≡ some service
        → service request.method ≡ some (function f)
        → f request.params ≡ throws thrown
        → Answers registry request none (some (to_rpc_error thrown))

  -- What an answer is, whatever it carries.
  pub record IsAnswer (registry : ServiceRegistry Value) (request : RpcRequest Value)
      (response : RpcResponse Value) : Type 0 where
    pub same_id : response.id ≡ request.id
    pub same_metadata : response.metadata ≡ request.metadata
    pub is_ok_iff : (response.is_ok ≡ true) ↔ (response.error ≡ none)
    pub answers : Answers registry request response.result response.error

  respond-IsAnswer :
      (registry : ServiceRegistry Value) (request : RpcRequest Value) (m : Outcome Thrown Value)
      → Answers registry request (respond request m).result (respond request m).error
      → IsAnswer registry request (respond request m)
  unfolding respond
  respond-IsAnswer registry request (ok result) a = record {
    same_id = refl;
    same_metadata = refl;
    is_ok_iff = (λ _. refl, λ _. refl);
    answers = a;
  }
  respond-IsAnswer registry request (throws thrown) a = record {
    same_id = refl;
    same_metadata = refl;
    is_ok_iff = (λ h. cc, λ h. cc);
    answers = a;
  }

  ran-Answers :
      (registry : ServiceRegistry Value) (request : RpcRequest Value)
      (service : ServiceImplementation Value) (f : Method Value) (m : Outcome Thrown Value)
      → Dict.get registry.services request.service ≡ some service
      → service request.method ≡ some (function f)
      → f request.params ≡ m
      → Answers registry request (respond request m).result (respond request m).error
  unfolding respond
  ran-Answers registry request service f (ok result) there found r =
      returned service f result there found r
  ran-Answers registry request service f (throws thrown) there found r =
      threw service f thrown there found r

  -- What `invoke` makes of the property that the service has under the method's name.
  called : RpcRequest Value → Option (Property Value) → Outcome Thrown Value
  called request p = do method ← as_method p request.service request.method; method request.params

  called-Answers :
      (registry : ServiceRegistry Value) (request : RpcRequest Value)
      (service : ServiceImplementation Value) (p : Option (Property Value))
      → Dict.get registry.services request.service ≡ some service
      → service request.method ≡ p
      → Answers registry request
          (respond request (called request p)).result
          (respond request (called request p)).error
  unfolding called as_method respond to_rpc_error method_not_found
  called-Answers registry request service (some (function f)) there found =
      ran-Answers registry request service f (f request.params) there found refl
  called-Answers registry request service (some not_function) there found =
      no_method service there (λ f h. cc)
  called-Answers registry request service none there found = no_method service there (λ f h. cc)

  unregistered :
      (registry : ServiceRegistry Value) (request : RpcRequest Value)
      → Dict.get registry.services request.service ≡ none
      → IsAnswer registry request (respond request (throws (service_not_found request.service)))
  unfolding respond to_rpc_error service_not_found
  unregistered registry request e =
      respond-IsAnswer registry request (throws (service_not_found request.service)) (no_service e)

  -- `invoke` answers every request, with its id and metadata, as the registry's method for it
  -- says: with the result that it returns, or an error for a missing service or method or for
  -- what the method throws.
  pub invoke_lem :
      (registry : ServiceRegistry Value) (request : RpcRequest Value)
      → IsAnswer registry request (invoke registry request)
  unfolding invoke get_method method_of called
  invoke_lem registry request =
      let found = Option-cases (Dict.get registry.services request.service) in
      elim found [
        | inl e ↦ rw e (unregistered registry request e)
        | inr (service, e) ↦ rw e (
            respond-IsAnswer registry request (called request (service request.method))
              (called-Answers registry request service (service request.method) e refl))
      ]
