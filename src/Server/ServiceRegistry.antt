-- ===== src/Server/ServiceRegistry.antt =====
-- server/service-registry.ts. An implementation is the map from a property's name to what
-- JavaScript finds there, its prototypes included: a function, another value, or nothing.
use weisley_rpc_framework.Prelude.{
  ◌≡◌, Option, none, some, List, String, Outcome, ok, throws, if◌then◌else◌, arith, str_eq,
}
use weisley_rpc_framework.Prelude.Dict
use weisley_rpc_framework.Prelude.Dict.{Dict, dict_laws}
use weisley_rpc_framework.Errors.{Thrown, service_not_found, method_not_found}

-- A function of the service, with what it returns or throws, or its promise does.
abbrev pub Method : Type 0 → Type 0
Method Value = List Value → Outcome Thrown Value

pub data Property (Value : Type 0) : Type 0 where
  function : Method Value → Property Value
  not_function : Property Value

abbrev pub ServiceImplementation : Type 0 → Type 0
ServiceImplementation Value = String → Option (Property Value)

pub record ServiceRegistry (Value : Type 0) : Type 0 where
  pub services : Dict (ServiceImplementation Value)

module _ {Value : Type 0} where
  unfoldable pub register :
      ServiceRegistry Value → String → ServiceImplementation Value → ServiceRegistry Value
  register r service_name implementation = record {
    services = Dict.set r.services service_name implementation;
  }

  -- `typeof method !== "function"`, also of a property that is not there.
  unfoldable pub as_method :
      Option (Property Value) → String → String → Outcome Thrown (Method Value)
  as_method (some (function f)) service_name method_name = ok f
  as_method (some not_function) service_name method_name =
      throws (method_not_found service_name method_name)
  as_method none service_name method_name = throws (method_not_found service_name method_name)

  unfoldable pub method_of :
      Option (ServiceImplementation Value) → String → String → Outcome Thrown (Method Value)
  unfolding as_method
  method_of none service_name method_name = throws (service_not_found service_name)
  method_of (some service) service_name method_name =
      as_method (service method_name) service_name method_name

  unfoldable pub get_method :
      ServiceRegistry Value → String → String → Outcome Thrown (Method Value)
  unfolding method_of
  get_method r service_name method_name =
      method_of (Dict.get r.services service_name) service_name method_name

  -- Registering a service makes its own methods those of the new implementation, whatever was
  -- registered under its name before, and changes the methods of no other service.
  pub get_method-register :
      (r : ServiceRegistry Value) (s : String) (implementation : ServiceImplementation Value)
      (service_name method_name : String)
      → get_method (register r s implementation) service_name method_name ≡ (
          if str_eq s service_name
          then as_method (implementation method_name) service_name method_name
          else get_method r service_name method_name)
  unfolding register get_method method_of
  get_method-register r s implementation service_name method_name = simp dict_laws (ground arith)
