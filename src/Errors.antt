-- ===== src/Errors.antt =====
-- packages/core/src/errors.ts: what the runtime's code throws.
use weisley_rpc_framework.Prelude.{ℕ, String, Bool, true, false, Option, none, some}
use weisley_rpc_framework.Prelude.Text.{◌<>◌, decimal}

-- A thrown value: an `RpcError`, another `Error` with the `code` that Node gives some of them, or
-- any other value, by its text and its `code` property if it is an object that has one.
pub data Thrown : Type 0 where
  rpc_error : (message code : String) → Thrown
  error : (message : String) → (code stack : Option String) → Thrown
  other : (text : String) → (code : Option String) → Thrown

-- `new RpcError(message, code)`, with its default code.
unfoldable pub new_rpc_error : String → Option String → Thrown
new_rpc_error message none = rpc_error message "RPC_ERROR"
new_rpc_error message (some code) = rpc_error message code

unfoldable pub service_not_found : String → Thrown
service_not_found service = rpc_error ("Service not found: " <> service) "SERVICE_NOT_FOUND"

unfoldable pub method_not_found : String → String → Thrown
method_not_found service method =
    rpc_error ("Method not found: " <> service <> "." <> method) "METHOD_NOT_FOUND"

unfoldable pub rpc_timeout : ℕ → Thrown
rpc_timeout timeout_ms =
    rpc_error ("RPC request timed out after " <> decimal timeout_ms <> "ms") "RPC_TIMEOUT"

-- `error instanceof Error`
abbrev pub is_error : Thrown → Bool
is_error (rpc_error m c) = true
is_error (error m c s) = true
is_error (other t c) = false

-- `getErrorCode` of rpc-client.ts: the `code` property as text, if there is one.
abbrev pub get_error_code : Thrown → Option String
get_error_code (rpc_error m c) = some c
get_error_code (error m c s) = c
get_error_code (other t c) = c
