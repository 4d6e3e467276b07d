-- ===== src/Client/Connection/Requests.antt =====
-- client/connection.ts: send, its timer, the answers that come in, and rejectAll.
use weisley_rpc_framework.Prelude.{
  ℕ, ◌+◌, Bool, true, false, Option, none, some, String, List, [], ◌∷◌, ◌++◌, ◌==◌, if◌then◌else◌,
  Outcome, ok, throws,
}
use weisley_rpc_framework.Prelude.Dict
use weisley_rpc_framework.Prelude.Dict.{Dict}
use weisley_rpc_framework.Errors.{Thrown, rpc_error, new_rpc_error, rpc_timeout}
use weisley_rpc_framework.Protocol.Types.{
  Buffer, RpcMessage, request, response, ping, pong, RpcResponse, ResponseError,
}
use weisley_rpc_framework.Protocol.Codec
use weisley_rpc_framework.Client.ConnectionPool.{ConnectionState, connected}
use weisley_rpc_framework.Client.Connection.State.{PendingRequest, wrote, RpcConnection}

-- The id that the callback of a running timer holds.
unfoldable pub timer_id : List (ℕ × String) → ℕ → Option String
timer_id [] n = none
timer_id ((t, id) ∷ ts) n = if t == n then some id else timer_id ts n

unfoldable pub clear_timer : ℕ → List (ℕ × String) → List (ℕ × String)
clear_timer n [] = []
clear_timer n ((t, id) ∷ ts) =
    let rest = clear_timer n ts in if t == n then rest else (t, id) ∷ rest

abbrev pub is_connected : ConnectionState → Bool
is_connected connected = true
is_connected _ = false

-- `new RpcError(message.error?.message ?? "RPC call failed", message.error?.code)`
unfoldable pub call_error : Option ResponseError → Thrown
call_error none = new_rpc_error "RPC call failed" none
call_error (some e) = new_rpc_error e.message (some e.code)

module _ {Value : Type 0} where
  -- What a response settles its request's promise with.
  unfoldable pub answer_of : RpcResponse Value → Outcome Thrown (Option Value)
  unfolding call_error
  answer_of r = if r.is_ok then ok r.result else throws (call_error r.error)

  -- A request leaves `pending`: its timer is cleared and its promise settled.
  unfoldable pub settle :
      String
      → PendingRequest
      → Outcome Thrown (Option Value)
      → RpcConnection Value
      → RpcConnection Value
  unfolding clear_timer
  settle id p outcome c = record c {
    timers = clear_timer p.timer c.timers;
    pending = Dict.delete c.pending id;
    settled = c.settled ++ (p.promise, outcome) ∷ [];
  }

  -- `this.pending.set`, behind `setTimeout`, and the write to a socket.
  unfoldable pub start_request : ℕ → String → Buffer → RpcConnection Value → RpcConnection Value
  start_request socket id payload c = record c {
    calls = c.calls + 1;
    timers = (c.calls, id) ∷ c.timers;
    pending = Dict.set c.pending id (record { promise = c.calls; timer = c.calls });
    effects = c.effects ++ wrote socket payload ∷ [];
  }

  -- `send` on what `this.socket` is. `is_destroyed` tells which sockets are destroyed.
  unfoldable pub send_on :
      Option ℕ
      → (ℕ → Bool)
      → String
      → Buffer
      → RpcConnection Value
      → RpcConnection Value × Outcome Thrown ℕ
  unfolding start_request
  send_on none is_destroyed id payload c =
      (c, throws (rpc_error "Connection is not open" "CONNECTION_NOT_OPEN"))
  send_on (some socket) is_destroyed id payload c =
      if is_destroyed socket
      then (c, throws (rpc_error "Connection is not open" "CONNECTION_NOT_OPEN"))
      else if is_connected c.state
      then (start_request socket id payload c, ok c.calls)
      else (c, throws (rpc_error "Connection is not connected" "CONNECTION_NOT_CONNECTED"))

  -- The connection afterwards, and the promise, or what it is rejected with at once.
  unfoldable pub send :
      (ℕ → Bool) → String → Buffer → RpcConnection Value → RpcConnection Value × Outcome Thrown ℕ
  unfolding send_on
  send is_destroyed id payload c = send_on c.socket is_destroyed id payload c

  -- The timer of a call fires, if it still runs.
  unfoldable pub request_times_out : ℕ → RpcConnection Value → RpcConnection Value
  unfolding settle
  request_times_out n c = elim (timer_id c.timers n) [
    | none ↦ c
    | some id ↦
        settle id (record { promise = n; timer = n }) (throws (rpc_timeout c.options.timeout_ms)) c
  ]

  -- The loop of `rejectAll` over the entries of `pending`.
  unfoldable pub reject_each :
      Thrown → Dict PendingRequest → RpcConnection Value → RpcConnection Value
  unfolding settle
  reject_each e [] c = c
  reject_each e ((id, p) ∷ entries) c = reject_each e entries (settle id p (throws e) c)

  unfoldable pub reject_all : Thrown → RpcConnection Value → RpcConnection Value
  unfolding reject_each
  reject_all e c = reject_each e c.pending c

  unfoldable pub handle_response : RpcResponse Value → RpcConnection Value → RpcConnection Value
  unfolding settle answer_of
  handle_response r c = elim (Dict.get c.pending r.id) [
    | none ↦ c
    | some p ↦ settle r.id p (answer_of r) c
  ]

  -- The body of the loop in `handleData`.
  unfoldable pub handle_message : ℕ → RpcMessage Value → RpcConnection Value → RpcConnection Value
  unfolding handle_response
  handle_message now (response r) c = handle_response r c
  handle_message now (pong m) c = record c { last_pong_at = now }
  handle_message now (request m) c = c
  handle_message now (ping m) c = c

  unfoldable pub handle_messages :
      ℕ → List (RpcMessage Value) → RpcConnection Value → RpcConnection Value
  unfolding handle_message
  handle_messages now [] c = c
  handle_messages now (m ∷ ms) c = handle_messages now ms (handle_message now m c)

  -- `handleData`. Where the codec throws, so does the listener, and no message is handled; `none`
  -- would be a codec out of fuel, which never comes.
  unfoldable pub handle_data : (ℕ → Buffer) → ℕ → Buffer → RpcConnection Value → RpcConnection Value
  unfolding handle_messages
  handle_data alloc_unsafe now chunk c = elim (Codec.push alloc_unsafe c.codec chunk) [
    | none ↦ c
    | some (codec, throws e) ↦ record c { codec = codec }
    | some (codec, ok messages) ↦ handle_messages now messages (record c { codec = codec })
  ]
