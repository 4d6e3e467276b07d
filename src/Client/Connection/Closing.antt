-- ===== src/Client/Connection/Closing.antt =====
-- What happens to a connection of client/connection.ts that is closed: it stays as it is, step by step.
use weisley_rpc_framework.Prelude.{
  ℕ, ◌≡◌, refl, sym, ap, subst, ◌∙◌, Bool, true, false, Option, none, some, String, List, [], ◌∷◌,
  ok, throws, arith, Bool-cases, Option-cases, inl, inr,
}
use weisley_rpc_framework.Prelude.Dict
use weisley_rpc_framework.Errors.{Thrown, rpc_error}
use weisley_rpc_framework.Protocol.Types.{Buffer, RpcMessage, request, response, ping, pong}
use weisley_rpc_framework.Protocol.Codec
use weisley_rpc_framework.Client.ConnectionPool.{closed_state}
use weisley_rpc_framework.Client.Connection.State.{PendingRequest, RpcConnection}
use weisley_rpc_framework.Client.Connection.Requests.{
  timer_id, settle, send_on, request_times_out, reject_each, reject_all, handle_response,
  handle_message, handle_messages, handle_data, is_connected,
}
use weisley_rpc_framework.Client.Connection.Lifecycle.{
  stop_heartbeat, handle_unexpected_disconnect, reconnect_unless_closed, on_connect, fail_attempt,
  reconnect_fires, send_ping, beat_on, destroy, same_socket, pong_overdue,
}

-- The two connections are at the same point of their life.
abbrev pub SameLife : {Value : Type 0} → RpcConnection Value → RpcConnection Value → Type 0
SameLife c d =
    (c.state ≡ d.state)
    × (c.manually_closed ≡ d.manually_closed)
    × (c.connection_promise ≡ d.connection_promise)
    × (c.reconnect_timer ≡ d.reconnect_timer)

-- Closed, with no attempt to connect and no request under way.
pub record IsClosed {Value : Type 0} (c : RpcConnection Value) : Type 0 where
  pub state_closed : c.state ≡ closed_state
  pub by_hand : c.manually_closed ≡ true
  pub no_attempt : c.connection_promise ≡ none
  pub no_timer : c.reconnect_timer ≡ none
  pub no_request : c.pending ≡ []

module _ {Value : Type 0} where
  IsClosed-SameLife :
      (c d : RpcConnection Value) → SameLife c d → c.pending ≡ [] → IsClosed d → IsClosed c
  IsClosed-SameLife c d (a, b, e, f) g v = record {
    state_closed = a ∙ v.state_closed;
    by_hand = b ∙ v.by_hand;
    no_attempt = e ∙ v.no_attempt;
    no_timer = f ∙ v.no_timer;
    no_request = g;
  }

  pub reject_each-SameLife :
      (e : Thrown) (entries : Dict.Dict PendingRequest) (c : RpcConnection Value)
      → SameLife (reject_each e entries c) c
  unfolding reject_each settle
  reject_each-SameLife e [] c = (refl, refl, refl, refl)
  reject_each-SameLife e ((id, p) ∷ m) c = reject_each-SameLife e m (settle id p (throws e) c)

  pub reject_all_none : (e : Thrown) (c : RpcConnection Value) → c.pending ≡ [] → reject_all e c ≡ c
  unfolding reject_all reject_each
  reject_all_none e c h = ap (λ m. reject_each e m c) h

  pub stop_heartbeat-SameLife :
      (c : RpcConnection Value)
      → SameLife (stop_heartbeat c) c × ((stop_heartbeat c).pending ≡ c.pending)
  unfolding stop_heartbeat
  stop_heartbeat-SameLife c = ground arith

  stop_heartbeat-IsClosed : (c : RpcConnection Value) → IsClosed c → IsClosed (stop_heartbeat c)
  stop_heartbeat-IsClosed c v =
      let (same, pending) = stop_heartbeat-SameLife c in
      IsClosed-SameLife (stop_heartbeat c) c same (pending ∙ v.no_request) v

  reconnect_unless_closed_lem :
      (c : RpcConnection Value) → c.manually_closed ≡ true → reconnect_unless_closed c ≡ c
  unfolding reconnect_unless_closed
  reconnect_unless_closed_lem c h = rw (h, reconnect_unless_closed) refl

  pub handle_unexpected_disconnect-IsClosed :
      (e : Thrown) (c : RpcConnection Value)
      → IsClosed c
      → IsClosed (handle_unexpected_disconnect e c)
  unfolding handle_unexpected_disconnect
  handle_unexpected_disconnect-IsClosed e c v =
      let w = stop_heartbeat-IsClosed c v in
      let c1 = stop_heartbeat c in
      let same : handle_unexpected_disconnect e c ≡ c1 =
        ap reconnect_unless_closed (reject_all_none e c1 w.no_request)
        ∙ reconnect_unless_closed_lem c1 w.by_hand in
      subst IsClosed (sym same) w

  handle_message-IsClosed :
      (now : ℕ) (m : RpcMessage Value) (c : RpcConnection Value)
      → IsClosed c
      → IsClosed (handle_message now m c)
  unfolding handle_message handle_response Dict.get
  handle_message-IsClosed now (request m) c v = v
  handle_message-IsClosed now (ping m) c v = v
  handle_message-IsClosed now (pong m) c v =
      IsClosed-SameLife (record c { last_pong_at = now }) c (refl, refl, refl, refl) v.no_request v
  handle_message-IsClosed now (response r) c v =
      let absent : Dict.get c.pending r.id ≡ none = ap (λ m. Dict.get m r.id) v.no_request in
      rw (absent, handle_response) v

  handle_messages-IsClosed :
      (now : ℕ) (ms : List (RpcMessage Value)) (c : RpcConnection Value)
      → IsClosed c
      → IsClosed (handle_messages now ms c)
  unfolding handle_messages
  handle_messages-IsClosed now [] c v = v
  handle_messages-IsClosed now (m ∷ ms) c v =
      handle_messages-IsClosed now ms (handle_message now m c) (handle_message-IsClosed now m c v)

  pub send_closed :
      (socket : Option ℕ) (is_destroyed : ℕ → Bool) (id : String) (payload : Buffer)
      (c : RpcConnection Value)
      → c.state ≡ closed_state
      → (e : Thrown) × (send_on socket is_destroyed id payload c ≡ (c, throws e))
  unfolding send_on
  send_closed none is_destroyed id payload c h =
      (rpc_error "Connection is not open" "CONNECTION_NOT_OPEN", refl)
  send_closed (some socket) is_destroyed id payload c h =
      let off : is_connected c.state ≡ false = ap is_connected h in
      elim (Bool-cases (is_destroyed socket)) [
        | inl t ↦ (rpc_error "Connection is not open" "CONNECTION_NOT_OPEN", rw (t, send_on) refl)
        | inr f ↦ (
          rpc_error "Connection is not connected" "CONNECTION_NOT_CONNECTED",
          rw (f, send_on) (rw off refl),
        )
      ]

  pub request_times_out-IsClosed :
      (n : ℕ) (c : RpcConnection Value) → IsClosed c → IsClosed (request_times_out n c)
  unfolding request_times_out settle Dict.delete
  request_times_out-IsClosed n c v = elim (Option-cases (timer_id c.timers n)) [
    | inl e ↦ rw (e, request_times_out) v
    | inr (id, e) ↦
        rw (e, request_times_out)
          (record {
            state_closed = v.state_closed;
            by_hand = v.by_hand;
            no_attempt = v.no_attempt;
            no_timer = v.no_timer;
            no_request = ap (λ m. Dict.delete m id) v.no_request;
          })
  ]

  pub on_connect-IsClosed :
      (now socket : ℕ) (c : RpcConnection Value) → IsClosed c → on_connect now socket c ≡ c
  unfolding on_connect
  on_connect-IsClosed now socket c v =
      let other : same_socket c.connection_promise socket ≡ false =
        ap (λ p. same_socket p socket) v.no_attempt in
      rw (other, on_connect) refl

  pub fail_attempt-IsClosed :
      (socket : ℕ) (e : Thrown) (c : RpcConnection Value) → IsClosed c → fail_attempt socket e c ≡ c
  unfolding fail_attempt
  fail_attempt-IsClosed socket e c v =
      let other : same_socket c.connection_promise socket ≡ false =
        ap (λ p. same_socket p socket) v.no_attempt in
      rw (other, fail_attempt) refl

  pub reconnect_fires-IsClosed :
      (is_destroyed : ℕ → Bool) (c : RpcConnection Value)
      → c.reconnect_timer ≡ none
      → reconnect_fires is_destroyed c ≡ c
  unfolding reconnect_fires
  reconnect_fires-IsClosed is_destroyed c h = ground arith

  send_ping-SameLife :
      (now : ℕ) (id : String) (socket : ℕ) (c : RpcConnection Value)
      → SameLife (send_ping now id socket c) c × ((send_ping now id socket c).pending ≡ c.pending)
  unfolding send_ping
  send_ping-SameLife now id socket c = ground arith

  pub beat_on-IsClosed :
      (socket : Option ℕ) (is_destroyed : ℕ → Bool) (now : ℕ) (id : String)
      (c : RpcConnection Value)
      → IsClosed c
      → IsClosed (beat_on socket is_destroyed now id c)
  unfolding beat_on destroy
  beat_on-IsClosed none is_destroyed now id c v = stop_heartbeat-IsClosed c v
  beat_on-IsClosed (some socket) is_destroyed now id c v =
      let lost = rpc_error "Heartbeat timeout" "HEARTBEAT_TIMEOUT" in
      let w = handle_unexpected_disconnect-IsClosed lost c v in
      let (same, pending) = send_ping-SameLife now id socket c in
      elim (Bool-cases (is_destroyed socket)) [
        | inl t ↦ rw t (stop_heartbeat-IsClosed c v)
        | inr f ↦ elim (Bool-cases (pong_overdue now c)) [
          | inl t ↦
              rw (f, t)
                (IsClosed-SameLife (destroy socket (handle_unexpected_disconnect lost c))
                  (handle_unexpected_disconnect lost c) (refl, refl, refl, refl) w.no_request w)
          | inr g ↦
              rw (f, g)
                (IsClosed-SameLife (send_ping now id socket c) c same (pending ∙ v.no_request) v)
        ]
      ]

  pub handle_data-IsClosed :
      (alloc_unsafe : ℕ → Buffer) (now : ℕ) (chunk : Buffer) (c : RpcConnection Value)
      → IsClosed c
      → IsClosed (handle_data alloc_unsafe now chunk c)
  unfolding handle_data
  handle_data-IsClosed alloc_unsafe now chunk c v =
      elim (Option-cases (Codec.push alloc_unsafe c.codec chunk)) [
        | inl e ↦ rw (e, handle_data) v
        | inr ((codec, throws err), e) ↦ rw (e, handle_data) (with_codec codec)
        | inr ((codec, ok ms), e) ↦
            rw (e, handle_data)
              (handle_messages-IsClosed now ms (record c { codec = codec }) (with_codec codec))
      ]
    where
      with_codec : (codec : Codec.RpcCodec Value) → IsClosed (record c { codec = codec })
      with_codec codec =
          IsClosed-SameLife (record c { codec = codec }) c (refl, refl, refl, refl) v.no_request v
      -- A close with no request leaves none.
