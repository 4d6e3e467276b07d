-- ===== src/Client/Connection/Closed.antt =====
-- What `close` of client/connection.ts stops, and what it does not.
use weisley_rpc_framework.Client.Connection.Account.{close-Sound, run-Sound, new_connection-Sound}
use weisley_rpc_framework.Prelude.{
  ℕ, ◌≡◌, sym, ap, subst, ◌∙◌, Bool, true, none, some, String, List, [], ◌∷◌, ok, throws, arith,
  Bool-cases, inl, inr, ◌==◌,
}
use weisley_rpc_framework.Errors.{Thrown, rpc_error}
use weisley_rpc_framework.Protocol.Types.{Buffer, Serializer}
use weisley_rpc_framework.Client.ConnectionPool.{connected, closed_state}
use weisley_rpc_framework.Client.Connection.State.{
  RpcConnection, RpcConnectionOptions, new_connection,
}
use weisley_rpc_framework.Client.Connection.Requests.{send, reject_all}
use weisley_rpc_framework.Client.Connection.Lifecycle.{
  stop_heartbeat, handle_unexpected_disconnect, start_heartbeat, end_attempt, resume_reconnects,
  on_connect, on_error, on_close, close, heartbeat_ticks, runs, same_socket,
}
use weisley_rpc_framework.Client.Connection.Run.{
  Event, connects, sends, closes, data_comes, socket_connects, socket_fails, socket_closes,
  request_timer, reconnect_timer, heartbeat_timer, on_event, run,
}
use weisley_rpc_framework.Client.Connection.Closing.{
  IsClosed, reject_each-SameLife, reject_all_none, stop_heartbeat-SameLife,
  handle_unexpected_disconnect-IsClosed, send_closed, request_times_out-IsClosed,
  on_connect-IsClosed, fail_attempt-IsClosed, reconnect_fires-IsClosed, beat_on-IsClosed,
  handle_data-IsClosed,
}

module _ {Value : Type 0} where
  pending-close : (c : RpcConnection Value) → c.pending ≡ [] → (close c).pending ≡ []
  unfolding close
  pending-close c h =
      let c1 = record c { manually_closed = true; state = closed_state; reconnect_timer = none } in
      let (_, same) = stop_heartbeat-SameLife c1 in
      ap (λ d. d.pending)
        (reject_all_none (rpc_error "Connection closed" "CONNECTION_CLOSED") (stop_heartbeat c1)
          (same ∙ h))
      ∙ same
      ∙ h

  close_life :
      (c : RpcConnection Value)
      → ((close c).state ≡ closed_state)
        × ((close c).manually_closed ≡ true)
        × ((close c).connection_promise ≡ c.connection_promise)
        × ((close c).reconnect_timer ≡ none)
  unfolding close reject_all
  close_life c =
      let c1 = record c { manually_closed = true; state = closed_state; reconnect_timer = none } in
      let closed_error = rpc_error "Connection closed" "CONNECTION_CLOSED" in
      let ((a, b, d, e), _) = stop_heartbeat-SameLife c1 in
      let (a', b', d', e') =
        reject_each-SameLife closed_error (stop_heartbeat c1).pending (stop_heartbeat c1) in
      (a' ∙ a, b' ∙ b, d' ∙ d, e' ∙ e)

  -- `close` of a connection that is not connecting.
  close-IsClosed :
      (c : RpcConnection Value)
      → (close c).pending ≡ []
      → c.connection_promise ≡ none
      → IsClosed (close c)
  close-IsClosed c nothing no_attempt =
      let (a, b, d, e) = close_life c in
      record {
        state_closed = a;
        by_hand = b;
        no_attempt = d ∙ no_attempt;
        no_timer = e;
        no_request = nothing;
      }

  start_heartbeat_life :
      (now : ℕ) (c : RpcConnection Value)
      → ((start_heartbeat now c).state ≡ c.state)
        × ((start_heartbeat now c).manually_closed ≡ c.manually_closed)
  unfolding start_heartbeat
  start_heartbeat_life now c = ground arith

  resume_reconnects_life :
      (c : RpcConnection Value)
      → ((resume_reconnects c).state ≡ c.state)
        × ((resume_reconnects c).manually_closed ≡ c.manually_closed)
  unfolding resume_reconnects
  resume_reconnects_life c = ground arith

  on_connect_life :
      (now socket : ℕ) (c : RpcConnection Value)
      → same_socket c.connection_promise socket ≡ true
      → ((on_connect now socket c).state ≡ connected)
        × ((on_connect now socket c).manually_closed ≡ c.manually_closed)
  unfolding on_connect end_attempt
  on_connect_life now socket c t =
      let c1 = record c { state = connected; reconnect_attempts = 0 } in
      let (a, b) = start_heartbeat_life now c1 in
      let (a', b') = resume_reconnects_life (end_attempt socket (ok tt) (start_heartbeat now c1)) in
      rw (t, on_connect) (a' ∙ a, b' ∙ b)

same_self : (n : ℕ) → (n == n) ≡ true
same_self n = ground arith

-- No one calls `connect`.
abbrev pub IsOther : Event → Type 0
IsOther (connects is_destroyed) = ⊥
IsOther e = Unit {0}

abbrev pub NoneConnects : List Event → Type 0
NoneConnects [] = Unit {0}
NoneConnects (e ∷ es) = IsOther e × NoneConnects es

module _ {Value : Type 0} (alloc_unsafe : ℕ → Buffer) where
  on_event-IsClosed :
      (c : RpcConnection Value) (e : Event)
      → IsOther e
      → IsClosed c
      → IsClosed (on_event alloc_unsafe c e)
  unfolding on_event on_error on_close heartbeat_ticks send
  on_event-IsClosed c (connects d) o v = elim o [ ]
  on_event-IsClosed c (sends d id payload) o v =
      let (_, unchanged) = send_closed c.socket d id payload c v.state_closed in
      subst IsClosed (sym (ap (λ r. r.0) unchanged)) v
  on_event-IsClosed c closes o v = close-IsClosed c (pending-close c v.no_request) v.no_attempt
  on_event-IsClosed c (data_comes now chunk) o v = handle_data-IsClosed alloc_unsafe now chunk c v
  on_event-IsClosed c (socket_connects now socket) o v =
      subst IsClosed (sym (on_connect-IsClosed now socket c v)) v
  on_event-IsClosed c (socket_fails socket err) o v =
      let w = handle_unexpected_disconnect-IsClosed err c v in
      subst IsClosed (sym (fail_attempt-IsClosed socket err (handle_unexpected_disconnect err c) w))
        w
  on_event-IsClosed c socket_closes o v =
      handle_unexpected_disconnect-IsClosed (rpc_error "Connection closed" "CONNECTION_CLOSED") c v
  on_event-IsClosed c (request_timer timer) o v = request_times_out-IsClosed timer c v
  on_event-IsClosed c (reconnect_timer d) o v =
      subst IsClosed (sym (reconnect_fires-IsClosed d c v.no_timer)) v
  on_event-IsClosed c (heartbeat_timer d now id interval) o v =
      elim (Bool-cases (runs interval c.intervals)) [
        | inl t ↦ rw t (beat_on-IsClosed c.socket d now id c v)
        | inr f ↦ rw f v
      ]

  run-IsClosed :
      (c : RpcConnection Value) (es : List Event)
      → NoneConnects es
      → IsClosed c
      → IsClosed (run alloc_unsafe c es)
  unfolding run
  run-IsClosed c [] o v = v
  run-IsClosed c (e ∷ es) o v =
      run-IsClosed (on_event alloc_unsafe c e) es o.1 (on_event-IsClosed c e o.0 v)

  -- A connection that is closed while it does not connect stays closed, whatever happens to it, until
  -- `connect` is called: no request waits, no attempt to connect runs or is planned, and `send` is
  -- refused.
  pub close_stays :
      (json_serializer : Serializer Value) (options : RpcConnectionOptions Value)
      (new : RpcConnection Value) (before after : List Event)
      → new_connection json_serializer options ≡ ok new
      → (run alloc_unsafe new before).connection_promise ≡ none
      → NoneConnects after
      → let c = run alloc_unsafe (close (run alloc_unsafe new before)) after in
        IsClosed c
        × ((is_destroyed : ℕ → Bool) (id : String) (payload : Buffer)
            → (e : Thrown) × (send is_destroyed id payload c ≡ (c, throws e)))
  unfolding send
  close_stays json_serializer options new before after made no_attempt others =
      let c = run alloc_unsafe new before in
      let sound =
        run-Sound alloc_unsafe new before (new_connection-Sound json_serializer options new made) in
      let (_, nothing) = close-Sound c sound in
      let v = run-IsClosed (close c) after others (close-IsClosed c nothing no_attempt) in
      let d = run alloc_unsafe (close c) after in
      (v, λ is_destroyed id payload. send_closed d.socket is_destroyed id payload d v.state_closed)

  -- A connection that is closed while it connects does not stay closed: when its socket connects it
  -- counts as connected, closed by hand as it is.
  pub close-connects :
      (c : RpcConnection Value) (now socket : ℕ)
      → c.connection_promise ≡ some socket
      → let d =
          on_event alloc_unsafe (on_event alloc_unsafe c closes) (socket_connects now socket) in
        ((on_event alloc_unsafe c closes).state ≡ closed_state)
        × (d.state ≡ connected)
        × (d.manually_closed ≡ true)
  unfolding on_event
  close-connects c now socket h =
      let (a, b, d, _) = close_life c in
      let mine : same_socket (close c).connection_promise socket ≡ true =
        ap (λ p. same_socket p socket) (d ∙ h) ∙ same_self socket in
      let (a', b') = on_connect_life now socket (close c) mine in (a, a', b' ∙ b)
