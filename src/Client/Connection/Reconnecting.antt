-- ===== src/Client/Connection/Reconnecting.antt =====
-- client/connection.ts: a connection that was lost does not stop to connect again.
use weisley_rpc_framework.Prelude.{
  ℕ, zero, suc, ◌≡◌, refl, Bool, true, false, Option, none, some, String, List, [], ◌∷◌, ok, throws,
  arith, Option-cases, inl, inr, if_both,
}
use weisley_rpc_framework.Errors.{Thrown, rpc_error}
use weisley_rpc_framework.Protocol.Types.{Buffer}
use weisley_rpc_framework.Protocol.Codec
use weisley_rpc_framework.Protocol.Codec.{RpcCodec}
use weisley_rpc_framework.Client.ConnectionPool.{reconnecting, connected, closed_state}
use weisley_rpc_framework.Client.Connection.State.{RpcConnection, RpcConnectionOptions, initial}
use weisley_rpc_framework.Client.Connection.Requests.{
  send, request_times_out, reject_each, reject_all, handle_data,
}
use weisley_rpc_framework.Client.Connection.Lifecycle.{
  schedule_reconnect, stop_heartbeat, handle_unexpected_disconnect, do_connect, connect_anew,
  connect, start_heartbeat, end_attempt, resume_reconnects, retry_each, on_connect, fail_attempt,
  on_error, on_close, await_connect, reconnect_fires, close, send_ping, beat_on, destroy,
  heartbeat_ticks, runs, same_socket, pong_overdue,
}
use weisley_rpc_framework.Client.Connection.Run.{
  Event, connects, sends, closes, data_comes, socket_connects, socket_fails, socket_closes,
  request_timer, reconnect_timer, heartbeat_timer, on_event, run,
}
use weisley_rpc_framework.Client.Connection.Trying.{
  is_lost, tries, Tries, Tries-SameTry, reject_each-SameTry, stop_heartbeat-SameTry,
  schedule_reconnect-Tries, handle_unexpected_disconnect-Tries, handle_messages-Tries,
  send_on-SameTry, request_times_out-SameTry, send_ping-SameTry, retry_each-Tries,
}

module _ {Value : Type 0} where
  not_lost-Tries : (c : RpcConnection Value) → is_lost c ≡ false → Tries c
  not_lost-Tries c e = ground arith

  connected_not_lost :
      (now socket : ℕ) (c : RpcConnection Value)
      → is_lost (
          resume_reconnects (
            end_attempt socket
              (ok tt)
              (start_heartbeat now (record c { state = connected; reconnect_attempts = 0 }))))
        ≡ false
  unfolding resume_reconnects end_attempt start_heartbeat is_lost
  connected_not_lost now socket c = ground arith

  on_connect-Tries :
      (now socket : ℕ) (c : RpcConnection Value) → Tries c → Tries (on_connect now socket c)
  unfolding on_connect
  on_connect-Tries now socket c t =
      if_both Tries (same_socket c.connection_promise socket) _ c
        (not_lost-Tries _ (connected_not_lost now socket c)) t

  retry_some-Tries : (n : ℕ) (c : RpcConnection Value) → (n ≡ 0 → Tries c) → Tries (retry_each n c)
  unfolding retry_each
  retry_some-Tries zero c t = t refl
  retry_some-Tries (suc n) c t =
      retry_each-Tries n (schedule_reconnect (record c { state = reconnecting }))
        (schedule_reconnect-Tries (record c { state = reconnecting }))

  no_waiting-Tries :
      (socket : ℕ) (e : Thrown) (c : RpcConnection Value)
      → Tries c
      → c.reconnects_waiting ≡ 0
      → Tries (record (end_attempt socket (throws e) c) { reconnects_waiting = 0 })
  unfolding end_attempt is_lost tries
  no_waiting-Tries socket e c t z = ground arith

  fail_attempt-Tries :
      (socket : ℕ) (e : Thrown) (c : RpcConnection Value)
      → Tries c
      → Tries (fail_attempt socket e c)
  unfolding fail_attempt
  fail_attempt-Tries socket e c t =
      if_both Tries (same_socket c.connection_promise socket) _ c
        (retry_some-Tries c.reconnects_waiting
          (record (end_attempt socket (throws e) c) { reconnects_waiting = 0 })
          (no_waiting-Tries socket e c t))
        t

  connect-Tries :
      (is_destroyed : ℕ → Bool) (c : RpcConnection Value)
      → Tries c
      → Tries (connect is_destroyed c).0
  unfolding connect connect_anew do_connect is_lost tries
  connect-Tries is_destroyed c t = ground arith

  reconnect_fires-Tries :
      (is_destroyed : ℕ → Bool) (c : RpcConnection Value)
      → Tries c
      → Tries (reconnect_fires is_destroyed c)
  unfolding reconnect_fires connect connect_anew do_connect await_connect is_lost tries
  reconnect_fires-Tries is_destroyed c t = ground arith

  close-Tries : (c : RpcConnection Value) → Tries (close c)
  unfolding close reject_all is_lost tries
  close-Tries c =
      let c1 : RpcConnection Value = record c {
        manually_closed = true;
        state = closed_state;
        reconnect_timer = none;
      } in
      let c2 = stop_heartbeat c1 in
      let e = rpc_error "Connection closed" "CONNECTION_CLOSED" in
      Tries-SameTry (reject_each e c2.pending c2) c2 (reject_each-SameTry e c2.pending c2)
        (Tries-SameTry c2 c1 (stop_heartbeat-SameTry c1) (not_lost-Tries c1 refl))

  beat_on-Tries :
      (socket : Option ℕ) (is_destroyed : ℕ → Bool) (now : ℕ) (id : String)
      (c : RpcConnection Value)
      → Tries c
      → Tries (beat_on socket is_destroyed now id c)
  unfolding beat_on destroy is_lost tries
  beat_on-Tries none is_destroyed now id c t =
      Tries-SameTry (stop_heartbeat c) c (stop_heartbeat-SameTry c) t
  beat_on-Tries (some socket) is_destroyed now id c t =
      let lost = rpc_error "Heartbeat timeout" "HEARTBEAT_TIMEOUT" in
      if_both Tries (is_destroyed socket) (stop_heartbeat c) _
        (Tries-SameTry (stop_heartbeat c) c (stop_heartbeat-SameTry c) t)
        (if_both Tries (pong_overdue now c) (destroy socket (handle_unexpected_disconnect lost c))
          (send_ping now id socket c) (handle_unexpected_disconnect-Tries lost c t)
          (Tries-SameTry (send_ping now id socket c) c (send_ping-SameTry now id socket c) t))

  handle_data-Tries :
      (alloc_unsafe : ℕ → Buffer) (now : ℕ) (chunk : Buffer) (c : RpcConnection Value)
      → Tries c
      → Tries (handle_data alloc_unsafe now chunk c)
  unfolding handle_data is_lost tries
  handle_data-Tries alloc_unsafe now chunk c t =
      elim (Option-cases (Codec.push alloc_unsafe c.codec chunk)) [
        | inl e ↦ rw (e, handle_data) t
        | inr ((codec, throws err), e) ↦ rw (e, handle_data) t
        | inr ((codec, ok ms), e) ↦
            rw (e, handle_data) (handle_messages-Tries now ms (record c { codec = codec }) t)
      ]

  on_event-Tries :
      (alloc_unsafe : ℕ → Buffer) (c : RpcConnection Value) (e : Event)
      → Tries c
      → Tries (on_event alloc_unsafe c e)
  unfolding on_event on_error on_close heartbeat_ticks send
  on_event-Tries a c (connects d) t = connect-Tries d c t
  on_event-Tries a c (sends d id payload) t =
      Tries-SameTry (send d id payload c).0 c (send_on-SameTry c.socket d id payload c) t
  on_event-Tries a c closes t = close-Tries c
  on_event-Tries a c (data_comes now chunk) t = handle_data-Tries a now chunk c t
  on_event-Tries a c (socket_connects now socket) t = on_connect-Tries now socket c t
  on_event-Tries a c (socket_fails socket e) t =
      fail_attempt-Tries socket e (handle_unexpected_disconnect e c)
        (handle_unexpected_disconnect-Tries e c t)
  on_event-Tries a c socket_closes t =
      handle_unexpected_disconnect-Tries (rpc_error "Connection closed" "CONNECTION_CLOSED") c t
  on_event-Tries a c (request_timer n) t =
      Tries-SameTry (request_times_out n c) c (request_times_out-SameTry n c) t
  on_event-Tries a c (reconnect_timer d) t = reconnect_fires-Tries d c t
  on_event-Tries a c (heartbeat_timer d now id interval) t =
      if_both Tries (runs interval c.intervals) _ c (beat_on-Tries c.socket d now id c t) t

  run-Tries :
      (alloc_unsafe : ℕ → Buffer) (c : RpcConnection Value) (es : List Event)
      → Tries c
      → Tries (run alloc_unsafe c es)
  unfolding run
  run-Tries a c [] t = t
  run-Tries a c (e ∷ es) t = run-Tries a (on_event a c e) es (on_event-Tries a c e t)

  initial_not_lost :
      (options : RpcConnectionOptions Value) (codec : RpcCodec Value)
      → is_lost (initial options codec) ≡ false
  unfolding is_lost
  initial_not_lost options codec = refl

  -- Whatever has happened to a connection: where it was lost, reconnecting is not switched off and
  -- it was not closed, its reconnect timer runs, or a reconnect callback waits for an attempt to
  -- connect that runs.
  pub lost_tries :
      (alloc_unsafe : ℕ → Buffer) (options : RpcConnectionOptions Value) (codec : RpcCodec Value)
      (es : List Event)
      → is_lost (run alloc_unsafe (initial options codec) es) ≡ true
      → tries (run alloc_unsafe (initial options codec) es) ≡ true
  lost_tries a options codec es lost =
      let t =
        run-Tries a (initial options codec) es
          (not_lost-Tries (initial options codec) (initial_not_lost options codec)) in
      ground arith
