-- ===== src/Client/Connection/Account.antt =====
-- Every event on a connection keeps the account of its calls sound.
use weisley_rpc_framework.Prelude.{
  ℕ, zero, suc, ◌<◌, ◌≡◌, refl, subst, ◌∙◌, Bool, true, Option, none, some, String, List, [], ◌∷◌,
  ok, throws, arith, Bool-cases, Option-cases, inl, inr, ◌⊎◌, >>=-eq-ok,
}
use weisley_rpc_framework.Errors.{Thrown, rpc_error, rpc_timeout}
use weisley_rpc_framework.Protocol.Types.{Buffer, Serializer}
use weisley_rpc_framework.Protocol.Codec
use weisley_rpc_framework.Protocol.Codec.{RpcCodec, new_codec}
use weisley_rpc_framework.Client.ConnectionPool.{reconnecting, connected, closed_state}
use weisley_rpc_framework.Client.Connection.State.{
  RpcConnection, RpcConnectionOptions, initial, codec_options, new_connection,
}
use weisley_rpc_framework.Client.Connection.Requests.{
  timer_id, settle, send, request_times_out, reject_all, handle_data,
}
use weisley_rpc_framework.Client.Connection.Lifecycle.{
  schedule_reconnect, stop_heartbeat, handle_unexpected_disconnect, reconnect_unless_closed,
  do_connect, connect_anew, connect, start_heartbeat, resume_reconnects, retry_each, end_attempt,
  on_connect, fail_attempt, on_error, on_close, await_connect, reconnect_fires, close, send_ping,
  beat_on, destroy, runs, heartbeat_ticks, same_socket, pong_overdue,
}
use weisley_rpc_framework.Client.Connection.Run.{
  Event, connects, sends, closes, data_comes, socket_connects, socket_fails, socket_closes,
  request_timer, reconnect_timer, heartbeat_timer, on_event, run,
}
use weisley_rpc_framework.Client.Connection.Ledger.{settlements, settlements-append}
use weisley_rpc_framework.Client.Connection.Settlement.{
  Sound, SameLedger, Sound-SameLedger, reject_all-Sound, handle_messages-Sound,
  request_times_out-Sound, send_on-Sound,
}

module _ {Value : Type 0} where
  schedule_reconnect-SameLedger : (c : RpcConnection Value) → SameLedger (schedule_reconnect c) c
  unfolding schedule_reconnect
  schedule_reconnect-SameLedger c = ground arith

  stop_heartbeat-SameLedger : (c : RpcConnection Value) → SameLedger (stop_heartbeat c) c
  unfolding stop_heartbeat
  stop_heartbeat-SameLedger c = ground arith

  start_heartbeat-SameLedger :
      (now : ℕ) (c : RpcConnection Value) → SameLedger (start_heartbeat now c) c
  unfolding start_heartbeat
  start_heartbeat-SameLedger now c = ground arith

  resume_reconnects-SameLedger : (c : RpcConnection Value) → SameLedger (resume_reconnects c) c
  unfolding resume_reconnects
  resume_reconnects-SameLedger c = ground arith

  retry_each-SameLedger : (n : ℕ) (c : RpcConnection Value) → SameLedger (retry_each n c) c
  unfolding retry_each
  retry_each-SameLedger zero c = (refl, refl, refl, refl)
  retry_each-SameLedger (suc n) c =
      let rest = retry_each-SameLedger n (schedule_reconnect (record c { state = reconnecting })) in
      let first = schedule_reconnect-SameLedger (record c { state = reconnecting }) in
      (rest.0 ∙ first.0, rest.1 ∙ first.1, rest.2 ∙ first.2, rest.3 ∙ first.3)

  connect-SameLedger :
      (is_destroyed : ℕ → Bool) (c : RpcConnection Value) → SameLedger (connect is_destroyed c).0 c
  unfolding connect connect_anew do_connect
  connect-SameLedger is_destroyed c = ground arith

  send_ping-SameLedger :
      (now : ℕ) (id : String) (socket : ℕ) (c : RpcConnection Value)
      → SameLedger (send_ping now id socket c) c
  unfolding send_ping
  send_ping-SameLedger now id socket c = ground arith

  reconnect_unless_closed-SameLedger :
      (c : RpcConnection Value) → SameLedger (reconnect_unless_closed c) c
  unfolding reconnect_unless_closed
  reconnect_unless_closed-SameLedger c =
      let a = schedule_reconnect-SameLedger (record c { state = reconnecting }) in ground arith

  handle_unexpected_disconnect-Sound :
      (e : Thrown) (c : RpcConnection Value) → Sound c → Sound (handle_unexpected_disconnect e c)
  unfolding handle_unexpected_disconnect
  handle_unexpected_disconnect-Sound e c v =
      let stopped = Sound-SameLedger (stop_heartbeat c) c (stop_heartbeat-SameLedger c) v in
      let c1 = reject_all e (stop_heartbeat c) in
      Sound-SameLedger (reconnect_unless_closed c1) c1 (reconnect_unless_closed-SameLedger c1)
        (reject_all-Sound e (stop_heartbeat c) stopped).0

  on_connect-SameLedger :
      (now socket : ℕ) (c : RpcConnection Value) → SameLedger (on_connect now socket c) c
  unfolding on_connect end_attempt
  on_connect-SameLedger now socket c =
      let c1 = record c { state = connected; reconnect_attempts = 0 } in
      let c2 = end_attempt socket (ok tt) (start_heartbeat now c1) in
      elim (Bool-cases (same_socket c.connection_promise socket)) [
        | inl t ↦ rw t (
            let a = start_heartbeat-SameLedger now c1 in
            let b = resume_reconnects-SameLedger c2 in (b.0 ∙ a.0, b.1 ∙ a.1, b.2 ∙ a.2, b.3 ∙ a.3))
        | inr f ↦ rw f (refl, refl, refl, refl)
      ]

  fail_attempt-SameLedger :
      (socket : ℕ) (e : Thrown) (c : RpcConnection Value) → SameLedger (fail_attempt socket e c) c
  unfolding fail_attempt end_attempt
  fail_attempt-SameLedger socket e c = elim (Bool-cases (same_socket c.connection_promise socket)) [
    | inl t ↦ rw t (
        retry_each-SameLedger c.reconnects_waiting
          (record (end_attempt socket (throws e) c) { reconnects_waiting = 0 }))
    | inr f ↦ rw f (refl, refl, refl, refl)
  ]

  reconnect_fires-SameLedger :
      (is_destroyed : ℕ → Bool) (c : RpcConnection Value)
      → SameLedger (reconnect_fires is_destroyed c) c
  unfolding reconnect_fires await_connect connect connect_anew do_connect
  reconnect_fires-SameLedger is_destroyed c = ground arith

  pub close-Sound : (c : RpcConnection Value) → Sound c → Sound (close c) × ((close c).pending ≡ [])
  unfolding close
  close-Sound c v =
      let c1 = record c { manually_closed = true; state = closed_state; reconnect_timer = none } in
      let stopped = Sound-SameLedger (stop_heartbeat c1) c1 (stop_heartbeat-SameLedger c1) v in
      reject_all-Sound (rpc_error "Connection closed" "CONNECTION_CLOSED") (stop_heartbeat c1)
        stopped

  beat_on-Sound :
      (socket : Option ℕ) (is_destroyed : ℕ → Bool) (now : ℕ) (id : String)
      (c : RpcConnection Value)
      → Sound c
      → Sound (beat_on socket is_destroyed now id c)
  unfolding beat_on destroy
  beat_on-Sound none is_destroyed now id c v =
      Sound-SameLedger (stop_heartbeat c) c (stop_heartbeat-SameLedger c) v
  beat_on-Sound (some socket) is_destroyed now id c v = elim (Bool-cases (is_destroyed socket)) [
    | inl t ↦ rw t (Sound-SameLedger (stop_heartbeat c) c (stop_heartbeat-SameLedger c) v)
    | inr f ↦ elim (Bool-cases (pong_overdue now c)) [
      | inl t ↦
          rw (f, t)
            (handle_unexpected_disconnect-Sound (rpc_error "Heartbeat timeout" "HEARTBEAT_TIMEOUT")
              c v)
      | inr g ↦
          rw (f, g)
            (Sound-SameLedger (send_ping now id socket c) c (send_ping-SameLedger now id socket c)
              v)
    ]
  ]

  handle_data-Sound :
      (alloc_unsafe : ℕ → Buffer) (now : ℕ) (chunk : Buffer) (c : RpcConnection Value)
      → Sound c
      → Sound (handle_data alloc_unsafe now chunk c)
  unfolding handle_data
  handle_data-Sound alloc_unsafe now chunk c v =
      elim (Option-cases (Codec.push alloc_unsafe c.codec chunk)) [
        | inl e ↦ rw (e, handle_data) v
        | inr ((codec, throws err), e) ↦ rw (e, handle_data) (with_codec codec)
        | inr ((codec, ok ms), e) ↦
            rw (e, handle_data)
              (handle_messages-Sound now ms (record c { codec = codec }) (with_codec codec))
      ]
    where
      with_codec : (codec : RpcCodec Value) → Sound (record c { codec = codec })
      with_codec codec = record {
        running = v.running;
        finished = v.finished;
        future = v.future;
        waiting = v.waiting;
      }

  on_event-Sound :
      (alloc_unsafe : ℕ → Buffer) (c : RpcConnection Value) (e : Event)
      → Sound c
      → Sound (on_event alloc_unsafe c e)
  unfolding on_event on_error on_close heartbeat_ticks send
  on_event-Sound a c (connects d) v = Sound-SameLedger (connect d c).0 c (connect-SameLedger d c) v
  on_event-Sound a c (sends d id payload) v = send_on-Sound c.socket d id payload c v
  on_event-Sound a c closes v = (close-Sound c v).0
  on_event-Sound a c (data_comes now chunk) v = handle_data-Sound a now chunk c v
  on_event-Sound a c (socket_connects now socket) v =
      Sound-SameLedger (on_connect now socket c) c (on_connect-SameLedger now socket c) v
  on_event-Sound a c (socket_fails socket err) v =
      let c1 = handle_unexpected_disconnect err c in
      Sound-SameLedger (fail_attempt socket err c1) c1 (fail_attempt-SameLedger socket err c1)
        (handle_unexpected_disconnect-Sound err c v)
  on_event-Sound a c socket_closes v =
      handle_unexpected_disconnect-Sound (rpc_error "Connection closed" "CONNECTION_CLOSED") c v
  on_event-Sound a c (request_timer timer) v = request_times_out-Sound timer c v
  on_event-Sound a c (reconnect_timer d) v =
      Sound-SameLedger (reconnect_fires d c) c (reconnect_fires-SameLedger d c) v
  on_event-Sound a c (heartbeat_timer d now id interval) v =
      elim (Bool-cases (runs interval c.intervals)) [
        | inl t ↦ rw t (beat_on-Sound c.socket d now id c v)
        | inr f ↦ rw f v
      ]

  pub run-Sound :
      (alloc_unsafe : ℕ → Buffer) (c : RpcConnection Value) (es : List Event)
      → Sound c
      → Sound (run alloc_unsafe c es)
  unfolding run
  run-Sound a c [] v = v
  run-Sound a c (e ∷ es) v = run-Sound a (on_event a c e) es (on_event-Sound a c e v)

  initial-Sound :
      (options : RpcConnectionOptions Value) (codec : RpcCodec Value)
      → Sound (initial options codec)
  unfolding settlements timer_id
  initial-Sound options codec = record {
    running = λ n id h. cc;
    finished = λ n lt h. absurd (omega arith);
    future = λ n ge. refl;
    waiting = tt;
  }

  pub new_connection-Sound :
      (json_serializer : Serializer Value) (options : RpcConnectionOptions Value)
      (c : RpcConnection Value)
      → new_connection json_serializer options ≡ ok c
      → Sound c
  unfolding new_connection
  new_connection-Sound json_serializer options c made =
      let (codec, _, e) =
        >>=-eq-ok (new_codec json_serializer (codec_options json_serializer options))
          (λ codec. ok (initial options codec)) made in
      let same : initial options codec ≡ c = cc e in subst Sound same (initial-Sound options codec)

  times_out_settles :
      (n : ℕ) (c : RpcConnection Value) (id : String)
      → timer_id c.timers n ≡ some id
      → settlements c.settled n ≡ 0
      → settlements (request_times_out n c).settled n ≡ 1
  unfolding request_times_out settle
  times_out_settles n c id runs_on none_yet =
      let s = settlements-append c.settled n n (throws (rpc_timeout c.options.timeout_ms)) in
      rw (runs_on, request_times_out) (s ∙ ground arith)

  -- Whatever has happened to a connection, each promise that `send` returned either waits, unsettled,
  -- with a timer that runs and settles it if it fires, or was settled, exactly once, and has no timer.
  pub settled_once :
      (json_serializer : Serializer Value) (options : RpcConnectionOptions Value)
      (alloc_unsafe : ℕ → Buffer) (new : RpcConnection Value) (es : List Event) (promise : ℕ)
      → new_connection json_serializer options ≡ ok new
      → promise < (run alloc_unsafe new es).calls
      → let c = run alloc_unsafe new es in
        ((id : String) × (timer_id c.timers promise ≡ some id)
          × (settlements c.settled promise ≡ 0)
          × (settlements (request_times_out promise c).settled promise ≡ 1))
        ⊎ ((timer_id c.timers promise ≡ none) × (settlements c.settled promise ≡ 1))
  settled_once json_serializer options alloc_unsafe new es promise made lt =
      let c = run alloc_unsafe new es in
      let v =
        run-Sound alloc_unsafe new es (new_connection-Sound json_serializer options new made) in
      elim (Option-cases (timer_id c.timers promise)) [
        | inl gone ↦ inr (gone, v.finished promise lt gone)
        | inr (id, runs_on) ↦
            let (_, none_yet) = v.running promise id runs_on in
            inl (id, runs_on, none_yet, times_out_settles promise c id runs_on none_yet)
      ]
