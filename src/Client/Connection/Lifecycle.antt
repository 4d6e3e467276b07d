-- ===== src/Client/Connection/Lifecycle.antt =====
-- client/connection.ts: connect, close, disconnects, reconnecting and the heartbeat. What runs
-- between two awaits, with the callbacks that an event's promises continue, is one function.
use weisley_rpc_framework.Prelude.{
  ℕ, zero, suc, ◌+◌, ◌-◌, ◌^◌, Bool, true, false, not, ◌&&◌, ◌||◌, Option, none, some, String, List,
  [], ◌∷◌, ◌++◌, ◌==◌, if◌then◌else◌, ◌or_else◌, Outcome, ok, throws,
}
use weisley_rpc_framework.Prelude.Number.{Number, integer, scale, min_number, nat_gt, is_falsy}
use weisley_rpc_framework.Errors.{Thrown, rpc_error}
use weisley_rpc_framework.Protocol.Types.{ping}
use weisley_rpc_framework.Protocol.Codec.{encode}
use weisley_rpc_framework.Client.ConnectionPool.{connecting, connected, reconnecting, closed_state}
use weisley_rpc_framework.Client.Connection.State.{
  RpcConnectionOptions, RpcConnection, Effect, wrote, ended, destroyed,
}
use weisley_rpc_framework.Client.Connection.Requests.{is_connected, reject_all}

-- `connect` returns at once, or waits for the `doConnect` on a socket.
pub data Connecting : Type 0 where
  already : Connecting
  waits_for : (socket : ℕ) → Connecting

abbrev pub is_false : Option Bool → Bool
is_false (some false) = true
is_false _ = false

abbrev pub same_socket : Option ℕ → ℕ → Bool
same_socket none k = false
same_socket (some s) k = s == k

unfoldable pub remove : ℕ → List ℕ → List ℕ
remove n [] = []
remove n (t ∷ ts) = let rest = remove n ts in if t == n then rest else t ∷ rest

-- There is a socket that is not destroyed.
abbrev pub is_open : (ℕ → Bool) → Option ℕ → Bool
is_open is_destroyed none = false
is_open is_destroyed (some socket) = not (is_destroyed socket)

abbrev pub end_socket : Option ℕ → List Effect
end_socket none = []
end_socket (some socket) = ended socket ∷ []

unfoldable pub runs : ℕ → List ℕ → Bool
runs n [] = false
runs n (t ∷ ts) = t == n || runs n ts

module _ {Value : Type 0} where
  unfoldable pub reconnect_delay : RpcConnectionOptions Value → ℕ → Number
  reconnect_delay o attempts =
      min_number (scale (2 ^ attempts) (o.reconnect_initial_delay_ms or_else integer 100))
        (o.reconnect_max_delay_ms or_else integer 2000)

  unfoldable pub schedule_reconnect : RpcConnection Value → RpcConnection Value
  schedule_reconnect c = elim c.reconnect_timer [
    | some delay ↦ c
    | none ↦ if is_false c.options.reconnect then c else record c {
      reconnect_attempts = c.reconnect_attempts + 1;
      reconnect_timer = some (reconnect_delay c.options c.reconnect_attempts);
    }
  ]

  unfoldable pub stop_heartbeat : RpcConnection Value → RpcConnection Value
  unfolding remove
  stop_heartbeat c = elim c.heartbeat_timer [
    | none ↦ c
    | some t ↦ record c { intervals = remove t c.intervals; heartbeat_timer = none }
  ]

  -- The end of handleUnexpectedDisconnect.
  unfoldable pub reconnect_unless_closed : RpcConnection Value → RpcConnection Value
  unfolding schedule_reconnect
  reconnect_unless_closed c =
      if c.manually_closed then c else schedule_reconnect (record c { state = reconnecting })

  unfoldable pub handle_unexpected_disconnect : Thrown → RpcConnection Value → RpcConnection Value
  unfolding stop_heartbeat reconnect_unless_closed
  handle_unexpected_disconnect e c = reconnect_unless_closed (reject_all e (stop_heartbeat c))

  -- `doConnect` up to its `await`, and `connectionPromise`.
  unfoldable pub do_connect : RpcConnection Value → RpcConnection Value
  do_connect c = record c {
    manually_closed = false;
    state = connecting;
    socket = some c.sockets;
    sockets = c.sockets + 1;
    connection_promise = some c.sockets;
  }

  -- `connect` of a connection that is not connected: it joins the attempt that runs, or begins one.
  unfoldable pub connect_anew : RpcConnection Value → RpcConnection Value × Connecting
  unfolding do_connect
  connect_anew c = elim c.connection_promise [
    | some socket ↦ (c, waits_for socket)
    | none ↦ (do_connect c, waits_for c.sockets)
  ]

  unfoldable pub connect : (ℕ → Bool) → RpcConnection Value → RpcConnection Value × Connecting
  unfolding connect_anew
  connect is_destroyed c =
      if is_connected c.state && is_open is_destroyed c.socket then (c, already) else connect_anew c

  unfoldable pub start_heartbeat : ℕ → RpcConnection Value → RpcConnection Value
  start_heartbeat now c = elim c.options.heartbeat_interval_ms [
    | none ↦ c
    | some interval_ms ↦ if is_falsy interval_ms then c else record c {
      last_pong_at = now;
      heartbeat_timer = some c.intervals_made;
      intervals = c.intervals_made ∷ c.intervals;
      intervals_made = c.intervals_made + 1;
    }
  ]

  -- The callbacks that wait for `connect` go on: after a success, and after a failure.
  unfoldable pub resume_reconnects : RpcConnection Value → RpcConnection Value
  resume_reconnects c = elim c.reconnects_waiting [
    | zero ↦ c
    | suc n ↦ record c { reconnects_waiting = 0; reconnect_attempts = 0 }
  ]

  unfoldable pub retry_each : ℕ → RpcConnection Value → RpcConnection Value
  unfolding schedule_reconnect
  retry_each zero c = c
  retry_each (suc n) c = retry_each n (schedule_reconnect (record c { state = reconnecting }))

  -- The `finally` of `connect`, at the end of the attempt on a socket.
  unfoldable pub end_attempt :
      ℕ → Outcome Thrown (Unit {0}) → RpcConnection Value → RpcConnection Value
  end_attempt socket outcome c = record c {
    connection_promise = none;
    attempts_ended = c.attempts_ended ++ (socket, outcome) ∷ [];
  }

  -- A socket's "connect" event, which `doConnect` waits for, and what follows it.
  unfoldable pub on_connect : ℕ → ℕ → RpcConnection Value → RpcConnection Value
  unfolding start_heartbeat end_attempt resume_reconnects
  on_connect now socket c =
      if same_socket c.connection_promise socket
      then resume_reconnects (
          end_attempt socket (ok tt)
            (start_heartbeat now (record c { state = connected; reconnect_attempts = 0 })))
      else c

  -- The failure of the attempt on a socket, if it still runs.
  unfoldable pub fail_attempt : ℕ → Thrown → RpcConnection Value → RpcConnection Value
  unfolding end_attempt retry_each
  fail_attempt socket e c =
      if same_socket c.connection_promise socket
      then retry_each c.reconnects_waiting
          (record (end_attempt socket (throws e) c) { reconnects_waiting = 0 })
      else c

  -- A socket's "error" event: the listener, and then `reject` of `doConnect`.
  unfoldable pub on_error : ℕ → Thrown → RpcConnection Value → RpcConnection Value
  unfolding handle_unexpected_disconnect fail_attempt
  on_error socket e c = fail_attempt socket e (handle_unexpected_disconnect e c)

  unfoldable pub on_close : RpcConnection Value → RpcConnection Value
  unfolding handle_unexpected_disconnect
  on_close c = handle_unexpected_disconnect (rpc_error "Connection closed" "CONNECTION_CLOSED") c

  -- What the reconnect callback does with the result of its `connect`.
  unfoldable pub await_connect : RpcConnection Value × Connecting → RpcConnection Value
  await_connect (c, already) = record c { reconnect_attempts = 0 }
  await_connect (c, waits_for socket) = record c { reconnects_waiting = c.reconnects_waiting + 1 }

  -- The reconnect timer fires, if it runs.
  unfoldable pub reconnect_fires : (ℕ → Bool) → RpcConnection Value → RpcConnection Value
  unfolding connect await_connect
  reconnect_fires is_destroyed c = elim c.reconnect_timer [
    | none ↦ c
    | some delay ↦
        let c1 = record c { reconnect_timer = none } in
        if c1.manually_closed then c1 else await_connect (connect is_destroyed c1)
  ]

  unfoldable pub close : RpcConnection Value → RpcConnection Value
  unfolding stop_heartbeat reject_all
  close c =
      let c1 = record c { manually_closed = true; state = closed_state; reconnect_timer = none } in
      let c2 = reject_all (rpc_error "Connection closed" "CONNECTION_CLOSED") (stop_heartbeat c1) in
      record c2 { effects = c2.effects ++ end_socket c2.socket }

  abbrev pub interval_ms : RpcConnectionOptions Value → Number
  interval_ms o = o.heartbeat_interval_ms or_else integer 0

  -- `Date.now() - this.lastPongAt > timeoutMs`. Where the clock has gone back the difference is 0.
  abbrev pub pong_overdue : ℕ → RpcConnection Value → Bool
  pong_overdue now c =
      nat_gt (now - c.last_pong_at)
        (c.options.heartbeat_timeout_ms or_else scale 2 (interval_ms c.options))

  -- `this.socket.write(this.codec.encode(...))` of a ping; where `encode` throws, so does the timer.
  unfoldable pub send_ping : ℕ → String → ℕ → RpcConnection Value → RpcConnection Value
  send_ping now id socket c = elim (encode c.codec (ping (record { id = id; timestamp = now }))) [
    | throws e ↦ c
    | ok payload ↦ record c { effects = c.effects ++ wrote socket payload ∷ [] }
  ]

  -- `this.socket.destroy(error)`
  unfoldable pub destroy : ℕ → RpcConnection Value → RpcConnection Value
  destroy socket c = record c { effects = c.effects ++ destroyed socket ∷ [] }

  -- The callback of a heartbeat's interval, on what `this.socket` is.
  unfoldable pub beat_on :
      Option ℕ → (ℕ → Bool) → ℕ → String → RpcConnection Value → RpcConnection Value
  unfolding stop_heartbeat handle_unexpected_disconnect send_ping destroy
  beat_on none is_destroyed now id c = stop_heartbeat c
  beat_on (some socket) is_destroyed now id c =
      if is_destroyed socket
      then stop_heartbeat c
      else if pong_overdue now c
      then destroy socket
          (handle_unexpected_disconnect (rpc_error "Heartbeat timeout" "HEARTBEAT_TIMEOUT") c)
      else send_ping now id socket c

  unfoldable pub heartbeat_ticks :
      (ℕ → Bool) → ℕ → String → ℕ → RpcConnection Value → RpcConnection Value
  unfolding runs beat_on destroy
  heartbeat_ticks is_destroyed now id interval c =
      if runs interval c.intervals then beat_on c.socket is_destroyed now id c else c
