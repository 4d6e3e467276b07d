-- ===== src/Client/Connection/Tests.antt =====
-- The theorems of a connection at concrete inputs, and runs of its events.
use weisley_rpc_framework.Client.Connection.Reconnecting.{lost_tries}
use weisley_rpc_framework.Client.Connection.Trying.{is_lost, tries}
use weisley_rpc_framework.Client.Connection.Closing.{IsClosed}
use weisley_rpc_framework.Prelude.{
  ℕ, ◌≡◌, ◌⊎◌, refl, Bool, true, false, none, some, String, List, [], ◌∷◌, ◌++◌, ok, throws,
  replicate, arith,
}
use weisley_rpc_framework.Errors.{Thrown, rpc_timeout}
use weisley_rpc_framework.Protocol.Types.{
  Buffer, ping, json, Serializer, max_packet_length, RpcResponse, response,
}
use weisley_rpc_framework.Protocol.Codec.{
  new_codec, register_serializer, normalize_limit, register_all, RpcCodec,
}
use weisley_rpc_framework.Protocol.BufferQueue.{new_queue}
use weisley_rpc_framework.Client.ConnectionPool.{connected, closed_state}
use weisley_rpc_framework.Client.Connection.State.{
  RpcConnectionOptions, RpcConnection, new_connection, codec_options, initial,
}
use weisley_rpc_framework.Client.Connection.Requests.{
  send, timer_id, request_times_out, handle_response, send_on, answer_of,
}
use weisley_rpc_framework.Client.Connection.Lifecycle.{close}
use weisley_rpc_framework.Prelude.Dict
use weisley_rpc_framework.Client.Connection.Run
use weisley_rpc_framework.Client.Connection.Answers.{
  Meanwhile, handles, sends, goes_on, handle_response-send,
}
use weisley_rpc_framework.Client.Connection.Run.{
  Event, connects, closes, socket_connects, request_timer, reconnect_timer, on_event, run,
  socket_closes,
}
use weisley_rpc_framework.Client.Connection.Ledger.{settlements}
use weisley_rpc_framework.Client.Connection.Account.{settled_once}
use weisley_rpc_framework.Client.Connection.Closed.{close_stays, close-connects}

zeros : ℕ → Buffer
zeros n = replicate n 0

abbrev no_socket_destroyed : ℕ → Bool
no_socket_destroyed socket = false

abbrev plain_serializer : Serializer ℕ
plain_serializer = record {
  name = json;
  serialize = λ m. ok [];
  deserialize = λ b. ok (ping (record { id = ""; timestamp = 0 }));
}

abbrev options : RpcConnectionOptions ℕ
options = record {
  host = "127.0.0.1";
  port = 9000;
  timeout_ms = 300;
  serializer = some plain_serializer;
  compression = none;
  max_body_length = none;
  max_decompressed_body_length = none;
  heartbeat_interval_ms = none;
  heartbeat_timeout_ms = none;
  reconnect = none;
  reconnect_initial_delay_ms = none;
  reconnect_max_delay_ms = none;
}

abbrev plain_codec : RpcCodec ℕ
plain_codec = record {
  queue = new_queue;
  default_serializer = plain_serializer;
  serializers = register_serializer (λ _. none) plain_serializer;
  compression = none;
  max_body_length = max_packet_length;
  max_decompressed_body_length = max_packet_length;
}

abbrev new : RpcConnection ℕ
new = initial options plain_codec

made : new_connection plain_serializer options ≡ ok new
unfolding new_connection codec_options new_codec normalize_limit register_all
made = refl

-- It connects, a request is sent, and its timer fires.
abbrev two_calls : List Event
two_calls =
    connects no_socket_destroyed
    ∷ socket_connects 5 0
    ∷ Run.sends no_socket_destroyed "a" (1 ∷ [])
    ∷ Run.sends no_socket_destroyed "b" (2 ∷ [])
    ∷ request_timer 0
    ∷ []

two_calls_made : (run zeros new two_calls).calls ≡ 2
unfolding run timer_id
two_calls_made = refl

first_times_out : (run zeros new two_calls).settled ≡ (0, throws (rpc_timeout 300)) ∷ []
unfolding run timer_id
first_times_out = refl

settled_once_example :
    let c = run zeros new two_calls in
    ((id : String) × (timer_id c.timers 1 ≡ some id)
      × (settlements c.settled 1 ≡ 0)
      × (settlements (request_times_out 1 c).settled 1 ≡ 1))
    ⊎ ((timer_id c.timers 1 ≡ none) × (settlements c.settled 1 ≡ 1))
settled_once_example =
    settled_once plain_serializer options zeros new two_calls 1 made
      (let e = two_calls_made in omega arith)

-- No attempt to connect runs once the socket has connected.
no_attempt : (run zeros new two_calls).connection_promise ≡ none
unfolding run timer_id
no_attempt = refl

abbrev late : List Event
late = request_timer 1 ∷ reconnect_timer no_socket_destroyed ∷ socket_connects 9 0 ∷ []

close_stays_example :
    let c = run zeros (close (run zeros new two_calls)) late in
    IsClosed c
    × ((is_destroyed : ℕ → Bool) (id : String) (payload : Buffer)
        → (e : Thrown) × (send is_destroyed id payload c ≡ (c, throws e)))
close_stays_example =
    close_stays zeros plain_serializer options new two_calls late made no_attempt
      (tt, (tt, (tt, tt)))

abbrev connecting_now : RpcConnection ℕ
connecting_now = record new { connection_promise = some 0 }

close-connects_example :
    let d = on_event zeros (on_event zeros connecting_now closes) (socket_connects 9 0) in
    ((on_event zeros connecting_now closes).state ≡ closed_state)
    × (d.state ≡ connected)
    × (d.manually_closed ≡ true)
close-connects_example = close-connects zeros connecting_now 9 0 refl

-- The second request is answered before the first.
abbrev answer_to : String → RpcResponse ℕ
answer_to id = record { id = id; is_ok = true; result = some 7; error = none; metadata = none }

abbrev connected_now : RpcConnection ℕ
connected_now = record new { state = connected; socket = some 0 }

abbrev between : List (Meanwhile ℕ)
between = sends no_socket_destroyed "b" (2 ∷ []) ∷ handles 6 (response (answer_to "b")) ∷ []

handle_response-send_example :
    let before = goes_on (send no_socket_destroyed "a" (1 ∷ []) connected_now).0 between in
    ((handle_response (answer_to "a") before).settled ≡ before.settled ++ (0, ok (some 7)) ∷ [])
    × (Dict.get (handle_response (answer_to "a") before).pending "a" ≡ none)
unfolding send send_on answer_of
handle_response-send_example =
    handle_response-send no_socket_destroyed (1 ∷ []) connected_now 0 between (answer_to "a") refl
      (refl, (refl, tt))

-- The socket closes after it has connected.
abbrev until_lost : List Event
until_lost = connects no_socket_destroyed ∷ socket_connects 5 0 ∷ socket_closes ∷ []

lost_now : is_lost (run zeros (initial options plain_codec) until_lost) ≡ true
unfolding run is_lost
lost_now = refl

lost_tries_example : tries (run zeros (initial options plain_codec) until_lost) ≡ true
lost_tries_example = lost_tries zeros options plain_codec until_lost lost_now
