-- ===== src/Server/Handling.antt =====
-- server/rpc-server.ts: handleConnection and its "data" listener, which is an async function: each
-- chunk begins a task that handles the chunk's messages one after another and stops at each `await`.
pub mod Sockets
pub mod Run
pub mod Turns
pub mod Active
pub mod Tests
use weisley_rpc_framework.Prelude.{
  ℕ, ◌+◌, Bool, true, false, Option, none, some, List, [], ◌∷◌, ◌++◌, ◌==◌, if◌then◌else◌, Outcome,
  ok, throws, length, get_elem?, set,
}
use weisley_rpc_framework.Protocol.Types.{
  Buffer, RpcRequest, RpcResponse, RpcMessage, request, response, ping, pong, Result, Serializer,
}
use weisley_rpc_framework.Protocol.Codec
use weisley_rpc_framework.Protocol.Codec.{RpcCodec, RpcCodecOptions, new_codec, encode}
use weisley_rpc_framework.Server.ServiceRegistry.{ServiceRegistry}
use weisley_rpc_framework.Server.MethodInvoker.{invoke}
use weisley_rpc_framework.Server.RpcServer.{
  RpcServer, draining_response, is_draining, begin_request, end_request,
}

-- What the code does to a socket.
pub data SocketEffect : Type 0 where
  wrote : (socket : ℕ) → Buffer → SocketEffect
  destroyed : (socket : ℕ) → SocketEffect

-- Where a task waits, with the messages that come after: for `invoke`, or for the write of a
-- response, or for that of a refusal.
pub data Stage (Value : Type 0) : Type 0 where
  finished : Stage Value
  invoking : RpcRequest Value → List (RpcMessage Value) → Stage Value
  answering refusing : List (RpcMessage Value) → Stage Value

pub record Task (Value : Type 0) : Type 0 where
  pub socket : ℕ
  pub stage : Stage Value

-- What a task has done when it stops.
pub record Turn (Value : Type 0) : Type 0 where
  pub server : RpcServer
  pub effects : List SocketEffect
  pub stage : Stage Value

module _ {Value : Type 0} where
  -- The `catch` block.
  abbrev pub destroy : ℕ → RpcServer → List SocketEffect → Turn Value
  destroy socket server effects = record {
    server = server;
    effects = effects ++ destroyed socket ∷ [];
    stage = finished;
  }

  -- The write of a message that `encode` gave, and where the task goes on; where `encode` throws, the
  -- socket is destroyed.
  unfoldable pub write :
      ℕ → Result Buffer → RpcServer → List SocketEffect → Stage Value → Turn Value
  write socket (throws e) server effects stage = destroy socket server effects
  write socket (ok payload) server effects stage = record {
    server = server;
    effects = effects ++ wrote socket payload ∷ [];
    stage = stage;
  }

  -- A request's turn up to its first `await`.
  unfoldable pub take_request :
      RpcCodec Value
      → ℕ
      → RpcServer
      → List SocketEffect
      → RpcRequest Value
      → List (RpcMessage Value)
      → Turn Value
  unfolding write begin_request draining_response
  take_request codec socket server effects m rest =
      let (server', invoked) = begin_request server in
      if invoked
      then record { server = server'; effects = effects; stage = invoking m rest }
      else write socket (encode codec (response (draining_response m))) server' effects
          (refusing rest)

  -- The `for` loop from a message on, up to an `await` or its end.
  unfoldable pub take_messages :
      RpcCodec Value → ℕ → ℕ → RpcServer → List SocketEffect → List (RpcMessage Value) → Turn Value
  unfolding take_request
  take_messages codec socket now server effects [] = record {
    server = server;
    effects = effects;
    stage = finished;
  }
  take_messages codec socket now server effects (request m ∷ rest) =
      take_request codec socket server effects m rest
  take_messages codec socket now server effects (ping m ∷ rest) =
      elim (encode codec (pong (record { id = m.id; timestamp = now }))) [
        | throws e ↦ destroy socket server effects
        | ok payload ↦
            take_messages codec socket now server (effects ++ wrote socket payload ∷ []) rest
      ]
  take_messages codec socket now server effects (response m ∷ rest) =
      take_messages codec socket now server effects rest
  take_messages codec socket now server effects (pong m ∷ rest) =
      take_messages codec socket now server effects rest

  -- The listener on a chunk, up to its first `await`, with the codec's result.
  unfoldable pub begin_chunk :
      RpcCodec Value
      → ℕ
      → ℕ
      → RpcServer
      → List SocketEffect
      → Result (List (RpcMessage Value))
      → Turn Value
  unfolding take_messages
  begin_chunk codec socket now server effects (throws e) = destroy socket server effects
  begin_chunk codec socket now server effects (ok messages) =
      take_messages codec socket now server effects messages

  -- `invoke` has answered: the response is written, or the `finally` and `catch` blocks run.
  unfoldable pub answer :
      RpcCodec Value
      → ℕ
      → ServiceRegistry Value
      → RpcServer
      → List SocketEffect
      → RpcRequest Value
      → List (RpcMessage Value)
      → Turn Value
  unfolding end_request
  answer codec socket registry server effects m rest =
      elim (encode codec (response (invoke registry m))) [
        | throws e ↦ destroy socket (end_request server) effects
        | ok payload ↦ record {
          server = server;
          effects = effects ++ wrote socket payload ∷ [];
          stage = answering rest;
        }
      ]

  -- A write has ended, well or not: the `finally` block of a request that was invoked, and the next
  -- messages, or the `catch` block.
  unfoldable pub after_write :
      RpcCodec Value
      → ℕ
      → ℕ
      → Bool
      → RpcServer
      → List SocketEffect
      → List (RpcMessage Value)
      → Turn Value
  unfolding take_messages
  after_write codec socket now true server effects rest =
      take_messages codec socket now server effects rest
  after_write codec socket now false server effects rest = destroy socket server effects

  -- A task goes on when `invoke` answers, and when its write ends; at another point nothing happens.
  unfoldable pub on_invoked :
      RpcCodec Value
      → ℕ
      → ServiceRegistry Value
      → RpcServer
      → List SocketEffect
      → Stage Value
      → Turn Value
  unfolding answer
  on_invoked codec socket registry server effects (invoking m rest) =
      answer codec socket registry server effects m rest
  on_invoked codec socket registry server effects stage = record {
    server = server;
    effects = effects;
    stage = stage;
  }

  unfoldable pub on_written :
      RpcCodec Value → ℕ → ℕ → Bool → RpcServer → List SocketEffect → Stage Value → Turn Value
  unfolding after_write end_request
  on_written codec socket now well server effects (answering rest) =
      after_write codec socket now well (end_request server) effects rest
  on_written codec socket now well server effects (refusing rest) =
      after_write codec socket now well server effects rest
  on_written codec socket now well server effects stage = record {
    server = server;
    effects = effects;
    stage = stage;
  }
