-- ===== src/Server/Handling/Turns.antt =====
-- How a turn of a "data" listener's task in rpc-server.ts changes the count of the active requests.
use weisley_rpc_framework.Prelude.{
  ℕ, ◌+◌, ◌-◌, ◌≤◌, ◌≡◌, inl, inr, refl, Bool, true, false, List, [], ◌∷◌, ◌++◌, ok, throws, arith,
  Bool-cases, Outcome-cases,
}
use weisley_rpc_framework.Protocol.Types.{
  Buffer, RpcRequest, RpcMessage, request, response, ping, pong, Result,
}
use weisley_rpc_framework.Protocol.Codec.{RpcCodec, encode}
use weisley_rpc_framework.Server.ServiceRegistry.{ServiceRegistry}
use weisley_rpc_framework.Server.MethodInvoker.{invoke}
use weisley_rpc_framework.Server.RpcServer.{
  RpcServer, draining_response, is_draining, begin_request, end_request, resolve_drain_if_idle,
}
use weisley_rpc_framework.Server.RpcServer.Drains.{IsValid, end_request-IsValid}
use weisley_rpc_framework.Server.Handling.{
  SocketEffect, Stage, finished, invoking, answering, refusing, Task, Turn, wrote, destroy, write,
  take_request, take_messages, begin_chunk, answer, after_write, on_invoked, on_written,
}

resolve_drain_if_idle_active :
    (s : RpcServer) → (resolve_drain_if_idle s).active_requests ≡ s.active_requests
unfolding resolve_drain_if_idle
resolve_drain_if_idle_active s = ground arith

end_request_active : (s : RpcServer) → (end_request s).active_requests ≡ s.active_requests - 1
unfolding end_request
end_request_active s =
    resolve_drain_if_idle_active (record s { active_requests = s.active_requests - 1 })

module _ {Value : Type 0} where
  -- 1 for a task between the `+= 1` and the `-= 1` of a request.
  unfoldable pub working : Stage Value → ℕ
  working (invoking m rest) = 1
  working (answering rest) = 1
  working (refusing rest) = 0
  working finished = 0

  unfoldable pub working_tasks : List (Task Value) → ℕ
  unfolding working
  working_tasks [] = 0
  working_tasks (t ∷ ts) = working t.stage + working_tasks ts

  -- A turn of a task changes the count of the active requests by what the task's own work changes.
  pub record Keeps (server : RpcServer) (before : ℕ) (turn : Turn Value) : Type 0 where
    pub valid : IsValid turn.server
    pub counted : turn.server.active_requests + before ≡ server.active_requests + working turn.stage

  write-Keeps :
      (socket : ℕ) (payload : Result Buffer) (server : RpcServer) (effects : List SocketEffect)
      (stage : Stage Value)
      → IsValid server
      → working stage ≡ 0
      → Keeps server 0 (write socket payload server effects stage)
  unfolding write working
  write-Keeps socket (throws e) server effects stage v w = record { valid = v; counted = refl }
  write-Keeps socket (ok payload) server effects stage v w = record {
    valid = v;
    counted = omega arith;
  }

  take_request-Keeps :
      (codec : RpcCodec Value) (socket : ℕ) (server : RpcServer) (effects : List SocketEffect)
      (m : RpcRequest Value) (rest : List (RpcMessage Value))
      → IsValid server
      → Keeps server 0 (take_request codec socket server effects m rest)
  unfolding take_request begin_request working
  take_request-Keeps codec socket server effects m rest v =
      elim (Bool-cases (is_draining server.state)) [
        | inl t ↦ rw t (
            write-Keeps socket (encode codec (response (draining_response m))) server effects
              (refusing rest) v refl)
        | inr f ↦ rw f (record {
          valid = record { accounted = v.accounted; none_waits = λ z. omega arith };
          counted = omega arith;
        })
      ]

  pub take_messages-Keeps :
      (codec : RpcCodec Value) (socket now : ℕ) (server : RpcServer) (effects : List SocketEffect)
      (messages : List (RpcMessage Value))
      → IsValid server
      → Keeps server 0 (take_messages codec socket now server effects messages)
  unfolding take_messages working
  take_messages-Keeps codec socket now server effects [] v = record { valid = v; counted = refl }
  take_messages-Keeps codec socket now server effects (request m ∷ rest) v =
      take_request-Keeps codec socket server effects m rest v
  take_messages-Keeps codec socket now server effects (ping m ∷ rest) v =
      elim (Outcome-cases (encode codec (pong (record { id = m.id; timestamp = now })))) [
        | inl (payload, e) ↦
            rw (e, take_messages)
              (take_messages-Keeps codec socket now server (effects ++ wrote socket payload ∷ [])
                rest v)
        | inr (err, e) ↦ rw (e, take_messages) (record { valid = v; counted = refl })
      ]
  take_messages-Keeps codec socket now server effects (response m ∷ rest) v =
      take_messages-Keeps codec socket now server effects rest v
  take_messages-Keeps codec socket now server effects (pong m ∷ rest) v =
      take_messages-Keeps codec socket now server effects rest v

  pub begin_chunk-Keeps :
      (codec : RpcCodec Value) (socket now : ℕ) (server : RpcServer) (effects : List SocketEffect)
      (messages : Result (List (RpcMessage Value)))
      → IsValid server
      → Keeps server 0 (begin_chunk codec socket now server effects messages)
  unfolding begin_chunk working
  begin_chunk-Keeps codec socket now server effects (throws e) v = record {
    valid = v;
    counted = refl;
  }
  begin_chunk-Keeps codec socket now server effects (ok messages) v =
      take_messages-Keeps codec socket now server effects messages v

  -- The turn of a task whose request has ended.
  ends-Keeps :
      (server : RpcServer) (turn : Turn Value)
      → 1 ≤ server.active_requests
      → Keeps (end_request server) 0 turn
      → Keeps server 1 turn
  ends-Keeps server turn some_active k = record {
    valid = k.valid;
    counted = let e = k.counted in let a = end_request_active server in omega arith;
  }

  pub after_write-Keeps :
      (codec : RpcCodec Value) (socket now : ℕ) (well : Bool) (server : RpcServer)
      (effects : List SocketEffect) (rest : List (RpcMessage Value))
      → IsValid server
      → Keeps server 0 (after_write codec socket now well server effects rest)
  unfolding after_write working
  after_write-Keeps codec socket now true server effects rest v =
      take_messages-Keeps codec socket now server effects rest v
  after_write-Keeps codec socket now false server effects rest v = record {
    valid = v;
    counted = refl;
  }

  answer-Keeps :
      (codec : RpcCodec Value) (socket : ℕ) (registry : ServiceRegistry Value) (server : RpcServer)
      (effects : List SocketEffect) (m : RpcRequest Value) (rest : List (RpcMessage Value))
      → IsValid server
      → 1 ≤ server.active_requests
      → Keeps server 1 (answer codec socket registry server effects m rest)
  unfolding answer working
  answer-Keeps codec socket registry server effects m rest v some_active =
      elim (Outcome-cases (encode codec (response (invoke registry m)))) [
        | inl (payload, e) ↦ rw (e, answer) (record { valid = v; counted = refl })
        | inr (err, e) ↦
            rw (e, answer)
              (ends-Keeps server (destroy socket (end_request server) effects) some_active
                (record { valid = end_request-IsValid server v; counted = refl }))
      ]

  pub on_invoked-Keeps :
      (codec : RpcCodec Value) (socket : ℕ) (registry : ServiceRegistry Value) (server : RpcServer)
      (effects : List SocketEffect) (stage : Stage Value)
      → IsValid server
      → working stage ≤ server.active_requests
      → Keeps server (working stage) (on_invoked codec socket registry server effects stage)
  unfolding on_invoked working
  on_invoked-Keeps codec socket registry server effects (invoking m rest) v some_active =
      answer-Keeps codec socket registry server effects m rest v some_active
  on_invoked-Keeps codec socket registry server effects (answering rest) v some_active = record {
    valid = v;
    counted = refl;
  }
  on_invoked-Keeps codec socket registry server effects (refusing rest) v some_active = record {
    valid = v;
    counted = refl;
  }
  on_invoked-Keeps codec socket registry server effects finished v some_active = record {
    valid = v;
    counted = refl;
  }

  pub on_written-Keeps :
      (codec : RpcCodec Value) (socket now : ℕ) (well : Bool) (server : RpcServer)
      (effects : List SocketEffect) (stage : Stage Value)
      → IsValid server
      → working stage ≤ server.active_requests
      → Keeps server (working stage) (on_written codec socket now well server effects stage)
  unfolding on_written working
  on_written-Keeps codec socket now well server effects (answering rest) v some_active =
      ends-Keeps server (after_write codec socket now well (end_request server) effects rest)
        some_active
        (after_write-Keeps codec socket now well (end_request server) effects rest
          (end_request-IsValid server v))
  on_written-Keeps codec socket now well server effects (refusing rest) v some_active =
      after_write-Keeps codec socket now well server effects rest v
  on_written-Keeps codec socket now well server effects (invoking m rest) v some_active = record {
    valid = v;
    counted = refl;
  }
  on_written-Keeps codec socket now well server effects finished v some_active = record {
    valid = v;
    counted = refl;
  }
