-- ===== src/Server/Handling/Active.antt =====
-- rpc-server.ts: the count of the active requests is the number of the tasks that work on one.
use weisley_rpc_framework.Prelude.{
  ℕ, ◌+◌, ◌<◌, ◌≤◌, ◌≡◌, inl, inr, suc, zero, refl, ap, ◌∙◌, Bool, true, some, List, [], ◌∷◌, ◌++◌,
  not, get_elem?, set, arith, Option-cases, Outcome-cases, if_both,
}
use weisley_rpc_framework.Protocol.Types.{Buffer, Serializer}
use weisley_rpc_framework.Protocol.Codec
use weisley_rpc_framework.Protocol.Codec.{RpcCodec, new_codec}
use weisley_rpc_framework.Server.ServiceRegistry.{ServiceRegistry}
use weisley_rpc_framework.Server.RpcServer.{
  RpcServer, drain_times_out, drained, remove_drain_resolver,
}
use weisley_rpc_framework.Server.RpcServer
use weisley_rpc_framework.Server.RpcServer.Drains.{
  has, IsValid, drain_times_out-IsValid, close-IsValid, new_server-IsValid, idle_drains,
}
use weisley_rpc_framework.Server.Handling.{Task, Turn, begin_chunk}
use weisley_rpc_framework.Server.Handling.Sockets.{
  Handling, new_handling, listen, close, close_connections, end_close, handle_connection,
  on_socket_close, codec_options, register_service,
}
use weisley_rpc_framework.Server.Handling.Run.{
  Event, registers, listens, closes, drain_ends, close_ends, times_out, connects, socket_closes,
  chunk_comes, invoked, written, begin_task, set_codec, resume, invoked_turn, written_turn, on_data,
  on_event, run,
}
use weisley_rpc_framework.Server.Handling.Turns.{
  working, working_tasks, Keeps, begin_chunk-Keeps, on_invoked-Keeps, on_written-Keeps,
}

close_active :
    (graceful : Bool) (s : RpcServer)
    → (RpcServer.close graceful s).active_requests ≡ s.active_requests
unfolding RpcServer.close RpcServer.wait_for_active_requests
close_active graceful s = ground arith

module _ {Value : Type 0} where
  working_tasks-snoc :
      (ts : List (Task Value)) (t : Task Value)
      → working_tasks (ts ++ t ∷ []) ≡ working_tasks ts + working t.stage
  unfolding working_tasks
  working_tasks-snoc [] t = omega arith
  working_tasks-snoc (s ∷ ts) t = let e = working_tasks-snoc ts t in omega arith

  working_tasks-set :
      (ts : List (Task Value)) (n : ℕ) (t t' : Task Value)
      → get_elem? ts n ≡ some t
      → working_tasks (set ts n t') + working t.stage ≡ working_tasks ts + working t'.stage
  unfolding working_tasks
  working_tasks-set [] n t t' e = ground arith
  working_tasks-set (s ∷ ts) zero t t' e =
      let q : s ≡ t = cc in let r = ap (λ x. working x.stage) q in omega arith
  working_tasks-set (s ∷ ts) (suc n) t t' e = let k = working_tasks-set ts n t t' e in omega arith

  working-get_elem? :
      (ts : List (Task Value)) (n : ℕ) (t : Task Value)
      → get_elem? ts n ≡ some t
      → working t.stage ≤ working_tasks ts
  unfolding working_tasks
  working-get_elem? [] n t e = ground arith
  working-get_elem? (s ∷ ts) zero t e =
      let q : s ≡ t = cc in let r = ap (λ x. working x.stage) q in omega arith
  working-get_elem? (s ∷ ts) (suc n) t e = let k = working-get_elem? ts n t e in omega arith

  -- The drains are accounted for, and the count is the tasks'.
  pub record IsCounted (h : Handling Value) : Type 0 where
    pub valid : IsValid h.server
    pub counted : h.server.active_requests ≡ working_tasks h.tasks

  begin_task-IsCounted :
      (socket : ℕ) (turn : Turn Value) (h : Handling Value)
      → IsCounted h
      → Keeps h.server 0 turn
      → IsCounted (begin_task socket turn h)
  unfolding begin_task
  begin_task-IsCounted socket turn h v k = record {
    valid = k.valid;
    counted =
        let e = working_tasks-snoc h.tasks (record { socket = socket; stage = turn.stage }) in
        let c = v.counted in let d = k.counted in omega arith;
  }

  resume-IsCounted :
      (n : ℕ) (turn_of : RpcCodec Value → Task Value → Turn Value) (h : Handling Value)
      → IsCounted h
      → ((codec : RpcCodec Value) (task : Task Value)
          → working task.stage ≤ h.server.active_requests
          → Keeps h.server (working task.stage) (turn_of codec task))
      → IsCounted (resume n turn_of h)
  unfolding resume
  resume-IsCounted n turn_of h v keeps = elim (Option-cases (get_elem? h.tasks n)) [
    | inl e ↦ rw (e, resume) v
    | inr (task, e) ↦ elim (Option-cases (h.codecs task.socket)) [
      | inl d ↦ rw (e, d, resume) v
      | inr (codec, d) ↦
          let t = turn_of codec task in
          let a =
            working_tasks-set h.tasks n task (record { socket = task.socket; stage = t.stage }) e in
          let c = v.counted in
          let k = keeps codec task (let le = working-get_elem? h.tasks n task e in omega arith) in
          rw (e, d, resume) (record { valid = k.valid; counted = let b = k.counted in omega arith })
    ]
  ]

  -- What leaves the count and the tasks as they are.
  keeps_tasks :
      (h : Handling Value) (server : RpcServer)
      → IsCounted h
      → IsValid server
      → server.active_requests ≡ h.server.active_requests
      → IsCounted (record h { server = server })
  keeps_tasks h server v valid e = record { valid = valid; counted = e ∙ v.counted }

  close-IsCounted :
      (graceful : Bool) (h : Handling Value) → IsCounted h → IsCounted (close graceful h)
  unfolding close
  close-IsCounted graceful h v =
      let c =
        keeps_tasks h (RpcServer.close graceful h.server) v
          (close-IsValid graceful h.server v.valid) (close_active graceful h.server) in
      if_both IsCounted (not h.server.has_server) h _ v
        (if_both IsCounted graceful _ _ c (record { valid = c.valid; counted = c.counted }))

  handle_connection-IsCounted :
      (json_serializer : Serializer Value) (socket : ℕ) (h : Handling Value)
      → IsCounted h
      → IsCounted (handle_connection json_serializer socket h)
  unfolding handle_connection
  handle_connection-IsCounted json_serializer socket h v =
      elim (Outcome-cases (new_codec json_serializer (codec_options h))) [
        | inl (codec, e) ↦
            rw (e, handle_connection) (record { valid = v.valid; counted = v.counted })
        | inr (err, e) ↦ rw (e, handle_connection) (record { valid = v.valid; counted = v.counted })
      ]

  on_data-IsCounted :
      (alloc_unsafe : ℕ → Buffer) (socket now : ℕ) (chunk : Buffer) (h : Handling Value)
      → IsCounted h
      → IsCounted (on_data alloc_unsafe socket now chunk h)
  unfolding on_data
  on_data-IsCounted alloc_unsafe socket now chunk h v = elim (Option-cases (h.codecs socket)) [
    | inl e ↦ rw (e, on_data) v
    | inr (codec, e) ↦ elim (Option-cases (Codec.push alloc_unsafe codec chunk)) [
      | inl d ↦ rw (e, d, on_data) v
      | inr ((codec', messages), d) ↦
          rw (e, d, on_data)
            (begin_task-IsCounted socket (begin_chunk codec' socket now h.server h.effects messages)
              (set_codec socket codec' h) (record { valid = v.valid; counted = v.counted })
              (begin_chunk-Keeps codec' socket now h.server h.effects messages v.valid))
    ]
  ]

  on_event-IsCounted :
      (alloc_unsafe : ℕ → Buffer) (json_serializer : Serializer Value) (h : Handling Value)
      (e : Event Value)
      → IsCounted h
      → IsCounted (on_event alloc_unsafe json_serializer h e)
  unfolding on_event register_service listen close_connections end_close drained on_socket_close
      RpcServer.listen drain_times_out remove_drain_resolver
  on_event-IsCounted a js h (registers service_name implementation) v = record {
    valid = v.valid;
    counted = v.counted;
  }
  on_event-IsCounted a js h (listens options) v = record {
    valid = record { accounted = v.valid.accounted; none_waits = v.valid.none_waits };
    counted = v.counted;
  }
  on_event-IsCounted a js h (closes graceful) v = close-IsCounted graceful h v
  on_event-IsCounted a js h drain_ends v = record { valid = v.valid; counted = v.counted }
  on_event-IsCounted a js h close_ends v = record {
    valid = record { accounted = v.valid.accounted; none_waits = v.valid.none_waits };
    counted = v.counted;
  }
  on_event-IsCounted a js h (times_out drain) v =
      keeps_tasks h (drain_times_out drain h.server) v
        (drain_times_out-IsValid drain h.server v.valid) refl
  on_event-IsCounted a js h (connects socket) v = handle_connection-IsCounted js socket h v
  on_event-IsCounted a js h (socket_closes socket) v = record {
    valid = v.valid;
    counted = v.counted;
  }
  on_event-IsCounted a js h (chunk_comes socket now chunk) v =
      on_data-IsCounted a socket now chunk h v
  on_event-IsCounted a js h (invoked n) v = resume-IsCounted n (invoked_turn h) h v (λ codec t le.
      on_invoked-Keeps codec t.socket h.registry h.server h.effects t.stage v.valid le)
  on_event-IsCounted a js h (written n now well) v =
      resume-IsCounted n (written_turn now well h) h v (λ codec t le.
        on_written-Keeps codec t.socket now well h.server h.effects t.stage v.valid le)

  run-IsCounted :
      (alloc_unsafe : ℕ → Buffer) (json_serializer : Serializer Value) (h : Handling Value)
      (es : List (Event Value))
      → IsCounted h
      → IsCounted (run alloc_unsafe json_serializer h es)
  unfolding run
  run-IsCounted a js h [] v = v
  run-IsCounted a js h (e ∷ es) v =
      run-IsCounted a js (on_event a js h e) es (on_event-IsCounted a js h e v)

  new_handling-IsCounted :
      (json_serializer : Serializer Value) (registry : ServiceRegistry Value)
      → IsCounted (new_handling json_serializer registry)
  unfolding new_handling working_tasks
  new_handling-IsCounted js registry = record { valid = new_server-IsValid; counted = refl }

  -- A new server with its services after the events.
  abbrev pub server_after :
      (ℕ → Buffer) → Serializer Value → ServiceRegistry Value → List (Event Value) → Handling Value
  server_after alloc_unsafe json_serializer registry es =
      run alloc_unsafe json_serializer (new_handling json_serializer registry) es

  -- Whatever has happened to a new server, in any order: the count of its active requests is the
  -- number of its tasks that wait for `invoke` or for the write of its response.
  pub active_requests-working_tasks :
      (alloc_unsafe : ℕ → Buffer) (json_serializer : Serializer Value)
      (registry : ServiceRegistry Value) (es : List (Event Value))
      → (server_after alloc_unsafe json_serializer registry es).server.active_requests
        ≡ working_tasks (server_after alloc_unsafe json_serializer registry es).tasks
  active_requests-working_tasks a js registry es =
      (run-IsCounted a js (new_handling js registry) es
        (new_handling-IsCounted js registry)).counted

  -- Whatever has happened to a new server: where none of its tasks waits for `invoke` or for the
  -- write of its response, no drain waits, and the promise of every drain that began is resolved.
  pub drains-working_tasks :
      (alloc_unsafe : ℕ → Buffer) (json_serializer : Serializer Value)
      (registry : ServiceRegistry Value) (es : List (Event Value))
      → working_tasks (server_after alloc_unsafe json_serializer registry es).tasks ≡ 0
      → ((server_after alloc_unsafe json_serializer registry es).server.drain_resolvers ≡ [])
        × ((n : ℕ)
            → n < (server_after alloc_unsafe json_serializer registry es).server.drains
            → has (server_after alloc_unsafe json_serializer registry es).server.resolved n ≡ true)
  drains-working_tasks a js registry es none_works =
      let v =
        run-IsCounted a js (new_handling js registry) es (new_handling-IsCounted js registry) in
      idle_drains (server_after a js registry es).server v.valid (v.counted ∙ none_works)
