-- ===== src/Client/Connection/Settlement.antt =====
-- What starts and settles the calls of a connection keeps their account sound.
use weisley_rpc_framework.Prelude.{
  ℕ, ◌≡◌, refl, ap, subst, ◌∙◌, Bool, Option, none, some, String, List, [], ◌∷◌, Outcome, throws,
  eq_refl, arith, Bool-cases, Option-cases, inl, inr,
}
use weisley_rpc_framework.Prelude.Dict
use weisley_rpc_framework.Prelude.Dict.{Dict}
use weisley_rpc_framework.Errors.{Thrown, rpc_timeout}
use weisley_rpc_framework.Protocol.Types.{Buffer, RpcMessage, request, response, ping, pong}
use weisley_rpc_framework.Client.Connection.State.{PendingRequest, RpcConnection}
use weisley_rpc_framework.Client.Connection.Requests.{
  timer_id, settle, start_request, send_on, request_times_out, reject_each, reject_all,
  handle_response, handle_message, handle_messages, is_connected, answer_of,
}
use weisley_rpc_framework.Client.Connection.Ledger.{
  Waiting, Waiting-get, IsSound, IsSound-settle, IsSound-start,
}

abbrev pub Sound : {Value : Type 0} → RpcConnection Value → Type 0
Sound c = IsSound c.calls c.timers c.pending c.settled

-- The two connections have the same account of calls.
abbrev pub SameLedger : {Value : Type 0} → RpcConnection Value → RpcConnection Value → Type 0
SameLedger c d =
    (c.calls ≡ d.calls) × (c.timers ≡ d.timers) × (c.pending ≡ d.pending) × (c.settled ≡ d.settled)

get_head :
    (id : String) (p : PendingRequest) (m : Dict PendingRequest)
    → Dict.get ((id, p) ∷ m) id ≡ some p
unfolding Dict.get
get_head id p m = rw (eq_refl id)

delete_absent :
    (m : Dict PendingRequest) (id : String) → Dict.get m id ≡ none → Dict.delete m id ≡ m
unfolding Dict.get Dict.delete
delete_absent [] id h = refl
delete_absent ((j, p) ∷ m) id h = ground (arith, delete_absent m id)

delete_head :
    (id : String) (p : PendingRequest) (m : Dict PendingRequest)
    → Dict.get m id ≡ none
    → Dict.delete ((id, p) ∷ m) id ≡ m
unfolding Dict.delete
delete_head id p m h = rw (eq_refl id) (delete_absent m id h)

module _ {Value : Type 0} where
  pub Sound-SameLedger : (c d : RpcConnection Value) → SameLedger c d → Sound d → Sound c
  Sound-SameLedger c d (calls, timers, pending, settled) v = rw (calls, timers, pending, settled) v

  settle-Sound :
      (id : String) (p : PendingRequest) (o : Outcome Thrown (Option Value))
      (c : RpcConnection Value)
      → Dict.get c.pending id ≡ some p
      → Sound c
      → Sound (settle id p o c)
  unfolding settle
  settle-Sound id p o c there v =
      let (same, runs_on) = Waiting-get c.timers c.pending id p v.waiting there in
      rw same (IsSound-settle c.calls c.timers c.pending c.settled p.timer id o v runs_on)

  pending-settle :
      (id : String) (p : PendingRequest) (o : Outcome Thrown (Option Value))
      (c : RpcConnection Value)
      → (settle id p o c).pending ≡ Dict.delete c.pending id
  unfolding settle
  pending-settle id p o c = refl

  reject_each-Sound :
      (e : Thrown) (entries : Dict PendingRequest) (c : RpcConnection Value)
      → c.pending ≡ entries
      → Sound c
      → Sound (reject_each e entries c) × ((reject_each e entries c).pending ≡ [])
  unfolding reject_each
  reject_each-Sound e [] c h v = (v, h)
  reject_each-Sound e ((id, p) ∷ m) c h v =
      let w = subst (Waiting c.timers) h v.waiting in
      let there : Dict.get c.pending id ≡ some p = ap (λ d. Dict.get d id) h ∙ get_head id p m in
      reject_each-Sound e m (settle id p (throws e) c)
        (pending-settle id p (throws e) c ∙ ap (λ d. Dict.delete d id) h ∙ delete_head id p m w.0)
        (settle-Sound id p (throws e) c there v)

  pub reject_all-Sound :
      (e : Thrown) (c : RpcConnection Value)
      → Sound c
      → Sound (reject_all e c) × ((reject_all e c).pending ≡ [])
  unfolding reject_all
  reject_all-Sound e c v = reject_each-Sound e c.pending c refl v

  handle_message-Sound :
      (now : ℕ) (m : RpcMessage Value) (c : RpcConnection Value)
      → Sound c
      → Sound (handle_message now m c)
  unfolding handle_message handle_response
  handle_message-Sound now (request m) c v = v
  handle_message-Sound now (ping m) c v = v
  handle_message-Sound now (pong m) c v = record {
    running = v.running;
    finished = v.finished;
    future = v.future;
    waiting = v.waiting;
  }
  handle_message-Sound now (response r) c v = elim (Option-cases (Dict.get c.pending r.id)) [
    | inl e ↦ rw (e, handle_response) v
    | inr (p, e) ↦ rw (e, handle_response) (settle-Sound r.id p (answer_of r) c e v)
  ]

  pub handle_messages-Sound :
      (now : ℕ) (ms : List (RpcMessage Value)) (c : RpcConnection Value)
      → Sound c
      → Sound (handle_messages now ms c)
  unfolding handle_messages
  handle_messages-Sound now [] c v = v
  handle_messages-Sound now (m ∷ ms) c v =
      handle_messages-Sound now ms (handle_message now m c) (handle_message-Sound now m c v)

  pub request_times_out-Sound :
      (n : ℕ) (c : RpcConnection Value) → Sound c → Sound (request_times_out n c)
  unfolding request_times_out settle
  request_times_out-Sound n c v = elim (Option-cases (timer_id c.timers n)) [
    | inl e ↦ rw (e, request_times_out) v
    | inr (id, e) ↦
        rw (e, request_times_out)
          (IsSound-settle c.calls c.timers c.pending c.settled n id
            (throws (rpc_timeout c.options.timeout_ms)) v e)
  ]

  start_request-Sound :
      (socket : ℕ) (id : String) (payload : Buffer) (c : RpcConnection Value)
      → Sound c
      → Sound (start_request socket id payload c)
  unfolding start_request
  start_request-Sound socket id payload c v =
      IsSound-start c.calls c.timers c.pending c.settled id v

  pub send_on-Sound :
      (socket : Option ℕ) (is_destroyed : ℕ → Bool) (id : String) (payload : Buffer)
      (c : RpcConnection Value)
      → Sound c
      → Sound (send_on socket is_destroyed id payload c).0
  unfolding send_on
  send_on-Sound none is_destroyed id payload c v = v
  send_on-Sound (some socket) is_destroyed id payload c v =
      elim (Bool-cases (is_destroyed socket)) [
        | inl t ↦ rw t v
        | inr f ↦ elim (Bool-cases (is_connected c.state)) [
          | inl t ↦ rw (f, t) (start_request-Sound socket id payload c v)
          | inr g ↦ rw (f, g) v
        ]
      ]
