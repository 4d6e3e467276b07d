-- ===== src/Client/Connection/Answers.antt =====
-- client/connection.ts: a response settles the promise of the request that has its id, whatever
-- other requests are sent and answered before.
use weisley_rpc_framework.Prelude.{
  ℕ, ◌≡◌, refl, subst, Bool, false, Option, none, some, String, List, [], ◌∷◌, ◌++◌, ok, str_eq,
  eq_refl, arith, Bool-cases, Option-cases, inl, inr,
}
use weisley_rpc_framework.Prelude.Dict
use weisley_rpc_framework.Protocol.Types.{
  Buffer, RpcResponse, RpcMessage, request, response, ping, pong,
}
use weisley_rpc_framework.Client.Connection.State.{RpcConnection}
use weisley_rpc_framework.Client.Connection.Requests.{
  is_connected, answer_of, settle, start_request, send_on, send, handle_response, handle_message,
}

-- What comes between a request and its response: a message is handled, or a request is sent.
pub data Meanwhile (Value : Type 0) : Type 0 where
  handles : (now : ℕ) → RpcMessage Value → Meanwhile Value
  sends : (is_destroyed : ℕ → Bool) → (id : String) → Buffer → Meanwhile Value

module _ {Value : Type 0} where
  unfoldable pub goes_on : RpcConnection Value → List (Meanwhile Value) → RpcConnection Value
  unfolding handle_message send
  goes_on c [] = c
  goes_on c (handles now m ∷ ms) = goes_on (handle_message now m c) ms
  goes_on c (sends is_destroyed id payload ∷ ms) = goes_on (send is_destroyed id payload c).0 ms

  -- None of them is a response or a request with the id.
  abbrev pub NoneHas : String → List (Meanwhile Value) → Type 0
  NoneHas id [] = Unit {0}
  NoneHas id (handles now (response r) ∷ ms) = (str_eq r.id id ≡ false) × NoneHas id ms
  NoneHas id (handles now m ∷ ms) = NoneHas id ms
  NoneHas id (sends is_destroyed other payload ∷ ms) = (str_eq other id ≡ false) × NoneHas id ms

  -- The request waits for its response.
  abbrev pub Waits : String → ℕ → RpcConnection Value → Type 0
  Waits id promise c = Dict.get c.pending id ≡ some (record { promise = promise; timer = promise })

  handle_response-Waits :
      (id : String) (promise : ℕ) (r : RpcResponse Value) (c : RpcConnection Value)
      → str_eq r.id id ≡ false
      → Waits id promise c
      → Waits id promise (handle_response r c)
  unfolding handle_response settle
  handle_response-Waits id promise r c other w = elim (Option-cases (Dict.get c.pending r.id)) [
    | inl e ↦ rw (e, handle_response) w
    | inr (p, e) ↦ rw (e, handle_response) (rw (Dict.get-delete, other) w)
  ]

  start_request-Waits :
      (id : String) (promise : ℕ) (socket : ℕ) (other : String) (payload : Buffer)
      (c : RpcConnection Value)
      → str_eq other id ≡ false
      → Waits id promise c
      → Waits id promise (start_request socket other payload c)
  unfolding start_request
  start_request-Waits id promise socket other payload c differs w = rw (Dict.get-set, differs) w

  send_on-Waits :
      (id : String) (promise : ℕ) (socket : Option ℕ) (is_destroyed : ℕ → Bool) (other : String)
      (payload : Buffer) (c : RpcConnection Value)
      → str_eq other id ≡ false
      → Waits id promise c
      → Waits id promise (send_on socket is_destroyed other payload c).0
  unfolding send_on
  send_on-Waits id promise none is_destroyed other payload c differs w = w
  send_on-Waits id promise (some socket) is_destroyed other payload c differs w =
      elim (Bool-cases (is_destroyed socket)) [
        | inl t ↦ rw (t, send_on) w
        | inr f ↦ elim (Bool-cases (is_connected c.state)) [
          | inl t ↦
              rw (f, t, send_on) (start_request-Waits id promise socket other payload c differs w)
          | inr g ↦ rw (f, g, send_on) w
        ]
      ]

  goes_on-Waits :
      (id : String) (promise : ℕ) (ms : List (Meanwhile Value)) (c : RpcConnection Value)
      → NoneHas id ms
      → Waits id promise c
      → Waits id promise (goes_on c ms)
  unfolding goes_on handle_message send
  goes_on-Waits id promise [] c none_has w = w
  goes_on-Waits id promise (handles now (request m) ∷ ms) c none_has w =
      goes_on-Waits id promise ms c none_has w
  goes_on-Waits id promise (handles now (ping m) ∷ ms) c none_has w =
      goes_on-Waits id promise ms c none_has w
  goes_on-Waits id promise (handles now (pong m) ∷ ms) c none_has w =
      goes_on-Waits id promise ms (record c { last_pong_at = now }) none_has w
  goes_on-Waits id promise (handles now (response r) ∷ ms) c (other, none_has) w =
      goes_on-Waits id promise ms (handle_response r c) none_has
        (handle_response-Waits id promise r c other w)
  goes_on-Waits id promise (sends is_destroyed other payload ∷ ms) c (differs, none_has) w =
      goes_on-Waits id promise ms (send is_destroyed other payload c).0 none_has
        (send_on-Waits id promise c.socket is_destroyed other payload c differs w)

  pub send_on-Waits_own :
      (socket : Option ℕ) (is_destroyed : ℕ → Bool) (id : String) (payload : Buffer)
      (c : RpcConnection Value) (promise : ℕ)
      → (send_on socket is_destroyed id payload c).1 ≡ ok promise
      → Waits id promise (send_on socket is_destroyed id payload c).0
  unfolding send_on start_request
  send_on-Waits_own none is_destroyed id payload c promise sent = cc
  send_on-Waits_own (some socket) is_destroyed id payload c promise sent =
      elim (Bool-cases (is_destroyed socket)) [
        | inl t ↦ cc
        | inr f ↦ elim (Bool-cases (is_connected c.state)) [
          | inl t ↦
              let own : Waits id c.calls (start_request socket id payload c) =
                Dict.get-set_self c.pending id (record { promise = c.calls; timer = c.calls }) in
              let same : c.calls ≡ promise = ground arith in
              rw (f, t, send_on)
                (subst (λ n. Waits id n (start_request socket id payload c)) same own)
          | inr g ↦ cc
        ]
      ]

  pub handle_response_settles :
      (r : RpcResponse Value) (promise : ℕ) (c : RpcConnection Value)
      → Waits r.id promise c
      → ((handle_response r c).settled ≡ c.settled ++ (promise, answer_of r) ∷ [])
        × (Dict.get (handle_response r c).pending r.id ≡ none)
  unfolding handle_response settle
  handle_response_settles r promise c w =
      rw (w, handle_response) (refl, rw (Dict.get-delete, eq_refl) refl)

  -- A request that is sent is answered by the response with its id, though requests with other ids
  -- are sent and answered in between, in any order: that response settles the promise of the
  -- request with its result or its error, once, and the request waits no longer.
  pub handle_response-send :
      (is_destroyed : ℕ → Bool) (payload : Buffer) (c : RpcConnection Value) (promise : ℕ)
      (between : List (Meanwhile Value)) (r : RpcResponse Value)
      → (send is_destroyed r.id payload c).1 ≡ ok promise
      → NoneHas r.id between
      → let before = goes_on (send is_destroyed r.id payload c).0 between in
        ((handle_response r before).settled ≡ before.settled ++ (promise, answer_of r) ∷ [])
        × (Dict.get (handle_response r before).pending r.id ≡ none)
  unfolding send
  handle_response-send is_destroyed payload c promise between r sent none_has =
      let before = goes_on (send is_destroyed r.id payload c).0 between in
      handle_response_settles r promise before (
        goes_on-Waits r.id promise between (send is_destroyed r.id payload c).0 none_has
          (send_on-Waits_own c.socket is_destroyed r.id payload c promise sent))
