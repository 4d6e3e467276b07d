-- ===== src/Discovery/Turns.antt =====
-- What the two cursor balancers share: each selection takes the element at the service's cursor of a
-- pool that the endpoints determine, and moves that cursor on.
use weisley_rpc_framework.Prelude.{
  ℕ, suc, zero, ◌+◌, ◌%◌, ◌≡◌, ◌≢◌, refl, ap, ◌∙◌, Option, some, String, List, [], ◌∷◌, map, length,
  get_elem?, Outcome, ok, ◌>>=◌, if◌then◌else◌, Bool, true, false, arith, eq_refl, eq_iff, str_eq,
}
use weisley_rpc_framework.Errors.{Thrown}
use weisley_rpc_framework.Discovery.Cycle.{picks, turned, picks_cycle}
use weisley_rpc_framework.Discovery.Types.{Endpoint}

-- A balancer with a cursor for each service, and how a selection uses it.
pub record CursorBalancer : Type 1 where
  pub Balancer : Type 0
  pub select : Balancer → String → List Endpoint → Outcome Thrown (Balancer × Option Endpoint)
  pub cursor_of : Balancer → String → ℕ
  pub pool : List Endpoint → List Endpoint
  pub after : Balancer → String → Balancer
  pub selects :
      (b : Balancer) (s : String) (endpoints : List Endpoint)
      → endpoints ≢ []
      → select b s endpoints
        ≡ ok (after b s, get_elem? (pool endpoints) (cursor_of b s % length (pool endpoints)))
  pub advances :
      (b : Balancer) (s t : String)
      → cursor_of (after b s) t ≡ (if str_eq s t then cursor_of b s + 1 else cursor_of b t)

advanced :
    (same : Bool) (c k d : ℕ)
    → (if same then c + 1 + k else if same then c + 1 else d) ≡ (if same then c + suc k else d)
advanced true c k d = omega arith
advanced false c k d = refl

module _ (l : CursorBalancer) where
  open l use {Balancer, select, cursor_of, pool, after, selects, advances}

  -- Selections in a row for one service.
  unfoldable pub turns :
      ℕ → Balancer → String → List Endpoint → Outcome Thrown (Balancer × List (Option Endpoint))
  turns zero b s endpoints = ok (b, [])
  turns (suc k) b s endpoints = do
    first ← select b s endpoints
    more ← turns k first.0 s endpoints
    ok (more.0, first.1 ∷ more.1)

  -- k selections for a service give the pool's elements from its cursor on, move that cursor by k,
  -- and leave the cursors of all other services.
  pub turns_lem :
      (k : ℕ) (b : Balancer) (s : String) (endpoints : List Endpoint)
      → endpoints ≢ []
      → (b' : Balancer) × (turns k b s endpoints
          ≡ ok (b', picks (pool endpoints) (cursor_of b s) k))
        × ((t : String)
            → cursor_of b' t ≡ (if str_eq s t then cursor_of b s + k else cursor_of b t))
  unfolding turns
  turns_lem zero b s endpoints h = (b, refl, λ t. unchanged t)
    where
      unchanged :
          (t : String) → cursor_of b t ≡ (if str_eq s t then cursor_of b s + 0 else cursor_of b t)
      unchanged t = ground (arith, eq_iff s t)
  turns_lem (suc k) b s endpoints h =
      let next = after b s in
      let here : cursor_of next s ≡ cursor_of b s + 1 = advances b s s ∙ simp eq_refl in
      let (b', run, moved) = turns_lem k next s endpoints h in
      (
        b',
        rw (selects b s endpoints h)
            (rw (run ∙ ap (λ c. ok (b', picks (pool endpoints) c k)) here)),
        λ t.
            moved t
            ∙ rw (here, advances b s t) (advanced (str_eq s t) (cursor_of b s) k (cursor_of b t)),
      )

  -- In as many selections for a service as its pool has elements, each place of the pool is selected
  -- once, in the pool's order from the cursor on, and no other service's cursor moves.
  pub turns_round :
      (b : Balancer) (s : String) (endpoints : List Endpoint)
      → endpoints ≢ []
      → pool endpoints ≢ []
      → let n = length (pool endpoints) in
        (b' : Balancer) × (turns n b s endpoints
          ≡ ok (b', map some (turned (cursor_of b s % n) (pool endpoints))))
        × ((t : String) → s ≢ t → cursor_of b' t ≡ cursor_of b t)
  turns_round b s endpoints h k =
      let (b', run, moved) = turns_lem (length (pool endpoints)) b s endpoints h in
      (
        b',
        run ∙ ap (λ ps. ok (b', ps)) (picks_cycle (pool endpoints) (cursor_of b s) k),
        λ t d. moved t ∙ ground (arith, eq_iff s t),
      )
