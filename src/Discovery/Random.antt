-- ===== src/Discovery/Random.antt =====
-- discovery/random-load-balancer.ts. `Math.random()` is r / 2 ^ 53 for an argument r below 2 ^ 53.
use native.Mathlib.Nat.{mul-le-mul_right}
use weisley_rpc_framework.Prelude.{
  ℕ, suc, ap, ◌∙◌, false, ◌*◌, ◌/◌, ◌^◌, ◌<◌, ◌≡◌, refl, ◌⊎◌, inl, inr, ◌∷◌, Option, some, String,
  List, [], length, get_elem?, get_elem?_lt, ◌==◌, Outcome, ok, throws, ◌>>◌, throw_if, arith,
}
use weisley_rpc_framework.Errors.{Thrown}
use weisley_rpc_framework.Discovery.Types.{Endpoint, no_endpoint}

unfoldable pub select : ℕ → String → List Endpoint → Outcome Thrown (Option Endpoint)
select r service_name endpoints = do
  throw_if (length endpoints == 0) (no_endpoint service_name)
  ok (get_elem? endpoints (r * length endpoints / 2 ^ 53))

select_some :
    (r : ℕ) (s : String) (e : Endpoint) (es : List Endpoint)
    → select r s (e ∷ es) ≡ ok (get_elem? (e ∷ es) (r * length (e ∷ es) / 2 ^ 53))
unfolding select
select_some r s e es =
    let some_there : (suc (length es) == 0) ≡ false = ground arith in rw some_there

-- Whatever the random number, an endpoint of the list is selected, unless the list is empty.
pub random_select_lem :
    (r : ℕ) (service_name : String) (endpoints : List Endpoint)
    → r < 2 ^ 53
    → ((endpoints ≡ []) × (select r service_name endpoints ≡ throws (no_endpoint service_name)))
      ⊎ ((i : ℕ) × (e : Endpoint) × (get_elem? endpoints i ≡ some e)
          × (select r service_name endpoints ≡ ok (some e)))
unfolding select
random_select_lem r s [] h = inl (refl, refl)
random_select_lem r s (e ∷ es) h =
    let i = r * length (e ∷ es) / 2 ^ 53 in
    let (d, found) =
      get_elem?_lt (e ∷ es) i (omega (arith, mul-le-mul_right (suc (length es)) h)) in
    inr (i, d, found, select_some r s e es ∙ ap ok found)
