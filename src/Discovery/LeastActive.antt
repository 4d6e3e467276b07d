-- ===== src/Discovery/LeastActive.antt =====
-- discovery/least-active-load-balancer.ts.
use weisley_rpc_framework.Prelude.{
  ℕ, ◌≤◌, ◌<◌, ◌≡◌, refl, ◌⊎◌, true, false, inl, inr, Bool-cases, String, List, [], ◌∷◌, ltb,
  ltb→lt, ltb→le, Outcome, ok, throws, ◌or_else◌, if◌then◌else◌, arith, str_eq,
}
use weisley_rpc_framework.Prelude.Dict
use weisley_rpc_framework.Prelude.Dict.{Dict, dict_laws, get-set}
use weisley_rpc_framework.Prelude.Number.{Number, is_finite, floor_at_least}
use weisley_rpc_framework.Prelude.Text.{◌<>◌, decimal}
use weisley_rpc_framework.Errors.{Thrown}
use weisley_rpc_framework.Discovery.Types.{Endpoint, no_endpoint}

pub record LeastActiveLoadBalancer : Type 0 where
  pub active_counts : Dict ℕ

unfoldable pub get_endpoint_key : Endpoint → String
unfolding decimal
get_endpoint_key endpoint = endpoint.host <> ":" <> decimal endpoint.port

unfoldable pub get_active_count : LeastActiveLoadBalancer → Endpoint → ℕ
get_active_count b endpoint = Dict.get b.active_counts (get_endpoint_key endpoint) or_else 0

unfoldable pub set_active_count :
    LeastActiveLoadBalancer → Endpoint → Number → LeastActiveLoadBalancer
set_active_count b endpoint count =
    let normalized_count = if is_finite count then floor_at_least 0 count else 0 in
    record { active_counts = Dict.set b.active_counts (get_endpoint_key endpoint) normalized_count }

-- The loop over the endpoints after the first.
unfoldable pub select_from : LeastActiveLoadBalancer → List Endpoint → Endpoint → ℕ → Endpoint
select_from b [] selected selected_active_count = selected
select_from b (e ∷ es) selected selected_active_count =
    let active_count = get_active_count b e in
    let take_it = ltb active_count selected_active_count in
    select_from b es (if take_it then e else selected)
      (if take_it then active_count else selected_active_count)

unfoldable pub select : LeastActiveLoadBalancer → String → List Endpoint → Outcome Thrown Endpoint
select b service_name [] = throws (no_endpoint service_name)
select b service_name (e ∷ es) = ok (select_from b es e (get_active_count b e))

abbrev pub AllAtLeast : LeastActiveLoadBalancer → ℕ → List Endpoint → Type 0
AllAtLeast b n [] = Unit {0}
AllAtLeast b n (e ∷ es) = (n ≤ get_active_count b e) × AllAtLeast b n es

-- The endpoint at some place of a list: all before it have more active calls, and none after it
-- has fewer.
pub data IsFirstLeast (b : LeastActiveLoadBalancer) (e : Endpoint) : List Endpoint → Type 0 where
  here : {es : List Endpoint} → AllAtLeast b (get_active_count b e) es → IsFirstLeast b e (e ∷ es)
  there :
      {d : Endpoint} {es : List Endpoint}
      → get_active_count b e < get_active_count b d
      → IsFirstLeast b e es
      → IsFirstLeast b e (d ∷ es)

select_from_fewer :
    (b : LeastActiveLoadBalancer) (d e : Endpoint) (es : List Endpoint)
    → ltb (get_active_count b d) (get_active_count b e) ≡ true
    → select_from b (d ∷ es) e (get_active_count b e) ≡ select_from b es d (get_active_count b d)
unfolding select_from
select_from_fewer b d e es fewer = rw fewer

select_from_more :
    (b : LeastActiveLoadBalancer) (d e : Endpoint) (es : List Endpoint)
    → ltb (get_active_count b d) (get_active_count b e) ≡ false
    → select_from b (d ∷ es) e (get_active_count b e) ≡ select_from b es e (get_active_count b e)
unfolding select_from
select_from_more b d e es more = rw more

-- The loop keeps its endpoint if none of the rest has fewer calls, and else finds the first least.
select_from_lem :
    (b : LeastActiveLoadBalancer) (es : List Endpoint) (e : Endpoint)
    → (AllAtLeast b (get_active_count b e) es × (select_from b es e (get_active_count b e) ≡ e))
      ⊎ ((get_active_count b (select_from b es e (get_active_count b e)) < get_active_count b e)
          × IsFirstLeast b (select_from b es e (get_active_count b e)) es)
select_from_lem b [] e = inl (tt, unfold select_from in refl)
select_from_lem b (d ∷ es) e =
    elim (Bool-cases (ltb (get_active_count b d) (get_active_count b e))) [
      | inl fewer ↦
          let lt = ltb→lt (get_active_count b d) (get_active_count b e) fewer in
          rw (select_from_fewer b d e es fewer) (
            inr (elim (select_from_lem b es d) [
              | inl (all, same) ↦ rw same (lt, here all)
              | inr (less, first) ↦ (omega (arith, lt, less), there less first)
            ]))
      | inr more ↦
          let le = ltb→le (get_active_count b d) (get_active_count b e) more in
          rw (select_from_more b d e es more) (elim (select_from_lem b es e) [
            | inl (all, same) ↦ inl ((le, all), same)
            | inr (less, first) ↦ inr (less, there (omega (arith, le, less)) first)
          ])
    ]

-- `select` refuses an empty list, and else returns the first endpoint with the least active count.
pub select-IsFirstLeast :
    (b : LeastActiveLoadBalancer) (service_name : String) (endpoints : List Endpoint)
    → ((endpoints ≡ []) × (select b service_name endpoints ≡ throws (no_endpoint service_name)))
      ⊎ ((e : Endpoint) × (select b service_name endpoints ≡ ok e) × IsFirstLeast b e endpoints)
select-IsFirstLeast b s [] = inl (refl, unfold select in refl)
select-IsFirstLeast b s (e ∷ es) = inr (
  select_from b es e (get_active_count b e),
  unfold select in refl,
  elim (select_from_lem b es e) [
    | inl (all, same) ↦ rw same (here all)
    | inr (less, first) ↦ there less first
  ],
)

-- A count that is set is read back as a whole number that is not negative, for every endpoint with
-- the same key and for no other.
pub get_active_count-set_active_count :
    (b : LeastActiveLoadBalancer) (e d : Endpoint) (count : Number)
    → get_active_count (set_active_count b e count) d ≡ (
        if str_eq (get_endpoint_key e) (get_endpoint_key d)
        then (if is_finite count then floor_at_least 0 count else 0)
        else get_active_count b d)
unfolding get_active_count set_active_count
get_active_count-set_active_count b e d count = simp dict_laws (ground arith)
