-- ===== src/Client/Connection/Ledger.antt =====
-- The calls of a connection of client/connection.ts: which wait, and which are settled.
use weisley_rpc_framework.Prelude.{
  ℕ, ◌+◌, ◌≤◌, ◌<◌, ◌≡◌, refl, sym, ap, ◌∙◌, none, some, String, List, [], ◌∷◌, ◌++◌, ◌==◌,
  if◌then◌else◌, str_eq, eq_iff, eq_refl, arith, Bool-cases, inl, inr, Option-cases,
}
use weisley_rpc_framework.Prelude.Dict
use weisley_rpc_framework.Prelude.Dict.{Dict, dict_laws}
use weisley_rpc_framework.Client.Connection.State.{PendingRequest}
use weisley_rpc_framework.Client.Connection.Requests.{timer_id, clear_timer}

-- How often a promise was settled.
unfoldable pub settlements {ℓ} : {A : Type ℓ} → List (ℕ × A) → ℕ → ℕ
settlements [] n = 0
settlements ((m, a) ∷ l) n = (if m == n then 1 else 0) + settlements l n

pub settlements-append {ℓ} :
    {A : Type ℓ} (l : List (ℕ × A)) (m n : ℕ) (a : A)
    → settlements (l ++ (m, a) ∷ []) n ≡ settlements l n + (if m == n then 1 else 0)
unfolding settlements
settlements-append [] m n a = omega arith
settlements-append ((k, b) ∷ l) m n a = omega (arith, settlements-append l m n a)

pub timer_id-clear_timer :
    (ts : List (ℕ × String)) (n k : ℕ)
    → timer_id (clear_timer n ts) k ≡ (if n == k then none else timer_id ts k)
unfolding timer_id clear_timer
timer_id-clear_timer [] n k = ground arith
timer_id-clear_timer ((t, id) ∷ ts) n k = ground (arith, timer_id-clear_timer ts n k)

-- The entries of `pending` have different ids, and each one's timer runs and settles its promise.
abbrev pub Waiting : List (ℕ × String) → Dict PendingRequest → Type 0
Waiting ts [] = Unit {0}
Waiting ts ((id, p) ∷ m) =
    (Dict.get m id ≡ none) × (p.promise ≡ p.timer) × (timer_id ts p.timer ≡ some id) × Waiting ts m

pub Waiting-get :
    (ts : List (ℕ × String)) (m : Dict PendingRequest) (id : String) (p : PendingRequest)
    → Waiting ts m
    → Dict.get m id ≡ some p
    → (p.promise ≡ p.timer) × (timer_id ts p.timer ≡ some id)
unfolding Dict.get
Waiting-get ts [] id p w h = cc
Waiting-get ts ((j, q) ∷ m) id p w h = ground (arith, eq_iff j id, Waiting-get ts m id p w.3)

pub Waiting-delete :
    (ts : List (ℕ × String)) (m : Dict PendingRequest) (k : String)
    → Waiting ts m
    → Waiting ts (Dict.delete m k)
unfolding Dict.delete
Waiting-delete ts [] k w = tt
Waiting-delete ts ((j, q) ∷ m) k w = elim (Bool-cases (str_eq j k)) [
  | inl t ↦ rw t (Waiting-delete ts m k w.3)
  | inr f ↦ rw f (ground (arith, Dict.get-delete m k j), w.1, w.2, Waiting-delete ts m k w.3)
]

pub Waiting-clear_timer :
    (ts : List (ℕ × String)) (m : Dict PendingRequest) (t : ℕ) (id : String)
    → Waiting ts m
    → timer_id ts t ≡ some id
    → Dict.get m id ≡ none
    → Waiting (clear_timer t ts) m
unfolding Dict.get
Waiting-clear_timer ts [] t id w h absent = tt
Waiting-clear_timer ts ((j, q) ∷ m) t id w h absent = (
  w.0,
  w.1,
  ground (arith, timer_id-clear_timer ts t q.timer, eq_iff j id),
  Waiting-clear_timer ts m t id w.3 h (ground (arith, eq_iff j id)),
)

-- A timer that starts disturbs no entry.
pub Waiting-cons :
    (ts : List (ℕ × String)) (m : Dict PendingRequest) (n : ℕ) (id : String)
    → Waiting ts m
    → timer_id ts n ≡ none
    → Waiting ((n, id) ∷ ts) m
unfolding timer_id
Waiting-cons ts [] n id w h = tt
Waiting-cons ts ((j, q) ∷ m) n id w h = (w.0, w.1, ground arith, Waiting-cons ts m n id w.3 h)

pub Waiting-set :
    (ts : List (ℕ × String)) (m : Dict PendingRequest) (n : ℕ) (id : String)
    → Waiting ts m
    → timer_id ts n ≡ none
    → Waiting ((n, id) ∷ ts) (Dict.set m id (record { promise = n; timer = n }))
unfolding timer_id Dict.set Dict.get
Waiting-set ts [] n id w h = (refl, refl, ground arith, tt)
Waiting-set ts ((j, q) ∷ m) n id w h = elim (Bool-cases (str_eq j id)) [
  | inl t ↦ rw t (
    ap (Dict.get m) (sym ((eq_iff j id).0 t)) ∙ w.0,
    refl,
    ground arith,
    Waiting-cons ts m n id w.3 h,
  )
  | inr f ↦ rw f (
    ground
        (arith, Dict.get-set m id j (record { promise = n; timer = n }), eq_iff j id, eq_iff id j),
    w.1,
    ground arith,
    Waiting-set ts m n id w.3 h,
  )
]

-- Every call either waits, and then its timer runs, or was settled, and then once.
pub record IsSound {A : Type 0} (calls : ℕ) (timers : List (ℕ × String))
    (pending : Dict PendingRequest) (settled : List (ℕ × A)) : Type 0 where
  pub running :
      (n : ℕ) (id : String)
      → timer_id timers n ≡ some id
      → (n < calls) × (settlements settled n ≡ 0)
  pub finished : (n : ℕ) → n < calls → timer_id timers n ≡ none → settlements settled n ≡ 1
  pub future : (n : ℕ) → calls ≤ n → settlements settled n ≡ 0
  pub waiting : Waiting timers pending

pub IsSound-settle :
    {A : Type 0} (calls : ℕ) (timers : List (ℕ × String)) (pending : Dict PendingRequest)
    (settled : List (ℕ × A)) (t : ℕ) (id : String) (a : A)
    → IsSound calls timers pending settled
    → timer_id timers t ≡ some id
    → IsSound calls (clear_timer t timers) (Dict.delete pending id) (settled ++ (t, a) ∷ [])
IsSound-settle calls timers pending settled t id a v h = record {
  running = λ n id' r.
      let c = timer_id-clear_timer timers t n in
      let s = settlements-append settled t n a in let old = v.running n id' in ground arith;
  finished = λ n lt r.
      let c = timer_id-clear_timer timers t n in
      let s = settlements-append settled t n a in
      let old = v.running n id in let gone = v.finished n lt in ground arith;
  future = λ n ge.
      let s = settlements-append settled t n a in
      let old = v.running t id h in let new = v.future n ge in ground arith;
  waiting =
      Waiting-clear_timer timers (Dict.delete pending id) t id
        (Waiting-delete timers pending id v.waiting) h
        (ground (arith, Dict.get-delete pending id id, eq_refl id));
}

fresh_timer :
    {A : Type 0} (calls : ℕ) (timers : List (ℕ × String)) (pending : Dict PendingRequest)
    (settled : List (ℕ × A))
    → IsSound calls timers pending settled
    → timer_id timers calls ≡ none
fresh_timer calls timers pending settled v = elim (Option-cases (timer_id timers calls)) [
  | inl e ↦ e
  | inr (id, e) ↦ absurd (let (lt, _) = v.running calls id e in omega arith)
]

pub IsSound-start :
    {A : Type 0} (calls : ℕ) (timers : List (ℕ × String)) (pending : Dict PendingRequest)
    (settled : List (ℕ × A)) (id : String)
    → IsSound calls timers pending settled
    → IsSound
        (calls + 1)
        ((calls, id) ∷ timers)
        (Dict.set pending id (record { promise = calls; timer = calls }))
        settled
unfolding timer_id
IsSound-start calls timers pending settled id v = record {
  running = λ n id' r. let old = v.running n id' in let new = v.future n in ground arith;
  finished = λ n lt r. let old = v.finished n in ground arith;
  future = λ n ge. v.future n (omega arith);
  waiting =
      Waiting-set timers pending calls id v.waiting (fresh_timer calls timers pending settled v);
}
