-- ===== src/Server/RpcServer/Drains.antt =====
-- The drains of rpc-server.ts: none waits once no request is active.
use weisley_rpc_framework.Prelude.{
  ℕ, ◌+◌, ◌-◌, ◌<◌, ◌≡◌, ◌⊎◌, inl, inr, refl, sym, ap, ◌∙◌, Bool, true, false, ◌||◌, List, [], ◌∷◌,
  ◌++◌, if◌then◌else◌, ◌==◌, arith, Bool-cases,
}
use weisley_rpc_framework.Server.RpcServer.{
  RpcServer, Callback, resolve_of, resolver_of, draining, closed_state, drain_of, same_callback,
  new_server, call_all, without, remove_drain_resolver, resolve_drain_if_idle,
  wait_for_active_requests, drain_times_out, close, is_draining, begin_request, end_request,
}

unfoldable pub has : List ℕ → ℕ → Bool
has [] n = false
has (m ∷ ms) n = m == n || has ms n

-- The n-th drain's `resolver` waits in the list.
unfoldable pub waits : List Callback → ℕ → Bool
waits [] n = false
waits (c ∷ cs) n = same_callback c (resolver_of n) || waits cs n

has-append : (ms ns : List ℕ) (n : ℕ) → has (ms ++ ns) n ≡ (has ms n || has ns n)
unfolding has
has-append [] ns n = refl
has-append (m ∷ ms) ns n = let e = has-append ms ns n in ground arith

waits-append : (cs ds : List Callback) (n : ℕ) → waits (cs ++ ds) n ≡ (waits cs n || waits ds n)
unfolding waits
waits-append [] ds n = refl
waits-append (c ∷ cs) ds n = let e = waits-append cs ds n in ground arith

has_snoc :
    (ms : List ℕ) (m n : ℕ) → ((m == n) ≡ true) ⊎ (has ms n ≡ true) → has (ms ++ m ∷ []) n ≡ true
unfolding has
has_snoc ms m n (inl e) = let a = has-append ms (m ∷ []) n in ground arith
has_snoc ms m n (inr h) = let a = has-append ms (m ∷ []) n in ground arith

waits_snoc :
    (cs : List Callback) (m n : ℕ)
    → ((m == n) ≡ true) ⊎ (waits cs n ≡ true)
    → waits (cs ++ resolver_of m ∷ []) n ≡ true
unfolding waits
waits_snoc cs m n (inl e) = let a = waits-append cs (resolver_of m ∷ []) n in ground arith
waits_snoc cs m n (inr h) = let a = waits-append cs (resolver_of m ∷ []) n in ground arith

-- A drain below m + 1 is the m-th or below m.
below_suc : (m n : ℕ) → n < m + 1 → ((m == n) ≡ true) ⊎ (n < m)
below_suc m n h = elim (Bool-cases (m == n)) [ inl e ↦ inl e | inr d ↦ inr (ground arith) ]

has-call_all_old :
    (cs : List Callback) (ms : List ℕ) (n : ℕ) → has ms n ≡ true → has (call_all cs ms) n ≡ true
unfolding call_all has
has-call_all_old [] ms n h = h
has-call_all_old (c ∷ cs) ms n h =
    has-call_all_old cs (ms ++ drain_of c ∷ []) n
      (let e = has-append ms (drain_of c ∷ []) n in ground arith)

has-call_all :
    (cs : List Callback) (ms : List ℕ) (n : ℕ) → waits cs n ≡ true → has (call_all cs ms) n ≡ true
unfolding call_all waits has
has-call_all [] ms n h = cc
has-call_all (resolve_of k ∷ cs) ms n h = has-call_all cs (ms ++ k ∷ []) n (ground arith)
has-call_all (resolver_of k ∷ cs) ms n h = elim (Bool-cases (waits cs n)) [
  | inl later ↦ has-call_all cs (ms ++ k ∷ []) n later
  | inr not_later ↦
      has-call_all_old cs (ms ++ k ∷ []) n (let e = has-append ms (k ∷ []) n in ground arith)
]

-- A drain's promise is in no list under the name of its `resolve`, so nothing is taken out.
waits-without : (m n : ℕ) (cs : List Callback) → waits (without (resolve_of m) cs) n ≡ waits cs n
unfolding waits without
waits-without m n [] = refl
waits-without m n (resolve_of k ∷ cs) = let e = waits-without m n cs in ground arith
waits-without m n (resolver_of k ∷ cs) = let e = waits-without m n cs in ground arith

-- Every drain that began waits or is resolved.
abbrev pub Accounted : RpcServer → Type 0
Accounted s =
    (n : ℕ) → n < s.drains → (waits s.drain_resolvers n ≡ true) ⊎ (has s.resolved n ≡ true)

-- And where no request is active none waits.
pub record IsValid (s : RpcServer) : Type 0 where
  pub accounted : Accounted s
  pub none_waits : s.active_requests ≡ 0 → s.drain_resolvers ≡ []

resolve_drain_if_idle-IsValid : (s : RpcServer) → Accounted s → IsValid (resolve_drain_if_idle s)
unfolding resolve_drain_if_idle
resolve_drain_if_idle-IsValid s a = elim (Bool-cases (s.active_requests == 0)) [
  | inl t ↦ rw t (record {
    accounted = λ n lt. inr (elim (a n lt) [
      | inl w ↦ has-call_all s.drain_resolvers s.resolved n w
      | inr r ↦ has-call_all_old s.drain_resolvers s.resolved n r
    ]);
    none_waits = λ _. refl;
  })
  | inr f ↦ rw f (record { accounted = a; none_waits = λ z. ground arith })
]

pub end_request-IsValid : (s : RpcServer) → IsValid s → IsValid (end_request s)
unfolding end_request
end_request-IsValid s v =
    resolve_drain_if_idle-IsValid (record s { active_requests = s.active_requests - 1 }) v.accounted

pub begin_request-IsValid : (s : RpcServer) → IsValid s → IsValid (begin_request s).0
unfolding begin_request
begin_request-IsValid s v = elim (Bool-cases (is_draining s.state)) [
  | inl t ↦ rw t (record { accounted = v.accounted; none_waits = v.none_waits })
  | inr f ↦ rw f (record { accounted = v.accounted; none_waits = λ z. omega arith })
]

wait_for_active_requests-IsValid :
    (s : RpcServer) → IsValid s → IsValid (wait_for_active_requests s)
unfolding wait_for_active_requests
wait_for_active_requests-IsValid s v = elim (Bool-cases (s.active_requests == 0)) [
  | inl t ↦ rw t (record {
    accounted = λ n lt. elim (below_suc s.drains n lt) [
      | inl e ↦ inr (has_snoc s.resolved s.drains n (inl e))
      | inr lt' ↦ elim (v.accounted n lt') [
        | inl w ↦ inl w
        | inr r ↦ inr (has_snoc s.resolved s.drains n (inr r))
      ]
    ];
    none_waits = v.none_waits;
  })
  | inr f ↦ rw f (record {
    accounted = λ n lt. elim (below_suc s.drains n lt) [
      | inl e ↦ inl (waits_snoc s.drain_resolvers s.drains n (inl e))
      | inr lt' ↦ elim (v.accounted n lt') [
        | inl w ↦ inl (waits_snoc s.drain_resolvers s.drains n (inr w))
        | inr r ↦ inr r
      ]
    ];
    none_waits = λ z. ground arith;
  })
]

pub drain_times_out-IsValid : (m : ℕ) (s : RpcServer) → IsValid s → IsValid (drain_times_out m s)
unfolding drain_times_out remove_drain_resolver without
drain_times_out-IsValid m s v = record {
  accounted = λ n lt. elim (v.accounted n lt) [
    | inl w ↦ inl (waits-without m n s.drain_resolvers ∙ w)
    | inr r ↦ inr (has_snoc s.resolved m n (inr r))
  ];
  none_waits = λ z. ap (without (resolve_of m)) (v.none_waits z);
}

pub close-IsValid : (graceful : Bool) (s : RpcServer) → IsValid s → IsValid (close graceful s)
unfolding close
close-IsValid graceful s v = elim (Bool-cases s.has_server) [
  | inr f ↦ rw f (record { accounted = v.accounted; none_waits = v.none_waits })
  | inl t ↦ rw t (close_open graceful)
]
  where
    close_open :
        (g : Bool)
        → IsValid (
            if g
            then wait_for_active_requests (record s { has_server = false; state = draining })
            else record s { has_server = false; state = closed_state })
    close_open true =
        wait_for_active_requests-IsValid (record s { has_server = false; state = draining })
          (record { accounted = v.accounted; none_waits = v.none_waits })
    close_open false = record { accounted = v.accounted; none_waits = v.none_waits }

pub new_server-IsValid : IsValid new_server
new_server-IsValid = record { accounted = λ n lt. ground arith; none_waits = λ _. refl }

none_in_empty : (ms : List ℕ) (n : ℕ) → waits [] n ≡ true → has ms n ≡ true
unfolding waits
none_in_empty ms n w = cc

-- Where no request of a valid server is active, its drains are over.
pub idle_drains :
    (s : RpcServer)
    → IsValid s
    → s.active_requests ≡ 0
    → (s.drain_resolvers ≡ []) × ((n : ℕ) → n < s.drains → has s.resolved n ≡ true)
idle_drains s v idle_now =
    let empty = v.none_waits idle_now in
    (
      empty,
      λ n lt. elim (v.accounted n lt) [
        | inl w ↦ none_in_empty s.resolved n (ap (λ cs. waits cs n) (sym empty) ∙ w)
        | inr r ↦ r
      ],
    )

-- The timer of a drain leaves the waiting callbacks as they are, its own with them: where a drain
-- waits, it still waits after it has timed out and its promise is resolved.
pub drain_times_out_keeps :
    (m n : ℕ) (s : RpcServer)
    → waits s.drain_resolvers m ≡ true
    → (waits (drain_times_out m s).drain_resolvers n ≡ waits s.drain_resolvers n)
      × (waits (drain_times_out m s).drain_resolvers m ≡ true)
      × (has (drain_times_out m s).resolved m ≡ true)
unfolding drain_times_out remove_drain_resolver
drain_times_out_keeps m n s h = (
  waits-without m n s.drain_resolvers,
  waits-without m m s.drain_resolvers ∙ h,
  has_snoc s.resolved m m (inl (ground arith)),
)
