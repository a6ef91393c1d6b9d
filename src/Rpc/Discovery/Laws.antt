-- ===== src/Rpc/Discovery/Laws.antt =====
-- rpc/registry/service_discovery.hpp, with the balancers of rpc/loadbalance/load_balancer.hpp: what
-- is discovered after each change, and what a balancer that is updated with it may select.
use cpp20_coroutine_io_uring.Common.{
  Bool, ◌≡◌, ◌≢◌, ◌⊎◌, refl, sym, ◌∙◌, true, false, Bool-cases, ==_iff, ◌==◌, keep_if_ext, not,
  List, [], ◌∷◌, ◌++◌, some, arith, inl, inr, subst, Option-cases, if◌then◌else◌, keep_if, All,
  All-Contains, All-keep_if, Bytes, str_eq, str_eq_iff, lookup, lookup-insert,
}
use cpp20_coroutine_io_uring.Rpc.LoadBalancer.{Endpoint, LoadBalancer}
use cpp20_coroutine_io_uring.Rpc.Discovery.{
  StaticServiceDiscovery, discover, add_endpoint, same_address, deregister_service,
}

-- An added endpoint is discovered last among those of its service, and changes no other service.
pub discover-add_endpoint :
    (s s' : Bytes) (ep : Endpoint) (d : StaticServiceDiscovery)
    → discover s' (add_endpoint s ep d)
      ≡ (if str_eq s s' then discover s' d ++ ep ∷ [] else discover s' d)
unfolding discover add_endpoint
discover-add_endpoint s s' ep d = elim (Option-cases (lookup s d)) [
  | inl e ↦ ground (arith, e, str_eq_iff s s', lookup-insert s s' (ep ∷ []) d)
  | inr (eps, e) ↦ ground (arith, e, str_eq_iff s s', lookup-insert s s' (eps ++ ep ∷ []) d)
]

discover-keep_if :
    (s s' : Bytes) (ep : Endpoint) (d : StaticServiceDiscovery)
    → discover s' (deregister_service s ep d) ≡ (
        if str_eq s s'
        then keep_if (λ x. not (same_address x ep)) (discover s' d)
        else discover s' d)
unfolding discover deregister_service
discover-keep_if s s' ep d = elim (Option-cases (lookup s d)) [
  | inl e ↦ ground (arith, e, str_eq_iff s s')
  | inr (eps, e) ↦
      ground (
        arith,
        e,
        str_eq_iff s s',
        lookup-insert s s' (keep_if (λ x. not (same_address x ep)) eps) d,
      )
]

-- Two endpoints differ in their host or in their port.
abbrev pub Differs : Endpoint → Endpoint → Type 0
Differs x ep = (x.host ≢ ep.host) ⊎ (x.port ≢ ep.port)

pub same_address-Differs :
    (x ep : Endpoint)
    → ((same_address x ep ≡ true) × (x.host ≡ ep.host) × (x.port ≡ ep.port))
      ⊎ ((same_address x ep ≡ false) × Differs x ep)
same_address-Differs x ep = elim (Bool-cases (str_eq x.host ep.host)) [
  | inr q ↦ inr (rw q refl, inl λ e. absurd (ground (arith, str_eq_iff x.host ep.host, q)))
  | inl q ↦ elim (Bool-cases (x.port == ep.port)) [
    | inl p ↦ inl (rw (q, p) refl, (str_eq_iff x.host ep.host).0 q, (==_iff x.port ep.port).0 p)
    | inr p ↦ inr (rw (q, p) refl, inr λ e. absurd (ground (arith, ==_iff x.port ep.port, p)))
  ]
]

-- After an endpoint of a service has been deregistered, those are discovered of the service that
-- were before and differ from it in their host or in their port, whatever their weight and health,
-- each as often as it was and in their order: what any test keeps that tells those apart. What is
-- discovered of another service is the same.
pub discover-deregister_service :
    (s s' : Bytes) (ep : Endpoint) (d : StaticServiceDiscovery) (differs : Endpoint → Bool)
    → ((x : Endpoint) → (differs x ≡ true → Differs x ep) × (Differs x ep → differs x ≡ true))
    → (discover s (deregister_service s ep d) ≡ keep_if differs (discover s d))
      × (s ≢ s' → discover s' (deregister_service s ep d) ≡ discover s' d)
discover-deregister_service s s' ep d differs h =
    let e : discover s (deregister_service s ep d)
        ≡ keep_if (λ y. not (same_address y ep)) (discover s d) =
      ground (arith, discover-keep_if s s ep d, str_eq_iff s s) in
    (
      e ∙ keep_if_ext (λ y. not (same_address y ep)) differs (discover s d) same_test,
      λ n. elim (Bool-cases (str_eq s s')) [
        | inl q ↦ absurd (n ((str_eq_iff s s').0 q))
        | inr q ↦ discover-keep_if s s' ep d ∙ rw q refl
      ],
    )
  where
    same_test : (x : Endpoint) → not (same_address x ep) ≡ differs x
    same_test x = elim (same_address-Differs x ep) [
      | inr (q, n) ↦ rw q (sym ((h x).1 n))
      | inl (q, e, f) ↦ elim (Bool-cases (differs x)) [
        | inl r ↦ elim ((h x).0 r) [ inl a ↦ absurd (a e) | inr a ↦ absurd (a f) ]
        | inr r ↦ rw (q, r) refl
      ]
    ]

All-Unit : (eps : List Endpoint) → All (λ x. Unit {0}) eps
All-Unit [] = tt
All-Unit (x ∷ eps) = (tt, All-Unit eps)

deregistered :
    (s : Bytes) (ep : Endpoint) (d : StaticServiceDiscovery)
    → All (λ x. same_address x ep ≡ false) (discover s (deregister_service s ep d))
deregistered s ep d =
    let e : discover s (deregister_service s ep d)
        ≡ keep_if (λ x. not (same_address x ep)) (discover s d) =
      ground (arith, discover-keep_if s s ep d, str_eq_iff s s) in
    rw e (
      All-keep_if (λ x. Unit {0}) _ (λ x. not (same_address x ep)) (discover s d)
        (λ x h q. ground arith) (All-Unit (discover s d)))

-- A balancer of any kind that is updated with what is discovered once an endpoint is deregistered
-- does not select that endpoint's host and port.
pub select-deregister_service :
    {S : Type 0} (B : LoadBalancer S) (lb : S) (s : Bytes) (ep x : Endpoint)
    (d : StaticServiceDiscovery)
    → (B.select (B.update (discover s (deregister_service s ep d)) lb)).0 ≡ some x
    → same_address x ep ≡ false
select-deregister_service B lb s ep x d e =
    let eps : List Endpoint = discover s (deregister_service s ep d) in
    let (ready, kept, choice) = B.select_lem (B.update eps lb) (B.update-IsReady eps lb) in
    elim choice [
      | inl (nothing, h) ↦ absurd (ground arith)
      | inr (y, found, inside) ↦
          let same : y ≡ x = ground arith in
          subst (λ z. same_address z ep ≡ false) same
            (All-Contains (λ z. same_address z ep ≡ false) y (B.endpoints (B.update eps lb))
              (rw (B.endpoints-update eps lb) (deregistered s ep d)) inside)
    ]
