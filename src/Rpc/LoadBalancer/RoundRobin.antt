-- ===== src/Rpc/LoadBalancer/RoundRobin.antt =====
-- rpc/loadbalance/load_balancer.hpp: `RoundRobinLoadBalancer`. The counter is a `size_t` and wraps.
use native.Mathlib.Nat.{mod-lt}
use cpp20_coroutine_io_uring.Common.{
  ℕ, zero, suc, ◌+◌, ◌%◌, ◌^◌, ◌<◌, ◌≡◌, refl, ap, ◌∙◌, ◌⊎◌, List, [], ◌∷◌, ◌++◌, map, Option, none,
  some, arith, inl, inr, length, get_elem?, take, drop, get_elem?_lt, get_elem?-Contains, Contains,
}
use cpp20_coroutine_io_uring.Rpc.LoadBalancer.{Endpoint, LoadBalancer}
use cpp20_coroutine_io_uring.Rpc.LoadBalancer.Cycle.{picks, picks_round}

pub record RoundRobin : Type 0 where
  pub endpoints : List Endpoint
  pub current : ℕ

unfoldable pub update : List Endpoint → RoundRobin → RoundRobin
update eps lb = record { endpoints = eps; current = 0 }

unfoldable pub select : RoundRobin → Option Endpoint × RoundRobin
select lb = elim lb.endpoints [
  | [] ↦ (none, lb)
  | ep ∷ eps ↦ (
    get_elem? lb.endpoints (lb.current % length lb.endpoints),
    record lb { current = (lb.current + 1) % 2 ^ 64 },
  )
]

unfoldable pub mark_success : Endpoint → RoundRobin → RoundRobin
mark_success ep lb = lb

unfoldable pub mark_failure : Endpoint → RoundRobin → RoundRobin
mark_failure ep lb = lb

-- The results of calls of `select` in a row.
unfoldable pub select_times : ℕ → RoundRobin → List (Option Endpoint)
select_times zero lb = []
select_times (suc n) lb = let (ep, lb') = select lb in ep ∷ select_times n lb'

select_times-picks :
    (n c : ℕ) (ep : Endpoint) (eps : List Endpoint)
    → select_times n (record { endpoints = ep ∷ eps; current = c }) ≡ picks n c (ep ∷ eps)
unfolding select_times select
select_times-picks zero c ep eps = refl
select_times-picks (suc n) c ep eps =
    ap (◌∷◌ (get_elem? (ep ∷ eps) (c % length (ep ∷ eps))))
      (select_times-picks n ((c + 1) % 2 ^ 64) ep eps)

-- If there is an endpoint, as many selections in a row as there are endpoints select each once, in
-- the order of the list from where the counter stands, as long as the counter does not wrap.
pub select_times_round :
    (eps : List Endpoint) (c : ℕ)
    → 0 < length eps
    → c + length eps < 2 ^ 64
    → select_times (length eps) (record { endpoints = eps; current = c })
      ≡ map some (drop (c % length eps) eps) ++ map some (take (c % length eps) eps)
select_times_round [] c h fits = absurd (omega arith)
select_times_round (ep ∷ eps) c h fits =
    select_times-picks (length (ep ∷ eps)) c ep eps ∙ picks_round c (ep ∷ eps) h fits

pub select-Contains :
    (c : ℕ) (ep : Endpoint) (eps : List Endpoint)
    → (x : Endpoint) × (get_elem? (ep ∷ eps) (c % length (ep ∷ eps)) ≡ some x)
      × Contains x (ep ∷ eps)
select-Contains c ep eps =
    let (x, e) = get_elem?_lt (ep ∷ eps) (c % length (ep ∷ eps)) (mod-lt c (omega arith)) in
    (x, e, get_elem?-Contains (ep ∷ eps) (c % length (ep ∷ eps)) x e)

-- The round robin is a balancer: it selects an endpoint of the last update, or none if there is none.
unfoldable pub RoundRobinLoadBalancer : LoadBalancer RoundRobin
unfolding update select
RoundRobinLoadBalancer = record {
  IsReady = λ lb. Unit;
  endpoints = λ lb. lb.endpoints;
  update = update;
  select = select;
  mark_success = mark_success;
  mark_failure = mark_failure;
  update-IsReady = λ eps lb. tt;
  endpoints-update = λ eps lb. refl;
  select_lem = λ lb h. ready lb.endpoints lb.current;
}
  where
    ready :
        (eps : List Endpoint) (c : ℕ)
        → Unit {0}
          × ((select (record { endpoints = eps; current = c })).1.endpoints ≡ eps)
          × (((select (record { endpoints = eps; current = c })).0 ≡ none) × (eps ≡ [])
              ⊎ ((x : Endpoint) × ((select (record { endpoints = eps; current = c })).0 ≡ some x)
                  × Contains x eps))
    ready [] c = (tt, refl, inl (refl, refl))
    ready (ep ∷ eps) c = (tt, refl, inr (select-Contains c ep eps))
