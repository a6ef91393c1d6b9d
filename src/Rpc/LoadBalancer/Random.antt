-- ===== src/Rpc/LoadBalancer/Random.antt =====
-- rpc/loadbalance/load_balancer.hpp: `RandomLoadBalancer`. The standard library's generator, with its
-- distribution on `0 .. n`, is the parameter `draw`, which the interface needs to stay in its range.
use cpp20_coroutine_io_uring.Common.{
  ℕ, ◌-◌, ◌≤◌, ◌≡◌, ◌⊎◌, refl, List, [], ◌∷◌, Option, none, arith, inl, inr, length, get_elem?,
  get_elem?_lt, get_elem?-Contains, Contains, some,
}
use cpp20_coroutine_io_uring.Rpc.LoadBalancer.{Endpoint, LoadBalancer}

pub record RandomBalancer (R : Type 0) : Type 0 where
  pub endpoints : List Endpoint
  pub rng : R

module _ {R : Type 0} (draw : R → ℕ → ℕ × R) where
  unfoldable pub update : List Endpoint → RandomBalancer R → RandomBalancer R
  update eps lb = record lb { endpoints = eps }

  unfoldable pub select : RandomBalancer R → Option Endpoint × RandomBalancer R
  select lb = elim lb.endpoints [
    | [] ↦ (none, lb)
    | ep ∷ eps ↦
        let (place, rng) = draw lb.rng (length lb.endpoints - 1) in
        (get_elem? lb.endpoints place, record lb { rng = rng })
  ]

  unfoldable pub mark_success : Endpoint → RandomBalancer R → RandomBalancer R
  mark_success ep lb = lb

  unfoldable pub mark_failure : Endpoint → RandomBalancer R → RandomBalancer R
  mark_failure ep lb = lb

  module _ (draw_le : (rng : R) (n : ℕ) → (draw rng n).0 ≤ n) where
    selected :
        (ep : Endpoint) (eps : List Endpoint) (rng : R)
        → (x : Endpoint) × (get_elem? (ep ∷ eps) (draw rng (length (ep ∷ eps) - 1)).0 ≡ some x)
          × Contains x (ep ∷ eps)
    selected ep eps rng =
        let inside = draw_le rng (length (ep ∷ eps) - 1) in
        let (x, e) = get_elem?_lt (ep ∷ eps) (draw rng (length (ep ∷ eps) - 1)).0 (omega arith) in
        (x, e, get_elem?-Contains (ep ∷ eps) _ x e)

    -- The random choice is a balancer, if the draw stays in its range.
    pub RandomLoadBalancer : LoadBalancer (RandomBalancer R)
    unfolding update select
    RandomLoadBalancer = record {
      IsReady = λ lb. Unit;
      endpoints = λ lb. lb.endpoints;
      update = update;
      select = select;
      mark_success = mark_success;
      mark_failure = mark_failure;
      update-IsReady = λ eps lb. tt;
      endpoints-update = λ eps lb. refl;
      select_lem = λ lb h. ready lb.endpoints lb.rng;
    }
      where
        ready :
            (eps : List Endpoint) (rng : R)
            → Unit {0}
              × ((select (record { endpoints = eps; rng = rng })).1.endpoints ≡ eps)
              × (((select (record { endpoints = eps; rng = rng })).0 ≡ none) × (eps ≡ [])
                  ⊎ ((x : Endpoint) × ((select (record { endpoints = eps; rng = rng })).0 ≡ some x)
                      × Contains x eps))
        ready [] rng = (tt, refl, inl (refl, refl))
        ready (ep ∷ eps) rng = (tt, refl, inr (selected ep eps rng))
