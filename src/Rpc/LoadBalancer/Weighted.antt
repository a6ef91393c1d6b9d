-- ===== src/Rpc/LoadBalancer/Weighted.antt =====
-- rpc/loadbalance/load_balancer.hpp: `WeightedRoundRobinLoadBalancer`.
use native.Mathlib.Nat.{mod-lt}
use cpp20_coroutine_io_uring.Common.{
  ℕ, zero, suc, ◌+◌, ◌%◌, ◌^◌, ◌<◌, ◌≤◌, ◌≡◌, ◌≢◌, refl, ap, ◌∙◌, ◌⊎◌, subst, List, [], ◌∷◌, ◌++◌,
  map, Option, none, some, arith, inl, inr, Bool, max, length, get_elem?, replicate, count_if,
  get_elem?_lt, get_elem?-Contains, All, All-append, All-Contains, Contains, ◌==◌, ◌>>=◌, to_size,
  length-append, length-replicate,
}
use cpp20_coroutine_io_uring.Rpc.LoadBalancer.{Endpoint, LoadBalancer}
use cpp20_coroutine_io_uring.Rpc.LoadBalancer.Cycle.{picks, picks_all}

pub record WeightedRoundRobin : Type 0 where
  pub endpoints : List Endpoint
  pub weighted_indices : List ℕ
  pub current : ℕ

-- `std::max(1, weight)`.
abbrev pub share : Endpoint → ℕ
share ep = max 1 (to_size ep.weight)

-- The loop over the endpoints from place `i` on.
unfoldable pub weighted_from : ℕ → List Endpoint → List ℕ
weighted_from i [] = []
weighted_from i (ep ∷ eps) = replicate (share ep) i ++ weighted_from (i + 1) eps

unfoldable pub update : List Endpoint → WeightedRoundRobin → WeightedRoundRobin
unfolding weighted_from
update eps lb = record { endpoints = eps; weighted_indices = weighted_from 0 eps; current = 0 }

unfoldable pub select : WeightedRoundRobin → Option Endpoint × WeightedRoundRobin
select lb = elim lb.weighted_indices [
  | [] ↦ (none, lb)
  | i ∷ is ↦ (
    get_elem? lb.weighted_indices (lb.current % length lb.weighted_indices)
        >>= get_elem? lb.endpoints,
    record lb { current = (lb.current + 1) % 2 ^ 64 },
  )
]

unfoldable pub mark_success : Endpoint → WeightedRoundRobin → WeightedRoundRobin
mark_success ep lb = lb

unfoldable pub mark_failure : Endpoint → WeightedRoundRobin → WeightedRoundRobin
mark_failure ep lb = lb

unfoldable pub select_times : ℕ → WeightedRoundRobin → List (Option Endpoint)
select_times zero lb = []
select_times (suc n) lb = let (ep, lb') = select lb in ep ∷ select_times n lb'

count_if-replicate_self : (n i : ℕ) → count_if (λ j. j == i) (replicate n i) ≡ n
count_if-replicate_self zero i = refl
count_if-replicate_self (suc n) i = let rest = count_if-replicate_self n i in ground arith

count_if-replicate_ne : (n i j : ℕ) → i ≢ j → count_if (λ k. k == i) (replicate n j) ≡ 0
count_if-replicate_ne zero i j h = refl
count_if-replicate_ne (suc n) i j h = let rest = count_if-replicate_ne n i j h in ground arith

count_if-append :
    (p : ℕ → Bool) (xs ys : List ℕ) → count_if p (xs ++ ys) ≡ count_if p xs + count_if p ys
count_if-append p [] ys = omega arith
count_if-append p (x ∷ xs) ys = let rest = count_if-append p xs ys in omega arith

-- The places before `i` do not occur from `i` on.
weighted_from_before :
    (i j : ℕ) (eps : List Endpoint) → i < j → count_if (λ k. k == i) (weighted_from j eps) ≡ 0
unfolding weighted_from
weighted_from_before i j [] h = refl
weighted_from_before i j (ep ∷ eps) h =
    let here = count_if-replicate_ne (share ep) i j (λ e. omega arith) in
    let rest = weighted_from_before i (j + 1) eps (omega arith) in
    count_if-append (λ k. k == i) (replicate (share ep) j) _ ∙ omega arith

weighted_from-get_elem? :
    (k j : ℕ) (eps : List Endpoint) (ep : Endpoint)
    → get_elem? eps k ≡ some ep
    → count_if (λ i. i == j + k) (weighted_from j eps) ≡ share ep
unfolding weighted_from
weighted_from-get_elem? k j [] ep e = absurd (ground arith)
weighted_from-get_elem? zero j (x ∷ eps) ep e =
    let same : x ≡ ep = ground arith in
    let place : j + 0 ≡ j = omega arith in
    let here = count_if-replicate_self (share x) j in
    let rest = weighted_from_before j (j + 1) eps (omega arith) in
    rw place (
      count_if-append (λ i. i == j) (replicate (share x) j) _
      ∙ (rw (here, rest, same) (omega arith)))
weighted_from-get_elem? (suc k) j (x ∷ eps) ep e =
    let place : j + suc k ≡ j + 1 + k = omega arith in
    let here = count_if-replicate_ne (share x) (j + 1 + k) j (λ q. omega arith) in
    let rest = weighted_from-get_elem? k (j + 1) eps ep e in
    rw place (
      count_if-append (λ i. i == j + 1 + k) (replicate (share x) j) _
      ∙ (rw (here, rest) (omega arith)))

-- After an update, the index of an endpoint stands in the weighted list as often as its weight says,
-- and once if the weight is less than 1.
pub update-weighted_indices :
    (eps : List Endpoint) (lb : WeightedRoundRobin) (k : ℕ) (ep : Endpoint)
    → get_elem? eps k ≡ some ep
    → count_if (λ i. i == k) (update eps lb).weighted_indices ≡ max 1 (to_size ep.weight)
unfolding update
update-weighted_indices eps lb k ep e =
    let place : 0 + k ≡ k = omega arith in
    subst (λ n. count_if (λ i. i == n) (weighted_from 0 eps) ≡ share ep) place
      (weighted_from-get_elem? k 0 eps ep e)

All-replicate : (P : ℕ → Type 0) (n i : ℕ) → P i → All P (replicate n i)
All-replicate P zero i h = tt
All-replicate P (suc n) i h = (h, All-replicate P n i h)

weighted_from_lt :
    (i n : ℕ) (eps : List Endpoint) → i + length eps ≤ n → All (λ k. k < n) (weighted_from i eps)
unfolding weighted_from
weighted_from_lt i n [] h = tt
weighted_from_lt i n (ep ∷ eps) h =
    All-append _ (replicate (share ep) i) _ (All-replicate _ (share ep) i (omega arith))
      (weighted_from_lt (i + 1) n eps (omega arith))

select_times-picks :
    (n c i : ℕ) (is : List ℕ) (eps : List Endpoint)
    → select_times n (record { endpoints = eps; weighted_indices = i ∷ is; current = c })
      ≡ map (λ o. o >>= get_elem? eps) (picks n c (i ∷ is))
unfolding select_times select
select_times-picks zero c i is eps = refl
select_times-picks (suc n) c i is eps =
    ap (◌∷◌ (get_elem? (i ∷ is) (c % length (i ∷ is)) >>= get_elem? eps))
      (select_times-picks n ((c + 1) % 2 ^ 64) i is eps)

map-map-some :
    (eps : List Endpoint) (is : List ℕ)
    → map (λ o. o >>= get_elem? eps) (map some is) ≡ map (get_elem? eps) is
map-map-some eps [] = refl
map-map-some eps (i ∷ is) = ap (◌∷◌ (get_elem? eps i)) (map-map-some eps is)

weighted_round :
    (eps : List Endpoint) (is : List ℕ)
    → length is < 2 ^ 64
    → select_times (length is) (record { endpoints = eps; weighted_indices = is; current = 0 })
      ≡ map (get_elem? eps) is
unfolding select_times
weighted_round eps [] fits = refl
weighted_round eps (i ∷ is) fits =
    select_times-picks (length (i ∷ is)) 0 i is eps
    ∙ ap (map (λ o. o >>= get_elem? eps)) (picks_all (i ∷ is) (omega arith) fits)
    ∙ map-map-some eps (i ∷ is)

-- After an update, as many selections in a row as the shares sum to follow the weighted list from its
-- start, as long as that many selections do not wrap the counter.
pub select_times-update :
    (eps : List Endpoint) (lb : WeightedRoundRobin)
    → length (update eps lb).weighted_indices < 2 ^ 64
    → select_times (length (update eps lb).weighted_indices) (update eps lb)
      ≡ map (get_elem? eps) (update eps lb).weighted_indices
unfolding update
select_times-update eps lb fits = weighted_round eps (weighted_from 0 eps) fits

-- Every index of the weighted list is that of an endpoint, so that no selection is out of bounds.
IsReady : WeightedRoundRobin → Type 0
IsReady lb =
    All (λ k. k < length lb.endpoints) lb.weighted_indices
    × ((lb.weighted_indices ≡ []) → lb.endpoints ≡ [])

selected :
    (eps : List Endpoint) (is : List ℕ) (c : ℕ)
    → 0 < length is
    → All (λ k. k < length eps) is
    → (x : Endpoint) × ((get_elem? is (c % length is) >>= get_elem? eps) ≡ some x) × Contains x eps
selected eps is c some_place inside =
    let (i, e) = get_elem?_lt is (c % length is) (mod-lt c some_place) in
    let (x, q) = get_elem?_lt eps i (
      All-Contains (λ k. k < length eps) i is inside (get_elem?-Contains is (c % length is) i e)) in
    (x, rw e q, get_elem?-Contains eps i x q)

weighted_some : (ep : Endpoint) (eps : List Endpoint) → ¬ (length (weighted_from 0 (ep ∷ eps)) ≡ 0)
unfolding weighted_from
weighted_some ep eps e =
    let sum = length-append (replicate (share ep) 0) (weighted_from (0 + 1) eps) in
    let part : length (replicate {A = ℕ} (share ep) 0) ≡ share ep = length-replicate (share ep) 0 in
    omega arith

-- The weighted round robin is a balancer.
pub WeightedRoundRobinLoadBalancer : LoadBalancer WeightedRoundRobin
unfolding IsReady update select
WeightedRoundRobinLoadBalancer = record {
  IsReady = IsReady;
  endpoints = λ lb. lb.endpoints;
  update = update;
  select = select;
  mark_success = mark_success;
  mark_failure = mark_failure;
  update-IsReady = λ eps lb. (weighted_from_lt 0 (length eps) eps (omega arith), some_index eps);
  endpoints-update = λ eps lb. refl;
  select_lem = λ lb h. ready lb.endpoints lb.weighted_indices lb.current h;
}
  where
    some_index : (eps : List Endpoint) → weighted_from 0 eps ≡ [] → eps ≡ []
    some_index [] e = refl
    some_index (ep ∷ eps) e = absurd (weighted_some ep eps (ap length e))

    ready :
        (eps : List Endpoint) (is : List ℕ) (c : ℕ)
        → IsReady (record { endpoints = eps; weighted_indices = is; current = c })
        → IsReady (select (record { endpoints = eps; weighted_indices = is; current = c })).1
          × ((select (record { endpoints = eps; weighted_indices = is; current = c })).1.endpoints
              ≡ eps)
          × (((select (record { endpoints = eps; weighted_indices = is; current = c })).0 ≡ none)
                × (eps ≡ [])
              ⊎ ((x : Endpoint) × ((select
                      (record { endpoints = eps; weighted_indices = is; current = c })).0
                    ≡ some x)
                  × Contains x eps))
    ready eps [] c h = (h, refl, inl (refl, h.1 refl))
    ready eps (i ∷ is) c h = (h, refl, inr (selected eps (i ∷ is) c (omega arith) h.0))
