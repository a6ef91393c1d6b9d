-- ===== src/Rpc/LoadBalancer/Tests.antt =====
-- Runs of rpc/loadbalance/load_balancer.hpp on small inputs.
use cpp20_coroutine_io_uring.Common.{
  ◌%◌, ◌^◌, ◌<◌, ◌≡◌, refl, true, List, [], ◌∷◌, ◌++◌, map, some, arith, length, drop, take,
  count_if, max, ◌==◌, pos, negsuc, to_size,
}
use cpp20_coroutine_io_uring.Rpc.LoadBalancer.{Endpoint}
use cpp20_coroutine_io_uring.Rpc.LoadBalancer.RoundRobin
use cpp20_coroutine_io_uring.Rpc.LoadBalancer.RoundRobin.{select_times_round}
use cpp20_coroutine_io_uring.Rpc.LoadBalancer.Weighted
use cpp20_coroutine_io_uring.Rpc.LoadBalancer.Weighted.{
  WeightedRoundRobin, weighted_from, update-weighted_indices, select_times-update,
}

abbrev light : Endpoint
light = record { host = 97 ∷ []; port = 1; weight = negsuc 4; healthy = true }

abbrev heavy : Endpoint
heavy = record { host = 98 ∷ []; port = 2; weight = pos 3; healthy = true }

abbrev pair : List Endpoint
pair = light ∷ heavy ∷ []

abbrev empty_balancer : WeightedRoundRobin
empty_balancer = record { endpoints = []; weighted_indices = []; current = 0 }

shares : (Weighted.update pair empty_balancer).weighted_indices ≡ 0 ∷ 1 ∷ 1 ∷ 1 ∷ []
unfolding Weighted.update weighted_from
shares = refl

select_times_round_example :
    RoundRobin.select_times (length pair) (record { endpoints = pair; current = 5 })
    ≡ map some (drop (5 % length pair) pair) ++ map some (take (5 % length pair) pair)
select_times_round_example = select_times_round pair 5 (omega arith) (omega arith)

update-weighted_indices_example :
    count_if (λ i. i == 1) (Weighted.update pair empty_balancer).weighted_indices
    ≡ max 1 (to_size heavy.weight)
update-weighted_indices_example = update-weighted_indices pair empty_balancer 1 heavy refl

few_shares : length (Weighted.update pair empty_balancer).weighted_indices < 2 ^ 64
unfolding Weighted.update weighted_from
few_shares = omega arith
