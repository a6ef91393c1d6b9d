-- ===== src/Rpc/Discovery/Tests.antt =====
-- Runs of rpc/registry/service_discovery.hpp on small inputs.
use cpp20_coroutine_io_uring.Common.{
  ◌≡◌, ◌≢◌, inl, inr, arith, Bool, ◌&&◌, ◌==◌, refl, true, not, [], ◌∷◌, some, keep_if, Bytes, pos,
  str_eq, lookup, insert,
}
use cpp20_coroutine_io_uring.Rpc.LoadBalancer.{Endpoint}
use cpp20_coroutine_io_uring.Rpc.LoadBalancer.RoundRobin.{
  RoundRobin, RoundRobinLoadBalancer, update, select,
}
use cpp20_coroutine_io_uring.Rpc.Discovery.{
  StaticServiceDiscovery, discover, add_endpoint, deregister_service,
}
use cpp20_coroutine_io_uring.Rpc.Discovery.Laws.{
  Differs, same_address-Differs, discover-deregister_service,
}

abbrev first : Endpoint
first = record { host = 97 ∷ []; port = 1; weight = pos 1; healthy = true }

abbrev second : Endpoint
second = record { host = 97 ∷ []; port = 2; weight = pos 1; healthy = true }

abbrev calc : Bytes
calc = 99 ∷ []

abbrev both : StaticServiceDiscovery
both = add_endpoint calc second (add_endpoint calc first [])

abbrev a_balancer : RoundRobin
a_balancer = record { endpoints = []; current = 0 }

-- Another port than that of the first endpoint, or another host.
abbrev differs : Endpoint → Bool
differs x = not (str_eq x.host (97 ∷ []) && x.port == 1)

differs_iff :
    (x : Endpoint) → (differs x ≡ true → Differs x first) × (Differs x first → differs x ≡ true)
differs_iff x = elim (same_address-Differs x first) [
  | inl (q, e, f) ↦ (
    (λ h. absurd (ground (arith, q, h))),
    λ n. elim n [ inl a ↦ absurd (a e) | inr a ↦ absurd (a f) ],
  )
  | inr (q, n) ↦ ((λ h. n), λ m. rw q refl)
]

discover-deregister_service_example :
    (discover calc (deregister_service calc first both) ≡ keep_if differs (discover calc both))
    × (calc ≢ [] → discover [] (deregister_service calc first both) ≡ discover [] both)
discover-deregister_service_example =
    discover-deregister_service calc [] first both differs differs_iff

second_selected :
    (RoundRobinLoadBalancer.select (
      RoundRobinLoadBalancer.update
        (discover calc (deregister_service calc first both))
        a_balancer)).0
    ≡ some second
unfolding RoundRobinLoadBalancer update select discover add_endpoint deregister_service lookup
    insert str_eq
second_selected = refl
