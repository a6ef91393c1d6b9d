-- ===== src/Rpc/Discovery.antt =====
-- rpc/registry/service_discovery.hpp: `StaticServiceDiscovery`. The mutex makes each member one step.
pub mod Laws
mod Tests
use cpp20_coroutine_io_uring.Common.{
  Bool, not, ◌&&◌, List, [], ◌∷◌, ◌++◌, Option, none, some, ◌==◌, keep_if, Bytes, str_eq, lookup,
  insert,
}
use cpp20_coroutine_io_uring.Rpc.LoadBalancer.{Endpoint}

-- `services_`.
abbrev pub StaticServiceDiscovery : Type 0
StaticServiceDiscovery = List (Bytes × List Endpoint)

unfoldable pub discover : Bytes → StaticServiceDiscovery → List Endpoint
discover service d = elim (lookup service d) [ none ↦ [] | some eps ↦ eps ]

-- `services_[service].push_back(ep)`: a missing service starts as an empty list.
unfoldable pub add_endpoint : Bytes → Endpoint → StaticServiceDiscovery → StaticServiceDiscovery
add_endpoint service ep d = elim (lookup service d) [
  | none ↦ insert service (ep ∷ []) d
  | some eps ↦ insert service (eps ++ ep ∷ []) d
]

abbrev pub same_address : Endpoint → Endpoint → Bool
same_address x ep = str_eq x.host ep.host && x.port == ep.port

unfoldable pub deregister_service :
    Bytes → Endpoint → StaticServiceDiscovery → StaticServiceDiscovery
deregister_service service endpoint d = elim (lookup service d) [
  | none ↦ d
  | some eps ↦ insert service (keep_if (λ ep. not (same_address ep endpoint)) eps) d
]
