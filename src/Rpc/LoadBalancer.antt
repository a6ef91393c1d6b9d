-- ===== src/Rpc/LoadBalancer.antt =====
-- rpc/loadbalance/load_balancer.hpp: the endpoints, and the base class as an interface: the
-- operations of a balancer and what a client may rely on.
pub mod Cycle
pub mod RoundRobin
pub mod Weighted
pub mod Random
mod Tests
use cpp20_coroutine_io_uring.Common.{
  ℕ, ◌≡◌, ◌⊎◌, Bool, List, [], Option, none, some, Bytes, ℤ, Contains,
}

pub record Endpoint : Type 0 where
  pub host : Bytes
  pub port : ℕ
  pub weight : ℤ
  pub healthy : Bool

-- The virtual functions of a balancer with state `S`. `endpoints` are those of the last `update`.
pub record LoadBalancer (S : Type 0) : Type 1 where
  pub IsReady : S → Type 0
  pub endpoints : S → List Endpoint
  pub update : List Endpoint → S → S
  pub select : S → Option Endpoint × S
  pub mark_success : Endpoint → S → S
  pub mark_failure : Endpoint → S → S
  pub update-IsReady : (eps : List Endpoint) (s : S) → IsReady (update eps s)
  pub endpoints-update : (eps : List Endpoint) (s : S) → endpoints (update eps s) ≡ eps
  -- A selection keeps the endpoints, and is one of them unless there is none.
  pub select_lem :
      (s : S)
      → IsReady s
      → IsReady (select s).1
        × (endpoints (select s).1 ≡ endpoints s)
        × (((select s).0 ≡ none) × (endpoints s ≡ [])
            ⊎ ((ep : Endpoint) × ((select s).0 ≡ some ep) × Contains ep (endpoints s)))
