-- ===== src/Rpc/Registry/Tests.antt =====
-- Runs of rpc/service_registry.hpp on small inputs.
use cpp20_coroutine_io_uring.Common.{
  ℕ, ◌≡◌, refl, ◌&&◌, [], ◌∷◌, none, some, arith, if◌then◌else◌, Bytes, str_eq, lookup, insert,
  keys, key_count,
}
use cpp20_coroutine_io_uring.Rpc.Registry.{
  ServiceRegistry, register_method, register_service, find_method, list_methods,
}
use cpp20_coroutine_io_uring.Rpc.Registry.Laws.{IsValid, find_method-register_method}

abbrev echo : Bytes
echo = 101 ∷ []

abbrev ping : Bytes
ping = 112 ∷ []

abbrev no_services : ServiceRegistry ℕ
no_services = []

no_services-IsValid : IsValid no_services
unfolding lookup keys key_count
no_services-IsValid = record {
  unique_services = λ k. omega arith;
  unique_methods = λ name info e. absurd (ground arith);
}

abbrev one_method : ServiceRegistry ℕ
one_method = register_method echo ping (some 5) [] no_services

listed_once : list_methods echo (register_method echo ping (some 6) [] one_method) ≡ ping ∷ []
unfolding list_methods register_method lookup insert keys str_eq
listed_once = refl

register_service_resets : find_method echo ping (register_service echo one_method) ≡ none
unfolding find_method register_service register_method lookup insert str_eq
register_service_resets = refl

find_method-register_method_example :
    find_method echo ping (register_method echo ping (some 6) [] one_method)
    ≡ (if str_eq echo echo && str_eq ping ping then some 6 else find_method echo ping one_method)
find_method-register_method_example =
    find_method-register_method echo ping echo ping [] (some 6) one_method
