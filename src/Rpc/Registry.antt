-- ===== src/Rpc/Registry.antt =====
-- rpc/service_registry.hpp: `ServiceInfo` and `ServiceRegistry`. The lock makes each member one step.
-- A handler is a `std::function`, so it may be empty (`none`); what it holds is the parameter `H`.
pub mod Laws
mod Tests
use cpp20_coroutine_io_uring.Common.{
  Bool, true, false, List, [], ◌∷◌, Option, none, some, Bytes, lookup, insert, erase, keys,
}

pub record ServiceInfo (H : Type 0) : Type 0 where
  pub name : Bytes
  pub methods : List (Bytes × Option H)
  pub method_descriptions : List (Bytes × Bytes)

-- `services_`.
abbrev pub ServiceRegistry : Type 0 → Type 0
ServiceRegistry H = List (Bytes × ServiceInfo H)

-- `!description.empty()`.
abbrev pub describe : Bytes → Bytes → List (Bytes × Bytes) → List (Bytes × Bytes)
describe method_name [] ds = ds
describe method_name (c ∷ description) ds = insert method_name (c ∷ description) ds

module _ {H : Type 0} where
  -- `ServiceInfo{name}`.
  abbrev pub blank_info : Bytes → ServiceInfo H
  blank_info name = record { name = name; methods = []; method_descriptions = [] }

  unfoldable pub register_service : Bytes → ServiceRegistry H → ServiceRegistry H
  register_service name r = insert name (blank_info name) r

  abbrev pub with_method : Bytes → Option H → Bytes → ServiceInfo H → ServiceInfo H
  with_method method_name handler description info = record info {
    methods = insert method_name handler info.methods;
    method_descriptions = describe method_name description info.method_descriptions;
  }

  unfoldable pub register_method :
      Bytes → Bytes → Option H → Bytes → ServiceRegistry H → ServiceRegistry H
  register_method service_name method_name handler description r = elim (lookup service_name r) [
    | none ↦
        insert service_name (with_method method_name handler description (blank_info service_name))
          (insert service_name (blank_info service_name) r)
    | some info ↦ insert service_name (with_method method_name handler description info) r
  ]

  unfoldable pub unregister_service : Bytes → ServiceRegistry H → ServiceRegistry H
  unregister_service name r = erase name r

  unfoldable pub find_method : Bytes → Bytes → ServiceRegistry H → Option H
  find_method service_name method_name r = elim (lookup service_name r) [
    | none ↦ none
    | some info ↦ elim (lookup method_name info.methods) [ none ↦ none | some handler ↦ handler ]
  ]

  unfoldable pub has_service : Bytes → ServiceRegistry H → Bool
  has_service name r = elim (lookup name r) [ none ↦ false | some info ↦ true ]

  unfoldable pub has_method : Bytes → Bytes → ServiceRegistry H → Bool
  has_method service_name method_name r = elim (lookup service_name r) [
    | none ↦ false
    | some info ↦ elim (lookup method_name info.methods) [ none ↦ false | some handler ↦ true ]
  ]

  unfoldable pub list_services : ServiceRegistry H → List Bytes
  list_services r = keys r

  unfoldable pub list_methods : Bytes → ServiceRegistry H → List Bytes
  list_methods service_name r = elim (lookup service_name r) [
    | none ↦ []
    | some info ↦ keys info.methods
  ]

  unfoldable pub get_service_info : Bytes → ServiceRegistry H → Option (ServiceInfo H)
  get_service_info name r = lookup name r
