-- ===== src/Rpc/Registry/Laws.antt =====
-- rpc/service_registry.hpp: what the queries of the registry answer after each change of it.
use cpp20_coroutine_io_uring.Common.{
  ◌≡◌, refl, true, ◌&&◌, [], Option, none, some, arith, subst, inl, inr, Bool-cases, Option-cases,
  if◌then◌else◌, Bytes, str_eq, str_eq_iff, lookup, insert, keys, key_count, lookup-insert,
  lookup-erase, keys-lookup, HasUniqueKeys, insert-HasUniqueKeys, erase-HasUniqueKeys,
}
use cpp20_coroutine_io_uring.Rpc.Registry.{
  ServiceInfo, ServiceRegistry, blank_info, with_method, register_service, register_method,
  unregister_service, find_method, has_service, has_method, list_services,
}

blank-HasUniqueKeys : (V : Type 0) → HasUniqueKeys {V = V} []
unfolding keys key_count
blank-HasUniqueKeys V k = omega arith

lookup_nil : (V : Type 0) (k : Bytes) → lookup {V = V} k [] ≡ none
unfolding lookup
lookup_nil V k = refl

module _ {H : Type 0} where
  -- After a method is registered, looking it up finds its handler, and looking up any other finds
  -- what it found before, whether the service was registered or not.
  pub find_method-register_method :
      (s m s' m' d : Bytes) (h : Option H) (r : ServiceRegistry H)
      → find_method s' m' (register_method s m h d r)
        ≡ (if str_eq s s' && str_eq m m' then h else find_method s' m' r)
  unfolding find_method register_method
  find_method-register_method s m s' m' d h r = elim (Option-cases (lookup s r)) [
    | inl e ↦ ground (
      arith,
      e,
      str_eq_iff s s',
      lookup-insert s s' (with_method m h d (blank_info s)) (insert s (blank_info s) r),
      lookup-insert s s' (blank_info s) r,
      lookup-insert m m' h [],
      lookup_nil (Option H) m',
    )
    | inr (info, e) ↦ ground (
      arith,
      e,
      str_eq_iff s s',
      lookup-insert s s' (with_method m h d info) r,
      lookup-insert m m' h info.methods,
    )
  ]

  -- Unregistering a service forgets its methods and no other.
  pub find_method-unregister_service :
      (s s' m' : Bytes) (r : ServiceRegistry H)
      → find_method s' m' (unregister_service s r)
        ≡ (if str_eq s s' then none else find_method s' m' r)
  unfolding find_method unregister_service
  find_method-unregister_service s s' m' r = ground (arith, lookup-erase s s' r)

  -- Registering a service drops the methods that it had, and no other.
  pub find_method-register_service :
      (s s' m' : Bytes) (r : ServiceRegistry H)
      → find_method s' m' (register_service s r)
        ≡ (if str_eq s s' then none else find_method s' m' r)
  unfolding find_method register_service lookup
  find_method-register_service s s' m' r = ground (arith, lookup-insert s s' (blank_info s) r)

  -- Registering a method makes it known, and leaves every other method as known as it was.
  pub has_method-register_method :
      (s m s' m' d : Bytes) (h : Option H) (r : ServiceRegistry H)
      → has_method s' m' (register_method s m h d r)
        ≡ (if str_eq s s' && str_eq m m' then true else has_method s' m' r)
  unfolding has_method register_method
  has_method-register_method s m s' m' d h r = elim (Option-cases (lookup s r)) [
    | inl e ↦ ground (
      arith,
      e,
      str_eq_iff s s',
      lookup-insert s s' (with_method m h d (blank_info s)) (insert s (blank_info s) r),
      lookup-insert s s' (blank_info s) r,
      lookup-insert m m' h [],
      lookup_nil (Option H) m',
    )
    | inr (info, e) ↦ ground (
      arith,
      e,
      str_eq_iff s s',
      lookup-insert s s' (with_method m h d info) r,
      lookup-insert m m' h info.methods,
    )
  ]

  -- In a registry whose keys are distinct, a name is listed once if the service is registered and
  -- not at all if it is not.
  pub list_services-has_service :
      (name : Bytes) (r : ServiceRegistry H)
      → HasUniqueKeys r
      → key_count name (list_services r) ≡ (if has_service name r then 1 else 0)
  unfolding list_services has_service
  list_services-has_service name r u = elim (Option-cases (lookup name r)) [
    | inl e ↦ ground (arith, e, keys-lookup name r)
    | inr (info, e) ↦ ground (arith, e, keys-lookup name r, u name)
  ]

  -- No service name stands twice, and no method name in any service.
  pub record IsValid (r : ServiceRegistry H) : Type 0 where
    pub unique_services : HasUniqueKeys r
    pub unique_methods :
        (name : Bytes) (info : ServiceInfo H)
        → lookup name r ≡ some info
        → HasUniqueKeys info.methods

  insert-IsValid :
      (s : Bytes) (info : ServiceInfo H) (r : ServiceRegistry H)
      → IsValid r
      → HasUniqueKeys info.methods
      → IsValid (insert s info r)
  insert-IsValid s info r v u = record {
    unique_services = insert-HasUniqueKeys s info r v.unique_services;
    unique_methods = λ name i e. elim (Bool-cases (str_eq s name)) [
      | inl same ↦
          let this_info : info ≡ i = ground (arith, lookup-insert s name info r) in
          subst (λ j. HasUniqueKeys j.methods) this_info u
      | inr other ↦ v.unique_methods name i (ground (arith, lookup-insert s name info r))
    ];
  }

  -- Registering a method keeps the registry's names distinct.
  pub register_method-IsValid :
      (s m d : Bytes) (h : Option H) (r : ServiceRegistry H)
      → IsValid r
      → IsValid (register_method s m h d r)
  unfolding register_method
  register_method-IsValid s m d h r v = elim (Option-cases (lookup s r)) [
    | inl e ↦
        rw (e, register_method)
          (insert-IsValid s _ _ (insert-IsValid s (blank_info s) r v (blank-HasUniqueKeys _))
            (insert-HasUniqueKeys m h [] (blank-HasUniqueKeys _)))
    | inr (info, e) ↦
        rw (e, register_method)
          (insert-IsValid s _ r v
            (insert-HasUniqueKeys m h info.methods (v.unique_methods s info e)))
  ]

  -- Unregistering a service keeps the registry's names distinct.
  pub unregister_service-IsValid :
      (s : Bytes) (r : ServiceRegistry H) → IsValid r → IsValid (unregister_service s r)
  unfolding unregister_service
  unregister_service-IsValid s r v = record {
    unique_services = erase-HasUniqueKeys s r v.unique_services;
    unique_methods = λ name i e. v.unique_methods name i (ground (arith, e, lookup-erase s name r));
  }
