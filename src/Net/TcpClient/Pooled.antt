-- ===== src/Net/TcpClient/Pooled.antt =====
-- net/tcp_client.hpp with net/connection_pool.hpp: calls through a pool.
use cpp20_coroutine_io_uring.Common.{
  ℕ, ◌+◌, ◌^◌, ◌<◌, ◌≡◌, inl, inr, refl, subst, true, false, ◌&&◌, List, [], ◌∷◌, Option, none,
  some, ℤ, length, ltb, Bool-cases, Option-cases, ltb→lt, arith,
}
use cpp20_coroutine_io_uring.Net.Connection.{Connection, is_connected}
use cpp20_coroutine_io_uring.Net.ConnectionPool.{
  ConnectionPool, reused, to_create, to_wait, add_one, sub_one, take_idle, acquire_locked,
  acquire_create, release, store_at,
}
use cpp20_coroutine_io_uring.Net.ConnectionPool.Accounting.{
  IsValid, take_idle-IsValid, release-IsValid,
}
use cpp20_coroutine_io_uring.Net.TcpClient.{PooledCall, acquired, with_pooled}

-- What taking an idle connection does to the number of connections in use.
abbrev Taken : ConnectionPool → Option ℕ → ConnectionPool → Type 0
Taken p none q = q.active_connections ≡ p.active_connections
Taken p (some i) q = q.active_connections ≡ add_one p.active_connections

take_idle-Taken : (is : List ℕ) (p : ConnectionPool) → Taken p (take_idle is p).0 (take_idle is p).1
unfolding take_idle
take_idle-Taken [] p = refl
take_idle-Taken (i ∷ is) p = elim (Bool-cases (is_connected (p.store i))) [
  | inl h ↦ rw h refl
  | inr h ↦ rw h (take_idle-Taken is (record p { total_connections = sub_one p.total_connections }))
]

take_idle-max :
    (is : List ℕ) (p : ConnectionPool) → (take_idle is p).1.max_connections ≡ p.max_connections
unfolding take_idle
take_idle-max [] p = refl
take_idle-max (i ∷ is) p = elim (Bool-cases (is_connected (p.store i))) [
  | inl h ↦ rw h refl
  | inr h ↦ rw h (take_idle-max is (record p { total_connections = sub_one p.total_connections }))
]

-- A connection in use, of a valid pool that had `active` in use before.
record Lent (active : ℕ) (q : ConnectionPool) : Type 0 where
  pub valid : IsValid q
  pub one_more : q.active_connections ≡ active + 1

-- What `acquire` gives: it waits, and then the pool is full; or it gives nothing, and then no socket
-- could be made; or a connection.
abbrev Gives : ConnectionPool → Option ℕ → Option (Option ℕ × ConnectionPool) → Type 0
Gives p socket none =
    ltb (take_idle p.idle_connections p).1.total_connections p.max_connections ≡ false
Gives p socket (some (none, q)) = socket ≡ none
Gives p socket (some (some i, q)) = Lent p.active_connections q

acquire_found :
    (p : ConnectionPool) (i : ℕ)
    → (take_idle p.idle_connections p).0 ≡ some i
    → acquire_locked p ≡ (reused i, (take_idle p.idle_connections p).1)
unfolding acquire_locked
acquire_found p i e = rw (e, acquire_locked) refl

acquire_room :
    (p : ConnectionPool)
    → (take_idle p.idle_connections p).0 ≡ none
    → ltb
        (take_idle p.idle_connections p).1.total_connections
        (take_idle p.idle_connections p).1.max_connections
      ≡ true
    → acquire_locked p ≡ (to_create, (take_idle p.idle_connections p).1)
unfolding acquire_locked
acquire_room p e r = rw (e, r, acquire_locked) refl

acquire_full :
    (p : ConnectionPool)
    → (take_idle p.idle_connections p).0 ≡ none
    → ltb
        (take_idle p.idle_connections p).1.total_connections
        (take_idle p.idle_connections p).1.max_connections
      ≡ false
    → acquire_locked p ≡ (to_wait, (take_idle p.idle_connections p).1)
unfolding acquire_locked
acquire_full p e r = rw (e, r, acquire_locked) refl

idle-IsValid : (p : ConnectionPool) → IsValid p → IsValid (take_idle p.idle_connections p).1
idle-IsValid p v = take_idle-IsValid p.idle_connections p v.counted v.fits

create_lent :
    (socket : Option ℕ) (p q : ConnectionPool)
    → IsValid q
    → q.active_connections ≡ p.active_connections
    → q.total_connections + 2 < 2 ^ 64
    → Gives p socket (some (acquire_create socket q))
unfolding acquire_create
create_lent none p q v a f = refl
create_lent (some fd) p q v a f = record {
  valid = record { counted = omega (arith, v.counted); fits = omega (arith, f) };
  one_more = omega (arith, a, v.counted, f);
}

after_locked :
    (socket : Option ℕ) (p : ConnectionPool)
    → IsValid p
    → p.max_connections + 2 < 2 ^ 64
    → Gives p socket (acquired socket (acquire_locked p))
unfolding acquired
after_locked socket p v m = elim (Option-cases (take_idle p.idle_connections p).0) [
  | inr (i, found) ↦
      let used : (take_idle p.idle_connections p).1.active_connections
          ≡ add_one p.active_connections =
        subst (λ o. Taken p o (take_idle p.idle_connections p).1) found
          (take_idle-Taken p.idle_connections p) in
      rw (acquire_found p i found)
        (record { valid = idle-IsValid p v; one_more = omega (arith, used, v.counted, v.fits) })
  | inl nothing ↦
      let used : (take_idle p.idle_connections p).1.active_connections ≡ p.active_connections =
        subst (λ o. Taken p o (take_idle p.idle_connections p).1) nothing
          (take_idle-Taken p.idle_connections p) in
      let same = take_idle-max p.idle_connections p in
      elim (Bool-cases (
        ltb (take_idle p.idle_connections p).1.total_connections
          (take_idle p.idle_connections p).1.max_connections)) [
            | inr full ↦ rw (acquire_full p nothing full) (
                subst (λ n. ltb (take_idle p.idle_connections p).1.total_connections n ≡ false) same
                  full)
            | inl room ↦ rw (acquire_room p nothing room) (
                create_lent socket p (take_idle p.idle_connections p).1 (idle-IsValid p v) used (
                  omega (
                    arith,
                    m,
                    same,
                    ltb→lt (take_idle p.idle_connections p).1.total_connections
                        (take_idle p.idle_connections p).1.max_connections room,
                  )))
          ]
]

release-active :
    (i : ℕ) (q : ConnectionPool)
    → (release (some i) q).active_connections ≡ sub_one q.active_connections
unfolding release
release-active i q =
    elim (Bool-cases (is_connected (q.store i) && ltb (length q.idle_connections) q.max_idle)) [
      | inl b ↦ rw b refl
      | inr b ↦ rw b refl
    ]

-- What a call through a pool `p` may come to.
abbrev pub Served : ConnectionPool → Option ℕ → PooledCall → Type 0
Served p socket PooledCall.waits =
    ltb (take_idle p.idle_connections p).1.total_connections p.max_connections ≡ false
Served p socket PooledCall.null_dereference = socket ≡ none
Served p socket (PooledCall.returns n q) = IsValid q × (q.active_connections ≡ p.active_connections)

with_pooled-Served :
    (step : Connection → ℤ × Connection) (socket : Option ℕ) (p : ConnectionPool)
    (given : Option (Option ℕ × ConnectionPool))
    → Gives p socket given
    → Served p socket (with_pooled step given)
unfolding with_pooled
with_pooled-Served step socket p none l = l
with_pooled-Served step socket p (some (none, q)) l = l
with_pooled-Served step socket p (some (some i, q)) l =
    let back : ConnectionPool = record q { store = store_at q.store i (step (q.store i)).1 } in
    let valid : IsValid back = record { counted = l.valid.counted; fits = l.valid.fits } in
    (
      release-IsValid i back valid (omega (arith, l.one_more)),
      omega (arith, release-active i back, l.one_more, l.valid.counted, l.valid.fits),
    )

-- A transfer through a valid pool whose bound is at least two below 2^64 - 1, a send or a receive
-- with whatever result, that has a result gives the connection back: the pool is valid after it and
-- has as many connections in use as before. It waits only if the pool, once the idle connections
-- that are closed are taken out, is full, and it dereferences a null pointer only if no socket could
-- be made.
pub with_pooled-acquired :
    (step : Connection → ℤ × Connection) (socket : Option ℕ) (p : ConnectionPool)
    → IsValid p
    → p.max_connections + 2 < 2 ^ 64
    → Served p socket (with_pooled step (acquired socket (acquire_locked p)))
with_pooled-acquired step socket p v m =
    with_pooled-Served step socket p (acquired socket (acquire_locked p))
      (after_locked socket p v m)
