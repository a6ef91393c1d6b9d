-- ===== src/Net/ConnectionPool/Accounting.antt =====
-- net/connection_pool.hpp: the counters and the idle list agree, and where they do not.
use cpp20_coroutine_io_uring.Common.{
  ℕ, ◌+◌, ◌-◌, ◌%◌, ◌^◌, ◌<◌, ◌≡◌, refl, sym, ap, ◌∙◌, true, false, ◌&&◌, List, [], ◌∷◌, Option,
  none, some, length, ltb, arith, inl, inr, Bool-cases, Option-cases,
}
use cpp20_coroutine_io_uring.Net.Connection.{is_connected}
use cpp20_coroutine_io_uring.Net.ConnectionPool.{
  ConnectionPool, Acquired, take_idle, acquire_locked, acquire_create, release, shutdown,
}

-- How the loop over the idle connections goes on.
take_idle_nil :
    (is : List ℕ) (p : ConnectionPool)
    → is ≡ []
    → take_idle is p ≡ (none, record p { idle_connections = is })
unfolding take_idle
take_idle_nil [] p e = refl
take_idle_nil (i ∷ is) p e = absurd (ground arith)

take_idle_hit :
    (i : ℕ) (is : List ℕ) (p : ConnectionPool)
    → is_connected (p.store i) ≡ true
    → take_idle (i ∷ is) p ≡ (
      some i,
      record p { idle_connections = is; active_connections = (p.active_connections + 1) % 2 ^ 64 },
    )
unfolding take_idle
take_idle_hit i is p h = rw (h, take_idle) refl

take_idle_miss :
    (i : ℕ) (is : List ℕ) (p : ConnectionPool)
    → is_connected (p.store i) ≡ false
    → take_idle (i ∷ is) p
      ≡ take_idle is (record p { total_connections = (p.total_connections + 2 ^ 64 - 1) % 2 ^ 64 })
unfolding take_idle
take_idle_miss i is p h = rw (h, take_idle) refl

acquire_locked_found :
    (p q : ConnectionPool) (i : ℕ)
    → take_idle p.idle_connections p ≡ (some i, q)
    → acquire_locked p ≡ (Acquired.reused i, q)
unfolding acquire_locked
acquire_locked_found p q i e = rw (e, acquire_locked, e) refl

acquire_locked_room :
    (p q : ConnectionPool)
    → take_idle p.idle_connections p ≡ (none, q)
    → ltb q.total_connections q.max_connections ≡ true
    → acquire_locked p ≡ (Acquired.to_create, q)
unfolding acquire_locked
acquire_locked_room p q e room = rw (e, acquire_locked, e, room) refl

-- Every connection that is counted is idle or is used.
pub record IsValid (p : ConnectionPool) : Type 0 where
  pub counted : p.total_connections ≡ p.active_connections + length p.idle_connections
  pub fits : p.total_connections + 1 < 2 ^ 64

pub take_idle-IsValid :
    (is : List ℕ) (p : ConnectionPool)
    → p.total_connections ≡ p.active_connections + length is
    → p.total_connections + 1 < 2 ^ 64
    → IsValid (take_idle is p).1
unfolding take_idle
take_idle-IsValid [] p e f = record { counted = omega arith; fits = f }
take_idle-IsValid (i ∷ is) p e f = elim (Bool-cases (is_connected (p.store i))) [
  | inl h ↦ rw h (record { counted = omega arith; fits = f })
  | inr h ↦ rw h (take_idle-IsValid is _ (omega arith) (omega arith))
]

-- The part of `acquire` under the mutex keeps a pool valid: its total is that of the idle and the
-- used connections, whatever idle connections were dropped.
pub acquire_locked-IsValid : (p : ConnectionPool) → IsValid p → IsValid (acquire_locked p).1
unfolding acquire_locked
acquire_locked-IsValid p v =
    let kept = take_idle-IsValid p.idle_connections p v.counted v.fits in
    elim (Option-cases (take_idle p.idle_connections p).0) [
      | inr (i, found) ↦ rw (found, acquire_locked) kept
      | inl nothing ↦
          elim (Bool-cases (
            ltb (take_idle p.idle_connections p).1.total_connections
              (take_idle p.idle_connections p).1.max_connections)) [
                | inl room ↦ rw (nothing, room, acquire_locked) kept
                | inr full ↦ rw (nothing, full, acquire_locked) kept
              ]
    ]

-- Creating a connection keeps the count, whether the socket is created or not.
pub acquire_create-IsValid :
    (fd : Option ℕ) (p : ConnectionPool)
    → IsValid p
    → p.total_connections + 2 < 2 ^ 64
    → IsValid (acquire_create fd p).1
unfolding acquire_create
acquire_create-IsValid none p v f = v
acquire_create-IsValid (some fd) p v f =
    let known = v.counted in record { counted = omega arith; fits = omega arith }

-- Releasing a connection keeps a pool valid if some connection is used, whether the connection goes
-- to the idle ones or is closed.
pub release-IsValid :
    (i : ℕ) (p : ConnectionPool)
    → IsValid p
    → 0 < p.active_connections
    → IsValid (release (some i) p)
unfolding release
release-IsValid i p v used =
    let known = v.counted in
    let few = v.fits in
    elim (Bool-cases (is_connected (p.store i) && ltb (length p.idle_connections) p.max_idle)) [
      | inl back ↦ rw (back, release) (record { counted = omega arith; fits = few })
      | inr gone ↦ rw (gone, release) (record { counted = omega arith; fits = omega arith })
    ]

-- A connection that is released while it is connected and there is room among the idle ones is the
-- next that is acquired, and the pool is as it was.
pub acquire_locked-release :
    (i : ℕ) (p : ConnectionPool)
    → is_connected (p.store i) ≡ true
    → length p.idle_connections < p.max_idle
    → p.active_connections < 2 ^ 64
    → acquire_locked (release (some i) p) ≡ (Acquired.reused i, p)
acquire_locked-release i p alive room fits =
    let enough : ltb (length p.idle_connections) p.max_idle ≡ true = ground arith in
    let same : ((p.active_connections + 2 ^ 64 - 1) % 2 ^ 64 + 1) % 2 ^ 64 ≡ p.active_connections =
      omega arith in
    let put : release (some i) p ≡ record p {
      active_connections = (p.active_connections + 2 ^ 64 - 1) % 2 ^ 64;
      idle_connections = i ∷ p.idle_connections;
    } =
      unfold release in (rw (alive, enough, release) refl) in
    rw put (
      acquire_locked_found _ _ i (
        take_idle_hit i p.idle_connections _ alive
        ∙ ap (λ n. (some i, record p { active_connections = n })) same))

-- No connection that is reused is disconnected.
take_idle-connected :
    (is : List ℕ) (p : ConnectionPool) (i : ℕ)
    → (take_idle is p).0 ≡ some i
    → is_connected ((take_idle is p).1.store i) ≡ true
take_idle-connected [] p i e = absurd (ground (arith, take_idle_nil [] p refl))
take_idle-connected (j ∷ is) p i e = elim (Bool-cases (is_connected (p.store j))) [
  | inl h ↦
      let hit = take_idle_hit j is p h in let same : j ≡ i = ground arith in rw (hit, ← same) h
  | inr h ↦
      let miss = take_idle_miss j is p h in
      rw miss (take_idle-connected is _ i (ap (λ r. r.0) (sym miss) ∙ e))
]

-- A connection that `acquire` reuses is connected.
pub acquire_locked-connected :
    (p : ConnectionPool) (i : ℕ)
    → (acquire_locked p).0 ≡ Acquired.reused i
    → is_connected ((acquire_locked p).1.store i) ≡ true
unfolding acquire_locked
acquire_locked-connected p i e = elim (Option-cases (take_idle p.idle_connections p).0) [
  | inl nothing ↦ absurd (ground (arith, nothing))
  | inr (j, found) ↦
      let same : j ≡ i = ground (arith, found) in
      rw (found, acquire_locked) (take_idle-connected p.idle_connections p i (found ∙ ap some same))
]

-- The pool once each of several threads has created its connection, with these descriptors.
pub create_times : List ℕ → ConnectionPool → ConnectionPool
unfolding acquire_create
create_times [] p = p
create_times (fd ∷ fds) p = create_times fds (acquire_create (some fd) p).1

create_times-total_connections :
    (fds : List ℕ) (p : ConnectionPool)
    → p.total_connections + length fds < 2 ^ 64
    → (create_times fds p).total_connections ≡ p.total_connections + length fds
unfolding create_times acquire_create
create_times-total_connections [] p f = omega arith
create_times-total_connections (fd ∷ fds) p f =
    create_times-total_connections fds (acquire_create (some fd) p).1 (omega arith) ∙ omega arith

-- With no idle connection and room for one more, the mutex part of `acquire` sends each of any
-- number of threads on to create a connection, and leaves the pool as it is; once they all have, the
-- total is above the bound by all but the first, if it does not wrap.
pub acquire_race :
    (p : ConnectionPool) (fds : List ℕ)
    → p.idle_connections ≡ []
    → p.total_connections + 1 ≡ p.max_connections
    → p.total_connections + length fds < 2 ^ 64
    → (acquire_locked p ≡ (Acquired.to_create, p))
      × ((create_times fds p).total_connections + 1 ≡ p.max_connections + length fds)
acquire_race p fds none_idle one_left f =
    let room : ltb p.total_connections p.max_connections ≡ true = ground arith in
    let sum = create_times-total_connections fds p f in
    (acquire_locked_room p p (take_idle_nil p.idle_connections p none_idle) room, omega arith)

-- A connection that is used while the pool is shut down makes the counter of used ones wrap when it
-- is released.
pub release-shutdown :
    (i : ℕ) (p : ConnectionPool) → (release (some i) (shutdown p)).active_connections ≡ 2 ^ 64 - 1
unfolding release shutdown
release-shutdown i p = elim (Bool-cases (is_connected ((shutdown p).store i) && ltb 0 p.max_idle)) [
  | inl back ↦ ground (arith, back)
  | inr gone ↦ ground (arith, gone)
]
