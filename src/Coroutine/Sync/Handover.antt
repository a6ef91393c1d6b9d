-- ===== src/Coroutine/Sync/Handover.antt =====
-- coroutine/sync.hpp: in which order waiting coroutines are resumed, and where `lock` and `acquire`
-- let coroutines through without taking the lock or a permit.
use cpp20_coroutine_io_uring.Common.{
  ℕ, zero, suc, ◌-◌, ◌^◌, ◌<◌, ◌≡◌, refl, ap, true, false, List, [], ◌∷◌, ◌++◌, arith, length,
  append_assoc, append-nil,
}
use cpp20_coroutine_io_uring.Coroutine.Sync.{
  AsyncMutex, new_mutex, lock, unlock, AsyncSemaphore, acquire, AsyncConditionVariable, notify_one,
  notify_all, drain,
}

-- The coroutines lock one after the other; the result is who went on at once, in order.
unfoldable pub lock_all : AsyncMutex → List ℕ → List ℕ × AsyncMutex
lock_all m [] = ([], m)
lock_all m (co ∷ cos) =
    let (resumed, m') = lock m co in let (later, m'') = lock_all m' cos in (resumed ++ later, m'')

-- So many unlocks in a row.
unfoldable pub unlock_all : ℕ → AsyncMutex → List ℕ × AsyncMutex
unlock_all zero m = ([], m)
unlock_all (suc n) m =
    let (resumed, m') = unlock m in let (later, m'') = unlock_all n m' in (resumed ++ later, m'')

-- On a mutex that is not set, every coroutine that locks it goes on at once, and the mutex stays as
-- it is: `await_ready` finds it free and nobody sets it.
lock_all_unlocked : (m : AsyncMutex) (cos : List ℕ) → m.locked ≡ false → lock_all m cos ≡ (cos, m)
unfolding lock_all lock
lock_all_unlocked m [] free = refl
lock_all_unlocked m (co ∷ cos) free = ground (arith, lock_all_unlocked m cos free)

-- A mutex that is set makes every coroutine wait, behind those that wait already.
lock_all_locked :
    (m : AsyncMutex) (cos : List ℕ)
    → m.locked ≡ true
    → lock_all m cos ≡ ([], record m { waiters = m.waiters ++ cos })
unfolding lock_all lock
lock_all_locked m [] held = ground (arith, append-nil m.waiters)
lock_all_locked m (co ∷ cos) held = ground (
  arith,
  lock_all_locked (record m { waiters = m.waiters ++ co ∷ [] }) cos held,
  append_assoc m.waiters (co ∷ []) cos,
)

unlock_all_waiters :
    (ws : List ℕ) (m : AsyncMutex)
    → m.waiters ≡ ws
    → unlock_all (length ws) m ≡ (ws, record m { waiters = [] })
unfolding unlock_all unlock
unlock_all_waiters [] m e = ground arith
unlock_all_waiters (w ∷ ws) m e = ground (arith, unlock_all_waiters ws (record m { waiters = ws }))

-- On a mutex that is set and has no waiters, coroutines that lock it all wait; each unlock resumes
-- one, in the order of their arrival, the mutex staying set; one unlock more frees it.
pub unlock-lock_fifo :
    (m : AsyncMutex) (cos : List ℕ)
    → m.locked ≡ true
    → m.waiters ≡ []
    → (lock_all m cos ≡ ([], record m { waiters = cos }))
      × (unlock_all (length cos) (lock_all m cos).1 ≡ (cos, m))
      × (unlock m ≡ ([], record m { locked = false }))
unfolding unlock
unlock-lock_fifo m cos held none_wait =
    ground (arith, lock_all_locked m cos held, unlock_all_waiters cos (record m { waiters = cos }))

-- What coroutines do with a mutex.
pub data MutexUse : Type 0 where
  locks : (co : ℕ) → MutexUse
  unlocks : MutexUse

unfoldable pub use_mutex : List MutexUse → AsyncMutex → List ℕ × AsyncMutex
use_mutex [] m = ([], m)
use_mutex (locks co ∷ uses) m =
    let (resumed, m') = lock m co in let (later, m'') = use_mutex uses m' in (resumed ++ later, m'')
use_mutex (unlocks ∷ uses) m =
    let (resumed, m') = unlock m in let (later, m'') = use_mutex uses m' in (resumed ++ later, m'')

-- Those that lock, in order.
abbrev pub lockers : List MutexUse → List ℕ
lockers [] = []
lockers (locks co ∷ uses) = co ∷ lockers uses
lockers (unlocks ∷ uses) = lockers uses

-- However coroutines lock and unlock a new mutex, as long as nothing comes between the two steps of
-- a `lock`: each that locks goes on at once, whether or not one that locked before has unlocked, and
-- the mutex is never set. It excludes nobody.
pub use_mutex-lockers :
    (uses : List MutexUse) → use_mutex uses new_mutex ≡ (lockers uses, new_mutex)
unfolding use_mutex lock unlock
use_mutex-lockers [] = refl
use_mutex-lockers (locks co ∷ uses) = ap (λ r. (co ∷ r.0, r.1)) (use_mutex-lockers uses)
use_mutex-lockers (unlocks ∷ uses) = ap (λ r. (r.0, r.1)) (use_mutex-lockers uses)

-- The same of the semaphore: while a permit is there, `acquire` takes none.
unfoldable pub acquire_all : AsyncSemaphore → List ℕ → List ℕ × AsyncSemaphore
acquire_all s [] = ([], s)
acquire_all s (co ∷ cos) =
    let (resumed, s') = acquire s co in
    let (later, s'') = acquire_all s' cos in (resumed ++ later, s'')

-- Any number of coroutines pass a semaphore whose count is not 0, and the count stays.
pub acquire_all_pass :
    (s : AsyncSemaphore) (cos : List ℕ) → 0 < s.count → acquire_all s cos ≡ (cos, s)
unfolding acquire_all acquire
acquire_all_pass s [] some_permit = refl
acquire_all_pass s (co ∷ cos) some_permit = ground (arith, acquire_all_pass s cos)

-- On a semaphore whose count is 0, the first coroutine waits and wraps the count, so that all that
-- come later pass.
pub acquire_all_wrap :
    (s : AsyncSemaphore) (first : ℕ) (cos : List ℕ)
    → s.count ≡ 0
    → acquire_all s (first ∷ cos)
      ≡ (cos, record s { count = 2 ^ 64 - 1; waiters = s.waiters ++ first ∷ [] })
unfolding acquire_all acquire
acquire_all_wrap s first cos no_permit = ground (
  arith,
  acquire_all_pass (record s { count = 2 ^ 64 - 1; waiters = s.waiters ++ first ∷ [] }) cos,
)

-- So many notifications in a row.
unfoldable pub notify_times : ℕ → AsyncConditionVariable → List ℕ × AsyncConditionVariable
notify_times zero cv = ([], cv)
notify_times (suc n) cv =
    let (resumed, cv') = notify_one cv in
    let (later, cv'') = notify_times n cv' in (resumed ++ later, cv'')

drain_lem : (ws : List ℕ) → drain ws ≡ ws
unfolding drain
drain_lem [] = refl
drain_lem (w ∷ ws) = ap (◌∷◌ w) (drain_lem ws)

notify_times_waiters :
    (ws : List ℕ) (cv : AsyncConditionVariable)
    → cv.waiters ≡ ws
    → notify_times (length ws) cv ≡ (ws, record cv { waiters = [] })
unfolding notify_times notify_one
notify_times_waiters [] cv e = ground arith
notify_times_waiters (w ∷ ws) cv e =
    ground (arith, notify_times_waiters ws (record cv { waiters = ws }))

-- `notify_all` resumes every waiting coroutine once, in the order of arrival, as one `notify_one`
-- for each would, and nobody waits afterwards.
pub notify_all-notify_one :
    (cv : AsyncConditionVariable)
    → (notify_all cv ≡ (cv.waiters, record cv { waiters = [] }))
      × (notify_times (length cv.waiters) cv ≡ notify_all cv)
unfolding notify_all
notify_all-notify_one cv =
    ground (arith, drain_lem cv.waiters, notify_times_waiters cv.waiters cv refl)
