-- ===== src/Coroutine/Scheduler.antt =====
-- coroutine/scheduler.hpp: `WorkStealingQueue`, `Scheduler` and the awaiters of `ScheduleOn` and
-- `yield`. A coroutine is its number. The locks make each member of a queue one step; what the
-- threads do is a sequence of such steps, a turn of a worker's loop being one.
pub mod Bag
pub mod Queues
pub mod Steps
pub mod Refinement
mod Tests
use cpp20_coroutine_io_uring.Common.{
  ℕ, ◌+◌, Bool, true, false, not, List, [], ◌∷◌, ◌++◌, Option, none, some, ℤ, pos, negsuc, length,
  get_or, set, replicate, ltb, ◌==◌, if◌then◌else◌,
}

abbrev pub WorkStealingQueue : Type 0
WorkStealingQueue = List ℕ

unfoldable pub push : ℕ → WorkStealingQueue → WorkStealingQueue
push task queue = queue ++ task ∷ []

-- From the back.
unfoldable pub pop : WorkStealingQueue → Option (ℕ × WorkStealingQueue)
pop [] = none
pop (x ∷ queue) = elim (pop queue) [
  | none ↦ some (x, [])
  | some (task, rest) ↦ some (task, x ∷ rest)
]

-- From the front.
unfoldable pub steal : WorkStealingQueue → Option (ℕ × WorkStealingQueue)
steal [] = none
steal (x ∷ queue) = some (x, queue)

pub record Scheduler : Type 0 where
  pub thread_count : ℕ
  pub running : Bool
  pub local_queues : List WorkStealingQueue

-- The constructor, which starts the threads.
unfoldable pub start : ℕ → Scheduler
start n = record {
  thread_count = if ltb 0 n then n else 4;
  running = true;
  local_queues = replicate (if ltb 0 n then n else 4) [];
}

unfoldable pub stop : Scheduler → Scheduler
stop s = record s { running = false }

-- The loop over the queues from index `i` on, for the first of the shortest.
unfoldable pub shortest_from : ℕ → ℕ → ℕ → List WorkStealingQueue → ℕ
shortest_from i min_idx min_size [] = min_idx
shortest_from i min_idx min_size (queue ∷ queues) =
    if ltb (length queue) min_size
    then shortest_from (i + 1) i (length queue) queues
    else shortest_from (i + 1) min_idx min_size queues

unfoldable pub shortest : List WorkStealingQueue → ℕ
shortest [] = 0
shortest (queue ∷ queues) = shortest_from 1 0 (length queue) queues

unfoldable pub push_to : ℕ → ℕ → Scheduler → Scheduler
push_to i task s = record s {
  local_queues = set s.local_queues i (push task (get_or s.local_queues i []));
}

-- A negative or too large `thread_id` means that the shortest queue is taken. `schedule_batch` is a
-- loop of such steps, between which other threads run.
unfoldable pub schedule : ℕ → ℤ → Scheduler → Scheduler
schedule task (negsuc n) s = push_to (shortest s.local_queues) task s
schedule task (pos thread_id) s =
    if ltb thread_id s.thread_count
    then push_to thread_id task s
    else push_to (shortest s.local_queues) task s

unfoldable pub pending_in : List WorkStealingQueue → ℕ
pending_in [] = 0
pending_in (queue ∷ queues) = length queue + pending_in queues

unfoldable pub pending_count : Scheduler → ℕ
pending_count s = pending_in s.local_queues

abbrev pub keep_queue :
    WorkStealingQueue → Option (ℕ × List WorkStealingQueue) → Option (ℕ × List WorkStealingQueue)
keep_queue queue none = none
keep_queue queue (some (task, queues)) = some (task, queue ∷ queues)

-- The worker's loop over the queues from index `i` on, for one to steal from.
unfoldable pub steal_from : ℕ → ℕ → List WorkStealingQueue → Option (ℕ × List WorkStealingQueue)
steal_from thread_id i [] = none
steal_from thread_id i (queue ∷ queues) =
    let later = keep_queue queue (steal_from thread_id (i + 1) queues) in
    if not (i == thread_id)
    then elim (steal queue) [ none ↦ later | some (task, rest) ↦ some (task, rest ∷ queues) ]
    else later

-- What the worker's own queue gives, or else what it can steal.
unfoldable pub own_or_stolen :
    ℕ
    → List WorkStealingQueue
    → Option (ℕ × WorkStealingQueue)
    → Option (ℕ × List WorkStealingQueue)
own_or_stolen thread_id queues none = steal_from thread_id 0 queues
own_or_stolen thread_id queues (some (task, rest)) = some (task, set queues thread_id rest)

unfoldable pub take_task : ℕ → List WorkStealingQueue → Option (ℕ × List WorkStealingQueue)
take_task thread_id queues = own_or_stolen thread_id queues (pop (get_or queues thread_id []))

-- What a turn of a worker's loop comes to: the loop ends, a coroutine is resumed, or the worker waits
-- for at most ten milliseconds.
pub data Turn : Type 0 where
  ended : Turn
  resumed : (task : ℕ) → Turn
  waits : Turn

unfoldable pub worker_turn : ℕ → Scheduler → Turn × Scheduler
worker_turn thread_id s =
    if s.running
    then elim (take_task thread_id s.local_queues) [
      | none ↦ (Turn.waits, s)
      | some (task, queues) ↦ (Turn.resumed task, record s { local_queues = queues })
    ]
    else (Turn.ended, s)

-- The condition on which a waiting worker goes on before its time is over.
unfoldable pub wakes : Scheduler → Bool
wakes s = if s.running then ltb 0 (pending_count s) else true

-- `await_suspend` of `schedule_on` and of `yield`, which are never ready.
unfoldable pub schedule_on : ℕ → ℤ → Scheduler → Scheduler
schedule_on handle thread_id s = schedule handle thread_id s

unfoldable pub yield_from : ℕ → Scheduler → Scheduler
yield_from handle s = schedule handle (negsuc 0) s
