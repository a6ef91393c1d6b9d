-- ===== src/Coroutine/Scheduler/Steps.antt =====
-- coroutine/scheduler.hpp: what scheduling and a worker's turn do to the coroutines that are pending.
use cpp20_coroutine_io_uring.Common.{
  ℕ, ◌+◌, ◌≤◌, ◌<◌, ◌≡◌, inl, inr, refl, sym, ◌∙◌, List, [], ◌∷◌, ◌++◌, ℤ, pos, negsuc, length,
  get_or, ltb, ◌==◌, if◌then◌else◌, weigh, weigh-append, least_from, IsLeast, least_from_lem,
  length-set, Bool-cases, ltb→lt, arith,
}
use cpp20_coroutine_io_uring.Coroutine.Scheduler.Bag.{
  Bag, of_list, put_all, times, times-of_list, times-put_all, ext,
}
use cpp20_coroutine_io_uring.Coroutine.Scheduler.{
  WorkStealingQueue, Scheduler, Turn, push, shortest_from, shortest, push_to, schedule, worker_turn,
}
use cpp20_coroutine_io_uring.Coroutine.Scheduler.Queues.{flatten, weigh-set, take_task_cases}

-- The abstraction function.
abbrev pub pending : Scheduler → Bag
pending s = of_list (flatten s.local_queues)

-- There is a queue for every thread, and at least one.
pub record IsValid (s : Scheduler) : Type 0 where
  pub queues : length s.local_queues ≡ s.thread_count
  pub threads : 1 ≤ s.thread_count

pub weigh-push_to :
    (w : ℕ → ℕ) (i task : ℕ) (s : Scheduler)
    → i < length s.local_queues
    → weigh w (flatten (push_to i task s).local_queues)
      ≡ weigh w (task ∷ []) + weigh w (flatten s.local_queues)
unfolding push_to push
weigh-push_to w i task s h = omega (
  arith,
  weigh-set w s.local_queues i (get_or s.local_queues i [] ++ task ∷ []) h,
  weigh-append w (get_or s.local_queues i []) (task ∷ []),
)

shortest_from-least_from :
    (i min_idx min_size : ℕ) (queues : List WorkStealingQueue)
    → shortest_from i min_idx min_size queues ≡ least_from length i min_idx min_size queues
unfolding shortest_from
shortest_from-least_from i min_idx min_size [] = refl
shortest_from-least_from i min_idx min_size (queue ∷ queues) =
    rw (shortest_from-least_from (i + 1) i (length queue) queues) rw
      (shortest_from-least_from (i + 1) min_idx min_size queues) refl

-- The queue that `schedule` chooses stands in the list and is no longer than any other.
pub shortest-IsLeast :
    (queues : List WorkStealingQueue)
    → 1 ≤ length queues
    → IsLeast length [] queues (shortest queues)
unfolding shortest shortest_from
shortest-IsLeast [] h = absurd (omega arith)
shortest-IsLeast (queue ∷ queues) h =
    rw (shortest_from-least_from 1 0 (length queue) queues) (least_from_lem length [] queue queues)

push_to-pending :
    (i task : ℕ) (s : Scheduler)
    → i < length s.local_queues
    → pending (push_to i task s) ≡ put_all (task ∷ []) (pending s)
unfolding times
push_to-pending i task s h = ext (pending (push_to i task s)) (put_all (task ∷ []) (pending s)) λ a.
    times-of_list a (flatten (push_to i task s).local_queues)
    ∙ weigh-push_to (λ x. if a == x then 1 else 0) i task s h
    ∙ sym (times-put_all a (task ∷ []) (pending s))

-- Where a task goes.
abbrev pub target : ℤ → Scheduler → ℕ
target (negsuc n) s = shortest s.local_queues
target (pos thread_id) s =
    if ltb thread_id s.thread_count then thread_id else shortest s.local_queues

pub schedule-target :
    (task : ℕ) (thread_id : ℤ) (s : Scheduler)
    → schedule task thread_id s ≡ push_to (target thread_id s) task s
unfolding schedule
schedule-target task (negsuc n) s = refl
schedule-target task (pos thread_id) s = elim (Bool-cases (ltb thread_id s.thread_count)) [
  | inl q ↦ rw q refl
  | inr q ↦ rw q refl
]

pub target_lt :
    (thread_id : ℤ) (s : Scheduler) → IsValid s → target thread_id s < length s.local_queues
target_lt (negsuc n) s v = (shortest-IsLeast s.local_queues (omega (arith, v.queues, v.threads))).0
target_lt (pos thread_id) s v = ground (
  arith,
  v.queues,
  v.threads,
  (shortest-IsLeast s.local_queues (omega (arith, v.queues, v.threads))).0,
  ltb→lt thread_id s.thread_count,
)

-- Scheduling a coroutine, on whatever thread is asked for, adds it to the bag of what waits, once.
pub pending-schedule :
    (task : ℕ) (thread_id : ℤ) (s : Scheduler)
    → IsValid s
    → pending (schedule task thread_id s) ≡ put_all (task ∷ []) (pending s)
pending-schedule task thread_id s v =
    rw (schedule-target task thread_id s)
      (push_to-pending (target thread_id s) task s (target_lt thread_id s v))

pub schedule-IsValid :
    (task : ℕ) (thread_id : ℤ) (s : Scheduler) → IsValid s → IsValid (schedule task thread_id s)
unfolding push_to
schedule-IsValid task thread_id s v = rw (schedule-target task thread_id s) (record {
  queues =
      length-set s.local_queues (target thread_id s)
        (push task (get_or s.local_queues (target thread_id s) []))
      ∙ v.queues;
  threads = v.threads;
})

-- What a turn resumes.
abbrev pub log : Turn → List ℕ
log Turn.ended = []
log (Turn.resumed task) = task ∷ []
log Turn.waits = []

-- A turn resumes at most one coroutine and takes exactly that one out of the bag.
pub weigh-worker_turn :
    (w : ℕ → ℕ) (thread_id : ℕ) (s : Scheduler)
    → (weigh w (flatten s.local_queues)
        ≡ weigh w (log (worker_turn thread_id s).0)
          + weigh w (flatten (worker_turn thread_id s).1.local_queues))
      × (length (worker_turn thread_id s).1.local_queues ≡ length s.local_queues)
      × ((worker_turn thread_id s).1.thread_count ≡ s.thread_count)
unfolding worker_turn
weigh-worker_turn w thread_id s = elim (Bool-cases s.running) [
  | inr q ↦ rw q (omega arith, refl, refl)
  | inl q ↦ elim (take_task_cases thread_id s.local_queues) [
    | inl (n, e) ↦ rw (q, n) (omega arith, refl, refl)
    | inr (task, left, e, l, c) ↦ rw (q, e) (c w, l, refl)
  ]
]

pub worker_turn-IsValid :
    (thread_id : ℕ) (s : Scheduler) → IsValid s → IsValid (worker_turn thread_id s).1
worker_turn-IsValid thread_id s v = record {
  queues = omega (
    arith,
    v.queues,
    (weigh-worker_turn (λ x. 0) thread_id s).1,
    (weigh-worker_turn (λ x. 0) thread_id s).2,
  );
  threads = omega (arith, v.threads, (weigh-worker_turn (λ x. 0) thread_id s).2);
}
