-- ===== src/Coroutine/Scheduler/Refinement.antt =====
-- coroutine/scheduler.hpp: `Scheduler` as an implementation of a bag of coroutines, and the runs of
-- its threads.
use cpp20_coroutine_io_uring.Common.{
  ℕ, zero, suc, ◌+◌, ◌≡◌, inl, inr, refl, ap, ◌∙◌, true, List, [], ◌∷◌, ◌++◌, ℤ, length, ltb, ◌==◌,
  if◌then◌else◌, weigh, weigh-append, weigh-length, map, min, replicate, length-replicate, ◌↔◌,
  Bool-cases, length-append, arith,
}
use cpp20_coroutine_io_uring.Coroutine.Scheduler.Bag.{
  count, count_self, put_all, times-of_list, times-put_all, ext,
}
use cpp20_coroutine_io_uring.Coroutine.Scheduler.{
  WorkStealingQueue, Scheduler, Turn, schedule, worker_turn, start, stop, pending_in, pending_count,
}
use cpp20_coroutine_io_uring.Coroutine.Scheduler.Queues.{flatten, take_task_cases}
use cpp20_coroutine_io_uring.Coroutine.Scheduler.Steps.{
  pending, IsValid, weigh-push_to, target, schedule-target, target_lt, schedule-IsValid, log,
  weigh-worker_turn, worker_turn-IsValid,
}

-- What the threads do: a coroutine is scheduled, a worker takes a turn, the scheduler is stopped.
pub data Action : Type 0 where
  schedules : (task : ℕ) (thread_id : ℤ) → Action
  turns : (thread_id : ℕ) → Action
  stops : Action

-- What an action resumes, and the scheduler after it.
abbrev pub act : Action → Scheduler → List ℕ × Scheduler
act (schedules task thread_id) s = ([], schedule task thread_id s)
act (turns thread_id) s = (log (worker_turn thread_id s).0, (worker_turn thread_id s).1)
act stops s = ([], stop s)

abbrev pub run : List Action → Scheduler → List ℕ × Scheduler
run [] s = ([], s)
run (action ∷ actions) s =
    let (later, s') = run actions (act action s).1 in ((act action s).0 ++ later, s')

abbrev pub scheduled_by : Action → List ℕ
scheduled_by (schedules task thread_id) = task ∷ []
scheduled_by (turns thread_id) = []
scheduled_by stops = []

abbrev pub scheduled : List Action → List ℕ
scheduled [] = []
scheduled (action ∷ actions) = scheduled_by action ++ scheduled actions

act-IsValid : (action : Action) (s : Scheduler) → IsValid s → IsValid (act action s).1
unfolding stop
act-IsValid (schedules task thread_id) s v = schedule-IsValid task thread_id s v
act-IsValid (turns thread_id) s v = worker_turn-IsValid thread_id s v
act-IsValid stops s v = record { queues = v.queues; threads = v.threads }

weigh-act :
    (w : ℕ → ℕ) (action : Action) (s : Scheduler)
    → IsValid s
    → weigh w (scheduled_by action) + weigh w (flatten s.local_queues)
      ≡ weigh w (act action s).0 + weigh w (flatten (act action s).1.local_queues)
unfolding stop
weigh-act w (schedules task thread_id) s v =
    rw (schedule-target task thread_id s)
      (omega (arith, weigh-push_to w (target thread_id s) task s (target_lt thread_id s v)))
weigh-act w (turns thread_id) s v = omega (arith, (weigh-worker_turn w thread_id s).0)
weigh-act w stops s v = refl

weigh-run :
    (w : ℕ → ℕ) (actions : List Action) (s : Scheduler)
    → IsValid s
    → weigh w (scheduled actions) + weigh w (flatten s.local_queues)
      ≡ weigh w (run actions s).0 + weigh w (flatten (run actions s).1.local_queues)
weigh-run w [] s v = refl
weigh-run w (action ∷ actions) s v = omega (
  arith,
  weigh-append w (scheduled_by action) (scheduled actions),
  weigh-append w (act action s).0 (run actions (act action s).1).0,
  weigh-act w action s v,
  weigh-run w actions (act action s).1 (act-IsValid action s v),
)

-- However the calls of `schedule`, the turns of the workers and `stop` follow on one another from a
-- valid state, the coroutines that were waiting and those that were scheduled are, each as often as
-- it was scheduled, those that were resumed and those that wait: none is lost and none is resumed
-- twice.
pub pending-run :
    (actions : List Action) (s : Scheduler)
    → IsValid s
    → put_all (scheduled actions) (pending s)
      ≡ put_all (run actions s).0 (pending (run actions s).1)
pending-run actions s v =
    ext (put_all (scheduled actions) (pending s))
      (put_all (run actions s).0 (pending (run actions s).1))
      λ a. omega (
        arith,
        weigh-run (λ x. if a == x then 1 else 0) actions s v,
        times-put_all a (scheduled actions) (pending s),
        times-put_all a (run actions s).0 (pending (run actions s).1),
        times-of_list a (flatten s.local_queues),
        times-of_list a (flatten (run actions s).1.local_queues),
      )

flatten-replicate : (n : ℕ) → flatten (replicate n []) ≡ []
flatten-replicate zero = refl
flatten-replicate (suc n) = flatten-replicate n

-- The constructor gives a valid state in which nothing waits, for every number of threads, 0 too.
pub start-IsValid : (n : ℕ) → IsValid (start n) × (flatten (start n).local_queues ≡ [])
unfolding start
start-IsValid n = (
  record { queues = length-replicate (if ltb 0 n then n else 4) []; threads = ground arith },
  flatten-replicate (if ltb 0 n then n else 4),
)

-- A turn of a running scheduler's worker resumes none exactly if no coroutine waits in any queue.
pub worker_turn-waits :
    (thread_id : ℕ) (s : Scheduler)
    → s.running ≡ true
    → ((worker_turn thread_id s).0 ≡ Turn.waits) ↔ (flatten s.local_queues ≡ [])
unfolding worker_turn
worker_turn-waits thread_id s q = elim (take_task_cases thread_id s.local_queues) [
  | inl (n, e) ↦ rw (q, n) (λ w. e, λ w. refl)
  | inr (task, left, e, l, c) ↦
      rw (q, e)
        (
          λ w. absurd (ground arith),
          λ w. absurd (
              omega
                (arith, ap (count task) w, c (λ x. if task == x then 1 else 0), count_self task)),
        )
]

turn-runs : (thread_id : ℕ) (s : Scheduler) → (worker_turn thread_id s).1.running ≡ s.running
unfolding worker_turn
turn-runs thread_id s = elim (Bool-cases s.running) [
  | inr q ↦ rw q refl
  | inl q ↦ elim (take_task_cases thread_id s.local_queues) [
    | inl (n, e) ↦ rw (q, n) q
    | inr (task, left, e, l, c) ↦ rw (q, e) q
  ]
]

-- While anything waits, a turn of any worker resumes one coroutine.
turn-length :
    (thread_id : ℕ) (s : Scheduler)
    → s.running ≡ true
    → length (log (worker_turn thread_id s).0) ≡ min 1 (length (flatten s.local_queues))
unfolding worker_turn
turn-length thread_id s q = elim (take_task_cases thread_id s.local_queues) [
  | inl (n, e) ↦ rw (q, n, e) refl
  | inr (task, left, e, l, c) ↦
      rw (q, e) (omega (arith, c (λ x. 1), weigh-length (flatten s.local_queues)))
]

-- If a running scheduler gets nothing new, then any `n` turns, of whatever workers, resume `n` of the
-- coroutines that wait, or all of them if fewer than `n` wait.
pub turns-length :
    (thread_ids : List ℕ) (s : Scheduler)
    → s.running ≡ true
    → length (run (map turns thread_ids) s).0
      ≡ min (length thread_ids) (length (flatten s.local_queues))
turns-length [] s q = omega arith
turns-length (thread_id ∷ thread_ids) s q = omega (
  arith,
  turns-length thread_ids (worker_turn thread_id s).1 (turn-runs thread_id s ∙ q),
  turn-length thread_id s q,
  length-append (log (worker_turn thread_id s).0)
      (run (map turns thread_ids) (worker_turn thread_id s).1).0,
  (weigh-worker_turn (λ x. 1) thread_id s).0,
  weigh-length (flatten s.local_queues),
  weigh-length (log (worker_turn thread_id s).0),
  weigh-length (flatten (worker_turn thread_id s).1.local_queues),
)

pending_in-length : (queues : List WorkStealingQueue) → pending_in queues ≡ length (flatten queues)
unfolding pending_in
pending_in-length [] = refl
pending_in-length (queue ∷ queues) =
    omega (arith, pending_in-length queues, length-append queue (flatten queues))

-- `pending_count` is the number of the coroutines that wait.
pub pending_count-length : (s : Scheduler) → pending_count s ≡ length (flatten s.local_queues)
unfolding pending_count
pending_count-length s = pending_in-length s.local_queues
