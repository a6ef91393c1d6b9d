-- ===== src/Io/EventLoop.antt =====
-- io/event_loop.hpp: `TimerHandle` and `EventLoop`. A function is its label. The priority queue of
-- the timers is the list of them, earliest first; those of one time come in the order they were set,
-- which the code leaves open. The time is the argument `now`, in milliseconds.
pub mod Timers
mod Tests
use cpp20_coroutine_io_uring.Common.{
  ℕ, zero, suc, ◌+◌, ◌%◌, ◌^◌, Bool, true, false, not, List, [], ◌∷◌, ◌++◌, Option, none, some, ℤ,
  leb, ◌==◌, keep_if, if◌then◌else◌,
}
use cpp20_coroutine_io_uring.Io.IoUring.{IoUring, Sqe, prepare_nop, submit, run_once}

pub record TimerHandle : Type 0 where
  pub id : ℕ
  pub expire_time : ℕ
  pub callback : ℕ
  pub cancelled : Bool

-- `timer_map` holds the identifiers that are in the map.
pub record EventLoop : Type 0 where
  pub running : Bool
  pub pending_tasks : List ℕ
  pub timers : List TimerHandle
  pub timer_map : List ℕ
  pub next_timer_id : ℕ

abbrev pub new_loop : EventLoop
new_loop = record {
  running = false;
  pending_tasks = [];
  timers = [];
  timer_map = [];
  next_timer_id = 0;
}

unfoldable pub stop : EventLoop → EventLoop
stop l = record l { running = false }

-- `wakeup` on the ring; `none` is an exception. The label 0 is a callback that does nothing.
unfoldable pub wakeup : (List Sqe → Bool) → ℤ → IoUring → Option IoUring
wakeup room ret ring = elim (prepare_nop room (some 0) ring) [
  | none ↦ none
  | some prepared ↦ elim (submit ret prepared) [
    | none ↦ none
    | some (n, submitted) ↦ some submitted
  ]
]

-- The task is queued; the ring is woken after it.
unfoldable pub post : ℕ → EventLoop → EventLoop
post task l = record l { pending_tasks = l.pending_tasks ++ task ∷ [] }

unfoldable pub push_timer : TimerHandle → List TimerHandle → List TimerHandle
push_timer t [] = t ∷ []
push_timer t (u ∷ timers) =
    if leb u.expire_time t.expire_time then u ∷ push_timer t timers else t ∷ u ∷ timers

unfoldable pub set_timer : ℕ → ℕ → ℕ → EventLoop → ℕ × EventLoop
set_timer now delay_ms callback l = (
  l.next_timer_id,
  record l {
    timers =
        push_timer
          (record {
            id = l.next_timer_id;
            expire_time = now + delay_ms;
            callback = callback;
            cancelled = false;
          })
          l.timers;
    next_timer_id = (l.next_timer_id + 1) % 2 ^ 64;
  },
)

abbrev pub is_in : ℕ → List ℕ → Bool
is_in id [] = false
is_in id (x ∷ xs) = if x == id then true else is_in id xs

abbrev pub mark_cancelled : ℕ → List TimerHandle → List TimerHandle
mark_cancelled id [] = []
mark_cancelled id (t ∷ timers) =
    if t.id == id then record t { cancelled = true } ∷ timers else t ∷ mark_cancelled id timers

unfoldable pub cancel_timer : ℕ → EventLoop → Bool × EventLoop
cancel_timer timer_id l =
    if is_in timer_id l.timer_map
    then (
      true,
      record l {
        timers = mark_cancelled timer_id l.timers;
        timer_map = keep_if (λ id. not (id == timer_id)) l.timer_map;
      },
    )
    else (false, l)

-- The loop over the timers that are due: the callbacks that run, and the timers that stay. The lock
-- is held while they run.
unfoldable pub run_due : ℕ → List TimerHandle → List ℕ × List TimerHandle
run_due now [] = ([], [])
run_due now (t ∷ timers) =
    let later : List ℕ × List TimerHandle = run_due now timers in
    if leb t.expire_time now
    then (if t.cancelled then later else (t.callback ∷ later.0, later.1))
    else ([], t ∷ timers)

-- The identifiers of the timers that are due leave the map.
unfoldable pub due_ids : ℕ → List TimerHandle → List ℕ → List ℕ
due_ids now [] ids = ids
due_ids now (t ∷ timers) ids =
    let later = due_ids now timers (keep_if (λ id. not (id == t.id)) ids) in
    if leb t.expire_time now then later else ids

unfoldable pub process_timers : ℕ → EventLoop → List ℕ × EventLoop
process_timers now l = (
  (run_due now l.timers).0,
  record l { timers = (run_due now l.timers).1; timer_map = due_ids now l.timers l.timer_map },
)

unfoldable pub process_tasks : EventLoop → List ℕ × EventLoop
process_tasks l = (l.pending_tasks, record l { pending_tasks = [] })

-- `run_once` before it turns to the ring: what is called, timers first.
unfoldable pub run_calls : ℕ → EventLoop → List ℕ × EventLoop
run_calls now l =
    let (due, l') = process_timers now l in
    let (tasks, l'') = process_tasks l' in (due ++ tasks, l'')
