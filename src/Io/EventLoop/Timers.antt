-- ===== src/Io/EventLoop/Timers.antt =====
-- io/event_loop.hpp: the timers of `EventLoop`.
use cpp20_coroutine_io_uring.Common.{
  ℕ, ◌≤◌, ◌<◌, ◌≡◌, inl, inr, refl, sym, ap, ◌∙◌, false, not, List, [], ◌∷◌, leb, keep_if, All,
  All-map, map, Bool-cases, arith,
}
use cpp20_coroutine_io_uring.Io.EventLoop.{
  TimerHandle, EventLoop, new_loop, post, set_timer, push_timer, cancel_timer, is_in, run_due,
  due_ids, process_timers, process_tasks, run_calls,
}

-- What is done with a loop.
pub data Step : Type 0 where
  posts : (task : ℕ) → Step
  sets : (now delay_ms callback : ℕ) → Step
  cancels : (timer_id : ℕ) → Step
  runs : (now : ℕ) → Step

abbrev pub step : Step → EventLoop → EventLoop
step (posts task) l = post task l
step (sets now delay_ms callback) l = (set_timer now delay_ms callback l).1
step (cancels timer_id) l = (cancel_timer timer_id l).1
step (runs now) l = (run_calls now l).1

abbrev pub steps : List Step → EventLoop → EventLoop
steps [] l = l
steps (s ∷ ss) l = steps ss (step s l)

due_ids_empty : (now : ℕ) (timers : List TimerHandle) → due_ids now timers [] ≡ []
unfolding due_ids
due_ids_empty now [] = refl
due_ids_empty now (t ∷ timers) = elim (Bool-cases (leb t.expire_time now)) [
  | inl q ↦ rw q (due_ids_empty now timers)
  | inr q ↦ rw q refl
]

cancel_nothing :
    (timer_id : ℕ) (l : EventLoop) → l.timer_map ≡ [] → cancel_timer timer_id l ≡ (false, l)
unfolding cancel_timer
cancel_nothing timer_id l e = simp (ap (is_in timer_id) e)

map_stays_empty : (s : Step) (l : EventLoop) → l.timer_map ≡ [] → (step s l).timer_map ≡ []
unfolding post set_timer run_calls process_timers process_tasks
map_stays_empty (posts task) l e = e
map_stays_empty (sets now delay_ms callback) l e = e
map_stays_empty (cancels timer_id) l e = ap (λ r. r.1.timer_map) (cancel_nothing timer_id l e) ∙ e
map_stays_empty (runs now) l e = rw e (due_ids_empty now l.timers)

steps_map_empty : (ss : List Step) (l : EventLoop) → l.timer_map ≡ [] → (steps ss l).timer_map ≡ []
steps_map_empty [] l e = e
steps_map_empty (s ∷ ss) l e = steps_map_empty ss (step s l) (map_stays_empty s l e)

-- Whatever was done with a new loop before, `cancel_timer` finds no timer, says so, and leaves the
-- loop as it was: a timer that was set cannot be cancelled.
pub cancel_timer-steps :
    (ss : List Step) (timer_id : ℕ)
    → cancel_timer timer_id (steps ss new_loop) ≡ (false, steps ss new_loop)
cancel_timer-steps ss timer_id =
    cancel_nothing timer_id (steps ss new_loop) (steps_map_empty ss new_loop refl)

-- The timers stand in the order of their times.
abbrev pub Sorted : List TimerHandle → Type 0
Sorted [] = Unit
Sorted (t ∷ timers) = All (λ u. t.expire_time ≤ u.expire_time) timers × Sorted timers

All-push_timer {κ} :
    (P : TimerHandle → Type κ) (t : TimerHandle) (timers : List TimerHandle)
    → P t
    → All P timers
    → All P (push_timer t timers)
unfolding push_timer
All-push_timer P t [] h a = (h, tt)
All-push_timer P t (u ∷ timers) h a = elim (Bool-cases (leb u.expire_time t.expire_time)) [
  | inl q ↦ rw q (a.0, All-push_timer P t timers h a.1)
  | inr q ↦ rw q (h, a)
]

push_timer-Sorted :
    (t : TimerHandle) (timers : List TimerHandle) → Sorted timers → Sorted (push_timer t timers)
unfolding push_timer
push_timer-Sorted t [] s = (tt, tt)
push_timer-Sorted t (u ∷ timers) s = elim (Bool-cases (leb u.expire_time t.expire_time)) [
  | inl q ↦ rw q (
    All-push_timer (λ v. u.expire_time ≤ v.expire_time) t timers (ground (arith, q)) s.0,
    push_timer-Sorted t timers s.1,
  )
  | inr q ↦
      let before : t.expire_time ≤ u.expire_time = ground (arith, q) in
      rw q (
        (
          before,
          All-map (λ v. u.expire_time ≤ v.expire_time) (λ v. t.expire_time ≤ v.expire_time) timers
              (λ v h. omega (arith, before, h)) s.0,
        ),
        s,
      )
]

-- The callbacks of the timers that are due and not cancelled, in the order of the timers.
abbrev pub due_callbacks : ℕ → List TimerHandle → List ℕ
due_callbacks now timers =
    map (λ t. t.callback)
      (keep_if (λ t. not t.cancelled) (keep_if (λ t. leb t.expire_time now) timers))

none_due :
    (now : ℕ) (timers : List TimerHandle)
    → All (λ t. now < t.expire_time) timers
    → (keep_if (λ t. leb t.expire_time now) timers ≡ [])
      × (keep_if (λ t. not (leb t.expire_time now)) timers ≡ timers)
none_due now [] h = (refl, refl)
none_due now (t ∷ timers) h = elim (Bool-cases (leb t.expire_time now)) [
  | inl q ↦ absurd (ground (arith, q, h.0))
  | inr q ↦ rw q ((none_due now timers h.1).0, ap (◌∷◌ t) (none_due now timers h.1).1)
]

-- `process_timers` on timers that stand in the order of their times runs exactly the callbacks of
-- those that are due and not cancelled, in that order, and keeps exactly those that are not due.
pub run_due_lem :
    (now : ℕ) (timers : List TimerHandle)
    → Sorted timers
    → ((run_due now timers).0 ≡ due_callbacks now timers)
      × ((run_due now timers).1 ≡ keep_if (λ t. not (leb t.expire_time now)) timers)
unfolding run_due
run_due_lem now [] s = (refl, refl)
run_due_lem now (t ∷ timers) s = elim (Bool-cases (leb t.expire_time now)) [
  | inr q ↦
      let late = none_due now timers (
        All-map (λ u. t.expire_time ≤ u.expire_time) (λ u. now < u.expire_time) timers
          (λ u h. ground (arith, q, h)) s.0) in
      rw q (rw late.0 refl, ap (◌∷◌ t) (sym late.1))
  | inl q ↦ elim (Bool-cases t.cancelled) [
    | inl c ↦ rw (q, c) (run_due_lem now timers s.1)
    | inr c ↦
        rw (q, c)
          (ap (◌∷◌ t.callback) (run_due_lem now timers s.1).0, (run_due_lem now timers s.1).1)
  ]
]
