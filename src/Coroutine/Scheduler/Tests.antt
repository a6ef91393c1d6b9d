-- ===== src/Coroutine/Scheduler/Tests.antt =====
-- coroutine/scheduler.hpp: runs of the scheduler at small inputs.
use cpp20_coroutine_io_uring.Common.{◌≡◌, refl, true, List, [], ◌∷◌, map, pos, length, min, arith}
use cpp20_coroutine_io_uring.Coroutine.Scheduler.{
  Scheduler, worker_turn, take_task, own_or_stolen, pop, steal_from, steal,
}
use cpp20_coroutine_io_uring.Coroutine.Scheduler.Bag.{put_all}
use cpp20_coroutine_io_uring.Coroutine.Scheduler.Steps.{IsValid, pending}
use cpp20_coroutine_io_uring.Coroutine.Scheduler.Refinement.{
  Action, schedules, turns, stops, run, scheduled,
}
use cpp20_coroutine_io_uring.Coroutine.Scheduler.Refinement

abbrev three_queues : Scheduler
three_queues = record {
  thread_count = 3;
  running = true;
  local_queues = (1 ∷ 2 ∷ []) ∷ (3 ∷ []) ∷ (4 ∷ []) ∷ [];
}

three_queues-IsValid : IsValid three_queues
three_queues-IsValid = record { queues = refl; threads = omega arith }

abbrev some_actions : List Action
some_actions = schedules 5 (pos 2) ∷ schedules 6 (pos 9) ∷ turns 0 ∷ turns 1 ∷ stops ∷ turns 2 ∷ []

-- The worker takes its last, and steals the first of another.
run_own_and_stolen : (run (turns 0 ∷ turns 1 ∷ turns 1 ∷ []) three_queues).0 ≡ 2 ∷ 3 ∷ 1 ∷ []
unfolding worker_turn take_task own_or_stolen pop steal_from steal
run_own_and_stolen = refl

pending-run_example :
    put_all (scheduled some_actions) (pending three_queues)
    ≡ put_all (run some_actions three_queues).0 (pending (run some_actions three_queues).1)
pending-run_example = Refinement.pending-run some_actions three_queues three_queues-IsValid

turns-length_example : length (run (map turns (0 ∷ 2 ∷ 2 ∷ [])) three_queues).0 ≡ min 3 4
turns-length_example = Refinement.turns-length (0 ∷ 2 ∷ 2 ∷ []) three_queues refl
