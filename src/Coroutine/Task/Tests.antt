-- ===== src/Coroutine/Task/Tests.antt =====
-- coroutine/task.hpp and coroutine/awaitable.hpp: runs of tasks and awaiters at small inputs.
use cpp20_coroutine_io_uring.Common.{
  ℕ, ◌≡◌, ◌≢◌, inl, inr, refl, true, false, List, [], ◌∷◌, ◌++◌, none, some,
}
use cpp20_coroutine_io_uring.Coroutine.Task.{
  suspends, returns, throws, Outcome, new_promise, resume, final_suspend, return_value,
  unhandled_exception, cancel_promise, start_promise, co_await, await_ready, await_suspend,
  await_resume, get, awaiter_suspend, set_result, wait_until, until_true,
}
use cpp20_coroutine_io_uring.Coroutine.Task.Lifecycle.{
  Step, starts, awaits, resumes, cancels, run, resume_all, bodies_of, first_of, rest_of, started,
  outcome_of,
}
use cpp20_coroutine_io_uring.Coroutine.Task.Lifecycle

abbrev some_steps : List (Step ℕ)
some_steps =
    awaits suspends 4 ∷ resumes suspends ∷ cancels ∷ resumes (returns 9) ∷ resumes (throws 1) ∷ []

awaiter_runs :
    set_result {T = ℕ} 5 (
      awaiter_suspend 4
        (record { ready = false; continuation = none; result = none; exception = none }))
    ≡ (4 ∷ [], record { ready = true; continuation = some 4; result = some 5; exception = none })
unfolding set_result awaiter_suspend
awaiter_runs = refl

wait_until_runs : wait_until 4 (false ∷ false ∷ true ∷ false ∷ []) ≡ (false, 4 ∷ [])
unfolding wait_until until_true
wait_until_runs = refl

await_resume-run_example : await_resume (run some_steps new_promise) ≢ Outcome.null_dereference
unfolding start_promise co_await await_ready await_suspend resume final_suspend return_value
    unhandled_exception cancel_promise
await_resume-run_example = Lifecycle.await_resume-run some_steps refl

resume_all-co_await_example :
    ((co_await {T = ℕ} (first_of 2 (inl 9)) 4 new_promise).0 ≡ none)
    × ((co_await {T = ℕ} (first_of 2 (inl 9)) 4 new_promise).1
          ++ (resume_all
              (rest_of 2 (inl 9))
              (co_await {T = ℕ} (first_of 2 (inl 9)) 4 new_promise).2).0
        ≡ 4 ∷ [])
    × (await_resume
          (resume_all (rest_of 2 (inl 9)) (co_await {T = ℕ} (first_of 2 (inl 9)) 4 new_promise).2).1
        ≡ Outcome.value 9)
resume_all-co_await_example = Lifecycle.resume_all-co_await 2 (inl 9) 4

get_lem_example :
    (get (first_of 0 (inr 9)) (rest_of 0 (inr 9)) (some (new_promise {T = ℕ})) ≡ Outcome.rethrown 9)
    × (get suspends (bodies_of 0 (inr 9)) (some (started {T = ℕ})) ≡ Outcome.rethrown 9)
get_lem_example = Lifecycle.get_lem 0 (inr 9) suspends
