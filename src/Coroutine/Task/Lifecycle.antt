-- ===== src/Coroutine/Task/Lifecycle.antt =====
-- coroutine/task.hpp: `Task`. The states that a task goes through, and what who awaits it gets.
use cpp20_coroutine_io_uring.Common.{
  ℕ, zero, suc, ◌≡◌, ◌≢◌, ◌⊎◌, inl, inr, refl, ◌∙◌, Bool, true, false, ◌||◌, List, [], ◌∷◌, ◌++◌,
  Option, none, some, replicate, if◌then◌else◌, Bool-cases, Option-cases, arith,
}
use cpp20_coroutine_io_uring.Coroutine.Task.{
  CoroutineState, is_created, is_completed, is_cancelled, Body, suspends, returns, throws, Outcome,
  TaskPromise, new_promise, return_value, unhandled_exception, final_suspend, resume, start_promise,
  await_ready, await_suspend, await_resume, co_await, wait_loop, get, cancel_promise, cancel,
}

abbrev pub is_some {ℓ} : {A : Type ℓ} → Option A → Bool
is_some none = false
is_some (some a) = true

-- What can happen to a task: it is started, `co` awaits it, someone resumes it, which nobody does
-- after its end, it is cancelled.
pub data Step (T : Type 0) : Type 0 where
  starts : (body : Body T) → Step T
  awaits : (body : Body T) (co : ℕ) → Step T
  resumes : (body : Body T) → Step T
  cancels : Step T

module _ {T : Type 0} where
  -- The coroutine has reached its end.
  abbrev pub finished : TaskPromise T → Bool
  finished p = is_some p.result || is_some p.exception

  abbrev pub step : Step T → TaskPromise T → TaskPromise T
  step (starts body) p = (start_promise body p).1
  step (awaits body co) p = (co_await body co p).2
  step (resumes body) p = if finished p then p else (resume body p).1
  step cancels p = cancel_promise p

  abbrev pub run : List (Step T) → TaskPromise T → TaskPromise T
  run [] p = p
  run (s ∷ steps) p = run steps (step s p)

  -- A completed task has a result or an exception, and a created one has neither.
  pub record IsValid (p : TaskPromise T) : Type 0 where
    pub completed_finished : is_completed p.state ≡ true → finished p ≡ true
    pub finished_done : finished p ≡ true → await_ready p ≡ true

  resume-IsValid :
      (body : Body T) (p : TaskPromise T)
      → finished p ≡ false
      → is_completed p.state ≡ false
      → IsValid (resume body p).1
  unfolding resume final_suspend return_value unhandled_exception await_ready
  resume-IsValid suspends p f c = record {
    completed_finished = λ e. absurd (ground arith);
    finished_done = λ e. absurd (ground arith);
  }
  resume-IsValid (returns v) p f c = record {
    completed_finished = λ e. refl;
    finished_done = λ e. refl;
  }
  resume-IsValid (throws x) p f c = record {
    completed_finished = λ e. ground arith;
    finished_done = λ e. refl;
  }

  start_promise-IsValid :
      (body : Body T) (p : TaskPromise T) → IsValid p → IsValid (start_promise body p).1
  unfolding start_promise await_ready
  start_promise-IsValid body p v = elim (Bool-cases (is_created p.state)) [
    | inr q ↦ rw q v
    | inl q ↦ rw q (
        resume-IsValid body (record p { state = CoroutineState.running })
          (ground (arith, v.finished_done, not_done p.state q)) refl)
  ]
    where
      not_done :
          (s : CoroutineState) → is_created s ≡ true → (is_completed s || is_cancelled s) ≡ false
      not_done CoroutineState.created e = refl
      not_done CoroutineState.running e = refl
      not_done CoroutineState.suspended e = refl
      not_done CoroutineState.completed e = absurd (ground arith)
      not_done CoroutineState.cancelled e = absurd (ground arith)

  cancel_promise-IsValid : (p : TaskPromise T) → IsValid p → IsValid (cancel_promise p)
  unfolding cancel_promise await_ready
  cancel_promise-IsValid p v = elim (Bool-cases (is_completed p.state)) [
    | inl q ↦ rw q v
    | inr q ↦
        rw q (record { completed_finished = λ e. absurd (ground arith); finished_done = λ e. refl })
  ]

  resumes-IsValid :
      (body : Body T) (p : TaskPromise T)
      → IsValid p
      → IsValid (if finished p then p else (resume body p).1)
  resumes-IsValid body p v = elim (Bool-cases (finished p)) [
    | inl q ↦ rw q v
    | inr q ↦ rw q (resume-IsValid body p q (ground (arith, v.completed_finished)))
  ]

  co_await_ready :
      (body : Body T) (co : ℕ) (p : TaskPromise T)
      → await_ready p ≡ true
      → co_await body co p ≡ (some (await_resume p), [], p)
  unfolding co_await
  co_await_ready body co p q = rw q refl

  abbrev with_continuation : ℕ → TaskPromise T → TaskPromise T
  with_continuation co p = record p { continuation = some co }

  abbrev awaited : ℕ → TaskPromise T → TaskPromise T
  awaited co p = record p { continuation = some co; state = CoroutineState.running }

  -- Whoever awaits a created task waits for it.
  co_await_created :
      (body : Body T) (co : ℕ) (p : TaskPromise T)
      → await_ready p ≡ false
      → is_created p.state ≡ true
      → co_await body co p ≡ (none, (resume body (awaited co p)).0, (resume body (awaited co p)).1)
  unfolding co_await await_suspend
  co_await_created body co p q r = rw (q, r) refl

  -- Whoever awaits a task that has started and is not done is resumed at once.
  co_await_started :
      (body : Body T) (co : ℕ) (p : TaskPromise T)
      → await_ready p ≡ false
      → is_created p.state ≡ false
      → co_await body co p ≡ (some (await_resume p), [], with_continuation co p)
  unfolding co_await await_suspend await_resume
  co_await_started body co p q r = rw (q, r) refl

  co_await-IsValid :
      (body : Body T) (co : ℕ) (p : TaskPromise T) → IsValid p → IsValid (co_await body co p).2
  unfolding await_ready
  co_await-IsValid body co p v = elim (Bool-cases (await_ready p)) [
    | inl q ↦ rw (co_await_ready body co p q) v
    | inr q ↦ elim (Bool-cases (is_created p.state)) [
      | inr r ↦
          rw (co_await_started body co p q r)
            (record { completed_finished = v.completed_finished; finished_done = v.finished_done })
      | inl r ↦
          rw (co_await_created body co p q r)
            (resume-IsValid body (awaited co p) (ground (arith, v.finished_done, q)) refl)
    ]
  ]

  step-IsValid : (s : Step T) (p : TaskPromise T) → IsValid p → IsValid (step s p)
  step-IsValid (starts body) p v = start_promise-IsValid body p v
  step-IsValid (awaits body co) p v = co_await-IsValid body co p v
  step-IsValid (resumes body) p v = resumes-IsValid body p v
  step-IsValid cancels p v = cancel_promise-IsValid p v

  -- Whatever is done with a task, in whatever order, from a valid state on, a completed task has a
  -- result or an exception and an unfinished one is neither completed nor is there anything to take
  -- from it.
  pub run-IsValid : (steps : List (Step T)) (p : TaskPromise T) → IsValid p → IsValid (run steps p)
  run-IsValid [] p v = v
  run-IsValid (s ∷ steps) p v = run-IsValid steps (step s p) (step-IsValid s p v)

  pub new_promise-IsValid : IsValid new_promise
  new_promise-IsValid = record {
    completed_finished = λ e. absurd (ground arith);
    finished_done = λ e. absurd (ground arith);
  }

  await_resume-finished :
      (p : TaskPromise T) → finished p ≡ true → await_resume p ≢ Outcome.null_dereference
  unfolding await_resume
  await_resume-finished p e h = elim (Option-cases p.exception) [
    | inr (x, q) ↦ absurd (ground (arith, q))
    | inl q ↦ elim (Option-cases p.result) [
      | inr (x, r) ↦ absurd (ground (arith, q, r))
      | inl r ↦ absurd (ground (arith, q, r))
    ]
  ]

  -- However a new task has been started, awaited, resumed and cancelled: if it is completed, then
  -- taking its result gives a value or rethrows its exception and dereferences no null pointer.
  pub await_resume-run :
      (steps : List (Step T))
      → is_completed (run steps new_promise).state ≡ true
      → await_resume (run steps new_promise) ≢ Outcome.null_dereference
  await_resume-run steps e =
      await_resume-finished (run steps new_promise)
        ((run-IsValid steps new_promise new_promise-IsValid).completed_finished e)

  -- A coroutine that awaits a task which has started and has not come to its end is resumed at once,
  -- and taking the result dereferences a null pointer; the task keeps it as its continuation.
  pub co_await_running :
      (body : Body T) (co : ℕ) (p : TaskPromise T)
      → p.state ≡ CoroutineState.running
      → p.result ≡ none
      → p.exception ≡ none
      → co_await body co p
        ≡ (some Outcome.null_dereference, [], record p { continuation = some co })
  unfolding await_ready await_resume
  co_await_running body co p e r x =
      co_await_started body co p (rw e refl) (rw e refl) ∙ rw (r, x) refl

  -- How a body ends, and what comes of it.
  abbrev pub end_of : T ⊎ ℕ → Body T
  end_of (inl v) = returns v
  end_of (inr e) = throws e

  abbrev pub outcome_of : T ⊎ ℕ → Outcome T
  outcome_of (inl v) = Outcome.value v
  outcome_of (inr e) = Outcome.rethrown e

  -- A body that is suspended `n` times before it ends.
  abbrev pub bodies_of : ℕ → T ⊎ ℕ → List (Body T)
  bodies_of n end = replicate n suspends ++ end_of end ∷ []

  -- How the first resumption of that body ends, and how those after it do.
  abbrev pub first_of : ℕ → T ⊎ ℕ → Body T
  first_of zero end = end_of end
  first_of (suc n) end = suspends

  abbrev pub rest_of : ℕ → T ⊎ ℕ → List (Body T)
  rest_of zero end = []
  rest_of (suc n) end = bodies_of n end

  -- What several resumptions of the task resume.
  abbrev pub resume_all : List (Body T) → TaskPromise T → List ℕ × TaskPromise T
  resume_all [] p = ([], p)
  resume_all (body ∷ bodies) p = (
    (resume body p).0 ++ (resume_all bodies (resume body p).1).0,
    (resume_all bodies (resume body p).1).1,
  )

  resume_all_lem :
      (n : ℕ) (end : T ⊎ ℕ) (co : ℕ)
      → ((resume_all (bodies_of n end) (awaited co new_promise)).0 ≡ co ∷ [])
        × (await_resume (resume_all (bodies_of n end) (awaited co new_promise)).1 ≡ outcome_of end)
        × ((resume_all (bodies_of n end) (awaited co new_promise)).1.state
            ≡ CoroutineState.completed)
  unfolding resume final_suspend return_value unhandled_exception await_resume
  resume_all_lem zero (inl v) co = (refl, refl, refl)
  resume_all_lem zero (inr e) co = (refl, refl, refl)
  resume_all_lem (suc n) end co = resume_all_lem n end co

  -- A coroutine that awaits a new task waits for it. However often the task is suspended, also if it
  -- never is, the resumptions up to the end of its body resume the coroutine, once, and it gets the
  -- value or the exception of the body.
  pub resume_all-co_await :
      (n : ℕ) (end : T ⊎ ℕ) (co : ℕ)
      → ((co_await (first_of n end) co (new_promise {T = T})).0 ≡ none)
        × ((co_await (first_of n end) co new_promise).1
              ++ (resume_all (rest_of n end) (co_await (first_of n end) co new_promise).2).0
            ≡ co ∷ [])
        × (await_resume (resume_all (rest_of n end) (co_await (first_of n end) co new_promise).2).1
            ≡ outcome_of end)
  unfolding co_await await_ready await_suspend resume final_suspend return_value unhandled_exception
      await_resume
  resume_all-co_await zero (inl v) co = (refl, refl, refl)
  resume_all-co_await zero (inr e) co = (refl, refl, refl)
  resume_all-co_await (suc n) end co =
      (refl, (resume_all_lem n end co).0, (resume_all_lem n end co).1)

  abbrev pub started : TaskPromise T
  started = record new_promise { state = CoroutineState.running }

  wait_loop_lem : (n : ℕ) (end : T ⊎ ℕ) → (wait_loop (bodies_of n end) started).0 ≡ outcome_of end
  unfolding wait_loop await_ready resume final_suspend return_value unhandled_exception await_resume
  wait_loop_lem zero (inl v) = refl
  wait_loop_lem zero (inr e) = refl
  wait_loop_lem (suc n) end = wait_loop_lem n end

  -- `get` on a new task starts it, and returns the value of its body or rethrows its exception once
  -- the body has ended, however often it is suspended and other threads resume it. `get` on a task
  -- that has been started resumes nothing itself: whatever its own resumption would be, the outcome
  -- is that of the body which other threads resume to its end.
  pub get_lem :
      (n : ℕ) (end : T ⊎ ℕ) (first : Body T)
      → (get (first_of n end) (rest_of n end) (some new_promise) ≡ outcome_of end)
        × (get first (bodies_of n end) (some started) ≡ outcome_of end)
  unfolding get start_promise resume final_suspend return_value unhandled_exception await_resume
      wait_loop await_ready
  get_lem zero (inl v) first = (refl, refl)
  get_lem zero (inr e) first = (refl, refl)
  get_lem (suc n) end first = (wait_loop_lem n end, wait_loop_lem n end)

  -- `get` on a task that was cancelled before it started dereferences a null pointer.
  pub get-cancel :
      (first : Body T) (others : List (Body T))
      → get first others (cancel (some new_promise)) ≡ Outcome.null_dereference
  unfolding get cancel cancel_promise wait_loop await_ready await_resume
  get-cancel first [] = refl
  get-cancel first (body ∷ others) = refl

  -- A running task that is cancelled and whose body then ends is completed, not cancelled, has the
  -- outcome of the body, and resumes who awaits it.
  pub resume-cancel :
      (end : T ⊎ ℕ) (co : ℕ)
      → ((resume (end_of end) (cancel_promise (awaited co new_promise))).0 ≡ co ∷ [])
        × ((resume (end_of end) (cancel_promise (awaited co new_promise))).1.state
            ≡ CoroutineState.completed)
        × (await_resume (resume (end_of end) (cancel_promise (awaited co new_promise))).1
            ≡ outcome_of end)
  unfolding resume final_suspend return_value unhandled_exception await_resume cancel_promise
  resume-cancel (inl v) co = (refl, refl, refl)
  resume-cancel (inr e) co = (refl, refl, refl)
