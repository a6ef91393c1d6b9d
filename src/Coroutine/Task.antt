-- ===== src/Coroutine/Task.antt =====
-- coroutine/task.hpp: `CoroutineState`, `TaskPromise` and `Task`, and coroutine/awaitable.hpp:
-- `AsyncAwaiter` and the awaiters of `sleep` and `wait_until`. A coroutine is its number, an
-- exception its label. What the body of a coroutine does when it is resumed is not known here: a
-- `Body` says how that resumption ended.
pub mod Lifecycle
mod Tests
use cpp20_coroutine_io_uring.Common.{
  ℕ, Bool, true, false, not, ◌&&◌, ◌||◌, ◌==◌, List, [], ◌∷◌, ◌++◌, Option, none, some,
  if◌then◌else◌,
}

pub data CoroutineState : Type 0 where
  created running suspended completed cancelled : CoroutineState

abbrev pub is_created : CoroutineState → Bool
is_created CoroutineState.created = true
is_created CoroutineState.running = false
is_created CoroutineState.suspended = false
is_created CoroutineState.completed = false
is_created CoroutineState.cancelled = false

abbrev pub is_completed : CoroutineState → Bool
is_completed CoroutineState.created = false
is_completed CoroutineState.running = false
is_completed CoroutineState.suspended = false
is_completed CoroutineState.completed = true
is_completed CoroutineState.cancelled = false

abbrev pub is_cancelled : CoroutineState → Bool
is_cancelled CoroutineState.created = false
is_cancelled CoroutineState.running = false
is_cancelled CoroutineState.suspended = false
is_cancelled CoroutineState.completed = false
is_cancelled CoroutineState.cancelled = true

-- How a resumption of the body ends: at a suspension point, with a value, or with an exception.
pub data Body (T : Type 0) : Type 0 where
  suspends : Body T
  returns : (value : T) → Body T
  throws : (exception : ℕ) → Body T

-- What a caller gets: a value, an exception, or undefined behaviour, the dereference of a null
-- pointer.
pub data Outcome (T : Type 0) : Type 0 where
  value : (result : T) → Outcome T
  rethrown : (exception : ℕ) → Outcome T
  null_dereference : Outcome T
  -- `get` of a task without a coroutine.
  null_task : Outcome T
  -- `get` goes on waiting.
  spins : Outcome T

pub record TaskPromise (T : Type 0) : Type 0 where
  pub result : Option T
  pub exception : Option ℕ
  pub state : CoroutineState
  pub continuation : Option ℕ

module _ {T : Type 0} where
  abbrev pub new_promise : TaskPromise T
  new_promise = record {
    result = none;
    exception = none;
    state = CoroutineState.created;
    continuation = none;
  }

  -- The coroutines that a step resumes besides the task's own.
  abbrev pub continuation_of : TaskPromise T → List ℕ
  continuation_of p = elim p.continuation [ none ↦ [] | some co ↦ co ∷ [] ]

  unfoldable pub return_value : T → TaskPromise T → TaskPromise T
  return_value v p = record p { result = some v }

  unfoldable pub unhandled_exception : ℕ → TaskPromise T → TaskPromise T
  unhandled_exception e p = record p { exception = some e }

  -- `await_suspend` at the final suspension point: the state is set, whatever it was.
  unfoldable pub final_suspend : TaskPromise T → List ℕ × TaskPromise T
  final_suspend p = (continuation_of p, record p { state = CoroutineState.completed })

  -- `handle_.resume()`.
  unfoldable pub resume : Body T → TaskPromise T → List ℕ × TaskPromise T
  resume suspends p = ([], p)
  resume (returns v) p = final_suspend (return_value v p)
  resume (throws e) p = final_suspend (unhandled_exception e p)

  -- A task is its coroutine's promise, or none.
  unfoldable pub state : Option (TaskPromise T) → CoroutineState
  state none = CoroutineState.cancelled
  state (some p) = p.state

  -- A created task is set running and resumed.
  unfoldable pub start_promise : Body T → TaskPromise T → List ℕ × TaskPromise T
  start_promise body p =
      if is_created p.state
      then resume body (record p { state = CoroutineState.running })
      else ([], p)

  unfoldable pub start : Body T → Option (TaskPromise T) → List ℕ × Option (TaskPromise T)
  start body none = ([], none)
  start body (some p) = ((start_promise body p).0, some (start_promise body p).1)

  unfoldable pub await_ready : TaskPromise T → Bool
  await_ready p = is_completed p.state || is_cancelled p.state

  -- Whether the task itself is what is resumed next; otherwise it is the coroutine that awaits.
  unfoldable pub await_suspend : ℕ → TaskPromise T → Bool × TaskPromise T
  await_suspend co p =
      if is_created p.state
      then (true, record p { continuation = some co; state = CoroutineState.running })
      else (false, record p { continuation = some co })

  -- The exception if there is one, and otherwise the result, whether or not there is one.
  unfoldable pub await_resume : TaskPromise T → Outcome T
  await_resume p = elim p.exception [
    | some e ↦ Outcome.rethrown e
    | none ↦ elim p.result [ some v ↦ Outcome.value v | none ↦ Outcome.null_dereference ]
  ]

  -- `co_await task` as far as the coroutine `co` can go by itself. `none`: it waits until the task,
  -- whose body is resumed now, resumes it.
  unfoldable pub co_await : Body T → ℕ → TaskPromise T → Option (Outcome T) × List ℕ × TaskPromise T
  co_await body co p =
      if await_ready p
      then (some (await_resume p), [], p)
      else (let (own, p') = await_suspend co p in
          if own
          then (none, (resume body p').0, (resume body p').1)
          else (some (await_resume p'), [], p'))

  -- The loop of `get`: in each turn the state is looked at, and in between other threads resume the
  -- body as the list says.
  unfoldable pub wait_loop : List (Body T) → TaskPromise T → Outcome T × TaskPromise T
  wait_loop [] p = if await_ready p then (await_resume p, p) else (Outcome.spins, p)
  wait_loop (body ∷ bodies) p =
      let later = wait_loop bodies (resume body p).1 in
      if await_ready p then (await_resume p, p) else later

  -- A task that was not started is started, and `first` says how that resumption ends; the others are
  -- those of other threads.
  unfoldable pub get : Body T → List (Body T) → Option (TaskPromise T) → Outcome T
  get first others none = Outcome.null_task
  get first others (some p) =
      if is_created p.state
      then (wait_loop others (start_promise first p).1).0
      else (wait_loop others p).0

  unfoldable pub cancel_promise : TaskPromise T → TaskPromise T
  cancel_promise p =
      if is_completed p.state then p else record p { state = CoroutineState.cancelled }

  unfoldable pub cancel : Option (TaskPromise T) → Option (TaskPromise T)
  cancel none = none
  cancel (some p) = some (cancel_promise p)

-- `make_ready_task`: the first resumption returns the value.
unfoldable pub make_ready_task : {T : Type 0} → T → Option (TaskPromise T) × Body T
make_ready_task v = (some new_promise, returns v)

pub record AsyncAwaiter (T : Type 0) : Type 0 where
  pub ready : Bool
  pub continuation : Option ℕ
  pub result : Option T
  pub exception : Option ℕ

module _ {T : Type 0} where
  unfoldable pub awaiter_suspend : ℕ → AsyncAwaiter T → AsyncAwaiter T
  awaiter_suspend co a = record a { continuation = some co }

  -- What was not set has the value it was made with.
  unfoldable pub awaiter_resume : T → AsyncAwaiter T → Outcome T
  awaiter_resume default a = elim a.exception [
    | some e ↦ Outcome.rethrown e
    | none ↦ elim a.result [ some v ↦ Outcome.value v | none ↦ Outcome.value default ]
  ]

  abbrev pub awaiting : AsyncAwaiter T → List ℕ
  awaiting a = elim a.continuation [ none ↦ [] | some co ↦ co ∷ [] ]

  unfoldable pub set_result : T → AsyncAwaiter T → List ℕ × AsyncAwaiter T
  set_result v a = (awaiting a, record a { result = some v; ready = true })

  unfoldable pub set_exception : ℕ → AsyncAwaiter T → List ℕ × AsyncAwaiter T
  set_exception e a = (awaiting a, record a { exception = some e; ready = true })

-- The coroutines that the thread of a sleep resumes: none if the duration is 0, which is ready.
unfoldable pub sleep_for : ℕ → ℕ → List ℕ
sleep_for duration co = if duration == 0 then [] else co ∷ []

-- What `predicate_()` answers, call by call: whether the awaiter was ready, and whether the
-- coroutine has been resumed by the thread that asks until the answer is yes.
unfoldable pub until_true : ℕ → List Bool → List ℕ
until_true co [] = []
until_true co (answer ∷ answers) =
    let later = until_true co answers in if answer then co ∷ [] else later

unfoldable pub wait_until : ℕ → List Bool → Bool × List ℕ
wait_until co [] = (false, [])
wait_until co (answer ∷ answers) = if answer then (true, []) else (false, until_true co answers)
