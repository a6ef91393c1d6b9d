-- ===== src/Io/EventLoopThread/Messages.antt =====
-- io/event_loop_pool.hpp: `EventLoopThread`. What a posted task comes to, and what the completion of
-- a message does at the thread that gets it.
use cpp20_coroutine_io_uring.Common.{
  ◌%◌, ℤ, pos, ◌||◌, ℕ, ◌+◌, ◌^◌, ◌≤◌, ◌<◌, ◌≡◌, ◌⊎◌, inl, inr, refl, sym, ap, ◌∙◌, Bool, true,
  false, List, [], ◌∷◌, ◌++◌, Option, none, some, ◌==◌, if◌then◌else◌, All, weigh, weigh-append,
  Bool-cases, append_assoc, ==_iff, arith,
}
use cpp20_coroutine_io_uring.Io.IoUring.{
  IoUring, Sqe, Completion, op_msg_ring, prepare, prepare_msg_ring, set_callback, submit,
  process_cqe, get_callback,
}
use cpp20_coroutine_io_uring.Io.EventLoopThread.{
  EventLoopThread, Answers, Fn, CrossThreadTask, no_callback, call_of, calls, tasks_of, without,
  erase_task, store_task, send_message, message_submitted, message_prepared, post_via_msg_ring,
  post, process_tasks, meanwhile,
}

-- What the thread has still to call.
abbrev pub waiting : EventLoopThread → List Fn
waiting t = calls (tasks_of t.pending_tasks) ++ calls t.task_queue

-- The identifiers in use have been given out, and the next does not wrap around.
pub record IsValid (t : EventLoopThread) : Type 0 where
  pub given_out : All (λ entry. entry.0 < t.next_task_id) t.pending_tasks
  pub no_wrap : t.next_task_id + 1 < 2 ^ 64

calls-append : (xs ys : List CrossThreadTask) → calls (xs ++ ys) ≡ calls xs ++ calls ys
calls-append [] ys = refl
calls-append (x ∷ xs) ys =
    ap (◌++◌ (call_of x)) (calls-append xs ys)
    ∙ sym (append_assoc (call_of x) (calls xs) (calls ys))

weigh-calls_snoc :
    (w : Fn → ℕ) (entries : List (ℕ × CrossThreadTask)) (task_id : ℕ) (task : CrossThreadTask)
    → weigh w (calls (tasks_of (entries ++ (task_id, task) ∷ [])))
      ≡ weigh w (calls (tasks_of entries)) + weigh w (call_of task)
weigh-calls_snoc w [] task_id task = omega (arith, weigh-append w (call_of task) [])
weigh-calls_snoc w ((id, other) ∷ entries) task_id task = omega (
  arith,
  weigh-calls_snoc w entries task_id task,
  weigh-append w (call_of other) (calls (tasks_of (entries ++ (task_id, task) ∷ []))),
  weigh-append w (call_of other) (calls (tasks_of entries)),
)

without_fresh :
    (next : ℕ) (entries : List (ℕ × CrossThreadTask))
    → All (λ entry. entry.0 < next) entries
    → without next entries ≡ entries
without_fresh next [] h = refl
without_fresh next ((id, task) ∷ entries) h = elim (Bool-cases (id == next)) [
  | inl q ↦ absurd (omega (arith, (==_iff id next).0 q, h.0))
  | inr q ↦ rw q (ap (◌∷◌ (id, task)) (without_fresh next entries h.1))
]

without_snoc :
    (next : ℕ) (task : CrossThreadTask) (entries : List (ℕ × CrossThreadTask))
    → All (λ entry. entry.0 < next) entries
    → without next (entries ++ (next, task) ∷ []) ≡ entries
without_snoc next task [] h = rw ((==_iff next next).1 refl) refl
without_snoc next task ((id, other) ∷ entries) h = elim (Bool-cases (id == next)) [
  | inl q ↦ absurd (omega (arith, (==_iff id next).0 q, h.0))
  | inr q ↦ rw q (ap (◌∷◌ (id, other)) (without_snoc next task entries h.1))
]

weigh-store_task :
    (w : Fn → ℕ) (task : CrossThreadTask) (t : EventLoopThread)
    → IsValid t
    → weigh w (waiting (store_task task t)) ≡ weigh w (call_of task) + weigh w (waiting t)
unfolding store_task
weigh-store_task w task t v = rw (without_fresh t.next_task_id t.pending_tasks v.given_out) (
    omega (
      arith,
      weigh-calls_snoc w t.pending_tasks t.next_task_id task,
      weigh-append w (calls (tasks_of (t.pending_tasks ++ (t.next_task_id, task) ∷ [])))
          (calls t.task_queue),
      weigh-append w (calls (tasks_of t.pending_tasks)) (calls t.task_queue),
    ))

-- Taking the task back leaves what was waiting before it.
waiting-erase_task :
    (task : CrossThreadTask) (t : EventLoopThread)
    → IsValid t
    → waiting (erase_task t.next_task_id (store_task task t)) ≡ waiting t
unfolding store_task
waiting-erase_task task t v = rw (without_fresh t.next_task_id t.pending_tasks v.given_out) (
    ap (λ entries. calls (tasks_of entries) ++ calls t.task_queue)
      (without_snoc t.next_task_id task t.pending_tasks v.given_out))

-- The task was sent and stays, or it was not and is taken back.
abbrev Sent : ℕ → EventLoopThread → Bool × IoUring × EventLoopThread → Type 0
Sent task_id t result =
    ((result.0 ≡ true) × (result.2 ≡ t)) ⊎ ((result.0 ≡ false) × (result.2 ≡ erase_task task_id t))

message_submitted_lem :
    (task_id : ℕ) (prepared : IoUring) (t : EventLoopThread) (o : Option (ℕ × IoUring))
    → Sent task_id t (message_submitted task_id prepared t o)
unfolding message_submitted
message_submitted_lem task_id prepared t none = inr (refl, refl)
message_submitted_lem task_id prepared t (some (n, submitted)) = inl (refl, refl)

message_prepared_lem :
    (answers : Answers) (task_id : ℕ) (caller : IoUring) (t : EventLoopThread) (o : Option IoUring)
    → Sent task_id t (message_prepared answers task_id caller t o)
unfolding message_prepared
message_prepared_lem answers task_id caller t none = inr (refl, refl)
message_prepared_lem answers task_id caller t (some prepared) =
    message_submitted_lem task_id prepared t (submit answers.ret prepared)

send_message_lem :
    (answers : Answers) (task_id : ℕ) (caller : IoUring) (t : EventLoopThread)
    → Sent task_id t (send_message answers task_id caller t)
unfolding send_message
send_message_lem answers task_id caller t =
    message_prepared_lem answers task_id caller t
      (prepare_msg_ring answers.room t.ring_fd task_id (some no_callback) caller)

-- `post` adds the task to what the thread has to call, whether or not the thread can be woken.
pub weigh-post :
    (answers : Answers) (task : CrossThreadTask) (t : EventLoopThread) (w : Fn → ℕ)
    → weigh w (waiting (post answers task t)) ≡ weigh w (call_of task) + weigh w (waiting t)
unfolding post
weigh-post answers task t w = rw (calls-append t.task_queue (task ∷ [])) (
    omega (
      arith,
      weigh-append w (calls (tasks_of t.pending_tasks)) (calls t.task_queue ++ calls (task ∷ [])),
      weigh-append w (calls t.task_queue) (calls (task ∷ [])),
      weigh-append w (calls (tasks_of t.pending_tasks)) (calls t.task_queue),
      weigh-append w (call_of task) [],
    ))

-- `process_tasks` calls each function that was posted as often as it was posted, in whatever order
-- the map is visited, if the visit meets each of its entries once; after it nothing waits.
pub process_tasks_lem :
    (visit : List (ℕ × CrossThreadTask) → List (ℕ × CrossThreadTask)) (t : EventLoopThread)
    (w : Fn → ℕ)
    → ((weight : ℕ × CrossThreadTask → ℕ) (entries : List (ℕ × CrossThreadTask))
        → weigh weight (visit entries) ≡ weigh weight entries)
    → (weigh w (process_tasks visit t).0 ≡ weigh w (waiting t))
      × (waiting (process_tasks visit t).1 ≡ [])
unfolding process_tasks
process_tasks_lem visit t w h = (
  omega (
    arith,
    weigh-append w (calls (tasks_of (visit t.pending_tasks))) (calls t.task_queue),
    weigh-append w (calls (tasks_of t.pending_tasks)) (calls t.task_queue),
    by_entries t.pending_tasks,
    by_entries (visit t.pending_tasks),
    h (λ entry. weigh w (call_of entry.1)) t.pending_tasks,
  ),
  refl,
)
  where
    by_entries :
        (entries : List (ℕ × CrossThreadTask))
        → weigh w (calls (tasks_of entries)) ≡ weigh (λ entry. weigh w (call_of entry.1)) entries
    by_entries [] = refl
    by_entries ((id, task) ∷ entries) =
        omega (arith, by_entries entries, weigh-append w (call_of task) (calls (tasks_of entries)))

-- The kernel takes one entry.
abbrev pub one_taken : (List Sqe → Bool) → Answers
one_taken room = record { room = room; ret = pos 1 }

module _ (visit : List (ℕ × CrossThreadTask) → List (ℕ × CrossThreadTask))
    (visits : (weight : ℕ × CrossThreadTask → ℕ) (entries : List (ℕ × CrossThreadTask))
      → weigh weight (visit entries) ≡ weigh weight entries) where
  -- `post_via_msg_ring` on a valid thread says whether the message was sent. What the thread has
  -- called in between and has to call after it is what it had, and besides that the task, once, if
  -- the message was sent or the thread processed its tasks in between, and otherwise not.
  pub post_via_msg_ring_lem :
      (turns : Bool) (answers : Answers) (task : CrossThreadTask) (caller : IoUring)
      (t : EventLoopThread) (w : Fn → ℕ)
      → IsValid t
      → weigh w (post_via_msg_ring visit turns answers task caller t).0
          + weigh w (waiting (post_via_msg_ring visit turns answers task caller t).1.2)
        ≡ (if (post_via_msg_ring visit turns answers task caller t).1.0 || turns
            then weigh w (call_of task)
            else 0)
          + weigh w (waiting t)
  unfolding post_via_msg_ring meanwhile
  post_via_msg_ring_lem false answers task caller t w v =
      elim (send_message_lem answers t.next_task_id caller (store_task task t)) [
        | inl (e, f) ↦ rw (e, f) (omega (arith, weigh-store_task w task t v))
        | inr (e, f) ↦ rw (e, f) rw (waiting-erase_task task t v) (omega arith)
      ]
  post_via_msg_ring_lem true answers task caller t w v =
      let (called, none_left) = process_tasks_lem visit (store_task task t) w visits in
      let stored = weigh-store_task w task t v in
      elim (send_message_lem answers t.next_task_id caller
        (process_tasks visit (store_task task t)).1) [
          | inl (e, f) ↦ rw (e, f) rw none_left (omega (arith, called, stored))
          | inr (e, f) ↦
              let cleared : waiting
                    (erase_task t.next_task_id (process_tasks visit (store_task task t)).1)
                  ≡ [] =
                unfold process_tasks in refl in
              rw (e, f) rw cleared (omega (arith, called, stored))
        ]

  -- Nothing is counted as a connection by it.
  pub connection_count-post_via_msg_ring :
      (turns : Bool) (answers : Answers) (task : CrossThreadTask) (caller : IoUring)
      (t : EventLoopThread)
      → (post_via_msg_ring visit turns answers task caller t).1.2.connection_count
        ≡ t.connection_count
  unfolding post_via_msg_ring meanwhile process_tasks store_task
  connection_count-post_via_msg_ring false answers task caller t =
      elim (send_message_lem answers t.next_task_id caller (store_task task t)) [
        | inl (e, f) ↦ ap (λ u. u.connection_count) f
        | inr (e, f) ↦ ap (λ u. u.connection_count) f
      ]
  connection_count-post_via_msg_ring true answers task caller t =
      elim (send_message_lem answers t.next_task_id caller
        (process_tasks visit (store_task task t)).1) [
          | inl (e, f) ↦ ap (λ u. u.connection_count) f
          | inr (e, f) ↦ ap (λ u. u.connection_count) f
        ]

module _ (visit : List (ℕ × CrossThreadTask) → List (ℕ × CrossThreadTask)) where
  -- Where the ring of the caller is empty and has room and the kernel takes the one entry,
  -- `post_via_msg_ring` says that the message is sent, and the entry is a message to the ring of the
  -- thread that bears the identifier of the task. The kernel completes it there with that
  -- identifier, from 1 to 65535, as user data, and the thread looks it up in its table of callbacks:
  -- if there is none under it, an empty function is called, and if there is one, that one runs,
  -- whatever it was set for.
  pub process_cqe-post_via_msg_ring :
      (turns : Bool) (room : List Sqe → Bool) (task : CrossThreadTask) (caller : IoUring)
      (t : EventLoopThread) (res : ℤ) (flags : ℕ)
      → room caller.prepared ≡ true
      → caller.prepared ≡ []
      → 1 ≤ t.next_task_id
      → t.next_task_id < 65536
      → ((post_via_msg_ring visit turns (one_taken room) task caller t).1.0 ≡ true)
        × ((post_via_msg_ring visit turns (one_taken room) task caller t).1.1.submitted
            ≡ caller.submitted
              ++ record {
                operation = op_msg_ring t.ring_fd t.next_task_id;
                flags = 0;
                user_data = caller.next_callback_id % 65536;
              }
                ∷ [])
        × (process_cqe
              (record { user_data = t.next_task_id; res = res; flags = flags })
              (post_via_msg_ring visit turns (one_taken room) task caller t).1.2.io_uring
            ≡ elim (t.io_uring.callbacks t.next_task_id) [
              | none ↦ Completion.bad_function_call
              | some callback ↦ Completion.ran callback res flags
            ])
  unfolding post_via_msg_ring meanwhile store_task process_tasks send_message message_prepared
      message_submitted prepare_msg_ring prepare set_callback submit process_cqe get_callback
  process_cqe-post_via_msg_ring false room task caller t res flags r e l h =
      rw r rw e (refl, refl, ground (arith, ==_iff t.next_task_id 0))
  process_cqe-post_via_msg_ring true room task caller t res flags r e l h =
      rw r rw e (refl, refl, ground (arith, ==_iff t.next_task_id 0))
