-- ===== src/Io/EventLoopPool/Dispatch.antt =====
-- io/event_loop_pool.hpp: `EventLoopPool::dispatch_to_worker` and the choice of the worker.
use native.Mathlib.Nat.{mod-lt}
use cpp20_coroutine_io_uring.Common.{
  ℕ, ◌+◌, ◌-◌, ◌%◌, ◌^◌, ◌≤◌, ◌<◌, ◌≡◌, ◌≢◌, inl, inr, refl, ap, ◌∙◌, Bool, true, false, not, ◌||◌,
  List, [], ◌∷◌, Option, some, length, get_elem?, get_or, set, ◌==◌, if◌then◌else◌, All, weigh,
  least_from, IsLeast, least_from_lem, get_elem?_lt, get_elem?-set_self, All-Contains,
  get_elem?-Contains, get_elem?-set_ne, Bool-cases, ==_iff, ltb→lt, arith,
}
use cpp20_coroutine_io_uring.Io.IoUring.{IoUring}
use cpp20_coroutine_io_uring.Io.EventLoopThread.{
  EventLoopThread, Answers, Fn, CrossThreadTask, delivers, post_via_msg_ring, post_fn, post,
  inc_connections,
}
use cpp20_coroutine_io_uring.Io.EventLoopThread.Messages.{
  waiting, IsValid, post_via_msg_ring_lem, connection_count-post_via_msg_ring, weigh-post,
}
use cpp20_coroutine_io_uring.Io.EventLoopPool.{
  EventLoopPool, worker_loop, least_loop, select_worker_least_connections,
  select_worker_round_robin, select_worker, deliver, least_of, with_pool, dispatch_to_worker,
}

-- There is a worker, as many as are counted, and each is valid.
pub record IsReady (p : EventLoopPool) : Type 0 where
  pub counted : p.worker_count ≡ length p.workers
  pub some_worker : 1 ≤ length p.workers
  pub valid : All IsValid p.workers

least_loop-least_from :
    (i best best_count : ℕ) (threads : List EventLoopThread)
    → least_loop (i + 1) best best_count threads
      ≡ least_from (λ t. t.connection_count) i best best_count threads
unfolding least_loop
least_loop-least_from i best best_count [] = refl
least_loop-least_from i best best_count (t ∷ threads) =
    let e : i + 1 - 1 ≡ i = omega arith in
    rw e rw (least_loop-least_from (i + 1) i t.connection_count threads) rw
      (least_loop-least_from (i + 1) best best_count threads) refl

least_first :
    (first : EventLoopThread) (rest : List EventLoopThread)
    → least_loop 1 0 first.connection_count (first ∷ rest)
      ≡ least_from (λ t. t.connection_count) 1 0 first.connection_count rest
unfolding least_loop
least_first first rest = ground (
  arith,
  least_loop-least_from 1 0 first.connection_count rest,
  ltb→lt first.connection_count first.connection_count,
)

least_of_lem :
    (d : EventLoopThread) (workers : List EventLoopThread)
    → 1 ≤ length workers
    → (k : ℕ) × (least_of workers ≡ some k) × IsLeast (λ t. t.connection_count) d workers k
unfolding least_of
least_of_lem d [] h = absurd (omega arith)
least_of_lem d (first ∷ rest) h = (
  least_from (λ t. t.connection_count) 1 0 first.connection_count rest,
  ap some (least_first first rest),
  least_from_lem (λ t. t.connection_count) d first rest,
)

-- The worker that "lc" selects is there and has no more connections than any other, if there is one.
pub select_worker_least_connections_lem :
    (d : EventLoopThread) (p : EventLoopPool)
    → 1 ≤ length p.workers
    → (k : ℕ) × (select_worker_least_connections p ≡ some k)
      × (k < length p.workers)
      × All (λ t. (get_or p.workers k d).connection_count ≤ t.connection_count) p.workers
unfolding select_worker_least_connections
select_worker_least_connections_lem d p h =
    let (k, e, l) = least_of_lem d p.workers h in (k, e, l.0, l.1)

-- What either strategy gives: a worker that is there, and the pool with the same threads.
abbrev Selected : EventLoopPool → Option (ℕ × EventLoopPool) → Type 0
Selected p o =
    (k : ℕ) × (p' : EventLoopPool) × (o ≡ some (k, p'))
    × (k < length p.workers)
    × (p'.workers ≡ p.workers)
    × (p'.main_loop ≡ p.main_loop)

Selected-least :
    (p : EventLoopPool) → IsReady p → Selected p (with_pool p (select_worker_least_connections p))
Selected-least p v =
    let (k, e, l, a) = select_worker_least_connections_lem p.main_loop p v.some_worker in
    (k, p, ap (with_pool p) e, l, refl, refl)

Selected-round : (p : EventLoopPool) → IsReady p → Selected p (select_worker_round_robin p)
unfolding select_worker_round_robin
Selected-round p v =
    let positive : p.worker_count ≢ 0 = λ e. absurd (omega (arith, v.counted, v.some_worker, e)) in
    let inside : p.next_worker % p.worker_count < p.worker_count =
      mod-lt p.next_worker (omega (arith, v.counted, v.some_worker)) in
    elim (Bool-cases (p.worker_count == 0)) [
      | inl q ↦ absurd (positive ((==_iff p.worker_count 0).0 q))
      | inr q ↦ (
        p.next_worker % p.worker_count,
        record p { next_worker = (p.next_worker + 1) % 2 ^ 32 },
        rw q refl,
        omega (arith, inside, v.counted),
        refl,
        refl,
      )
    ]

select_worker_lem : (lc : Bool) (p : EventLoopPool) → IsReady p → Selected p (select_worker lc p)
unfolding select_worker
select_worker_lem true p v = Selected-least p v
select_worker_lem false p v = Selected-round p v

abbrev delivery : ℕ → Option ℕ → CrossThreadTask
delivery fd on_ready = record { task_type = 1; data_word = fd; fn = some (delivers fd on_ready) }

-- Whether the message that carries the descriptor is sent.
abbrev pub is_sent :
    (List (ℕ × CrossThreadTask) → List (ℕ × CrossThreadTask))
    → Bool
    → Answers
    → ℕ
    → Option ℕ
    → IoUring
    → EventLoopThread
    → Bool
is_sent visit turns answers fd on_ready caller t =
    (post_via_msg_ring visit turns answers (delivery fd on_ready) caller t).1.0

module _ (visit : List (ℕ × CrossThreadTask) → List (ℕ × CrossThreadTask))
    (visits : (weight : ℕ × CrossThreadTask → ℕ) (entries : List (ℕ × CrossThreadTask))
      → weigh weight (visit entries) ≡ weigh weight entries)
    (turns : Bool) (answers : Answers) where
  connection_count-deliver :
      (fallback : Answers) (fd : ℕ) (on_ready : Option ℕ) (caller : IoUring) (t : EventLoopThread)
      → (deliver visit turns answers fallback fd on_ready caller t).1.1.connection_count
        ≡ t.connection_count
  unfolding deliver post_fn post
  connection_count-deliver fallback fd on_ready caller t =
      let kept =
        connection_count-post_via_msg_ring visit visits turns answers (delivery fd on_ready) caller
          t in
      elim (Bool-cases (is_sent visit turns answers fd on_ready caller t)) [
        | inl q ↦ rw q kept
        | inr q ↦ rw q kept
      ]

  weigh-deliver :
      (fallback : Answers) (fd : ℕ) (on_ready : Option ℕ) (caller : IoUring) (t : EventLoopThread)
      → (w : Fn → ℕ) → IsValid t
      → weigh w (deliver visit turns answers fallback fd on_ready caller t).0
          + weigh w (waiting (deliver visit turns answers fallback fd on_ready caller t).1.1)
        ≡ (if is_sent visit turns answers fd on_ready caller t || not turns
            then 0
            else w (delivers fd on_ready))
          + w (delivers fd on_ready)
          + weigh w (waiting t)
  unfolding deliver post_fn
  weigh-deliver fallback fd on_ready caller t w v =
      let sent =
        post_via_msg_ring_lem visit visits turns answers (delivery fd on_ready) caller t w v in
      let late =
        weigh-post fallback
          (record { task_type = 0; data_word = 0; fn = some (delivers fd on_ready) })
          (post_via_msg_ring visit turns answers (delivery fd on_ready) caller t).1.2 w in
      elim (Bool-cases (is_sent visit turns answers fd on_ready caller t)) [
        | inl q ↦ rw q (ground (arith, sent, q))
        | inr q ↦ elim (Bool-cases turns) [
          | inl r ↦ rw (q, r) (ground (arith, sent, q, r, late))
          | inr r ↦ rw (q, r) (ground (arith, sent, q, r, late))
        ]
      ]

All-get_elem? :
    (workers : List EventLoopThread) (k : ℕ) (t : EventLoopThread)
    → All IsValid workers
    → get_elem? workers k ≡ some t
    → IsValid t
All-get_elem? workers k t h e = All-Contains IsValid t workers h (get_elem?-Contains workers k t e)

inc-IsValid : (t : EventLoopThread) → IsValid t → IsValid (inc_connections t)
unfolding inc_connections
inc-IsValid t v = record { given_out = v.given_out; no_wrap = v.no_wrap }

-- Dispatching a descriptor with either strategy, whatever liburing answers, on a pool that has
-- workers and whose workers are valid, gives a pool in which one worker has one connection more and
-- no other worker has changed. What that worker has called while the message was under way and has
-- to call after it is what it had and `on_ready` with the descriptor, once; but twice if it
-- processed its tasks in between and the message then could not be sent.
pub dispatch_to_worker_lem :
    (visit : List (ℕ × CrossThreadTask) → List (ℕ × CrossThreadTask))
    → ((weight : ℕ × CrossThreadTask → ℕ) (entries : List (ℕ × CrossThreadTask))
        → weigh weight (visit entries) ≡ weigh weight entries)
    → (turns : Bool) (answers fallback : Answers) (fd : ℕ) (on_ready : Option ℕ) (lc : Bool)
      (p : EventLoopPool)
    → IsReady p
    → (called : List Fn) × (p' : EventLoopPool) × (k : ℕ) × (t : EventLoopThread)
      × (t' : EventLoopThread) × (dispatch_to_worker visit turns answers fallback fd on_ready lc p
          ≡ some (called, p'))
      × (get_elem? p.workers k ≡ some t)
      × (get_elem? p'.workers k ≡ some t')
      × (t'.connection_count ≡ (t.connection_count + 1) % 2 ^ 64)
      × ((w : Fn → ℕ)
          → weigh w called + weigh w (waiting t')
            ≡ (if is_sent visit turns answers fd on_ready p.main_loop.io_uring (inc_connections t)
                  || not turns
                then 0
                else w (delivers fd on_ready))
              + w (delivers fd on_ready)
              + weigh w (waiting t))
      × ((j : ℕ) → k ≢ j → get_elem? p'.workers j ≡ get_elem? p.workers j)
unfolding dispatch_to_worker worker_loop inc_connections
dispatch_to_worker_lem visit visits turns answers fallback fd on_ready lc p v =
    let (k, q, e, l, same, main) = select_worker_lem lc p v in
    let (t, g) = get_elem?_lt p.workers k l in
    let g' : get_elem? q.workers k ≡ some t = ap (λ ws. get_elem? ws k) same ∙ g in
    let result =
      deliver visit turns answers fallback fd on_ready p.main_loop.io_uring (inc_connections t) in
    let at_k : k < length q.workers = omega (arith, l, ap length same) in
    (
      result.0,
      record q {
        main_loop = record (p.main_loop) { io_uring = result.1.0 };
        workers = set q.workers k result.1.1;
      },
      k,
      t,
      result.1.1,
      rw e rw g' rw main refl,
      g,
      get_elem?-set_self q.workers k result.1.1 at_k,
      connection_count-deliver visit visits turns answers fallback fd on_ready p.main_loop.io_uring
          (inc_connections t),
      (λ w.
          weigh-deliver visit visits turns answers fallback fd on_ready p.main_loop.io_uring
            (inc_connections t) w (inc-IsValid t (All-get_elem? p.workers k t v.valid g))),
      λ j n. get_elem?-set_ne q.workers k j result.1.1 n ∙ ap (λ ws. get_elem? ws j) same,
    )
