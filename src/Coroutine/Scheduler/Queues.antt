-- ===== src/Coroutine/Scheduler/Queues.antt =====
-- coroutine/scheduler.hpp: the queues, and what taking a task from them or adding one to them does to
-- what they hold.
use cpp20_coroutine_io_uring.Common.{
  ℕ, zero, suc, ◌+◌, ◌<◌, ◌≡◌, ◌≢◌, ◌⊎◌, inl, inr, refl, sym, ap, subst, ◌∙◌, List, [], ◌∷◌, ◌++◌,
  Option, none, some, length, get_or, set, ◌==◌, weigh, weigh-append, length-set, Bool-cases,
  ==_iff, length-append, arith,
}
use cpp20_coroutine_io_uring.Coroutine.Scheduler.{
  WorkStealingQueue, pop, steal, steal_from, keep_queue, own_or_stolen, take_task,
}

-- All that waits, queue by queue.
abbrev pub flatten : List WorkStealingQueue → List ℕ
flatten [] = []
flatten (queue ∷ queues) = queue ++ flatten queues

pop_cases :
    (queue : WorkStealingQueue)
    → ((queue ≡ []) × (pop queue ≡ none))
      ⊎ ((task : ℕ) × (rest : WorkStealingQueue) × (pop queue ≡ some (task, rest))
          × (queue ≡ rest ++ task ∷ []))
unfolding pop
pop_cases [] = inl (refl, refl)
pop_cases (x ∷ queue) = elim (pop_cases queue) [
  | inl (e, p) ↦ inr (x, [], rw p refl, ap (◌∷◌ x) e)
  | inr (task, rest, p, e) ↦ inr (task, x ∷ rest, rw p refl, ap (◌∷◌ x) e)
]

pub weigh-set :
    (w : ℕ → ℕ) (queues : List WorkStealingQueue) (i : ℕ) (queue : WorkStealingQueue)
    → i < length queues
    → weigh w (flatten (set queues i queue)) + weigh w (get_or queues i [])
      ≡ weigh w (flatten queues) + weigh w queue
weigh-set w [] i queue h = absurd (omega arith)
weigh-set w (q ∷ queues) zero queue h =
    omega (arith, weigh-append w queue (flatten queues), weigh-append w q (flatten queues))
weigh-set w (q ∷ queues) (suc i) queue h = omega (
  arith,
  weigh-set w queues i queue (omega arith),
  weigh-append w q (flatten (set queues i queue)),
  weigh-append w q (flatten queues),
)

-- What `take_task` and `steal_from` come to: a task that is taken out of the queues, once.
abbrev pub Took : List WorkStealingQueue → Option (ℕ × List WorkStealingQueue) → Type 0
Took queues o =
    (task : ℕ) × (left : List WorkStealingQueue) × (o ≡ some (task, left))
    × (length left ≡ length queues)
    × ((w : ℕ → ℕ) → weigh w (flatten queues) ≡ weigh w (task ∷ []) + weigh w (flatten left))

Took-later :
    (queue : WorkStealingQueue) (queues : List WorkStealingQueue)
    (o : Option (ℕ × List WorkStealingQueue))
    → Took queues o
    → Took (queue ∷ queues) (keep_queue queue o)
Took-later queue queues o (task, left, e, l, c) = (
  task,
  queue ∷ left,
  ap (keep_queue queue) e,
  ap suc l,
  λ w.
      omega
        (arith, c w, weigh-append w queue (flatten queues), weigh-append w queue (flatten left)),
)

steal_from_own :
    (thread_id i : ℕ) (queue : WorkStealingQueue) (queues : List WorkStealingQueue)
    → i ≡ thread_id
    → steal_from thread_id i (queue ∷ queues)
      ≡ keep_queue queue (steal_from thread_id (i + 1) queues)
unfolding steal_from
steal_from_own thread_id i queue queues h = rw ((==_iff i thread_id).1 h) refl

steal_from_empty :
    (thread_id i : ℕ) (queues : List WorkStealingQueue)
    → steal_from thread_id i ([] ∷ queues) ≡ keep_queue [] (steal_from thread_id (i + 1) queues)
unfolding steal_from steal
steal_from_empty thread_id i queues = elim (Bool-cases (i == thread_id)) [
  | inl q ↦ rw q refl
  | inr q ↦ rw q refl
]

steal_from_other :
    (thread_id i task : ℕ) (queue : WorkStealingQueue) (queues : List WorkStealingQueue)
    → i ≢ thread_id
    → steal_from thread_id i ((task ∷ queue) ∷ queues) ≡ some (task, queue ∷ queues)
unfolding steal_from steal
steal_from_other thread_id i task queue queues h = elim (Bool-cases (i == thread_id)) [
  | inl q ↦ absurd (h ((==_iff i thread_id).0 q))
  | inr q ↦ rw q refl
]

abbrev OthersEmpty : ℕ → ℕ → List WorkStealingQueue → Type 0
OthersEmpty thread_id i queues = (j : ℕ) → i + j ≢ thread_id → get_or queues j [] ≡ []

others_later :
    (thread_id i : ℕ) (queue : WorkStealingQueue) (queues : List WorkStealingQueue)
    → (i ≢ thread_id → queue ≡ [])
    → OthersEmpty thread_id (i + 1) queues
    → OthersEmpty thread_id i (queue ∷ queues)
others_later thread_id i queue queues e h zero n = e λ q. n (omega (arith, q))
others_later thread_id i queue queues e h (suc j) n = h j λ q. n (omega (arith, q))

StealCases : ℕ → ℕ → List WorkStealingQueue → Type 0
StealCases thread_id i queues =
    ((steal_from thread_id i queues ≡ none) × OthersEmpty thread_id i queues)
    ⊎ Took queues (steal_from thread_id i queues)

-- A queue that is not stolen from, since it is the worker's own or empty.
passed_over :
    (thread_id i : ℕ) (queue : WorkStealingQueue) (queues : List WorkStealingQueue)
    → steal_from thread_id i (queue ∷ queues)
      ≡ keep_queue queue (steal_from thread_id (i + 1) queues)
    → (i ≢ thread_id → queue ≡ [])
    → StealCases thread_id (i + 1) queues
    → StealCases thread_id i (queue ∷ queues)
unfolding StealCases
passed_over thread_id i queue queues s e (inl (n, h)) =
    inl (s ∙ ap (keep_queue queue) n, others_later thread_id i queue queues e h)
passed_over thread_id i queue queues s e (inr took) = inr (
    subst (Took (queue ∷ queues)) (sym s)
      (Took-later queue queues (steal_from thread_id (i + 1) queues) took))

steal_from_cases :
    (thread_id i : ℕ) (queues : List WorkStealingQueue) → StealCases thread_id i queues
unfolding StealCases steal_from
steal_from_cases thread_id i [] = inl (refl, λ j n. refl)
steal_from_cases thread_id i ([] ∷ queues) =
    passed_over thread_id i [] queues (steal_from_empty thread_id i queues) (λ n. refl)
      (steal_from_cases thread_id (i + 1) queues)
steal_from_cases thread_id i ((x ∷ queue) ∷ queues) = elim (Bool-cases (i == thread_id)) [
  | inl q ↦
      passed_over thread_id i (x ∷ queue) queues
        (steal_from_own thread_id i (x ∷ queue) queues ((==_iff i thread_id).0 q))
        (λ n. absurd (n ((==_iff i thread_id).0 q))) (steal_from_cases thread_id (i + 1) queues)
  | inr q ↦ inr (
    x,
    queue ∷ queues,
    steal_from_other thread_id i x queue queues (ground (arith, ==_iff i thread_id)),
    refl,
    λ w. omega arith,
  )
]

flatten_empty :
    (queues : List WorkStealingQueue) → ((j : ℕ) → get_or queues j [] ≡ []) → flatten queues ≡ []
flatten_empty [] h = refl
flatten_empty (queue ∷ queues) h = rw (h 0) (flatten_empty queues λ j. h (suc j))

own_or_other :
    (thread_id j : ℕ) (queues : List WorkStealingQueue)
    → get_or queues thread_id [] ≡ []
    → OthersEmpty thread_id 0 queues
    → get_or queues j [] ≡ []
own_or_other thread_id j queues e h = elim (Bool-cases (j == thread_id)) [
  | inl q ↦ ap (λ i. get_or queues i []) ((==_iff j thread_id).0 q) ∙ e
  | inr q ↦ h j (ground (arith, ==_iff j thread_id))
]

get_or_nonempty_lt :
    (queues : List WorkStealingQueue) (i : ℕ) → get_or queues i [] ≢ [] → i < length queues
get_or_nonempty_lt [] i h = absurd (h refl)
get_or_nonempty_lt (queue ∷ queues) zero h = omega arith
get_or_nonempty_lt (queue ∷ queues) (suc i) h = omega (arith, get_or_nonempty_lt queues i h)

abbrev pub TakeCases : ℕ → List WorkStealingQueue → Type 0
TakeCases thread_id queues =
    ((take_task thread_id queues ≡ none) × (flatten queues ≡ []))
    ⊎ Took queues (take_task thread_id queues)

take_task-pop :
    (thread_id task : ℕ) (rest : WorkStealingQueue) (queues : List WorkStealingQueue)
    → pop (get_or queues thread_id []) ≡ some (task, rest)
    → take_task thread_id queues ≡ some (task, set queues thread_id rest)
unfolding take_task own_or_stolen
take_task-pop thread_id task rest queues e = ap (own_or_stolen thread_id queues) e

take_task_steal :
    (thread_id : ℕ) (queues : List WorkStealingQueue)
    → pop (get_or queues thread_id []) ≡ none
    → take_task thread_id queues ≡ steal_from thread_id 0 queues
unfolding take_task own_or_stolen
take_task_steal thread_id queues e = ap (own_or_stolen thread_id queues) e

snoc_nonempty : (rest : List ℕ) (task : ℕ) → rest ++ task ∷ [] ≢ []
snoc_nonempty rest task e = absurd (omega (arith, ap length e, length-append rest (task ∷ [])))

take_own_empty :
    (thread_id : ℕ) (queues : List WorkStealingQueue)
    → get_or queues thread_id [] ≡ []
    → take_task thread_id queues ≡ steal_from thread_id 0 queues
    → StealCases thread_id 0 queues
    → TakeCases thread_id queues
unfolding StealCases
take_own_empty thread_id queues e s (inl (n, h)) =
    inl (s ∙ n, flatten_empty queues λ j. own_or_other thread_id j queues e h)
take_own_empty thread_id queues e s (inr took) = inr (subst (Took queues) (sym s) took)

pub take_task_cases : (thread_id : ℕ) (queues : List WorkStealingQueue) → TakeCases thread_id queues
take_task_cases thread_id queues = elim (pop_cases (get_or queues thread_id [])) [
  | inl (e, p) ↦
      take_own_empty thread_id queues e (take_task_steal thread_id queues p)
        (steal_from_cases thread_id 0 queues)
  | inr (task, rest, p, e) ↦ inr (
    task,
    set queues thread_id rest,
    take_task-pop thread_id task rest queues p,
    length-set queues thread_id rest,
    λ w. omega (
      arith,
      weigh-set w queues thread_id rest
          (get_or_nonempty_lt queues thread_id λ n. snoc_nonempty rest task (sym e ∙ n)),
      ap (weigh w) e,
      weigh-append w rest (task ∷ []),
    ),
  )
]
