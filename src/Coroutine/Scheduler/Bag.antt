-- ===== src/Coroutine/Scheduler/Bag.antt =====
-- coroutine/scheduler.hpp: what the scheduler promises. Coroutines up to their order: how often each
-- stands among those that wait.
use mathlib.Core.Quot
use mathlib.Core.Quot.{Quot, Quot-set}
use cpp20_coroutine_io_uring.Common.{
  ℕ, weigh, weigh-append, ◌+◌, ◌≡◌, refl, List, [], ◌∷◌, ◌++◌, ◌==◌, if◌then◌else◌, ==_iff, arith,
}

-- How often a task stands in a list is a weight, and so is the length.
abbrev pub count : ℕ → List ℕ → ℕ
count a = weigh λ x. if a == x then 1 else 0

pub count-append : (a : ℕ) (xs ys : List ℕ) → count a (xs ++ ys) ≡ count a xs + count a ys
count-append a = weigh-append λ x. if a == x then 1 else 0

pub count_self : (a : ℕ) → count a (a ∷ []) ≡ 1
count_self a = ground (arith, ==_iff a a)

abbrev SameTasks : List ℕ → List ℕ → Type 0
SameTasks xs ys = (a : ℕ) → count a xs ≡ count a ys

abbrev pub Bag : Type 0
Bag = Quot SameTasks

abbrev pub of_list : List ℕ → Bag
of_list = Quot.mk

-- The abstract operation: the tasks are added.
unfoldable pub put_all : List ℕ → Bag → Bag
put_all zs =
    Quot.lift Quot-set (λ xs. of_list (zs ++ xs))
      λ xs ys h. Quot.sound λ a. simp (count-append, h a)

unfoldable pub times : ℕ → Bag → ℕ
times a = Quot.lift (hlevel) (count a) λ xs ys h. h a

pub times-of_list : (a : ℕ) (xs : List ℕ) → times a (of_list xs) ≡ count a xs
unfolding times
times-of_list a xs = refl

pub times-put_all :
    (a : ℕ) (zs : List ℕ) (b : Bag) → times a (put_all zs b) ≡ count a zs + times a b
unfolding times put_all
times-put_all a zs = Quot.ind (λ _. hlevel) (count-append a zs)

-- Two bags in which each task stands equally often are equal.
pub ext : (x y : Bag) → ((a : ℕ) → times a x ≡ times a y) → x ≡ y
unfolding times
ext = Quot.ind (λ _. hlevel Quot-set) λ xs. Quot.ind (λ _. hlevel Quot-set) λ ys. Quot.sound
