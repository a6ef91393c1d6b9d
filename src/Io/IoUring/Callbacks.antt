-- ===== src/Io/IoUring/Callbacks.antt =====
-- io/io_uring.hpp: `set_callback`, `get_callback` and the processing of completions. What the table
-- of callbacks gives back.
use cpp20_coroutine_io_uring.Common.{
  ℕ, suc, ◌%◌, ◌<◌, ◌≡◌, ◌⊎◌, inl, inr, refl, ap, true, false, List, [], ◌∷◌, none, some, ℤ, ◌==◌,
  length, if◌then◌else◌, Bool-cases, ==_iff, arith,
}
use cpp20_coroutine_io_uring.Io.IoUring.{
  Operation, Cqe, CompletionCallback, IoUring, Completion, set_callback, get_callback, process_cqe,
  process_all_cqe, move_from, throws, one_more, after,
}

-- Entries that get their callbacks one after the other.
abbrev pub register_all : List (Operation × ℕ × CompletionCallback) → IoUring → IoUring
register_all [] r = r
register_all ((operation, flags, callback) ∷ later) r =
    register_all later (set_callback operation flags callback r)

abbrev pub answer : ℕ → ℤ → ℕ → Cqe
answer id res flags = record { user_data = id; res = res; flags = flags }

-- The callback that an entry is given when the next identifier is a multiple of 65536 never runs: the
-- completion of that entry is skipped, whatever is registered in between.
pub process_cqe-set_callback_zero :
    (operation : Operation) (flags : ℕ) (callback : CompletionCallback) (r : IoUring)
    → (later : List (Operation × ℕ × CompletionCallback)) (res : ℤ) (cqe_flags : ℕ)
    → r.next_callback_id % 65536 ≡ 0
    → process_cqe
        (answer (r.next_callback_id % 65536) res cqe_flags)
        (register_all later (set_callback operation flags callback r))
      ≡ Completion.skipped
unfolding process_cqe get_callback
process_cqe-set_callback_zero operation flags callback r later res cqe_flags h = rw h refl

-- Through a ring made by the move constructor, the completion of an entry that the old object
-- prepared under an identifier from 1 to 65535 calls an empty function, and one with identifier 0 is
-- skipped.
pub process_cqe-move_from :
    (cqe : Cqe) (r : IoUring)
    → cqe.user_data < 65536
    → process_cqe cqe (move_from r)
      ≡ (if cqe.user_data == 0 then Completion.skipped else Completion.bad_function_call)
unfolding process_cqe get_callback move_from
process_cqe-move_from cqe r h = ground (arith, ==_iff cqe.user_data 0)

module _ (effect : (callback : ℕ) (res : ℤ) (flags : ℕ) → IoUring → IoUring) where
  process_all_step :
      (cqe : Cqe) (cqes : List Cqe) (r : IoUring)
      → throws (process_cqe cqe r) ≡ false
      → process_all_cqe effect (cqe ∷ cqes) r ≡ (
        one_more (process_all_cqe effect cqes (after effect (process_cqe cqe r) r)).0,
        process_cqe cqe r ∷ (process_all_cqe effect cqes (after effect (process_cqe cqe r) r)).1,
        (process_all_cqe effect cqes (after effect (process_cqe cqe r) r)).2,
      )
  unfolding process_all_cqe
  process_all_step cqe cqes r h = rw h refl

  process_all_throw :
      (cqe : Cqe) (cqes : List Cqe) (r : IoUring)
      → throws (process_cqe cqe r) ≡ true
      → process_all_cqe effect (cqe ∷ cqes) r ≡ (none, process_cqe cqe r ∷ [], r)
  unfolding process_all_cqe
  process_all_throw cqe cqes r h = rw h refl

  -- Either an exception leaves the loop on the ready completions, which then gives no number, or the
  -- number it returns is that of the completions, and each of them has come to an outcome.
  pub process_all_cqe_lem :
      (cqes : List Cqe) (r : IoUring)
      → ((process_all_cqe effect cqes r).0 ≡ none)
        ⊎ (((process_all_cqe effect cqes r).0 ≡ some (length cqes))
            × (length (process_all_cqe effect cqes r).1 ≡ length cqes))
  unfolding process_all_cqe
  process_all_cqe_lem [] r = inr (refl, refl)
  process_all_cqe_lem (cqe ∷ cqes) r = elim (Bool-cases (throws (process_cqe cqe r))) [
    | inl q ↦ rw q (inl refl)
    | inr q ↦ elim (process_all_cqe_lem cqes (after effect (process_cqe cqe r) r)) [
      | inl e ↦ rw (q, e) (inl refl)
      | inr (e, l) ↦ rw (q, e) (inr (refl, ap suc l))
    ]
  ]
