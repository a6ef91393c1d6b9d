-- ===== src/Io/TimingWheel/Firing.antt =====
-- io/timer.hpp: when the callback of a timer of a timing wheel is run.
use native.Mathlib.Decide.{ℕ_discrete}
use cpp20_coroutine_io_uring.Common.{
  ℕ, zero, suc, ◌+◌, ◌-◌, ◌*◌, ◌%◌, ◌^◌, ◌<◌, ◌≤◌, ◌≡◌, refl, sym, ap, subst, not, List, [], ◌∷◌,
  map, arith, inl, inr, get_or, set, keep_if, All, All-keep_if, absent, Contains, Contains-keep_if,
  Contains-append_left, Contains-append_right, get_or-set_self, get_or-set_ne,
}
use cpp20_coroutine_io_uring.Io.TimingWheel.{
  TimerEntry, TimingWheel, expire_of, slot_at, entry_of, take_id, enter, is_due, due_entries, tick,
  advance,
}
use cpp20_coroutine_io_uring.Io.TimingWheel.Invariant.{
  IsValid, slot_lt, expire_of_lem, expire_of_lt, enter-IsValid, take_id-IsValid, tick-IsValid,
}

-- The entry stands in the slot of its tick.
IsHeld : TimingWheel → TimerEntry → Type 0
IsHeld w e = Contains e (slot_at w (e.expire_tick % w.slots))

Contains-map :
    (e : TimerEntry) (es : List TimerEntry)
    → Contains e es
    → Contains e.callback (map (λ x. x.callback) es)
Contains-map e [] (absent x) = absurd x
Contains-map e (x ∷ es) (inl same) = inl (ap (λ y. y.callback) same)
Contains-map e (x ∷ es) (inr h) = inr (Contains-map e es h)

-- On a valid wheel, the entries that a tick takes out expire at exactly the tick that is current, so
-- no callback is run early or late.
pub tick-due_entries :
    (w : TimingWheel) → IsValid w → All (λ e. e.expire_tick ≡ w.current_tick) (due_entries w)
tick-due_entries w v =
    All-keep_if _ _ (is_due w) (slot_at w (w.current_tick % w.slots))
      (λ e h due. let now = h.ahead in ground arith) (v.pending _)

tick-fires :
    (w : TimingWheel) (e : TimerEntry)
    → IsHeld w e
    → e.expire_tick ≡ w.current_tick
    → Contains e.callback (tick w).0
unfolding IsHeld tick
tick-fires w e held now = Contains-map e _ (
    Contains-keep_if (is_due w) e _ (subst (λ n. Contains e (slot_at w (n % w.slots))) now held)
      (ground arith))

tick-IsHeld :
    (w : TimingWheel) (e : TimerEntry)
    → IsValid w
    → IsHeld w e
    → w.current_tick < e.expire_tick
    → IsHeld (tick w).1 e
unfolding IsHeld tick
tick-IsHeld w e v held later =
    elim (ℕ_discrete (w.current_tick % w.slots) (e.expire_tick % w.slots)) [
      | yes same ↦
          subst (λ j. Contains e (get_or after j [])) same
            (rw (get_or-set_self w.wheels _ kept [] (slot_lt w v w.current_tick)) (
              Contains-keep_if _ e _ (subst (λ j. Contains e (slot_at w j)) (sym same) held)
                (ground arith)))
      | no other ↦ rw (get_or-set_ne w.wheels _ _ _ [] other) held
    ]
  where
    kept : List TimerEntry
    kept = keep_if (λ x. not (is_due w x)) (slot_at w (w.current_tick % w.slots))

    after : List (List TimerEntry)
    after = set w.wheels (w.current_tick % w.slots) kept

tick-current_tick :
    (w : TimingWheel) → w.current_tick + 1 < 2 ^ 64 → (tick w).1.current_tick ≡ w.current_tick + 1
unfolding tick
tick-current_tick w fits = omega arith

-- An entry that is held expires in `n` ticks, so it is run by the last of `n + 1` ticks.
advance-fires :
    (n : ℕ) (w : TimingWheel) (e : TimerEntry)
    → IsValid w
    → IsHeld w e
    → w.current_tick + n ≡ e.expire_tick
    → e.expire_tick + 1 < 2 ^ 64
    → Contains e.callback (advance (suc n) w).0
unfolding advance
advance-fires zero w e v held now fits =
    Contains-append_left _ (tick w).0 _ (tick-fires w e held (omega arith))
advance-fires (suc n) w e v held now fits = Contains-append_right _ (tick w).0 _ (
    advance-fires n (tick w).1 e (tick-IsValid w v (omega arith))
      (tick-IsHeld w e v held (omega arith)) (omega (arith, tick-current_tick w (omega arith)))
      fits)

-- What ticks leave as it is, if the count of ticks does not wrap.
advance_lem :
    (k : ℕ) (w : TimingWheel)
    → IsValid w
    → w.current_tick + k < 2 ^ 64
    → IsValid (advance k w).1 × ((advance k w).1.current_tick ≡ w.current_tick + k)
unfolding advance
advance_lem zero w v fits = (v, omega arith)
advance_lem (suc k) w v fits =
    let one = tick-current_tick w (omega arith) in
    let (valid, passed) =
      advance_lem k (tick w).1 (tick-IsValid w v (omega arith)) (omega (arith, one)) in
    (valid, omega (arith, passed, one))

enter-IsHeld : (e : TimerEntry) (w : TimingWheel) → IsValid w → IsHeld (enter e w) e
unfolding IsHeld enter
enter-IsHeld e w v =
    rw (get_or-set_self w.wheels (e.expire_tick % w.slots) _ [] (slot_lt w v e.expire_tick))
      (Contains-append_right _ (slot_at w (e.expire_tick % w.slots)) _ (inl refl))

enter-current_tick : (e : TimerEntry) (w : TimingWheel) → (enter e w).current_tick ≡ w.current_tick
unfolding enter
enter-current_tick e w = refl

take_id-current_tick : (w : TimingWheel) → (take_id w).current_tick ≡ w.current_tick
unfolding take_id
take_id-current_tick w = refl

entry_of-expire : (w : TimingWheel) (d c : ℕ) → (entry_of w d c).expire_tick ≡ expire_of w d
unfolding entry_of
entry_of-expire w d c = refl

entry_of-callback : (w : TimingWheel) (d c : ℕ) → (entry_of w d c).callback ≡ c
unfolding entry_of
entry_of-callback w d c = refl

-- The wheel once `add_timer` is done, if `k` ticks come before it gets the mutex.
abbrev pub added : TimingWheel → ℕ → ℕ → ℕ → TimingWheel
added w delay_ms callback k = enter (entry_of w delay_ms callback) (advance k (take_id w)).1

-- A timer is added to a valid wheel, with a delay that is not 0 and where no number wraps; its tick
-- is the `n`-th from the current one, where `n` whole ticks are shorter than the delay and `n + 1`
-- reach it. If the ticks that come before `add_timer` has the mutex, `k` of them, have not passed
-- it, then its callback has been run once that tick is done, and every entry that this and the ticks
-- before it take out, so run, expires at exactly that tick: none is run early or late.
pub add_timer-advance :
    (w : TimingWheel) (delay_ms callback n k : ℕ)
    → IsValid w
    → 0 < delay_ms
    → delay_ms + w.tick_ms < 2 ^ 64
    → w.current_tick + delay_ms + 1 < 2 ^ 64
    → n ≡ expire_of w delay_ms - w.current_tick
    → k ≤ n
    → Contains callback (advance (suc (n - k)) (added w delay_ms callback k)).0
      × (n * w.tick_ms < delay_ms)
      × (delay_ms ≤ (n + 1) * w.tick_ms)
      × ((j : ℕ)
          → j ≤ n - k
          → All
              (λ e. e.expire_tick ≡ (advance j (added w delay_ms callback k)).1.current_tick)
              (due_entries (advance j (added w delay_ms callback k)).1))
add_timer-advance w delay_ms callback n k v d fits fits' e l =
    let (ahead, below, reached) = expire_of_lem w delay_ms v.some_time d fits (omega arith) in
    let inside : expire_of w delay_ms < w.current_tick + delay_ms =
      expire_of_lt w delay_ms v.some_time d fits (omega arith) in
    let entry : TimerEntry = entry_of w delay_ms callback in
    let at = entry_of-expire w delay_ms callback in
    let same = take_id-current_tick w in
    let (valid, passed) =
      advance_lem k (take_id w) (take_id-IsValid w v) (omega (arith, same, inside, l, e)) in
    let now = enter-current_tick entry (advance k (take_id w)).1 in
    let entered =
      enter-IsValid (advance k (take_id w)).1 valid entry
        (omega (arith, at, passed, same, ahead, l, e)) in
    (
      subst (λ c. Contains c (advance (suc (n - k)) (added w delay_ms callback k)).0)
          (entry_of-callback w delay_ms callback)
          (advance-fires (n - k) (added w delay_ms callback k) entry entered
            (enter-IsHeld entry (advance k (take_id w)).1 valid)
            (omega (arith, at, now, passed, same, ahead, l, e)) (omega (arith, at, inside))),
      rw e below,
      rw e reached,
      λ j i.
          tick-due_entries (advance j (added w delay_ms callback k)).1
            (advance_lem j (added w delay_ms callback k) entered
              (omega (arith, now, passed, same, ahead, inside, l, i, e))).0,
    )
