-- ===== src/Io/TimingWheel/Invariant.antt =====
-- io/timer.hpp: what holds of a timing wheel between calls, and that every member keeps it.
use native.Mathlib.Decide.{ℕ_discrete}
use native.Mathlib.Nat.{mod-lt, div-add-mod}
use cpp20_coroutine_io_uring.Common.{
  ℕ, zero, suc, ◌+◌, ◌-◌, ◌*◌, ◌/◌, ◌%◌, ◌^◌, ◌<◌, ◌≤◌, ◌≡◌, ◌≢◌, ◌⊎◌, refl, ap, ◌∙◌, not, List, [],
  ◌∷◌, arith, subst, inl, inr, Option-cases, length, get_or, set, replicate, keep_if, All,
  All-append, All-keep_if, All-map, length-set, length-replicate, get_or-set_self, get_or-set_ne,
}
use cpp20_coroutine_io_uring.Io.TimingWheel.{
  TimerEntry, TimingWheel, init, expire_of, slot_at, take_id, enter, cancel_timer, is_due, tick,
}

-- An entry of slot `i` expires at a tick of that slot that has not been reached.
pub record IsPending (slots now i : ℕ) (e : TimerEntry) : Type 0 where
  pub in_slot : e.expire_tick % slots ≡ i
  pub ahead : now ≤ e.expire_tick

pub record IsValid (w : TimingWheel) : Type 0 where
  pub some_slots : 0 < w.slots
  pub some_time : 0 < w.tick_ms
  pub sized : length w.wheels ≡ w.slots
  pub pending : (i : ℕ) → All (IsPending w.slots w.current_tick i) (slot_at w i)

get_or-replicate_nil : (n i : ℕ) → get_or {A = List TimerEntry} (replicate n []) i [] ≡ []
get_or-replicate_nil zero i = refl
get_or-replicate_nil (suc n) zero = refl
get_or-replicate_nil (suc n) (suc i) = get_or-replicate_nil n i

pub init-IsValid : (slots tick_ms : ℕ) → 0 < slots → 0 < tick_ms → IsValid (init slots tick_ms)
unfolding init
init-IsValid slots tick_ms h k = record {
  some_slots = h;
  some_time = k;
  sized = length-replicate slots [];
  pending = λ i. rw (get_or-replicate_nil slots i) tt;
}

-- A quotient rounded up.
ceil_bounds :
    (d t : ℕ)
    → 0 < t
    → 0 < d
    → (1 ≤ (d + t - 1) / t)
      × ((d + t - 1) / t ≤ d)
      × (((d + t - 1) / t - 1) * t < d)
      × (d ≤ (d + t - 1) / t * t)
ceil_bounds d t h k =
    rounded ((d + t - 1) / t) ((d + t - 1) % t) (div-add-mod (d + t - 1) t) (mod-lt (d + t - 1) h)
  where
    rounded :
        (q r : ℕ)
        → t * q + r ≡ d + t - 1
        → r < t
        → (1 ≤ q) × (q ≤ d) × ((q - 1) * t < d) × (d ≤ q * t)
    rounded zero r e l = absurd (omega arith)
    rounded (suc q) r e l = (omega arith, grind arith, grind arith, grind arith)

-- The tick at which a timer with a delay expires, where nothing wraps.
pub expire_of_lem :
    (w : TimingWheel) (delay_ms : ℕ)
    → 0 < w.tick_ms
    → 0 < delay_ms
    → delay_ms + w.tick_ms < 2 ^ 64
    → w.current_tick + delay_ms < 2 ^ 64
    → (w.current_tick ≤ expire_of w delay_ms)
      × ((expire_of w delay_ms - w.current_tick) * w.tick_ms < delay_ms)
      × (delay_ms ≤ (expire_of w delay_ms - w.current_tick + 1) * w.tick_ms)
unfolding expire_of
expire_of_lem w delay_ms t d fits fits' =
    let (some_tick, few, below, above) = ceil_bounds delay_ms w.tick_ms t d in
    let no_wrap : (delay_ms + w.tick_ms + 2 ^ 64 - 1) % 2 ^ 64 ≡ delay_ms + w.tick_ms - 1 =
      omega arith in
    rw no_wrap (at_tick ((delay_ms + w.tick_ms - 1) / w.tick_ms) some_tick few below above)
  where
    at_tick :
        (q : ℕ)
        → 1 ≤ q
        → q ≤ delay_ms
        → (q - 1) * w.tick_ms < delay_ms
        → delay_ms ≤ q * w.tick_ms
        → (w.current_tick ≤ (w.current_tick + q + 2 ^ 64 - 1) % 2 ^ 64)
          × (((w.current_tick + q + 2 ^ 64 - 1) % 2 ^ 64 - w.current_tick) * w.tick_ms < delay_ms)
          × (delay_ms
              ≤ ((w.current_tick + q + 2 ^ 64 - 1) % 2 ^ 64 - w.current_tick + 1) * w.tick_ms)
    at_tick q some_tick few below above =
        let no_wrap : (w.current_tick + q + 2 ^ 64 - 1) % 2 ^ 64 ≡ w.current_tick + q - 1 =
          omega arith in
        let since : w.current_tick + q - 1 - w.current_tick ≡ q - 1 = omega arith in
        let whole : q - 1 + 1 ≡ q = omega arith in
        rw (no_wrap, since, whole) (omega arith, below, above)

pub expire_of_lt :
    (w : TimingWheel) (delay_ms : ℕ)
    → 0 < w.tick_ms
    → 0 < delay_ms
    → delay_ms + w.tick_ms < 2 ^ 64
    → w.current_tick + delay_ms < 2 ^ 64
    → expire_of w delay_ms < w.current_tick + delay_ms
unfolding expire_of
expire_of_lt w delay_ms t d fits fits' =
    let (some_tick, few, below, above) = ceil_bounds delay_ms w.tick_ms t d in
    let no_wrap : (delay_ms + w.tick_ms + 2 ^ 64 - 1) % 2 ^ 64 ≡ delay_ms + w.tick_ms - 1 =
      omega arith in
    rw no_wrap (at_tick ((delay_ms + w.tick_ms - 1) / w.tick_ms) some_tick few)
  where
    at_tick :
        (q : ℕ)
        → 1 ≤ q
        → q ≤ delay_ms
        → (w.current_tick + q + 2 ^ 64 - 1) % 2 ^ 64 < w.current_tick + delay_ms
    at_tick q some_tick few = omega arith

-- A slot after one slot has been replaced is the new one or is as before.
pub get_or-set_cases :
    (xs : List (List TimerEntry)) (k i : ℕ) (es : List TimerEntry)
    → (get_or (set xs k es) i [] ≡ get_or xs i []) ⊎ ((k ≡ i) × (get_or (set xs k es) i [] ≡ es))
get_or-set_cases [] k i es = inl refl
get_or-set_cases (x ∷ xs) zero zero es = inr (refl, refl)
get_or-set_cases (x ∷ xs) zero (suc i) es = inl refl
get_or-set_cases (x ∷ xs) (suc k) zero es = inl refl
get_or-set_cases (x ∷ xs) (suc k) (suc i) es = elim (get_or-set_cases xs k i es) [
  | inl e ↦ inl e
  | inr (same, e) ↦ inr (ap suc same, e)
]

-- A predicate of each slot's entries, after one slot has been replaced.
slot_after :
    (P : ℕ → TimerEntry → Type 0) (xs : List (List TimerEntry)) (k i : ℕ) (es : List TimerEntry)
    → All (P k) es
    → All (P i) (get_or xs i [])
    → All (P i) (get_or (set xs k es) i [])
slot_after P xs k i es new old = elim (get_or-set_cases xs k i es) [
  | inl e ↦ rw e old
  | inr (same, e) ↦ rw e (subst (λ j. All (P j) es) same new)
]

module _ (w : TimingWheel) (v : IsValid w) where
  pub slot_lt : (n : ℕ) → n % w.slots < length w.wheels
  slot_lt n = omega (arith, mod-lt n v.some_slots, v.sized)

  -- Entering an entry whose tick has not passed keeps the wheel valid.
  pub enter-IsValid :
      (entry : TimerEntry) → w.current_tick ≤ entry.expire_tick → IsValid (enter entry w)
  unfolding enter
  enter-IsValid entry ahead = record {
    some_slots = v.some_slots;
    some_time = v.some_time;
    sized = length-set w.wheels _ _ ∙ v.sized;
    pending = λ i.
        slot_after (IsPending w.slots w.current_tick) w.wheels (entry.expire_tick % w.slots) i _
          (All-append _ (slot_at w (entry.expire_tick % w.slots)) _ (v.pending _)
            (record { in_slot = refl; ahead = ahead }, tt))
          (v.pending i);
  }

  pub take_id-IsValid : IsValid (take_id w)
  unfolding take_id
  take_id-IsValid = record {
    some_slots = v.some_slots;
    some_time = v.some_time;
    sized = v.sized;
    pending = v.pending;
  }

  -- Cancelling a timer keeps the wheel valid, whether the timer is there or not.
  pub cancel_timer-IsValid : (id : ℕ) → IsValid (cancel_timer w id).1
  unfolding cancel_timer
  cancel_timer-IsValid id = elim (Option-cases (w.timer_slot id)) [
    | inl unknown ↦ rw (unknown, cancel_timer) v
    | inr (slot, known) ↦
        rw (known, cancel_timer)
          (record {
            some_slots = v.some_slots;
            some_time = v.some_time;
            sized = length-set w.wheels _ _ ∙ v.sized;
            pending = λ i.
                slot_after (IsPending w.slots w.current_tick) w.wheels slot i _
                  (All-keep_if _ _ _ (slot_at w slot) (λ e h q. h) (v.pending slot)) (v.pending i);
          })
  ]

  -- What the tick leaves in slot `i` is ahead of the new tick.
  IsPending-after :
      (i : ℕ)
      → All (IsPending w.slots (w.current_tick + 1) i) (
          get_or
            (set w.wheels
              (w.current_tick % w.slots)
              (keep_if (λ e. not (is_due w e)) (slot_at w (w.current_tick % w.slots))))
            i
            [])
  IsPending-after i = elim (ℕ_discrete (w.current_tick % w.slots) i) [
    | yes same ↦
        subst (λ j. All (IsPending w.slots (w.current_tick + 1) j) (get_or after j [])) same
          (rw (get_or-set_self w.wheels _ _ [] (slot_lt w.current_tick)) kept)
    | no other ↦
        rw (get_or-set_ne w.wheels _ i _ [] other)
          (All-map _ _ (slot_at w i) (later i other) (v.pending i))
  ]
    where
      after : List (List TimerEntry)
      after =
          set w.wheels (w.current_tick % w.slots)
            (keep_if (λ e. not (is_due w e)) (slot_at w (w.current_tick % w.slots)))

      later :
          (j : ℕ)
          → w.current_tick % w.slots ≢ j
          → (e : TimerEntry) → IsPending w.slots w.current_tick j e
          → IsPending w.slots (w.current_tick + 1) j e
      later j other e h = record { in_slot = h.in_slot; ahead = after_now }
        where
          different : w.current_tick ≢ e.expire_tick
          different same = other (ap (λ n. n % w.slots) same ∙ h.in_slot)

          after_now : w.current_tick + 1 ≤ e.expire_tick
          after_now = let now = h.ahead in ground arith

      kept :
          All
            (IsPending w.slots (w.current_tick + 1) (w.current_tick % w.slots))
            (keep_if (λ e. not (is_due w e)) (slot_at w (w.current_tick % w.slots)))
      kept =
          All-keep_if _ _ _ (slot_at w (w.current_tick % w.slots))
            (λ e h q. record { in_slot = h.in_slot; ahead = grind arith }) (v.pending _)

  -- A tick keeps the wheel valid, if the count of ticks does not wrap.
  pub tick-IsValid : w.current_tick + 1 < 2 ^ 64 → IsValid (tick w).1
  unfolding tick
  tick-IsValid fits = record {
    some_slots = v.some_slots;
    some_time = v.some_time;
    sized = length-set w.wheels _ _ ∙ v.sized;
    pending = λ i.
        let no_wrap : (w.current_tick + 1) % 2 ^ 64 ≡ w.current_tick + 1 = omega arith in
        rw no_wrap (IsPending-after i);
  }
