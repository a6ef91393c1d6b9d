-- ===== src/Io/TimingWheel.antt =====
-- io/timer.hpp: `TimingWheel`. Ticks and identifiers are `size_t` and `uint64_t` and wrap. A
-- callback is a label; a function that runs callbacks returns their labels in the order of the
-- calls. The mutex makes each member one step but `add_timer`, which reads the tick before it takes
-- the mutex; the slot map is a function from identifiers.
pub mod Invariant
pub mod Firing
use cpp20_coroutine_io_uring.Common.{
  ℕ, zero, suc, ◌+◌, ◌-◌, ◌/◌, ◌%◌, ◌^◌, Bool, true, false, not, List, [], ◌∷◌, ◌++◌, map, Option,
  none, some, length, get_or, set, replicate, keep_if, leb, ◌==◌, if◌then◌else◌,
}

pub record TimerEntry : Type 0 where
  pub id : ℕ
  pub expire_tick : ℕ
  pub callback : ℕ

pub record TimingWheel : Type 0 where
  pub slots : ℕ
  pub tick_ms : ℕ
  pub current_tick : ℕ
  pub next_id : ℕ
  pub wheels : List (List TimerEntry)
  pub timer_slot : ℕ → Option ℕ

unfoldable pub init : ℕ → ℕ → TimingWheel
init slots tick_ms = record {
  slots = slots;
  tick_ms = tick_ms;
  current_tick = 0;
  next_id = 1;
  wheels = replicate slots [];
  timer_slot = λ _. none;
}

abbrev pub assign : (ℕ → Option ℕ) → ℕ → Option ℕ → ℕ → Option ℕ
assign m k v j = if j == k then v else m j

-- `(delay_ms + tick_ms_ - 1) / tick_ms_`.
unfoldable pub ticks_of : TimingWheel → ℕ → ℕ
ticks_of w delay_ms = (delay_ms + w.tick_ms + 2 ^ 64 - 1) % 2 ^ 64 / w.tick_ms

-- `current_tick_ + ticks - 1`.
unfoldable pub expire_of : TimingWheel → ℕ → ℕ
unfolding ticks_of
expire_of w delay_ms = (w.current_tick + ticks_of w delay_ms + 2 ^ 64 - 1) % 2 ^ 64

abbrev pub slot_at : TimingWheel → ℕ → List TimerEntry
slot_at w i = get_or w.wheels i []

-- What `add_timer` reads before it takes the mutex: the identifier and the tick of the entry.
unfoldable pub entry_of : TimingWheel → ℕ → ℕ → TimerEntry
entry_of w delay_ms callback = record {
  id = w.next_id;
  expire_tick = expire_of w delay_ms;
  callback = callback;
}

-- `next_id_.fetch_add(1)`.
unfoldable pub take_id : TimingWheel → TimingWheel
take_id w = record w { next_id = (w.next_id + 1) % 2 ^ 64 }

-- What it does under the mutex; the wheel may have ticked in between.
unfoldable pub enter : TimerEntry → TimingWheel → TimingWheel
enter entry w = record w {
  wheels =
      set w.wheels (entry.expire_tick % w.slots)
        (slot_at w (entry.expire_tick % w.slots) ++ entry ∷ []);
  timer_slot = assign w.timer_slot entry.id (some (entry.expire_tick % w.slots));
}

-- Both, where no other thread comes in between.
unfoldable pub add_timer : TimingWheel → ℕ → ℕ → ℕ × TimingWheel
add_timer w delay_ms callback = (w.next_id, enter (entry_of w delay_ms callback) (take_id w))

unfoldable pub cancel_timer : TimingWheel → ℕ → Bool × TimingWheel
cancel_timer w id = elim (w.timer_slot id) [
  | none ↦ (false, w)
  | some slot ↦ (
    true,
    record w {
      wheels = set w.wheels slot (keep_if (λ e. not (e.id == id)) (slot_at w slot));
      timer_slot = assign w.timer_slot id none;
    },
  )
]

abbrev pub is_due : TimingWheel → TimerEntry → Bool
is_due w e = leb e.expire_tick w.current_tick

-- `timer_slot_.erase(entry.id)` for each entry that is due.
unfoldable pub forget : List TimerEntry → (ℕ → Option ℕ) → ℕ → Option ℕ
forget [] m = m
forget (e ∷ es) m = forget es (assign m e.id none)

abbrev pub due_entries : TimingWheel → List TimerEntry
due_entries w = keep_if (is_due w) (slot_at w (w.current_tick % w.slots))

-- The labels of the callbacks that are run, and the wheel after the tick.
unfoldable pub tick : TimingWheel → List ℕ × TimingWheel
tick w = (
  map (λ e. e.callback) (due_entries w),
  record w {
    current_tick = (w.current_tick + 1) % 2 ^ 64;
    wheels =
        set w.wheels (w.current_tick % w.slots)
          (keep_if (λ e. not (is_due w e)) (slot_at w (w.current_tick % w.slots)));
    timer_slot = forget (due_entries w) w.timer_slot;
  },
)

-- The callbacks of each tick in turn; `advance` returns how many there are.
unfoldable pub advance : ℕ → TimingWheel → List ℕ × TimingWheel
advance zero w = ([], w)
advance (suc ticks) w =
    let (fired, w') = tick w in let (later, w'') = advance ticks w' in (fired ++ later, w'')
