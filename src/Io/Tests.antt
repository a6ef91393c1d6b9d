-- ===== src/Io/Tests.antt =====
-- Runs of the code of io/ on small inputs.
use cpp20_coroutine_io_uring.Common.{
  ℕ, All, ◌+◌, ◌-◌, ◌*◌, ◌^◌, ◌<◌, ◌≤◌, ◌≡◌, refl, [], ◌∷◌, arith, Contains,
}
use cpp20_coroutine_io_uring.Io.TimingWheel
use cpp20_coroutine_io_uring.Io.TimingWheel.{
  TimerEntry, TimingWheel, expire_of, entry_of, take_id, enter, add_timer, cancel_timer,
  due_entries, tick, advance,
}
use cpp20_coroutine_io_uring.Io.TimingWheel.Invariant.{IsValid, init-IsValid}
use cpp20_coroutine_io_uring.Io.TimingWheel.Firing.{added, add_timer-advance}

-- Four slots of two milliseconds.
abbrev a_wheel : TimingWheel
a_wheel = TimingWheel.init 4 2

a_wheel-IsValid : IsValid a_wheel
a_wheel-IsValid = init-IsValid 4 2 (omega arith) (omega arith)

-- A delay of 11 takes six ticks, more than one turn of the wheel.
runs_at_sixth : (advance 6 (add_timer a_wheel 11 77).1).0 ≡ 77 ∷ []
unfolding advance tick add_timer entry_of take_id enter expire_of TimingWheel.init
runs_at_sixth = refl

not_at_fifth : (advance 5 (add_timer a_wheel 11 77).1).0 ≡ []
unfolding advance tick add_timer entry_of take_id enter expire_of TimingWheel.init
not_at_fifth = refl

-- A delay of 0 expires at the last tick there is.
zero_delay : expire_of a_wheel 0 ≡ 2 ^ 64 - 1
unfolding expire_of TimingWheel.init
zero_delay = refl

fifth : 5 ≡ expire_of a_wheel 11 - a_wheel.current_tick
unfolding expire_of TimingWheel.init
fifth = refl

slots_fit : 11 + a_wheel.tick_ms < 2 ^ 64
unfolding TimingWheel.init
slots_fit = omega arith

ticks_fit : a_wheel.current_tick + 11 + 1 < 2 ^ 64
unfolding TimingWheel.init
ticks_fit = omega arith

tick_fits : a_wheel.current_tick + 1 < 2 ^ 64
unfolding TimingWheel.init
tick_fits = omega arith

-- Two ticks pass while `add_timer` waits for the mutex.
add_timer-advance_example :
    Contains 77 (advance 4 (added a_wheel 11 77 2)).0
    × (5 * a_wheel.tick_ms < 11)
    × (11 ≤ (5 + 1) * a_wheel.tick_ms)
    × ((j : ℕ)
        → j ≤ 5 - 2
        → All
            (λ e. e.expire_tick ≡ (advance j (added a_wheel 11 77 2)).1.current_tick)
            (due_entries (advance j (added a_wheel 11 77 2)).1))
add_timer-advance_example =
    add_timer-advance a_wheel 11 77 5 2 a_wheel-IsValid (omega arith) slots_fit ticks_fit fifth
      (omega arith)

-- Six ticks pass, one too many: the callback is run nearly a turn of the wheel late.
late_entry :
    ((advance 3 (added a_wheel 11 77 6)).0 ≡ []) × ((advance 4 (added a_wheel 11 77 6)).0 ≡ 77 ∷ [])
unfolding advance tick entry_of take_id enter expire_of TimingWheel.init
late_entry = (refl, refl)
