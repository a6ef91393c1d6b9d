-- ===== src/Coroutine/Generator/Walk.antt =====
-- coroutine/generator.hpp: a range-for loop over a generator.
use cpp20_coroutine_io_uring.Common.{
  ℕ, zero, suc, ◌<◌, ◌≡◌, refl, ap, false, List, [], ◌∷◌, none, some, length, arith,
}
use cpp20_coroutine_io_uring.Coroutine.Generator.{
  End, finishes, Generator, Place, at_end, at_value, new_generator, yield_value,
  unhandled_exception, ended, resume_body, resume, current, begin, begin_at, next, Walked, walked,
  met, walk_from, walk,
}
use cpp20_coroutine_io_uring.Coroutine.Generator

module _ {T : Type 0} where
  -- The coroutine after a yield, with what is left of its body.
  abbrev yielded : T → List T → End → Generator T
  yielded v rest body_end = record {
    rest = rest;
    body_end = body_end;
    current_value = some v;
    exception = none;
    done = false;
  }

  walk_from_lem :
      (fuel : ℕ) (v : T) (values : List T) (body_end : End)
      → length values < fuel
      → walk_from fuel (at_value v) (yielded v values body_end) ≡ walked (v ∷ values) (some at_end)
  unfolding walk_from next resume resume_body ended yield_value unhandled_exception current
  walk_from_lem zero v values body_end h = absurd (omega arith)
  walk_from_lem (suc zero) v [] finishes h = refl
  walk_from_lem (suc (suc fuel)) v [] finishes h = refl
  walk_from_lem (suc zero) v [] (Generator.throws e) h = refl
  walk_from_lem (suc (suc fuel)) v [] (Generator.throws e) h = refl
  walk_from_lem (suc fuel) v (x ∷ values) body_end h =
      ap (met v) (walk_from_lem fuel x values body_end (omega arith))

  -- A range-for loop over a generator whose body ends, with more steps than it yields values, meets
  -- all of them in their order and then the end; if the body ends with an exception, so it does too,
  -- and the exception does not come out.
  pub walk_lem :
      (fuel : ℕ) (values : List T) (body_end : End)
      → length values < fuel
      → walk fuel (new_generator values body_end) ≡ walked values (some at_end)
  unfolding walk begin begin_at resume resume_body ended yield_value unhandled_exception current
      walk_from
  walk_lem fuel [] finishes h = refl
  walk_lem fuel [] (Generator.throws e) h = refl
  walk_lem fuel (v ∷ values) body_end h = walk_from_lem fuel v values body_end (omega arith)
