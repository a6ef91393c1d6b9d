-- ===== src/Coroutine/Generator.antt =====
-- coroutine/generator.hpp: `Generator`, `GeneratorPromise` and `GeneratorIterator`. The body of the
-- coroutine is what it yields in turn and how it ends, which it may not do; what it does between two
-- yields is not known here.
pub mod Walk
mod Tests
use cpp20_coroutine_io_uring.Common.{
  ℕ, zero, suc, Bool, true, false, List, [], ◌∷◌, ◌++◌, Option, none, some, if◌then◌else◌,
}

-- How the body ends, its exception being a label.
pub data End : Type 0 where
  finishes : End
  throws : (exception : ℕ) → End

-- The coroutine, suspended: what is left of its body, and its promise. `done` is `handle_.done()`.
pub record Generator (T : Type 0) : Type 0 where
  pub rest : List T
  pub body_end : End
  pub current_value : Option T
  pub exception : Option ℕ
  pub done : Bool

-- What walking the generator comes to at a place: the end, an exception, or an iterator on a value.
pub data Place (T : Type 0) : Type 0 where
  at_end : Place T
  at_value : (value : T) → Place T
  rethrown : (exception : ℕ) → Place T
  -- A handle is resumed whose coroutine has come to its end, or a value is read that is not there.
  undefined : Place T

module _ {T : Type 0} where
  abbrev pub new_generator : List T → End → Generator T
  new_generator values body_end = record {
    rest = values;
    body_end = body_end;
    current_value = none;
    exception = none;
    done = false;
  }

  unfoldable pub yield_value : T → Generator T → Generator T
  yield_value v g = record g { current_value = some v }

  unfoldable pub unhandled_exception : ℕ → Generator T → Generator T
  unhandled_exception e g = record g { exception = some e }

  -- `final_suspend`, where the coroutine stays.
  unfoldable pub ended : End → Generator T → Generator T
  ended finishes g = record g { done = true }
  ended (throws e) g = record (unhandled_exception e g) { done = true }

  -- The body goes on with what it has still to yield.
  unfoldable pub resume_body : List T → Generator T → Generator T
  resume_body [] g = ended g.body_end g
  resume_body (v ∷ rest) g = yield_value v (record g { rest = rest })

  unfoldable pub resume : Generator T → Generator T
  resume g = resume_body g.rest g

  unfoldable pub current : Generator T → Place T
  current g = elim g.current_value [ none ↦ Place.undefined | some v ↦ Place.at_value v ]

  -- What `begin` finds after the resumption: the end is looked for before the exception is.
  unfoldable pub begin_at : Generator T → Place T
  begin_at g =
      if g.done
      then Place.at_end
      else elim g.exception [ some e ↦ Place.rethrown e | none ↦ current g ]

  unfoldable pub begin : Generator T → Place T × Generator T
  begin g = if g.done then (Place.undefined, g) else (begin_at (resume g), resume g)

  -- `operator++` of the iterator.
  unfoldable pub next : Generator T → Place T × Generator T
  next g =
      if g.done
      then (Place.undefined, g)
      else (if (resume g).done then Place.at_end else current (resume g), resume g)

-- What the places of a walk come to: the values met, and how the walk ended, `none` if not within the
-- number of steps.
pub data Walked (T : Type 0) : Type 0 where
  walked : (values : List T) (ending : Option (Place T)) → Walked T

module _ {T : Type 0} where
  abbrev pub met : T → Walked T → Walked T
  met v (walked values ending) = walked (v ∷ values) ending

  -- A range-for loop from a place on, on fuel.
  unfoldable pub walk_from : ℕ → Place T → Generator T → Walked T
  walk_from fuel at_end g = walked [] (some at_end)
  walk_from fuel (rethrown e) g = walked [] (some (rethrown e))
  walk_from fuel undefined g = walked [] (some undefined)
  walk_from zero (at_value v) g = walked (v ∷ []) none
  walk_from (suc fuel) (at_value v) g = met v (walk_from fuel (next g).0 (next g).1)

  -- `for (auto& v : generator)`.
  unfoldable pub walk : ℕ → Generator T → Walked T
  walk fuel g = walk_from fuel (begin g).0 (begin g).1
