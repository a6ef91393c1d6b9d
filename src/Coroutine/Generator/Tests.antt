-- ===== src/Coroutine/Generator/Tests.antt =====
-- coroutine/generator.hpp: walks at small inputs.
use cpp20_coroutine_io_uring.Common.{ℕ, ◌≡◌, [], ◌∷◌, some, arith}
use cpp20_coroutine_io_uring.Coroutine.Generator.{finishes, at_end, new_generator, walked, walk}
use cpp20_coroutine_io_uring.Coroutine.Generator.Walk

walk_lem_example :
    walk {T = ℕ} 5 (new_generator (3 ∷ 4 ∷ []) finishes) ≡ walked (3 ∷ 4 ∷ []) (some at_end)
walk_lem_example = Walk.walk_lem 5 (3 ∷ 4 ∷ []) finishes (omega arith)
