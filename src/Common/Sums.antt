-- ===== src/Common/Sums.antt =====
-- Weights of the elements of a list, their sum, and the first element of the least size.
use Prim.Native.Nat.{ℕ, zero, suc, ◌+◌, ◌≤◌, ◌<◌}
use mathlib.Core.Path.{◌≡◌, refl, sym, subst}
use mathlib.Core.Logic.{◌⊎◌, inl, inr}
use mathlib.Core.List.{List, [], ◌∷◌, ◌++◌}
use native.Mathlib.Omega.{arith}
use cpp20_coroutine_io_uring.Common.Tests.{ltb, if◌then◌else◌, Bool-cases, ltb→lt, ltb→le}
use cpp20_coroutine_io_uring.Common.Lists.{length, get_or, All}

module _ {ℓ} {A : Type ℓ} where
  -- What the elements weigh together.
  abbrev pub weigh : (A → ℕ) → List A → ℕ
  weigh w [] = 0
  weigh w (x ∷ xs) = w x + weigh w xs

  pub weigh-append : (w : A → ℕ) (xs ys : List A) → weigh w (xs ++ ys) ≡ weigh w xs + weigh w ys
  weigh-append w [] ys = omega arith
  weigh-append w (x ∷ xs) ys = omega (arith, weigh-append w xs ys)

  pub weigh-length : (xs : List A) → weigh (λ x. 1) xs ≡ length xs
  weigh-length [] = refl
  weigh-length (x ∷ xs) = omega (arith, weigh-length xs)

  -- The loop that looks for the first element of the least size, from index `i` on.
  abbrev pub least_from : (A → ℕ) → ℕ → ℕ → ℕ → List A → ℕ
  least_from size i best best_size [] = best
  least_from size i best best_size (x ∷ xs) =
      if ltb (size x) best_size
      then least_from size (i + 1) i (size x) xs
      else least_from size (i + 1) best best_size xs

  module _ (size : A → ℕ) (d : A) where
    -- `k` is the best so far, or the index of one of the rest that is smaller.
    LeastAt : ℕ → ℕ → ℕ → List A → ℕ → Type 0
    LeastAt i best best_size xs k =
        (((k ≡ best) × All (λ x. best_size ≤ size x) xs)
          ⊎ ((j : ℕ) × (k ≡ i + j)
              × (j < length xs)
              × (size (get_or xs j d) < best_size)
              × All (λ x. size (get_or xs j d) ≤ size x) xs))

    least_larger :
        (i best best_size k : ℕ) (x : A) (xs : List A)
        → best_size ≤ size x
        → LeastAt (i + 1) best best_size xs k
        → LeastAt i best best_size (x ∷ xs) k
    unfolding LeastAt
    least_larger i best best_size k x xs h (inl (e, a)) = inl (e, (h, a))
    least_larger i best best_size k x xs h (inr (j, e, b, l, a)) =
        inr (suc j, omega (arith, e), omega (arith, b), l, (omega (arith, l), a))

    least_smaller :
        (i best best_size k : ℕ) (x : A) (xs : List A)
        → size x < best_size
        → LeastAt (i + 1) i (size x) xs k
        → LeastAt i best best_size (x ∷ xs) k
    unfolding LeastAt
    least_smaller i best best_size k x xs h (inl (e, a)) =
        inr (zero, omega (arith, e), omega arith, h, (omega arith, a))
    least_smaller i best best_size k x xs h (inr (j, e, b, l, a)) =
        inr (suc j, omega (arith, e), omega (arith, b), omega (arith, l), (omega (arith, l), a))

    least_from-LeastAt :
        (i best best_size : ℕ) (xs : List A)
        → LeastAt i best best_size xs (least_from size i best best_size xs)
    unfolding LeastAt
    least_from-LeastAt i best best_size [] = inl (refl, tt)
    least_from-LeastAt i best best_size (x ∷ xs) = elim (Bool-cases (ltb (size x) best_size)) [
      | inl q ↦ rw q (
          least_smaller i best best_size (least_from size (i + 1) i (size x) xs) x xs
            (ltb→lt (size x) best_size q) (least_from-LeastAt (i + 1) i (size x) xs))
      | inr q ↦ rw q (
          least_larger i best best_size (least_from size (i + 1) best best_size xs) x xs
            (ltb→le (size x) best_size q) (least_from-LeastAt (i + 1) best best_size xs))
    ]

    -- The index stands in the list, and no element is smaller than the one there.
    abbrev pub IsLeast : List A → ℕ → Type 0
    IsLeast xs k = (k < length xs) × All (λ x. size (get_or xs k d) ≤ size x) xs

    IsLeast-case : (x : A) (xs : List A) (k : ℕ) → LeastAt 1 0 (size x) xs k → IsLeast (x ∷ xs) k
    unfolding LeastAt
    IsLeast-case x xs k (inl (e, a)) =
        subst (IsLeast (x ∷ xs)) (sym e) (omega arith, (omega arith, a))
    IsLeast-case x xs k (inr (j, e, b, l, a)) =
        let e' : suc j ≡ k = omega (arith, e) in
        subst (IsLeast (x ∷ xs)) e' (omega (arith, b), (omega (arith, l), a))

    pub least_from_lem : (x : A) (xs : List A) → IsLeast (x ∷ xs) (least_from size 1 0 (size x) xs)
    least_from_lem x xs =
        IsLeast-case x xs (least_from size 1 0 (size x) xs) (least_from-LeastAt 1 0 (size x) xs)
