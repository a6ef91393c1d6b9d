-- ===== src/Common/Dict.antt =====
-- Byte strings and their comparison, and maps keyed by them as association lists.
use Prim.Native.Nat.{ℕ, ◌≤◌, max}
use mathlib.Core.Path.{◌≡◌, refl}
use mathlib.Core.Logic.{◌↔◌}
use mathlib.Core.Bool.{Bool, true, false, ◌&&◌}
use mathlib.Core.Option.{Option, none, some}
use mathlib.Core.List.{List, [], ◌∷◌}
use native.Mathlib.Omega.{arith}
use cpp20_coroutine_io_uring.Common.Tests.{◌==◌, if◌then◌else◌}
use cpp20_coroutine_io_uring.Common.Lists.{count_if}

-- A `std::string`, byte by byte.
abbrev pub Bytes : Type 0
Bytes = List ℕ

unfoldable pub str_eq : Bytes → Bytes → Bool
str_eq [] [] = true
str_eq [] (y ∷ ys) = false
str_eq (x ∷ xs) [] = false
str_eq (x ∷ xs) (y ∷ ys) = x == y && str_eq xs ys

pub str_eq_iff : (xs ys : Bytes) → (str_eq xs ys ≡ true) ↔ (xs ≡ ys)
unfolding str_eq
str_eq_iff [] [] = ground arith
str_eq_iff [] (y ∷ ys) = ground arith
str_eq_iff (x ∷ xs) [] = ground arith
str_eq_iff (x ∷ xs) (y ∷ ys) = ground (arith, str_eq_iff xs ys)

pub str_eq_refl : (xs : Bytes) → str_eq xs xs ≡ true
str_eq_refl xs = (str_eq_iff xs xs).1 refl

-- How often a key stands in a list of keys.
unfoldable pub key_count : Bytes → List Bytes → ℕ
key_count k js = count_if (λ j. str_eq j k) js

module _ {ℓ} {V : Type ℓ} where
  -- `find`: the value under a key.
  unfoldable pub lookup : Bytes → List (Bytes × V) → Option V
  lookup k [] = none
  lookup k ((j, v) ∷ m) = if str_eq j k then some v else lookup k m

  -- `m[k] = v`.
  unfoldable pub insert : Bytes → V → List (Bytes × V) → List (Bytes × V)
  insert k v [] = (k, v) ∷ []
  insert k v ((j, w) ∷ m) = if str_eq j k then (k, v) ∷ m else (j, w) ∷ insert k v m

  -- `erase(k)`.
  unfoldable pub erase : Bytes → List (Bytes × V) → List (Bytes × V)
  erase k [] = []
  erase k ((j, w) ∷ m) = if str_eq j k then erase k m else (j, w) ∷ erase k m

  -- The keys of a map, in the order of its iteration.
  unfoldable pub keys : List (Bytes × V) → List Bytes
  keys [] = []
  keys ((j, w) ∷ m) = j ∷ keys m

  pub lookup-insert :
      (k j : Bytes) (v : V) (m : List (Bytes × V))
      → lookup j (insert k v m) ≡ (if str_eq k j then some v else lookup j m)
  unfolding lookup insert
  lookup-insert k j v [] = refl
  lookup-insert k j v ((i, w) ∷ m) =
      ground (arith, str_eq_iff k j, str_eq_iff i k, str_eq_iff i j, lookup-insert k j v m)

  pub lookup-erase :
      (k j : Bytes) (m : List (Bytes × V))
      → lookup j (erase k m) ≡ (if str_eq k j then none else lookup j m)
  unfolding lookup erase
  lookup-erase k j [] = ground arith
  lookup-erase k j ((i, w) ∷ m) =
      ground (arith, str_eq_iff k j, str_eq_iff i k, str_eq_iff i j, lookup-erase k j m)

  -- A key is listed exactly when it is mapped.
  pub keys-lookup :
      (k : Bytes) (m : List (Bytes × V)) → (key_count k (keys m) ≡ 0) ↔ (lookup k m ≡ none)
  unfolding keys lookup key_count
  keys-lookup k [] = ground arith
  keys-lookup k ((j, w) ∷ m) = ground (arith, keys-lookup k m)

  pub key_count-insert :
      (k j : Bytes) (v : V) (m : List (Bytes × V))
      → key_count j (keys (insert k v m))
        ≡ (if str_eq k j then max 1 (key_count j (keys m)) else key_count j (keys m))
  unfolding keys insert key_count
  key_count-insert k j v [] = ground arith
  key_count-insert k j v ((i, w) ∷ m) =
      ground (arith, str_eq_iff k j, str_eq_iff i k, str_eq_iff i j, key_count-insert k j v m)

  pub key_count-erase :
      (k j : Bytes) (m : List (Bytes × V))
      → key_count j (keys (erase k m)) ≡ (if str_eq k j then 0 else key_count j (keys m))
  unfolding keys erase key_count
  key_count-erase k j [] = ground arith
  key_count-erase k j ((i, w) ∷ m) =
      ground (arith, str_eq_iff k j, str_eq_iff i k, str_eq_iff i j, key_count-erase k j m)

  -- No key stands twice, as in a `std::unordered_map`.
  abbrev pub HasUniqueKeys : List (Bytes × V) → Type 0
  HasUniqueKeys m = (k : Bytes) → key_count k (keys m) ≤ 1

  pub insert-HasUniqueKeys :
      (k : Bytes) (v : V) (m : List (Bytes × V)) → HasUniqueKeys m → HasUniqueKeys (insert k v m)
  insert-HasUniqueKeys k v m u j = ground (arith, key_count-insert k j v m, u j)

  pub erase-HasUniqueKeys :
      (k : Bytes) (m : List (Bytes × V)) → HasUniqueKeys m → HasUniqueKeys (erase k m)
  erase-HasUniqueKeys k m u j = ground (arith, key_count-erase k j m, u j)
