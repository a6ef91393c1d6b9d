-- ===== src/Io/AsyncIo/Memory.antt =====
-- io/async_io.hpp: the vectors into which files are read.
use cpp20_coroutine_io_uring.Common.{
  ℕ, zero, suc, ◌+◌, ◌-◌, ◌≤◌, ◌≡◌, refl, sym, ap, ◌∙◌, [], ◌∷◌, ◌++◌, Bytes, length, length-append,
  length-take, length-drop, length-replicate, take, drop, replicate, min, take_all, take-take,
  take-append, take-append_le, append_assoc, arith,
}
use cpp20_coroutine_io_uring.Io.AsyncIo.{resize, store}

pub take-resize : (n m : ℕ) (xs : Bytes) → n ≤ length xs → n ≤ m → take n (resize m xs) ≡ take n xs
unfolding resize
take-resize n m xs h k =
    take-append_le n (take m xs) (replicate (m - length xs) 0) (omega (arith, length-take m xs))
    ∙ take-take n m xs k

pub length-resize : (m : ℕ) (xs : Bytes) → length (resize m xs) ≡ m
unfolding resize
length-resize m xs = omega (
  arith,
  length-append (take m xs) (replicate (m - length xs) 0),
  length-take m xs,
  length-replicate {A = ℕ} (m - length xs) 0,
)

pub resize_shorter : (m : ℕ) (xs : Bytes) → m ≤ length xs → resize m xs ≡ take m xs
resize_shorter m xs h =
    sym (take_all m (resize m xs) (omega (arith, length-resize m xs)))
    ∙ take-resize m m xs h (omega arith)

pub length-store :
    (offset : ℕ) (chunk xs : Bytes)
    → offset + length chunk ≤ length xs
    → length (store offset chunk xs) ≡ length xs
unfolding store
length-store offset chunk xs h = omega (
  arith,
  length-append (take offset xs) (chunk ++ drop (offset + length chunk) xs),
  length-append chunk (drop (offset + length chunk) xs),
  length-take offset xs,
  length-drop (offset + length chunk) xs,
)

pub take-store :
    (offset : ℕ) (chunk xs : Bytes)
    → offset + length chunk ≤ length xs
    → take (offset + length chunk) (store offset chunk xs) ≡ take offset xs ++ chunk
unfolding store
take-store offset chunk xs h =
    ap (take (offset + length chunk))
      (sym (append_assoc (take offset xs) chunk (drop (offset + length chunk) xs)))
    ∙ take-append (offset + length chunk) (take offset xs ++ chunk)
        (drop (offset + length chunk) xs)
        (omega (arith, length-append (take offset xs) chunk, length-take offset xs))

-- A piece of a list after the piece before it.
pub take_more : (n m : ℕ) (xs : Bytes) → take n xs ++ take m (drop n xs) ≡ take (n + m) xs
take_more zero m xs = let e : 0 + m ≡ m = omega arith in rw e refl
take_more (suc n) m [] = let e : suc n + m ≡ suc (n + m) = omega arith in rw e (take_nil m)
  where
    take_nil : (k : ℕ) → take {A = ℕ} k [] ≡ []
    take_nil zero = refl
    take_nil (suc k) = refl
take_more (suc n) m (x ∷ xs) =
    let e : suc n + m ≡ suc (n + m) = omega arith in rw e (ap (◌∷◌ x) (take_more n m xs))

pub cut : (n m : ℕ) (xs : Bytes) → min n (length xs) ≡ min m (length xs) → take n xs ≡ take m xs
cut zero zero xs h = refl
cut zero (suc m) [] h = refl
cut zero (suc m) (x ∷ xs) h = absurd (omega (arith, h))
cut (suc n) zero [] h = refl
cut (suc n) zero (x ∷ xs) h = absurd (omega (arith, h))
cut (suc n) (suc m) [] h = refl
cut (suc n) (suc m) (x ∷ xs) h = ap (◌∷◌ x) (cut n m xs (omega (arith, h)))
