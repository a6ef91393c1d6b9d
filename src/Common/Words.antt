-- ===== src/Common/Words.antt =====
-- Machine integers in memory: little-endian bytes, and a cursor over memory that can be read.
use Prim.Native.Nat.{ℕ, zero, suc, ◌+◌, ◌*◌, ◌/◌, ◌%◌, ◌^◌, ◌≤◌, ◌<◌}
use mathlib.Core.Path.{◌≡◌, refl, ap}
use mathlib.Core.Option.{Option, none, some}
use mathlib.Core.List.{[], ◌∷◌, ◌++◌}
use native.Mathlib.Nat.{pow-suc}
use native.Mathlib.Omega.{arith}
use cpp20_coroutine_io_uring.Common.Lists.{length}
use cpp20_coroutine_io_uring.Common.Dict.{Bytes}

-- A step that may read outside its memory: `none` is that undefined behaviour.
infixl 5 ◌>>=◌
abbrev pub ◌>>=◌ {ℓ κ} : {A : Type ℓ} {B : Type κ} → Option A → (A → Option B) → Option B
none >>= f = none
some a >>= f = f a

-- The object representation of an unsigned integer of `n` bytes, lowest byte first.
unfoldable pub to_le : ℕ → ℕ → Bytes
to_le zero x = []
to_le (suc n) x = x % 256 ∷ to_le n (x / 256)

-- `memcpy` of `n` bytes from the cursor: they, and where the cursor stands afterwards.
unfoldable pub read_bytes : ℕ → Bytes → Option (Bytes × Bytes)
read_bytes zero xs = some ([], xs)
read_bytes (suc n) [] = none
read_bytes (suc n) (x ∷ xs) = do (ys, rest) ← read_bytes n xs; some (x ∷ ys, rest)

-- The same into an unsigned integer of `n` bytes.
unfoldable pub read_le : ℕ → Bytes → Option (ℕ × Bytes)
read_le zero xs = some (0, xs)
read_le (suc n) [] = none
read_le (suc n) (x ∷ xs) = do (v, rest) ← read_le n xs; some (x + 256 * v, rest)

pub length-to_le : (n x : ℕ) → length (to_le n x) ≡ n
unfolding to_le
length-to_le zero x = refl
length-to_le (suc n) x = ap suc (length-to_le n (x / 256))

pub read_bytes-append :
    (n : ℕ) (xs rest : Bytes) → n ≡ length xs → read_bytes n (xs ++ rest) ≡ some (xs, rest)
unfolding read_bytes
read_bytes-append zero [] rest e = refl
read_bytes-append zero (x ∷ xs) rest e = absurd (omega arith)
read_bytes-append (suc n) [] rest e = absurd (omega arith)
read_bytes-append (suc n) (x ∷ xs) rest e = ground (arith, read_bytes-append n xs rest)

pub read_le-to_le :
    (n x : ℕ) (rest : Bytes) → x < 256 ^ n → read_le n (to_le n x ++ rest) ≡ some (x, rest)
unfolding read_le to_le
read_le-to_le zero x rest h = let e : x ≡ 0 = omega arith in rw e
read_le-to_le (suc n) x rest h =
    ground (arith, read_le-to_le n (x / 256) rest (omega (arith, pow-suc 256 n)))

-- Too little memory is the only way to fail.
pub read_bytes_total :
    (n : ℕ) (xs : Bytes)
    → n ≤ length xs
    → (ys : Bytes) × (rest : Bytes) × (read_bytes n xs ≡ some (ys, rest))
      × (ys ++ rest ≡ xs)
      × (length ys ≡ n)
unfolding read_bytes
read_bytes_total zero xs h = ([], xs, refl, refl, refl)
read_bytes_total (suc n) [] h = absurd (omega arith)
read_bytes_total (suc n) (x ∷ xs) h =
    let (ys, rest, e, f, l) = read_bytes_total n xs (omega arith) in
    (x ∷ ys, rest, ground arith, ap (◌∷◌ x) f, ap suc l)

pub read_le_total :
    (n : ℕ) (xs : Bytes)
    → n ≤ length xs
    → (v : ℕ) × (rest : Bytes) × (read_le n xs ≡ some (v, rest)) × (length rest + n ≡ length xs)
unfolding read_le
read_le_total zero xs h = (0, xs, refl, omega arith)
read_le_total (suc n) [] h = absurd (omega arith)
read_le_total (suc n) (x ∷ xs) h =
    let (v, rest, e, l) = read_le_total n xs (omega arith) in
    (x + 256 * v, rest, ground arith, omega arith)

pub read_le_short : (n : ℕ) (xs : Bytes) → length xs < n → read_le n xs ≡ none
unfolding read_le
read_le_short zero xs h = absurd (omega arith)
read_le_short (suc n) [] h = refl
read_le_short (suc n) (x ∷ xs) h = ground (arith, read_le_short n xs)
