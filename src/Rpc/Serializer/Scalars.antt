-- ===== src/Rpc/Serializer/Scalars.antt =====
-- rpc/serializer.hpp: the overloads for `bool` and the integers keep the laws of `Codec`.
use native.Mathlib.Nat.{mod-eq_of_lt}
use cpp20_coroutine_io_uring.Common.{
  ℕ, ◌+◌, ◌*◌, ◌/◌, ◌%◌, ◌^◌, ◌<◌, ◌≤◌, ◌≡◌, refl, ◌∙◌, ap, bit_or, Bool, [], ◌∷◌, ◌++◌, Option,
  none, some, arith, append_assoc, Bytes, All, if◌then◌else◌, length, ltb, length-append,
  get_or-append_lt, bit_or_low_high,
}
use cpp20_coroutine_io_uring.Rpc.Serializer.{
  Codec, encode_bool, decode_bool, encode_u8, decode_u8, encode_u16, decode_u16, encode_u32,
  decode_u32, encode_u64, decode_u64,
}

-- Two bytes, three and four joined by `|` are their sums.
join_two : (a b : ℕ) → a < 2 ^ 8 → bit_or a (b * 2 ^ 8) ≡ a + b * 2 ^ 8
join_two a b h = bit_or_low_high 8 a b h

pub decode_u32-bytes :
    (a b c d : ℕ) (rest : Bytes)
    → a < 256
    → b < 256
    → c < 256
    → d < 256
    → decode_u32 (a ∷ b ∷ c ∷ d ∷ rest) ≡ some (a + b * 2 ^ 8 + c * 2 ^ 16 + d * 2 ^ 24, 4)
unfolding decode_u32
decode_u32-bytes a b c d rest ha hb hc hd =
    rw
      (
        join_two a b ha,
        bit_or_low_high 16 (a + b * 2 ^ 8) c (omega arith),
        bit_or_low_high 24 (a + b * 2 ^ 8 + c * 2 ^ 16) d (omega arith),
      )
      (ground arith)

or_byte :
    (k acc b : ℕ)
    → acc < 2 ^ k
    → b * 2 ^ k < 2 ^ 64
    → bit_or acc (b * 2 ^ k % 2 ^ 64) ≡ acc + b * 2 ^ k
or_byte k acc b h fits = rw (mod-eq_of_lt fits) (bit_or_low_high k acc b h)

-- The value of the eight bytes after the loop.
decode_u64-bytes :
    (a b c d e f g h : ℕ) (rest : Bytes)
    → All (λ x. x < 256) (a ∷ b ∷ c ∷ d ∷ e ∷ f ∷ g ∷ h ∷ [])
    → decode_u64 (a ∷ b ∷ c ∷ d ∷ e ∷ f ∷ g ∷ h ∷ rest)
      ≡ some (
        a + b * 2 ^ 8 + c * 2 ^ 16 + d * 2 ^ 24 + e * 2 ^ 32 + f * 2 ^ 40 + g * 2 ^ 48 + h * 2 ^ 56,
        8,
      )
unfolding decode_u64
decode_u64-bytes a b c d e f g h rest small =
    rw
      (
        or_byte 0 0 a (omega arith) (omega arith),
        or_byte 8 (0 + a * 2 ^ 0) b (omega arith) (omega arith),
        or_byte 16 (0 + a * 2 ^ 0 + b * 2 ^ 8) c (omega arith) (omega arith),
        or_byte 24 (0 + a * 2 ^ 0 + b * 2 ^ 8 + c * 2 ^ 16) d (omega arith) (omega arith),
        or_byte 32 (0 + a * 2 ^ 0 + b * 2 ^ 8 + c * 2 ^ 16 + d * 2 ^ 24) e (omega arith)
            (omega arith),
        or_byte 40 (0 + a * 2 ^ 0 + b * 2 ^ 8 + c * 2 ^ 16 + d * 2 ^ 24 + e * 2 ^ 32) f
            (omega arith) (omega arith),
        or_byte 48 (0 + a * 2 ^ 0 + b * 2 ^ 8 + c * 2 ^ 16 + d * 2 ^ 24 + e * 2 ^ 32 + f * 2 ^ 40) g
            (omega arith) (omega arith),
        or_byte 56
            (0
              + a * 2 ^ 0
              + b * 2 ^ 8
              + c * 2 ^ 16
              + d * 2 ^ 24
              + e * 2 ^ 32
              + f * 2 ^ 40
              + g * 2 ^ 48)
            h (omega arith) (omega arith),
      )
      (ground arith)

-- The fixed sizes: `decode` checks the size and reads that many bytes.
abbrev fixed : {A : Type 0} → ℕ → (Bytes → A) → Bytes → Option (A × ℕ)
fixed k read input = if ltb (length input) k then none else some (read input, k)

module _ {A : Type 0} (k : ℕ) (read : Bytes → A) where
  fixed_bounded :
      (input : Bytes) (value : A) (n : ℕ) → fixed k read input ≡ some (value, n) → n ≤ length input
  fixed_bounded input value n e = ground arith

  fixed_extends :
      ((xs ys : Bytes) → k ≤ length xs → read (xs ++ ys) ≡ read xs)
      → (input more : Bytes) (value : A) (n : ℕ) → fixed k read input ≡ some (value, n)
      → fixed k read (input ++ more) ≡ some (value, n)
  fixed_extends near input more value n e =
      ground (arith, near input more, length-append input more)

pub decode_bool-encode_bool :
    (value : Bool) (rest : Bytes)
    → decode_bool (encode_bool [] value ++ rest) ≡ some (value, length (encode_bool [] value))
unfolding encode_bool decode_bool
decode_bool-encode_bool value rest = ground arith

pub decode_bool-bounded :
    (input : Bytes) (value : Bool) (n : ℕ) → decode_bool input ≡ some (value, n) → n ≤ length input
unfolding decode_bool
decode_bool-bounded = fixed_bounded 1 _

pub decode_bool-extends :
    (input more : Bytes) (value : Bool) (n : ℕ)
    → decode_bool input ≡ some (value, n)
    → decode_bool (input ++ more) ≡ some (value, n)
unfolding decode_bool
decode_bool-extends = fixed_extends 1 _ (λ xs ys h. ground (arith, get_or-append_lt xs ys 0 0))

pub encode_bool-appends :
    (buffer : Bytes) (value : Bool) → encode_bool buffer value ≡ buffer ++ encode_bool [] value
unfolding encode_bool
encode_bool-appends buffer value = refl

instance abbrev pub bool_codec : Codec Bool
bool_codec = record {
  encode = encode_bool;
  decode = decode_bool;
  Fits = λ _. Unit {0};
  encode_appends = encode_bool-appends;
  decode_encode = λ value rest _. decode_bool-encode_bool value rest;
  decode_bounded = decode_bool-bounded;
  decode_extends = decode_bool-extends;
}

pub decode_u8-bounded :
    (input : Bytes) (value n : ℕ) → decode_u8 input ≡ some (value, n) → n ≤ length input
unfolding decode_u8
decode_u8-bounded = fixed_bounded 1 _

pub decode_u8-extends :
    (input more : Bytes) (value n : ℕ)
    → decode_u8 input ≡ some (value, n)
    → decode_u8 (input ++ more) ≡ some (value, n)
unfolding decode_u8
decode_u8-extends = fixed_extends 1 _ (λ xs ys h. ground (arith, get_or-append_lt xs ys 0 0))

pub encode_u8-appends :
    (buffer : Bytes) (value : ℕ) → encode_u8 buffer value ≡ buffer ++ encode_u8 [] value
unfolding encode_u8
encode_u8-appends buffer value = refl

pub length-encode_u8 : (value : ℕ) → length (encode_u8 [] value) ≡ 1
unfolding encode_u8
length-encode_u8 value = refl

pub decode_u8-encode_u8 :
    (value : ℕ) (rest : Bytes)
    → value < 2 ^ 8
    → decode_u8 (encode_u8 [] value ++ rest) ≡ some (value, length (encode_u8 [] value))
unfolding encode_u8 decode_u8
decode_u8-encode_u8 value rest h = ground arith

abbrev pub u8_codec : Codec ℕ
u8_codec = record {
  encode = encode_u8;
  decode = decode_u8;
  Fits = λ value. value < 2 ^ 8;
  encode_appends = encode_u8-appends;
  decode_encode = decode_u8-encode_u8;
  decode_bounded = decode_u8-bounded;
  decode_extends = decode_u8-extends;
}

pub decode_u16-bounded :
    (input : Bytes) (value n : ℕ) → decode_u16 input ≡ some (value, n) → n ≤ length input
unfolding decode_u16
decode_u16-bounded = fixed_bounded 2 _

pub decode_u16-extends :
    (input more : Bytes) (value n : ℕ)
    → decode_u16 input ≡ some (value, n)
    → decode_u16 (input ++ more) ≡ some (value, n)
unfolding decode_u16
decode_u16-extends =
    fixed_extends 2 _
      (λ xs ys h. ground (arith, get_or-append_lt xs ys 0 0, get_or-append_lt xs ys 1 0))

pub encode_u16-appends :
    (buffer : Bytes) (value : ℕ) → encode_u16 buffer value ≡ buffer ++ encode_u16 [] value
unfolding encode_u16
encode_u16-appends buffer value = simp append_assoc

pub length-encode_u16 : (value : ℕ) → length (encode_u16 [] value) ≡ 2
unfolding encode_u16
length-encode_u16 value = refl

pub decode_u16-encode_u16 :
    (value : ℕ) (rest : Bytes)
    → value < 2 ^ 16
    → decode_u16 (encode_u16 [] value ++ rest) ≡ some (value, length (encode_u16 [] value))
unfolding encode_u16 decode_u16
decode_u16-encode_u16 value rest h =
    ground (arith, join_two (value % 256) (value / 2 ^ 8 % 256) (omega arith))

abbrev pub u16_codec : Codec ℕ
u16_codec = record {
  encode = encode_u16;
  decode = decode_u16;
  Fits = λ value. value < 2 ^ 16;
  encode_appends = encode_u16-appends;
  decode_encode = decode_u16-encode_u16;
  decode_bounded = decode_u16-bounded;
  decode_extends = decode_u16-extends;
}

pub decode_u32-bounded :
    (input : Bytes) (value n : ℕ) → decode_u32 input ≡ some (value, n) → n ≤ length input
unfolding decode_u32
decode_u32-bounded = fixed_bounded 4 _

pub decode_u32-extends :
    (input more : Bytes) (value n : ℕ)
    → decode_u32 input ≡ some (value, n)
    → decode_u32 (input ++ more) ≡ some (value, n)
unfolding decode_u32
decode_u32-extends = fixed_extends 4 _ (λ xs ys h. ground (
  arith,
  get_or-append_lt xs ys 0 0,
  get_or-append_lt xs ys 1 0,
  get_or-append_lt xs ys 2 0,
  get_or-append_lt xs ys 3 0,
))

pub encode_u32-appends :
    (buffer : Bytes) (value : ℕ) → encode_u32 buffer value ≡ buffer ++ encode_u32 [] value
unfolding encode_u32
encode_u32-appends buffer value = simp append_assoc

pub length-encode_u32 : (value : ℕ) → length (encode_u32 [] value) ≡ 4
unfolding encode_u32
length-encode_u32 value = refl

pub decode_u32-encode_u32 :
    (value : ℕ) (rest : Bytes)
    → value < 2 ^ 32
    → decode_u32 (encode_u32 [] value ++ rest) ≡ some (value, length (encode_u32 [] value))
unfolding encode_u32
decode_u32-encode_u32 value rest h =
    decode_u32-bytes _ _ _ _ rest (omega arith) (omega arith) (omega arith) (omega arith)
    ∙ ap (λ x. some (x, 4)) (omega arith)

abbrev pub u32_codec : Codec ℕ
u32_codec = record {
  encode = encode_u32;
  decode = decode_u32;
  Fits = λ value. value < 2 ^ 32;
  encode_appends = encode_u32-appends;
  decode_encode = decode_u32-encode_u32;
  decode_bounded = decode_u32-bounded;
  decode_extends = decode_u32-extends;
}

pub decode_u64-bounded :
    (input : Bytes) (value n : ℕ) → decode_u64 input ≡ some (value, n) → n ≤ length input
unfolding decode_u64
decode_u64-bounded = fixed_bounded 8 _

pub decode_u64-extends :
    (input more : Bytes) (value n : ℕ)
    → decode_u64 input ≡ some (value, n)
    → decode_u64 (input ++ more) ≡ some (value, n)
unfolding decode_u64
decode_u64-extends = fixed_extends 8 _ (λ xs ys h. ground (
  arith,
  get_or-append_lt xs ys 0 0,
  get_or-append_lt xs ys 1 0,
  get_or-append_lt xs ys 2 0,
  get_or-append_lt xs ys 3 0,
  get_or-append_lt xs ys 4 0,
  get_or-append_lt xs ys 5 0,
  get_or-append_lt xs ys 6 0,
  get_or-append_lt xs ys 7 0,
))

pub encode_u64-appends :
    (buffer : Bytes) (value : ℕ) → encode_u64 buffer value ≡ buffer ++ encode_u64 [] value
unfolding encode_u64
encode_u64-appends buffer value = simp append_assoc

pub length-encode_u64 : (value : ℕ) → length (encode_u64 [] value) ≡ 8
unfolding encode_u64
length-encode_u64 value = refl

pub decode_u64-encode_u64 :
    (value : ℕ) (rest : Bytes)
    → value < 2 ^ 64
    → decode_u64 (encode_u64 [] value ++ rest) ≡ some (value, length (encode_u64 [] value))
unfolding encode_u64
decode_u64-encode_u64 value rest h =
    decode_u64-bytes (value / 2 ^ 0 % 256) (value / 2 ^ 8 % 256) (value / 2 ^ 16 % 256)
      (value / 2 ^ 24 % 256) (value / 2 ^ 32 % 256) (value / 2 ^ 40 % 256) (value / 2 ^ 48 % 256)
      (value / 2 ^ 56 % 256) rest (omega arith)
    ∙ ap (λ x. some (x, 8)) (omega arith)

abbrev pub u64_codec : Codec ℕ
u64_codec = record {
  encode = encode_u64;
  decode = decode_u64;
  Fits = λ value. value < 2 ^ 64;
  encode_appends = encode_u64-appends;
  decode_encode = decode_u64-encode_u64;
  decode_bounded = decode_u64-bounded;
  decode_extends = decode_u64-extends;
}
