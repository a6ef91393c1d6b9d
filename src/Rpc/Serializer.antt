-- ===== src/Rpc/Serializer.antt =====
-- rpc/serializer.hpp: the binary encoding of values. A value of an integer type is its bit pattern,
-- so the signed overload of each width is the unsigned one; `float` and `double` are the patterns
-- of 4 and 8 bytes that `memcpy` makes of them. `decode(data, size)` reads `data[0 .. size)` alone,
-- so its argument here is that list; `none` is `{0, false}`, else the value and `bytes_read`.
pub mod Scalars
pub mod Containers
mod Tests
use cpp20_coroutine_io_uring.Common.{
  ℕ, zero, suc, ◌+◌, ◌*◌, ◌/◌, ◌%◌, ◌^◌, bit_or, Bool, true, false, not, List, [], ◌∷◌, ◌++◌,
  Option, none, some, Bytes, length, take, drop, get_or, ltb, ◌==◌, if◌then◌else◌, ◌>>=◌, ◌≡◌, ◌≤◌,
}

pub data SerializeFormat : Type 0 where
  binary json message_pack : SerializeFormat

-- `data[i]`, once the size has been checked.
abbrev byte_at : Bytes → ℕ → ℕ
byte_at data0 i = get_or data0 i 0

unfoldable pub encode_bool : Bytes → Bool → Bytes
encode_bool buffer value = buffer ++ (if value then 1 else 0) ∷ []

unfoldable pub encode_u8 : Bytes → ℕ → Bytes
encode_u8 buffer value = buffer ++ value ∷ []

unfoldable pub encode_u16 : Bytes → ℕ → Bytes
encode_u16 buffer value = (buffer ++ value % 256 ∷ []) ++ (value / 2 ^ 8 % 256) ∷ []

unfoldable pub encode_u32 : Bytes → ℕ → Bytes
encode_u32 buffer value =
    (((buffer ++ value % 256 ∷ []) ++ (value / 2 ^ 8 % 256) ∷ []) ++ (value / 2 ^ 16 % 256) ∷ [])
    ++ (value / 2 ^ 24 % 256) ∷ []

-- `for (i = 8 - rounds; i < 8; ++i)`.
unfoldable pub encode_u64_loop : ℕ → ℕ → Bytes → ℕ → Bytes
encode_u64_loop zero i buffer value = buffer
encode_u64_loop (suc rounds) i buffer value =
    encode_u64_loop rounds (i + 1) (buffer ++ (value / 2 ^ (i * 8) % 256) ∷ []) value

unfoldable pub encode_u64 : Bytes → ℕ → Bytes
unfolding encode_u64_loop
encode_u64 buffer value = encode_u64_loop 8 0 buffer value

unfoldable pub encode_string : Bytes → Bytes → Bytes
encode_string buffer value = encode_u32 buffer (length value % 2 ^ 32) ++ value

unfoldable pub decode_bool : Bytes → Option (Bool × ℕ)
decode_bool data0 = if ltb (length data0) 1 then none else some (not (byte_at data0 0 == 0), 1)

unfoldable pub decode_u8 : Bytes → Option (ℕ × ℕ)
decode_u8 data0 = if ltb (length data0) 1 then none else some (byte_at data0 0, 1)

unfoldable pub decode_u16 : Bytes → Option (ℕ × ℕ)
decode_u16 data0 =
    if ltb (length data0) 2
    then none
    else some (bit_or (byte_at data0 0) (byte_at data0 1 * 2 ^ 8) % 2 ^ 16, 2)

unfoldable pub decode_u32 : Bytes → Option (ℕ × ℕ)
decode_u32 data0 =
    if ltb (length data0) 4
    then none
    else some (
      bit_or
            (bit_or (bit_or (byte_at data0 0) (byte_at data0 1 * 2 ^ 8)) (byte_at data0 2 * 2 ^ 16))
            (byte_at data0 3 * 2 ^ 24)
          % 2 ^ 32,
      4,
    )

unfoldable pub decode_u64_loop : ℕ → ℕ → Bytes → ℕ → ℕ
decode_u64_loop zero i data0 value = value
decode_u64_loop (suc rounds) i data0 value =
    decode_u64_loop rounds (i + 1) data0 (bit_or value (byte_at data0 i * 2 ^ (i * 8) % 2 ^ 64))

unfoldable pub decode_u64 : Bytes → Option (ℕ × ℕ)
unfolding decode_u64_loop
decode_u64 data0 = if ltb (length data0) 8 then none else some (decode_u64_loop 8 0 data0 0, 8)

unfoldable pub decode_string : Bytes → Option (Bytes × ℕ)
decode_string data0 = do
  (len, bytes_read) ← decode_u32 data0
  if ltb (length data0) (bytes_read + len)
      then none
      else some (take len (drop bytes_read data0), bytes_read + len)

-- An overload pair `encode`, `decode` for a type, the values that it is meant for, and what the
-- containers rely on: `encode` appends, `decode` reads it back and never past the end.
pub record Codec (A : Type 0) : Type 1 where
  pub encode : Bytes → A → Bytes
  pub decode : Bytes → Option (A × ℕ)
  pub Fits : A → Type 0
  pub encode_appends :
      (buffer : Bytes) (value : A) → encode buffer value ≡ buffer ++ encode [] value
  pub decode_encode :
      (value : A) (rest : Bytes)
      → Fits value
      → decode (encode [] value ++ rest) ≡ some (value, length (encode [] value))
  pub decode_bounded :
      (input : Bytes) (value : A) (n : ℕ) → decode input ≡ some (value, n) → n ≤ length input
  pub decode_extends :
      (input more : Bytes) (value : A) (n : ℕ)
      → decode input ≡ some (value, n)
      → decode (input ++ more) ≡ some (value, n)

module _ {A : Type 0} ⦃c : Codec A⦄ where
  -- `for (const auto& item : value) encode(buffer, item);`
  unfoldable pub encode_items : Bytes → List A → Bytes
  encode_items buffer [] = buffer
  encode_items buffer (item ∷ items) = encode_items (c.encode buffer item) items

  unfoldable pub encode_vector : Bytes → List A → Bytes
  encode_vector buffer value = encode_items (encode_u32 buffer (length value % 2 ^ 32)) value

  -- The loop of `decode` for `std::vector<T>`, with the rounds left, `offset` and `value`.
  unfoldable pub decode_items : ℕ → Bytes → ℕ → List A → Option (List A × ℕ)
  decode_items zero data0 offset value = some (value, offset)
  decode_items (suc rounds) data0 offset value = do
    (item, bytes_read) ← c.decode (drop offset data0)
    decode_items rounds data0 (offset + bytes_read) (value ++ item ∷ [])

  unfoldable pub decode_vector : Bytes → Option (List A × ℕ)
  decode_vector data0 = do
    (len, bytes_read) ← decode_u32 data0
    decode_items len data0 bytes_read []

  -- The two templates over it.
  unfoldable pub serialize_value : A → Bytes
  serialize_value value = c.encode [] value

  unfoldable pub deserialize_value : Bytes → Option A
  deserialize_value buffer = do (value, bytes_read) ← c.decode buffer; some value

-- `std::map`: its pairs in key order. There is no `decode` for it.
module _ {K V : Type 0} ⦃k : Codec K⦄ ⦃v : Codec V⦄ where
  unfoldable pub encode_pairs : Bytes → List (K × V) → Bytes
  encode_pairs buffer [] = buffer
  encode_pairs buffer ((key, value) ∷ pairs) =
      encode_pairs (v.encode (k.encode buffer key) value) pairs

  unfoldable pub encode_map : Bytes → List (K × V) → Bytes
  encode_map buffer value = encode_pairs (encode_u32 buffer (length value % 2 ^ 32)) value
