-- ===== src/Rpc/Serializer/Tests.antt =====
-- Runs of rpc/serializer.hpp on small inputs.
use cpp20_coroutine_io_uring.Common.{ℕ, ◌≡◌, refl, List, [], ◌∷◌, ◌++◌, none, some, arith, length}
use cpp20_coroutine_io_uring.Rpc.Serializer.{
  encode_u16, encode_u32, encode_items, encode_vector, decode_vector, serialize_value,
  deserialize_value,
}
use cpp20_coroutine_io_uring.Rpc.Serializer.Scalars.{u16_codec}
use cpp20_coroutine_io_uring.Rpc.Serializer.Containers.{
  decode_vector-encode_vector, deserialize_value_truncated,
}

abbrev numbers : List ℕ
numbers = 258 ∷ 3 ∷ []

two_numbers : encode_vector ⦃c = u16_codec⦄ [] numbers ≡ 2 ∷ 0 ∷ 0 ∷ 0 ∷ 2 ∷ 1 ∷ 3 ∷ 0 ∷ []
unfolding encode_vector encode_items encode_u16 encode_u32
two_numbers = refl

decode_vector-encode_vector_example :
    decode_vector ⦃c = u16_codec⦄ (encode_vector ⦃c = u16_codec⦄ [] numbers ++ 9 ∷ [])
    ≡ some (numbers, length (encode_vector ⦃c = u16_codec⦄ [] numbers))
decode_vector-encode_vector_example =
    decode_vector-encode_vector ⦃c = u16_codec⦄ numbers (9 ∷ []) (omega arith)
      (omega arith, (omega arith, tt))

two_bytes : serialize_value ⦃c = u16_codec⦄ 258 ≡ 2 ∷ 1 ∷ []
unfolding serialize_value encode_u16
two_bytes = refl

deserialize_value_truncated_example : deserialize_value ⦃c = u16_codec⦄ (2 ∷ []) ≡ none
deserialize_value_truncated_example =
    deserialize_value_truncated ⦃c = u16_codec⦄ 258 1 (2 ∷ []) [] (omega arith) two_bytes
