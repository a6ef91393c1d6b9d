-- ===== src/Rpc/Serializer/Containers.antt =====
-- rpc/serializer.hpp: `std::string` and `std::vector<T>` keep the laws of `Codec`, the vector over
-- any element type that keeps them; and what follows for `serialize` and `deserialize`.
use native.Mathlib.Nat.{add_assoc}
use cpp20_coroutine_io_uring.Common.{
  ℕ, zero, suc, ◌+◌, ◌%◌, ◌^◌, ◌<◌, ◌≤◌, ◌≡◌, refl, sym, ◌∙◌, ap, inl, inr, List, [], ◌∷◌, ◌++◌,
  none, some, arith, append_assoc, append-nil, Bytes, All, length, take, drop, length-append,
  Option-cases, length-drop, take-append, drop-append, drop-append_le, take-append_le,
}
use cpp20_coroutine_io_uring.Rpc.Serializer.{
  Codec, encode_u32, decode_u32, encode_string, decode_string, encode_items, encode_vector,
  decode_items, decode_vector, serialize_value, deserialize_value,
}
use cpp20_coroutine_io_uring.Rpc.Serializer.Scalars.{
  encode_u32-appends, decode_u32-encode_u32, decode_u32-bounded, decode_u32-extends,
}

encode_string-appends :
    (buffer value : Bytes) → encode_string buffer value ≡ buffer ++ encode_string [] value
unfolding encode_string
encode_string-appends buffer value =
    rw (encode_u32-appends buffer (length value % 2 ^ 32))
      (append_assoc buffer (encode_u32 [] (length value % 2 ^ 32)) value)

decode_string-encode_string :
    (value rest : Bytes)
    → length value < 2 ^ 32
    → decode_string (encode_string [] value ++ rest) ≡ some (value, length (encode_string [] value))
unfolding encode_string decode_string
decode_string-encode_string value rest h =
    let small : length value % 2 ^ 32 ≡ length value = omega arith in
    let head : Bytes = encode_u32 [] (length value) in
    rw
      (
        small,
        append_assoc head value rest,
        decode_u32-encode_u32 (length value) (value ++ rest) h,
        length-append head (value ++ rest),
        length-append value rest,
        drop-append (length head) head (value ++ rest) refl,
        take-append (length value) value rest refl,
        length-append head value,
      )
      (ground arith)

decode_string-bounded :
    (input value : Bytes) (n : ℕ) → decode_string input ≡ some (value, n) → n ≤ length input
unfolding decode_string
decode_string-bounded input value n e = ground arith

slice-append :
    (len k : ℕ) (input more : Bytes)
    → k + len ≤ length input
    → take len (drop k (input ++ more)) ≡ take len (drop k input)
slice-append len k input more h =
    rw (drop-append_le k input more (omega arith))
      (take-append_le len (drop k input) more (omega (arith, length-drop k input)))

decode_string-extends :
    (input more value : Bytes) (n : ℕ)
    → decode_string input ≡ some (value, n)
    → decode_string (input ++ more) ≡ some (value, n)
unfolding decode_string
decode_string-extends input more value n e = elim (Option-cases (decode_u32 input)) [
  | inl none_read ↦ absurd (ground (arith, none_read))
  | inr ((len, k), read) ↦
      rw (decode_u32-extends input more len k read)
        (ground (arith, read, length-append input more, slice-append len k input more))
]

pub string_codec : Codec Bytes
string_codec = record {
  encode = encode_string;
  decode = decode_string;
  Fits = λ value. length value < 2 ^ 32;
  encode_appends = encode_string-appends;
  decode_encode = decode_string-encode_string;
  decode_bounded = decode_string-bounded;
  decode_extends = decode_string-extends;
}

module _ {A : Type 0} ⦃c : Codec A⦄ where
  encode_items-appends :
      (buffer : Bytes) (items : List A)
      → encode_items buffer items ≡ buffer ++ encode_items [] items
  unfolding encode_items
  encode_items-appends buffer [] = sym (append-nil buffer)
  encode_items-appends buffer (item ∷ items) =
      encode_items-appends (c.encode buffer item) items
      ∙ rw
          (
            c.encode_appends buffer item,
            append_assoc buffer (c.encode [] item) (encode_items [] items),
          )
          (ap (◌++◌ buffer) (sym (encode_items-appends (c.encode [] item) items)))

  encode_vector-appends :
      (buffer : Bytes) (value : List A)
      → encode_vector buffer value ≡ buffer ++ encode_vector [] value
  unfolding encode_vector
  encode_vector-appends buffer value =
      let size : ℕ = length value % 2 ^ 32 in
      encode_items-appends (encode_u32 buffer size) value
      ∙ rw
          (
            encode_u32-appends buffer size,
            append_assoc buffer (encode_u32 [] size) (encode_items [] value),
          )
          (ap (◌++◌ buffer) (sym (encode_items-appends (encode_u32 [] size) value)))

  -- The loop, started behind `front` with the items' bytes ahead, collects the items.
  decode_items-encode_items :
      (items : List A) (front rest : Bytes) (found : List A)
      → All c.Fits items
      → decode_items (length items) (front ++ (encode_items [] items ++ rest)) (length front) found
        ≡ some (found ++ items, length front + length (encode_items [] items))
  unfolding decode_items encode_items
  decode_items-encode_items [] front rest found h =
      rw append-nil (ap (λ n. some (found, n)) (omega arith))
  decode_items-encode_items (item ∷ items) front rest found h =
      let head : Bytes = c.encode [] item in
      let ih = decode_items-encode_items items (front ++ head) rest (found ++ item ∷ []) h.1 in
      rw
        (
          encode_items-appends head items,
          drop-append (length front) front _ refl,
          append_assoc head (encode_items [] items) rest,
          c.decode_encode item (encode_items [] items ++ rest) h.0,
        )
        (simp (append_assoc, length-append, add_assoc)
          (simp (append_assoc, length-append, add_assoc) at ih))

  decode_items-bounded :
      (rounds offset n : ℕ) (input : Bytes) (found value : List A)
      → offset ≤ length input
      → decode_items rounds input offset found ≡ some (value, n)
      → n ≤ length input
  unfolding decode_items
  decode_items-bounded zero offset n input found value h e = ground arith
  decode_items-bounded (suc rounds) offset n input found value h e =
      elim (Option-cases (c.decode (drop offset input))) [
        | inl failed ↦ absurd (ground (arith, failed))
        | inr ((item, k), read) ↦
            decode_items-bounded rounds (offset + k) n input (found ++ item ∷ []) value
              (omega (arith, c.decode_bounded _ item k read, length-drop offset input))
              (rw read at e)
      ]

  decode_items-extends :
      (rounds offset n : ℕ) (input more : Bytes) (found value : List A)
      → offset ≤ length input
      → decode_items rounds input offset found ≡ some (value, n)
      → decode_items rounds (input ++ more) offset found ≡ some (value, n)
  unfolding decode_items
  decode_items-extends zero offset n input more found value h e = e
  decode_items-extends (suc rounds) offset n input more found value h e =
      elim (Option-cases (c.decode (drop offset input))) [
        | inl failed ↦ absurd (ground (arith, failed))
        | inr ((item, k), read) ↦
            rw (drop-append_le offset input more h, c.decode_extends _ more item k read)
              (decode_items-extends rounds (offset + k) n input more (found ++ item ∷ []) value
                (omega (arith, c.decode_bounded _ item k read, length-drop offset input))
                (rw read at e))
      ]

  vector_round_trip :
      (value : List A) (rest : Bytes)
      → (length value < 2 ^ 32) × All c.Fits value
      → decode_vector (encode_vector [] value ++ rest)
        ≡ some (value, length (encode_vector [] value))
  unfolding encode_vector decode_vector
  vector_round_trip value rest (h, hs) =
      let small : length value % 2 ^ 32 ≡ length value = omega arith in
      let head : Bytes = encode_u32 [] (length value) in
      rw
        (
          small,
          encode_items-appends head value,
          append_assoc head (encode_items [] value) rest,
          decode_u32-encode_u32 (length value) (encode_items [] value ++ rest) h,
          length-append head (encode_items [] value),
        )
        (decode_items-encode_items value head rest [] hs)

  decode_vector-bounded :
      (input : Bytes) (value : List A) (n : ℕ)
      → decode_vector input ≡ some (value, n)
      → n ≤ length input
  unfolding decode_vector
  decode_vector-bounded input value n e = elim (Option-cases (decode_u32 input)) [
    | inl failed ↦ absurd (ground (arith, failed))
    | inr ((len, k), read) ↦
        decode_items-bounded len k n input [] value (decode_u32-bounded input len k read)
          (rw read at e)
  ]

  decode_vector-extends :
      (input more : Bytes) (value : List A) (n : ℕ)
      → decode_vector input ≡ some (value, n)
      → decode_vector (input ++ more) ≡ some (value, n)
  unfolding decode_vector
  decode_vector-extends input more value n e = elim (Option-cases (decode_u32 input)) [
    | inl failed ↦ absurd (ground (arith, failed))
    | inr ((len, k), read) ↦ rw (decode_u32-extends input more len k read) (
        decode_items-extends len k n input more [] value (decode_u32-bounded input len k read)
          (rw read at e))
  ]

  pub vector_codec : Codec (List A)
  vector_codec = record {
    encode = encode_vector;
    decode = decode_vector;
    Fits = λ value. (length value < 2 ^ 32) × All c.Fits value;
    encode_appends = encode_vector-appends;
    decode_encode = vector_round_trip;
    decode_bounded = decode_vector-bounded;
    decode_extends = decode_vector-extends;
  }

  -- A vector whose length and elements fit is read back from what was written, whatever follows it,
  -- and `bytes_read` is the number of bytes written.
  pub decode_vector-encode_vector :
      (value : List A) (rest : Bytes)
      → length value < 2 ^ 32
      → All c.Fits value
      → decode_vector (encode_vector [] value ++ rest)
        ≡ some (value, length (encode_vector [] value))
  decode_vector-encode_vector value rest h hs = vector_round_trip value rest (h, hs)

  -- `deserialize` gives back a value that fits from what `serialize` made of it, whatever follows.
  pub deserialize_value-serialize_value :
      (value : A) (rest : Bytes)
      → c.Fits value
      → deserialize_value (serialize_value value ++ rest) ≡ some value
  unfolding serialize_value deserialize_value
  deserialize_value-serialize_value value rest h = rw (c.decode_encode value rest h)

  -- `deserialize` fails on every proper prefix of what `serialize` made of a value that fits, for
  -- every type with such overloads.
  pub deserialize_value_truncated :
      (value : A) (x : ℕ) (front back : Bytes)
      → c.Fits value
      → serialize_value value ≡ front ++ x ∷ back
      → deserialize_value {A = A} front ≡ none
  unfolding serialize_value deserialize_value
  deserialize_value_truncated value x front back h e = elim (Option-cases (c.decode front)) [
    | inl failed ↦ rw failed
    | inr ((other, n), read) ↦ absurd (
        ground (
          arith,
          c.decode_bounded front other n read,
          c.decode_extends front (x ∷ back) other n read,
          whole,
          length-append front (x ∷ back),
        ))
  ]
    where
      whole : c.decode (front ++ x ∷ back) ≡ some (value, length (front ++ x ∷ back))
      whole = rw (append-nil, e) at (c.decode_encode value [] h)
