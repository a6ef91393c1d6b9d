-- ===== src/Net/Chain.antt =====
-- net/buffer.hpp: `BufferChain`, a list of buffers that is sent as one.
use cpp20_coroutine_io_uring.Common.{
  ℕ, ◌+◌, ◌%◌, ◌^◌, ◌<◌, ◌≡◌, ◌≢◌, ◌∙◌, ap, sym, refl, List, [], ◌∷◌, ◌++◌, Option, none, some,
  Bytes, arith, inl, inr, ap₂, Bool-cases, Option-cases, All, length, take, drop, ltb,
  if◌then◌else◌, ◌>>=◌, length-append,
}
use cpp20_coroutine_io_uring.Net.Buffer.{Buffer, readable, copy_out, as_string}
use cpp20_coroutine_io_uring.Net.Buffer.Content.{
  content, IsValid, read-content, live_held, readable-length,
}

abbrev pub BufferChain : Type 0
BufferChain = List Buffer

unfoldable pub append : BufferChain → Buffer → BufferChain
append chain buffer = chain ++ buffer ∷ []

-- `total += buf.readable()`, in `size_t`.
unfoldable pub total_size_from : ℕ → BufferChain → ℕ
total_size_from total [] = total
total_size_from total (b ∷ chain) = total_size_from ((total + readable b) % 2 ^ 64) chain

unfoldable pub total_size : BufferChain → ℕ
total_size chain = total_size_from 0 chain

-- `result.append(buf.read_ptr(), buf.readable())`.
unfoldable pub to_string : BufferChain → Option Bytes
to_string [] = some []
to_string (b ∷ chain) = do
  front ← copy_out b (readable b)
  back ← to_string chain
  some (front ++ back)

pub record Iovec : Type 0 where
  pub iov_base : Bytes
  pub iov_len : ℕ

-- Empty buffers give no entry. The base is the memory from the read position on.
unfoldable pub add_entry : Buffer → List Iovec → Option (List Iovec)
add_entry b vecs = do
  bytes ← b.block
  some (record { iov_base = drop b.read_pos bytes; iov_len = readable b } ∷ vecs)

unfoldable pub to_iovec : BufferChain → Option (List Iovec)
unfolding add_entry
to_iovec [] = some []
to_iovec (b ∷ chain) = do
  vecs ← to_iovec chain
  if ltb 0 (readable b) then add_entry b vecs else some vecs

-- What a gathering write of the entries sends.
unfoldable pub gathered : List Iovec → Bytes
gathered [] = []
gathered (v ∷ vecs) = take v.iov_len v.iov_base ++ gathered vecs

-- The contents of the buffers, one after the other.
unfoldable pub chain_content : BufferChain → Bytes
chain_content [] = []
chain_content (b ∷ chain) = content b ++ chain_content chain

abbrev pub IsReadable : Buffer → Type 0
IsReadable b = IsValid b × (b.block ≢ none)

nil_of_length : (xs : Bytes) → length xs ≡ 0 → xs ≡ []
nil_of_length [] h = refl
nil_of_length (x ∷ xs) h = absurd (omega arith)

total_size_from-length :
    (total : ℕ) (chain : BufferChain)
    → All IsReadable chain
    → total + length (chain_content chain) < 2 ^ 64
    → total_size_from total chain ≡ total + length (chain_content chain)
unfolding total_size_from chain_content
total_size_from-length total [] h fits = omega arith
total_size_from-length total (b ∷ chain) ((v, held), h) fits =
    let sum : length (content b ++ chain_content chain)
        ≡ length (content b) + length (chain_content chain) =
      length-append (content b) (chain_content chain) in
    let next : (total + readable b) % 2 ^ 64 ≡ total + length (content b) =
      omega (arith, readable-length b v held, sum) in
    rw (next, sum)
      (total_size_from-length (total + length (content b)) chain h (omega (arith, sum))
        ∙ omega arith)

to_string-chain_content :
    (chain : BufferChain) → All IsReadable chain → to_string chain ≡ some (chain_content chain)
unfolding to_string chain_content
to_string-chain_content [] h = refl
to_string-chain_content (b ∷ chain) ((v, held), h) =
    let (_, _, _, _, whole) = read-content b 0 v held in
    let copied : copy_out b (readable b) ≡ some (content b) = unfold as_string in whole in
    rw (copied, to_string-chain_content chain h)

-- The text of a chain of readable buffers is their contents in order, and `total_size` is its
-- length, where that fits `size_t`.
pub to_string-total_size :
    (chain : BufferChain)
    → All IsReadable chain
    → length (chain_content chain) < 2 ^ 64
    → (to_string chain ≡ some (chain_content chain))
      × (total_size chain ≡ length (chain_content chain))
unfolding total_size
to_string-total_size chain h fits =
    (to_string-chain_content chain h, total_size_from-length 0 chain h (omega arith) ∙ omega arith)

-- The entries of `to_iovec` for a chain of readable buffers gather the contents in order.
pub to_iovec-gathered :
    (chain : BufferChain)
    → All IsReadable chain
    → (vecs : List Iovec) × (to_iovec chain ≡ some vecs) × (gathered vecs ≡ chain_content chain)
unfolding to_iovec gathered chain_content
to_iovec-gathered [] h = ([], refl, refl)
to_iovec-gathered (b ∷ chain) ((v, held), h) =
    let (vecs, e, g) = to_iovec-gathered chain h in
    elim (Option-cases b.block) [
      | inl null ↦ absurd (held null)
      | inr (bytes, at_block) ↦ elim (Bool-cases (ltb 0 (readable b))) [
        | inl some_bytes ↦ (
          record { iov_base = drop b.read_pos bytes; iov_len = readable b } ∷ vecs,
          ground (arith, e, some_bytes, at_block),
          ap₂ ◌++◌ (live_held b v bytes at_block) g,
        )
        | inr no_bytes ↦ (
          vecs,
          ground (arith, e, no_bytes),
          g
              ∙ ap (λ xs. xs ++ chain_content chain)
                  (sym (
                    nil_of_length (content b)
                      (ground (arith, no_bytes, readable-length b v held)))),
        )
      ]
    ]
