-- ===== src/Rpc/Frames.antt =====
-- rpc/rpc_server.hpp and rpc/rpc_client.hpp: the buffer into which both read a message, a header
-- first and then what the header announces.
use cpp20_coroutine_io_uring.Common.{
  ℕ, ◌+◌, ◌-◌, ◌≡◌, inl, inr, refl, sym, ap, ◌∙◌, ◌++◌, some, Bytes, length, take, drop,
  take-append, drop-append, drop-drop, replicate, ltb, if◌then◌else◌, Bool-cases, append_assoc,
  arith,
}
use cpp20_coroutine_io_uring.Rpc.Protocol.{
  RpcMessage, header_size, header_bytes, meta_bytes, sized, serialize, read_header,
}
use cpp20_coroutine_io_uring.Rpc.Protocol.Header.{
  HeaderFits, length-header_bytes, read_header-header_bytes,
}

-- A read of the bytes of `chunk` to `buffer.data() + offset`.
unfoldable pub put : ℕ → Bytes → Bytes → Bytes
put offset chunk buffer = take offset buffer ++ (chunk ++ drop (offset + length chunk) buffer)

-- `if (total_size > buffer.size()) buffer.resize(total_size)`.
unfoldable pub grow_to : ℕ → Bytes → Bytes
grow_to size buffer =
    if ltb (length buffer) size then buffer ++ replicate (size - length buffer) 0 else buffer

-- What is left of a vector after a read to its front.
put_front : (chunk buffer : Bytes) → put 0 chunk buffer ≡ chunk ++ drop (length chunk) buffer
unfolding put
put_front chunk buffer = let e : 0 + length chunk ≡ length chunk = omega arith in rw e refl

put_after :
    (front chunk rest : Bytes) (offset : ℕ)
    → offset ≡ length front
    → put offset chunk (front ++ rest) ≡ front ++ (chunk ++ drop (length chunk) rest)
unfolding put
put_after front chunk rest offset e =
    ap (λ r. r ++ (chunk ++ drop (offset + length chunk) (front ++ rest)))
      (take-append offset front rest e)
    ∙ ap (λ r. front ++ (chunk ++ r))
        (sym (drop-drop (length chunk) offset (offset + length chunk) (front ++ rest) refl)
          ∙ ap (drop (length chunk)) (drop-append offset front rest e))

-- What stands behind the front of a vector that has grown.
abbrev grown : ℕ → Bytes → Bytes → Bytes
grown size front rest =
    if ltb (length (front ++ rest)) size
    then rest ++ replicate (size - length (front ++ rest)) 0
    else rest

grow_to_front :
    (size : ℕ) (front rest : Bytes) → grow_to size (front ++ rest) ≡ front ++ grown size front rest
unfolding grow_to
grow_to_front size front rest = elim (Bool-cases (ltb (length (front ++ rest)) size)) [
  | inl q ↦ rw q (append_assoc front rest (replicate (size - length (front ++ rest)) 0))
  | inr q ↦ rw q refl
]

module _ (pad : Bytes) (m : RpcMessage) where
  abbrev pub body_bytes : Bytes
  body_bytes = meta_bytes pad m ++ m.payload

  -- The two parts in which a message is read.
  pub take_header : take header_size (serialize pad m) ≡ header_bytes (sized m)
  unfolding serialize
  take_header =
      take-append header_size (header_bytes (sized m)) body_bytes
        (sym (length-header_bytes (sized m)))

  pub drop_header : drop header_size (serialize pad m) ≡ body_bytes
  unfolding serialize
  drop_header =
      drop-append header_size (header_bytes (sized m)) body_bytes
        (sym (length-header_bytes (sized m)))

  pub read_header-put :
      (buffer : Bytes)
      → HeaderFits (sized m)
      → read_header (put 0 (header_bytes (sized m)) buffer)
        ≡ some (sized m, drop (length (header_bytes (sized m))) buffer)
  read_header-put buffer f =
      rw (put_front (header_bytes (sized m)) buffer)
        (read_header-header_bytes (sized m) (drop (length (header_bytes (sized m))) buffer) f)

  -- What stands behind the message in the buffer after both reads.
  abbrev pub left_over : ℕ → Bytes → Bytes
  left_over size buffer =
      drop (length body_bytes)
        (grown size (header_bytes (sized m)) (drop (length (header_bytes (sized m))) buffer))

  pub put-put :
      (size : ℕ) (buffer : Bytes)
      → put header_size body_bytes (grow_to size (put 0 (header_bytes (sized m)) buffer))
        ≡ serialize pad m ++ left_over size buffer
  unfolding serialize
  put-put size buffer =
      ap (λ b. put header_size body_bytes (grow_to size b))
        (put_front (header_bytes (sized m)) buffer)
      ∙ ap (put header_size body_bytes) (
          grow_to_front size (header_bytes (sized m))
            (drop (length (header_bytes (sized m))) buffer))
      ∙ put_after (header_bytes (sized m)) body_bytes
          (grown size (header_bytes (sized m)) (drop (length (header_bytes (sized m))) buffer))
          header_size (sym (length-header_bytes (sized m)))
      ∙ sym (append_assoc (header_bytes (sized m)) body_bytes (left_over size buffer))
