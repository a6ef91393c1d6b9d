-- ===== src/Net/Buffer/Content.antt =====
-- net/buffer.hpp as a queue of bytes: what is between the two positions is the content, `write`
-- appends to it and `read` takes from its front, through every compaction and growth of the block.
use cpp20_coroutine_io_uring.Common.{
  ℕ, zero, suc, ◌+◌, ◌-◌, ◌^◌, ◌<◌, ◌≤◌, ◌≡◌, refl, sym, ◌∙◌, ap, min, ◌≢◌, inl, inr, Option-cases,
  [], ◌∷◌, ◌++◌, none, some, Bytes, arith, append_assoc, Bool-cases, length, take, drop, ltb,
  length-append, length-take, length-drop, take-append, drop_all, take-take, drop-take, drop-drop,
  take_all,
}
use cpp20_coroutine_io_uring.Net.Buffer.{
  Buffer, capacity, readable, writable, overwrite, skip, retreat, copy_out, read, as_string,
  compact,
}

-- What a reader will see.
unfoldable pub content : Buffer → Bytes
content b = elim b.block [ none ↦ [] | some bytes ↦ drop b.read_pos (take b.write_pos bytes) ]

pub record IsValid (b : Buffer) : Type 0 where
  pub ordered : b.read_pos ≤ b.write_pos
  pub within : b.write_pos ≤ capacity b
  pub fits : capacity b < 2 ^ 64

pub length-overwrite :
    (block bytes : Bytes) (pos : ℕ)
    → pos + length bytes ≤ length block
    → length (overwrite block pos bytes) ≡ length block
length-overwrite block bytes pos h =
    rw
      (
        length-append (take pos block) (bytes ++ drop (pos + length bytes) block),
        length-append bytes (drop (pos + length bytes) block),
        length-take pos block,
        length-drop (pos + length bytes) block,
      )
      (omega arith)

-- The block up to the end of the bytes written.
pub take-overwrite :
    (block bytes : Bytes) (pos : ℕ)
    → pos + length bytes ≤ length block
    → take (pos + length bytes) (overwrite block pos bytes) ≡ take pos block ++ bytes
take-overwrite block bytes pos h =
    rw (← append_assoc (take pos block) bytes (drop (pos + length bytes) block)) (
      take-append (pos + length bytes) (take pos block ++ bytes) _
        (rw (length-append (take pos block) bytes, length-take pos block) (omega arith)))

take-min : (n : ℕ) (xs : Bytes) → take (min n (length xs)) xs ≡ take n xs
take-min zero xs = let e : min 0 (length xs) ≡ 0 = omega arith in rw e
take-min (suc n) [] = let e : min (suc n) 0 ≡ 0 = omega arith in rw e
take-min (suc n) (x ∷ xs) =
    let e : min (suc n) (suc (length xs)) ≡ suc (min n (length xs)) = omega arith in
    rw e (ap (◌∷◌ x) (take-min n xs))

drop-min : (n : ℕ) (xs : Bytes) → drop (min n (length xs)) xs ≡ drop n xs
drop-min zero xs = let e : min 0 (length xs) ≡ 0 = omega arith in rw e
drop-min (suc n) [] = let e : min (suc n) 0 ≡ 0 = omega arith in rw e
drop-min (suc n) (x ∷ xs) =
    let e : min (suc n) (suc (length xs)) ≡ suc (min n (length xs)) = omega arith in
    rw e (drop-min n xs)

pub readable-sub : (b : Buffer) → IsValid b → readable b ≡ b.write_pos - b.read_pos
unfolding readable
readable-sub b v = omega arith

module _ (b : Buffer) (v : IsValid b) (bytes : Bytes) (held : b.block ≡ some bytes) where
  pub capacity_held : capacity b ≡ length bytes
  unfolding capacity
  capacity_held = rw held

  pub content_held : content b ≡ drop b.read_pos (take b.write_pos bytes)
  unfolding content
  content_held = rw held

  pub length-content : length (content b) ≡ readable b
  length-content =
      rw
        (
          content_held,
          length-drop b.read_pos (take b.write_pos bytes),
          length-take b.write_pos bytes,
        )
        (omega (arith, capacity_held, readable-sub b v))

  pub live_held : take (readable b) (drop b.read_pos bytes) ≡ content b
  live_held = sym (
      content_held
      ∙ drop-take b.read_pos b.write_pos (readable b) bytes (omega (arith, readable-sub b v)))

  pub writable_held : writable b ≡ length bytes - b.write_pos
  unfolding writable
  writable_held = rw held (omega (arith, v.within, v.fits, capacity_held))

  pub copy_out_held : (n : ℕ) → n ≤ readable b → copy_out b n ≡ some (take n (content b))
  unfolding copy_out
  copy_out_held n h = ground (
    arith,
    held,
    content_held,
    capacity_held,
    readable-sub b v,
    drop-take b.read_pos b.write_pos (b.write_pos - b.read_pos) bytes,
    take-take n (b.write_pos - b.read_pos) (drop b.read_pos bytes),
  )

  skipped_content :
      (size : ℕ)
      → content (record b { read_pos = b.read_pos + min size (readable b) }) ≡ drop size (content b)
  unfolding readable
  skipped_content size =
      let at_new : content (record b { read_pos = b.read_pos + min size (readable b) })
          ≡ drop (b.read_pos + min size (readable b)) (take b.write_pos bytes) =
        unfold content in (rw held) in
      at_new
      ∙ sym (drop-drop (min size (readable b)) b.read_pos _ (take b.write_pos bytes) refl)
      ∙ ap (drop (min size (readable b))) (sym content_held)
      ∙ ap (λ n. drop (min size n) (content b)) (sym length-content)
      ∙ drop-min size (content b)

  skipped_IsValid :
      (size : ℕ) → IsValid (record b { read_pos = b.read_pos + min size (readable b) })
  unfolding capacity
  skipped_IsValid size = record {
    ordered = omega (arith, readable-sub b v, v.ordered);
    within = v.within;
    fits = v.fits;
  }

  pub read_held :
      (size : ℕ)
      → (b' : Buffer) × (read b size ≡ some (take size (content b), b'))
        × (content b' ≡ drop size (content b))
        × IsValid b'
        × (b'.block ≡ some bytes)
  unfolding read
  read_held size = (
    record b { read_pos = b.read_pos + min size (readable b) },
    rw (
      copy_out_held (min size (readable b)) (omega arith),
      ← length-content,
      take-min size (content b),
    ),
    skipped_content size,
    skipped_IsValid size,
    held,
  )

  -- `compact` moves the content to the front of the block.
  pub compact_held :
      (b' : Buffer) × (bytes' : Bytes) × (compact b ≡ some b')
      × (b'.block ≡ some bytes')
      × (content b' ≡ content b)
      × IsValid b'
      × (b'.write_pos ≤ b.write_pos)
      × (length bytes' ≡ length bytes)
  compact_held = elim (Bool-cases (ltb 0 b.read_pos)) [
    | inl moved ↦ (
      record { block = some block'; read_pos = 0; write_pos = readable b },
      block',
      unfold compact in (rw (moved, copy_out_held (readable b) (omega arith), whole, held)),
      refl,
      moved_content,
      moved_IsValid,
      omega (arith, readable-sub b v),
      size',
    )
    | inr kept ↦ (b, bytes, unfold compact in (rw kept), held, refl, v, omega arith, refl)
  ]
    where
      whole : take (readable b) (content b) ≡ content b
      whole = take_all (readable b) (content b) (omega (arith, length-content))

      block' : Bytes
      block' = overwrite bytes 0 (content b)

      room : 0 + length (content b) ≤ length bytes
      room = omega (arith, length-content, readable-sub b v, capacity_held, v.within)

      size' : length block' ≡ length bytes
      size' = length-overwrite bytes (content b) 0 room

      moved_content :
          content (record { block = some block'; read_pos = 0; write_pos = readable b }) ≡ content b
      moved_content =
          unfold content in (take-append (readable b) (content b) _ (sym length-content))

      moved_IsValid : IsValid (record { block = some block'; read_pos = 0; write_pos = readable b })
      moved_IsValid =
          unfold capacity in
          record {
            ordered = omega arith;
            within = omega (arith, size', length-content, room);
            fits = omega (arith, size', capacity_held, v.fits);
          }

-- On a valid buffer that has a block, `read` hands out the front of the content, as much of `size` as
-- there is, leaves the rest and keeps the buffer valid; `as_string` shows all of the content.
pub read-content :
    (b : Buffer) (size : ℕ)
    → IsValid b
    → b.block ≢ none
    → (b' : Buffer) × (read b size ≡ some (take size (content b), b'))
      × (content b' ≡ drop size (content b))
      × IsValid b'
      × (as_string b ≡ some (content b))
read-content b size v some_block = elim (Option-cases b.block) [
  | inl null ↦ absurd (some_block null)
  | inr (bytes, held) ↦
      let (b', e, left, v', _) = read_held b v bytes held size in
      (
        b',
        e,
        left,
        v',
        unfold as_string in
            (copy_out_held b v bytes held (readable b) (omega arith)
              ∙ ap some (
                  take_all (readable b) (content b)
                    (omega (arith, length-content b v bytes held)))),
      )
]

-- On a valid buffer, `retreat` takes back a `skip` by no more than is readable.
pub retreat-skip : (b : Buffer) (n : ℕ) → IsValid b → n ≤ readable b → retreat (skip b n) n ≡ b
unfolding skip retreat
retreat-skip b n v h = ground (arith, readable-sub b v)

pub skip-content : (b : Buffer) (n : ℕ) → IsValid b → content (skip b n) ≡ drop n (content b)
unfolding skip
skip-content b n v = elim (Option-cases b.block) [
  | inl null ↦ unfold content in (ground (arith, null, drop_all {A = ℕ} n []))
  | inr (bytes, held) ↦ skipped_content b v bytes held n
]

pub readable-length : (b : Buffer) → IsValid b → b.block ≢ none → readable b ≡ length (content b)
readable-length b v some_block = elim (Option-cases b.block) [
  | inl null ↦ absurd (some_block null)
  | inr (bytes, held) ↦ sym (length-content b v bytes held)
]
