-- ===== src/Net/Buffer/Write.antt =====
-- net/buffer.hpp: `write` keeps what is in the buffer and appends to it, whether the block has room,
-- is compacted or is replaced by a larger one; and the round trip through `read`.
use cpp20_coroutine_io_uring.Common.{
  ℕ, ◌+◌, ◌*◌, ◌^◌, ◌<◌, ◌≤◌, ◌≡◌, refl, sym, ◌∙◌, ap, max, ◌≢◌, [], ◌++◌, none, some, Bytes, arith,
  inl, inr, Bool-cases, Option-cases, length, take, drop, leb, length-append, length-take,
  take-append, drop-append_le, take_all, drop_all,
}
use cpp20_coroutine_io_uring.Net.Buffer.{
  Buffer, capacity, writable, overwrite, read, with_capacity, grow, make_room, ensure_writable,
  copy_in, write, of_bytes,
}
use cpp20_coroutine_io_uring.Net.Buffer.Content.{
  content, IsValid, length-overwrite, take-overwrite, capacity_held, writable_held, content_held,
  read-content, compact_held,
}

-- A block with `size` bytes of room behind an unchanged content.
pub record IsRoomy (b : Buffer) (size : ℕ) (before : Bytes) : Type 0 where
  pub block : Bytes
  pub held : b.block ≡ some block
  pub valid : IsValid b
  pub same : content b ≡ before
  pub room : b.write_pos + size ≤ length block

module _ (alloc : ℕ → Bytes) (alloc_size : (n : ℕ) → length (alloc n) ≡ n) where
  copy_in_roomy :
      (b : Buffer) (bytes before : Bytes)
      → IsRoomy b (length bytes) before
      → (b' : Buffer) × (copy_in alloc b bytes ≡ some b')
        × (content b' ≡ before ++ bytes)
        × IsValid b'
        × (b'.block ≢ none)
  copy_in_roomy b bytes before r = (b', copied, appended, valid', λ e. cc)
    where
      open r use {block, held, valid, same, room}

      b' : Buffer
      b' = record b {
        block = some (overwrite block b.write_pos bytes);
        write_pos = b.write_pos + length bytes;
      }

      copied : copy_in alloc b bytes ≡ some b'
      copied = unfold copy_in in (ground (arith, held))

      live : take b'.write_pos (overwrite block b.write_pos bytes) ≡ take b.write_pos block ++ bytes
      live = take-overwrite block bytes b.write_pos room

      appended : content b' ≡ before ++ bytes
      appended =
          unfold content in
          (rw
            (
              live,
              drop-append_le b.read_pos (take b.write_pos block) bytes
                  (rw (length-take b.write_pos block) (omega (arith, valid.ordered))),
            )
            (ap (λ xs. xs ++ bytes) (sym (content_held b valid block held) ∙ same)))

      valid' : IsValid b'
      valid' =
          unfold capacity in
          record {
            ordered = omega (arith, valid.ordered);
            within = omega (arith, length-overwrite block bytes b.write_pos room);
            fits = omega (
              arith,
              length-overwrite block bytes b.write_pos room,
              valid.fits,
              capacity_held b valid block held,
            );
          }

  grow-IsRoomy :
      (b : Buffer) (size : ℕ) (bytes : Bytes)
      → IsValid b
      → b.block ≡ some bytes
      → capacity b * 2 < 2 ^ 64
      → b.write_pos + size < 2 ^ 64
      → (b' : Buffer) × (grow alloc b size ≡ some b') × IsRoomy b' size (content b)
  grow-IsRoomy b size bytes v held h k = (
    record b { block = some block' },
    unfold grow in (rw held),
    record {
      block = block';
      held = refl;
      valid =
          unfold capacity in
          record {
            ordered = v.ordered;
            within = omega (arith, size');
            fits = omega (arith, size');
          };
      same = regrown;
      room = omega (arith, size');
    },
  )
    where
      new_capacity : ℕ
      new_capacity = max (capacity b * 2) (b.write_pos + size)

      live : Bytes
      live = take b.write_pos bytes

      block' : Bytes
      block' = overwrite (alloc new_capacity) 0 live

      live_size : length live ≡ b.write_pos
      live_size =
          rw (length-take b.write_pos bytes) (omega (arith, v.within, capacity_held b v bytes held))

      size' : length block' ≡ new_capacity
      size' =
          length-overwrite (alloc new_capacity) live 0
            (omega (arith, alloc_size new_capacity, live_size))
          ∙ alloc_size new_capacity

      regrown : content (record b { block = some block' }) ≡ content b
      regrown =
          let front : take b.write_pos block' ≡ live =
            take-append b.write_pos live _ (sym live_size) in
          unfold content in (ap (drop b.read_pos) front) ∙ sym (content_held b v bytes held)

  make_room-IsRoomy :
      (b : Buffer) (size : ℕ) (bytes : Bytes)
      → IsValid b
      → b.block ≡ some bytes
      → capacity b * 2 < 2 ^ 64
      → b.write_pos + size < 2 ^ 64
      → (b' : Buffer) × (make_room alloc b size ≡ some b') × IsRoomy b' size (content b)
  make_room-IsRoomy b size bytes v held h k =
      let (c, bytes', e, held', same', v', less, size') = compact_held b v bytes held in
      elim (Bool-cases (leb size (writable c))) [
        | inl enough ↦ (
          c,
          unfold make_room in (rw (e, enough)),
          record {
            block = bytes';
            held = held';
            valid = v';
            same = same';
            room = ground (
              arith,
              writable_held c v' bytes' held',
              v'.within,
              capacity_held c v' bytes' held',
            );
          },
        )
        | inr short ↦
            let (g, grown, r) =
              grow-IsRoomy c size bytes' v' held'
                (omega (arith, capacity_held c v' bytes' held', capacity_held b v bytes held))
                (omega arith) in
            (
              g,
              unfold make_room in (rw (e, short) grown),
              record {
                block = r.block;
                held = r.held;
                valid = r.valid;
                same = r.same ∙ same';
                room = r.room;
              },
            )
      ]

  -- Whatever path it takes, `ensure_writable` leaves room for `size` bytes and the content as it was.
  ensure_writable-IsRoomy :
      (b : Buffer) (size : ℕ)
      → IsValid b
      → capacity b * 2 < 2 ^ 64
      → b.write_pos + size < 2 ^ 64
      → (b' : Buffer) × (ensure_writable alloc b size ≡ some b') × IsRoomy b' size (content b)
  ensure_writable-IsRoomy b size v h k = elim (Option-cases b.block) [
    | inl null ↦
        let fresh : Buffer = record b { block = some (alloc (max size 4096)) } in
        let at_start : b.write_pos ≡ 0 = unfold capacity in (ground (arith, null, v.within)) in
        (
          fresh,
          unfold ensure_writable in (rw null),
          record {
            block = alloc (max size 4096);
            held = refl;
            valid =
                unfold capacity in
                record {
                  ordered = v.ordered;
                  within = omega arith;
                  fits = omega (arith, alloc_size (max size 4096));
                };
            same = unfold content in (ground (arith, null, at_start, v.ordered));
            room = omega (arith, alloc_size (max size 4096));
          },
        )
    | inr (bytes, held) ↦ elim (Bool-cases (leb size (writable b))) [
      | inl enough ↦ (
        b,
        unfold ensure_writable in (ground (arith, held, enough)),
        record {
          block = bytes;
          held = held;
          valid = v;
          same = refl;
          room =
              ground (arith, writable_held b v bytes held, v.within, capacity_held b v bytes held);
        },
      )
      | inr short ↦
          let (g, roomy, r) = make_room-IsRoomy b size bytes v held h k in
          (g, unfold ensure_writable in (ground (arith, held, short, roomy)), r)
    ]
  ]

  -- `write` succeeds on a valid buffer, appends the bytes to its content and keeps it valid, as long
  -- as twice the capacity and the end of the write fit `size_t`.
  pub write-content :
      (b : Buffer) (bytes : Bytes)
      → IsValid b
      → capacity b * 2 < 2 ^ 64
      → b.write_pos + length bytes < 2 ^ 64
      → (b' : Buffer) × (write alloc b bytes ≡ some b')
        × (content b' ≡ content b ++ bytes)
        × IsValid b'
        × (b'.block ≢ none)
  write-content b bytes v h k =
      let (roomy, e, r) = ensure_writable-IsRoomy b (length bytes) v h k in
      let (b', copied, appended, v', held) = copy_in_roomy roomy bytes (content b) r in
      (b', unfold write in (rw e copied), appended, v', held)

  -- A buffer made from bytes has them as its content.
  pub of_bytes-content :
      (bytes : Bytes)
      → length bytes * 2 < 2 ^ 64
      → (b : Buffer) × (of_bytes alloc bytes ≡ some b) × (content b ≡ bytes) × IsValid b
  of_bytes-content bytes h =
      let start : Buffer = with_capacity alloc (length bytes) in
      let size : capacity start ≡ length bytes =
        unfold with_capacity capacity in alloc_size (length bytes) in
      let (b, e, appended, v, _) =
        write-content start bytes
          (record {
            ordered = unfold with_capacity in (omega arith);
            within = unfold with_capacity in (omega arith);
            fits = omega (arith, size);
          })
          (omega (arith, size)) (unfold with_capacity in (omega arith)) in
      (b, unfold of_bytes in e, appended ∙ unfold content with_capacity in refl, v)

  -- Bytes come out in the order in which they went in: after a `write`, a `read` of everything
  -- returns what was there before, then what was written, and the buffer is empty.
  pub read-write :
      (b : Buffer) (bytes : Bytes)
      → IsValid b
      → capacity b * 2 < 2 ^ 64
      → b.write_pos + length bytes < 2 ^ 64
      → (b' b'' : Buffer) × (write alloc b bytes ≡ some b')
        × (read b' (length (content b) + length bytes) ≡ some (content b ++ bytes, b''))
        × (content b'' ≡ [])
  read-write b bytes v h k =
      let (b', e, appended, v', held) = write-content b bytes v h k in
      let size : ℕ = length (content b) + length bytes in
      let whole : length (content b') ≤ size =
        rw appended (omega (arith, length-append (content b) bytes)) in
      let (b'', r, left, _, _) = read-content b' size v' held in
      (
        b',
        b'',
        e,
        r ∙ ap (λ xs. some (xs, b'')) (take_all size (content b') whole ∙ appended),
        left ∙ drop_all size (content b') whole,
      )
