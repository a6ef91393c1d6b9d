-- ===== src/Io/AsyncIo/Whole.antt =====
-- io/async_io.hpp: `async_read_all` and `async_write_all` on a file and a kernel that makes progress.
use cpp20_coroutine_io_uring.Common.{
  ℕ, zero, suc, ◌+◌, ◌-◌, ◌*◌, ◌≤◌, ◌<◌, ◌≡◌, ◌⊎◌, inl, inr, refl, sym, ap, ◌∙◌, ◌++◌, Bytes,
  length, length-take, length-drop, length-replicate, take, drop, replicate, min, ltb, ◌==◌,
  take_all, take-take, Bool-cases, ==_iff, ltb→lt, ltb→le, arith,
}
use cpp20_coroutine_io_uring.Io.AsyncIo.{
  resize, store, grow_full, read_step, read_loop, async_read_all,
}
use cpp20_coroutine_io_uring.Io.AsyncIo.Memory.{
  take-resize, length-resize, resize_shorter, length-store, take-store, take_more, take_more,
  take_more, cut,
}

-- The file, and how many bytes a read gives at an offset if it is asked for so many.
module _ (content : Bytes) (count : ℕ → ℕ → ℕ) (max_size : ℕ)
    (progress : (offset size : ℕ) → 1 ≤ size → 1 ≤ count offset size) where
  abbrev kernel : ℕ → ℕ → Bytes
  kernel offset size = take (count offset size) (drop offset content)

  -- What was read stands at the front of the string, which is full only at the limit.
  record IsRead (total : ℕ) (result : Bytes) : Type 0 where
    pub front : take total result ≡ take total content
    pub inside : total ≤ length content
    pub room : total ≤ length result
    pub limited : length result ≤ max_size
    pub full : length result ≤ total → max_size ≤ total

  abbrev chunk_of : ℕ → Bytes → Bytes
  chunk_of total result = take (length result - total) (kernel total (length result - total))

  -- The chunk is a piece of the file, and empty only at its end.
  abbrev Piece : ℕ → Bytes → Type 0
  Piece total result =
      (m : ℕ) × (chunk_of total result ≡ take m (drop total content))
      × (m ≤ length result - total)
      × (total < length result → 1 ≤ m)

  piece : (total : ℕ) (result : Bytes) → Piece total result
  piece total result =
      elim (Bool-cases (ltb (length result - total) (count total (length result - total)))) [
        | inl q ↦ (
          length result - total,
          take-take (length result - total) (count total (length result - total))
              (drop total content)
              (omega
                (arith, ltb→lt (length result - total) (count total (length result - total)) q)),
          omega arith,
          λ h. omega (arith, h),
        )
        | inr q ↦
            let few : count total (length result - total) ≤ length result - total =
              ltb→le (length result - total) (count total (length result - total)) q in
            (
              count total (length result - total),
              take_all (length result - total) (kernel total (length result - total)) (
                  omega (
                    arith,
                    few,
                    length-take (count total (length result - total)) (drop total content),
                  )),
              few,
              λ h. progress total (length result - total) (omega (arith, h)),
            )
      ]

  grow_full-IsRead :
      (total : ℕ) (result : Bytes)
      → take total result ≡ take total content
      → total ≤ length content
      → total ≤ length result
      → length result ≤ max_size
      → 1 ≤ length result
      → IsRead total (grow_full max_size total result)
  unfolding grow_full
  grow_full-IsRead total result f i r l p = elim (Bool-cases (total == length result)) [
    | inr q ↦ rw q (record {
      front = f;
      inside = i;
      room = r;
      limited = l;
      full = λ h. absurd (ground (arith, q, h, r, ==_iff total (length result)));
    })
    | inl q ↦
        let e : total ≡ length result = (==_iff total (length result)).0 q in
        let n : length (resize (min (length result * 2) max_size) result)
            ≡ min (length result * 2) max_size =
          length-resize (min (length result * 2) max_size) result in
        rw q (record {
          front =
              take-resize total (min (length result * 2) max_size) result r (omega (arith, e, l))
              ∙ f;
          inside = i;
          room = omega (arith, n, e, l);
          limited = omega (arith, n);
          full = λ h. omega (arith, n, h, e, l, p);
        })
  ]

  -- One turn that reads something.
  step-IsRead :
      (total : ℕ) (result : Bytes)
      → IsRead total result
      → total < length result
      → IsRead
          (total + length (chunk_of total result))
          (read_step max_size total (chunk_of total result) result)
  unfolding read_step
  step-IsRead total result v h =
      let (m, e, few, some_bytes) = piece total result in
      let size : length (chunk_of total result) ≡ min m (length content - total) =
        ap length e
        ∙ omega (arith, length-take m (drop total content), length-drop total content) in
      let front : take total result ++ chunk_of total result
          ≡ take (total + length (chunk_of total result)) content =
        ap (λ c. take total result ++ c) e
        ∙ ap (λ f. f ++ take m (drop total content)) v.front
        ∙ take_more total m content
        ∙ cut (total + m) (total + length (chunk_of total result)) content
            (omega (arith, size, v.inside)) in
      let long : length (store total (chunk_of total result) result) ≡ length result =
        length-store total (chunk_of total result) result (omega (arith, size, few, h)) in
      grow_full-IsRead (total + length (chunk_of total result))
        (store total (chunk_of total result) result)
        (take-store total (chunk_of total result) result (omega (arith, size, few, h)) ∙ front)
        (omega (arith, size, v.inside)) (omega (arith, size, few, h, long))
        (omega (arith, long, v.limited)) (omega (arith, long, h))

  read_ends :
      (total : ℕ) (result : Bytes) → IsRead total result → resize total result ≡ take total content
  read_ends total result v = resize_shorter total result v.room ∙ v.front

  whole :
      (total : ℕ)
      → total ≤ length content
      → (max_size ≤ total) ⊎ (length content ≤ total)
      → total ≤ max_size
      → take total content ≡ take max_size content
  whole total i (inl h) l =
      let e : total ≡ max_size = omega (arith, h, l) in ap (λ n. take n content) e
  whole total i (inr h) l =
      take_all total content h ∙ sym (take_all max_size content (omega (arith, h, l)))

  read_loop_lem :
      (fuel total : ℕ) (result : Bytes)
      → IsRead total result
      → max_size < total + fuel
      → read_loop kernel max_size fuel total result ≡ take max_size content
  unfolding read_loop
  read_loop_lem zero total result v f = absurd (omega (arith, f, v.room, v.limited))
  read_loop_lem (suc fuel) total result v f = elim (Bool-cases (ltb total max_size)) [
    | inr q ↦ rw q (
        read_ends total result v
        ∙ whole total v.inside (inl (ltb→le total max_size q)) (omega (arith, v.room, v.limited)))
    | inl q ↦
        let free : total < length result =
          ground (arith, v.full, v.room, ltb→lt total max_size q) in
        let (m, e, few, some_bytes) = piece total result in
        let size : length (chunk_of total result) ≡ min m (length content - total) =
          ap length e
          ∙ omega (arith, length-take m (drop total content), length-drop total content) in
        elim (Bool-cases (length (chunk_of total result) == 0)) [
          | inl z ↦
              rw (q, z)
                (read_ends total result v
                  ∙ whole total v.inside
                      (inr (
                        omega (
                          arith,
                          size,
                          some_bytes free,
                          (==_iff (length (chunk_of total result)) 0).0 z,
                        )))
                      (omega (arith, v.room, v.limited)))
          | inr z ↦
              rw (q, z)
                (read_loop_lem fuel (total + length (chunk_of total result))
                  (read_step max_size total (chunk_of total result) result)
                  (step-IsRead total result v free)
                  (ground (arith, f, z, ==_iff (length (chunk_of total result)) 0)))
        ]
  ]

  -- With a limit of 4096 bytes or more, `async_read_all` gives the bytes of the file up to the
  -- limit, all of them if it is not longer, whatever each read gives, if each gives a piece of the
  -- file from its offset on, of a byte at least where there is one.
  pub async_read_all_lem : 4096 ≤ max_size → async_read_all kernel max_size ≡ take max_size content
  unfolding async_read_all
  async_read_all_lem h =
      read_loop_lem (max_size + 1) 0 (replicate 4096 0)
        (record {
          front = refl;
          inside = omega arith;
          room = omega arith;
          limited = omega (arith, length-replicate {A = ℕ} 4096 0, h);
          full = λ l. absurd (omega (arith, length-replicate {A = ℕ} 4096 0, l));
        })
        (omega arith)
