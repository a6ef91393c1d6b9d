-- ===== src/Net/Connection/Transfer.antt =====
-- net/connection.hpp: the loops that write a whole buffer and read a line, and how they end.
use cpp20_coroutine_io_uring.Common.{
  ℕ, zero, suc, ◌+◌, ◌-◌, ◌≤◌, ◌<◌, ◌≡◌, ◌≢◌, refl, sym, ap, ◌∙◌, ◌⊎◌, inl, inr, true, false, ◌&&◌,
  [], ◌∷◌, ◌++◌, Option, Bytes, ℤ, negsuc, pos, is_positive, to_size, length, take, drop, ltb, ◌==◌,
  arith, All, Bool-cases, Option-cases, take_all, drop-drop,
}
use cpp20_coroutine_io_uring.Net.Connection.{
  Connection, is_connected, close, async_connect, async_read, async_write, write_loop,
  async_write_all, async_read_line,
}

close_connected : (c : Connection) → is_connected (close c) ≡ false
unfolding close
close_connected c = ground arith

async_write_cases :
    (n : ℤ) (c : Connection)
    → is_connected c ≡ true
    → ((is_positive n ≡ true) × (async_write n c ≡ (n, c)))
      ⊎ ((is_positive n ≡ false) × (async_write n c ≡ (n, close c)))
unfolding async_write
async_write_cases n c h = elim (Bool-cases (is_positive n)) [
  | inl p ↦ inl (p, rw (h, p) refl)
  | inr p ↦ inr (p, rw (h, p) refl)
]

take-take-drop : (n m : ℕ) (xs : Bytes) → take n xs ++ take m (drop n xs) ≡ take (n + m) xs
take-take-drop zero m xs = let none_taken : 0 + m ≡ m = omega arith in rw none_taken refl
take-take-drop (suc n) m [] =
    take_all m [] (omega arith) ∙ sym (take_all (suc n + m) [] (omega arith))
take-take-drop (suc n) m (x ∷ xs) =
    let step : suc n + m ≡ suc (n + m) = omega arith in rw step (ap (◌∷◌ x) (take-take-drop n m xs))

-- What a run of the loop from `written` on has done: where it stops, and what it has sent.
record IsRun (data_bytes : Bytes) (written total : ℕ) (c : Connection) (sent : Bytes) : Type 0 where
  pub forward : written ≤ total
  pub inside : total ≤ length data_bytes
  pub in_order : sent ≡ take (total - written) (drop written data_bytes)
  pub ended : (total ≡ length data_bytes) ⊎ (is_connected c ≡ false)

stop-IsRun :
    (data_bytes : Bytes) (written : ℕ) (c : Connection)
    → written ≤ length data_bytes
    → (written ≡ length data_bytes) ⊎ (is_connected c ≡ false)
    → IsRun data_bytes written written c []
stop-IsRun data_bytes written c h end = record {
  forward = omega arith;
  inside = h;
  in_order = let nothing : written - written ≡ 0 = omega arith in rw nothing refl;
  ended = end;
}

more-IsRun :
    (data_bytes : Bytes) (n written total : ℕ) (c : Connection) (sent : Bytes)
    → IsRun data_bytes (written + n) total c sent
    → IsRun data_bytes written total c (take n (drop written data_bytes) ++ sent)
more-IsRun data_bytes n written total c sent r = record {
  forward = let part = r.forward in omega arith;
  inside = r.inside;
  in_order =
      let part = r.forward in
      let sum : n + (total - (written + n)) ≡ total - written = omega arith in
      ap (◌++◌ (take n (drop written data_bytes))) (
        r.in_order
        ∙ ap (take (total - (written + n)))
            (sym (drop-drop n written (written + n) data_bytes refl)))
      ∙ take-take-drop n (total - (written + n)) (drop written data_bytes)
      ∙ (rw sum refl);
  ended = r.ended;
}

to_size_lt : (n : ℤ) → is_positive n ≡ true → 0 < to_size n
to_size_lt (pos n) h = ground arith
to_size_lt (negsuc n) h = absurd (ground arith)

module _ (send : ℕ → ℕ → ℤ) (data_bytes : Bytes)
    (send_le : (written room : ℕ) → to_size (send written room) ≤ room) where
  -- The three ways in which a turn of the loop goes.
  write_loop_stop :
      (fuel written : ℕ) (c : Connection)
      → ltb written (length data_bytes) && is_connected c ≡ false
      → write_loop send data_bytes (suc fuel) written c ≡ (written, c, [])
  unfolding write_loop
  write_loop_stop fuel written c stop = rw (stop, write_loop) refl

  write_loop_fail :
      (fuel written : ℕ) (c : Connection)
      → ltb written (length data_bytes) && is_connected c ≡ true
      → is_positive (send written (length data_bytes - written)) ≡ false
      → async_write (send written (length data_bytes - written)) c
        ≡ (send written (length data_bytes - written), close c)
      → write_loop send data_bytes (suc fuel) written c ≡ (written, close c, [])
  unfolding write_loop
  write_loop_fail fuel written c go p e = rw (go, e, p, e, write_loop) refl

  write_loop_step :
      (fuel written n : ℕ) (c : Connection)
      → ltb written (length data_bytes) && is_connected c ≡ true
      → is_positive (send written (length data_bytes - written)) ≡ true
      → async_write (send written (length data_bytes - written)) c
        ≡ (send written (length data_bytes - written), c)
      → to_size (send written (length data_bytes - written)) ≡ n
      → write_loop send data_bytes (suc fuel) written c ≡ (
        (write_loop send data_bytes fuel (written + n) c).0,
        (write_loop send data_bytes fuel (written + n) c).1,
        take n (drop written data_bytes) ++ (write_loop send data_bytes fuel (written + n) c).2,
      )
  unfolding write_loop
  write_loop_step fuel written n c go p e q = rw (← q, go, e, p, e, write_loop) refl

  write_loop_lem :
      (fuel written : ℕ) (c : Connection)
      → written ≤ length data_bytes
      → length data_bytes ≤ written + fuel
      → IsRun data_bytes written
          (write_loop send data_bytes fuel written c).0
          (write_loop send data_bytes fuel written c).1
          (write_loop send data_bytes fuel written c).2
  write_loop_lem zero written c h enough =
      unfold write_loop in (stop-IsRun data_bytes written c h (inl (omega arith)))
  write_loop_lem (suc fuel) written c h enough =
      let n : ℕ = to_size (send written (length data_bytes - written)) in
      elim (Bool-cases (ltb written (length data_bytes) && is_connected c)) [
        | inr stop ↦
            rw (write_loop_stop fuel written c stop)
              (stop-IsRun data_bytes written c h (ground arith))
        | inl go ↦
            elim (async_write_cases (send written (length data_bytes - written)) c (ground arith)) [
              | inr (p, e) ↦
                  rw (write_loop_fail fuel written c go p e)
                    (stop-IsRun data_bytes written (close c) h (inr (close_connected c)))
              | inl (p, e) ↦
                  let some_sent = to_size_lt (send written (length data_bytes - written)) p in
                  let few = send_le written (length data_bytes - written) in
                  let before : written < length data_bytes = ground arith in
                  rw (write_loop_step fuel written n c go p e refl) (
                    more-IsRun data_bytes n written _ _ _
                      (write_loop_lem fuel (written + n) c (omega arith) (omega arith)))
            ]
      ]

-- If the kernel never takes more than it is offered, `async_write_all` has sent a first part of the
-- data, in order and each byte once, of the length that it returns; that part is all of the data
-- unless the connection is no longer connected. It returns however the kernel answers.
pub async_write_all_lem :
    (send : ℕ → ℕ → ℤ) (data_bytes : Bytes) (c : Connection)
    → ((written room : ℕ) → to_size (send written room) ≤ room)
    → ((async_write_all send data_bytes c).0 ≤ length data_bytes)
      × ((async_write_all send data_bytes c).2
          ≡ take (async_write_all send data_bytes c).0 data_bytes)
      × (((async_write_all send data_bytes c).0 ≡ length data_bytes)
          ⊎ (is_connected (async_write_all send data_bytes c).1 ≡ false))
unfolding async_write_all
async_write_all_lem send data_bytes c send_le =
    let run =
      write_loop_lem send data_bytes send_le (length data_bytes) 0 c (omega arith) (omega arith) in
    let whole : (write_loop send data_bytes (length data_bytes) 0 c).0 - 0
        ≡ (write_loop send data_bytes (length data_bytes) 0 c).0 =
      omega arith in
    (run.inside, run.in_order ∙ (rw whole refl), run.ended)

-- On a connection, `async_read_line` returns the bytes before the first line feed and leaves those
-- after it to be read.
pub async_read_line_feed :
    (end : ℤ) (line rest : Bytes) (c : Connection)
    → is_connected c ≡ true
    → All (λ ch. ch ≢ 10) line
    → async_read_line end (line ++ 10 ∷ rest) c ≡ (line, rest, c)
unfolding async_read_line
async_read_line_feed end [] rest c h no_feed = rw h refl
async_read_line_feed end (ch ∷ line) rest c h no_feed =
    let other : (ch == 10) ≡ false = let ne = no_feed.0 in ground arith in
    rw (async_read_line_feed end line rest c h no_feed.1, h, other) refl

-- If the peer sends no line feed and then ends the stream or fails, `async_read_line` returns all
-- that was sent as the line, and closes the connection.
pub async_read_line_end :
    (end : ℤ) (line : Bytes) (c : Connection)
    → is_connected c ≡ true
    → is_positive end ≡ false
    → All (λ ch. ch ≢ 10) line
    → async_read_line end line c ≡ (line, [], close c)
unfolding async_read_line async_read
async_read_line_end end [] c h stop no_feed = rw (h, stop) refl
async_read_line_end end (ch ∷ line) c h stop no_feed =
    let other : (ch == 10) ≡ false = let ne = no_feed.0 in ground arith in
    rw (async_read_line_end end line c h stop no_feed.1, h, other) refl

-- A connect that fails, on a new socket or on one that is open, leaves the descriptor open: closing
-- the connection afterwards changes nothing, so the descriptor is never closed.
pub close-async_connect_failed :
    (socket : Option ℕ) (errno : ℕ) (c : Connection)
    → is_connected c ≡ false
    → (close (async_connect socket (negsuc errno) c).1 ≡ (async_connect socket (negsuc errno) c).1)
      × ((async_connect socket (negsuc errno) c).0 ≡ false)
unfolding close async_connect
close-async_connect_failed socket errno c h = elim (Option-cases c.fd) [
  | inl e ↦ elim (Option-cases socket) [
    | inl q ↦ (ground (arith, e, q), ground (arith, e, q))
    | inr (n, q) ↦ (ground (arith, e, q), ground (arith, e, q))
  ]
  | inr (n, e) ↦ (ground (arith, e), ground (arith, e))
]
