-- ===== src/Net/TcpClient/Reconnect.antt =====
-- net/tcp_client.hpp: `try_reconnect` and the transfers that call it, and what calls through a pool
-- leave of it.
use cpp20_coroutine_io_uring.Common.{
  ℕ, zero, suc, ◌+◌, ◌<◌, ◌≡◌, ◌⊎◌, inl, inr, refl, sym, subst, ap, ◌∙◌, true, false, Option, none,
  some, ℤ, negsuc, pos, is_positive, arith,
}
use cpp20_coroutine_io_uring.Net.Connection.{
  Connection, create, close, is_connected, async_connect, async_write,
}
use cpp20_coroutine_io_uring.Net.TcpClient.{
  TcpClient, connect_direct, reconnect_loop, try_reconnect, after_transfer, send_on, send,
}

-- An attempt succeeds: there is a socket, and the connect returns 0.
abbrev Succeeds : Option ℕ × ℤ → Type 0
Succeeds (socket, ret) = (fd : ℕ) × (socket ≡ some fd) × (ret ≡ pos 0)

-- The client has a connection that is connected.
abbrev pub IsUp : TcpClient → Type 0
IsUp c =
    (conn : Connection) × (c.connection ≡ some conn)
    × (is_connected conn ≡ true)
    × (c.connected ≡ true)

connect-IsUp :
    (fd : ℕ) (c : TcpClient)
    → ((connect_direct (some fd) (pos 0) c).0 ≡ true) × IsUp (connect_direct (some fd) (pos 0) c).1
unfolding connect_direct async_connect create
connect-IsUp fd c = (refl, ((async_connect none (pos 0) (create (some fd))).1, refl, refl, refl))

-- An attempt leaves the client connected, or says that it failed.
connect_cases :
    (socket : Option ℕ) (ret : ℤ) (c : TcpClient)
    → (((connect_direct socket ret c).0 ≡ true) × IsUp (connect_direct socket ret c).1)
      ⊎ ((connect_direct socket ret c).0 ≡ false)
unfolding connect_direct async_connect create
connect_cases none ret c = inr refl
connect_cases (some fd) (pos zero) c = inl (connect-IsUp fd c)
connect_cases (some fd) (pos (suc n)) c = inr refl
connect_cases (some fd) (negsuc n) c = inr refl

connect-Succeeds :
    (attempt : Option ℕ × ℤ) (c : TcpClient)
    → Succeeds attempt
    → ((connect_direct attempt.0 attempt.1 c).0 ≡ true)
      × IsUp (connect_direct attempt.0 attempt.1 c).1
connect-Succeeds attempt c (fd, e, f) = rw e rw f (connect-IsUp fd c)

reconnect_stops :
    (attempts : ℕ → Option ℕ × ℤ) (left i : ℕ) (c : TcpClient)
    → (connect_direct (attempts i).0 (attempts i).1 c).0 ≡ true
    → reconnect_loop attempts (suc left) i c ≡ connect_direct (attempts i).0 (attempts i).1 c
unfolding reconnect_loop
reconnect_stops attempts left i c e = rw e refl

reconnect_goes_on :
    (attempts : ℕ → Option ℕ × ℤ) (left i : ℕ) (c : TcpClient)
    → (connect_direct (attempts i).0 (attempts i).1 c).0 ≡ false
    → reconnect_loop attempts (suc left) i c
      ≡ reconnect_loop attempts left (i + 1) (connect_direct (attempts i).0 (attempts i).1 c).1
unfolding reconnect_loop
reconnect_goes_on attempts left i c e = rw e refl

reconnect_loop_lem :
    (attempts : ℕ → Option ℕ × ℤ) (left i j : ℕ) (c : TcpClient)
    → j < left
    → Succeeds (attempts (i + j))
    → ((reconnect_loop attempts left i c).0 ≡ true) × IsUp (reconnect_loop attempts left i c).1
reconnect_loop_lem attempts zero i j c l h = absurd (omega arith)
reconnect_loop_lem attempts (suc left) i zero c l h =
    let here : i + 0 ≡ i = omega arith in
    let (e, up) = connect-Succeeds (attempts i) c (subst (λ k. Succeeds (attempts k)) here h) in
    rw (reconnect_stops attempts left i c e) (e, up)
reconnect_loop_lem attempts (suc left) i (suc j) c l h =
    let there : i + suc j ≡ i + 1 + j = omega arith in
    elim (connect_cases (attempts i).0 (attempts i).1 c) [
      | inl (e, up) ↦ rw (reconnect_stops attempts left i c e) (e, up)
      | inr e ↦ rw (reconnect_goes_on attempts left i c e) (
          reconnect_loop_lem attempts left (i + 1) j
            (connect_direct (attempts i).0 (attempts i).1 c).1 (omega arith)
            (subst (λ k. Succeeds (attempts k)) there h))
    ]

-- If one of the attempts that are allowed succeeds, then `try_reconnect` says so, and the client has
-- a connection that is connected.
pub try_reconnect_lem :
    (attempts : ℕ → Option ℕ × ℤ) (j : ℕ) (c : TcpClient)
    → j < c.max_reconnect_attempts
    → Succeeds (attempts j)
    → ((try_reconnect attempts c).0 ≡ true) × IsUp (try_reconnect attempts c).1
unfolding try_reconnect
try_reconnect_lem attempts j c l h =
    let here : 0 + j ≡ j = omega arith in
    reconnect_loop_lem attempts c.max_reconnect_attempts 0 j c l
      (subst (λ k. Succeeds (attempts k)) (sym here) h)

send_on_failed :
    (attempts : ℕ → Option ℕ × ℤ) (n : ℤ) (conn : Connection) (c : TcpClient)
    → c.connected ≡ true
    → c.auto_reconnect ≡ true
    → is_positive n ≡ false
    → is_connected conn ≡ true
    → send_on attempts n (some conn) c
      ≡ (n, (try_reconnect attempts (record c { connection = some (close conn) })).1)
unfolding send_on async_write after_transfer
send_on_failed attempts n conn c up auto failed alive = simp (up, auto, failed, alive)

-- A failed send on a connected client that may reconnect is reported as failed, and leaves the client
-- connected again if one of the attempts that are allowed succeeds.
pub send-try_reconnect :
    (attempts : ℕ → Option ℕ × ℤ) (n : ℤ) (j : ℕ) (conn : Connection) (c : TcpClient)
    → c.connection ≡ some conn
    → c.connected ≡ true
    → c.auto_reconnect ≡ true
    → is_positive n ≡ false
    → is_connected conn ≡ true
    → j < c.max_reconnect_attempts
    → Succeeds (attempts j)
    → ((send attempts n c).0 ≡ n) × IsUp (send attempts n c).1
unfolding send
send-try_reconnect attempts n j conn c e up auto failed alive l h =
    let sent : send_on attempts n c.connection c
        ≡ (n, (try_reconnect attempts (record c { connection = some (close conn) })).1) =
      ap (λ o. send_on attempts n o c) e ∙ send_on_failed attempts n conn c up auto failed alive in
    (
      ap (λ r. r.0) sent,
      subst (λ r. IsUp r.1) (sym sent)
          (try_reconnect_lem attempts j (record c { connection = some (close conn) }) l h).1,
    )
