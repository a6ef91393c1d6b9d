-- ===== src/Rpc/LoadBalancer/Cycle.antt =====
-- rpc/loadbalance/load_balancer.hpp: walking a list with a counter that wraps, which is what
-- `current_.fetch_add(1) % size()` does. No code is modelled here.
use native.Mathlib.Nat.{mod-lt, div-add-mod, suc-mod, mod-eq_of_lt, mul-mod_right}
use cpp20_coroutine_io_uring.Common.{
  ℕ, zero, suc, ◌+◌, ◌-◌, ◌*◌, ◌/◌, ◌%◌, ◌^◌, ◌<◌, ◌≤◌, ◌≡◌, refl, sym, ap, ap₂, ◌∙◌, List, [], ◌∷◌,
  ◌++◌, map, Option, some, arith, length, get_elem?, take, drop, take_all, length-drop,
}

next_mod : (n c k : ℕ) → c % n + suc (suc k) ≤ n → (c + 1) % n ≡ suc (c % n)
next_mod n c k h =
    let whole : c + 1 ≡ suc c = omega arith in rw (whole, suc-mod c n) (mod-eq_of_lt (omega arith))

end_mod : (n c : ℕ) → 0 < n → (c + (n - c % n)) % n ≡ 0
end_mod n c h =
    let whole : c + (n - c % n) ≡ n * (c / n + 1) =
      rounds (c / n) (c % n) (div-add-mod c n) (mod-lt c h) in
    rw whole (mul-mod_right n (c / n + 1))
  where
    rounds : (q r : ℕ) → n * q + r ≡ c → r < n → c + (n - r) ≡ n * (q + 1)
    rounds q r e l = grind arith

module _ {ℓ} {A : Type ℓ} where
  -- The elements that `k` steps of a counter point at.
  abbrev pub picks : ℕ → ℕ → List A → List (Option A)
  picks zero c xs = []
  picks (suc k) c xs = get_elem? xs (c % length xs) ∷ picks k ((c + 1) % 2 ^ 64) xs

  pub picks-append :
      (a b c : ℕ) (xs : List A)
      → c + a < 2 ^ 64
      → picks (a + b) c xs ≡ picks a c xs ++ picks b (c + a) xs
  picks-append zero b c xs h =
      let left : 0 + b ≡ b = omega arith in
      let right : c + 0 ≡ c = omega arith in rw (left, right) refl
  picks-append (suc a) b c xs h =
      let step : (c + 1) % 2 ^ 64 ≡ c + 1 = omega arith in
      let sum : c + 1 + a ≡ c + suc a = omega arith in
      let whole : suc a + b ≡ suc (a + b) = omega arith in
      rw (whole, step)
        (ap (◌∷◌ (get_elem? xs (c % length xs)))
          (picks-append a b (c + 1) xs (omega arith) ∙ rw sum refl))

  pub take-suc-drop :
      (k r : ℕ) (xs : List A)
      → r < length xs
      → map some (take (suc k) (drop r xs)) ≡ get_elem? xs r ∷ map some (take k (drop (suc r) xs))
  take-suc-drop k r [] h = absurd (omega arith)
  take-suc-drop k zero (x ∷ xs) h = refl
  take-suc-drop k (suc r) (x ∷ xs) h = take-suc-drop k r xs (omega arith)

  -- Steps that do not reach the end of the list.
  pub picks-take :
      (k c : ℕ) (xs : List A)
      → c + k < 2 ^ 64
      → c % length xs + k ≤ length xs
      → picks k c xs ≡ map some (take k (drop (c % length xs) xs))
  picks-take zero c xs h r = refl
  picks-take (suc zero) c xs h r = sym (take-suc-drop 0 (c % length xs) xs (omega arith))
  picks-take (suc (suc k)) c xs h r =
      let step : (c + 1) % 2 ^ 64 ≡ c + 1 = omega arith in
      let next = next_mod (length xs) c k r in
      rw (step, take-suc-drop (suc k) (c % length xs) xs (omega arith))
        (ap (◌∷◌ (get_elem? xs (c % length xs)))
          (picks-take (suc k) (c + 1) xs (omega arith) (omega arith) ∙ rw next refl))

  -- As many steps as the list is long visit every place once, from where the counter stands.
  pub picks_round :
      (c : ℕ) (xs : List A)
      → 0 < length xs
      → c + length xs < 2 ^ 64
      → picks (length xs) c xs
        ≡ map some (drop (c % length xs) xs) ++ map some (take (c % length xs) xs)
  picks_round c xs some_place fits =
      let inside : c % length xs < length xs = mod-lt c some_place in
      let split : length xs - c % length xs + c % length xs ≡ length xs = omega arith in
      let start : (c + (length xs - c % length xs)) % length xs ≡ 0 =
        end_mod (length xs) c some_place in
      ap (λ n. picks n c xs) (sym split)
      ∙ picks-append (length xs - c % length xs) (c % length xs) c xs (omega arith)
      ∙ ap₂ ◌++◌
          (picks-take (length xs - c % length xs) c xs (omega arith) (omega arith)
            ∙ ap (map some) (
                take_all _ (drop (c % length xs) xs)
                  (omega (arith, length-drop (c % length xs) xs))))
          (picks-take (c % length xs) (c + (length xs - c % length xs)) xs (omega arith)
              (omega arith)
            ∙ ap (λ n. map some (take (c % length xs) (drop n xs))) start)

  -- A round from the start.
  pub picks_all :
      (xs : List A) → 0 < length xs → length xs < 2 ^ 64 → picks (length xs) 0 xs ≡ map some xs
  picks_all xs some_place fits =
      let start : 0 % length xs ≡ 0 = mod-eq_of_lt some_place in
      picks-take (length xs) 0 xs (omega arith) (omega arith)
      ∙ (rw start (ap (map some) (take_all (length xs) xs (omega arith))))
