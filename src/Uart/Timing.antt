-- ===== src/Uart/Timing.antt =====
-- The reads of the register protocol end, whatever comes over the port.
use grove_lo_ra_433mhz_and.Prelude.{
  ℕ, zero, suc, refl, ◌+◌, ◌*◌, ◌-◌, ◌/◌, ◌≤◌, ◌<◌, ◌≡◌, List, [], ◌∷◌, ◌++◌, length, arith,
  bit_and, Bool-cases, u32, inl, inr, sub32, ltb, leb, ◌==◌, u8, length-append, if◌then◌else◌,
}
use grove_lo_ra_433mhz_and.Prelude.Commands.{Run, Cmd, pure, done}
use grove_lo_ra_433mhz_and.Uart.{Arduino, rx_loop, burst_read, default_timeout}

-- The clock behind `millis`: it counts microseconds, never runs back, and `millis` is its
-- 32-bit count of milliseconds, of which the reading itself takes some time. No call of the core
-- takes a second.
pub record Clock {W : Type 0} (a : Arduino W) : Type 0 where
  pub now : W → ℕ
  pub millis_value : (w : W) → (a.millis w).0 ≡ u32 (now w / 1000)
  pub millis_time : (w : W) → (now w < now (a.millis w).1) × (now (a.millis w).1 < now w + 1000000)
  pub available_time :
      (w : W)
      → (now w ≤ now (a.serial_available w).1) × (now (a.serial_available w).1 < now w + 1000000)
  pub read_time :
      (w : W) → (now w ≤ now (a.serial_read w).1) × (now (a.serial_read w).1 < now w + 1000000)
  pub write_time :
      (b : ℕ) (w : W)
      → (now w ≤ now (a.serial_write b w)) × (now (a.serial_write b w) < now w + 1000000)

-- Enough rounds for the loop of `uartRx`, which waits three seconds.
abbrev pub rx_rounds : ℕ
rx_rounds = 3001002

-- For a clock that has gone on less than a minute since `n₀`, the difference of two readings is
-- exact, across the rollover too.
elapsed :
    (n₀ n : ℕ)
    → n₀ ≤ n
    → n ≤ n₀ + 60000000
    → sub32 (u32 (n / 1000)) (u32 (n₀ / 1000)) ≡ n / 1000 - n₀ / 1000
elapsed n₀ n h k = omega arith

-- How many octets the loop of `uartRx` writes at most: its test comes after the first.
abbrev pub at_least_one : ℕ → ℕ
at_least_one zero = 1
at_least_one (suc n) = suc n

module _ {W : Type 0} {a : Arduino W} (c : Clock a) where
  open c use {now, millis_value, millis_time, available_time, read_time, write_time}

  -- How a call of `uartRx` ends that began at the time `first`, or by `n₀`.
  pub data Reads (len first n₀ : ℕ) : Run W (List ℕ) → Type 0 where
    reads :
        {octets : List ℕ} {w : W}
        → length octets ≤ len
        → first ≤ now w
        → now w ≤ n₀ + 10000000
        → Reads len first n₀ (done octets w)

  later :
      {len first second n m : ℕ} {r : Run W (List ℕ)}
      → first ≤ second
      → n ≤ m
      → Reads len second n r
      → Reads len first m r
  later g h (reads l f t) = reads l (omega arith) (omega arith)

  -- The test of the time, at `v`, with `next` for the rest of the loop.
  check-Reads :
      (len n₀ : ℕ) (received : List ℕ) (v : W) (next : Cmd W (List ℕ))
      → n₀ ≤ now v
      → now v ≤ n₀ + 7000000
      → length received ≤ len
      → (now v ≤ n₀ + 3001000 → Reads len n₀ n₀ (next (a.millis v).1))
      → Reads len n₀ n₀ (
          (if ltb (1000 * default_timeout) (sub32 (a.millis v).0 (u32 (n₀ / 1000)))
              then pure received
              else next)
            (a.millis v).1)
  check-Reads len n₀ received v next h k m rest =
      rw (millis_value, elapsed n₀ (now v) h (omega arith))
        (elim (Bool-cases (ltb 3000 (now v / 1000 - n₀ / 1000))) [
          | inl over ↦
              rw over (reads m (omega (arith, millis_time v)) (omega (arith, millis_time v)))
          | inr not_yet ↦ rw not_yet (rest (ground (arith)))
        ])

  rx_loop-Reads :
      (fuel len n₀ : ℕ) (received : List ℕ) (w : W)
      → n₀ ≤ now w
      → now w ≤ n₀ + 4001001
      → 0 < fuel
      → n₀ + 3001001 < fuel + now w
      → length received < len
      → Reads len n₀ n₀ (rx_loop a fuel len (u32 (n₀ / 1000)) received w)
  unfolding rx_loop
  rx_loop-Reads zero len n₀ received w h k p q m = absurd (omega arith)
  rx_loop-Reads (suc fuel) len n₀ received w h k p q m =
      let v = (a.serial_available w).1 in
      let t = available_time w in
      elim (Bool-cases ((a.serial_available w).0 == 0)) [
        | inl none_yet ↦ rw none_yet (
            check-Reads len n₀ received v _ (omega arith) (omega arith) (omega arith) λ soon.
              rx_loop-Reads fuel len n₀ received (a.millis v).1 (omega (arith, millis_time v))
                (omega (arith, millis_time v)) (omega (arith, millis_time v))
                (omega (arith, millis_time v)) m)
        | inr some_there ↦ rw some_there (
            let w' = (a.serial_read v).1 in
            let received' = received ++ u8 (a.serial_read v).0 ∷ [] in
            let t' = read_time v in
            let longer : length received' ≡ length received + 1 =
              omega (arith, length-append received (u8 (a.serial_read v).0 ∷ [])) in
            elim (Bool-cases (leb len (length received'))) [
              | inl full ↦ rw full (reads (omega arith) (omega arith) (omega arith))
              | inr more ↦ rw more (
                  check-Reads len n₀ received' w' _ (omega arith) (omega arith) (omega arith)
                    λ soon.
                      rx_loop-Reads fuel len n₀ received' (a.millis w').1
                        (omega (arith, millis_time w')) (omega (arith, millis_time w'))
                        (omega (arith, millis_time w')) (omega (arith, millis_time w'))
                        (ground arith))
            ])
      ]

  -- Asked for no octet, the loop waits for one as well.
  rx_loop-nothing :
      (fuel start : ℕ) (w : W) → rx_loop a fuel 0 start [] w ≡ rx_loop a fuel 1 start [] w
  unfolding rx_loop
  rx_loop-nothing zero start w = refl
  rx_loop-nothing (suc fuel) start w = elim (Bool-cases ((a.serial_available w).0 == 0)) [
    | inl z ↦
        rw z
          (elim (Bool-cases
            (ltb (1000 * default_timeout) (sub32 (a.millis (a.serial_available w).1).0 start))) [
              | inl over ↦ rw over refl
              | inr more ↦ rw more (rx_loop-nothing fuel start _)
            ])
    | inr z ↦ rw z refl
  ]

  request-Reads :
      (fuel reg len n : ℕ) (w : W)
      → rx_rounds ≤ fuel
      → 0 < n
      → let w₃ = a.serial_write len (a.serial_write (bit_and reg 0x7f) (a.serial_write b'R' w)) in
        Reads n
          (now w)
          (now w + 3000000)
          (rx_loop a fuel n (u32 (now w₃ / 1000)) [] (a.millis w₃).1)
  request-Reads fuel reg len n w f p =
      let w₁ = a.serial_write b'R' w in
      let w₂ = a.serial_write (bit_and reg 0x7f) w₁ in
      let w₃ = a.serial_write len w₂ in
      let t₁ = write_time b'R' w in
      let t₂ = write_time (bit_and reg 0x7f) w₁ in
      let t₃ = write_time len w₂ in
      let t₄ = millis_time w₃ in
      later (omega arith) (omega arith) (
        rx_loop-Reads fuel n (now w₃) [] (a.millis w₃).1 (omega arith) (omega arith) (omega arith)
          (omega arith) p)

  -- With the rounds for three seconds of polling a burst read always returns, within thirteen
  -- seconds, whatever comes over the port. It writes no more octets than it was asked for, but one if
  -- it was asked for none.
  pub burst_read-Reads :
      (fuel reg len : ℕ) (w : W)
      → rx_rounds ≤ fuel
      → Reads (at_least_one len) (now w) (now w + 3000000) (burst_read a fuel reg len w)
  unfolding burst_read
  burst_read-Reads fuel reg zero w f =
      rw (millis_value, rx_loop-nothing) (request-Reads fuel reg 0 1 w f (omega arith))
  burst_read-Reads fuel reg (suc len) w f =
      rw millis_value (request-Reads fuel reg (suc len) (suc len) w f (omega arith))
