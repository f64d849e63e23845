-- ===== src/Driver/Wait/Timing.antt =====
-- Waiting with a timeout ends, if the driver's functions return and the clock goes on.
use grove_lo_ra_433mhz_and.Prelude.{
  ℕ, zero, suc, ◌+◌, ◌*◌, ◌-◌, ◌/◌, ◌≤◌, ◌<◌, ◌≡◌, refl, ap, ◌∙◌, arith, Bool, true, false,
  Bool-cases, u32, inl, inr, sub32, ltb,
}
use grove_lo_ra_433mhz_and.Prelude.Commands.{Run, Cmd, done}
use grove_lo_ra_433mhz_and.Driver.{Device, is_tx}
use grove_lo_ra_433mhz_and.Driver.Wait.{
  wait_available_timeout_loop, wait_available_timeout, wait_packet_sent_timeout_loop,
  wait_packet_sent_timeout, wait_packet_sent,
}

-- The driver's functions always return. Time is in microseconds: a reading of the clock takes some,
-- and less than a second, and `available` takes at most `poll_time`.
pub record Live {C : Type 0} (available : Cmd (Device C) Bool) (millis : Cmd (Device C) ℕ)
    : Type 0 where
  pub now : Device C → ℕ
  pub poll_time : ℕ
  pub poll_bound : poll_time ≤ 3600000000
  pub reads :
      (d : Device C)
      → (t : Device C) × (millis d ≡ done (u32 (now d / 1000)) t)
        × (now d < now t)
        × (now t < now d + 1000000)
  pub polls :
      (d : Device C)
      → (b : Bool) × (t : Device C) × (available d ≡ done b t)
        × (now d ≤ now t)
        × (now t ≤ now d + poll_time)

module _ {C : Type 0} {available : Cmd (Device C) Bool} {millis : Cmd (Device C) ℕ}
    (l : Live available millis) where
  open l use {now, poll_time, poll_bound, reads, polls}

  -- How a wait may end that began at the time `start`: by `limit` it returns, true with `Q`, or false
  -- when the milliseconds of the timeout have gone by.
  abbrev pub EndsBy :
      (start timeout limit : ℕ) (Q : Device C → Type 0) → Run (Device C) Bool → Type 0
  EndsBy start timeout limit Q r =
      (b : Bool) × (t : Device C) × (r ≡ done b t)
      × (start ≤ now t)
      × (now t ≤ limit)
      × (b ≡ true → Q t)
      × (b ≡ false → start / 1000 + timeout ≤ now t / 1000)

  -- `available` has just answered true.
  abbrev pub HasCome : Device C → Type 0
  HasCome t = (d : Device C) × (available d ≡ done true t)

  -- No transmission is going on.
  abbrev pub HasEnded : Device C → Type 0
  HasEnded t = is_tx t.driver.mode ≡ false

  elapsed :
      (n₀ n : ℕ)
      → n₀ ≤ n
      → n ≤ n₀ + 4000000000
      → sub32 (u32 (n / 1000)) (u32 (n₀ / 1000)) ≡ n / 1000 - n₀ / 1000
  elapsed n₀ n h k = omega arith

  loop-EndsBy :
      (fuel timeout n₀ : ℕ) (d : Device C)
      → timeout < 65536
      → n₀ ≤ now d
      → now d ≤ n₀ + timeout * 1000 + poll_time + 2001000
      → 1 ≤ fuel
      → n₀ + timeout * 1000 + 1002 ≤ now d + fuel
      → EndsBy n₀ timeout
          (n₀ + timeout * 1000 + poll_time + 4001000)
          HasCome
          (wait_available_timeout_loop available millis fuel (u32 (n₀ / 1000)) timeout d)
  unfolding wait_available_timeout_loop
  loop-EndsBy zero timeout n₀ d s h k f g = absurd (omega arith)
  loop-EndsBy (suc fuel) timeout n₀ d s h k f g =
      let (t, e, after, before) = reads d in
      let same = elapsed n₀ (now d) h (omega (arith, poll_bound)) in
      rw (e, same)
        (elim (Bool-cases (ltb (now d / 1000 - n₀ / 1000) timeout)) [
          | inr q ↦
              let late : timeout ≤ now d / 1000 - n₀ / 1000 = ground arith in
              (false, t, rw q refl, omega arith, omega arith, λ p. cc, λ _. omega arith)
          | inl q ↦
              let early : now d / 1000 - n₀ / 1000 < timeout = ground arith in
              let (b, u, e', after', before') = polls t in
              elim (Bool-cases b) [
                | inl p ↦ (
                  true,
                  u,
                  rw (q, e', p) refl,
                  omega arith,
                  omega arith,
                  λ _. (t, e' ∙ ap (λ x. done x u) p),
                  λ p. cc,
                )
                | inr p ↦
                    rw (q, e', p)
                      (loop-EndsBy fuel timeout n₀ u s (omega arith) (omega arith) (omega arith)
                        (omega arith))
              ]
        ])

  -- With a round for each microsecond of the timeout, `wait_available_timeout` always returns, by the
  -- time that the last call of `available` may take after the time is out, and four seconds: true if
  -- `available` has answered so, and false when the time is out.
  pub wait_available_timeout-EndsBy :
      (fuel timeout : ℕ) (d : Device C)
      → timeout < 65536
      → timeout * 1000 + 1002 ≤ fuel
      → EndsBy
          (now d)
          timeout
          (now d + timeout * 1000 + poll_time + 4001000)
          HasCome
          (wait_available_timeout available millis fuel timeout d)
  unfolding wait_available_timeout
  wait_available_timeout-EndsBy fuel timeout d s f =
      let (t, e, after, before) = reads d in
      rw e (
        loop-EndsBy fuel timeout (now d) t s (omega arith) (omega arith) (omega arith)
          (omega arith))

  sent_loop-EndsBy :
      (fuel timeout n₀ : ℕ) (d : Device C)
      → timeout < 65536
      → n₀ ≤ now d
      → now d ≤ n₀ + timeout * 1000 + poll_time + 2001000
      → 1 ≤ fuel
      → n₀ + timeout * 1000 + 1002 ≤ now d + fuel
      → EndsBy n₀ timeout
          (n₀ + timeout * 1000 + poll_time + 4001000)
          HasEnded
          (wait_packet_sent_timeout_loop available millis fuel (u32 (n₀ / 1000)) timeout d)
  unfolding wait_packet_sent_timeout_loop
  sent_loop-EndsBy zero timeout n₀ d s h k f g = absurd (omega arith)
  sent_loop-EndsBy (suc fuel) timeout n₀ d s h k f g =
      let (t, e, after, before) = reads d in
      let same = elapsed n₀ (now d) h (omega (arith, poll_bound)) in
      rw (e, same)
        (elim (Bool-cases (ltb (now d / 1000 - n₀ / 1000) timeout)) [
          | inr q ↦
              let late : timeout ≤ now d / 1000 - n₀ / 1000 = ground arith in
              (false, t, rw q refl, omega arith, omega arith, λ p. cc, λ _. omega arith)
          | inl q ↦
              let early : now d / 1000 - n₀ / 1000 < timeout = ground arith in
              elim (Bool-cases (is_tx t.driver.mode)) [
                | inr over ↦
                    (true, t, rw (q, over) refl, omega arith, omega arith, λ _. over, λ p. cc)
                | inl sending ↦
                    let (b, u, e', after', before') = polls t in
                    rw (q, sending, e')
                      (sent_loop-EndsBy fuel timeout n₀ u s (omega arith) (omega arith)
                        (omega arith) (omega arith))
              ]
        ])

  -- The same of `wait_packet_sent_timeout`, which returns true if no transmission is going on.
  pub wait_packet_sent_timeout-EndsBy :
      (fuel timeout : ℕ) (d : Device C)
      → timeout < 65536
      → timeout * 1000 + 1002 ≤ fuel
      → EndsBy
          (now d)
          timeout
          (now d + timeout * 1000 + poll_time + 4001000)
          HasEnded
          (wait_packet_sent_timeout available millis fuel timeout d)
  unfolding wait_packet_sent_timeout
  wait_packet_sent_timeout-EndsBy fuel timeout d s f =
      let (t, e, after, before) = reads d in
      rw e (
        sent_loop-EndsBy fuel timeout (now d) t s (omega arith) (omega arith) (omega arith)
          (omega arith))

-- Nothing is waited for where no transmission is going on.
pub wait_packet_sent-over :
    {C : Type 0} (available : Cmd (Device C) Bool) (millis : Cmd (Device C) ℕ) (fuel : ℕ)
    (d : Device C)
    → 0 < fuel
    → is_tx d.driver.mode ≡ false
    → wait_packet_sent available millis fuel d ≡ done true d
unfolding wait_packet_sent
wait_packet_sent-over available millis zero d h q = absurd (omega arith)
wait_packet_sent-over available millis (suc fuel) d h q = rw q refl
