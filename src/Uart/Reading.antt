-- ===== src/Uart/Reading.antt =====
-- What the reads of the register protocol return: the octets that come by the port, in their order.
use grove_lo_ra_433mhz_and.Prelude.{
  ℕ, zero, suc, ◌*◌, ◌≤◌, ◌<◌, ◌≡◌, refl, sym, ◌∙◌, ◌⊎◌, inl, inr, List, [], ◌∷◌, ◌++◌, length,
  take, drop, arith, bit_and, Bool-cases, false, sub32, ltb, leb, ◌==◌, u8, if◌then◌else◌,
}
use mathlib.Core.List.{append_assoc, append-nil}
use grove_lo_ra_433mhz_and.Prelude.{length-take}
use grove_lo_ra_433mhz_and.Prelude.Commands.{Run, Cmd, pure, done}
use grove_lo_ra_433mhz_and.Uart.{Arduino, rx_loop, burst_read, default_timeout}
use grove_lo_ra_433mhz_and.Uart.Timing.{
  at_least_one, Clock, Reads, reads, rx_rounds, burst_read-Reads,
}

-- The port after a read frame was written to it.
abbrev pub request : {W : Type 0} → Arduino W → (reg len : ℕ) → W → W
request a reg len w = a.serial_write len (a.serial_write (bit_and reg 0x7f) (a.serial_write b'R' w))

-- The octets that are still to come by the port, in their order. Where `available` counts any, `read`
-- drained the first of them.
pub record Inbox {W : Type 0} (a : Arduino W) : Type 0 where
  pub coming : W → List ℕ
  pub available_coming :
      (w : W)
      → ((a.serial_available w).0 ≡ 0) × (coming (a.serial_available w).1 ≡ coming w)
        ⊎ ((b : ℕ) × (rest : List ℕ) × (0 < (a.serial_available w).0)
            × (coming w ≡ b ∷ rest)
            × (b < 256)
            × ((a.serial_read (a.serial_available w).1).0 ≡ b)
            × (coming (a.serial_read (a.serial_available w).1).1 ≡ rest))
  pub millis_coming : (w : W) → coming (a.millis w).1 ≡ coming w

module _ {W : Type 0} {a : Arduino W} (i : Inbox a) where
  open i use {coming, available_coming, millis_coming}

  -- A run that has `received` and returns with the first octets to come behind it: the others are still to
  -- come.
  pub data Drains (received to_come : List ℕ) : Run W (List ℕ) → Type 0 where
    drained :
        {octets : List ℕ} {w : W} (k : ℕ)
        → octets ≡ received ++ take k to_come
        → coming w ≡ drop k to_come
        → k ≤ length to_come
        → Drains received to_come (done octets w)
    no_end : Drains received to_come Run.out_of_fuel

  one_more :
      {received to_come rest : List ℕ} {b : ℕ} {r : Run W (List ℕ)}
      → to_come ≡ b ∷ rest
      → Drains (received ++ b ∷ []) rest r
      → Drains received to_come r
  one_more {received} {rest} {b} e (drained k o c l) =
      rw e (drained (suc k) (o ∙ append_assoc received (b ∷ []) (take k rest)) c (omega arith))
  one_more e no_end = no_end

  check-Drains :
      (start : ℕ) (received to_come : List ℕ) (v : W) (next : Cmd W (List ℕ))
      → coming v ≡ to_come
      → Drains received to_come (next (a.millis v).1)
      → Drains received to_come (
          (if ltb (1000 * default_timeout) (sub32 (a.millis v).0 start)
              then pure received
              else next)
            (a.millis v).1)
  check-Drains start received to_come v next e h =
      elim (Bool-cases (ltb (1000 * default_timeout) (sub32 (a.millis v).0 start))) [
        | inl over ↦
            rw over (drained 0 (sym (append-nil received)) (millis_coming v ∙ e) (omega arith))
        | inr more ↦ rw more h
      ]

  rx_loop-Drains :
      (fuel len start : ℕ) (received : List ℕ) (w : W) (to_come : List ℕ)
      → coming w ≡ to_come
      → Drains received to_come (rx_loop a fuel len start received w)
  unfolding rx_loop
  rx_loop-Drains zero len start received w to_come e = no_end
  rx_loop-Drains (suc fuel) len start received w to_come e = elim (available_coming w) [
    | inl (z, c) ↦ rw z (
        let v = (a.serial_available w).1 in
        check-Drains start received to_come v _ (c ∙ e)
          (rx_loop-Drains fuel len start received (a.millis v).1 to_come (millis_coming v ∙ c ∙ e)))
    | inr (b, rest, p, c, l, q, c') ↦
        let t : ((a.serial_available w).0 == 0) ≡ false = ground arith in
        let u : u8 b ≡ b = omega arith in
        let w' = (a.serial_read (a.serial_available w).1).1 in
        let received' = received ++ b ∷ [] in
        let stop : Drains received' rest (done received' w') =
          drained 0 (sym (append-nil received')) c' (omega arith) in
        rw (t, q, u)
          (one_more (sym e ∙ c) (elim (Bool-cases (leb len (length received'))) [
            | inl full ↦ rw full stop
            | inr more ↦ rw more (
                check-Drains start received' rest w' _ c' (
                  rx_loop-Drains fuel len start received' (a.millis w').1 rest
                    (millis_coming w' ∙ c')))
          ]))
  ]

  burst_read-Drains :
      (fuel reg len : ℕ) (w : W)
      → Drains [] (coming (request a reg len w)) (burst_read a fuel reg len w)
  unfolding burst_read
  burst_read-Drains fuel reg len w = rx_loop-Drains fuel len _ [] _ _ (millis_coming _)

  at_most : (len n : ℕ) → 0 < len → n ≤ at_least_one len → n ≤ len
  at_most zero n p h = absurd (omega arith)
  at_most (suc len) n p h = h

  -- With enough rounds, a clock, and at least one octet asked for, a burst read returns, and what it
  -- returns is the beginning of what comes by the port after the request, up to the octets asked for.
  pub burst_read_result :
      (c : Clock a) (fuel reg len : ℕ) (w : W)
      → rx_rounds ≤ fuel
      → 0 < len
      → (octets : List ℕ) × (w' : W) × (burst_read a fuel reg len w ≡ done octets w')
        × (length octets ≤ len)
        × (octets ≡ take (length octets) (coming (request a reg len w)))
  burst_read_result c fuel reg len w p q =
      go (burst_read a fuel reg len w) refl (burst_read-Reads c fuel reg len w p)
        (burst_read-Drains fuel reg len w)
    where
      go :
          (r : Run W (List ℕ))
          → burst_read a fuel reg len w ≡ r
          → {n m : ℕ} → Reads c (at_least_one len) n m r
          → Drains [] (coming (request a reg len w)) r
          → (octets : List ℕ) × (w' : W) × (burst_read a fuel reg len w ≡ done octets w')
            × (length octets ≤ len)
            × (octets ≡ take (length octets) (coming (request a reg len w)))
      go (done octets w') e (reads m _ _) (drained k o _ l) = (
        octets,
        w',
        e,
        at_most len (length octets) q m,
        (let n : length octets ≡ k =
              ground (arith, o, length-take k (coming (request a reg len w))) in
            rw n o),
      )
      go Run.fault e h _ = elim h [ ]
      go Run.out_of_fuel e h _ = elim h [ ]
