-- ===== src/Uart/Octets.antt =====
-- Whatever comes by the port, the driver reads octets.
use grove_lo_ra_433mhz_and.Prelude.{
  ℕ, zero, suc, ◌*◌, sub32, ◌<◌, ◌≡◌, refl, ◌==◌, ltb, leb, if◌then◌else◌, inl, inr, Bool-cases,
  true, List, [], ◌∷◌, ◌++◌, length, u8, arith, bit_and, all_octets, all_octets-append,
  get_or-octet,
}
use grove_lo_ra_433mhz_and.Prelude.Commands.{Cmd, Run, done, pure}
use grove_lo_ra_433mhz_and.Prelude.Post
use grove_lo_ra_433mhz_and.Prelude.Post.{Post, done_subst}
use grove_lo_ra_433mhz_and.Uart.{
  Arduino, call, put, default_timeout, rx_loop, uart_rx, read, burst_read,
}

abbrev pub Anywhere : {W : Type 0} → W → Type 0
Anywhere w = Unit {0}

pub anything : {W A : Type 0} {P : W → Type 0} (m : Cmd W A) → Post P m (λ _. Anywhere)
anything m = record { apply = λ p h. tt }

module _ {W : Type 0} (a : Arduino W) where
  received_octet :
      (bs : List ℕ) (b : ℕ) → all_octets bs ≡ true → all_octets (bs ++ u8 b ∷ []) ≡ true
  received_octet bs b h = all_octets-append bs (u8 b ∷ []) h (ground arith)

  data HasOctets : Run W (List ℕ) → Type 0 where
    octets : {bs : List ℕ} {w : W} → all_octets bs ≡ true → HasOctets (done bs w)
    no_octets : HasOctets Run.out_of_fuel

  check-HasOctets :
      (start : ℕ) (received : List ℕ) (v : W) (next : Cmd W (List ℕ))
      → all_octets received ≡ true
      → HasOctets (next (a.millis v).1)
      → HasOctets (
          (if ltb (1000 * default_timeout) (sub32 (a.millis v).0 start)
              then pure received
              else next)
            (a.millis v).1)
  check-HasOctets start received v next h k =
      elim (Bool-cases (ltb (1000 * default_timeout) (sub32 (a.millis v).0 start))) [
        | inl over ↦ rw over (octets h)
        | inr more ↦ rw more k
      ]

  rx_loop-HasOctets :
      (fuel len start : ℕ) (received : List ℕ) (w : W)
      → all_octets received ≡ true
      → HasOctets (rx_loop a fuel len start received w)
  unfolding rx_loop
  rx_loop-HasOctets zero len start received w h = no_octets
  rx_loop-HasOctets (suc fuel) len start received w h =
      let v = (a.serial_available w).1 in
      let w' = (a.serial_read v).1 in
      let received' = received ++ u8 (a.serial_read v).0 ∷ [] in
      let h' = received_octet received (a.serial_read v).0 h in
      elim (Bool-cases ((a.serial_available w).0 == 0)) [
        | inl z ↦ rw z (
            check-HasOctets start received v _ h
              (rx_loop-HasOctets fuel len start received (a.millis v).1 h))
        | inr z ↦ rw z (elim (Bool-cases (leb len (length received'))) [
          | inl full ↦ rw full (octets h')
          | inr more ↦ rw more (
              check-HasOctets start received' w' _ h'
                (rx_loop-HasOctets fuel len start received' (a.millis w').1 h'))
        ])
      ]

  rx_loop-octets :
      (fuel len start : ℕ)
      → Post Anywhere (rx_loop a fuel len start []) (λ octets _. all_octets octets ≡ true)
  rx_loop-octets fuel len start = record {
    apply = λ {s} p h. of_run h (rx_loop-HasOctets fuel len start [] s refl);
  }
    where
      of_run :
          {r : Run W (List ℕ)} {bs : List ℕ} {w : W}
          → r ≡ done bs w
          → HasOctets r
          → all_octets bs ≡ true
      of_run e (octets h) = done_subst (λ bs _. all_octets bs ≡ true) e h
      of_run e no_octets = cc

  uart_rx-octets :
      (fuel reg len : ℕ)
      → Post Anywhere (uart_rx a fuel reg len) (λ octets _. all_octets octets ≡ true)
  unfolding uart_rx
  uart_rx-octets fuel reg len = Post.next (anything (put a b'R')) (
      Post.next (anything (put a reg)) (
        Post.next (anything (put a len))
          (Post.bind (anything (call a.millis)) λ start. rx_loop-octets fuel len start)))

  pub burst_read-octets :
      (fuel reg len : ℕ)
      → Post Anywhere (burst_read a fuel reg len) (λ octets _. all_octets octets ≡ true)
  unfolding burst_read
  burst_read-octets fuel reg len = uart_rx-octets fuel (bit_and reg 0x7f) len

  pub read-octet : (fuel reg : ℕ) → Post Anywhere (read a fuel reg) (λ value _. value < 256)
  unfolding read
  read-octet fuel reg =
      Post.bind (uart_rx-octets fuel (bit_and reg 0x7f) 1)
        λ received. Post.returns (λ _ h. get_or-octet received 0 h)
