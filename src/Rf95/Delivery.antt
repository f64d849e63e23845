-- ===== src/Rf95/Delivery.antt =====
-- From the interrupt of a packet to `recv` of RH_RF95: what the sender gave is what the receiver gets.
use grove_lo_ra_433mhz_and.Prelude.{
  ℕ, ◌+◌, ◌≤◌, ◌≡◌, refl, ap, ◌∙◌, Bool, true, false, not, ◌==◌, some, List, [], ◌∷◌, arith, length,
  take, take-min-blit, blit, u16,
}
use grove_lo_ra_433mhz_and.Prelude.Commands.{Cmd, done, when}
use grove_lo_ra_433mhz_and.Driver.{
  Driver, Device, RhMode, idle, rx, tx, sleeping, initialising, is_rx, is_tx, is_idle, set_mode,
}
use grove_lo_ra_433mhz_and.Uart.{Arduino}
use grove_lo_ra_433mhz_and.Uart.Timing.{Clock, rx_rounds}
use grove_lo_ra_433mhz_and.Rf95.{
  Chip, on_driver, on_chip, set_mode_rx, handle_interrupt, poll_interrupt, available, recv,
  validate_rx_buf, reg_01_op_mode, reg_40_dio_mapping1, mode_rxcontinuous, header_len,
  max_message_len, fifo_size,
}
use grove_lo_ra_433mhz_and.Rf95.Timing.{available_octets-Takes, read_octet-Takes}
use grove_lo_ra_433mhz_and.Rf95.Worlds.{at_world, To, bind, changes, port-IsSteady}
use grove_lo_ra_433mhz_and.Rf95.Interrupts.{
  Handled, failed, came, went, none_of_these, Received, stored, write-IsSteady,
  handle_interrupt-cases,
}
use grove_lo_ra_433mhz_and.Rf95.Receiving.{packet, recv-min, validate_rx_buf-addressed}

idle-not_tx : (m : RhMode) → is_idle m ≡ true → (is_tx m ≡ false) × (is_rx m ≡ false)
idle-not_tx idle h = (refl, refl)
idle-not_tx rx h = cc
idle-not_tx tx h = cc
idle-not_tx sleeping h = cc
idle-not_tx initialising h = cc

-- Where a packet lies in the buffer.
blit-packet :
    (g : Driver) (octets raw : List ℕ)
    → 4 ≤ length raw
    → (rest : List ℕ) × (length raw ≡ length rest + 4)
      × (blit 0 (packet g octets) raw
          ≡ g.tx_header_to
            ∷ g.tx_header_from
            ∷ g.tx_header_id
            ∷ g.tx_header_flags
            ∷ blit 0 octets rest)
blit-packet g octets [] h = absurd (omega arith)
blit-packet g octets (_ ∷ []) h = absurd (omega arith)
blit-packet g octets (_ ∷ _ ∷ []) h = absurd (omega arith)
blit-packet g octets (_ ∷ _ ∷ _ ∷ []) h = absurd (omega arith)
blit-packet g octets (_ ∷ _ ∷ _ ∷ _ ∷ rest) h = (rest, omega arith, refl)

module _ {W : Type 0} where
  whenever-To :
      (b : Bool) {d : Device (Chip W)} {m : Cmd (Device (Chip W)) (Unit {0})}
      → To d m (λ e. e ≡ d)
      → To d (when b m) (λ e. e ≡ d)
  whenever-To true f = f
  whenever-To false {d} f = record { apply = λ w. (tt, d, w, refl, refl) }

module _ {W : Type 0} {a : Arduino W} (c : Clock a) (fuel : ℕ) (f : rx_rounds ≤ fuel) where
  idle-Handled :
      (irq_flags : ℕ) (e : Device (Chip W)) (w : W) {e' : Device (Chip W)}
      → is_idle e.driver.mode ≡ true
      → Handled a fuel irq_flags e w e'
      → e' ≡ e
  idle-Handled irq_flags e w i (failed r p) = absurd (ground (arith, idle-not_tx e.driver.mode i))
  idle-Handled irq_flags e w i (came r p q x) = absurd (ground (arith, idle-not_tx e.driver.mode i))
  idle-Handled irq_flags e w i (went r p) = absurd (ground (arith, idle-not_tx e.driver.mode i))
  idle-Handled irq_flags e w i (none_of_these r p) = refl

  handle_interrupt-idle :
      (d : Device (Chip W))
      → is_idle d.driver.mode ≡ true
      → To d (handle_interrupt a fuel) (λ e. e ≡ d)
  handle_interrupt-idle d i = record {
    apply = λ w.
        let (irq_flags, e, w₁, w₂, p, o, h) = handle_interrupt-cases c fuel f (at_world d w) in
        let same : e ≡ at_world d w = idle-Handled irq_flags (at_world d w) w₁ i h in
        (tt, d, w₂, o ∙ ap (λ x. done tt (at_world x w₂)) same, refl);
  }

  poll_interrupt-idle :
      (d : Device (Chip W))
      → is_idle d.driver.mode ≡ true
      → To d (poll_interrupt a fuel) (λ e. e ≡ d)
  unfolding poll_interrupt
  poll_interrupt-idle d i = bind (port-IsSteady (available_octets-Takes c fuel)) λ ready.
      whenever-To (not (ready == 0)) (
        bind (port-IsSteady (read_octet-Takes c fuel))
          λ b. whenever-To (b == b'I') (handle_interrupt-idle d i))

  set_mode_rx-idle :
      (d : Device (Chip W))
      → is_idle d.driver.mode ≡ true
      → To d (set_mode_rx a fuel) (λ e. e ≡ on_driver (set_mode rx) d)
  unfolding set_mode_rx
  set_mode_rx-idle d i = record {
    apply = λ w.
        let turn = bind {e = d} (write-IsSteady c fuel f reg_01_op_mode mode_rxcontinuous) λ _.
          bind (write-IsSteady c fuel f reg_40_dio_mapping1 0x00) λ _.
            changes (on_driver (set_mode rx)) {Q = λ e. e ≡ on_driver (set_mode rx) d} (λ w. refl)
              refl in
        rw (idle-not_tx d.driver.mode i).1 (turn.apply w);
  }

  -- Interrupts that come while the device is idle change nothing, and then `available` answers whether
  -- the buffer is valid.
  available-idle :
      (d : Device (Chip W)) (w : W)
      → is_idle d.driver.mode ≡ true
      → (w' : W) × (available a fuel (at_world d w)
          ≡ done d.chip.rx_buf_valid (at_world (on_driver (set_mode rx) d) w'))
  unfolding available
  available-idle d w i =
      let (_, e, w₁, p, q) = (poll_interrupt-idle d i).apply w in
      let (_, u, w₂, p', q') = (set_mode_rx-idle d i).apply w₁ in
      (
        w₂,
        rw (p ∙ ap (λ x. done tt (at_world x w₁)) q)
            (rw ((idle-not_tx d.driver.mode i).0, p' ∙ ap (λ x. done tt (at_world x w₂)) q') refl),
      )

  -- When the interrupt handler has taken in a packet that a node sent to this one, the device is idle,
  -- the message counts as good and has the headers of its sender, and whatever comes by the port
  -- meanwhile, the next `recv` returns, with as much of the sent message as there is room for, and leaves the
  -- buffer empty and the device receiving.
  pub Received-recv :
      (room : ℕ) (g : Driver) (octets : List ℕ) (d e : Device (Chip W)) (w w' : W)
      → length octets ≤ max_message_len
      → length d.chip.buf ≡ fifo_size
      → g.tx_header_to ≡ d.driver.this_address
      → (r : Received a fuel d w e) → r.len ≡ length octets + header_len
      → r.octets ≡ packet g octets
      → (w'' : W) × (recv a fuel (some room) (at_world e w')
          ≡ done (some (take room octets)) (
              at_world
                (on_driver
                  (set_mode rx)
                  (on_chip (λ c. record c { rx_buf_valid = false; buf_len = 0 }) e))
                w''))
        × (e.driver.mode ≡ idle)
        × (e.driver.rx_good ≡ u16 (d.driver.rx_good + 1))
        × (e.driver.rx_header_to ≡ g.tx_header_to)
        × (e.driver.rx_header_from ≡ g.tx_header_from)
        × (e.driver.rx_header_id ≡ g.tx_header_id)
        × (e.driver.rx_header_flags ≡ g.tx_header_flags)
  Received-recv room g octets d e w w' short size to r l o =
      let s = stored r.len r.octets r.rssi d in
      let (rest, n, b) = blit-packet g octets d.chip.buf (omega arith) in
      let at : s.chip.buf
          ≡ g.tx_header_to
            ∷ g.tx_header_from
            ∷ g.tx_header_id
            ∷ g.tx_header_flags
            ∷ blit 0 octets rest =
        ap (λ x. blit 0 x d.chip.buf) o ∙ b in
      let (chip, driver) = validate_rx_buf-addressed s (length octets) l at to in
      let v = validate_rx_buf s in
      let valid : v.chip.rx_buf_valid ≡ true = ap (λ c. c.rx_buf_valid) chip in
      let same : e ≡ on_driver (set_mode idle) v = r.result ∙ rw valid refl in
      let (w'', p) = available-idle (on_driver (set_mode idle) v) w' refl in
      let ready : available a fuel (at_world (on_driver (set_mode idle) v) w')
          ≡ done true (at_world (on_driver (set_mode rx) v) w'') =
        p ∙ ap (λ b. done b (at_world (on_driver (set_mode rx) v) w'')) valid in
      (
        w'',
        rw same (
            recv-min a fuel room (length octets) (at_world (on_driver (set_mode idle) v) w')
              (at_world (on_driver (set_mode rx) v) w'') short ready (ap (λ c. c.buf_len) chip ∙ l)
              (ap (λ c. c.buf) chip ∙ at)
            ∙ rw (take-min-blit room octets rest (omega arith)) refl),
        ap (λ x. x.driver.mode) same,
        ap (λ x. x.driver.rx_good) same ∙ ap (λ x. x.rx_good) driver,
        ap (λ x. x.driver.rx_header_to) same ∙ ap (λ x. x.rx_header_to) driver,
        ap (λ x. x.driver.rx_header_from) same ∙ ap (λ x. x.rx_header_from) driver,
        ap (λ x. x.driver.rx_header_id) same ∙ ap (λ x. x.rx_header_id) driver,
        ap (λ x. x.driver.rx_header_flags) same ∙ ap (λ x. x.rx_header_flags) driver,
      )
