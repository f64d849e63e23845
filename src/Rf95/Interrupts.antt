-- ===== src/Rf95/Interrupts.antt =====
-- What the interrupt handler of RH_RF95 does in each of its cases, whatever the module sends.
use grove_lo_ra_433mhz_and.Prelude.{
  ℕ, ◌+◌, ◌≤◌, ◌≡◌, refl, ◌∙◌, ap, inl, inr, Bool, true, false, Bool-cases, not, ◌&&◌, ◌||◌, ◌==◌,
  if◌then◌else◌, List, blit, sub8, u16, bit_and, arith,
}
use grove_lo_ra_433mhz_and.Prelude.Commands.{done, gets, modify, when, ◌>>=◌, ◌>>◌}
use grove_lo_ra_433mhz_and.Driver.{
  Device, RhMode, idle, rx, tx, sleeping, initialising, is_rx, is_tx, is_idle, set_mode,
}
use grove_lo_ra_433mhz_and.Uart.{Arduino}
use grove_lo_ra_433mhz_and.Uart
use grove_lo_ra_433mhz_and.Uart.Timing.{Clock, rx_rounds}
use grove_lo_ra_433mhz_and.Rf95.{
  Chip, on_driver, on_chip, on_port, read, write, validate_rx_buf, set_mode_idle, receive_packet,
  handle_interrupt, reg_00_fifo, reg_01_op_mode, reg_0d_fifo_addr_ptr, reg_10_fifo_rx_current_addr,
  reg_12_irq_flags, reg_13_rx_nb_bytes, reg_1a_pkt_rssi_value, mode_stdby, rx_errors, rx_done,
  tx_done,
}
use grove_lo_ra_433mhz_and.Rf95.Timing.{read-Takes, burst_read-Takes, write-Takes}
use grove_lo_ra_433mhz_and.Rf95.Worlds.{
  at_world, To, At, in_world, bind_in, changed_in, leads_in, IsSteady, bind, changes, changed,
  port-IsSteady,
}

-- What the handler makes of a packet: its length, its octets and its strength, as far as they came, are stored, the headers are
-- looked at, and the device is idle if the packet is valid.
abbrev pub idle_if_valid : {W : Type 0} → Device (Chip W) → Device (Chip W)
idle_if_valid e = if e.chip.rx_buf_valid then on_driver (set_mode idle) e else e

abbrev pub buffered : {W : Type 0} → (len : ℕ) → List ℕ → Device (Chip W) → Device (Chip W)
buffered len octets e = on_chip (λ c. record c { buf = blit 0 octets c.buf; buf_len = len }) e

abbrev pub stored :
    {W : Type 0} → (len : ℕ) → List ℕ → (rssi : ℕ) → Device (Chip W) → Device (Chip W)
stored len octets rssi e =
    on_driver (λ g. record g { last_rssi = sub8 rssi 137 }) (buffered len octets e)

-- The packet that came: its length and where it begins are read from the chip, that many octets are
-- read from there, and at the end its strength. `w` is the world behind the port before.
pub record Received {W : Type 0} (a : Arduino W) (fuel : ℕ) (e : Device (Chip W)) (w : W)
    (e' : Device (Chip W)) : Type 0 where
  pub len : ℕ
  pub address : ℕ
  pub octets : List ℕ
  pub rssi : ℕ
  pub w₁ : W
  pub w₂ : W
  pub w₃ : W
  pub w₄ : W
  pub w₅ : W
  pub w₆ : W
  pub len_read : read a fuel reg_13_rx_nb_bytes (at_world e w) ≡ done len (at_world e w₁)
  pub address_read :
      read a fuel reg_10_fifo_rx_current_addr (at_world e w₁) ≡ done address (at_world e w₂)
  pub address_written :
      write a fuel reg_0d_fifo_addr_ptr address (at_world e w₂) ≡ done tt (at_world e w₃)
  pub octets_read :
      on_port (Uart.burst_read a fuel reg_00_fifo len) (at_world e w₃) ≡ done octets (at_world e w₄)
  pub flags_cleared :
      write a fuel reg_12_irq_flags 0xff (at_world (buffered len octets e) w₄)
      ≡ done tt (at_world (buffered len octets e) w₅)
  pub rssi_read :
      read a fuel reg_1a_pkt_rssi_value (at_world (buffered len octets e) w₅)
      ≡ done rssi (at_world (buffered len octets e) w₆)
  pub result : e' ≡ idle_if_valid (validate_rx_buf (stored len octets rssi e))

-- What the handler makes of a device whose chip has given interrupt flags; `w` is the world behind the
-- port since then.
pub data Handled {W : Type 0} (a : Arduino W) (fuel irq_flags : ℕ) (e : Device (Chip W)) (w : W)
    : Device (Chip W) → Type 0 where
  failed :
      is_rx e.driver.mode ≡ true
      → (bit_and irq_flags rx_errors == 0) ≡ false
      → Handled a fuel irq_flags e w (on_driver (λ g. record g { rx_bad = u16 (g.rx_bad + 1) }) e)
  came :
      {e' : Device (Chip W)}
      → is_rx e.driver.mode ≡ true
      → (bit_and irq_flags rx_errors == 0) ≡ true
      → (bit_and irq_flags rx_done == 0) ≡ false
      → Received a fuel e w e'
      → Handled a fuel irq_flags e w e'
  went :
      is_tx e.driver.mode ≡ true
      → (bit_and irq_flags tx_done == 0) ≡ false
      → Handled a fuel irq_flags e w (
          on_driver (set_mode idle) (on_driver (λ g. record g { tx_good = u16 (g.tx_good + 1) }) e))
  none_of_these :
      is_rx e.driver.mode
          && not (bit_and irq_flags rx_errors == 0 && bit_and irq_flags rx_done == 0)
        ≡ false
      → is_tx e.driver.mode && not (bit_and irq_flags tx_done == 0) ≡ false
      → Handled a fuel irq_flags e w e

not_idle : (m : RhMode) → is_rx m || is_tx m ≡ true → is_idle m ≡ false
not_idle rx h = refl
not_idle tx h = refl
not_idle idle h = cc
not_idle sleeping h = cc
not_idle initialising h = cc

module _ {W : Type 0} {a : Arduino W} (c : Clock a) (fuel : ℕ) (f : rx_rounds ≤ fuel) where
  pub read-IsSteady : (reg : ℕ) → IsSteady (read a fuel reg)
  read-IsSteady reg = port-IsSteady (read-Takes c fuel f reg)

  pub write-IsSteady : (reg val : ℕ) → IsSteady (write a fuel reg val)
  write-IsSteady reg val = port-IsSteady (write-Takes c fuel reg val)

  set_mode_idle-To :
      (e : Device (Chip W))
      → is_idle e.driver.mode ≡ false
      → To e (set_mode_idle a fuel) (λ e'. e' ≡ on_driver (set_mode idle) e)
  unfolding set_mode_idle
  set_mode_idle-To e h = record {
    apply = λ w.
        let turn : To e
            (write a fuel reg_01_op_mode mode_stdby >> modify (on_driver (set_mode idle)))
            (λ e'. e' ≡ on_driver (set_mode idle) e) =
          bind (write-IsSteady reg_01_op_mode mode_stdby)
            λ _. changes (on_driver (set_mode idle)) (λ w. refl) refl in
        rw h (turn.apply w);
  }

  when-To :
      (b : Bool) (e : Device (Chip W))
      → is_idle e.driver.mode ≡ false
      → To e
          (when b (set_mode_idle a fuel))
          (λ e'. e' ≡ (if b then on_driver (set_mode idle) e else e))
  when-To true e h = set_mode_idle-To e h
  when-To false e h = record { apply = λ w. (tt, e, w, refl, refl) }

  valid-To :
      (e : Device (Chip W))
      → is_idle e.driver.mode ≡ false
      → To e
          (gets (λ d. d.chip.rx_buf_valid) >>= (λ is_valid. when is_valid (set_mode_idle a fuel)))
          (λ e'. e' ≡ idle_if_valid e)
  valid-To e h = record { apply = λ w. (when-To e.chip.rx_buf_valid e h).apply w }

  validate-mode : (e : Device (Chip W)) → (validate_rx_buf e).driver.mode ≡ e.driver.mode
  unfolding validate_rx_buf
  validate-mode e = ground arith

  validate-at_world :
      (e : Device (Chip W)) (w : W)
      → validate_rx_buf (at_world e w) ≡ at_world (validate_rx_buf e) w
  unfolding validate_rx_buf
  validate-at_world e w = ground arith

  validated-To :
      (e : Device (Chip W))
      → is_idle e.driver.mode ≡ false
      → To e
          (modify validate_rx_buf
            >> (gets (λ d. d.chip.rx_buf_valid)
                >>= (λ is_valid. when is_valid (set_mode_idle a fuel))))
          (λ e'. e' ≡ idle_if_valid (validate_rx_buf e))
  validated-To e h =
      changed validate_rx_buf (validate-at_world e)
        (valid-To (validate_rx_buf e) (ap is_idle (validate-mode e) ∙ h))

  receive_packet-At :
      (e : Device (Chip W)) (w : W)
      → is_idle e.driver.mode ≡ false
      → At e w (receive_packet a fuel) (Received a fuel e w)
  unfolding receive_packet
  receive_packet-At e w h = bind_in (read-IsSteady reg_13_rx_nb_bytes) λ len w₁ p₁.
      bind_in (read-IsSteady reg_10_fifo_rx_current_addr) λ address w₂ p₂.
        bind_in (write-IsSteady reg_0d_fifo_addr_ptr address) λ _ w₃ p₃.
          bind_in (port-IsSteady (burst_read-Takes c fuel f reg_00_fifo len)) λ octets w₄ p₄.
            changed_in (buffered len octets) refl (
              bind_in (write-IsSteady reg_12_irq_flags 0xff) λ _ w₅ p₅.
                bind_in (read-IsSteady reg_1a_pkt_rssi_value) λ rssi w₆ p₆.
                  changed_in (on_driver (λ g. record g { last_rssi = sub8 rssi 137 })) refl (
                    leads_in (in_world (validated-To (stored len octets rssi e) h) w₆) λ e' q.
                      record {
                        len = len;
                        address = address;
                        octets = octets;
                        rssi = rssi;
                        w₁ = w₁;
                        w₂ = w₂;
                        w₃ = w₃;
                        w₄ = w₄;
                        w₅ = w₅;
                        w₆ = w₆;
                        len_read = p₁;
                        address_read = p₂;
                        address_written = p₃;
                        octets_read = p₄;
                        flags_cleared = p₅;
                        rssi_read = p₆;
                        result = q;
                      }))

  transmitted-To :
      (e : Device (Chip W))
      → is_idle e.driver.mode ≡ false
      → To e
          (modify (on_driver (λ g. record g { tx_good = u16 (g.tx_good + 1) }))
            >> set_mode_idle a fuel)
          (λ e'.
            e'
            ≡ on_driver
                (set_mode idle)
                (on_driver (λ g. record g { tx_good = u16 (g.tx_good + 1) }) e))
  transmitted-To e h =
      changed (on_driver (λ g. record g { tx_good = u16 (g.tx_good + 1) })) (λ w. refl)
        (set_mode_idle-To _ h)

  branches-At :
      (irq_flags : ℕ) (e : Device (Chip W)) (w : W)
      → At e w
          (if is_rx e.driver.mode && not (bit_and irq_flags rx_errors == 0)
            then modify (on_driver (λ g. record g { rx_bad = u16 (g.rx_bad + 1) }))
            else if is_rx e.driver.mode && not (bit_and irq_flags rx_done == 0)
            then receive_packet a fuel
            else when (is_tx e.driver.mode && not (bit_and irq_flags tx_done == 0)) (
                modify (on_driver (λ g. record g { tx_good = u16 (g.tx_good + 1) }))
                >> set_mode_idle a fuel))
          (Handled a fuel irq_flags e w)
  branches-At irq_flags e w =
      elim (Bool-cases (is_rx e.driver.mode && not (bit_and irq_flags rx_errors == 0))) [
        | inl q ↦ rw q (
            in_world
              (changes (on_driver (λ g. record g { rx_bad = u16 (g.rx_bad + 1) })) (λ w. refl)
                (failed (ground arith) (ground arith)))
              w)
        | inr q ↦ elim (Bool-cases (is_rx e.driver.mode && not (bit_and irq_flags rx_done == 0))) [
          | inl p ↦
              rw (q, p)
                (leads_in (receive_packet-At e w (not_idle e.driver.mode (ground arith)))
                  λ e' r. came (ground arith) (ground arith) (ground arith) r)
          | inr p ↦
              elim (Bool-cases (is_tx e.driver.mode && not (bit_and irq_flags tx_done == 0))) [
                | inl o ↦
                    rw (q, p, o)
                      (leads_in
                        (in_world (transmitted-To e (not_idle e.driver.mode (ground arith))) w)
                        λ e' r. rw r (went (ground arith) (ground arith)))
                | inr o ↦
                    rw (q, p, o)
                      (record { result = (tt, e, w, refl, none_of_these (ground arith) o) })
              ]
        ]
      ]

  -- With the rounds for three seconds of polling, and a clock, the handler always returns, and acts on the
  -- interrupt flags that it reads from the chip. While receiving, an error is counted, and otherwise a
  -- packet that came is stored: the length that the chip answers, the octets that a burst read of that
  -- length from the address it answers gives, and the strength it answers. Its headers are looked at, and the device is
  -- idle if it is valid. At the end of a transmission it is counted, and the device is idle. In every
  -- other case only the world behind the port is changed.
  pub handle_interrupt-cases :
      (d : Device (Chip W))
      → (irq_flags : ℕ) × (e : Device (Chip W)) × (w₁ w₂ : W) × (read a fuel reg_12_irq_flags d
          ≡ done irq_flags (at_world d w₁))
        × (handle_interrupt a fuel d ≡ done tt (at_world e w₂))
        × Handled a fuel irq_flags d w₁ e
  unfolding handle_interrupt
  handle_interrupt-cases d =
      let (irq_flags, w₁, p) = (read-IsSteady reg_12_irq_flags).apply d d.chip.world in
      let (x, e, w, q, h) = (branches-At irq_flags d w₁).result in
      let (_, w₂, o) = (write-IsSteady reg_12_irq_flags 0xff).apply e w in
      (irq_flags, e, w₁, w₂, p, rw (p, q) o, h)
