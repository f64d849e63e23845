-- ===== src/Rf95/Timing.antt =====
-- `available` of RH_RF95 returns, whatever the module sends.
use grove_lo_ra_433mhz_and.Prelude.{
  ℕ, ◌+◌, ◌*◌, ◌≤◌, ◌≡◌, refl, ◌==◌, false, not, ap, blit, sub8, u16, ◌&&◌, List, u8, bit_and,
  get_or, arith,
}
use grove_lo_ra_433mhz_and.Prelude.Commands.{Cmd, Run, done, gets, modify}
use grove_lo_ra_433mhz_and.Prelude.Takes
use grove_lo_ra_433mhz_and.Prelude.Takes.{Takes}
use grove_lo_ra_433mhz_and.Driver.{Device, is_rx, is_tx, is_idle, idle, rx, set_mode}
use grove_lo_ra_433mhz_and.Driver.Wait.Timing.{Live}
use grove_lo_ra_433mhz_and.Uart
use grove_lo_ra_433mhz_and.Uart.{Arduino, uart_rx, uart_tx, put_all, put}
use grove_lo_ra_433mhz_and.Uart.Timing.{Clock, Reads, reads, rx_rounds, burst_read-Reads}
use grove_lo_ra_433mhz_and.Rf95.{
  Chip, on_port, write, millis, set_mode_idle, set_mode_rx, receive_packet, handle_interrupt,
  poll_interrupt, available, on_driver, on_chip, validate_rx_buf, reg_00_fifo, reg_01_op_mode,
  reg_0d_fifo_addr_ptr, reg_10_fifo_rx_current_addr, reg_12_irq_flags, reg_13_rx_nb_bytes,
  reg_1a_pkt_rssi_value, reg_40_dio_mapping1, mode_stdby, mode_rxcontinuous, rx_errors, rx_done,
  tx_done,
}
use grove_lo_ra_433mhz_and.Rf95.Registers.{on_port-done}

-- A second, in microseconds.
abbrev pub second : ℕ
second = 1000000

module _ {W : Type 0} {a : Arduino W} (c : Clock a) (fuel : ℕ) where
  open c use {now, available_time, read_time, write_time, millis_value, millis_time}

  abbrev pub time : Device (Chip W) → ℕ
  time d = now d.chip.world

  put-Takes : (b : ℕ) → Takes now second (put a b)
  put-Takes b = record {
    apply = λ w. (tt, a.serial_write b w, refl, (write_time b w).0, omega (arith, write_time b w));
  }

  pub write-Takes : (reg val : ℕ) → Takes now (4 * second) (Uart.write a reg val)
  unfolding Uart.write uart_tx put_all
  write-Takes reg val = Takes.weaken (omega arith) (
      Takes.next (put-Takes b'W') (
        Takes.next (put-Takes _)
          (Takes.next (put-Takes _) (Takes.next (put-Takes val) (Takes.returns tt)))))

  pub burst_read-Takes :
      rx_rounds ≤ fuel → (reg len : ℕ) → Takes now (13 * second) (Uart.burst_read a fuel reg len)
  burst_read-Takes f reg len = record {
    apply = λ w. go w (Uart.burst_read a fuel reg len w) refl (burst_read-Reads c fuel reg len w f);
  }
    where
      go :
          (w : W)
          → (r : Run W (List ℕ)) → Uart.burst_read a fuel reg len w ≡ r
          → {n : ℕ} → Reads c n (now w) (now w + 3000000) r
          → (octets : List ℕ) × (t : W) × (Uart.burst_read a fuel reg len w ≡ done octets t)
            × (now w ≤ now t)
            × (now t ≤ now w + 13 * second)
      go w (done octets t) e (reads l low high) = (octets, t, e, low, omega arith)
      go w Run.fault e h = elim h [ ]
      go w Run.out_of_fuel e h = elim h [ ]

  pub read-Takes : rx_rounds ≤ fuel → (reg : ℕ) → Takes now (13 * second) (Uart.read a fuel reg)
  unfolding Uart.read Uart.burst_read
  read-Takes f reg =
      Takes.weaken (omega arith)
        (Takes.bind (burst_read-Takes f reg 1) λ received. Takes.returns (get_or received 0 0))

  on_port-Takes : {A : Type 0} {k : ℕ} {m : Cmd W A} → Takes now k m → Takes time k (on_port m)
  on_port-Takes {m} h = record {
    apply = λ d.
        let (x, w, e, low, high) = h.apply d.chip.world in
        (x, record d { chip = record (d.chip) { world = w } }, on_port-done m d e, low, high);
  }

  pub available_octets-Takes : Takes now second (Uart.uart_available a)
  unfolding Uart.uart_available
  available_octets-Takes = record {
    apply = λ w. (
      u8 (a.serial_available w).0,
      (a.serial_available w).1,
      refl,
      (available_time w).0,
      omega (arith, available_time w),
    );
  }

  pub read_octet-Takes : Takes now second (Uart.uart_read a)
  unfolding Uart.uart_read
  read_octet-Takes = record {
    apply = λ w. (
      u8 (a.serial_read w).0,
      (a.serial_read w).1,
      refl,
      (read_time w).0,
      omega (arith, read_time w),
    );
  }

  look-Takes : {A : Type 0} (f : Device (Chip W) → A) → Takes time 0 (gets f)
  look-Takes f = Takes.reads f

  change-Takes :
      (f : Device (Chip W) → Device (Chip W))
      → ((d : Device (Chip W)) → time (f d) ≡ time d)
      → Takes time 0 (modify f)
  change-Takes f h = Takes.modifies f h

  register-Takes : (reg val : ℕ) → Takes time (4 * second) (write a fuel reg val)
  register-Takes reg val = on_port-Takes (write-Takes reg val)

  set_mode_idle-Takes : Takes time (4 * second) (set_mode_idle a fuel)
  unfolding set_mode_idle
  set_mode_idle-Takes = Takes.weaken (omega arith) (
      Takes.bind (look-Takes (λ d. d.driver.mode)) λ mode. Takes.whenever (not (is_idle mode)) (
        Takes.next (register-Takes reg_01_op_mode mode_stdby)
          (change-Takes (on_driver (set_mode idle)) (λ d. refl))))

  set_mode_rx-Takes : Takes time (8 * second) (set_mode_rx a fuel)
  unfolding set_mode_rx
  set_mode_rx-Takes = Takes.weaken (omega arith) (
      Takes.bind (look-Takes (λ d. d.driver.mode)) λ mode. Takes.whenever (not (is_rx mode)) (
        Takes.next (register-Takes reg_01_op_mode mode_rxcontinuous) (
          Takes.next (register-Takes reg_40_dio_mapping1 0x00)
            (change-Takes (on_driver (set_mode rx)) (λ d. refl)))))

  validate-world : (d : Device (Chip W)) → (validate_rx_buf d).chip.world ≡ d.chip.world
  unfolding validate_rx_buf
  validate-world d = ground arith

  receive_packet-Takes : rx_rounds ≤ fuel → Takes time (64 * second) (receive_packet a fuel)
  unfolding receive_packet
  receive_packet-Takes f = Takes.weaken (omega arith) (
      Takes.bind (on_port-Takes (read-Takes f reg_13_rx_nb_bytes)) λ len.
        Takes.bind (on_port-Takes (read-Takes f reg_10_fifo_rx_current_addr)) λ address.
          Takes.next (register-Takes reg_0d_fifo_addr_ptr address) (
            Takes.bind (on_port-Takes (burst_read-Takes f reg_00_fifo len)) λ bs.
              Takes.next
                (change-Takes (on_chip (λ c. record c { buf = blit 0 bs c.buf; buf_len = len }))
                  (λ d. refl))
                (Takes.next (register-Takes reg_12_irq_flags 0xff) (
                  Takes.bind (on_port-Takes (read-Takes f reg_1a_pkt_rssi_value)) λ rssi.
                    Takes.next
                      (change-Takes (on_driver (λ g. record g { last_rssi = sub8 rssi 137 }))
                        (λ d. refl))
                      (Takes.next (change-Takes validate_rx_buf (λ d. ap now (validate-world d))) (
                        Takes.bind (look-Takes (λ d. d.chip.rx_buf_valid))
                          λ is_valid. Takes.whenever is_valid set_mode_idle-Takes))))))

  handle_interrupt-Takes : rx_rounds ≤ fuel → Takes time (81 * second) (handle_interrupt a fuel)
  unfolding handle_interrupt
  handle_interrupt-Takes f = Takes.weaken (omega arith) (
      Takes.bind (on_port-Takes (read-Takes f reg_12_irq_flags)) λ irq_flags.
        Takes.bind (look-Takes (λ d. d.driver.mode)) λ mode.
          Takes.next
            (Takes.branch (is_rx mode && not (bit_and irq_flags rx_errors == 0))
              (Takes.weaken (omega arith) (
                change-Takes (on_driver (λ g. record g { rx_bad = u16 (g.rx_bad + 1) }))
                  (λ d. refl)))
              (Takes.branch (is_rx mode && not (bit_and irq_flags rx_done == 0))
                (receive_packet-Takes f)
                (Takes.whenever (is_tx mode && not (bit_and irq_flags tx_done == 0)) (
                  Takes.weaken (omega arith) (
                    Takes.next
                      (change-Takes (on_driver (λ g. record g { tx_good = u16 (g.tx_good + 1) }))
                        (λ d. refl))
                      set_mode_idle-Takes)))))
            (register-Takes reg_12_irq_flags 0xff))

  -- With the rounds for three seconds of polling, and a clock, `available` always returns, whatever the module sends, and takes at
  -- most 91 seconds, most of them if a packet is announced and its registers and octets never come.
  pub available-Takes : rx_rounds ≤ fuel → Takes time (91 * second) (available a fuel)
  unfolding available poll_interrupt
  available-Takes f = Takes.weaken (omega arith) (
      Takes.next
        (Takes.bind (on_port-Takes available_octets-Takes) λ ready.
          Takes.whenever (not (ready == 0)) (
            Takes.bind (on_port-Takes read_octet-Takes)
              λ b. Takes.whenever (b == b'I') (handle_interrupt-Takes f)))
        (Takes.bind (look-Takes (λ d. d.driver.mode)) λ mode.
          Takes.branch (is_tx mode) (Takes.weaken (omega arith) (Takes.returns false))
            (Takes.next set_mode_rx-Takes (look-Takes (λ d. d.chip.rx_buf_valid)))))

  -- So the loops of RHGenericDriver that wait with a timeout end on RH_RF95.
  abbrev pub clock : rx_rounds ≤ fuel → Live (available a fuel) (millis a fuel)
  clock f = record {
    now = time;
    poll_time = 91 * second;
    poll_bound = omega arith;
    reads = λ d. (
      record d { chip = record (d.chip) { world = (a.millis d.chip.world).1 } },
      rw millis_value refl,
      (millis_time d.chip.world).0,
      (millis_time d.chip.world).1,
    );
    polls = λ d. let (b, t, e, low, high) = (available-Takes f).apply d in (b, t, e, low, high);
  }
