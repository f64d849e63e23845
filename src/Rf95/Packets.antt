-- ===== src/Rf95/Packets.antt =====
-- A packet, as `send` of RH_RF95 writes it to the FIFO of the chip.
use grove_lo_ra_433mhz_and.Prelude.{
  ℕ, ◌+◌, ◌≤◌, ◌<◌, ◌≡◌, refl, ◌∙◌, ◌⊎◌, inl, inr, Bool, true, false, Bool-cases, if◌then◌else◌,
  ltb, List, [], ◌∷◌, ◌++◌, arith, length, bit_or,
}
use mathlib.Core.List.{append_assoc}
use grove_lo_ra_433mhz_and.Prelude.Commands.{Cmd, done, pure, ◌>>◌}
use grove_lo_ra_433mhz_and.Driver.{Driver, Device, idle, tx, is_tx, is_idle, set_mode}
use grove_lo_ra_433mhz_and.Driver.Wait
use grove_lo_ra_433mhz_and.Driver.Wait.Timing.{wait_packet_sent-over}
use grove_lo_ra_433mhz_and.Uart
use grove_lo_ra_433mhz_and.Uart.{Arduino}
use grove_lo_ra_433mhz_and.Uart.Frames.{Outbox, burst_write-frame}
use grove_lo_ra_433mhz_and.Rf95.{
  Chip, on_port, on_driver, write, send, available, millis, set_mode_tx, reg_00_fifo,
  reg_01_op_mode, reg_0d_fifo_addr_ptr, reg_22_payload_length, reg_40_dio_mapping1, mode_stdby,
  mode_tx, header_len, max_message_len,
}
use grove_lo_ra_433mhz_and.Rf95.Registers.{frame, Puts, write-Puts, on_port-done}
use grove_lo_ra_433mhz_and.Rf95.Modes.{set_mode_idle-turns, set_mode_idle-there, set_mode_tx-turns}

-- The octets by which several are written to a register.
abbrev pub burst_frame : ℕ → List ℕ → List ℕ
burst_frame reg octets = b'W' ∷ bit_or reg 0x80 ∷ length octets ∷ octets

-- What `send` writes in standby.
abbrev pub fifo_frames : Driver → List ℕ → List ℕ
fifo_frames g octets =
    frame reg_0d_fifo_addr_ptr 0
    ++ (frame reg_00_fifo g.tx_header_to
        ++ (frame reg_00_fifo g.tx_header_from
            ++ (frame reg_00_fifo g.tx_header_id
                ++ (frame reg_00_fifo g.tx_header_flags
                    ++ (burst_frame reg_00_fifo octets
                        ++ (frame reg_22_payload_length (length octets + header_len)
                            ++ (frame reg_01_op_mode mode_tx
                                ++ frame reg_40_dio_mapping1 0x40)))))))

module _ {W : Type 0} {a : Arduino W} (o : Outbox a) (fuel : ℕ) where
  open o use {outbox, written}

  burst_write-Puts :
      (octets : List ℕ)
      → Puts o fuel
          (on_port (Uart.burst_write a reg_00_fifo octets))
          tt
          (burst_frame reg_00_fifo octets)
  burst_write-Puts octets = record {
    apply = λ d.
        let (w, e, p) = burst_write-frame o reg_00_fifo octets d.chip.world in
        (w, on_port-done (Uart.burst_write a reg_00_fifo octets) d e, p);
  }

  -- The command always returns true, after it has put the octets on the wire, in the mode of a
  -- transmission, with nothing else changed.
  pub record Transmits (m : Cmd (Device (Chip W)) Bool) (octets : List ℕ) (d : Device (Chip W))
      : Type 0 where
    pub result :
        (w : W) × (m d
          ≡ done true (on_driver (set_mode tx) (record d { chip = record (d.chip) { world = w } })))
        × (outbox w ≡ outbox d.chip.world ++ octets)

  after-Puts :
      {A : Type 0} {m : Cmd (Device (Chip W)) A} {k : Cmd (Device (Chip W)) Bool} {x : A}
      {xs ys : List ℕ} {d : Device (Chip W)}
      → Puts o fuel m x xs
      → ((w : W) → Transmits k ys (record d { chip = record (d.chip) { world = w } }))
      → Transmits (m >> k) (xs ++ ys) d
  after-Puts {xs} {ys} {d} f g = record {
    result =
        let (w, e, p) = f.apply d in
        let (w', e', p') = (g w).result in
        (w', rw e e', p' ∙ rw p (append_assoc (outbox d.chip.world) xs ys));
  }

  -- What `send` does in standby.
  abbrev load : Driver → List ℕ → Cmd (Device (Chip W)) Bool
  load g octets = do
    write a fuel reg_0d_fifo_addr_ptr 0
    write a fuel reg_00_fifo g.tx_header_to
    write a fuel reg_00_fifo g.tx_header_from
    write a fuel reg_00_fifo g.tx_header_id
    write a fuel reg_00_fifo g.tx_header_flags
    on_port (Uart.burst_write a reg_00_fifo octets)
    write a fuel reg_22_payload_length (length octets + header_len)
    set_mode_tx a fuel
    pure true

  load-Transmits :
      (g : Driver) (octets : List ℕ) (d : Device (Chip W))
      → is_tx d.driver.mode ≡ false
      → Transmits (load g octets) (fifo_frames g octets) d
  load-Transmits g octets d h = after-Puts (write-Puts o fuel _ _) λ _.
      after-Puts (write-Puts o fuel _ _) λ _. after-Puts (write-Puts o fuel _ _) λ _.
        after-Puts (write-Puts o fuel _ _) λ _. after-Puts (write-Puts o fuel _ _) λ _.
          after-Puts (burst_write-Puts octets) λ _. after-Puts (write-Puts o fuel _ _) λ w. record {
            result =
                let (w', e, p) =
                  set_mode_tx-turns o fuel (record d { chip = record (d.chip) { world = w } }) h in
                (w', rw e refl, p);
          }

  -- A packet that is too long is refused with nothing done. Any other, where no transmission is going on,
  -- is always sent: on the wire are the frames that put the chip in standby, if it was not, the four headers
  -- and the octets into its FIFO, the length of them all, and the chip in the mode of a transmission.
  -- Nothing else changes.
  pub send_result :
      (octets : List ℕ) (d : Device (Chip W))
      → 0 < fuel
      → is_tx d.driver.mode ≡ false
      → ((max_message_len < length octets) × (send a fuel octets d ≡ done false d))
        ⊎ ((length octets ≤ max_message_len)
            × Transmits
                (send a fuel octets)
                ((if is_idle d.driver.mode then [] else frame reg_01_op_mode mode_stdby)
                  ++ fifo_frames d.driver octets)
                d)
  unfolding send Uart.write
  send_result octets d f h = elim (Bool-cases (ltb max_message_len (length octets))) [
    | inl long ↦ inl (ground arith, rw long refl)
    | inr short ↦ inr (
      ground arith,
      record {
        result = elim (Bool-cases (is_idle d.driver.mode)) [
          | inl i ↦
              let (w, e, p) = (load-Transmits d.driver octets d h).result in
              (w, rw (short, over, set_mode_idle-there o fuel d i) e, rw i p)
          | inr i ↦
              let (w, e, p) = set_mode_idle-turns o fuel d i in
              let (w', e', p') =
                (load-Transmits d.driver octets
                  (on_driver (set_mode idle) (record d { chip = record (d.chip) { world = w } }))
                  refl).result in
              (
                w',
                rw (short, over, e) e',
                p'
                    ∙ rw (p, i)
                        (append_assoc (outbox d.chip.world) (frame reg_01_op_mode mode_stdby)
                          (fifo_frames d.driver octets)),
              )
        ];
      },
    )
  ]
    where
      over : Wait.wait_packet_sent (available a fuel) (millis a fuel) fuel d ≡ done true d
      over = wait_packet_sent-over (available a fuel) (millis a fuel) fuel d f h
