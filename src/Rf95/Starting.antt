-- ===== src/Rf95/Starting.antt =====
-- What `init` of RH_RF95 does with the chip.
use grove_lo_ra_433mhz_and.Prelude.{
  ℕ, ◌≡◌, ◌≤◌, ◌==◌, ◌⊎◌, refl, inl, inr, ◌∙◌, ap, true, false, Bool-cases, List, ◌++◌, arith,
}
use mathlib.Core.List.{append_assoc}
use grove_lo_ra_433mhz_and.Prelude.Commands.{done, pure, ◌>>◌}
use grove_lo_ra_433mhz_and.Driver.{Device, idle, is_idle, set_mode}
use grove_lo_ra_433mhz_and.Uart.{Arduino}
use grove_lo_ra_433mhz_and.Uart.Frames.{Outbox}
use grove_lo_ra_433mhz_and.Uart.Timing.{Clock, rx_rounds}
use grove_lo_ra_433mhz_and.Rf95.{Chip, on_driver, read, write, reg_01_op_mode, mode_stdby}
use grove_lo_ra_433mhz_and.Rf95.Setup.{
  init, plus, long_range_sleep, set_modem_config, set_preamble_length, set_frequency, set_tx_power,
  boost_power, modem_config,
}
use grove_lo_ra_433mhz_and.Rf95.Worlds.{at_world}
use grove_lo_ra_433mhz_and.Rf95.Registers.{
  frame, Puts, write-Puts, next-Puts, pure-Puts, registers-Puts,
}
use grove_lo_ra_433mhz_and.Rf95.Modes.{set_mode_idle-turns}
use grove_lo_ra_433mhz_and.Rf95.Interrupts.{read-IsSteady, write-IsSteady}

-- What is written to the chip: the FIFO's base addresses and the mode, then the modem's three registers,
-- the preamble's length in two, the frequency in three, and the power in two.
abbrev pub base_frames : List ℕ
base_frames = frame 0x0e 0 ++ frame 0x0f 0

abbrev pub configuration_frames : List ℕ
configuration_frames =
    (frame 0x1d 0x72 ++ frame 0x1e 0x74 ++ frame 0x26 0)
    ++ (frame 0x20 0 ++ frame 0x21 8)
    ++ (frame 0x06 217 ++ frame 0x07 0 ++ frame 0x08 0)
    ++ (frame 0x4d 0x04 ++ frame 0x09 0x88)

append_four : (x p q r s : List ℕ) → (((x ++ p) ++ q) ++ r) ++ s ≡ x ++ (p ++ (q ++ (r ++ s)))
append_four x p q r s =
    append_assoc ((x ++ p) ++ q) r s
    ∙ append_assoc (x ++ p) q (r ++ s)
    ∙ append_assoc x p (q ++ (r ++ s))

module _ {W : Type 0} {a : Arduino W} (o : Outbox a) (c : Clock a) (fuel : ℕ)
    (f : rx_rounds ≤ fuel) where
  open o use {outbox}

  modem-Puts :
      Puts o fuel
        (set_modem_config a fuel 0)
        true
        (frame 0x1d 0x72 ++ frame 0x1e 0x74 ++ frame 0x26 0)
  unfolding set_modem_config
  modem-Puts =
      next-Puts o fuel (registers-Puts o fuel (modem_config 0x72 0x74 0)) (pure-Puts o fuel true)

  preamble-Puts : Puts o fuel (set_preamble_length a fuel 8) tt (frame 0x20 0 ++ frame 0x21 8)
  unfolding set_preamble_length
  preamble-Puts = next-Puts o fuel (write-Puts o fuel _ _) (write-Puts o fuel _ _)

  frequency-Puts :
      Puts o fuel
        (set_frequency a fuel 14221312)
        true
        (frame 0x06 217 ++ frame 0x07 0 ++ frame 0x08 0)
  unfolding set_frequency
  frequency-Puts = next-Puts o fuel (write-Puts o fuel _ _) (
      next-Puts o fuel (write-Puts o fuel _ _)
        (next-Puts o fuel (write-Puts o fuel _ _) (pure-Puts o fuel true)))

  power-Puts :
      Puts o fuel (set_tx_power a fuel (plus 13) false) tt (frame 0x4d 0x04 ++ frame 0x09 0x88)
  unfolding set_tx_power boost_power
  power-Puts = next-Puts o fuel (write-Puts o fuel _ _) (write-Puts o fuel _ _)

  configuration-Puts :
      Puts o fuel
        (set_modem_config a fuel 0
          >> (set_preamble_length a fuel 8
              >> (set_frequency a fuel 14221312
                  >> (set_tx_power a fuel (plus 13) false >> pure true))))
        true
        configuration_frames
  configuration-Puts = next-Puts o fuel modem-Puts (
      next-Puts o fuel preamble-Puts
        (next-Puts o fuel frequency-Puts (next-Puts o fuel power-Puts (pure-Puts o fuel true))))

  -- From a device that is not idle `init` always returns. It writes the sleep mode, waits, and reads the
  -- mode back. If that is not the sleep mode with LoRa, it returns false, and the device is as it was.
  -- Otherwise it returns true, the device is idle, and what it has written since is the FIFO's base
  -- addresses, the standby mode and the default configuration.
  pub init_result :
      (d : Device (Chip W))
      → is_idle d.driver.mode ≡ false
      → (mode : ℕ) × (w₁ w₂ w : W) × (write a fuel reg_01_op_mode long_range_sleep
            (at_world d (a.serial_begin 57600 d.chip.world))
          ≡ done tt (at_world d w₁))
        × (read a fuel reg_01_op_mode (at_world d (a.delay 10 w₁)) ≡ done mode (at_world d w₂))
        × (((mode ≡ long_range_sleep)
              × (init a fuel d ≡ done true (on_driver (set_mode idle) (at_world d w)))
              × (outbox w
                  ≡ outbox w₂
                    ++ (base_frames ++ (frame reg_01_op_mode mode_stdby ++ configuration_frames))))
            ⊎ (((mode == long_range_sleep) ≡ false) × (init a fuel d ≡ done false (at_world d w))))
  unfolding init set_modem_config set_preamble_length set_frequency set_tx_power
  init_result d h =
      let (_, w₁, p₁) =
        (write-IsSteady c fuel f reg_01_op_mode long_range_sleep).apply d
          (a.serial_begin 57600 d.chip.world) in
      let (mode, w₂, p₂) = (read-IsSteady c fuel f reg_01_op_mode).apply d (a.delay 10 w₁) in
      elim (Bool-cases (mode == long_range_sleep)) [
        | inr q ↦
            let (_, w₃, p₃) = (read-IsSteady c fuel f reg_01_op_mode).apply d w₂ in
            (mode, w₁, w₂, w₃, p₁, p₂, inr (q, rw (p₁, p₂, q, p₃) refl))
        | inl q ↦
            let (w₃, p₃, o₃) = (write-Puts o fuel 0x0e 0).apply (at_world d w₂) in
            let (w₆, p₆, o₆) = (write-Puts o fuel 0x0f 0).apply (at_world d w₃) in
            let (w₄, p₄, o₄) = set_mode_idle-turns o fuel (at_world d w₆) h in
            let (w₅, p₅, o₅) =
              configuration-Puts.apply (on_driver (set_mode idle) (at_world d w₄)) in
            (
              mode,
              w₁,
              w₂,
              w₅,
              p₁,
              p₂,
              inl (
                ground arith,
                rw (p₁, p₂, q, p₃, p₆, p₄) p₅,
                o₅
                    ∙ ap (λ z. z ++ configuration_frames)
                        (o₄
                          ∙ ap (λ z. z ++ frame reg_01_op_mode mode_stdby)
                              (o₆ ∙ ap (λ z. z ++ frame 0x0f 0) o₃))
                    ∙ append_four (outbox w₂) (frame 0x0e 0) (frame 0x0f 0)
                        (frame reg_01_op_mode mode_stdby) configuration_frames,
              ),
            )
      ]
