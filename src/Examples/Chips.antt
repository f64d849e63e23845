-- ===== src/Examples/Chips.antt =====
-- The driver of the radio over a port that nothing comes in by.
use grove_lo_ra_433mhz_and.Prelude.{
  ℕ, ◌≡◌, ◌+◌, ◌*◌, ◌++◌, ◌==◌, ◌⊎◌, refl, true, false, replicate, arith,
}
use grove_lo_ra_433mhz_and.Prelude.Commands.{done}
use grove_lo_ra_433mhz_and.Prelude.Takes.{Takes}
use grove_lo_ra_433mhz_and.Driver.{Device, idle, set_mode, rx, tx, is_idle, is_rx, is_tx}
use grove_lo_ra_433mhz_and.Uart.Timing.{rx_rounds}
use grove_lo_ra_433mhz_and.Rf95.{
  Chip, on_driver, read, write, millis, set_mode_idle, set_mode_rx, set_mode_tx, reg_01_op_mode,
  reg_40_dio_mapping1, mode_stdby, mode_rxcontinuous, mode_tx, handle_interrupt, reg_12_irq_flags,
  available,
}
use grove_lo_ra_433mhz_and.Rf95.Worlds.{at_world}
use grove_lo_ra_433mhz_and.Rf95.Interrupts.{Handled, handle_interrupt-cases}
use grove_lo_ra_433mhz_and.Rf95.Timing.{time, second, available-Takes, clock}
use grove_lo_ra_433mhz_and.Rf95.Setup.{init, long_range_sleep}
use grove_lo_ra_433mhz_and.Rf95.Starting.{init_result, base_frames, configuration_frames}
use grove_lo_ra_433mhz_and.Rf95.Modes.{Enters, set_mode_result}
use grove_lo_ra_433mhz_and.Rf95.Registers.{frame}
use grove_lo_ra_433mhz_and.Rf95.Waiting.{wait_available-EndsBy, wait_packet_sent-EndsBy}
use grove_lo_ra_433mhz_and.Driver.Wait.{wait_available_timeout, wait_packet_sent_timeout}
use grove_lo_ra_433mhz_and.Driver.Wait.Timing.{EndsBy, HasCome, HasEnded}
use grove_lo_ra_433mhz_and.Examples.{driver}
use grove_lo_ra_433mhz_and.Examples.Wires.{Tape, blank, tape, tape_clock, tape_outbox}

available-Takes_example : Takes (time tape_clock rx_rounds) (91 * second) (available tape rx_rounds)
available-Takes_example = available-Takes tape_clock rx_rounds (omega arith)

-- A chip that receives, in a driver whose port is silent.
abbrev receiving : Device (Chip Tape)
receiving = record {
  driver = record driver { mode = rx };
  chip = record { buf = replicate 255 0; buf_len = 0; rx_buf_valid = false; world = blank };
}

handle_interrupt-cases_example :
    (irq_flags : ℕ) × (e : Device (Chip Tape)) × (w₁ w₂ : Tape) × (read tape rx_rounds
        reg_12_irq_flags receiving
      ≡ done irq_flags (at_world receiving w₁))
    × (handle_interrupt tape rx_rounds receiving ≡ done tt (at_world e w₂))
    × Handled tape rx_rounds irq_flags receiving w₁ e
handle_interrupt-cases_example = handle_interrupt-cases tape_clock rx_rounds (omega arith) receiving

-- A device that is sending, on a port by which nothing comes.
abbrev sending : Device (Chip Tape)
sending = record receiving { driver = record driver { mode = tx } }

wait_available-EndsBy_example :
    EndsBy
      (clock tape_clock rx_rounds (omega arith))
      (time tape_clock rx_rounds receiving)
      200
      (time tape_clock rx_rounds receiving + 200 * 1000 + 91 * second + 4001000)
      (HasCome (clock tape_clock rx_rounds (omega arith)))
      (wait_available_timeout
        (available tape rx_rounds)
        (millis tape rx_rounds)
        201002
        200
        receiving)
wait_available-EndsBy_example =
    wait_available-EndsBy tape_clock rx_rounds (omega arith) 201002 200 receiving (omega arith)
      (omega arith)

wait_packet_sent-EndsBy_example :
    EndsBy
      (clock tape_clock rx_rounds (omega arith))
      (time tape_clock rx_rounds sending)
      200
      (time tape_clock rx_rounds sending + 200 * 1000 + 91 * second + 4001000)
      (HasEnded (clock tape_clock rx_rounds (omega arith)))
      (wait_packet_sent_timeout
        (available tape rx_rounds)
        (millis tape rx_rounds)
        201002
        200
        sending)
wait_packet_sent-EndsBy_example =
    wait_packet_sent-EndsBy tape_clock rx_rounds (omega arith) 201002 200 sending (omega arith)
      (omega arith)

set_mode_result_example :
    Enters tape_outbox 5 (set_mode_idle tape 5) is_idle (frame reg_01_op_mode mode_stdby)
    × Enters tape_outbox 5
        (set_mode_rx tape 5)
        is_rx
        (frame reg_01_op_mode mode_rxcontinuous ++ frame reg_40_dio_mapping1 0x00)
    × Enters tape_outbox 5
        (set_mode_tx tape 5)
        is_tx
        (frame reg_01_op_mode mode_tx ++ frame reg_40_dio_mapping1 0x40)
set_mode_result_example = set_mode_result tape_outbox 5

init_result_example :
    (mode : ℕ) × (w₁ w₂ w : Tape) × (write tape rx_rounds reg_01_op_mode long_range_sleep
        (at_world receiving (tape.serial_begin 57600 blank))
      ≡ done tt (at_world receiving w₁))
    × (read tape rx_rounds reg_01_op_mode (at_world receiving (tape.delay 10 w₁))
        ≡ done mode (at_world receiving w₂))
    × (((mode ≡ long_range_sleep)
          × (init tape rx_rounds receiving
              ≡ done true (on_driver (set_mode idle) (at_world receiving w)))
          × (tape_outbox.outbox w
              ≡ tape_outbox.outbox w₂
                ++ (base_frames ++ (frame reg_01_op_mode mode_stdby ++ configuration_frames))))
        ⊎ (((mode == long_range_sleep) ≡ false)
            × (init tape rx_rounds receiving ≡ done false (at_world receiving w))))
init_result_example = init_result tape_outbox tape_clock rx_rounds (omega arith) receiving refl
