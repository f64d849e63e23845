-- ===== src/Rf95/Waiting.antt =====
-- The waiting loops of RHGenericDriver on RH_RF95, whatever the module sends and does not send.
use grove_lo_ra_433mhz_and.Prelude.{ℕ, ◌+◌, ◌*◌, ◌≤◌, ◌<◌}
use grove_lo_ra_433mhz_and.Driver.{Device}
use grove_lo_ra_433mhz_and.Driver.Wait.{wait_available_timeout, wait_packet_sent_timeout}
use grove_lo_ra_433mhz_and.Driver.Wait.Timing.{
  EndsBy, HasCome, HasEnded, wait_available_timeout-EndsBy, wait_packet_sent_timeout-EndsBy,
}
use grove_lo_ra_433mhz_and.Uart.{Arduino}
use grove_lo_ra_433mhz_and.Uart.Timing.{Clock, rx_rounds}
use grove_lo_ra_433mhz_and.Rf95.{Chip, available, millis}
use grove_lo_ra_433mhz_and.Rf95.Timing.{time, second, clock}

module _ {W : Type 0} {a : Arduino W} (c : Clock a) (fuel : ℕ) (f : rx_rounds ≤ fuel) where
  -- On RH_RF95, with a clock, the rounds for three seconds of polling, and a round for each microsecond of
  -- the timeout, waitAvailableTimeout always returns, at most 96 seconds after the time is out: true if
  -- `available` has just answered true, and false only when the milliseconds of the timeout have gone by.
  pub wait_available-EndsBy :
      (rounds timeout : ℕ) (d : Device (Chip W))
      → timeout < 65536
      → timeout * 1000 + 1002 ≤ rounds
      → EndsBy
          (clock c fuel f)
          (time c fuel d)
          timeout
          (time c fuel d + timeout * 1000 + 91 * second + 4001000)
          (HasCome (clock c fuel f))
          (wait_available_timeout (available a fuel) (millis a fuel) rounds timeout d)
  wait_available-EndsBy = wait_available_timeout-EndsBy (clock c fuel f)

  -- On RH_RF95, with a clock, the rounds for three seconds of polling, and a round for each microsecond of
  -- the timeout, waitPacketSent with a timeout always returns, at most 96 seconds after the time is out:
  -- true if no transmission is going on, and false only when the milliseconds of the timeout have gone
  -- by, though the module may never report the end of the transmission.
  pub wait_packet_sent-EndsBy :
      (rounds timeout : ℕ) (d : Device (Chip W))
      → timeout < 65536
      → timeout * 1000 + 1002 ≤ rounds
      → EndsBy
          (clock c fuel f)
          (time c fuel d)
          timeout
          (time c fuel d + timeout * 1000 + 91 * second + 4001000)
          (HasEnded (clock c fuel f))
          (wait_packet_sent_timeout (available a fuel) (millis a fuel) rounds timeout d)
  wait_packet_sent-EndsBy = wait_packet_sent_timeout-EndsBy (clock c fuel f)
