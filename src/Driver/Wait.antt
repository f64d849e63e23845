-- ===== src/Driver/Wait.antt =====
-- The waiting loops of RHGenericDriver.cpp. A loop makes at most the rounds that its fuel allows;
-- `YIELD` does nothing. `available` is the virtual function of the driver.
pub mod Timing
use grove_lo_ra_433mhz_and.Prelude.{ℕ, zero, suc, if◌then◌else◌, Bool, true, false, ltb, sub32}
use grove_lo_ra_433mhz_and.Prelude.Commands.{Cmd, out_of_fuel, pure, gets, ◌>>=◌, ◌>>◌}
use grove_lo_ra_433mhz_and.Driver.{Device, is_tx}

module _ {C : Type 0} (available : Cmd (Device C) Bool) (millis : Cmd (Device C) ℕ) where
  unfoldable pub wait_available : ℕ → Cmd (Device C) (Unit {0})
  wait_available zero d = out_of_fuel
  wait_available (suc fuel) d =
      (do ready ← available; if ready then pure tt else wait_available fuel) d

  unfoldable pub wait_available_timeout_loop : ℕ → (starttime timeout : ℕ) → Cmd (Device C) Bool
  wait_available_timeout_loop zero starttime timeout d = out_of_fuel
  wait_available_timeout_loop (suc fuel) starttime timeout d =
      (do
        now ← millis
        if ltb (sub32 now starttime) timeout
            then (do
              ready ← available
              if ready then pure true else wait_available_timeout_loop fuel starttime timeout)
            else pure false)
        d

  unfoldable pub wait_available_timeout : ℕ → ℕ → Cmd (Device C) Bool
  wait_available_timeout fuel timeout = do
    starttime ← millis
    wait_available_timeout_loop fuel starttime timeout

  unfoldable pub wait_packet_sent : ℕ → Cmd (Device C) Bool
  wait_packet_sent zero d = out_of_fuel
  wait_packet_sent (suc fuel) d =
      if is_tx d.driver.mode then (do available; wait_packet_sent fuel) d else pure true d

  unfoldable pub wait_packet_sent_timeout_loop : ℕ → (starttime timeout : ℕ) → Cmd (Device C) Bool
  wait_packet_sent_timeout_loop zero starttime timeout d = out_of_fuel
  wait_packet_sent_timeout_loop (suc fuel) starttime timeout d =
      (do
        now ← millis
        if ltb (sub32 now starttime) timeout
            then (do
              mode ← gets (λ e. e.driver.mode)
              if is_tx mode
                  then (do available; wait_packet_sent_timeout_loop fuel starttime timeout)
                  else pure true)
            else pure false)
        d

  unfoldable pub wait_packet_sent_timeout : ℕ → ℕ → Cmd (Device C) Bool
  wait_packet_sent_timeout fuel timeout = do
    starttime ← millis
    wait_packet_sent_timeout_loop fuel starttime timeout
