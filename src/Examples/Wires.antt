-- ===== src/Examples/Wires.antt =====
-- Concrete runs of the register protocol and of the configuration of the chip.
use grove_lo_ra_433mhz_and.Prelude.{
  ℕ, ◌+◌, ◌*◌, ◌/◌, ◌≤◌, ◌<◌, ◌≡◌, refl, ◌⊎◌, some, Bool, true, false, List, [], ◌∷◌, ◌++◌, arith,
  replicate, u32, bit_or, get_elem?,
}
use grove_lo_ra_433mhz_and.Prelude.Commands.{fault}
use grove_lo_ra_433mhz_and.Driver.{Device}
use grove_lo_ra_433mhz_and.Uart.{Arduino, burst_write}
use grove_lo_ra_433mhz_and.Uart.Frames.{Outbox}
use grove_lo_ra_433mhz_and.Uart.Timing.{Clock}
use grove_lo_ra_433mhz_and.Firmware.{Firmware, Spi, run, spi_write}
use grove_lo_ra_433mhz_and.Firmware.Frames.{IsIdle, Written}
use grove_lo_ra_433mhz_and.Protocol.{run-burst_write}
use grove_lo_ra_433mhz_and.Rf95.{Chip}
use grove_lo_ra_433mhz_and.Rf95.Setup.{
  ModemConfig, modem_config_table, plus, set_modem_config, set_frequency, set_tx_power,
  reg_1d_modem_config1, reg_1e_modem_config2, reg_26_modem_config3, reg_06_frf_msb, reg_07_frf_mid,
  reg_08_frf_lsb, reg_09_pa_config, reg_4d_pa_dac, pa_dac_enable, pa_dac_disable, pa_select,
}
use grove_lo_ra_433mhz_and.Rf95.Registers.{
  frame, Puts, nearest_power, set_modem_config_result, set_frequency_result, set_tx_power_result,
}

-- A port that nothing comes in by, with a clock of microseconds.
pub record Tape : Type 0 where
  pub time : ℕ
  pub out : List ℕ

abbrev pub tape : Arduino Tape
tape = record {
  serial_begin = λ rate w. w;
  serial_available = λ w. (0, w);
  serial_read = λ w. (0, w);
  serial_write = λ b w. record w { out = w.out ++ b ∷ [] };
  millis = λ w. (u32 (w.time / 1000), record w { time = w.time + 1 });
  random = λ lo hi w. (lo, w);
  delay = λ ms w. record w { time = w.time + 1000 * ms };
}

abbrev pub blank : Tape
blank = record { time = 0; out = [] }

pub tape_clock : Clock tape
tape_clock = record {
  now = λ w. w.time;
  millis_value = λ w. refl;
  millis_time = λ w. (omega arith, omega arith);
  available_time = λ w. (omega arith, omega arith);
  read_time = λ w. (omega arith, omega arith);
  write_time = λ b w. (omega arith, omega arith);
}

abbrev pub tape_outbox : Outbox tape
tape_outbox = record { outbox = λ w. w.out; written = λ b w. refl }

-- A bus that keeps what is sent and answers 7.
abbrev pub bus : Spi (List ℕ)
bus = record { select = λ s. s; transfer = λ b s. (7, s ++ b ∷ []); deselect = λ s. s }

abbrev pub fresh : List ℕ → Firmware (List ℕ)
fresh pending = record {
  command = 0;
  reg = 0;
  len = 0;
  buffer = replicate 255 0;
  count = 0;
  int_flag = false;
  dio2_states = false;
  bus = [];
  pending = pending;
  output = [];
}

pub fresh-IsIdle : (pending : List ℕ) → IsIdle (fresh pending)
fresh-IsIdle pending = record { command = refl; count = refl; size = refl }

abbrev five_levels : List Bool
five_levels = false ∷ true ∷ false ∷ false ∷ true ∷ []

run-burst_write_example :
    Written bus
      (run bus five_levels (fresh (b'W' ∷ 0x9d ∷ 2 ∷ 1 ∷ 2 ∷ [])))
      []
      (spi_write bus (bit_or 0x1d 0x80) (1 ∷ 2 ∷ []) [])
unfolding burst_write
run-burst_write_example =
    run-burst_write tape_outbox bus five_levels (fresh (b'W' ∷ 0x9d ∷ 2 ∷ 1 ∷ 2 ∷ [])) 0x1d
      (1 ∷ 2 ∷ []) {w = blank} {w' = record { time = 0; out = b'W' ∷ 0x9d ∷ 2 ∷ 1 ∷ 2 ∷ [] }} refl
      refl (omega arith) (fresh-IsIdle _) refl refl

set_modem_config_result_example :
    ((c : ModemConfig) × (get_elem? modem_config_table 3 ≡ some c)
      × Puts tape_outbox 5 (set_modem_config tape 5 3) true (
          frame reg_1d_modem_config1 c.reg_1d
          ++ frame reg_1e_modem_config2 c.reg_1e
          ++ frame reg_26_modem_config3 c.reg_26))
    ⊎ ((◌≡◌ {A = ℕ} 3 4) × ((d : Device (Chip Tape)) → set_modem_config tape 5 3 d ≡ fault))
    ⊎ ((4 < 3) × Puts tape_outbox 5 (set_modem_config tape 5 3) false [])
set_modem_config_result_example = set_modem_config_result tape_outbox 5 3

set_frequency_result_example :
    (msb mid lsb : ℕ) × Puts tape_outbox 5
      (set_frequency tape 5 14221312)
      true
      (frame reg_06_frf_msb msb ++ frame reg_07_frf_mid mid ++ frame reg_08_frf_lsb lsb)
    × (msb < 256)
    × (mid < 256)
    × (lsb < 256)
    × (msb * 65536 + mid * 256 + lsb ≡ 14221312)
set_frequency_result_example = set_frequency_result tape_outbox 5 14221312 (omega arith)

set_tx_power_result_example :
    (dac level : ℕ) × Puts tape_outbox 5
      (set_tx_power tape 5 (plus 23) false)
      tt
      (frame reg_4d_pa_dac dac ++ frame reg_09_pa_config (bit_or pa_select level))
    × (level ≤ 15)
    × (((dac ≡ pa_dac_enable) × (level + 8 ≡ nearest_power (plus 23)))
        ⊎ ((dac ≡ pa_dac_disable) × (level + 5 ≡ nearest_power (plus 23))))
set_tx_power_result_example = set_tx_power_result tape_outbox 5 (plus 23)
