-- ===== src/Rf95/Setup.antt =====
-- The part of RH_RF95.cpp that configures the chip, and the driver as a `Radio`.
use grove_lo_ra_433mhz_and.Prelude.{
  not, ℕ, ◌+◌, ◌-◌, ◌/◌, ◌%◌, ◌==◌, ltb, if◌then◌else◌, Bool, true, false, none, some, List, [],
  ◌∷◌, get_elem?, bit_or,
}
use grove_lo_ra_433mhz_and.Prelude.Commands.{Cmd, fault, pure, modify, ◌>>=◌, ◌>>◌}
use grove_lo_ra_433mhz_and.Driver.{Device, Radio}
use grove_lo_ra_433mhz_and.Uart
use grove_lo_ra_433mhz_and.Uart.{Arduino}
use grove_lo_ra_433mhz_and.Rf95
use grove_lo_ra_433mhz_and.Rf95.{Chip, on_port, read, write, set_mode_idle, reg_01_op_mode}

abbrev pub reg_06_frf_msb : ℕ
reg_06_frf_msb = 0x06

abbrev pub reg_07_frf_mid : ℕ
reg_07_frf_mid = 0x07

abbrev pub reg_08_frf_lsb : ℕ
reg_08_frf_lsb = 0x08

abbrev pub reg_09_pa_config : ℕ
reg_09_pa_config = 0x09

abbrev pub reg_0e_fifo_tx_base_addr : ℕ
reg_0e_fifo_tx_base_addr = 0x0e

abbrev pub reg_0f_fifo_rx_base_addr : ℕ
reg_0f_fifo_rx_base_addr = 0x0f

abbrev pub reg_1d_modem_config1 : ℕ
reg_1d_modem_config1 = 0x1d

abbrev pub reg_1e_modem_config2 : ℕ
reg_1e_modem_config2 = 0x1e

abbrev pub reg_20_preamble_msb : ℕ
reg_20_preamble_msb = 0x20

abbrev pub reg_21_preamble_lsb : ℕ
reg_21_preamble_lsb = 0x21

abbrev pub reg_26_modem_config3 : ℕ
reg_26_modem_config3 = 0x26

abbrev pub reg_4d_pa_dac : ℕ
reg_4d_pa_dac = 0x4d

-- RH_RF95_PA_SELECT, RH_RF95_MAX_POWER, RH_RF95_PA_DAC_ENABLE and RH_RF95_PA_DAC_DISABLE
abbrev pub pa_select : ℕ
pa_select = 0x80

abbrev pub max_power : ℕ
max_power = 0x70

abbrev pub pa_dac_enable : ℕ
pa_dac_enable = 0x07

abbrev pub pa_dac_disable : ℕ
pa_dac_disable = 0x04

-- RH_RF95_MODE_SLEEP | RH_RF95_LONG_RANGE_MODE
abbrev pub long_range_sleep : ℕ
long_range_sleep = 0x80

pub record ModemConfig : Type 0 where
  pub reg_1d : ℕ
  pub reg_1e : ℕ
  pub reg_26 : ℕ

abbrev pub modem_config : ℕ → ℕ → ℕ → ModemConfig
modem_config a b c = record { reg_1d = a; reg_1e = b; reg_26 = c }

abbrev pub modem_config_table : List ModemConfig
modem_config_table =
    modem_config 0x72 0x74 0x00
    ∷ modem_config 0x92 0x74 0x00
    ∷ modem_config 0x48 0x94 0x00
    ∷ modem_config 0x78 0xc4 0x00
    ∷ []

-- The `int8_t` power, in dBm: `minus n` is -(n + 1).
pub data Power : Type 0 where
  plus : ℕ → Power
  minus : ℕ → Power

-- The setting for the RFO pin: the power plus one, after it is forced into -1 to 14.
unfoldable pub rfo_level : Power → ℕ
rfo_level (plus n) = (if ltb 14 n then 14 else n) + 1
rfo_level (minus n) = 0

-- The power for the PA_BOOST pin, forced into 5 to 23.
unfoldable pub boost_power : Power → ℕ
boost_power (plus n) = if ltb 23 n then 23 else if ltb n 5 then 5 else n
boost_power (minus n) = 5

-- The registers that `printRegisters` reads.
abbrev pub registers : List ℕ
registers =
    0x01 ∷ 0x06 ∷ 0x07 ∷ 0x08 ∷ 0x09 ∷ 0x0a ∷ 0x0b ∷ 0x0c ∷ 0x0d ∷ 0x0e ∷ 0x0f ∷ 0x10 ∷ 0x11 ∷ 0x12
    ∷ 0x13 ∷ 0x14 ∷ 0x15 ∷ 0x16 ∷ 0x17 ∷ 0x18 ∷ 0x19 ∷ 0x1a ∷ 0x1b ∷ 0x1c ∷ 0x1d ∷ 0x1e ∷ 0x1f
    ∷ 0x20 ∷ 0x21 ∷ 0x22 ∷ 0x23 ∷ 0x24 ∷ 0x25 ∷ 0x26 ∷ 0x27 ∷ []

module _ {W : Type 0} (a : Arduino W) (fuel : ℕ) where
  unfoldable pub set_modem_registers : ModemConfig → Cmd (Device (Chip W)) (Unit {0})
  set_modem_registers config = do
    write a fuel reg_1d_modem_config1 config.reg_1d
    write a fuel reg_1e_modem_config2 config.reg_1e
    write a fuel reg_26_modem_config3 config.reg_26

  -- The guard lets an index through that is one behind the table's last.
  unfoldable pub set_modem_config : ℕ → Cmd (Device (Chip W)) Bool
  unfolding set_modem_registers
  set_modem_config index =
      if ltb 4 index then pure false else elim (get_elem? modem_config_table index) [
        | none ↦ (λ _. fault)
        | some config ↦ do set_modem_registers config; pure true
      ]

  unfoldable pub set_preamble_length : ℕ → Cmd (Device (Chip W)) (Unit {0})
  set_preamble_length octets = do
    write a fuel reg_20_preamble_msb (octets / 256)
    write a fuel reg_21_preamble_lsb (octets % 256)

  -- `frf` is what the float expression `(centre * 1000000.0) / RH_RF95_FSTEP` gives as a `uint32_t`.
  unfoldable pub set_frequency : ℕ → Cmd (Device (Chip W)) Bool
  set_frequency frf = do
    write a fuel reg_06_frf_msb (frf / 65536 % 256)
    write a fuel reg_07_frf_mid (frf / 256 % 256)
    write a fuel reg_08_frf_lsb (frf % 256)
    pure true

  unfoldable pub set_tx_power : Power → Bool → Cmd (Device (Chip W)) (Unit {0})
  set_tx_power power use_rfo =
      if use_rfo then write a fuel reg_09_pa_config (bit_or max_power (rfo_level power)) else do
        let p = boost_power power
        write a fuel reg_4d_pa_dac (if ltb 20 p then pa_dac_enable else pa_dac_disable)
        write a fuel reg_09_pa_config (bit_or pa_select ((if ltb 20 p then p - 3 else p) - 5))

  -- 868.0 MHz in steps of 32 MHz / 524288.
  abbrev pub frf_868 : ℕ
  frf_868 = 14221312

  unfoldable pub init : Cmd (Device (Chip W)) Bool
  unfolding set_modem_config set_preamble_length set_frequency set_tx_power
  init = do
    on_port (Uart.init a)
    write a fuel reg_01_op_mode long_range_sleep
    on_port (modify (a.delay 10))
    mode ← read a fuel reg_01_op_mode
    if not (mode == long_range_sleep) then (do read a fuel reg_01_op_mode; pure false) else do
      write a fuel reg_0e_fifo_tx_base_addr 0
      write a fuel reg_0f_fifo_rx_base_addr 0
      set_mode_idle a fuel
      set_modem_config 0
      set_preamble_length 8
      set_frequency frf_868
      set_tx_power (plus 13) false
      pure true

  -- The loop of `printRegisters`, with the lines that it prints: a register and its value.
  unfoldable pub read_registers : List ℕ → Cmd (Device (Chip W)) (List (ℕ × ℕ))
  read_registers [] = pure []
  read_registers (reg ∷ regs) = do
    value ← read a fuel reg
    lines ← read_registers regs
    pure ((reg, value) ∷ lines)

  unfoldable pub print_registers : Cmd (Device (Chip W)) (List (ℕ × ℕ) × Bool)
  unfolding read_registers
  print_registers = do lines ← read_registers registers; pure (lines, true)

  -- RH_RF95 as a driver for the classes above it.
  abbrev pub radio : Radio (Chip W)
  radio = record {
    init = init;
    available = Rf95.available a fuel;
    recv = Rf95.recv a fuel;
    send = Rf95.send a fuel;
    max_message_length = Rf95.max_message_len;
    millis = Rf95.millis a fuel;
    random = λ lo hi. on_port (Uart.call (a.random lo hi));
  }
