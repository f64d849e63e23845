-- ===== src/Rf95/Codes.antt =====
-- The sizes, registers and bits of RH_RF95.h that RH_RF95.cpp uses beyond its configuration.
use grove_lo_ra_433mhz_and.Prelude.{ℕ}

abbrev pub fifo_size : ℕ
fifo_size = 255

abbrev pub header_len : ℕ
header_len = 4

abbrev pub max_message_len : ℕ
max_message_len = 251

-- The registers and the bits of them that are used here.
abbrev pub reg_00_fifo : ℕ
reg_00_fifo = 0x00

abbrev pub reg_01_op_mode : ℕ
reg_01_op_mode = 0x01

abbrev pub reg_0d_fifo_addr_ptr : ℕ
reg_0d_fifo_addr_ptr = 0x0d

abbrev pub reg_10_fifo_rx_current_addr : ℕ
reg_10_fifo_rx_current_addr = 0x10

abbrev pub reg_12_irq_flags : ℕ
reg_12_irq_flags = 0x12

abbrev pub reg_13_rx_nb_bytes : ℕ
reg_13_rx_nb_bytes = 0x13

abbrev pub reg_1a_pkt_rssi_value : ℕ
reg_1a_pkt_rssi_value = 0x1a

abbrev pub reg_22_payload_length : ℕ
reg_22_payload_length = 0x22

abbrev pub reg_40_dio_mapping1 : ℕ
reg_40_dio_mapping1 = 0x40

abbrev pub mode_sleep : ℕ
mode_sleep = 0x00

abbrev pub mode_stdby : ℕ
mode_stdby = 0x01

abbrev pub mode_tx : ℕ
mode_tx = 0x03

abbrev pub mode_rxcontinuous : ℕ
mode_rxcontinuous = 0x05

-- RH_RF95_RX_TIMEOUT | RH_RF95_PAYLOAD_CRC_ERROR, RH_RF95_RX_DONE and RH_RF95_TX_DONE
abbrev pub rx_errors : ℕ
rx_errors = 0xa0

abbrev pub rx_done : ℕ
rx_done = 0x40

abbrev pub tx_done : ℕ
tx_done = 0x08
