-- ===== src/Rf95.antt =====
-- RH_RF95.h and RH_RF95.cpp: the driver of the RFM95 radio behind the serial port.
pub mod Setup
pub mod Registers
pub mod Modes
pub mod Packets
pub mod Receiving
pub mod Codes
pub mod Interrupts
pub mod Timing
pub mod Waiting
pub mod Delivery
pub mod Starting
pub mod Worlds
use grove_lo_ra_433mhz_and.Prelude.{
  ℕ, zero, suc, ◌+◌, ◌==◌, ltb, leb, if◌then◌else◌, Bool, true, false, not, ◌&&◌, ◌||◌, Option,
  none, some, List, [], ◌∷◌, length, get_or, take, drop, blit, u8, u16, sub8, bit_and, bit_or, min,
}
use grove_lo_ra_433mhz_and.Prelude.Commands.{
  Cmd, Run, done, fault, pure, get, gets, modify, when, ◌>>=◌, ◌>>◌,
}
use grove_lo_ra_433mhz_and.Driver.{
  Driver, Device, RhMode, idle, rx, tx, is_idle, is_rx, is_tx, is_sleeping, sleeping, set_mode,
  broadcast_address,
}
use grove_lo_ra_433mhz_and.Driver.Wait
use grove_lo_ra_433mhz_and.Uart
use grove_lo_ra_433mhz_and.Uart.{Arduino}
pub use Codes.{
  fifo_size, header_len, max_message_len, reg_00_fifo, reg_01_op_mode, reg_0d_fifo_addr_ptr,
  reg_10_fifo_rx_current_addr, reg_12_irq_flags, reg_13_rx_nb_bytes, reg_1a_pkt_rssi_value,
  reg_22_payload_length, reg_40_dio_mapping1, mode_sleep, mode_stdby, mode_tx, mode_rxcontinuous,
  rx_errors, rx_done, tx_done,
}

-- The private fields of RH_RF95, and the world behind its port.
pub record Chip (W : Type 0) : Type 0 where
  pub buf : List ℕ
  pub buf_len : ℕ
  pub rx_buf_valid : Bool
  pub world : W

-- How many octets `recv` copies: an `int` difference that is assigned to the `uint8_t` at `len`.
unfoldable pub recv_length : (len buf_len : ℕ) → ℕ
recv_length len buf_len =
    if ltb (len + header_len) (buf_len + 1) then len else sub8 buf_len header_len

module _ {W : Type 0} where
  abbrev pub on_port : {A : Type 0} → Cmd W A → Cmd (Device (Chip W)) A
  on_port m d = elim (m d.chip.world) [
    | done a w ↦ done a (record d { chip = record (d.chip) { world = w } })
    | Run.fault ↦ Run.fault
    | Run.out_of_fuel ↦ Run.out_of_fuel
  ]

  abbrev pub on_driver : (Driver → Driver) → Device (Chip W) → Device (Chip W)
  on_driver f d = record d { driver = f d.driver }

  abbrev pub on_chip : (Chip W → Chip W) → Device (Chip W) → Device (Chip W)
  on_chip f d = record d { chip = f d.chip }

  unfoldable pub validate_rx_buf : Device (Chip W) → Device (Chip W)
  validate_rx_buf d =
      if ltb d.chip.buf_len 4
      then d
      else let d' =
          on_driver
            (λ g. record g {
              rx_header_to = get_or d.chip.buf 0 0;
              rx_header_from = get_or d.chip.buf 1 0;
              rx_header_id = get_or d.chip.buf 2 0;
              rx_header_flags = get_or d.chip.buf 3 0;
            })
            d in
        if d'.driver.promiscuous
          || d'.driver.rx_header_to == d'.driver.this_address
          || d'.driver.rx_header_to == broadcast_address
        then on_chip (λ c. record c { rx_buf_valid = true })
            (on_driver (λ g. record g { rx_good = u16 (g.rx_good + 1) }) d')
        else d'

  unfoldable pub clear_rx_buf : Device (Chip W) → Device (Chip W)
  clear_rx_buf = on_chip (λ c. record c { rx_buf_valid = false; buf_len = 0 })

module _ {W : Type 0} (a : Arduino W) (fuel : ℕ) where
  abbrev pub read : ℕ → Cmd (Device (Chip W)) ℕ
  read reg = on_port (Uart.read a fuel reg)

  abbrev pub write : (reg val : ℕ) → Cmd (Device (Chip W)) (Unit {0})
  write reg val = on_port (Uart.write a reg val)

  abbrev pub millis : Cmd (Device (Chip W)) ℕ
  millis = on_port (Uart.call a.millis)

  unfoldable pub set_mode_idle : Cmd (Device (Chip W)) (Unit {0})
  set_mode_idle = do
    mode ← gets (λ d. d.driver.mode)
    when (not (is_idle mode))
        (do write reg_01_op_mode mode_stdby; modify (on_driver (set_mode idle)))

  unfoldable pub sleep : Cmd (Device (Chip W)) Bool
  sleep = do
    mode ← gets (λ d. d.driver.mode)
    when (not (is_sleeping mode))
        (do write reg_01_op_mode mode_sleep; modify (on_driver (set_mode sleeping)))
    pure true

  unfoldable pub set_mode_rx : Cmd (Device (Chip W)) (Unit {0})
  set_mode_rx = do
    mode ← gets (λ d. d.driver.mode)
    when (not (is_rx mode)) (do
      write reg_01_op_mode mode_rxcontinuous
      write reg_40_dio_mapping1 0x00
      modify (on_driver (set_mode rx)))

  unfoldable pub set_mode_tx : Cmd (Device (Chip W)) (Unit {0})
  set_mode_tx = do
    mode ← gets (λ d. d.driver.mode)
    when (not (is_tx mode)) (do
      write reg_01_op_mode mode_tx
      write reg_40_dio_mapping1 0x40
      modify (on_driver (set_mode tx)))

  -- The branch of `handleInterrupt` for a packet that has come in.
  unfoldable pub receive_packet : Cmd (Device (Chip W)) (Unit {0})
  unfolding validate_rx_buf set_mode_idle
  receive_packet = do
    len ← read reg_13_rx_nb_bytes
    address ← read reg_10_fifo_rx_current_addr
    write reg_0d_fifo_addr_ptr address
    octets ← on_port (Uart.burst_read a fuel reg_00_fifo len)
    modify (on_chip (λ c. record c { buf = blit 0 octets c.buf; buf_len = len }))
    write reg_12_irq_flags 0xff
    rssi ← read reg_1a_pkt_rssi_value
    modify (on_driver (λ g. record g { last_rssi = sub8 rssi 137 }))
    modify validate_rx_buf
    is_valid ← gets (λ d. d.chip.rx_buf_valid)
    when is_valid set_mode_idle

  unfoldable pub handle_interrupt : Cmd (Device (Chip W)) (Unit {0})
  unfolding receive_packet
  handle_interrupt = do
    irq_flags ← read reg_12_irq_flags
    mode ← gets (λ d. d.driver.mode)
    if is_rx mode && not (bit_and irq_flags rx_errors == 0)
        then modify (on_driver (λ g. record g { rx_bad = u16 (g.rx_bad + 1) }))
        else if is_rx mode && not (bit_and irq_flags rx_done == 0)
        then receive_packet
        else when (is_tx mode && not (bit_and irq_flags tx_done == 0))
            (do modify (on_driver (λ g. record g { tx_good = u16 (g.tx_good + 1) })); set_mode_idle)
    write reg_12_irq_flags 0xff

  -- A byte from the module is an interrupt if it is an 'I'.
  unfoldable pub poll_interrupt : Cmd (Device (Chip W)) (Unit {0})
  unfolding handle_interrupt
  poll_interrupt = do
    ready ← on_port (Uart.uart_available a)
    when (not (ready == 0)) (do b ← on_port (Uart.uart_read a); when (b == b'I') handle_interrupt)

  unfoldable pub available : Cmd (Device (Chip W)) Bool
  unfolding poll_interrupt set_mode_rx
  available = do
    poll_interrupt
    mode ← gets (λ d. d.driver.mode)
    if is_tx mode then pure false else do set_mode_rx; gets (λ d. d.chip.rx_buf_valid)

  -- `recv`, with `*len`, or `none` for null pointers.
  unfoldable pub recv : Option ℕ → Cmd (Device (Chip W)) (Option (List ℕ))
  unfolding available clear_rx_buf recv_length
  recv len = do
    ready ← available
    if not ready then pure none else do
      c ← gets (λ d. d.chip)
      modify clear_rx_buf
      elim len [
        | none ↦ pure (some [])
        | some room ↦
            if ltb fifo_size (header_len + recv_length room c.buf_len)
            then (λ _. fault)
            else pure (some (take (recv_length room c.buf_len) (drop header_len c.buf)))
      ]

  unfoldable pub send : List ℕ → Cmd (Device (Chip W)) Bool
  unfolding available set_mode_idle set_mode_tx
  send octets = if ltb max_message_len (length octets) then pure false else do
    Wait.wait_packet_sent available millis fuel
    set_mode_idle
    write reg_0d_fifo_addr_ptr 0
    g ← gets (λ d. d.driver)
    write reg_00_fifo g.tx_header_to
    write reg_00_fifo g.tx_header_from
    write reg_00_fifo g.tx_header_id
    write reg_00_fifo g.tx_header_flags
    on_port (Uart.burst_write a reg_00_fifo octets)
    write reg_22_payload_length (length octets + header_len)
    set_mode_tx
    pure true
