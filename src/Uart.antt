-- ===== src/Uart.antt =====
-- RHUartDriver.h and RHUartDriver.cpp: the register protocol that the driver speaks over a serial
-- port to the Grove module, whose end of it is in Firmware.antt.
pub mod Frames
pub mod Octets
pub mod Reading
pub mod Timing
use grove_lo_ra_433mhz_and.Prelude.{
  ℕ, zero, suc, ◌*◌, ◌==◌, ltb, leb, if◌then◌else◌, Bool, true, false, List, [], ◌∷◌, ◌++◌, length,
  get_or, u8, sub32, bit_and, bit_or,
}
use grove_lo_ra_433mhz_and.Prelude.Commands.{Cmd, done, out_of_fuel, pure, modify, ◌>>=◌, ◌>>◌}

-- What the drivers take from the Arduino core: the port (`begin`, `available`, `read`, `write`),
-- `millis`, `random` and `delay`, over a world `W` in which the module and the time go on.
pub record Arduino (W : Type 0) : Type 0 where
  pub serial_begin : ℕ → W → W
  pub serial_available : W → ℕ × W
  pub serial_read : W → ℕ × W
  pub serial_write : ℕ → W → W
  pub millis : W → ℕ × W
  pub random : ℕ → ℕ → W → ℕ × W
  pub delay : ℕ → W → W

-- DEFAULT_TIMEOUT, in seconds, and RH_WRITE_MASK.
abbrev pub default_timeout : ℕ
default_timeout = 3

abbrev pub write_mask : ℕ
write_mask = 0x80

-- A function of the Arduino core as a command.
abbrev pub call : {W A : Type 0} → (W → A × W) → Cmd W A
call f w = let (a, w') = f w in done a w'

module _ {W : Type 0} (a : Arduino W) where
  abbrev pub init : Cmd W Bool
  init = do modify (a.serial_begin 57600); pure true

  abbrev pub put : ℕ → Cmd W (Unit {0})
  put b = modify (a.serial_write b)

  -- The loop of `uartTx` over the octets at `src`.
  unfoldable pub put_all : List ℕ → Cmd W (Unit {0})
  put_all [] = pure tt
  put_all (b ∷ bs) = do put b; put_all bs

  -- The results are `uint8_t`.
  unfoldable pub uart_available : Cmd W ℕ
  uart_available = do n ← call a.serial_available; pure (u8 n)

  unfoldable pub uart_read : Cmd W ℕ
  uart_read = do n ← call a.serial_read; pure (u8 n)

  unfoldable pub uart_tx : ℕ → List ℕ → Cmd W (Unit {0})
  unfolding put_all
  uart_tx reg src = do put b'W'; put reg; put (length src); put_all src

  -- The loop of `uartRx`; `received` is what it has written to `dest`.
  unfoldable pub rx_loop : ℕ → (len timer_start : ℕ) → (received : List ℕ) → Cmd W (List ℕ)
  rx_loop zero len timer_start received w = out_of_fuel
  rx_loop (suc fuel) len timer_start received w =
      (do
        ready ← call a.serial_available
        if ready == 0
            then (do
              timer_end ← call a.millis
              if ltb (1000 * default_timeout) (sub32 timer_end timer_start)
                  then pure received
                  else rx_loop fuel len timer_start received)
            else (do
              b ← call a.serial_read
              let received = received ++ u8 b ∷ []
              if leb len (length received) then pure received else (do
                timer_end ← call a.millis
                if ltb (1000 * default_timeout) (sub32 timer_end timer_start)
                    then pure received
                    else rx_loop fuel len timer_start received)))
        w

  -- The octets that `uartRx` has written at `dest`: fewer than `len` if the time ran out.
  unfoldable pub uart_rx : ℕ → (reg len : ℕ) → Cmd W (List ℕ)
  uart_rx fuel reg len = do
    put b'R'
    put reg
    put len
    timer_start ← call a.millis
    rx_loop fuel len timer_start []

  -- A register that cannot be read in time reads as 0.
  unfoldable pub read : (fuel reg : ℕ) → Cmd W ℕ
  unfolding uart_rx
  read fuel reg = do received ← uart_rx fuel (bit_and reg 0x7f) 1; pure (get_or received 0 0)

  unfoldable pub write : (reg val : ℕ) → Cmd W (Unit {0})
  unfolding uart_tx
  write reg val = uart_tx (bit_or reg write_mask) (val ∷ [])

  unfoldable pub burst_read : (fuel reg len : ℕ) → Cmd W (List ℕ)
  unfolding uart_rx
  burst_read fuel reg len = uart_rx fuel (bit_and reg 0x7f) len

  unfoldable pub burst_write : ℕ → List ℕ → Cmd W (Unit {0})
  unfolding uart_tx
  burst_write reg src = uart_tx (bit_or reg write_mask) src
