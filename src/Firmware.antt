-- ===== src/Firmware.antt =====
-- examples/Grove_LoRa_firmware/Grove_LoRa_firmware.ino: the program of the Grove module, which
-- turns the register protocol of Uart.antt into transfers on the SPI bus of the radio.
pub mod Frames
pub mod Reading
pub mod Safety
pub mod Steps
use grove_lo_ra_433mhz_and.Prelude.{
  ℕ, zero, suc, ◌+◌, ◌-◌, ◌==◌, ltb, leb, if◌then◌else◌, Bool, true, false, not, ◌&&◌, ◌||◌, List,
  [], ◌∷◌, ◌++◌, set, take, replicate,
}

-- The SPI bus: the chip select pin goes low and high, and an octet is exchanged for another.
pub record Spi (S : Type 0) : Type 0 where
  pub select : S → S
  pub transfer : ℕ → S → ℕ × S
  pub deselect : S → S

-- The global variables, the bus, and the serial port: the octets that wait to be read, and those
-- that were written.
pub record Firmware (S : Type 0) : Type 0 where
  pub command : ℕ
  pub reg : ℕ
  pub len : ℕ
  pub buffer : List ℕ
  pub count : ℕ
  pub int_flag : Bool
  pub dio2_states : Bool
  pub bus : S
  pub pending : List ℕ
  pub output : List ℕ

abbrev pub buffer_size : ℕ
buffer_size = 255

abbrev pub Bool_eq : Bool → Bool → Bool
Bool_eq true b = b
Bool_eq false b = not b

module _ {S : Type 0} where
  -- The interrupt routines `isr0` and `isr1`.
  abbrev pub isr : Firmware S → Firmware S
  isr f = record f { int_flag = true }

  -- What `loop` does with the octet `b` that it finds waiting.
  unfoldable pub receive_byte : ℕ → List ℕ → Firmware S → Firmware S
  receive_byte b rest f =
      if f.count == 0
      then if b == b'W' || b == b'R'
        then record f { command = b; count = 1; pending = rest }
        else record f { pending = rest }
      else if f.count == 1
      then record f { reg = b; count = 2; pending = rest }
      else if f.count == 2
      then record f { len = b; count = 3; pending = rest }
      else if f.command == b'W' && ltb 2 f.count && ltb f.count (f.len + 3)
      then record f { buffer = set f.buffer (f.count - 3) b; count = f.count + 1; pending = rest }
      else f

  unfoldable pub receive_pending : List ℕ → Firmware S → Firmware S
  unfolding receive_byte
  receive_pending [] f = f
  receive_pending (b ∷ rest) f = receive_byte b rest f

  unfoldable pub reset : Firmware S → Firmware S
  reset f = record f { command = 0; reg = 0; len = 0; buffer = replicate buffer_size 0; count = 0 }

  -- The pin DIO2, and the notice to the host.
  unfoldable pub notify : Bool → Firmware S → Firmware S
  notify dio2 f =
      let raised = not (Bool_eq f.dio2_states dio2) && not f.dio2_states in
      let flag = f.int_flag || raised in
      record f {
        dio2_states = dio2;
        int_flag = false;
        output = if flag then f.output ++ b'I' ∷ [] else f.output;
      }

module _ {S : Type 0} (spi : Spi S) where
  -- The octets out, and those that come back are not looked at.
  unfoldable pub send_all : List ℕ → S → S
  send_all [] s = s
  send_all (b ∷ bs) s = send_all bs (spi.transfer b s).1

  -- `len` octets in.
  unfoldable pub receive_all : ℕ → S → List ℕ × S
  receive_all zero s = ([], s)
  receive_all (suc n) s =
      let (b, s') = spi.transfer 0 s in let (bs, t) = receive_all n s' in (b ∷ bs, t)

  unfoldable pub spi_write : ℕ → List ℕ → S → S
  unfolding send_all
  spi_write reg octets s = spi.deselect (send_all octets (spi.transfer reg (spi.select s)).1)

  unfoldable pub spi_read : ℕ → ℕ → S → List ℕ × S
  unfolding receive_all
  spi_read reg n s =
      let (octets, t) = receive_all n (spi.transfer reg (spi.select s)).1 in
      (octets, spi.deselect t)

  unfoldable pub execute : Firmware S → Firmware S
  unfolding spi_write spi_read reset
  execute f =
      if f.command == b'W' && leb (f.len + 3) f.count
      then reset (record f { bus = spi_write f.reg (take f.len f.buffer) f.bus })
      else if f.command == b'R' && leb 3 f.count
      then (let (octets, s) = spi_read f.reg f.len f.bus in
          reset (record f { bus = s; output = f.output ++ octets }))
      else f

  -- One call of `loop`, with the level of DIO2 that it reads.
  unfoldable pub loop : Bool → Firmware S → Firmware S
  unfolding receive_pending execute notify
  loop dio2 f = notify dio2 (execute (receive_pending f.pending f))

  -- A call for each level.
  unfoldable pub run : List Bool → Firmware S → Firmware S
  run [] f = f
  run (level ∷ levels) f = run levels (loop level f)

-- The pins of the board, and the numbers of its interrupts.
abbrev pub dio0_int : ℕ
dio0_int = 0

abbrev pub dio1_int : ℕ
dio1_int = 1

abbrev pub dio2_pin : ℕ
dio2_pin = 5

abbrev pub cs_pin : ℕ
cs_pin = 10

pub data PinMode : Type 0 where
  input output : PinMode

pub data Isr : Type 0 where
  isr0 isr1 : Isr

-- What `setup` calls of the Arduino core.
pub record Board (S : Type 0) : Type 0 where
  pub serial_begin : ℕ → S → S
  pub pin_mode : ℕ → PinMode → S → S
  pub digital_write : ℕ → Bool → S → S
  pub attach_rising : ℕ → Isr → S → S
  pub spi_begin : S → S

module _ {S : Type 0} where
  -- The globals as they are initialised.
  abbrev pub power_on : S → Firmware S
  power_on s = record {
    command = 0;
    reg = 0;
    len = 0;
    buffer = replicate buffer_size 0;
    count = 0;
    int_flag = false;
    dio2_states = false;
    bus = s;
    pending = [];
    output = [];
  }

  unfoldable pub setup : Board S → Firmware S → Firmware S
  setup board f =
      let s₁ = board.serial_begin 57600 f.bus in
      let s₂ = board.digital_write cs_pin true (board.pin_mode cs_pin output s₁) in
      let s₃ = board.attach_rising dio1_int isr1 (board.attach_rising dio0_int isr0 s₂) in
      record f { bus = board.spi_begin (board.pin_mode dio2_pin input s₃) }
