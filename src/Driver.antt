-- ===== src/Driver.antt =====
-- RHGenericDriver.h and RHGenericDriver.cpp: the state that every driver keeps, the accessors to
-- it, and the interface `Radio` of the virtual functions that a particular driver supplies.
pub mod Wait
use grove_lo_ra_433mhz_and.Prelude.{ℕ, ◌-◌, Bool, true, false, Option, List, bit_and, bit_or}
use grove_lo_ra_433mhz_and.Prelude.Commands.{Cmd}

pub data RhMode : Type 0 where
  initialising sleeping idle tx rx : RhMode

abbrev pub is_tx : RhMode → Bool
is_tx tx = true
is_tx _ = false

abbrev pub is_rx : RhMode → Bool
is_rx rx = true
is_rx _ = false

abbrev pub is_idle : RhMode → Bool
is_idle idle = true
is_idle _ = false

abbrev pub is_sleeping : RhMode → Bool
is_sleeping sleeping = true
is_sleeping _ = false

abbrev pub broadcast_address : ℕ
broadcast_address = 0xff

-- RH_FLAGS_APPLICATION_SPECIFIC, the default of `setHeaderFlags`' second argument.
abbrev pub flags_application_specific : ℕ
flags_application_specific = 0x0f

abbrev pub flags_none : ℕ
flags_none = 0

-- The protected fields. The `uint16_t` counters wrap; `last_rssi` is an `int8_t`, kept as the byte
-- that holds it.
pub record Driver : Type 0 where
  pub mode : RhMode
  pub this_address : ℕ
  pub promiscuous : Bool
  pub rx_header_to : ℕ
  pub rx_header_from : ℕ
  pub rx_header_id : ℕ
  pub rx_header_flags : ℕ
  pub tx_header_to : ℕ
  pub tx_header_from : ℕ
  pub tx_header_id : ℕ
  pub tx_header_flags : ℕ
  pub last_rssi : ℕ
  pub rx_bad : ℕ
  pub rx_good : ℕ
  pub tx_good : ℕ

-- A driver and what its subclass keeps beside it, down to the port, the clock and the world.
pub record Device (C : Type 0) : Type 0 where
  pub driver : Driver
  pub chip : C

-- The virtual functions of `RHGenericDriver` that a subclass implements, with the two functions of
-- the Arduino core that the code above the driver calls, `millis` and `random`.
-- `send` is given the `len` octets at `data`. `recv` is given `*len`, or `none` for null pointers,
-- and returns `none` for false, or the octets that it has copied.
pub record Radio (C : Type 0) : Type 0 where
  pub init : Cmd (Device C) Bool
  pub available : Cmd (Device C) Bool
  pub recv : Option ℕ → Cmd (Device C) (Option (List ℕ))
  pub send : List ℕ → Cmd (Device C) Bool
  pub max_message_length : ℕ
  pub millis : Cmd (Device C) ℕ
  pub random : ℕ → ℕ → Cmd (Device C) ℕ

-- The constructor sets some fields and leaves the others as the memory was.
unfoldable pub new : Driver → Driver
new raw = record raw {
  mode = initialising;
  this_address = broadcast_address;
  tx_header_to = broadcast_address;
  tx_header_from = broadcast_address;
  tx_header_id = 0;
  tx_header_flags = 0;
  rx_bad = 0;
  rx_good = 0;
  tx_good = 0;
}

-- RHGenericDriver::init, which a particular driver overrides.
abbrev pub init : Driver → Bool
init d = true

unfoldable pub set_promiscuous : Bool → Driver → Driver
set_promiscuous promiscuous d = record d { promiscuous = promiscuous }

unfoldable pub set_this_address : ℕ → Driver → Driver
set_this_address address d = record d { this_address = address }

unfoldable pub set_header_to : ℕ → Driver → Driver
set_header_to to d = record d { tx_header_to = to }

unfoldable pub set_header_from : ℕ → Driver → Driver
set_header_from from d = record d { tx_header_from = from }

unfoldable pub set_header_id : ℕ → Driver → Driver
set_header_id id d = record d { tx_header_id = id }

-- `flags &= ~clear; flags |= set`, on bytes.
unfoldable pub set_header_flags : ℕ → ℕ → Driver → Driver
set_header_flags set clear d = record d {
  tx_header_flags = bit_or (bit_and d.tx_header_flags (255 - clear)) set;
}

abbrev pub header_to : Driver → ℕ
header_to d = d.rx_header_to

abbrev pub header_from : Driver → ℕ
header_from d = d.rx_header_from

abbrev pub header_id : Driver → ℕ
header_id d = d.rx_header_id

abbrev pub header_flags : Driver → ℕ
header_flags d = d.rx_header_flags

abbrev pub set_mode : RhMode → Driver → Driver
set_mode m d = record d { mode = m }

-- The generic driver cannot sleep.
abbrev pub sleep : Driver → Bool
sleep d = false
