-- ===== src/Examples/Packets.antt =====
-- Concrete runs of the packets between two radios.
use grove_lo_ra_433mhz_and.Prelude.{
  ℕ, ◌+◌, ◌*◌, ◌/◌, u16, u32, List, ◌≤◌, ◌<◌, ◌≡◌, refl, ◌⊎◌, some, true, false, [], ◌∷◌, ◌++◌,
  arith, blit, replicate,
}
use grove_lo_ra_433mhz_and.Prelude.Commands.{done, fault}
use grove_lo_ra_433mhz_and.Driver.{Driver, Device, idle, rx, set_mode}
use grove_lo_ra_433mhz_and.Uart
use grove_lo_ra_433mhz_and.Uart.{Arduino}
use grove_lo_ra_433mhz_and.Uart.Timing.{Clock, rx_rounds}
use grove_lo_ra_433mhz_and.Rf95.{
  Chip, on_driver, on_chip, send, recv, available, validate_rx_buf, reg_01_op_mode, mode_stdby,
  max_message_len,
}
use grove_lo_ra_433mhz_and.Rf95.Registers.{frame}
use grove_lo_ra_433mhz_and.Rf95.Packets.{Transmits, fifo_frames, send_result}
use grove_lo_ra_433mhz_and.Rf95.Worlds.{at_world}
use grove_lo_ra_433mhz_and.Rf95.Interrupts.{Received, idle_if_valid, stored}
use grove_lo_ra_433mhz_and.Rf95.Delivery.{Received-recv}
use grove_lo_ra_433mhz_and.Rf95.Receiving.{packet, recv-packet, recv_short}
use grove_lo_ra_433mhz_and.Examples.{driver}
use grove_lo_ra_433mhz_and.Examples.Wires.{Tape, tape, tape_outbox, blank}

-- Node 2 listens, and has a message for node 1.
abbrev listening : Driver
listening = record driver {
  mode = rx;
  this_address = 2;
  tx_header_to = 1;
  tx_header_from = 2;
  tx_header_id = 3;
}

abbrev sender : Device (Chip Tape)
sender = record {
  driver = listening;
  chip = record { buf = replicate 255 0; buf_len = 0; rx_buf_valid = false; world = blank };
}

send_result_example :
    ((max_message_len < 2) × (send tape 5 (42 ∷ 43 ∷ []) sender ≡ done false sender))
    ⊎ ((2 ≤ max_message_len)
        × Transmits tape_outbox 5
            (send tape 5 (42 ∷ 43 ∷ []))
            (frame reg_01_op_mode mode_stdby ++ fifo_frames listening (42 ∷ 43 ∷ []))
            sender)
send_result_example = send_result tape_outbox 5 (42 ∷ 43 ∷ []) sender (omega arith) refl

-- Node 1 has the packet in its buffer.
abbrev receiver : Device (Chip Tape)
receiver = record {
  driver = record driver { mode = rx };
  chip = record {
    buf = blit 0 (packet listening (42 ∷ 43 ∷ [])) (replicate 255 0);
    buf_len = 6;
    rx_buf_valid = false;
    world = blank;
  };
}

recv-packet_example :
    ((validate_rx_buf receiver).chip.rx_buf_valid ≡ true)
    × ((validate_rx_buf receiver).driver.rx_header_to ≡ 1)
    × ((validate_rx_buf receiver).driver.rx_header_from ≡ 2)
    × ((validate_rx_buf receiver).driver.rx_header_id ≡ 3)
    × ((validate_rx_buf receiver).driver.rx_header_flags ≡ 0)
    × (recv tape 5 (some 10) (validate_rx_buf receiver)
        ≡ done (some (42 ∷ 43 ∷ [])) (record (validate_rx_buf receiver) {
          chip = record ((validate_rx_buf receiver).chip) { rx_buf_valid = false; buf_len = 0 };
        }))
unfolding available validate_rx_buf Uart.uart_available
recv-packet_example =
    recv-packet tape 5 10 listening (42 ∷ 43 ∷ []) (replicate 255 0) receiver
      (validate_rx_buf receiver) (omega arith) refl refl refl refl refl

-- A packet of three octets has come before the valid message was received.
abbrev overtaken : Device (Chip Tape)
overtaken = record receiver { chip = record (receiver.chip) { rx_buf_valid = true; buf_len = 3 } }

recv_short_example :
    (validate_rx_buf overtaken ≡ overtaken)
    × (available tape 5 overtaken ≡ done true overtaken)
    × (recv tape 5 (some 10) overtaken ≡ fault)
unfolding available validate_rx_buf Uart.uart_available
recv_short_example = recv_short tape 5 10 overtaken overtaken refl (omega arith) refl

-- A port by which given octets come, with a clock of microseconds.
record Reel : Type 0 where
  time : ℕ
  coming : List ℕ

abbrev has_octet : List ℕ → ℕ
has_octet [] = 0
has_octet (b ∷ bs) = 1

abbrev next_octet : List ℕ → ℕ × List ℕ
next_octet [] = (0, [])
next_octet (b ∷ bs) = (b, bs)

abbrev reel : Arduino Reel
reel = record {
  serial_begin = λ rate w. w;
  serial_available = λ w. (has_octet w.coming, w);
  serial_read = λ w. ((next_octet w.coming).0, record w { coming = (next_octet w.coming).1 });
  serial_write = λ b w. w;
  millis = λ w. (u32 (w.time / 1000), record w { time = w.time + 1 });
  random = λ lo hi w. (lo, w);
  delay = λ ms w. record w { time = w.time + 1000 * ms };
}

reel_clock : Clock reel
reel_clock = record {
  now = λ w. w.time;
  millis_value = λ w. refl;
  millis_time = λ w. (omega arith, omega arith);
  available_time = λ w. (omega arith, omega arith);
  read_time = λ w. (omega arith, omega arith);
  write_time = λ b w. (omega arith, omega arith);
}

abbrev at : ℕ → List ℕ → Reel
at time coming = record { time = time; coming = coming }

-- The chip says that six octets have come, where they begin, which they are, and their strength.
abbrev sent_packet : List ℕ
sent_packet = 1 ∷ 2 ∷ 3 ∷ 0 ∷ 42 ∷ 43 ∷ []

abbrev awaiting : Device (Chip Reel)
awaiting = record {
  driver = record driver { mode = rx };
  chip = record {
    buf = replicate 255 0;
    buf_len = 0;
    rx_buf_valid = false;
    world = at 0 (6 ∷ 0 ∷ sent_packet ++ 100 ∷ []);
  };
}

abbrev taken_in : Device (Chip Reel)
taken_in = idle_if_valid (validate_rx_buf (stored 6 sent_packet 100 awaiting))

six_arrived : Received reel rx_rounds awaiting awaiting.chip.world taken_in
unfolding Uart.read Uart.uart_rx Uart.rx_loop Uart.write Uart.uart_tx Uart.burst_read Uart.put_all
six_arrived = record {
  len = 6;
  address = 0;
  octets = sent_packet;
  rssi = 100;
  w₁ = at 1 (0 ∷ sent_packet ++ 100 ∷ []);
  w₂ = at 2 (sent_packet ++ 100 ∷ []);
  w₃ = at 2 (sent_packet ++ 100 ∷ []);
  w₄ = at 8 (100 ∷ []);
  w₅ = at 8 (100 ∷ []);
  w₆ = at 9 [];
  len_read = refl;
  address_read = refl;
  address_written = refl;
  octets_read = refl;
  flags_cleared = refl;
  rssi_read = refl;
  result = refl;
}

Received-recv_example :
    (w'' : Reel) × (recv reel rx_rounds (some 10) (at_world taken_in (at 9 []))
      ≡ done (some (42 ∷ 43 ∷ [])) (
          at_world
            (on_driver
              (set_mode rx)
              (on_chip (λ c. record c { rx_buf_valid = false; buf_len = 0 }) taken_in))
            w''))
    × (taken_in.driver.mode ≡ idle)
    × (taken_in.driver.rx_good ≡ u16 (awaiting.driver.rx_good + 1))
    × (taken_in.driver.rx_header_to ≡ 1)
    × (taken_in.driver.rx_header_from ≡ 2)
    × (taken_in.driver.rx_header_id ≡ 3)
    × (taken_in.driver.rx_header_flags ≡ 0)
unfolding six_arrived
Received-recv_example =
    Received-recv reel_clock rx_rounds (omega arith) 10 listening (42 ∷ 43 ∷ []) awaiting taken_in
      awaiting.chip.world (at 9 []) (omega arith) refl refl six_arrived refl refl
