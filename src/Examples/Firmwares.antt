-- ===== src/Examples/Firmwares.antt =====
-- Concrete runs of the firmware: broken frames, interrupts, and a driver that reads over the port.
use grove_lo_ra_433mhz_and.Prelude.{
  ℕ, zero, suc, ◌*◌, ◌%◌, ◌+◌, ◌-◌, ◌≤◌, ◌<◌, ◌≡◌, refl, ◌⊎◌, inl, inr, Bool, true, false, List, [],
  ◌∷◌, ◌++◌, length, take, drop, replicate, arith, u32, bit_and, ◌/◌,
}
use grove_lo_ra_433mhz_and.Prelude.Commands.{done}
use grove_lo_ra_433mhz_and.Uart.{Arduino, read, burst_read}
use grove_lo_ra_433mhz_and.Uart.Frames.{Outbox}
use grove_lo_ra_433mhz_and.Uart.Timing.{Clock, rx_rounds}
use grove_lo_ra_433mhz_and.Uart.Reading.{Inbox}
use grove_lo_ra_433mhz_and.Firmware.{
  Firmware, Board, run, loop, isr, receive_pending, setup, power_on, spi_read,
}
use grove_lo_ra_433mhz_and.Firmware.Frames.{IsIdle, Written}
use grove_lo_ra_433mhz_and.Firmware.Reading.{notice, run-notices}
use grove_lo_ra_433mhz_and.Firmware.Steps.{Reach, start, later, called, interrupted, came}
use grove_lo_ra_433mhz_and.Firmware.Safety.{Reach-loop, Reach-settles}
use grove_lo_ra_433mhz_and.Protocol.{answer, burst_read-answer, read-notice}
use grove_lo_ra_433mhz_and.Examples.Wires.{bus, fresh, fresh-IsIdle}

-- A board whose calls leave the bus as it is.
abbrev board : Board (List ℕ)
board = record {
  serial_begin = λ rate s. s;
  pin_mode = λ pin mode s. s;
  digital_write = λ pin level s. s;
  attach_rising = λ number isr s. s;
  spi_begin = λ s. s;
}

-- The module has started, and the first two octets of a write frame came and were taken, with an interrupt
-- between them.
abbrev put : ℕ → Firmware (List ℕ) → Firmware (List ℕ)
put b f = record f { pending = f.pending ++ b ∷ [] }

abbrev broken : Firmware (List ℕ)
broken = loop bus false (put 0x9d (isr (loop bus false (put b'W' (setup board (power_on []))))))

broken-Reach : Reach bus board [] broken
broken-Reach =
    later
      (later (later (later (later start (came b'W' (omega arith))) (called false)) interrupted)
        (came 0x9d (omega arith)))
      (called false)

Reach-loop_example :
    ((broken.count < 3) ⊎ (broken.count - 3 < length broken.buffer))
    × ((receive_pending broken.pending broken).len
        ≤ length (receive_pending broken.pending broken).buffer)
    × ((loop bus false broken).pending ≡ drop 1 broken.pending)
Reach-loop_example = Reach-loop bus board [] false broken-Reach

-- Then the host gives up, and 257 octets come, all zero.
abbrev zeros : ℕ → Firmware (List ℕ) → Firmware (List ℕ)
zeros zero f = f
zeros (suc n) f = zeros n (put 0 f)

zeros-Reach :
    (n : ℕ) (f : Firmware (List ℕ)) → Reach bus board [] f → Reach bus board [] (zeros n f)
zeros-Reach zero f r = r
zeros-Reach (suc n) f r = zeros-Reach n (put 0 f) (later r (came 0 (omega arith)))

abbrev quiet : List Bool
quiet = replicate 257 false

Reach-settles_example : (k : ℕ) × (k ≤ 257) × IsIdle (run bus (take k quiet) (zeros 257 broken))
unfolding loop setup
Reach-settles_example =
    Reach-settles bus board [] quiet (zeros-Reach 257 broken broken-Reach) (omega arith)
      (omega arith)

-- The version register is asked for while an interrupt is flagged, and DIO2 rises before the last octet.
abbrev asked : Firmware (List ℕ)
asked = record (fresh (b'R' ∷ 0x42 ∷ 1 ∷ [])) { int_flag = true }

run-notices_example :
    let g = run bus (false ∷ false ∷ true ∷ []) asked in
    Written bus g [] (spi_read bus 0x42 1 []).1
    × (g.output
        ≡ []
          ++ (notice true false false
              ++ (notice false false false
                  ++ ((spi_read bus 0x42 1 []).0 ++ notice false false true))))
run-notices_example =
    run-notices bus false false true asked 0x42 1 []
      (record { command = refl; count = refl; size = refl }) refl

-- A port with the octets that come by it, and a clock of microseconds.
record Line : Type 0 where
  time : ℕ
  out : List ℕ
  inbox : List ℕ

abbrev waiting : List ℕ → ℕ
waiting [] = 0
waiting (b ∷ bs) = 1

abbrev first : List ℕ → ℕ
first [] = 0
first (b ∷ bs) = b

abbrev line : Arduino Line
line = record {
  serial_begin = λ rate w. w;
  serial_available = λ w. (waiting w.inbox, w);
  serial_read = λ w. (first w.inbox % 256, record w { inbox = drop 1 w.inbox });
  serial_write = λ b w. record w { out = w.out ++ b ∷ [] };
  millis = λ w. (u32 (w.time / 1000), record w { time = w.time + 1 });
  random = λ lo hi w. (lo, w);
  delay = λ ms w. record w { time = w.time + 1000 * ms };
}

line_clock : Clock line
line_clock = record {
  now = λ w. w.time;
  millis_value = λ w. refl;
  millis_time = λ w. (omega arith, omega arith);
  available_time = λ w. (omega arith, omega arith);
  read_time = λ w. (omega arith, omega arith);
  write_time = λ b w. (omega arith, omega arith);
}

abbrev line_outbox : Outbox line
line_outbox = record { outbox = λ w. w.out; written = λ b w. refl }

-- What comes are the octets of the numbers in the list.
abbrev octets_of : List ℕ → List ℕ
octets_of [] = []
octets_of (b ∷ bs) = b % 256 ∷ octets_of bs

arrived :
    (time : ℕ) (out inbox : List ℕ)
    → let w : Line = record { time = time; out = out; inbox = inbox } in
      ((waiting inbox ≡ 0) × (octets_of inbox ≡ octets_of inbox))
      ⊎ ((b : ℕ) × (rest : List ℕ) × (0 < waiting inbox)
          × (octets_of inbox ≡ b ∷ rest)
          × (b < 256)
          × (first inbox % 256 ≡ b)
          × (octets_of (drop 1 inbox) ≡ rest))
arrived time out [] = inl (refl, refl)
arrived time out (b ∷ bs) = inr (b % 256, octets_of bs, omega arith, refl, omega arith, refl, refl)

abbrev line_inbox : Inbox line
line_inbox = record {
  coming = λ w. octets_of w.inbox;
  available_coming = λ w. arrived w.time w.out w.inbox;
  millis_coming = λ w. refl;
}

abbrev answered : Line
answered = record { time = 0; out = []; inbox = b'I' ∷ 7 ∷ b'I' ∷ [] }

abbrev flagged : Line
flagged = record { time = 0; out = []; inbox = b'I' ∷ 7 ∷ 7 ∷ [] }

burst_read-answer_example :
    (octets : List ℕ) × (w' : Line) × (burst_read line rx_rounds 0x42 2 flagged ≡ done octets w')
    × (length octets ≤ 2)
    × (octets
        ≡ take
            (length octets)
            (answer bus (fresh (b'R' ∷ 0x42 ∷ 2 ∷ [])) (bit_and 0x42 0x7f) 2 true true false))
unfolding run loop
burst_read-answer_example =
    burst_read-answer line_clock line_outbox line_inbox bus true true false
      (fresh (b'R' ∷ 0x42 ∷ 2 ∷ [])) rx_rounds 0x42 2 flagged (omega arith) (omega arith)
      (fresh-IsIdle _) refl refl refl refl

read-notice_example :
    (value : ℕ) × (w' : Line) × (read line rx_rounds 0x42 answered ≡ done value w')
    × ((value ≡ b'I') ⊎ (value ≡ 0))
unfolding run loop
read-notice_example =
    read-notice line_clock line_outbox line_inbox bus false false true asked rx_rounds 0x42 answered
      (omega arith) (record { command = refl; count = refl; size = refl }) refl refl refl refl refl
