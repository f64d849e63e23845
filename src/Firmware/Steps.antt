-- ===== src/Firmware/Steps.antt =====
-- The firmware as a state machine: calls of `loop`, interrupts, and octets that come in by the port.
use grove_lo_ra_433mhz_and.Prelude.{
  ℕ, ◌+◌, ◌-◌, ◌<◌, ◌==◌, ◌≡◌, refl, inl, inr, Bool, true, Bool-cases, ◌||◌, ◌&&◌, ltb, leb, List,
  [], ◌∷◌, ◌++◌, length, take, length-set, all_octets, all_octets-append, arith,
}
use grove_lo_ra_433mhz_and.Firmware.{
  Firmware, Spi, Board, buffer_size, isr, receive_pending, reset, notify, spi_write, spi_read,
  execute, loop, setup, power_on,
}

pub data Step {S : Type 0} (spi : Spi S) (f : Firmware S) : Firmware S → Type 0 where
  called : (dio2 : Bool) → Step spi f (loop spi dio2 f)
  interrupted : Step spi f (isr f)
  came : (b : ℕ) → b < 256 → Step spi f (record f { pending = f.pending ++ b ∷ [] })

pub data Reach {S : Type 0} (spi : Spi S) (board : Board S) (s : S) : Firmware S → Type 0 where
  start : Reach spi board s (setup board (power_on s))
  later : {f g : Firmware S} → Reach spi board s f → Step spi f g → Reach spi board s g

-- Between two calls of `loop`, how much of a frame has come: nothing, up to two octets of its header, or
-- the header of a write frame and some of its data, but not all.
pub record IsSound {S : Type 0} (f : Firmware S) : Type 0 where
  pub size : length f.buffer ≡ buffer_size
  pub octets : all_octets f.pending ≡ true
  pub bound : f.len < 256
  pub command : (f.count == 0) || (f.command == b'W') || (f.command == b'R') ≡ true
  pub idle : (f.count == 0) ≡ (f.command == 0)
  pub progress : ltb f.count 3 || (f.command == b'W' && ltb f.count (f.len + 3)) ≡ true

module _ {S : Type 0} (spi : Spi S) where
  notify-IsSound : (dio2 : Bool) (f : Firmware S) → IsSound f → IsSound (notify dio2 f)
  unfolding notify
  notify-IsSound dio2 f h = record {
    size = h.size;
    octets = h.octets;
    bound = h.bound;
    command = h.command;
    idle = h.idle;
    progress = h.progress;
  }

  reset-IsSound : (f : Firmware S) → all_octets f.pending ≡ true → IsSound (reset f)
  unfolding reset
  reset-IsSound f h = record {
    size = refl;
    octets = h;
    bound = omega arith;
    command = refl;
    idle = refl;
    progress = refl;
  }

  -- What holds after the first part of `loop`.
  pub record IsReceived (f : Firmware S) : Type 0 where
    pub size : length f.buffer ≡ buffer_size
    pub octets : all_octets f.pending ≡ true
    pub bound : f.len < 256
    pub command : (f.count == 0) || (f.command == b'W') || (f.command == b'R') ≡ true
    pub idle : (f.count == 0) ≡ (f.command == 0)

  pub receive-IsReceived : (f : Firmware S) → IsSound f → IsReceived (receive_pending f.pending f)
  unfolding receive_pending
  receive-IsReceived f h = go f.pending refl
    where
      go : (bs : List ℕ) → f.pending ≡ bs → IsReceived (receive_pending bs f)
      go [] e = record {
        size = h.size;
        octets = h.octets;
        bound = h.bound;
        command = h.command;
        idle = h.idle;
      }
      go (b ∷ bs) e = record {
        size = ground (arith, h.size, length-set f.buffer (f.count - 3) b);
        octets = ground (arith, h.octets, e);
        bound = ground (arith, h.bound, h.octets, e);
        command = ground (arith, h.command);
        idle = ground (arith, h.idle);
      }

  execute-IsSound : (f : Firmware S) → IsReceived f → IsSound (execute spi f)
  unfolding execute
  execute-IsSound f h = elim (Bool-cases (f.command == b'W' && leb (f.len + 3) f.count)) [
    | inl w ↦ rw w (
        reset-IsSound (record f { bus = spi_write spi f.reg (take f.len f.buffer) f.bus }) h.octets)
    | inr w ↦ elim (Bool-cases (f.command == b'R' && leb 3 f.count)) [
      | inl r ↦
          rw (w, r)
            (reset-IsSound
              (record f {
                bus = (spi_read spi f.reg f.len f.bus).1;
                output = f.output ++ (spi_read spi f.reg f.len f.bus).0;
              })
              h.octets)
      | inr r ↦
          rw (w, r)
            (record {
              size = h.size;
              octets = h.octets;
              bound = h.bound;
              command = h.command;
              idle = h.idle;
              progress = ground (arith, h.command, h.idle);
            })
    ]
  ]

  pub loop-IsSound : (dio2 : Bool) (f : Firmware S) → IsSound f → IsSound (loop spi dio2 f)
  unfolding loop
  loop-IsSound dio2 f h =
      notify-IsSound dio2 (execute spi (receive_pending f.pending f))
        (execute-IsSound (receive_pending f.pending f) (receive-IsReceived f h))

  pub Step-IsSound : {f g : Firmware S} → Step spi f g → IsSound f → IsSound g
  Step-IsSound {f} (called dio2) h = loop-IsSound dio2 f h
  Step-IsSound interrupted h = record {
    size = h.size;
    octets = h.octets;
    bound = h.bound;
    command = h.command;
    idle = h.idle;
    progress = h.progress;
  }
  Step-IsSound {f} (came b l) h = record {
    size = h.size;
    octets = all_octets-append f.pending (b ∷ []) h.octets (ground arith);
    bound = h.bound;
    command = h.command;
    idle = h.idle;
    progress = h.progress;
  }

  pub Reach-IsSound : (board : Board S) (s : S) {f : Firmware S} → Reach spi board s f → IsSound f
  unfolding setup
  Reach-IsSound board s start = record {
    size = refl;
    octets = refl;
    bound = omega arith;
    command = refl;
    idle = refl;
    progress = refl;
  }
  Reach-IsSound board s (later r step) = Step-IsSound step (Reach-IsSound board s r)
