-- ===== src/Protocol.antt =====
-- The two ends of the register protocol together: Uart.antt writes what Firmware.antt reads.
use grove_lo_ra_433mhz_and.Prelude.{
  ℕ, ◌+◌, ◌≤◌, ◌<◌, ◌≡◌, refl, ◌⊎◌, inl, inr, Bool, true, false, List, [], ◌∷◌, ◌++◌, length, take,
  get_or, bit_or, bit_and, arith, sym, ◌∙◌, ap,
}
use mathlib.Core.List.{append-nil}
use grove_lo_ra_433mhz_and.Prelude.Commands.{Run}
use grove_lo_ra_433mhz_and.Uart.{Arduino, burst_read, burst_write, read, write_mask}
use grove_lo_ra_433mhz_and.Uart.Frames.{Outbox, burst_write-frame}
use grove_lo_ra_433mhz_and.Uart.Timing.{Clock, rx_rounds}
use grove_lo_ra_433mhz_and.Uart.Reading.{Inbox, request, burst_read_result}
use grove_lo_ra_433mhz_and.Firmware.{Firmware, Spi, run, spi_write, spi_read}
use grove_lo_ra_433mhz_and.Firmware.Frames.{IsIdle, Written, run-write_frame}
use grove_lo_ra_433mhz_and.Firmware.Reading.{notice, run-notices}

world_eq : {W A : Type 0} {x y : A} {v w : W} → Run.done x v ≡ Run.done y w → v ≡ w
world_eq h = ground arith

-- What the driver writes to the registers by `burstWrite`, the idle firmware puts on the SPI bus of
-- the radio, in one selection: the register with its write bit, then the octets, in order. It takes
-- as many calls of `loop` as there are octets in the frame, and leaves nothing behind in the port.
pub run-burst_write :
    {W S : Type 0} {a : Arduino W} (o : Outbox a) (spi : Spi S) (levels : List Bool)
    (f : Firmware S) (reg : ℕ) (octets : List ℕ) {w w' : W}
    → o.outbox w ≡ []
    → burst_write a reg octets w ≡ Run.done tt w'
    → length octets ≤ 255
    → IsIdle f
    → f.pending ≡ o.outbox w'
    → length levels ≡ 3 + length octets
    → Written spi (run spi levels f) [] (spi_write spi (bit_or reg write_mask) octets f.bus)
run-burst_write o spi levels f reg octets {w} e h m i p l =
    let (v, h', q) = burst_write-frame o reg octets w in
    let same = ap o.outbox (world_eq (sym h ∙ h')) in
    run-write_frame spi levels f (bit_or reg write_mask) octets [] l m i
      (p ∙ same ∙ q ∙ rw e (rw append-nil))

-- The octets that the firmware has to write to the port for a read frame: the answer of the radio, and the
-- notices of interrupts around it.
abbrev pub answer : {S : Type 0} → Spi S → Firmware S → (reg len : ℕ) → (u v x : Bool) → List ℕ
answer spi f reg len u v x =
    notice f.int_flag f.dio2_states u
    ++ (notice false u v ++ ((spi_read spi reg len f.bus).0 ++ notice false v x))

-- A burst read of at least one octet over the port to the idle firmware always returns, with enough rounds
-- and a clock, and what it returns is the beginning of what the firmware writes: a notice for an interrupt
-- that is flagged and for each rise of DIO2 before the answer, the octets that the radio sends for the
-- register, and a notice if DIO2 rises with them. It is not more octets than were asked for.
pub burst_read-answer :
    {W S : Type 0} {a : Arduino W} (c : Clock a) (o : Outbox a) (i : Inbox a) (spi : Spi S)
    (u v x : Bool) (f : Firmware S) (fuel reg len : ℕ) (w : W)
    → rx_rounds ≤ fuel
    → 0 < len
    → IsIdle f
    → o.outbox w ≡ []
    → f.pending ≡ o.outbox (request a reg len w)
    → f.output ≡ []
    → i.coming (request a reg len w) ≡ (run spi (u ∷ v ∷ x ∷ []) f).output
    → (octets : List ℕ) × (w' : W) × (burst_read a fuel reg len w ≡ Run.done octets w')
      × (length octets ≤ len)
      × (octets ≡ take (length octets) (answer spi f (bit_and reg 0x7f) len u v x))
burst_read-answer c o i spi u v x f fuel reg len w h k idle e p q come =
    let (octets, w', d, l, t) = burst_read_result i c fuel reg len w h k in
    let frame = p ∙ rw (o.written, o.written, o.written, e) refl in
    let (_, out) = run-notices spi u v x f (bit_and reg 0x7f) len [] idle frame in
    (octets, w', d, l, t ∙ ap (take (length octets)) (come ∙ out ∙ rw q refl))

-- While an interrupt is flagged a register cannot be read: a read to the idle firmware always returns, with
-- enough rounds and a clock, and its value is the notice 'I', or 0 if nothing came in time, whatever the radio has in the register.
pub read-notice :
    {W S : Type 0} {a : Arduino W} (c : Clock a) (o : Outbox a) (i : Inbox a) (spi : Spi S)
    (u v x : Bool) (f : Firmware S) (fuel reg : ℕ) (w : W)
    → rx_rounds ≤ fuel
    → IsIdle f
    → f.int_flag ≡ true
    → o.outbox w ≡ []
    → f.pending ≡ o.outbox (request a reg 1 w)
    → f.output ≡ []
    → i.coming (request a reg 1 w) ≡ (run spi (u ∷ v ∷ x ∷ []) f).output
    → (value : ℕ) × (w' : W) × (read a fuel reg w ≡ Run.done value w')
      × ((value ≡ b'I') ⊎ (value ≡ 0))
unfolding read burst_read
read-notice c o i spi u v x f fuel reg w h idle flag e p q come =
    let (octets, w', d, l, t) =
      burst_read-answer c o i spi u v x f fuel reg 1 w h (omega arith) idle e p q come in
    (get_or octets 0 0, w', rw d refl, first octets t)
  where
    first :
        (octets : List ℕ)
        → octets ≡ take (length octets) (answer spi f (bit_and reg 0x7f) 1 u v x)
        → (get_or octets 0 0 ≡ b'I') ⊎ (get_or octets 0 0 ≡ 0)
    first [] t = inr refl
    first (b ∷ bs) t = inl (ap (λ xs. get_or xs 0 0) t ∙ rw flag refl)
