-- ===== src/Uart/Frames.antt =====
-- What the driver's end of the register protocol writes to the port, and that its reads end.
use grove_lo_ra_433mhz_and.Prelude.{ℕ, ◌≡◌, refl, sym, ◌∙◌, List, [], ◌∷◌, ◌++◌, length, bit_or}
use mathlib.Core.List.{append_assoc, append-nil}
use grove_lo_ra_433mhz_and.Prelude.Commands.{done}
use grove_lo_ra_433mhz_and.Uart.{Arduino, put_all, burst_write, write_mask}

-- A port that keeps what is written to it.
pub record Outbox {W : Type 0} (a : Arduino W) : Type 0 where
  pub outbox : W → List ℕ
  pub written : (b : ℕ) (w : W) → outbox (a.serial_write b w) ≡ outbox w ++ b ∷ []

module _ {W : Type 0} {a : Arduino W} (o : Outbox a) where
  open o use {outbox, written}

  put_all-outbox :
      (bs : List ℕ) (w : W)
      → (w' : W) × (put_all a bs w ≡ done tt w') × (outbox w' ≡ outbox w ++ bs)
  unfolding put_all
  put_all-outbox [] w = (w, refl, sym (append-nil _))
  put_all-outbox (b ∷ bs) w =
      let (w', e, p) = put_all-outbox bs (a.serial_write b w) in
      (w', e, p ∙ rw written (append_assoc (outbox w) (b ∷ []) bs))

  -- A burst write always returns, and what it has put on the wire is one write frame: 'W', the
  -- register with its write bit, the length and the octets.
  pub burst_write-frame :
      (reg : ℕ) (octets : List ℕ) (w : W)
      → (w' : W) × (burst_write a reg octets w ≡ done tt w')
        × (outbox w' ≡ outbox w ++ (b'W' ∷ bit_or reg write_mask ∷ length octets ∷ octets))
  unfolding burst_write
  burst_write-frame reg octets w =
      let w₃ =
        a.serial_write (length octets)
          (a.serial_write (bit_or reg write_mask) (a.serial_write b'W' w)) in
      let (w', e, p) = put_all-outbox octets w₃ in (w', e, p ∙ simp (written, append_assoc))
