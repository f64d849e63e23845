-- ===== src/Firmware/Safety.antt =====
-- What `loop` promises in every state that the module can come to, a broken frame included.
use grove_lo_ra_433mhz_and.Prelude.{
  ℕ, zero, suc, ◌+◌, ◌-◌, ◌≤◌, ◌<◌, ◌==◌, ◌≡◌, refl, ap, ◌∙◌, ◌⊎◌, inl, inr, Bool, Bool-cases,
  if◌then◌else◌, List, [], ◌∷◌, length, take, drop, arith,
}
use grove_lo_ra_433mhz_and.Firmware.{
  Firmware, Spi, Board, receive_pending, reset, notify, execute, loop, run,
}
use grove_lo_ra_433mhz_and.Firmware.Frames.{IsIdle}
use grove_lo_ra_433mhz_and.Firmware.Steps.{
  Reach, IsSound, Reach-IsSound, loop-IsSound, receive-IsReceived,
}

-- At most how many octets are still to come before the firmware is between two commands.
abbrev pub owed : {S : Type 0} → Firmware S → ℕ
owed f =
    if f.count == 0
    then 0
    else if f.count == 1
    then 257
    else if f.count == 2
    then 256
    else f.len + 3 - f.count

module _ {S : Type 0} (spi : Spi S) where
  notify-pending :
      (dio2 : Bool) (f : Firmware S)
      → ((notify dio2 f).pending ≡ f.pending) × (owed (notify dio2 f) ≡ owed f)
  unfolding notify
  notify-pending dio2 f = (refl, refl)

  execute-pending : (f : Firmware S) → (execute spi f).pending ≡ f.pending
  unfolding execute reset
  execute-pending f = ground arith

  receive-pending :
      (f : Firmware S) → IsSound f → (receive_pending f.pending f).pending ≡ drop 1 f.pending
  unfolding receive_pending
  receive-pending f h = go f.pending refl
    where
      go : (bs : List ℕ) → f.pending ≡ bs → (receive_pending bs f).pending ≡ drop 1 bs
      go [] e = e
      go (b ∷ bs) e = ground (arith, h.progress)

  execute-owed : (f : Firmware S) → owed (execute spi f) ≤ owed f
  unfolding execute reset
  execute-owed f = ground arith

  receive-owed :
      (f : Firmware S) (b : ℕ) (rest : List ℕ)
      → IsSound f
      → f.pending ≡ b ∷ rest
      → 0 < owed f
      → owed (receive_pending f.pending f) < owed f
  unfolding receive_pending
  receive-owed f b rest h e p = rw e (ground (arith, h.progress, h.octets, e))

  loop-owed :
      (dio2 : Bool) (f : Firmware S) (b : ℕ) (rest : List ℕ)
      → IsSound f
      → f.pending ≡ b ∷ rest
      → 0 < owed f
      → owed (loop spi dio2 f) < owed f
  unfolding loop
  loop-owed dio2 f b rest h e p =
      let g = receive_pending f.pending f in
      let n = (notify-pending dio2 (execute spi g)).1 in
      omega (arith, n, execute-owed g, receive-owed f b rest h e p)

  loop-pending :
      (dio2 : Bool) (f : Firmware S) → IsSound f → (loop spi dio2 f).pending ≡ drop 1 f.pending
  unfolding loop
  loop-pending dio2 f h =
      let g = receive_pending f.pending f in
      (notify-pending dio2 (execute spi g)).0 ∙ execute-pending g ∙ receive-pending f h

  owed-IsIdle : (f : Firmware S) → IsSound f → owed f ≡ 0 → IsIdle f
  owed-IsIdle f h o = record {
    command = ground (arith, h.idle, h.progress);
    count = ground (arith, h.progress);
    size = h.size;
  }

  settles :
      (n : ℕ) (levels : List Bool) (bs : List ℕ) (f : Firmware S)
      → IsSound f
      → owed f ≤ n
      → f.pending ≡ bs
      → n ≤ length bs
      → n ≤ length levels
      → (k : ℕ) × (k ≤ n) × IsIdle (run spi (take k levels) f)
  unfolding run
  settles zero levels bs f h o e p q = (0, omega arith, owed-IsIdle f h (omega arith))
  settles (suc n) [] bs f h o e p q = absurd (omega arith)
  settles (suc n) (level ∷ levels) [] f h o e p q = absurd (omega arith)
  settles (suc n) (level ∷ levels) (b ∷ bs) f h o e p q = elim (Bool-cases (owed f == 0)) [
    | inl z ↦ (0, omega arith, owed-IsIdle f h (ground arith))
    | inr z ↦
        let less = loop-owed level f b bs h e (ground arith) in
        let (k, l, i) =
          settles n levels bs (loop spi level f) (loop-IsSound spi level f h) (omega arith)
            (loop-pending level f h ∙ ap (drop 1) e) (omega arith) (omega arith) in
        (suc k, omega arith, i)
  ]

module _ {S : Type 0} (spi : Spi S) (board : Board S) (s : S) where
  -- In every state that the module can come to, whatever octets came and whenever the interrupts did: an octet of
  -- data that `loop` would store goes inside the buffer, the octets that it would send from there or read into
  -- there fit it, and a call of `loop` takes an octet from the port if one waits, so none blocks the port.
  pub Reach-loop :
      (dio2 : Bool) {f : Firmware S}
      → Reach spi board s f
      → ((f.count < 3) ⊎ (f.count - 3 < length f.buffer))
        × ((receive_pending f.pending f).len ≤ length (receive_pending f.pending f).buffer)
        × ((loop spi dio2 f).pending ≡ drop 1 f.pending)
  Reach-loop dio2 {f} r =
      let h = Reach-IsSound spi board s r in
      let g = receive-IsReceived spi f h in
      (
        ground (arith, h.progress, h.bound, h.size),
        omega (arith, g.size, g.bound),
        loop-pending spi dio2 f h,
      )

  -- After any broken frame: from every state that the module can come to, of the next 257 octets some
  -- number of them, at most all, brings the firmware back between two commands, whatever they are and whatever DIO2 does.
  pub Reach-settles :
      (levels : List Bool) {f : Firmware S}
      → Reach spi board s f
      → 257 ≤ length f.pending
      → 257 ≤ length levels
      → (k : ℕ) × (k ≤ 257) × IsIdle (run spi (take k levels) f)
  Reach-settles levels {f} r p q =
      let h = Reach-IsSound spi board s r in
      settles spi 257 levels f.pending f h (ground (arith, h.progress, h.bound)) refl p q
