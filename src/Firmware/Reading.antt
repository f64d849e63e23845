-- ===== src/Firmware/Reading.antt =====
-- What the firmware answers to a read frame, and the notices of interrupts around it.
use grove_lo_ra_433mhz_and.Prelude.{
  ℕ, ◌≡◌, refl, ap, ◌∙◌, Bool, true, false, List, [], ◌∷◌, ◌++◌, arith, if◌then◌else◌, ◌||◌, ◌&&◌,
  not,
}
use mathlib.Core.List.{append_assoc, append-nil}
use grove_lo_ra_433mhz_and.Firmware.{
  Firmware, Spi, receive_pending, reset, notify, execute, loop, run, spi_read, Bool_eq,
}
use grove_lo_ra_433mhz_and.Firmware.Frames.{IsIdle, Written, took_command, took_register}

-- The notice that a call of `loop` ends with, for the flag of the interrupt routines and two levels of DIO2:
-- the one that was seen last, and the one that is read.
abbrev pub notice : (flag last level : Bool) → List ℕ
notice flag last level = if flag || (level && not last) then b'I' ∷ [] else []

noticed :
    (flag last level : Bool) (o q : List ℕ) {p : List ℕ}
    → p ≡ o ++ q
    → (if flag || (not (Bool_eq last level) && not last) then p ++ b'I' ∷ [] else p)
      ≡ o ++ (q ++ notice flag last level)
noticed true last level o q e = ap (λ x. x ++ b'I' ∷ []) e ∙ append_assoc o q (b'I' ∷ [])
noticed false true true o q e = rw append-nil e
noticed false true false o q e = rw append-nil e
noticed false false true o q e = ap (λ x. x ++ b'I' ∷ []) e ∙ append_assoc o q (b'I' ∷ [])
noticed false false false o q e = rw append-nil e

module _ {S : Type 0} (spi : Spi S) where
  -- What `loop` appends to the output, and what it has seen of DIO2.
  record Notes (f g : Firmware S) (octets : List ℕ) (level : Bool) : Type 0 where
    output : g.output ≡ f.output ++ (octets ++ notice f.int_flag f.dio2_states level)
    int_flag : g.int_flag ≡ false
    dio2_states : g.dio2_states ≡ level

  notify-Notes :
      (level : Bool) (f g : Firmware S) (octets : List ℕ)
      → g.output ≡ f.output ++ octets
      → g.int_flag ≡ f.int_flag
      → g.dio2_states ≡ f.dio2_states
      → Notes f (notify level g) octets level
  unfolding notify
  notify-Notes level f g octets o i d = record {
    output = rw (i, d) (noticed f.int_flag f.dio2_states level f.output octets o);
    int_flag = refl;
    dio2_states = refl;
  }

  command-Notes :
      (level : Bool) (f : Firmware S) (b : ℕ) (waiting : List ℕ)
      → IsIdle f
      → f.pending ≡ b ∷ waiting
      → Notes f (loop spi level f) [] level
  unfolding loop receive_pending execute
  command-Notes level f b waiting i p =
      notify-Notes level f _ [] (ground (arith, i.count, i.command, p, append-nil f.output))
        (ground (arith, i.count, i.command, p)) (ground (arith, i.count, i.command, p))

  register-Notes :
      (level : Bool) (f : Firmware S) (r : ℕ) (waiting : List ℕ)
      → f.count ≡ 1
      → f.pending ≡ r ∷ waiting
      → f.command ≡ b'R'
      → Notes f (loop spi level f) [] level
  unfolding loop receive_pending execute
  register-Notes level f r waiting c p k =
      notify-Notes level f _ [] (ground (arith, c, p, k, append-nil f.output))
        (ground (arith, c, p, k)) (ground (arith, c, p, k))

  answer :
      (level : Bool) (f : Firmware S) (r n : ℕ) (rest : List ℕ) (s : S)
      → f.command ≡ b'R'
      → f.reg ≡ r
      → f.count ≡ 2
      → f.pending ≡ n ∷ rest
      → f.bus ≡ s
      → Written spi (loop spi level f) rest (spi_read spi r n s).1
        × Notes f (loop spi level f) (spi_read spi r n s).0 level
  unfolding loop
  answer level f r n rest s a b c p q =
      let g : Firmware S = record f { len = n; count = 3; pending = rest } in
      let e : receive_pending f.pending f ≡ g = unfold receive_pending in ground (arith, p) in
      let g' : Firmware S = reset (record g {
        bus = (spi_read spi r n f.bus).1;
        output = f.output ++ (spi_read spi r n f.bus).0;
      }) in
      let e' : execute spi g ≡ g' = unfold execute in ground (arith, a, b) in
      rw (← q) (
        rw (e, e')
          (
            unfold reset notify in
                record {
                  idle = record { command = refl; count = refl; size = refl };
                  pending = refl;
                  bus = refl;
                },
            notify-Notes level f g' (spi_read spi r n f.bus).0 (unfold reset in refl)
                (unfold reset in refl) (unfold reset in refl),
          ))

  -- What is written to the port while a read frame is taken, in three calls of `loop`: in the third the
  -- octets that the radio sends for the register, and at the end of each call a notice 'I' if DIO2 is
  -- seen to rise in it, or, in the first, if an interrupt was flagged before.
  pub run-notices :
      (u v w : Bool) (f : Firmware S) (r n : ℕ) (rest : List ℕ)
      → IsIdle f
      → f.pending ≡ b'R' ∷ r ∷ n ∷ rest
      → let g = run spi (u ∷ v ∷ w ∷ []) f in
        Written spi g rest (spi_read spi r n f.bus).1
        × (g.output
            ≡ f.output
              ++ (notice f.int_flag f.dio2_states u
                  ++ (notice false u v ++ ((spi_read spi r n f.bus).0 ++ notice false v w))))
  unfolding run
  run-notices u v w f r n rest i p =
      let (a, b, c, d, e) = took_command spi u f b'R' (r ∷ n ∷ rest) i p refl in
      let (a', b', c', d', e', f') = took_register spi v (loop spi u f) b'R' r (n ∷ rest) a b c in
      let x = command-Notes u f b'R' (r ∷ n ∷ rest) i p in
      let y = register-Notes v (loop spi u f) r (n ∷ rest) b c a in
      let (t, z) = answer w (loop spi v (loop spi u f)) r n rest f.bus a' b' c' d' (e' ∙ d) in
      (
        t,
        rw (z.output, y.output, y.int_flag, y.dio2_states, x.output, x.int_flag, x.dio2_states)
            (simp append_assoc),
      )

  -- With no interrupt on its way, that is the answer alone.
  pub run-read_frame :
      (f : Firmware S) (r n : ℕ) (rest : List ℕ)
      → IsIdle f
      → f.int_flag ≡ false
      → f.pending ≡ b'R' ∷ r ∷ n ∷ rest
      → let g = run spi (false ∷ false ∷ false ∷ []) f in
        Written spi g rest (spi_read spi r n f.bus).1
        × (g.output ≡ f.output ++ (spi_read spi r n f.bus).0)
  run-read_frame f r n rest i h p =
      let (t, o) = run-notices false false false f r n rest i p in
      (t, o ∙ rw h (rw append-nil refl))
