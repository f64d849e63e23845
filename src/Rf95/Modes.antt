-- ===== src/Rf95/Modes.antt =====
-- The modes of RH_RF95: what the operations that change the mode leave behind and write to the chip.
use grove_lo_ra_433mhz_and.Prelude.{
  ℕ, ◌≡◌, refl, sym, ◌∙◌, inl, inr, Bool, true, false, Bool-cases, not, if◌then◌else◌, List, [],
  ◌++◌,
}
use mathlib.Core.List.{append-nil, append_assoc}
use grove_lo_ra_433mhz_and.Prelude.Commands.{Cmd, done, gets, modify, when, ◌>>=◌, ◌>>◌}
use grove_lo_ra_433mhz_and.Driver.{Device, RhMode, idle, rx, tx, is_idle, is_rx, is_tx, set_mode}
use grove_lo_ra_433mhz_and.Uart.{Arduino}
use grove_lo_ra_433mhz_and.Uart.Frames.{Outbox}
use grove_lo_ra_433mhz_and.Rf95.{
  Chip, on_driver, write, set_mode_idle, set_mode_rx, set_mode_tx, reg_01_op_mode,
  reg_40_dio_mapping1, mode_stdby, mode_rxcontinuous, mode_tx,
}
use grove_lo_ra_433mhz_and.Rf95.Registers.{frame, write-Puts}

module _ {W : Type 0} {a : Arduino W} (o : Outbox a) (fuel : ℕ) where
  open o use {outbox, written}

  -- The command always returns in a given mode. The octets go over the wire only if the test of the
  -- mode fails beforehand.
  pub record Enters (m : Cmd (Device (Chip W)) (Unit {0})) (is_there : RhMode → Bool)
      (octets : List ℕ) : Type 0 where
    pub apply :
        (d : Device (Chip W))
        → (t : Device (Chip W)) × (m d ≡ done tt t)
          × (is_there t.driver.mode ≡ true)
          × (outbox t.chip.world
              ≡ outbox d.chip.world ++ (if is_there d.driver.mode then [] else octets))

  -- The command writes the octets to the port and sets the mode, and changes nothing else.
  record Turns (m : Cmd (Device (Chip W)) (Unit {0})) (mode : RhMode) (octets : List ℕ)
      : Type 0 where
    pub apply :
        (d : Device (Chip W))
        → (w : W) × (m d
            ≡ done tt
                (on_driver (set_mode mode) (record d { chip = record (d.chip) { world = w } })))
          × (outbox w ≡ outbox d.chip.world ++ octets)

  last-Turns :
      (mode : RhMode) (reg val : ℕ)
      → Turns (write a fuel reg val >> modify (on_driver (set_mode mode))) mode (frame reg val)
  last-Turns mode reg val = record {
    apply = λ d. let (w, e, p) = (write-Puts o fuel reg val).apply d in (w, rw e refl, p);
  }

  next-Turns :
      {m : Cmd (Device (Chip W)) (Unit {0})} (mode : RhMode) (reg val : ℕ) (octets : List ℕ)
      → Turns m mode octets
      → Turns (write a fuel reg val >> m) mode (frame reg val ++ octets)
  next-Turns mode reg val octets f = record {
    apply = λ d.
        let (w, e, p) = (write-Puts o fuel reg val).apply d in
        let (w', e', p') = f.apply (record d { chip = record (d.chip) { world = w } }) in
        (w', rw e e', p' ∙ rw p (append_assoc (outbox d.chip.world) (frame reg val) octets));
  }

  turn-Enters :
      {m : Cmd (Device (Chip W)) (Unit {0})} (is_there : RhMode → Bool) (mode : RhMode)
      {octets : List ℕ}
      → is_there mode ≡ true
      → Turns m mode octets
      → Enters (gets (λ d. d.driver.mode) >>= (λ now. when (not (is_there now)) m)) is_there octets
  turn-Enters is_there mode {octets} h turns = record {
    apply = λ d. elim (Bool-cases (is_there d.driver.mode)) [
      | inl q ↦ (d, rw q refl, q, rw q (sym (append-nil _)))
      | inr q ↦
          let (w, e, p) = turns.apply d in
          (
            on_driver (set_mode mode) (record d { chip = record (d.chip) { world = w } }),
            rw (q, e) refl,
            h,
            rw q p,
          )
    ];
  }

  -- From another mode.
  turn-apply :
      {m : Cmd (Device (Chip W)) (Unit {0})} (is_there : RhMode → Bool) (mode : RhMode)
      {octets : List ℕ}
      → Turns m mode octets
      → (d : Device (Chip W)) → is_there d.driver.mode ≡ false
      → (w : W) × ((gets (λ d. d.driver.mode) >>= (λ now. when (not (is_there now)) m)) d
          ≡ done tt (on_driver (set_mode mode) (record d { chip = record (d.chip) { world = w } })))
        × (outbox w ≡ outbox d.chip.world ++ octets)
  turn-apply is_there mode turns d h = let (w, e, p) = turns.apply d in (w, rw (h, e) refl, p)

  pub set_mode_idle-there :
      (d : Device (Chip W)) → is_idle d.driver.mode ≡ true → set_mode_idle a fuel d ≡ done tt d
  unfolding set_mode_idle
  set_mode_idle-there d h = rw h refl

  pub set_mode_idle-turns :
      (d : Device (Chip W))
      → is_idle d.driver.mode ≡ false
      → (w : W) × (set_mode_idle a fuel d
          ≡ done tt (on_driver (set_mode idle) (record d { chip = record (d.chip) { world = w } })))
        × (outbox w ≡ outbox d.chip.world ++ frame reg_01_op_mode mode_stdby)
  unfolding set_mode_idle
  set_mode_idle-turns d h = turn-apply is_idle idle (last-Turns idle _ _) d h

  pub set_mode_tx-turns :
      (d : Device (Chip W))
      → is_tx d.driver.mode ≡ false
      → (w : W) × (set_mode_tx a fuel d
          ≡ done tt (on_driver (set_mode tx) (record d { chip = record (d.chip) { world = w } })))
        × (outbox w
            ≡ outbox d.chip.world
              ++ (frame reg_01_op_mode mode_tx ++ frame reg_40_dio_mapping1 0x40))
  unfolding set_mode_tx
  set_mode_tx-turns d h = turn-apply is_tx tx (next-Turns tx _ _ _ (last-Turns tx _ _)) d h

  -- Each of the operations always returns in its mode, and writes the mode to the chip, with the
  -- mapping of the interrupt pin where there is one, only if it was not in that mode before.
  pub set_mode_result :
      Enters (set_mode_idle a fuel) is_idle (frame reg_01_op_mode mode_stdby)
      × Enters
          (set_mode_rx a fuel)
          is_rx
          (frame reg_01_op_mode mode_rxcontinuous ++ frame reg_40_dio_mapping1 0x00)
      × Enters
          (set_mode_tx a fuel)
          is_tx
          (frame reg_01_op_mode mode_tx ++ frame reg_40_dio_mapping1 0x40)
  unfolding set_mode_idle set_mode_rx set_mode_tx
  set_mode_result = (
    turn-Enters is_idle idle refl (last-Turns idle _ _),
    turn-Enters is_rx rx refl (next-Turns rx _ _ _ (last-Turns rx _ _)),
    turn-Enters is_tx tx refl (next-Turns tx _ _ _ (last-Turns tx _ _)),
  )
