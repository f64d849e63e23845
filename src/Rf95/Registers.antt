-- ===== src/Rf95/Registers.antt =====
-- What the configuration of RH_RF95 writes to the registers of the chip.
use grove_lo_ra_433mhz_and.Prelude.{
  ℕ, zero, suc, ◌+◌, ◌*◌, ◌-◌, ◌/◌, ◌%◌, ◌≤◌, ◌<◌, ◌≡◌, refl, sym, ap, ◌∙◌, ◌⊎◌, inl, inr, List, [],
  ◌∷◌, ◌++◌, arith, bit_or, max, min, true, false, Bool-cases, ltb, leb, ◌==◌, ◌||◌, ◌&&◌, get_or,
  get_elem?, some,
}
use mathlib.Core.List.{append_assoc, append-nil}
use grove_lo_ra_433mhz_and.Prelude.Commands.{Run, Cmd, done, fault, pure, ◌>>=◌, ◌>>◌}
use grove_lo_ra_433mhz_and.Driver.{Device, broadcast_address}
use grove_lo_ra_433mhz_and.Uart.{Arduino}
use grove_lo_ra_433mhz_and.Uart
use grove_lo_ra_433mhz_and.Uart.Frames.{Outbox, burst_write-frame}
use grove_lo_ra_433mhz_and.Rf95.{Chip, on_port, write, validate_rx_buf}
use grove_lo_ra_433mhz_and.Rf95.Setup.{
  ModemConfig, modem_config_table, Power, plus, minus, boost_power, set_modem_registers,
  set_modem_config, set_frequency, set_tx_power, reg_1d_modem_config1, reg_1e_modem_config2,
  reg_26_modem_config3, reg_06_frf_msb, reg_07_frf_mid, reg_08_frf_lsb, reg_09_pa_config,
  reg_4d_pa_dac, pa_dac_enable, pa_dac_disable, pa_select,
}

-- The octets by which a value is written to a register.
abbrev pub frame : (reg val : ℕ) → List ℕ
frame reg val = b'W' ∷ bit_or reg 0x80 ∷ 1 ∷ val ∷ []

-- The power that is asked for, as far as the PA_BOOST pin can give it, in dBm.
abbrev pub nearest_power : Power → ℕ
nearest_power (plus n) = max 5 (min 23 n)
nearest_power (minus n) = 5

boost_power-nearest : (power : Power) → boost_power power ≡ nearest_power power
unfolding boost_power
boost_power-nearest (plus n) = ground arith
boost_power-nearest (minus n) = refl

boost_power_bounds : (power : Power) → (5 ≤ boost_power power) × (boost_power power ≤ 23)
unfolding boost_power
boost_power_bounds (plus n) = (ground arith, ground arith)
boost_power_bounds (minus n) = (omega arith, omega arith)

pub on_port-done :
    {W A : Type 0} (m : Cmd W A) (d : Device (Chip W)) {x : A} {w : W}
    → m d.chip.world ≡ done x w
    → on_port m d ≡ done x (record d { chip = record (d.chip) { world = w } })
on_port-done {W} {A} m d e =
    ap
      (λ (r : Run W A). elim r as (λ _. Run (Device (Chip W)) A) [
        | done x w ↦ done x (record d { chip = record (d.chip) { world = w } })
        | Run.fault ↦ Run.fault
        | Run.out_of_fuel ↦ Run.out_of_fuel
      ])
      e

module _ {W : Type 0} {a : Arduino W} (o : Outbox a) (fuel : ℕ) where
  open o use {outbox, written}

  -- The command always returns, with a given value, after it has put the given octets on the wire
  -- and changed nothing else.
  pub record Puts {A : Type 0} (m : Cmd (Device (Chip W)) A) (x : A) (octets : List ℕ)
      : Type 0 where
    pub apply :
        (d : Device (Chip W))
        → (w : W) × (m d ≡ done x (record d { chip = record (d.chip) { world = w } }))
          × (outbox w ≡ outbox d.chip.world ++ octets)

  pub write-Puts : (reg val : ℕ) → Puts (write a fuel reg val) tt (frame reg val)
  write-Puts reg val = record {
    apply = λ d.
        let (w, e, p) = burst_write-frame o reg (val ∷ []) d.chip.world in
        let e' : Uart.write a reg val d.chip.world ≡ done tt w =
          unfold Uart.write Uart.burst_write in e in
        (w, on_port-done (Uart.write a reg val) d e', p);
  }

  bind-Puts :
      {A B : Type 0} {m : Cmd (Device (Chip W)) A} (k : A → Cmd (Device (Chip W)) B) {x : A} {y : B}
      {xs ys : List ℕ}
      → Puts m x xs
      → Puts (k x) y ys
      → Puts (m >>= k) y (xs ++ ys)
  bind-Puts k {xs} {ys} f g = record {
    apply = λ d.
        let (w, e, p) = f.apply d in
        let (w', e', p') = g.apply (record d { chip = record (d.chip) { world = w } }) in
        (w', rw e e', p' ∙ rw p (append_assoc (outbox d.chip.world) xs ys));
  }

  pub next-Puts :
      {A B : Type 0} {m : Cmd (Device (Chip W)) A} {k : Cmd (Device (Chip W)) B} {x : A} {y : B}
      {xs ys : List ℕ}
      → Puts m x xs
      → Puts k y ys
      → Puts (m >> k) y (xs ++ ys)
  next-Puts {k} f g = bind-Puts (λ _. k) f g

  pub pure-Puts : {A : Type 0} (x : A) → Puts (pure x) x []
  pure-Puts x = record { apply = λ d. (d.chip.world, refl, sym (append-nil _)) }

  pub registers-Puts :
      (c : ModemConfig)
      → Puts (set_modem_registers a fuel c) tt (
          frame reg_1d_modem_config1 c.reg_1d
          ++ frame reg_1e_modem_config2 c.reg_1e
          ++ frame reg_26_modem_config3 c.reg_26)
  unfolding set_modem_registers
  registers-Puts c = next-Puts (write-Puts _ _) (next-Puts (write-Puts _ _) (write-Puts _ _))

  -- A choice of modem configuration: one of the four of the table is written to its three registers,
  -- the index behind the last reads past the table, and a larger one is refused.
  pub set_modem_config_result :
      (index : ℕ)
      → ((c : ModemConfig) × (get_elem? modem_config_table index ≡ some c)
          × Puts (set_modem_config a fuel index) true (
              frame reg_1d_modem_config1 c.reg_1d
              ++ frame reg_1e_modem_config2 c.reg_1e
              ++ frame reg_26_modem_config3 c.reg_26))
        ⊎ ((index ≡ 4) × ((d : Device (Chip W)) → set_modem_config a fuel index d ≡ fault))
        ⊎ ((4 < index) × Puts (set_modem_config a fuel index) false [])
  unfolding set_modem_config
  set_modem_config_result zero = inl (_, refl, next-Puts (registers-Puts _) (pure-Puts true))
  set_modem_config_result (suc zero) = inl (_, refl, next-Puts (registers-Puts _) (pure-Puts true))
  set_modem_config_result (suc (suc zero)) =
      inl (_, refl, next-Puts (registers-Puts _) (pure-Puts true))
  set_modem_config_result (suc (suc (suc zero))) =
      inl (_, refl, next-Puts (registers-Puts _) (pure-Puts true))
  set_modem_config_result (suc (suc (suc (suc zero)))) = inr (inl (refl, λ d. refl))
  set_modem_config_result (suc (suc (suc (suc (suc n))))) =
      inr (inr (omega arith, rw beyond (pure-Puts false)))
    where
      beyond : ltb 4 (suc (suc (suc (suc (suc n))))) ≡ true
      beyond = ground arith

  -- A frequency of less than 16777216 steps is written as three octets, from which it can be read back.
  pub set_frequency_result :
      (frf : ℕ)
      → frf < 16777216
      → (msb mid lsb : ℕ) × Puts
          (set_frequency a fuel frf)
          true
          (frame reg_06_frf_msb msb ++ frame reg_07_frf_mid mid ++ frame reg_08_frf_lsb lsb)
        × (msb < 256)
        × (mid < 256)
        × (lsb < 256)
        × (msb * 65536 + mid * 256 + lsb ≡ frf)
  unfolding set_frequency
  set_frequency_result frf h = (
    frf / 65536 % 256,
    frf / 256 % 256,
    frf % 256,
    next-Puts (write-Puts _ _)
        (next-Puts (write-Puts _ _) (next-Puts (write-Puts _ _) (pure-Puts true))),
    omega arith,
    omega arith,
    omega arith,
    omega arith,
  )

  -- Power on the PA_BOOST pin: the level that is written fits its four bits, and with the base of
  -- the amplifier, which is 5 dBm, or 8 dBm with the DAC enabled, it makes up the power that was asked
  -- for, or 5 dBm where that was less, and 23 dBm where it was more.
  pub set_tx_power_result :
      (power : Power)
      → (dac level : ℕ) × Puts
          (set_tx_power a fuel power false)
          tt
          (frame reg_4d_pa_dac dac ++ frame reg_09_pa_config (bit_or pa_select level))
        × (level ≤ 15)
        × (((dac ≡ pa_dac_enable) × (level + 8 ≡ nearest_power power))
            ⊎ ((dac ≡ pa_dac_disable) × (level + 5 ≡ nearest_power power)))
  unfolding set_tx_power
  set_tx_power_result power =
      let p = boost_power power in
      let (low, high) = boost_power_bounds power in
      let same = boost_power-nearest power in
      elim (Bool-cases (ltb 20 p)) [
        | inl q ↦ (
          pa_dac_enable,
          p - 3 - 5,
          rw q (next-Puts (write-Puts _ _) (write-Puts _ _)),
          omega arith,
          inl (refl, ground arith),
        )
        | inr q ↦ (
          pa_dac_disable,
          p - 5,
          rw q (next-Puts (write-Puts _ _) (write-Puts _ _)),
          ground arith,
          inr (refl, ground arith),
        )
      ]

-- The received message becomes valid if it has the four headers, and is for this node, for all, or
-- any message is wanted; a message that was valid stays so, whatever has come in since.
pub validate_rx_buf-rx_buf_valid :
    {W : Type 0} (d : Device (Chip W))
    → let to = get_or d.chip.buf 0 0 in
      (validate_rx_buf d).chip.rx_buf_valid ≡ (
        d.chip.rx_buf_valid
        || leb 4 d.chip.buf_len
          && (d.driver.promiscuous || to == d.driver.this_address || to == broadcast_address))
unfolding validate_rx_buf
validate_rx_buf-rx_buf_valid d = ground arith
