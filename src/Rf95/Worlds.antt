-- ===== src/Rf95/Worlds.antt =====
-- Commands of RH_RF95 that return in every world behind the port, and the rules for them.
use grove_lo_ra_433mhz_and.Prelude.{ℕ, ◌≡◌, ◌∙◌, ap}
use grove_lo_ra_433mhz_and.Prelude.Commands.{Cmd, done, modify, ◌>>=◌, ◌>>◌}
use grove_lo_ra_433mhz_and.Prelude.Takes.{Takes}
use grove_lo_ra_433mhz_and.Driver.{Device}
use grove_lo_ra_433mhz_and.Rf95.{Chip, on_port}
use grove_lo_ra_433mhz_and.Rf95.Registers.{on_port-done}

module _ {W : Type 0} where
  -- A device in another world behind its port.
  abbrev pub at_world : Device (Chip W) → W → Device (Chip W)
  at_world e w = record e { chip = record (e.chip) { world = w } }

  -- In every world the command returns, and makes of the device `e` one with `Q`.
  pub record To {A : Type 0} (e : Device (Chip W)) (m : Cmd (Device (Chip W)) A)
      (Q : Device (Chip W) → Type 0) : Type 0 where
    pub apply :
        (w : W)
        → (x : A) × (e' : Device (Chip W)) × (w' : W) × (m (at_world e w) ≡ done x (at_world e' w'))
          × Q e'

  -- The command returns and changes nothing but the world.
  pub record IsSteady {A : Type 0} (m : Cmd (Device (Chip W)) A) : Type 0 where
    pub apply :
        (e : Device (Chip W)) (w : W)
        → (x : A) × (w' : W) × (m (at_world e w) ≡ done x (at_world e w'))

  pub bind :
      {A B : Type 0} {e : Device (Chip W)} {m : Cmd (Device (Chip W)) A}
      {k : A → Cmd (Device (Chip W)) B} {Q : Device (Chip W) → Type 0}
      → IsSteady m
      → ((x : A) → To e (k x) Q)
      → To e (m >>= k) Q
  bind {e} f g = record {
    apply = λ w.
        let (x, w', p) = f.apply e w in
        let (y, e', w'', p', q) = (g x).apply w' in (y, e', w'', rw p p', q);
  }

  pub changes :
      {e : Device (Chip W)} (f : Device (Chip W) → Device (Chip W)) {Q : Device (Chip W) → Type 0}
      → ((w : W) → f (at_world e w) ≡ at_world (f e) w)
      → Q (f e)
      → To e (modify f) Q
  changes {e} f h q = record { apply = λ w. (tt, f e, w, ap (λ d. done tt d) (h w), q) }

  pub changed :
      {A : Type 0} {e : Device (Chip W)} (f : Device (Chip W) → Device (Chip W))
      {k : Cmd (Device (Chip W)) A} {Q : Device (Chip W) → Type 0}
      → ((w : W) → f (at_world e w) ≡ at_world (f e) w)
      → To (f e) k Q
      → To e (modify f >> k) Q
  changed {e} f {k} h g = record {
    apply = λ w. let (x, e', w', p, q) = g.apply w in (x, e', w', ap k (h w) ∙ p, q);
  }

  pub leads :
      {A : Type 0} {e : Device (Chip W)} {m : Cmd (Device (Chip W)) A}
      {P Q : Device (Chip W) → Type 0}
      → To e m P
      → ((e' : Device (Chip W)) → P e' → Q e')
      → To e m Q
  leads f g = record { apply = λ w. let (x, e', w', p, q) = f.apply w in (x, e', w', p, g e' q) }

  -- In one world the command returns, and makes of the device `e` one with `Q`.
  pub record At {A : Type 0} (e : Device (Chip W)) (w : W) (m : Cmd (Device (Chip W)) A)
      (Q : Device (Chip W) → Type 0) : Type 0 where
    pub result :
        (x : A) × (e' : Device (Chip W)) × (w' : W) × (m (at_world e w) ≡ done x (at_world e' w'))
        × Q e'

  pub in_world :
      {A : Type 0} {e : Device (Chip W)} {m : Cmd (Device (Chip W)) A}
      {Q : Device (Chip W) → Type 0}
      → To e m Q
      → (w : W) → At e w m Q
  in_world f w = record { result = f.apply w }

  pub leads_in :
      {A : Type 0} {e : Device (Chip W)} {w : W} {m : Cmd (Device (Chip W)) A}
      {P Q : Device (Chip W) → Type 0}
      → At e w m P
      → ((e' : Device (Chip W)) → P e' → Q e')
      → At e w m Q
  leads_in f g = record { result = let (x, e', w', p, q) = f.result in (x, e', w', p, g e' q) }

  -- What follows a steady command knows what that command answered, and the world it led to.
  pub bind_in :
      {A B : Type 0} {e : Device (Chip W)} {w : W} {m : Cmd (Device (Chip W)) A}
      {k : A → Cmd (Device (Chip W)) B} {Q : Device (Chip W) → Type 0}
      → IsSteady m
      → ((x : A) (w' : W) → m (at_world e w) ≡ done x (at_world e w') → At e w' (k x) Q)
      → At e w (m >>= k) Q
  bind_in {e} {w} f g = record {
    result =
        let (x, w', p) = f.apply e w in
        let (y, e', w'', p', q) = (g x w' p).result in (y, e', w'', rw p p', q);
  }

  pub changed_in :
      {A : Type 0} {e : Device (Chip W)} {w : W} (f : Device (Chip W) → Device (Chip W))
      {k : Cmd (Device (Chip W)) A} {Q : Device (Chip W) → Type 0}
      → f (at_world e w) ≡ at_world (f e) w
      → At (f e) w k Q
      → At e w (modify f >> k) Q
  changed_in {e} f {k} h g = record {
    result = let (x, e', w', p, q) = g.result in (x, e', w', ap k h ∙ p, q);
  }

  pub port-IsSteady :
      {A : Type 0} {now : W → ℕ} {k : ℕ} {m : Cmd W A} → Takes now k m → IsSteady (on_port m)
  port-IsSteady {m} h = record {
    apply = λ e w. let (x, w', p, _, _) = h.apply w in (x, w', on_port-done m (at_world e w) p);
  }
