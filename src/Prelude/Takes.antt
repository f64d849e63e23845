-- ===== src/Prelude/Takes.antt =====
-- Commands that always return, within a given time, and the rules by which this is proved.
use Prim.Native.Nat.{ℕ, ◌+◌, ◌≤◌}
use mathlib.Core.Path.{◌≡◌, refl}
use mathlib.Core.Bool.{Bool, true, false}
use native.Mathlib.Omega.{arith}
use grove_lo_ra_433mhz_and.Prelude.Tests.{if◌then◌else◌}
use grove_lo_ra_433mhz_and.Prelude.Commands.{done, Cmd, ◌>>=◌, ◌>>◌, pure, modify, gets, get, when}

-- From every state the command returns, and the time goes on by at most `k`.
pub record Takes {S A : Type 0} (now : S → ℕ) (k : ℕ) (m : Cmd S A) : Type 0 where
  pub apply : (s : S) → (a : A) × (t : S) × (m s ≡ done a t) × (now s ≤ now t) × (now t ≤ now s + k)

module _ {S : Type 0} {now : S → ℕ} where
  pub bind :
      {A B : Type 0} {j k : ℕ} {m : Cmd S A} {f : A → Cmd S B}
      → Takes now j m
      → ((a : A) → Takes now k (f a))
      → Takes now (j + k) (m >>= f)
  bind g h = record {
    apply = λ s.
        let (a, t, e, low, high) = g.apply s in
        let (b, u, e', low', high') = (h a).apply t in (b, u, rw e e', omega arith, omega arith);
  }

  pub next :
      {A B : Type 0} {j k : ℕ} {m : Cmd S A} {n : Cmd S B}
      → Takes now j m
      → Takes now k n
      → Takes now (j + k) (m >> n)
  next g h = bind g (λ _. h)

  pub returns : {A : Type 0} (a : A) → Takes now 0 (pure a)
  returns a = record { apply = λ s. (a, s, refl, omega arith, omega arith) }

  pub reads : {A : Type 0} (f : S → A) → Takes now 0 (gets f)
  reads f = record { apply = λ s. (f s, s, refl, omega arith, omega arith) }

  pub modifies : (f : S → S) → ((s : S) → now (f s) ≡ now s) → Takes now 0 (modify f)
  modifies f h = record { apply = λ s. (tt, f s, refl, omega (arith, h s), omega (arith, h s)) }

  pub branch :
      {A : Type 0} (b : Bool) {k : ℕ} {m n : Cmd S A}
      → Takes now k m
      → Takes now k n
      → Takes now k (if b then m else n)
  branch true g h = g
  branch false g h = h

  pub whenever : (b : Bool) {k : ℕ} {m : Cmd S (Unit {0})} → Takes now k m → Takes now k (when b m)
  whenever true g = g
  whenever false g = record { apply = λ s. (tt, s, refl, omega arith, omega arith) }

  pub fetch :
      {A : Type 0} {k : ℕ} {f : S → Cmd S A}
      → ((s : S) → Takes now k (f s))
      → Takes now k (get >>= f)
  fetch h = record { apply = λ s. (h s).apply s }

  pub weaken : {A : Type 0} {j k : ℕ} {m : Cmd S A} → j ≤ k → Takes now j m → Takes now k m
  weaken l g = record {
    apply = λ s. let (a, t, e, low, high) = g.apply s in (a, t, e, low, omega arith);
  }
