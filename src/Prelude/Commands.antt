-- ===== src/Prelude/Commands.antt =====
-- Commands: the code of a member function, run on the state of the objects that it can reach.
use Prim.Native.Nat.{ℕ}
use mathlib.Core.Path.{◌≡◌, refl}
use mathlib.Core.Bool.{Bool, true, false}
use mathlib.Core.Option.{none, some}
use mathlib.Core.List.{List}
use grove_lo_ra_433mhz_and.Prelude.Lists.{get_elem?}

-- `done` is a return. `fault` is an access outside an array, which C leaves undefined.
-- `out_of_fuel` is a loop that has not ended in the rounds that it was given.
pub data Run (S A : Type 0) : Type 0 where
  done : A → S → Run S A
  fault : Run S A
  out_of_fuel : Run S A

abbrev pub Cmd : Type 0 → Type 0 → Type 0
Cmd S A = S → Run S A

module _ {S : Type 0} where
  abbrev pub pure : {A : Type 0} → A → Cmd S A
  pure a s = done a s

  abbrev pub and_then : {A B : Type 0} → Run S A → (A → Cmd S B) → Run S B
  and_then (done a s) k = k a s
  and_then fault k = fault
  and_then out_of_fuel k = out_of_fuel

  infixl 5 ◌>>=◌ ◌>>◌
  abbrev pub ◌>>=◌ : {A B : Type 0} → Cmd S A → (A → Cmd S B) → Cmd S B
  ◌>>=◌ m k s = and_then (m s) k

  abbrev pub ◌>>◌ : {A B : Type 0} → Cmd S A → Cmd S B → Cmd S B
  ◌>>◌ m n s = and_then (m s) (λ _. n)

  abbrev pub get : Cmd S S
  get s = done s s

  abbrev pub gets : {A : Type 0} → (S → A) → Cmd S A
  gets f s = done (f s) s

  abbrev pub modify : (S → S) → Cmd S (Unit {0})
  modify f s = done tt (f s)

  -- `if (b) c;`
  abbrev pub when : Bool → Cmd S (Unit {0}) → Cmd S (Unit {0})
  when true c = c
  when false c = pure tt

  -- A read of an array element.
  abbrev pub read_at : List ℕ → ℕ → Cmd S ℕ
  read_at xs i s = elim (get_elem? xs i) [ some x ↦ done x s | none ↦ fault ]

module _ {S A B : Type 0} where
  -- A sequence that returns has returned from each part.
  pub >>=-done :
      (m : Cmd S A) (k : A → Cmd S B) (s : S) {b : B} {t : S}
      → (m >>= k) s ≡ done b t
      → (a : A) × (u : S) × (m s ≡ done a u) × (k a u ≡ done b t)
  >>=-done m k s h = go (m s) refl h
    where
      go :
          (x : Run S A)
          → m s ≡ x
          → {b : B} {t : S} → and_then x k ≡ done b t
          → (a : A) × (u : S) × (m s ≡ done a u) × (k a u ≡ done b t)
      go (done a u) e h = (a, u, e, h)
      go fault e h = cc
      go out_of_fuel e h = cc

  -- A result that is not looked at.
  pub and_then-and_then :
      (x : Run S A) (k : Cmd S B)
      → and_then (and_then x (λ _. pure tt)) (λ _. k) ≡ and_then x (λ _. k)
  and_then-and_then (done a s) k = refl
  and_then-and_then fault k = refl
  and_then-and_then out_of_fuel k = refl
