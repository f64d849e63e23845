-- ===== src/Prelude/Post.antt =====
-- Postconditions of commands, and the rules by which they are proved.
use mathlib.Core.Path.{◌≡◌, refl, subst₂}
use mathlib.Core.Bool.{Bool, true, false}
use native.Mathlib.Omega.{arith}
use grove_lo_ra_433mhz_and.Prelude.Tests.{if◌then◌else◌}
use grove_lo_ra_433mhz_and.Prelude.Commands.{
  done, Cmd, ◌>>=◌, ◌>>◌, pure, modify, get, gets, when, >>=-done,
}

-- From a state with `P`, every return of `m` satisfies `Q`.
pub record Post {S A : Type 0} (P : S → Type 0) (m : Cmd S A) (Q : A → S → Type 0) : Type 0 where
  pub apply : {s t : S} {a : A} → P s → m s ≡ done a t → Q a t

value_eq : {S A : Type 0} {a b : A} {s t : S} → done a s ≡ done b t → a ≡ b
value_eq h = ground arith

state_eq : {S A : Type 0} {a b : A} {s t : S} → done a s ≡ done b t → s ≡ t
state_eq h = ground arith

pub done_subst :
    {S A : Type 0} (Q : A → S → Type 0) {a b : A} {s t : S} → done a s ≡ done b t → Q a s → Q b t
done_subst Q h q = subst₂ Q (value_eq h) (state_eq h) q

-- The rules by which postconditions of commands are proved.
module _ {S : Type 0} {P : S → Type 0} where
  pub bind :
      {A B : Type 0} {m : Cmd S A} {k : A → Cmd S B} {Q : A → S → Type 0} {R : B → S → Type 0}
      → Post P m Q
      → ((a : A) → Post (Q a) (k a) R)
      → Post P (m >>= k) R
  bind {m} {k} f g = record {
    apply = λ {s} p h. let (a, u, e, h') = >>=-done m k s h in (g a).apply (f.apply p e) h';
  }

  pub next :
      {A B : Type 0} {m : Cmd S A} {k : Cmd S B} {Q : S → Type 0} {R : B → S → Type 0}
      → Post P m (λ _. Q)
      → Post Q k R
      → Post P (m >> k) R
  next {m} {k} f g = record {
    apply = λ {s} p h. let (a, u, e, h') = >>=-done m (λ _. k) s h in g.apply (f.apply p e) h';
  }

  pub returns :
      {A : Type 0} {a : A} {Q : A → S → Type 0} → ((s : S) → P s → Q a s) → Post P (pure a) Q
  returns {Q} f = record { apply = λ p h. done_subst Q h (f _ p) }

  pub modifies :
      {f : S → S} {Q : S → Type 0} → ((s : S) → P s → Q (f s)) → Post P (modify f) (λ _. Q)
  modifies {Q} f = record { apply = λ p h. done_subst (λ _. Q) h (f _ p) }

  pub reads : {A : Type 0} {f : S → A} → Post P (gets f) (λ a s. P s × (a ≡ f s))
  reads {f} = record { apply = λ p h. done_subst (λ a s. P s × (a ≡ f s)) h (p, refl) }

  pub branch :
      {A : Type 0} (b : Bool) {m k : Cmd S A} {Q : A → S → Type 0}
      → (b ≡ true → Post P m Q)
      → (b ≡ false → Post P k Q)
      → Post P (if b then m else k) Q
  branch true f g = f refl
  branch false f g = g refl

  pub whenever :
      (b : Bool) {m : Cmd S (Unit {0})}
      → (b ≡ true → Post P m (λ _. P))
      → Post P (when b m) (λ _. P)
  whenever true f = f refl
  whenever false f = returns (λ s p. p)

  pub weaken :
      {A : Type 0} {m : Cmd S A} {Q R : A → S → Type 0}
      → Post P m Q
      → ((a : A) (s : S) → Q a s → R a s)
      → Post P m R
  weaken f g = record { apply = λ p h. g _ _ (f.apply p h) }

  pub fetch :
      {A : Type 0} {k : S → Cmd S A} {R : A → S → Type 0}
      → ((n : S) → Post (λ s. P s × (n ≡ s)) (k n) R)
      → Post P (get >>= k) R
  fetch f = record { apply = λ {s} p h. (f s).apply (p, refl) h }

  -- A stronger condition beforehand.
  pub strengthen :
      {A : Type 0} {P' : S → Type 0} {m : Cmd S A} {Q : A → S → Type 0}
      → ((s : S) → P s → P' s)
      → Post P' m Q
      → Post P m Q
  strengthen f g = record { apply = λ p h. g.apply (f _ p) h }

  -- A fact that does not depend on the state.
  pub given :
      {A F : Type 0} {m : Cmd S A} {Q : A → S → Type 0} → (F → Post P m Q) → Post (λ s. P s × F) m Q
  given f = record { apply = λ p h. (f p.1).apply p.0 h }
