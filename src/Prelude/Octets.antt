-- ===== src/Prelude/Octets.antt =====
-- Lists of octets: numbers of eight bits.
use Prim.Native.Nat.{ℕ, zero, suc, ◌<◌}
use mathlib.Core.Path.{◌≡◌, refl}
use mathlib.Core.Bool.{Bool, true, ◌&&◌}
use mathlib.Core.List.{List, [], ◌∷◌, ◌++◌}
use native.Mathlib.Omega.{arith}
use grove_lo_ra_433mhz_and.Prelude.Lists.{blit, get_or, take, drop}
use grove_lo_ra_433mhz_and.Prelude.Tests.{ltb}

abbrev pub all_octets : List ℕ → Bool
all_octets [] = true
all_octets (b ∷ bs) = ltb b 256 && all_octets bs

pub all_octets-append :
    (bs cs : List ℕ) → all_octets bs ≡ true → all_octets cs ≡ true → all_octets (bs ++ cs) ≡ true
all_octets-append [] cs h k = k
all_octets-append (b ∷ bs) cs h k = ground (arith, all_octets-append bs cs)

pub all_octets-blit :
    (i : ℕ) (bs cs : List ℕ)
    → all_octets bs ≡ true
    → all_octets cs ≡ true
    → all_octets (blit i bs cs) ≡ true
all_octets-blit i bs [] h k = refl
all_octets-blit zero [] (c ∷ cs) h k = k
all_octets-blit zero (b ∷ bs) (c ∷ cs) h k = ground (arith, all_octets-blit zero bs cs)
all_octets-blit (suc i) bs (c ∷ cs) h k = ground (arith, all_octets-blit i bs cs)

pub get_or-octet : (bs : List ℕ) (i : ℕ) → all_octets bs ≡ true → get_or bs i 0 < 256
get_or-octet [] i h = omega arith
get_or-octet (b ∷ bs) zero h = ground arith
get_or-octet (b ∷ bs) (suc i) h = get_or-octet bs i (ground arith)

pub all_octets-take : (n : ℕ) (bs : List ℕ) → all_octets bs ≡ true → all_octets (take n bs) ≡ true
all_octets-take zero bs h = refl
all_octets-take (suc n) [] h = refl
all_octets-take (suc n) (b ∷ bs) h = ground (arith, all_octets-take n bs)

pub all_octets-drop : (n : ℕ) (bs : List ℕ) → all_octets bs ≡ true → all_octets (drop n bs) ≡ true
all_octets-drop zero bs h = h
all_octets-drop (suc n) [] h = refl
all_octets-drop (suc n) (b ∷ bs) h = all_octets-drop n bs (ground arith)
