-- ===== src/Prelude/Lists.antt =====
-- Lists measured and indexed by native numbers, under the library's names.
use Prim.Native.Nat.{ℕ, zero, suc, ◌+◌, ◌-◌, ◌≤◌, ◌<◌, min}
use mathlib.Core.Path.{◌≡◌, refl, ap}
use mathlib.Core.List.{List, [], ◌∷◌, ◌++◌}
use mathlib.Core.Option.{Option, none, some}
use native.Mathlib.Omega.{arith}

module _ {ℓ} {A : Type ℓ} where
  abbrev pub length : List A → ℕ
  length [] = 0
  length (x ∷ xs) = suc (length xs)

  abbrev pub get_elem? : List A → ℕ → Option A
  get_elem? [] i = none
  get_elem? (x ∷ xs) zero = some x
  get_elem? (x ∷ xs) (suc i) = get_elem? xs i

  abbrev pub get_or : List A → ℕ → A → A
  get_or [] i d = d
  get_or (x ∷ xs) zero d = x
  get_or (x ∷ xs) (suc i) d = get_or xs i d

  -- A write out of bounds changes nothing.
  abbrev pub set : List A → ℕ → A → List A
  set [] i v = []
  set (x ∷ xs) zero v = v ∷ xs
  set (x ∷ xs) (suc i) v = x ∷ set xs i v

  abbrev pub take : ℕ → List A → List A
  take zero xs = []
  take (suc n) [] = []
  take (suc n) (x ∷ xs) = x ∷ take n xs

  abbrev pub drop : ℕ → List A → List A
  drop zero xs = xs
  drop (suc n) [] = []
  drop (suc n) (x ∷ xs) = drop n xs

  abbrev pub replicate : ℕ → A → List A
  replicate zero a = []
  replicate (suc n) a = a ∷ replicate n a

  pub length-append : (xs ys : List A) → length (xs ++ ys) ≡ length xs + length ys
  length-append [] ys = omega arith
  length-append (x ∷ xs) ys = omega (arith, length-append xs ys)

  pub length-set : (xs : List A) (i : ℕ) (v : A) → length (set xs i v) ≡ length xs
  length-set [] i v = refl
  length-set (x ∷ xs) zero v = refl
  length-set (x ∷ xs) (suc i) v = ap suc (length-set xs i v)

  pub length-take : (n : ℕ) (xs : List A) → length (take n xs) ≡ min n (length xs)
  length-take zero xs = omega arith
  length-take (suc n) [] = omega arith
  length-take (suc n) (x ∷ xs) = omega (arith, length-take n xs)

  pub length-drop : (n : ℕ) (xs : List A) → length (drop n xs) ≡ length xs - n
  length-drop zero xs = omega arith
  length-drop (suc n) [] = omega arith
  length-drop (suc n) (x ∷ xs) = omega (arith, length-drop n xs)

  pub length-replicate : (n : ℕ) (a : A) → length (replicate n a) ≡ n
  length-replicate zero a = refl
  length-replicate (suc n) a = ap suc (length-replicate n a)

  pub take_all : (n : ℕ) (xs : List A) → length xs ≤ n → take n xs ≡ xs
  take_all zero [] h = refl
  take_all zero (x ∷ xs) h = absurd (omega arith)
  take_all (suc n) [] h = refl
  take_all (suc n) (x ∷ xs) h = ap (λ ys. x ∷ ys) (take_all n xs (omega arith))

  pub take-append : (xs ys : List A) → take (length xs) (xs ++ ys) ≡ xs
  take-append [] ys = refl
  take-append (x ∷ xs) ys = ap (λ zs. x ∷ zs) (take-append xs ys)

  pub drop-append : (xs ys : List A) → drop (length xs) (xs ++ ys) ≡ ys
  drop-append [] ys = refl
  drop-append (x ∷ xs) ys = drop-append xs ys

  -- `memcpy` of `xs` into the array `ys` at an offset; what would lie behind the array is lost.
  abbrev pub blit : ℕ → List A → List A → List A
  blit i xs [] = []
  blit zero [] (y ∷ ys) = y ∷ ys
  blit zero (x ∷ xs) (y ∷ ys) = x ∷ blit zero xs ys
  blit (suc i) xs (y ∷ ys) = y ∷ blit i xs ys

  pub length-blit : (i : ℕ) (xs ys : List A) → length (blit i xs ys) ≡ length ys
  length-blit i xs [] = refl
  length-blit zero [] (y ∷ ys) = refl
  length-blit zero (x ∷ xs) (y ∷ ys) = ap suc (length-blit zero xs ys)
  length-blit (suc i) xs (y ∷ ys) = ap suc (length-blit i xs ys)

  pub get_or-blit :
      (xs ys : List A) (i : ℕ) (d : A)
      → i < length xs
      → length xs ≤ length ys
      → get_or (blit 0 xs ys) i d ≡ get_or xs i d
  get_or-blit [] ys i d h k = absurd (omega arith)
  get_or-blit (x ∷ xs) [] i d h k = absurd (omega arith)
  get_or-blit (x ∷ xs) (y ∷ ys) zero d h k = refl
  get_or-blit (x ∷ xs) (y ∷ ys) (suc i) d h k = get_or-blit xs ys i d (omega arith) (omega arith)

  pub get_or-drop : (n : ℕ) (xs : List A) (d : A) → get_or (drop n xs) 0 d ≡ get_or xs n d
  get_or-drop zero xs d = refl
  get_or-drop (suc n) [] d = refl
  get_or-drop (suc n) (x ∷ xs) d = get_or-drop n xs d

  pub get_or-take :
      (n : ℕ) (xs : List A) (i : ℕ) (d : A) → i < n → get_or (take n xs) i d ≡ get_or xs i d
  get_or-take zero xs i d h = absurd (omega arith)
  get_or-take (suc n) [] i d h = refl
  get_or-take (suc n) (x ∷ xs) zero d h = refl
  get_or-take (suc n) (x ∷ xs) (suc i) d h = get_or-take n xs i d (omega arith)

  pub get_elem?-get_or :
      (xs : List A) (i : ℕ) (d : A) → i < length xs → get_elem? xs i ≡ some (get_or xs i d)
  get_elem?-get_or [] i d h = absurd (omega arith)
  get_elem?-get_or (x ∷ xs) zero d h = refl
  get_elem?-get_or (x ∷ xs) (suc i) d h = get_elem?-get_or xs i d (omega arith)

  pub take-blit : (xs ys : List A) → length xs ≤ length ys → take (length xs) (blit 0 xs ys) ≡ xs
  take-blit [] ys h = refl
  take-blit (x ∷ xs) [] h = absurd (omega arith)
  take-blit (x ∷ xs) (y ∷ ys) h = ap (λ zs. x ∷ zs) (take-blit xs ys (omega arith))

  pub take-min-blit :
      (n : ℕ) (xs ys : List A)
      → length xs ≤ length ys
      → take (min n (length xs)) (blit 0 xs ys) ≡ take n xs
  take-min-blit zero xs ys h = let e : min 0 (length xs) ≡ 0 = omega arith in rw e
  take-min-blit (suc n) [] ys h = let e : min (suc n) 0 ≡ 0 = omega arith in rw e
  take-min-blit (suc n) (x ∷ xs) [] h = absurd (omega arith)
  take-min-blit (suc n) (x ∷ xs) (y ∷ ys) h =
      let e : min (suc n) (suc (length xs)) ≡ suc (min n (length xs)) = omega arith in
      rw e (ap (λ zs. x ∷ zs) (take-min-blit n xs ys (omega arith)))
