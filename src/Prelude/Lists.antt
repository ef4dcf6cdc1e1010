-- ===== src/Prelude/Lists.antt =====
-- Lists measured and indexed by native numbers, and `memcpy` as `blit`.
use Prim.Native.Nat.{ℕ, zero, suc, ◌+◌, ◌-◌, ◌≤◌, ◌<◌, min}
use mathlib.Core.Path.{◌≡◌, refl, ap, ap₂}
use mathlib.Core.Logic.{◌⊎◌, inl, inr}
use mathlib.Core.Bool.{Bool, true, false, ◌&&◌}
use mathlib.Core.List.{List, [], ◌∷◌, ◌++◌}
use mathlib.Core.Option.{Option, none, some, some-injective}
use native.Mathlib.Omega.{arith}
use iocp_multi_threading_cha.Prelude.Tests.{ltb, ◌==◌, if◌then◌else◌, one_if}

module _ {ℓ} {A : Type ℓ} where
  abbrev pub length : List A → ℕ
  length [] = 0
  length (x ∷ xs) = suc (length xs)

  abbrev pub get_elem? : List A → ℕ → Option A
  get_elem? [] i = none
  get_elem? (x ∷ xs) zero = some x
  get_elem? (x ∷ xs) (suc i) = get_elem? xs i

  abbrev pub take : ℕ → List A → List A
  take zero xs = []
  take (suc n) [] = []
  take (suc n) (x ∷ xs) = x ∷ take n xs

  abbrev pub drop : ℕ → List A → List A
  drop zero xs = xs
  drop (suc n) [] = []
  drop (suc n) (x ∷ xs) = drop n xs

  abbrev pub replicate : ℕ → A → List A
  replicate zero a = []
  replicate (suc n) a = a ∷ replicate n a

  -- `memcpy(&buf[i], src, n)` with `n` the length of `src`. Bytes past the end of `buf` are dropped;
  -- the program's bounds rule that out.
  abbrev pub blit : List A → ℕ → List A → List A
  blit [] i src = []
  blit (x ∷ xs) zero [] = x ∷ xs
  blit (x ∷ xs) zero (y ∷ ys) = y ∷ blit xs zero ys
  blit (x ∷ xs) (suc i) src = x ∷ blit xs i src

  pub length-append : (xs ys : List A) → length (xs ++ ys) ≡ length xs + length ys
  length-append [] ys = omega arith
  length-append (x ∷ xs) ys = omega (arith, length-append xs ys)

  pub length-take : (n : ℕ) (xs : List A) → length (take n xs) ≡ min n (length xs)
  length-take zero xs = omega arith
  length-take (suc n) [] = omega arith
  length-take (suc n) (x ∷ xs) = omega (arith, length-take n xs)

  pub length-drop : (n : ℕ) (xs : List A) → length (drop n xs) ≡ length xs - n
  length-drop zero xs = omega arith
  length-drop (suc n) [] = omega arith
  length-drop (suc n) (x ∷ xs) = omega (arith, length-drop n xs)

  pub length-replicate : (n : ℕ) (a : A) → length (replicate n a) ≡ n
  length-replicate zero a = refl
  length-replicate (suc n) a = ap suc (length-replicate n a)

  pub length-blit : (xs : List A) (i : ℕ) (src : List A) → length (blit xs i src) ≡ length xs
  length-blit [] i src = refl
  length-blit (x ∷ xs) zero [] = refl
  length-blit (x ∷ xs) zero (y ∷ ys) = ap suc (length-blit xs zero ys)
  length-blit (x ∷ xs) (suc i) src = ap suc (length-blit xs i src)

  pub get_elem?-append :
      (xs ys : List A) (i : ℕ)
      → get_elem? (xs ++ ys) i
        ≡ (if ltb i (length xs) then get_elem? xs i else get_elem? ys (i - length xs))
  get_elem?-append [] ys i = ground arith
  get_elem?-append (x ∷ xs) ys zero = ground arith
  get_elem?-append (x ∷ xs) ys (suc i) = ground (arith, get_elem?-append xs ys i)

  pub get_elem?-take :
      (n : ℕ) (xs : List A) (i : ℕ)
      → get_elem? (take n xs) i ≡ (if ltb i n then get_elem? xs i else none)
  get_elem?-take zero xs i = ground arith
  get_elem?-take (suc n) [] i = ground arith
  get_elem?-take (suc n) (x ∷ xs) zero = ground arith
  get_elem?-take (suc n) (x ∷ xs) (suc i) = ground (arith, get_elem?-take n xs i)

  pub get_elem?-drop :
      (n : ℕ) (xs : List A) (i : ℕ) → get_elem? (drop n xs) i ≡ get_elem? xs (n + i)
  get_elem?-drop zero xs i = ap (get_elem? xs) (omega arith)
  get_elem?-drop (suc n) [] i = refl
  get_elem?-drop (suc n) (x ∷ xs) i = ground (arith, get_elem?-drop n xs i)

  pub get_elem?-past : (xs : List A) (i : ℕ) → length xs ≤ i → get_elem? xs i ≡ none
  get_elem?-past [] i h = refl
  get_elem?-past (x ∷ xs) zero h = absurd (omega arith)
  get_elem?-past (x ∷ xs) (suc i) h = get_elem?-past xs i (omega arith)

  pub get_elem?-within : (xs : List A) (i : ℕ) (a : A) → get_elem? xs i ≡ some a → i < length xs
  get_elem?-within [] i a e = absurd (ground (arith, e))
  get_elem?-within (x ∷ xs) zero a e = omega arith
  get_elem?-within (x ∷ xs) (suc i) a e = omega (arith, get_elem?-within xs i a e)

  pub get_elem?-blit :
      (xs : List A) (i : ℕ) (src : List A) (j : ℕ)
      → i + length src ≤ length xs
      → get_elem? (blit xs i src) j ≡ (
          if ltb j i
          then get_elem? xs j
          else if ltb j (i + length src)
          then get_elem? src (j - i)
          else get_elem? xs j)
  get_elem?-blit [] i [] j h = ground arith
  get_elem?-blit [] i (y ∷ ys) j h = absurd (omega arith)
  get_elem?-blit (x ∷ xs) zero [] zero h = refl
  get_elem?-blit (x ∷ xs) zero [] (suc j) h = rw if-past
    where
      if-past : ltb (suc j) (0 + 0) ≡ false
      if-past = ground arith
  get_elem?-blit (x ∷ xs) zero (y ∷ ys) zero h = rw inside
    where
      inside : ltb 0 (0 + suc (length ys)) ≡ true
      inside = ground arith
  get_elem?-blit (x ∷ xs) zero (y ∷ ys) (suc j) h =
      rw (bound, get_elem?-blit xs zero ys j (omega arith), below, above, shift)
    where
      bound : ltb (suc j) (0 + suc (length ys)) ≡ ltb j (0 + length ys)
      bound = ground arith

      below : ltb j 0 ≡ false
      below = ground arith

      above : ltb (suc j) 0 ≡ false
      above = ground arith

      shift : suc j - 0 ≡ suc (j - 0)
      shift = omega arith
  get_elem?-blit (x ∷ xs) (suc i) src zero h = rw before
    where
      before : ltb 0 (suc i) ≡ true
      before = ground arith
  get_elem?-blit (x ∷ xs) (suc i) src (suc j) h =
      rw (get_elem?-blit xs i src j (omega arith), shift, bound, before)
    where
      bound : ltb (suc j) (suc i + length src) ≡ ltb j (i + length src)
      bound = ground arith

      before : ltb (suc j) (suc i) ≡ ltb j i
      before = ground arith

      shift : suc j - suc i ≡ j - i
      shift = omega arith

  -- Lists with the same elements at every index are equal.
  pub list_ext : (xs ys : List A) → ((i : ℕ) → get_elem? xs i ≡ get_elem? ys i) → xs ≡ ys
  list_ext [] [] h = refl
  list_ext [] (y ∷ ys) h = cc (h 0)
  list_ext (x ∷ xs) [] h = cc (h 0)
  list_ext (x ∷ xs) (y ∷ ys) h =
      ap₂ ◌∷◌ (some-injective _ _ (h 0)) (list_ext xs ys (λ i. h (suc i)))

  pub take-append-drop : (n : ℕ) (xs : List A) → take n xs ++ drop n xs ≡ xs
  take-append-drop zero xs = refl
  take-append-drop (suc n) [] = refl
  take-append-drop (suc n) (x ∷ xs) = ap (λ t. x ∷ t) (take-append-drop n xs)

module _ {ℓ} {A : Type ℓ} where
  pub take-all : (n : ℕ) (xs : List A) → length xs ≤ n → take n xs ≡ xs
  take-all zero [] h = refl
  take-all zero (x ∷ xs) h = absurd (omega arith)
  take-all (suc n) [] h = refl
  take-all (suc n) (x ∷ xs) h = ap (λ t. x ∷ t) (take-all n xs (omega arith))

  pub drop-all : (n : ℕ) (xs : List A) → length xs ≤ n → drop n xs ≡ []
  drop-all zero [] h = refl
  drop-all zero (x ∷ xs) h = absurd (omega arith)
  drop-all (suc n) [] h = refl
  drop-all (suc n) (x ∷ xs) h = drop-all n xs (omega arith)

  pub blit-nil : (xs : List A) (i : ℕ) → blit xs i [] ≡ xs
  blit-nil [] i = refl
  blit-nil (x ∷ xs) zero = refl
  blit-nil (x ∷ xs) (suc i) = ap (λ t. x ∷ t) (blit-nil xs i)

module _ {ℓ} {A : Type ℓ} where
  pub length-take-add-drop :
      (n : ℕ) (xs : List A) → length (take n xs) + length (drop n xs) ≡ length xs
  length-take-add-drop n xs = omega (arith, length-take n xs, length-drop n xs)

pub ruleset elems = (
  arith, length-append, length-take, length-drop, length-blit, get_elem?-append, get_elem?-take,
  get_elem?-drop,
)

pub List-cases {ℓ} :
    {A : Type ℓ} (xs : List A) → (xs ≡ []) ⊎ ((x : A) × (rest : List A) × (xs ≡ x ∷ rest))
List-cases [] = inl refl
List-cases (x ∷ xs) = inr (x, xs, refl)

-- How often a number stands in a list.
abbrev pub occurs : ℕ → List ℕ → ℕ
occurs q [] = 0
occurs q (p ∷ g) = one_if (p == q) + occurs q g

pub occurs-append : (q : ℕ) (g h : List ℕ) → occurs q (g ++ h) ≡ occurs q g + occurs q h
occurs-append q [] h = omega arith
occurs-append q (p ∷ g) h = omega (arith, occurs-append q g h)

-- `==` of two strings.
abbrev pub equal : List ℕ → List ℕ → Bool
equal [] [] = true
equal [] (y ∷ ys) = false
equal (x ∷ xs) [] = false
equal (x ∷ xs) (y ∷ ys) = x == y && equal xs ys

pub equal_refl : (s : List ℕ) → equal s s ≡ true
equal_refl [] = refl
equal_refl (c ∷ s) = ground (arith, equal_refl s)
