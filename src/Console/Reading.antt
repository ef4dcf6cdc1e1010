-- ===== src/Console/Reading.antt =====
-- What the extraction operators of `std::stringstream` read of a text that was typed: the arguments of the
-- commands of Source/ChatClient/Main.cpp.
use iocp_multi_threading_cha.Prelude.{
  ℕ, suc, ◌+◌, ◌-◌, ◌<◌, ◌≡◌, refl, Bool, true, false, [], ◌∷◌, ◌++◌, ◌&&◌, not, ◌*◌, ◌==◌, length,
  arith,
}
use iocp_multi_threading_cha.Console.Words.{word, extract_int, after_digits, clamped}
use iocp_multi_threading_cha.Decimal.{to_string, is_space, skip_space, digit_first, value}
use iocp_multi_threading_cha.Decimal.RoundTrip.{
  all_digits, to_string-digits, to_string-first, value-to_string, skip_space-first, sign-first,
}
use iocp_multi_threading_cha.Session.{Bytes}

abbrev pub no_space : Bytes → Bool
no_space [] = true
no_space (c ∷ s) = not (is_space c) && no_space s

-- The text does not start with white space, and is not empty.
abbrev pub visible : Bytes → Bool
visible [] = false
visible (c ∷ s) = not (is_space c)

pub skip_space-visible : (s : Bytes) → visible s ≡ true → skip_space s ≡ s
unfolding skip_space
skip_space-visible [] h = refl
skip_space-visible (c ∷ s) h = ground (arith, h)

pub word-no_space : (s : Bytes) → no_space s ≡ true → word s ≡ (s, [])
unfolding word
word-no_space [] h = refl
word-no_space (c ∷ s) h = ground (arith, word-no_space s)

word-stops : (s t : Bytes) → no_space s ≡ true → word (s ++ (32 ∷ t)) ≡ (s, 32 ∷ t)
unfolding word
word-stops [] t h = refl
word-stops (c ∷ s) t h = ground (arith, word-stops s t)

pub skip_space-no_space : (s : Bytes) → no_space s ≡ true → skip_space s ≡ s
unfolding skip_space
skip_space-no_space [] h = refl
skip_space-no_space (c ∷ s) h = ground (arith, h)

after_digits-digits : (s t : Bytes) → all_digits s ≡ true → after_digits (s ++ (32 ∷ t)) ≡ 32 ∷ t
unfolding after_digits
after_digits-digits [] t h = refl
after_digits-digits (c ∷ s) t h = ground (arith, after_digits-digits s t)

value-stops : (n : ℕ) (s t : Bytes) → all_digits s ≡ true → value n (s ++ (32 ∷ t)) ≡ value n s
unfolding value
value-stops n [] t h = refl
value-stops n (c ∷ s) t h = ground (arith, value-stops (n * 10 + (c - 48)) s t)

digit_first-append : (s t : Bytes) → digit_first s ≡ true → digit_first (s ++ t) ≡ true
digit_first-append [] t h = absurd (ground (arith, h))
digit_first-append (c ∷ s) t h = h

long : (s t : Bytes) → (length (s ++ (32 ∷ t)) == 0) ≡ false
long [] t = ground arith
long (c ∷ s) t = ground arith

pub not_empty : (s : Bytes) → (suc (length s) == 0) ≡ false
not_empty s = ground arith

pub extract_int-space : (old : ℕ) (s : Bytes) → extract_int old (32 ∷ s) ≡ extract_int old s
unfolding extract_int skip_space
extract_int-space old s = refl

pub skip_space-space : (s : Bytes) → no_space s ≡ true → skip_space (32 ∷ s) ≡ s
unfolding skip_space
skip_space-space s h = skip_space-no_space s h

clamped-small :
    (n : ℕ) (rest : Bytes)
    → n < 2147483648
    → clamped false n rest ≡ record { stored = n; failed = false; unread = rest }
clamped-small n rest h = ground arith

-- `ss >> roomId` reads back a number that was typed, and leaves what stands after it.
pub extract_int-to_string :
    (old n : ℕ) (t : Bytes)
    → n < 2147483648
    → extract_int old (to_string n ++ (32 ∷ t))
      ≡ record { stored = n; failed = false; unread = 32 ∷ t }
unfolding extract_int
extract_int-to_string old n t h =
    rw
      (
        skip_space-first (to_string n ++ (32 ∷ t)) first,
        sign-first (to_string n ++ (32 ∷ t)) first,
        first,
        long (to_string n) t,
        value-stops 0 (to_string n) t (to_string-digits n),
        after_digits-digits (to_string n) t (to_string-digits n),
        value-to_string n (omega (arith, h)),
        clamped-small n (32 ∷ t) h,
      )
      refl
  where
    first : digit_first (to_string n ++ (32 ∷ t)) ≡ true
    first = digit_first-append (to_string n) (32 ∷ t) (to_string-first n)

after_digits-all : (s : Bytes) → all_digits s ≡ true → after_digits s ≡ []
unfolding after_digits
after_digits-all [] h = refl
after_digits-all (c ∷ s) h = ground (arith, h, after_digits-all s)

some_digit : (s : Bytes) → digit_first s ≡ true → (length s == 0) ≡ false
some_digit [] h = absurd (ground (arith, h))
some_digit (c ∷ s) h = not_empty s

-- The same where the text ends with the number.
pub extract_int-to_string_end :
    (old n : ℕ)
    → n < 2147483648
    → extract_int old (to_string n) ≡ record { stored = n; failed = false; unread = [] }
unfolding extract_int
extract_int-to_string_end old n h =
    rw
      (
        skip_space-first (to_string n) (to_string-first n),
        sign-first (to_string n) (to_string-first n),
        to_string-first n,
        some_digit (to_string n) (to_string-first n),
        after_digits-all (to_string n) (to_string-digits n),
        value-to_string n (omega (arith, h)),
        clamped-small n [] h,
      )
      refl
