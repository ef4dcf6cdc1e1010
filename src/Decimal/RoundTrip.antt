-- ===== src/Decimal/RoundTrip.antt =====
-- What is read back of a printed number.
use iocp_multi_threading_cha.Prelude.{
  ℕ, zero, suc, ◌+◌, ◌/◌, ◌%◌, ◌^◌, ◌<◌, ◌≡◌, refl, ap, Bool, true, false, ◌&&◌, some, List, [],
  ◌∷◌, arith, ltb,
}
use iocp_multi_threading_cha.Decimal.{
  emit, to_string, is_digit, skip_space, sign, digit_first, value, stoull,
}

abbrev pub all_digits : List ℕ → Bool
all_digits [] = true
all_digits (c ∷ s) = is_digit c && all_digits s

emit-digits :
    (rounds n : ℕ) (out : List ℕ) → all_digits out ≡ true → all_digits (emit rounds n out) ≡ true
unfolding emit
emit-digits zero n out h = h
emit-digits (suc rounds) n out h = ground (arith, emit-digits rounds (n / 10) ((48 + n % 10) ∷ out))

emit-first :
    (rounds n : ℕ) (out : List ℕ) → digit_first out ≡ true → digit_first (emit rounds n out) ≡ true
unfolding emit
emit-first zero n out h = h
emit-first (suc rounds) n out h = ground (arith, emit-first rounds (n / 10) ((48 + n % 10) ∷ out))

pub to_string-first : (n : ℕ) → digit_first (to_string n) ≡ true
unfolding to_string emit
to_string-first n = ground (arith, emit-first 19 (n / 10) ((48 + n % 10) ∷ []))

pub to_string-digits : (n : ℕ) → all_digits (to_string n) ≡ true
unfolding to_string
to_string-digits n = emit-digits 20 n [] refl

value-emit :
    (rounds n : ℕ) (out : List ℕ) → n < 10 ^ rounds → value 0 (emit rounds n out) ≡ value n out
unfolding emit value
value-emit zero n out h = ap (λ m. value m out) (omega arith)
value-emit (suc rounds) n out h = ground (arith, value-emit rounds (n / 10) ((48 + n % 10) ∷ out))

pub skip_space-first : (s : List ℕ) → digit_first s ≡ true → skip_space s ≡ s
unfolding skip_space
skip_space-first [] h = refl
skip_space-first (c ∷ s) h = ground (arith, h)

pub sign-first : (s : List ℕ) → digit_first s ≡ true → sign s ≡ (false, s)
sign-first [] h = refl
sign-first (c ∷ s) h = ground (arith, h)

pub value-to_string : (n : ℕ) → n < 18446744073709551616 → value 0 (to_string n) ≡ n
unfolding to_string value
value-to_string n h = value-emit 20 n [] (omega arith)

-- Every 64-bit number is read back from its decimal print.
pub stoull-to_string : (n : ℕ) → n < 18446744073709551616 → stoull (to_string n) ≡ some n
unfolding stoull
stoull-to_string n h =
    rw
      (
        skip_space-first (to_string n) (to_string-first n),
        sign-first (to_string n) (to_string-first n),
        to_string-first n,
        value-to_string n h,
        fits,
      )
      refl
  where
    fits : ltb 18446744073709551615 n ≡ false
    fits = ground arith
