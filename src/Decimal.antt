-- ===== src/Decimal.antt =====
-- Decimal numbers as the program reads and prints them: `std::to_string` and `std::stoull` of the
-- C++ library on 64-bit numbers, as Source/DummyClient/Session/DummySession.cpp and
-- Source/DummyClient/Protocol/DummyPacketHandlerImpl.cpp call them.
pub mod RoundTrip
use iocp_multi_threading_cha.Prelude.{
  ℕ, zero, suc, ◌+◌, ◌-◌, ◌*◌, ◌/◌, ◌%◌, Bool, true, false, ◌&&◌, ◌||◌, Option, none, some, List,
  [], ◌∷◌, ltb, leb, ◌==◌, if◌then◌else◌,
}

-- Twenty rounds print every 64-bit number.
unfoldable pub emit : ℕ → ℕ → List ℕ → List ℕ
emit zero n out = out
emit (suc rounds) n out =
    let longer = (48 + n % 10) ∷ out in
    let rest = emit rounds (n / 10) longer in if n / 10 == 0 then longer else rest

-- `std::to_string`.
unfoldable pub to_string : ℕ → List ℕ
unfolding emit
to_string n = emit 20 n []

-- `isdigit` and `isspace`.
abbrev pub is_digit : ℕ → Bool
is_digit c = leb 48 c && leb c 57

abbrev pub is_space : ℕ → Bool
is_space c = c == 32 || leb 9 c && leb c 13

unfoldable pub skip_space : List ℕ → List ℕ
skip_space [] = []
skip_space (c ∷ s) = let rest = skip_space s in if is_space c then rest else c ∷ s

-- Whether a minus sign stands first, and the text after the sign.
abbrev pub sign : List ℕ → Bool × List ℕ
sign [] = (false, [])
sign (c ∷ s) = if c == 45 then (true, s) else if c == 43 then (false, s) else (false, c ∷ s)

abbrev pub digit_first : List ℕ → Bool
digit_first [] = false
digit_first (c ∷ s) = is_digit c

-- The number that the digits at the start of a text spell behind `n`.
unfoldable pub value : ℕ → List ℕ → ℕ
value n [] = n
value n (c ∷ s) = let rest = value (n * 10 + (c - 48)) s in if is_digit c then rest else n

-- `std::stoull`: `none` is an exception.
unfoldable pub stoull : List ℕ → Option ℕ
unfolding skip_space value
stoull s =
    let (negative, digits) = sign (skip_space s) in
    if digit_first digits
    then (let n = value 0 digits in
        if ltb 18446744073709551615 n
        then none
        else some (if negative then (18446744073709551616 - n) % 18446744073709551616 else n))
    else none
