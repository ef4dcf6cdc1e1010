-- ===== src/Console/Words.antt =====
-- The extraction operators of `std::stringstream` that Source/ChatClient/Main.cpp uses.
use iocp_multi_threading_cha.Prelude.{
  ℕ, ◌-◌, Bool, true, false, List, [], ◌∷◌, ltb, ◌==◌, if◌then◌else◌, length,
}
use iocp_multi_threading_cha.Decimal.{is_digit, is_space, skip_space, sign, digit_first, value}

-- The text up to the next white space, and the text from there on.
unfoldable pub word : List ℕ → List ℕ × List ℕ
word [] = ([], [])
word (c ∷ s) = let (w, rest) = word s in if is_space c then ([], c ∷ s) else (c ∷ w, rest)

-- The text after the digits that it starts with.
unfoldable pub after_digits : List ℕ → List ℕ
after_digits [] = []
after_digits (c ∷ s) = let rest = after_digits s in if is_digit c then rest else c ∷ s

-- What an extraction leaves: the variable as 32 bits, whether it failed, and the text that is left.
pub record Extracted : Type 0 where
  pub stored : ℕ
  pub failed : Bool
  pub unread : List ℕ

-- The number of an `int32` from its sign and the digits, held at the bounds of the type.
abbrev pub clamped : Bool → ℕ → List ℕ → Extracted
clamped false n rest =
    if ltb 2147483647 n
    then record { stored = 2147483647; failed = true; unread = rest }
    else record { stored = n; failed = false; unread = rest }
clamped true n rest =
    if ltb 2147483648 n
    then record { stored = 2147483648; failed = true; unread = rest }
    else record { stored = if n == 0 then 0 else 4294967296 - n; failed = false; unread = rest }

-- `ss >> count` with an `int32` that holds `old`: it is left alone at the end of the text, and set to 0
-- where no number stands.
unfoldable pub extract_int : ℕ → List ℕ → Extracted
unfolding skip_space value after_digits
extract_int old s =
    let text = skip_space s in
    let (negative, digits) = sign text in
    if length text == 0
    then record { stored = old; failed = true; unread = [] }
    else if digit_first digits
    then clamped negative (value 0 digits) (after_digits digits)
    else record { stored = 0; failed = true; unread = digits }
