-- ===== src/Text/Numbers.antt =====
-- `std::stoi`, `atoi` and `std::to_string`: numbers in text, in base 10.
use web_server_development.Prelude.{
  ℕ, zero, suc, ◌+◌, ◌-◌, ◌*◌, ◌/◌, ◌%◌, ◌^◌, ◌<◌, Bool, true, ◌&&◌, ◌||◌, [], ◌∷◌, Option, none,
  some, inl, inr, ◌≡◌, refl, ◌∙◌, arith, leb, ltb, lt→ltb, ◌==◌, if◌then◌else◌, Bool-cases, Result,
  ok, throws, invalid_argument, out_of_range, undefined,
}
use web_server_development.Prelude.Int.{ℤ, pos, negsuc}
use web_server_development.Text.{Bytes}

-- `isspace`
abbrev pub is_space : ℕ → Bool
is_space c = c == b' ' || leb 9 c && leb c 13

abbrev pub is_digit : ℕ → Bool
is_digit c = leb b'0' c && leb c b'9'

-- The digits at the front, behind a value read so far.
unfoldable pub digits_value : ℕ → Bytes → ℕ
digits_value acc [] = acc
digits_value acc (c ∷ cs) = if is_digit c then digits_value (acc * 10 + (c - b'0')) cs else acc

unsigned : Bytes → Option ℕ
unfolding digits_value
unsigned [] = none
unsigned (c ∷ cs) = if is_digit c then some (digits_value 0 (c ∷ cs)) else none

abbrev negative : ℕ → ℤ
negative zero = pos 0
negative (suc n) = negsuc n

signed : Bytes → Option ℤ
unfolding unsigned
signed [] = none
signed (c ∷ cs) =
    if c == b'-'
    then elim (unsigned cs) [ none ↦ none | some n ↦ some (negative n) ]
    else if c == b'+'
    then elim (unsigned cs) [ none ↦ none | some n ↦ some (pos n) ]
    else elim (unsigned (c ∷ cs)) [ none ↦ none | some n ↦ some (pos n) ]

-- `strtol(s, _, 10)` with no bound; `none` if there is no digit.
unfoldable pub strtol : Bytes → Option ℤ
unfolding signed
strtol [] = none
strtol (c ∷ cs) = if is_space c then strtol cs else signed (c ∷ cs)

-- Whether an `int` of 32 bits holds the number.
abbrev pub in_int : ℤ → Bool
in_int (pos n) = ltb n (2 ^ 31)
in_int (negsuc n) = ltb n (2 ^ 31)

unfoldable pub stoi : Bytes → Result ℤ
unfolding strtol
stoi s = elim (strtol s) [
  | none ↦ throws invalid_argument
  | some z ↦ if in_int z then ok z else throws out_of_range
]

-- The C standard leaves a number outside `int` undefined.
unfoldable pub atoi : Bytes → Result ℤ
unfolding strtol
atoi s = elim (strtol s) [
  | none ↦ ok (pos 0)
  | some z ↦ if in_int z then ok z else throws undefined
]

-- Fuel bounds the count of digits; a number is enough fuel for itself.
decimal : ℕ → ℕ → Bytes → Bytes
decimal zero n acc = acc
decimal (suc fuel) n acc =
    let rest = decimal fuel (n / 10) ((n % 10 + b'0') ∷ acc) in
    if ltb n 10 then (n + b'0') ∷ acc else rest

-- `std::to_string`
unfoldable pub to_string : ℕ → Bytes
unfolding decimal
to_string n = decimal (suc n) n []

digits_value-decimal :
    (fuel n : ℕ) (acc : Bytes) → n < fuel → digits_value 0 (decimal fuel n acc) ≡ digits_value n acc
unfolding decimal digits_value
digits_value-decimal zero n acc h = elim h [ ]
digits_value-decimal (suc fuel) n acc h =
    ground (arith, digits_value-decimal fuel (n / 10) ((n % 10 + b'0') ∷ acc))

abbrev BeginsWithDigit : Bytes → Type 0
BeginsWithDigit [] = ⊥
BeginsWithDigit (c ∷ cs) = is_digit c ≡ true

decimal-BeginsWithDigit :
    (fuel n : ℕ) (acc : Bytes) → n < fuel → BeginsWithDigit (decimal fuel n acc)
unfolding decimal
decimal-BeginsWithDigit zero n acc h = elim h [ ]
decimal-BeginsWithDigit (suc fuel) n acc h = elim (Bool-cases (ltb n 10)) [
  | inl small ↦ rw small (ground arith)
  | inr big ↦ rw big (decimal-BeginsWithDigit fuel (n / 10) _ (ground arith))
]

strtol-BeginsWithDigit : (s : Bytes) → BeginsWithDigit s → strtol s ≡ some (pos (digits_value 0 s))
unfolding strtol
strtol-BeginsWithDigit [] h = absurd h
strtol-BeginsWithDigit (c ∷ cs) h = ground arith

pub strtol-to_string : (n : ℕ) → strtol (to_string n) ≡ some (pos n)
unfolding to_string
strtol-to_string n =
    strtol-BeginsWithDigit (decimal (suc n) n [])
      (decimal-BeginsWithDigit (suc n) n [] (omega arith))
    ∙ rw (digits_value-decimal (suc n) n [] (omega arith)) (unfold digits_value in refl)

pub stoi-to_string : (n : ℕ) → n < 2 ^ 31 → stoi (to_string n) ≡ ok (pos n)
unfolding stoi
stoi-to_string n h = rw (strtol-to_string n, stoi) (rw (lt→ltb n (2 ^ 31) h))
