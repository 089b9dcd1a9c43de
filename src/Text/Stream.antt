-- ===== src/Text/Stream.antt =====
-- `std::istream` over a buffer: what is left of it, and whether the stream is at its end (`eofbit`)
-- or has failed (`failbit`).
use web_server_development.Prelude.{
  ℕ, ◌-◌, ◌^◌, Bool, true, false, not, ◌||◌, List, [], ◌∷◌, Option, none, some, ltb, ◌==◌,
  if◌then◌else◌,
}
use web_server_development.Text.{Bytes, push_back, is_empty}
use web_server_development.Text.Numbers.{is_space, is_digit, digits_value}

pub record Stream : Type 0 where
  pub left : Bytes
  pub eof : Bool
  pub failed : Bool

abbrev pub stream_of : Bytes → Stream
stream_of s = record { left = s; eof = false; failed = false }

-- `stream.good()`
abbrev pub is_good : Stream → Bool
is_good s = not (s.eof || s.failed)

unfoldable pub skip_spaces : Bytes → Bytes
skip_spaces [] = []
skip_spaces (c ∷ cs) = if is_space c then skip_spaces cs else c ∷ cs

-- The bytes at the front that pass the test, and those behind them
unfoldable pub span : (ℕ → Bool) → Bytes → Bytes × Bytes
span p [] = ([], [])
span p (c ∷ cs) = let (front, back) = span p cs in if p c then (c ∷ front, back) else ([], c ∷ cs)

-- A stream that has failed at the end of its buffer
abbrev exhausted : Stream
exhausted = record { left = []; eof = true; failed = true }

-- What an extraction leaves: it ends at the end of the buffer, or in front of a byte
abbrev leaves : Bytes → Stream
leaves rest = record { left = rest; eof = is_empty rest; failed = false }

-- `stream >> word`
unfoldable pub read_word : Stream → Bytes × Stream
unfolding skip_spaces span
read_word s =
    let (word, rest) = span (λ c. not (is_space c)) (skip_spaces s.left) in
    if is_good s
    then if is_empty word then ([], exhausted) else (word, leaves rest)
    else ([], record s { failed = true })

-- The number that the digits make: the greatest one and failure, if it is out of range
abbrev number_of : Bytes → Bytes → ℕ × Stream
number_of digits rest =
    let n = digits_value 0 digits in
    if ltb n (2 ^ 32)
    then (n, leaves rest)
    else (2 ^ 32 - 1, record (leaves rest) { failed = true })

abbrev negated : ℕ × Stream → ℕ × Stream
negated (n, s) = (if n == 0 || s.failed then n else 2 ^ 32 - n, s)

-- Digits at the front, with a failure if there are none
unfoldable pub read_digits : Bytes → ℕ × Stream
unfolding span digits_value
read_digits s =
    let (digits, rest) = span is_digit s in
    if is_empty digits then (0, record (leaves rest) { failed = true }) else number_of digits rest

-- A sign, and the digits behind it
unfoldable pub read_signed : Bytes → ℕ × Stream
unfolding read_digits
read_signed [] = (0, exhausted)
read_signed (c ∷ cs) =
    if c == b'-'
    then negated (read_digits cs)
    else if c == b'+'
    then read_digits cs
    else read_digits (c ∷ cs)

-- `stream >> n`, for an `unsigned int` of 32 bits
unfoldable pub read_unsigned : Stream → ℕ × Stream
unfolding skip_spaces read_signed
read_unsigned s =
    if is_good s then read_signed (skip_spaces s.left) else (0, record s { failed = true })

-- The bytes up to the first line feed; the flag says whether there is one, and it is taken too
unfoldable pub cut_line : Bytes → Bytes × Bytes × Bool
cut_line [] = ([], [], false)
cut_line (c ∷ cs) =
    let (line, rest, ended) = cut_line cs in
    if c == b'\n' then ([], cs, true) else (c ∷ line, rest, ended)

-- `std::getline(stream, line)`; `none` if the stream is false behind it
unfoldable pub get_line : Stream → Option Bytes × Stream
unfolding cut_line
get_line s =
    let (line, rest, ended) = cut_line s.left in
    if is_good s
    then if ended
      then (some line, record s { left = rest })
      else if is_empty line
      then (none, exhausted)
      else (some line, record { left = []; eof = true; failed = false })
    else (none, record s { failed = true })

-- `while (std::getline(stream, line))` goes over these lines.
unfoldable pub lines_from : Bytes → Bytes → List Bytes
lines_from line [] = if is_empty line then [] else line ∷ []
lines_from line (c ∷ cs) = elim (c == b'\n') [
  | true ↦ line ∷ lines_from [] cs
  | false ↦ lines_from (push_back line c) cs
]

-- `line == "\r"`
abbrev pub is_return : Bytes → Bool
is_return (c ∷ []) = c == b'\r'
is_return _ = false

-- `while (std::getline(stream, line) && line != "\r")` goes over these lines,
unfoldable pub block_from : Bytes → Bytes → List Bytes
block_from line [] = if is_empty line || is_return line then [] else line ∷ []
block_from line (c ∷ cs) = elim (c == b'\n') [
  | true ↦ elim (is_return line) [ true ↦ [] | false ↦ line ∷ block_from [] cs ]
  | false ↦ block_from (push_back line c) cs
]

-- and leaves this in the buffer.
unfoldable pub block_rest : Bytes → Bytes → Bytes
block_rest line [] = []
block_rest line (c ∷ cs) = elim (c == b'\n') [
  | true ↦ elim (is_return line) [ true ↦ cs | false ↦ block_rest [] cs ]
  | false ↦ block_rest (push_back line c) cs
]
