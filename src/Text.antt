-- ===== src/Text.antt =====
-- `std::string`, as the server's sources use it: a text is the list of its bytes, each below 256.
-- The order of texts is that of `std::less<std::string>`, which compares bytes as unsigned.
pub mod Laws
pub mod Numbers
pub mod Search
pub mod Cut
pub mod Stream
use Prim.Native.Nat.{compare, Ordering}
use Prim.Native.Char.{code}
use Prim.Native.String.{String}
use web_server_development.Prelude.{
  ℕ, ◌+◌, ◌-◌, ◌^◌, Bool, true, false, ◌&&◌, List, [], ◌∷◌, ◌++◌, Result, ok, throws, out_of_range,
  undefined, ltb, ◌==◌, if◌then◌else◌, length, take, drop, ◌>>=◌,
}

abbrev pub Bytes : Type 0
Bytes = List ℕ

-- The bytes of an ASCII literal.
abbrev pub codes : String → Bytes
codes String.[] = []
codes (String.◌∷◌ c s) = code c ∷ codes s

-- `a == b`
unfoldable pub equal : Bytes → Bytes → Bool
equal [] [] = true
equal [] (d ∷ t) = false
equal (c ∷ s) [] = false
equal (c ∷ s) (d ∷ t) = c == d && equal s t

-- `s.empty()`
abbrev pub is_empty : Bytes → Bool
is_empty [] = true
is_empty (x ∷ xs) = false

-- `a < b`
unfoldable pub less : Bytes → Bytes → Bool
less [] [] = false
less [] (y ∷ ys) = true
less (x ∷ xs) [] = false
less (x ∷ xs) (y ∷ ys) = elim (compare x y) [
  | Ordering.lt ↦ true
  | Ordering.eq ↦ less xs ys
  | Ordering.gt ↦ false
]

-- `a - b` on `size_t`, for operands below 2^64.
abbrev pub sub_size : ℕ → ℕ → ℕ
sub_size a b = if ltb a b then a + 2 ^ 64 - b else a - b

-- `s.substr(pos, n)`
unfoldable pub substr : Bytes → ℕ → ℕ → Result Bytes
substr s pos n = if ltb (length s) pos then throws out_of_range else ok (take n (drop pos s))

-- `s.substr(pos)`
unfoldable pub substr_from : Bytes → ℕ → Result Bytes
substr_from s pos = if ltb (length s) pos then throws out_of_range else ok (drop pos s)

-- `s.compare(pos, n, t) == 0`
unfoldable pub compare_at : Bytes → ℕ → ℕ → Bytes → Result Bool
unfolding substr
compare_at s pos n t = do part ← substr s pos n; ok (equal part t)

-- `s.push_back(c)`
abbrev pub push_back : Bytes → ℕ → Bytes
push_back s c = s ++ c ∷ []

-- `s.pop_back()`, which is undefined on an empty string
unfoldable pub pop_back : Bytes → Result Bytes
pop_back [] = throws undefined
pop_back (c ∷ []) = ok []
pop_back (c ∷ d ∷ s) = do r ← pop_back (d ∷ s); ok (c ∷ r)
