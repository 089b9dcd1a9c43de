-- ===== src/Text/Cut.antt =====
-- `std::find` of a byte, which cuts a range in two.
use web_server_development.Prelude.{
  ℕ, ◌+◌, true, ◌&&◌, [], ◌∷◌, ◌++◌, leb, ◌==◌, if◌then◌else◌, ◌≡◌, arith,
}
use web_server_development.Text.{Bytes}
use web_server_development.Text.Search.{lacks}

-- The range in front of the first byte `d`
unfoldable pub until : ℕ → Bytes → Bytes
until d [] = []
until d (c ∷ cs) = if c == d then [] else c ∷ until d cs

-- The range from the first byte `d` on
unfoldable pub onward : ℕ → Bytes → Bytes
onward d [] = []
onward d (c ∷ cs) = if c == d then c ∷ cs else onward d cs

-- `++i`, unless the range is empty
abbrev pub behind_first : Bytes → Bytes
behind_first [] = []
behind_first (c ∷ cs) = cs

-- `tolower`, in the C locale
abbrev pub to_lower : ℕ → ℕ
to_lower c = if leb b'A' c && leb c b'Z' then c + 32 else c

unfoldable pub lower : Bytes → Bytes
lower [] = []
lower (c ∷ cs) = to_lower c ∷ lower cs

pub until-append : (d : ℕ) (s t : Bytes) → lacks d s ≡ true → until d (s ++ d ∷ t) ≡ s
unfolding until
until-append d [] t h = ground arith
until-append d (c ∷ s) t h = ground (arith, until-append d s t)

pub onward-append : (d : ℕ) (s t : Bytes) → lacks d s ≡ true → onward d (s ++ d ∷ t) ≡ d ∷ t
unfolding onward
onward-append d [] t h = ground arith
onward-append d (c ∷ s) t h = ground (arith, onward-append d s t)
