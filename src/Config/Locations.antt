-- ===== src/Config/Locations.antt =====
-- src/config_parser.cc: `get_location_result`, on what the parser accepts.
use web_server_development.Prelude.{
  ℕ, ◌<◌, List, [], ◌∷◌, ◌++◌, ◌≡◌, refl, inl, inr, Bool-cases, ok, arith, length, take,
}
use web_server_development.Text.{Bytes, codes, equal, substr, sub_size}
use web_server_development.Config.{
  NginxConfig, nil, cons, Statement, simple, block, tokens, child_block, Location, location_of,
  get_location_result,
}
use web_server_development.Config.Parser.{parse, accepted}
use web_server_development.Config.Words.{length-word}
use web_server_development.Config.Printable.{IsPrintable, StatementIsPrintable, HasWords}
use web_server_development.Config.Accepted.{parse-IsPrintable}

substr_total : (u : Bytes) (n : ℕ) → 0 < length u → (v : Bytes) × (substr u 1 n ≡ ok v)
unfolding substr
substr_total [] n h = absurd (omega arith)
substr_total (c ∷ u) n h = (take n u, ground arith)

location_of_total :
    (s : Statement) (ts : List Bytes)
    → HasWords ts
    → (ls : List Location) × (location_of s ts ≡ ok ls)
unfolding location_of
location_of_total s [] w = absurd w
location_of_total s (t ∷ []) w = ([], refl)
location_of_total s (t ∷ u ∷ []) w = ([], refl)
location_of_total s (t ∷ u ∷ h ∷ x ∷ ts) w = ([], refl)
location_of_total s (t ∷ u ∷ h ∷ []) (a, (b, c)) = elim (Bool-cases (equal t (codes "location"))) [
  | inl is_location ↦
      let (v, e) = substr_total u (sub_size (length u) 2) (length-word u b) in
      (
        record { uri = v; handler_name = h; block_config = child_block s } ∷ [],
        rw (is_location, e) refl,
      )
  | inr other ↦ ([], rw other refl)
]

statement-HasWords : (s : Statement) → StatementIsPrintable s → HasWords (tokens s)
unfolding IsPrintable
statement-HasWords (simple ts) p = p
statement-HasWords (block ts c) (p, q) = p

get_location_result_total :
    (c : NginxConfig) → IsPrintable c → (ls : List Location) × (get_location_result c ≡ ok ls)
unfolding get_location_result IsPrintable
get_location_result_total nil p = ([], refl)
get_location_result_total (cons s c) (p, q) =
    let (here, e) = location_of_total s (tokens s) (statement-HasWords s p) in
    let (later, f) = get_location_result_total c q in (here ++ later, rw (e, f) refl)

-- The locations of a configuration that the parser accepts are read with no exception: the first
-- and the last byte of the uri, which the function takes for its quotes, are cut off a token that
-- is never empty.
pub parse-locations :
    (input : Bytes) {c : NginxConfig}
    → parse input ≡ accepted c
    → (ls : List Location) × (get_location_result c ≡ ok ls)
parse-locations input {c} e = get_location_result_total c (parse-IsPrintable input 0 e).0
