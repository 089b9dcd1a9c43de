-- ===== src/Config.antt =====
-- include/config_parser.h, src/config_parser.cc: the parsed configuration and what is read of it.
-- A statement has a child block or none; `NginxConfig` is the list of its statements.
pub mod Lexer
pub mod Parser
pub mod Words
pub mod Rounds
pub mod Tokens
pub mod Printable
pub mod RoundTrip
pub mod Fuel
mod Tests
pub mod Port
pub mod Locations
pub mod Accepted
pub mod Sound
use web_server_development.Prelude.{
  ℕ, zero, suc, ◌+◌, ◌^◌, Bool, true, false, ◌&&◌, List, [], ◌∷◌, ◌++◌, Option, none, some, Result,
  ok, throws, undefined, ◌>>=◌, leb, ltb, ◌==◌, if◌then◌else◌, length,
}
use web_server_development.Prelude.Int.{ℤ, pos, negsuc}
use web_server_development.Text.{Bytes, codes, equal, substr, sub_size}
use web_server_development.Text.Numbers.{atoi}

mutual
  pub data Statement : Type 0 where
    simple : List Bytes → Statement
    block : List Bytes → NginxConfig → Statement

  pub data NginxConfig : Type 0 where
    nil : NginxConfig
    cons : Statement → NginxConfig → NginxConfig

-- `statement->tokens_`
abbrev pub tokens : Statement → List Bytes
tokens (simple ts) = ts
tokens (block ts _) = ts

-- `statement->child_block_.get()`
abbrev pub child_block : Statement → Option NginxConfig
child_block (simple ts) = none
child_block (block ts c) = some c

-- What a statement with no child block says of the port: `none` if it is not a valid one.
pub port_of : List Bytes → Result (Option ℕ)
port_of (k ∷ v ∷ []) =
    if equal k (codes "port")
    then (do
      z ← atoi v
      elim z [ pos n ↦ ok (if leb n 0xffff then some n else none) | negsuc n ↦ ok none ])
    else ok none
port_of _ = ok none

-- `parse_port`, with `none` for its -1
unfoldable mutual
  unfolding port_of

  pub parse_port : NginxConfig → Result (Option ℕ)
  parse_port nil = ok none
  parse_port (cons s rest) = do
    found ← statement_port s
    let later = parse_port rest
    elim found [ some n ↦ ok (some n) | none ↦ later ]

  pub statement_port : Statement → Result (Option ℕ)
  statement_port (simple ts) = port_of ts
  statement_port (block ts c) = parse_port c

-- `tokens_[1]`, behind the test that there is a first token
abbrev second : List Bytes → Result Bytes
second (k ∷ v ∷ ts) = ok v
second _ = throws undefined

-- `tokens_.size() > 0 && tokens_[0] == key`
abbrev begins_with : Bytes → List Bytes → Bool
begins_with key [] = false
begins_with key (t ∷ ts) = equal t key

unfoldable pub get_value_from_statement : Bytes → NginxConfig → Result Bytes
get_value_from_statement key nil = ok []
get_value_from_statement key (cons s rest) =
    if begins_with key (tokens s) then second (tokens s) else get_value_from_statement key rest

-- `struct location_parse_result`; `none` is the null pointer.
pub record Location : Type 0 where
  pub uri : Bytes
  pub handler_name : Bytes
  pub block_config : Option NginxConfig

-- What one statement adds to the result
pub location_of : Statement → List Bytes → Result (List Location)
unfolding substr
location_of s (t ∷ u ∷ h ∷ []) =
    if equal t (codes "location")
    then (do
      source ← substr u 1 (sub_size (length u) 2)
      ok (record { uri = source; handler_name = h; block_config = child_block s } ∷ []))
    else ok []
location_of s _ = ok []

unfoldable pub get_location_result : NginxConfig → Result (List Location)
unfolding location_of
get_location_result nil = ok []
get_location_result (cons s rest) = do
  here ← location_of s (tokens s)
  later ← get_location_result rest
  ok (here ++ later)

-- `for (i < depth) append("  ")`
unfoldable pub indent : ℕ → Bytes
indent zero = []
indent (suc n) = b' ' ∷ b' ' ∷ indent n

-- The tokens with a space between
unfoldable pub token_text : List Bytes → Bytes
token_text [] = []
token_text (t ∷ []) = t
token_text (t ∷ u ∷ ts) = t ++ (b' ' ∷ token_text (u ∷ ts))

-- `NginxConfig::ToString` and `NginxConfigStatement::ToString`
unfoldable mutual
  unfolding indent token_text

  pub to_string : ℕ → NginxConfig → Bytes
  to_string depth nil = []
  to_string depth (cons s rest) = statement_to_string depth s ++ to_string depth rest

  pub statement_to_string : ℕ → Statement → Bytes
  statement_to_string depth (simple ts) = indent depth ++ (token_text ts ++ codes ";\n")
  statement_to_string depth (block ts c) =
      indent depth
      ++ (token_text ts
          ++ (codes " {\n" ++ (to_string (suc depth) c ++ (indent depth ++ codes "}\n"))))
