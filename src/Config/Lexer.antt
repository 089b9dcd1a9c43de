-- ===== src/Config/Lexer.antt =====
-- src/config_parser.cc: `ParseToken`. The input stream is the bytes not yet read; `unget` puts
-- the byte read last back.
use web_server_development.Prelude.{ℕ, Bool, ◌||◌, [], ◌∷◌, ◌==◌, if◌then◌else◌}
use web_server_development.Text.{Bytes, push_back}

pub data TokenType : Type 0 where
  start normal start_block end_block comment statement_end eof error : TokenType

pub data TokenParserState : Type 0 where
  initial_whitespace single_quote double_quote token_type_comment token_type_normal :
      TokenParserState

-- What the body of the loop does with one byte: return a token, return one after `unget`, or go
-- on in a state, in each case with the value so far.
pub data LexStep : Type 0 where
  returns : TokenType → Bytes → LexStep
  ungets : TokenType → Bytes → LexStep
  continues : TokenParserState → Bytes → LexStep

abbrev pub is_blank : ℕ → Bool
is_blank c = c == b' ' || c == b'\t' || c == b'\n' || c == b'\r'

-- The bytes that end a token of TOKEN_STATE_TOKEN_TYPE_NORMAL
abbrev pub is_delimiter : ℕ → Bool
is_delimiter c =
    c == b' ' || c == b'\t' || c == b'\n' || c == b'\t' || c == b';' || c == b'{' || c == b'}'

lex_initial : Bytes → ℕ → LexStep
lex_initial value c =
    if c == b'{'
    then returns start_block (c ∷ [])
    else if c == b'}'
    then returns end_block (c ∷ [])
    else if c == b'#'
    then continues token_type_comment (c ∷ [])
    else if c == b'"'
    then continues double_quote (c ∷ [])
    else if c == b'\''
    then continues single_quote (c ∷ [])
    else if c == b';'
    then returns statement_end (c ∷ [])
    else if is_blank c
    then continues initial_whitespace value
    else continues token_type_normal (push_back value c)

-- `switch (state)`
unfoldable pub lex_step : TokenParserState → Bytes → ℕ → LexStep
unfolding lex_initial
lex_step initial_whitespace value c = lex_initial value c
lex_step single_quote value c =
    if c == b'\''
    then returns normal (push_back value c)
    else continues single_quote (push_back value c)
lex_step double_quote value c =
    if c == b'"'
    then returns normal (push_back value c)
    else continues double_quote (push_back value c)
lex_step token_type_comment value c =
    if c == b'\n' || c == b'\r'
    then returns comment value
    else continues token_type_comment (push_back value c)
lex_step token_type_normal value c =
    if is_delimiter c then ungets normal value else continues token_type_normal (push_back value c)

-- What `ParseToken` returns at the end of the file
unfoldable pub lex_end : TokenParserState → TokenType
lex_end single_quote = error
lex_end double_quote = error
lex_end _ = eof

-- The token, its value, and the input behind it
pub record Token : Type 0 where
  pub type : TokenType
  pub value : Bytes
  pub rest : Bytes

unfoldable pub lex : TokenParserState → Bytes → Bytes → Token
unfolding lex_step lex_end
lex st value [] = record { type = lex_end st; value = value; rest = [] }
lex st value (c ∷ cs) = elim (lex_step st value c) [
  | returns t v ↦ record { type = t; value = v; rest = cs }
  | ungets t v ↦ record { type = t; value = v; rest = c ∷ cs }
  | continues st' v ↦ lex st' v cs
]

-- `std::string token; ParseToken(config_file, &token)`
unfoldable pub parse_token : Bytes → Token
unfolding lex
parse_token input = lex initial_whitespace [] input
