-- ===== src/Config/Fuel.antt =====
-- The parser's loop ends: every round that goes on has read a byte.
use web_server_development.Prelude.{
  ℕ, zero, suc, ◌<◌, ◌≤◌, [], ◌∷◌, ◌≢◌, ◌∙◌, sym, arith, Bool-cases, inl, inr, length,
}
use web_server_development.Prelude.Int.{is_zero}
use web_server_development.Text.{Bytes}
use web_server_development.Config.Lexer.{
  eof, Token, TokenParserState, initial_whitespace, lex, lex_step, lex_end, LexStep, returns,
  ungets, continues, parse_token,
}
use web_server_development.Config.Parser.{
  Loop, Round, again, accept, reject, crash, round, before_eof, unfinished, rounds, first_loop,
  parse,
}
use web_server_development.Config.Rounds.{after, follow, rounds-after}

-- What a step leaves unread
abbrev pub left : ℕ → Bytes → LexStep → Token
left c cs (returns t v) = record { type = t; value = v; rest = cs }
left c cs (ungets t v) = record { type = t; value = v; rest = c ∷ cs }
left c cs (continues st v) = lex st v cs

left-le :
    (c : ℕ) (cs : Bytes) (s : LexStep)
    → ((st : TokenParserState) (v : Bytes) → length (lex st v cs).rest ≤ length cs)
    → length (left c cs s).rest ≤ suc (length cs)
left-le c cs (returns t v) h = omega arith
left-le c cs (ungets t v) h = omega arith
left-le c cs (continues st v) h = omega (arith, h st v)

lex-rest-le :
    (input : Bytes) (st : TokenParserState) (value : Bytes)
    → length (lex st value input).rest ≤ length input
unfolding lex
lex-rest-le [] st value = omega arith
lex-rest-le (c ∷ cs) st value = left-le c cs (lex_step st value c) (lex-rest-le cs)

-- Behind white space, a step takes its byte.
initial-takes :
    (value : Bytes) (c : ℕ) (cs : Bytes)
    → length (left c cs (lex_step initial_whitespace value c)).rest ≤ length cs
unfolding lex_step
initial-takes value c cs = grind (arith, lex-rest-le)

parse_token-rest-lt : (c : ℕ) (cs : Bytes) → length (parse_token (c ∷ cs)).rest < suc (length cs)
unfolding parse_token lex
parse_token-rest-lt c cs = omega (arith, initial-takes [] c cs)

round-eof-ends :
    (value : Bytes) (l : Loop) (fuel : ℕ)
    → after fuel l (record { type = eof; value = value; rest = [] }) ≢ unfinished
unfolding round
round-eof-ends value l fuel e = elim (Bool-cases (before_eof l.last_token_type)) [
  | inl may ↦ elim (Bool-cases (is_zero l.bracket_count)) [
    | inl balanced ↦ cc (rw (may, balanced, round) at e)
    | inr unbalanced ↦ cc (rw (may, unbalanced, round) at e)
  ]
  | inr not_here ↦ cc (rw (not_here, round) at e)
]

follow-ends :
    (fuel : ℕ) (rest : Bytes) (r : Round)
    → ((l : Loop) → rounds fuel l rest ≢ unfinished)
    → follow fuel rest r ≢ unfinished
follow-ends fuel rest (again l) h e = h l e
follow-ends fuel rest (accept d) h e = cc
follow-ends fuel rest reject h e = cc
follow-ends fuel rest crash h e = cc

rounds-ends :
    (fuel : ℕ) (l : Loop) (input : Bytes) → length input < fuel → rounds fuel l input ≢ unfinished
unfolding parse_token lex lex_end
rounds-ends zero l input lt e = absurd (omega arith)
rounds-ends (suc fuel) l [] lt e = round-eof-ends [] l fuel (sym (rounds-after fuel l []) ∙ e)
rounds-ends (suc fuel) l (c ∷ cs) lt e =
    follow-ends fuel (parse_token (c ∷ cs)).rest
      (round (parse_token (c ∷ cs)).type (parse_token (c ∷ cs)).value l)
      (λ l'.
        rounds-ends fuel l' (parse_token (c ∷ cs)).rest (omega (arith, parse_token-rest-lt c cs)))
      (sym (rounds-after fuel l (c ∷ cs)) ∙ e)

-- The loop always ends, so the parser accepts, rejects or runs into undefined behaviour.
pub parse-ends : (input : Bytes) → parse input ≢ unfinished
unfolding parse
parse-ends input = rounds-ends (suc (length input)) first_loop input (omega arith)
