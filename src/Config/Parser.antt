-- ===== src/Config/Parser.antt =====
-- src/config_parser.cc: `NginxConfigParser::Parse`.
use web_server_development.Prelude.{
  ℕ, zero, suc, Bool, true, false, not, List, [], none, some, ◌∷◌, ◌++◌, Result, ok, throws,
  undefined, ◌>>=◌, if◌then◌else◌, length,
}
use web_server_development.Prelude.Int.{ℤ, pos, negsuc, is_zero}
use web_server_development.Text.{Bytes}
use web_server_development.World.{World}
use web_server_development.Config.{NginxConfig, nil, cons, Statement, simple, block}
use web_server_development.Config.Lexer.{
  TokenType, start, normal, start_block, end_block, comment, statement_end, eof, error, parse_token,
}

-- `statements_.emplace_back(new NginxConfigStatement)`
unfoldable pub emplace_back : NginxConfig → Statement → NginxConfig
emplace_back nil s = cons s nil
emplace_back (cons t c) s = cons t (emplace_back c s)

-- `statements_.back()->tokens_.push_back(token)`
unfoldable pub push_token : Bytes → NginxConfig → Result NginxConfig
push_token token nil = throws undefined
push_token token (cons (simple ts) nil) = ok (cons (simple (ts ++ token ∷ [])) nil)
push_token token (cons (block ts b) nil) = ok (cons (block (ts ++ token ∷ []) b) nil)
push_token token (cons s (cons t c)) = do c' ← push_token token (cons t c); ok (cons s c')

-- The statements in front of `statements_.back()`, and the tokens of that one
unfoldable pub split_back : NginxConfig → Result (NginxConfig × List Bytes)
split_back nil = throws undefined
split_back (cons (simple ts) nil) = ok (nil, ts)
split_back (cons (block ts b) nil) = ok (nil, ts)
split_back (cons s (cons t c)) = do (front, ts) ← split_back (cons t c); ok (cons s front, ts)

-- `config_stack`. The configuration at the top is under construction; each one below it is held
-- as the statements in front of the one whose block is open, and that statement's tokens.
-- `popped` is the empty stack, with the finished configuration that the caller owns.
pub data Stack : Type 0 where
  popped : NginxConfig → Stack
  top : NginxConfig → List (NginxConfig × List Bytes) → Stack

-- The configuration at the top, for the accesses through `config_stack.top()`
unfoldable pub on_normal : Bool → Bytes → Stack → Result Stack
unfolding emplace_back push_token
on_normal fresh token (popped c) = throws undefined
on_normal fresh token (top c below) = do
  c' ← push_token token (if fresh then emplace_back c (simple []) else c)
  ok (top c' below)

-- `child_block_.reset(new_config); config_stack.push(new_config);`
unfoldable pub on_start_block : Stack → Result Stack
unfolding split_back
on_start_block (popped c) = throws undefined
on_start_block (top c below) = do split ← split_back c; ok (top nil (split ∷ below))

-- `config_stack.pop()`
unfoldable pub on_end_block : Stack → Result Stack
unfolding emplace_back
on_end_block (popped c) = throws undefined
on_end_block (top c []) = ok (popped c)
on_end_block (top c ((front, ts) ∷ below)) = ok (top (emplace_back front (block ts c)) below)

-- The configuration that `Parse` was given, once its blocks are closed
abbrev pub root : Stack → NginxConfig
root (popped c) = c
root (top c below) = c

-- The types that may stand in front of a token
unfoldable pub before_normal : TokenType → Bool
before_normal start = true
before_normal statement_end = true
before_normal start_block = true
before_normal end_block = true
before_normal normal = true
before_normal _ = false

abbrev pub is_normal : TokenType → Bool
is_normal normal = true
is_normal _ = false

unfoldable pub before_end_block : TokenType → Bool
before_end_block statement_end = true
before_end_block start_block = true
before_end_block end_block = true
before_end_block _ = false

unfoldable pub before_eof : TokenType → Bool
before_eof statement_end = true
before_eof end_block = true
before_eof start = true
before_eof _ = false

-- The variables of the loop
pub record Loop : Type 0 where
  pub stack : Stack
  pub last_token_type : TokenType
  pub bracket_count : ℤ

-- What one round of the loop comes to: the next round, `return true` with the configuration,
-- `break`, or undefined behaviour.
pub data Round : Type 0 where
  again : Loop → Round
  accept : NginxConfig → Round
  reject : Round
  crash : Round

abbrev pub with_stack : Result Stack → (Stack → Round) → Round
with_stack (ok s) k = k s
with_stack (throws e) k = crash

-- `BracketCount++`; that an `int` ends at 2^31 is left out
abbrev pub increment : ℤ → ℤ
increment (pos n) = pos (suc n)
increment (negsuc zero) = pos 0
increment (negsuc (suc n)) = negsuc n

abbrev pub decrement : ℤ → ℤ
decrement (pos zero) = negsuc 0
decrement (pos (suc n)) = pos n
decrement (negsuc n) = negsuc (suc n)

-- The body of `while (true)`, for a token
unfoldable pub round : TokenType → Bytes → Loop → Round
unfolding on_normal on_start_block on_end_block before_normal before_end_block before_eof
round error token l = reject
round comment token l = again l
round start token l = reject
round normal token l =
    if before_normal l.last_token_type
    then with_stack (on_normal (not (is_normal l.last_token_type)) token l.stack)
        (λ s. again (record l { stack = s; last_token_type = normal }))
    else reject
round statement_end token l =
    if is_normal l.last_token_type
    then again (record l { last_token_type = statement_end })
    else reject
round start_block token l =
    if is_normal l.last_token_type
    then with_stack (on_start_block l.stack) (λ s. again (record {
      stack = s;
      last_token_type = start_block;
      bracket_count = increment l.bracket_count;
    }))
    else reject
round end_block token l =
    if before_end_block l.last_token_type
    then with_stack (on_end_block l.stack) (λ s. again (record {
      stack = s;
      last_token_type = end_block;
      bracket_count = decrement l.bracket_count;
    }))
    else reject
round eof token l =
    if before_eof l.last_token_type
    then if is_zero l.bracket_count then accept (root l.stack) else reject
    else reject

-- What `Parse` comes to: `true` with the configuration, `false`, or undefined behaviour.
-- `unfinished` says that the fuel of the model ran out.
pub data Outcome : Type 0 where
  accepted : NginxConfig → Outcome
  rejected crashed unfinished : Outcome

unfoldable pub rounds : ℕ → Loop → Bytes → Outcome
unfolding round parse_token
rounds zero l input = unfinished
rounds (suc fuel) l input =
    let t = parse_token input in
    elim (round t.type t.value l) [
      | again l' ↦ rounds fuel l' t.rest
      | accept c ↦ accepted c
      | reject ↦ rejected
      | crash ↦ crashed
    ]

abbrev pub first_loop : Loop
first_loop = record { stack = top nil []; last_token_type = start; bracket_count = pos 0 }

-- Each round but the last reads a byte, so one more than the bytes are rounds enough.
unfoldable pub parse : Bytes → Outcome
unfolding rounds
parse input = rounds (suc (length input)) first_loop input

-- `Parse`, of the file with a name
unfoldable pub parse_file : World → Bytes → Outcome
unfolding parse
parse_file w file_name = elim (w.file file_name) [ none ↦ rejected | some text ↦ parse text ]
