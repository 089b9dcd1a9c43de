-- ===== src/Config/Rounds.antt =====
-- Single rounds of the parser, on the tokens of printed text.
use web_server_development.Prelude.{
  ℕ, zero, suc, ◌<◌, ◌≤◌, true, false, List, [], ◌∷◌, ◌++◌, ◌≡◌, refl, ◌∙◌, sym, ap, arith, length,
  ok,
}
use web_server_development.Prelude.Int.{ℤ}
use web_server_development.Text.{Bytes}
use web_server_development.Config.{NginxConfig, nil, cons, simple, block}
use web_server_development.Config.Lexer.{
  TokenType, normal, start_block, end_block, Token, parse_token,
}
use web_server_development.Config.Parser.{
  emplace_back, push_token, split_back, top, on_normal, on_start_block, on_end_block, before_normal,
  before_end_block, is_normal, Loop, Round, again, accept, reject, crash, round, Outcome, accepted,
  rejected, crashed, rounds, increment, decrement,
}

-- The parser comes to `o` from `l`, on any fuel that is more than the bytes left.
abbrev pub Ends : Loop → Bytes → Outcome → Type 0
Ends l input o = (fuel : ℕ) → length input < fuel → rounds fuel l input ≡ o

-- What follows a round
abbrev pub follow : ℕ → Bytes → Round → Outcome
follow fuel rest (again l') = rounds fuel l' rest
follow fuel rest (accept c) = accepted c
follow fuel rest reject = rejected
follow fuel rest crash = crashed

-- A round, for the token that it reads
abbrev pub after : ℕ → Loop → Token → Outcome
after fuel l t = follow fuel t.rest (round t.type t.value l)

pub rounds-after :
    (fuel : ℕ) (l : Loop) (input : Bytes)
    → rounds (suc fuel) l input ≡ after fuel l (parse_token input)
unfolding rounds
rounds-after fuel l input = refl

-- The input may be replaced by a shorter one with the same first token.
pub Ends-same :
    (l : Loop) (input input' : Bytes) (o : Outcome)
    → parse_token input ≡ parse_token input'
    → length input' ≤ length input
    → Ends l input' o
    → Ends l input o
Ends-same l input input' o e le h zero lt = absurd (omega arith)
Ends-same l input input' o e le h (suc fuel) lt =
    rounds-after fuel l input
    ∙ ap (after fuel l) e
    ∙ sym (rounds-after fuel l input')
    ∙ h (suc fuel) (omega arith)

pub Ends-round :
    (l l' : Loop) (input rest value : Bytes) (type : TokenType) (o : Outcome)
    → parse_token input ≡ record { type = type; value = value; rest = rest }
    → round type value l ≡ again l'
    → length rest < length input
    → Ends l' rest o
    → Ends l input o
Ends-round l l' input rest value type o e r lt h zero le = absurd (omega arith)
Ends-round l l' input rest value type o e r lt h (suc fuel) le =
    rounds-after fuel l input ∙ ap (after fuel l) e ∙ rw (r, after) (h fuel (omega arith))

pub push_token-emplace_back :
    (token : Bytes) (c : NginxConfig) (ts : List Bytes)
    → push_token token (emplace_back c (simple ts))
      ≡ ok (emplace_back c (simple (ts ++ token ∷ [])))
unfolding push_token emplace_back
push_token-emplace_back token nil ts = refl
push_token-emplace_back token (cons (simple us) nil) ts = refl
push_token-emplace_back token (cons (block us b) nil) ts = refl
push_token-emplace_back token (cons (simple us) (cons t c)) ts =
    rw (push_token-emplace_back token (cons t c) ts) refl
push_token-emplace_back token (cons (block us b) (cons t c)) ts =
    rw (push_token-emplace_back token (cons t c) ts) refl

split_back-emplace_back :
    (c : NginxConfig) (ts : List Bytes) → split_back (emplace_back c (simple ts)) ≡ ok (c, ts)
unfolding split_back emplace_back
split_back-emplace_back nil ts = refl
split_back-emplace_back (cons (simple us) nil) ts = refl
split_back-emplace_back (cons (block us b) nil) ts = refl
split_back-emplace_back (cons (simple us) (cons t c)) ts =
    rw (split_back-emplace_back (cons t c) ts) refl
split_back-emplace_back (cons (block us b) (cons t c)) ts =
    rw (split_back-emplace_back (cons t c) ts) refl

-- The loop with a configuration at the top
abbrev pub Building : Type 0
Building = List (NginxConfig × List Bytes)

abbrev pub building : NginxConfig → Building → TokenType → ℤ → Loop
building c below last b = record { stack = top c below; last_token_type = last; bracket_count = b }

module _ (c : NginxConfig) (below : Building) (b : ℤ) where
  pub round-first :
      (token : Bytes) (last : TokenType)
      → before_normal last ≡ true
      → is_normal last ≡ false
      → round normal token (building c below last b)
        ≡ again (building (emplace_back c (simple (token ∷ []))) below normal b)
  unfolding round on_normal
  round-first token last e n = rw (e, n) (rw (push_token-emplace_back token c []) refl)

  pub round-next :
      (token : Bytes) (ts : List Bytes)
      → round normal token (building (emplace_back c (simple ts)) below normal b)
        ≡ again (building (emplace_back c (simple (ts ++ token ∷ []))) below normal b)
  unfolding round on_normal before_normal
  round-next token ts = rw (push_token-emplace_back token c ts) refl

  pub round-open :
      (token : Bytes) (ts : List Bytes)
      → round start_block token (building (emplace_back c (simple ts)) below normal b)
        ≡ again (building nil ((c, ts) ∷ below) start_block (increment b))
  unfolding round on_start_block
  round-open token ts = rw (split_back-emplace_back c ts) refl

  pub round-close :
      (token : Bytes) (last : TokenType) (front : NginxConfig) (ts : List Bytes)
      → before_end_block last ≡ true
      → round end_block token (building c ((front, ts) ∷ below) last b)
        ≡ again (building (emplace_back front (block ts c)) below end_block (decrement b))
  unfolding round on_end_block
  round-close token last front ts e = rw e refl
