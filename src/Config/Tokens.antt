-- ===== src/Config/Tokens.antt =====
-- The parser on the printed tokens of a statement.
use web_server_development.Prelude.{
  ℕ, true, false, List, [], ◌∷◌, ◌++◌, ◌≡◌, refl, ◌∙◌, sym, ap, subst, arith, append_assoc,
  append-nil, length, length-append, All,
}
use web_server_development.Prelude.Int.{pos}
use web_server_development.Text.{Bytes}
use web_server_development.Config.{NginxConfig, simple, indent, token_text}
use web_server_development.Config.Lexer.{TokenType, normal, parse_token}
use web_server_development.Config.Parser.{emplace_back, before_normal, is_normal, Outcome}
use web_server_development.Config.Words.{
  IsWord, parse_token_word, length-word, BeginsWithDelimiter, parse_token-blank, parse_token-indent,
}
use web_server_development.Config.Rounds.{
  Ends, Ends-same, Ends-round, Building, building, round-first, round-next,
}

-- The words behind the first, each behind a space
more_text : List Bytes → Bytes
more_text [] = []
more_text (t ∷ ts) = b' ' ∷ t ++ more_text ts

token_text-more : (t : Bytes) (ts : List Bytes) → token_text (t ∷ ts) ≡ t ++ more_text ts
unfolding token_text more_text
token_text-more t [] = sym (append-nil t)
token_text-more t (u ∷ ts) = rw (token_text-more u ts) refl

more_text-BeginsWithDelimiter :
    (ts : List Bytes) (input : Bytes)
    → BeginsWithDelimiter input
    → BeginsWithDelimiter (more_text ts ++ input)
unfolding more_text
more_text-BeginsWithDelimiter [] input h = h
more_text-BeginsWithDelimiter (t ∷ ts) input h = refl

-- The type of the last token is one that a statement may follow.
abbrev pub IsReady : TokenType → Type 0
IsReady last = (before_normal last ≡ true) × (is_normal last ≡ false)

module _ (c : NginxConfig) (below : Building) (n : ℕ) where
  Ends-next :
      (front ts : List Bytes) (input : Bytes) (o : Outcome)
      → All IsWord ts
      → BeginsWithDelimiter input
      → Ends (building (emplace_back c (simple (front ++ ts))) below normal (pos n)) input o
      → Ends
          (building (emplace_back c (simple front)) below normal (pos n))
          (more_text ts ++ input)
          o
  unfolding more_text
  Ends-next front [] input o w d h =
      subst
        (λ (ts : List Bytes).
          Ends (building (emplace_back c (simple ts)) below normal (pos n)) input o)
        (append-nil front) h
  Ends-next front (t ∷ ts) input o (w, ws) d h =
      Ends-same _ (b' ' ∷ (t ++ more_text ts) ++ input) (t ++ (more_text ts ++ input)) o
        (parse_token-blank b' ' _ refl ∙ ap parse_token (append_assoc t (more_text ts) input))
        (omega (
          arith,
          length-append (t ++ more_text ts) input,
          length-append t (more_text ts),
          length-append t (more_text ts ++ input),
          length-append (more_text ts) input,
        ))
        (Ends-round _ _ _ (more_text ts ++ input) t normal o
          (parse_token_word t _ w (more_text-BeginsWithDelimiter ts input d))
          (round-next c below (pos n) t front)
          (omega (arith, length-append t (more_text ts ++ input), length-word t w))
          (Ends-next (front ++ t ∷ []) ts input o ws d (
            subst
              (λ (us : List Bytes).
                Ends (building (emplace_back c (simple us)) below normal (pos n)) input o)
              (sym (append_assoc front (t ∷ []) ts)) h)))

  pub Ends-tokens :
      (last : TokenType) (depth : ℕ) (t : Bytes) (ts : List Bytes) (input : Bytes) (o : Outcome)
      → IsReady last
      → IsWord t
      → All IsWord ts
      → BeginsWithDelimiter input
      → Ends (building (emplace_back c (simple (t ∷ ts))) below normal (pos n)) input o
      → Ends (building c below last (pos n)) (indent depth ++ (token_text (t ∷ ts) ++ input)) o
  Ends-tokens last depth t ts input o (r, q) w ws d h =
      Ends-same _ _ (t ++ (more_text ts ++ input)) o
        (parse_token-indent depth _
          ∙ ap parse_token (
              ap (λ (u : Bytes). u ++ input) (token_text-more t ts)
              ∙ append_assoc t (more_text ts) input))
        (omega (
          arith,
          length-append (indent depth) (token_text (t ∷ ts) ++ input),
          length-append (token_text (t ∷ ts)) input,
          length-append t (more_text ts),
          length-append t (more_text ts ++ input),
          length-append (more_text ts) input,
          ap length (token_text-more t ts),
        ))
        (Ends-round _ _ _ (more_text ts ++ input) t normal o
          (parse_token_word t _ w (more_text-BeginsWithDelimiter ts input d))
          (round-first c below (pos n) t last r q)
          (omega (arith, length-append t (more_text ts ++ input), length-word t w))
          (Ends-next (t ∷ []) ts input o ws d h))
