-- ===== src/Config/RoundTrip.antt =====
-- A configuration that is printed and parsed again.
use web_server_development.Prelude.{
  ℕ, zero, suc, true, List, [], ◌∷◌, ◌++◌, ◌≡◌, refl, ◌∙◌, sym, ap, subst, arith, append_assoc,
  append-nil, length, length-append,
}
use web_server_development.Prelude.Int.{pos}
use web_server_development.Text.{Bytes, codes}
use web_server_development.Config.{
  NginxConfig, nil, cons, simple, block, to_string, statement_to_string, indent, token_text,
}
use web_server_development.Config.Lexer.{
  TokenType, start, normal, start_block, end_block, statement_end, parse_token, lex, lex_step,
  lex_end,
}
use web_server_development.Config.Parser.{
  emplace_back, before_normal, before_end_block, before_eof, Loop, again, round, Outcome, accepted,
  rounds, first_loop, parse,
}
use web_server_development.Config.Words.{parse_token-blank, parse_token-indent}
use web_server_development.Config.Rounds.{
  Ends, Ends-same, Ends-round, Building, building, round-open, round-close,
}
use web_server_development.Config.Tokens.{IsReady, Ends-tokens}
use web_server_development.Config.Printable.{
  last_of, add, HasWords, IsPrintable, add-join, last_of-before_end_block, last_of-before_eof,
}

module _ (l l' : Loop) (rest : Bytes) (o : Outcome) where
  -- A byte that is a token by itself, and the end of its line
  Ends-byte :
      (d : ℕ) (type : TokenType)
      → parse_token (d ∷ b'\n' ∷ rest) ≡ record { type = type; value = d ∷ []; rest = b'\n' ∷ rest }
      → round type (d ∷ []) l ≡ again l'
      → Ends l' rest o
      → Ends l (d ∷ b'\n' ∷ rest) o
  Ends-byte d type e r h =
      Ends-round l l' _ (b'\n' ∷ rest) (d ∷ []) type o e r (omega arith)
        (Ends-same l' (b'\n' ∷ rest) rest o (parse_token-blank b'\n' rest refl) (omega arith) h)

module _ (c : NginxConfig) (below : Building) (n : ℕ) (rest : Bytes) (o : Outcome) where
  Ends-simple :
      (last : TokenType) (depth : ℕ) (ts : List Bytes)
      → HasWords ts
      → IsReady last
      → Ends (building (emplace_back c (simple ts)) below statement_end (pos n)) rest o
      → Ends (building c below last (pos n)) (statement_to_string depth (simple ts) ++ rest) o
  unfolding statement_to_string round parse_token lex lex_step
  Ends-simple last depth [] w r h = absurd w
  Ends-simple last depth (t ∷ ts) (w, ws) r h =
      subst (λ (u : Bytes). Ends (building c below last (pos n)) u o)
        (sym (
          append_assoc (indent depth) (token_text (t ∷ ts) ++ codes ";\n") rest
          ∙ ap (λ (u : Bytes). indent depth ++ u)
              (append_assoc (token_text (t ∷ ts)) (codes ";\n") rest)))
        (Ends-tokens c below n last depth t ts (b';' ∷ b'\n' ∷ rest) o r w ws refl (
          Ends-byte (building (emplace_back c (simple (t ∷ ts))) below normal (pos n)) _ rest o b';'
            statement_end refl refl h))

  Ends-open :
      (last : TokenType) (depth : ℕ) (ts : List Bytes)
      → HasWords ts
      → IsReady last
      → Ends (building nil ((c, ts) ∷ below) start_block (pos (suc n))) rest o
      → Ends
          (building c below last (pos n))
          (indent depth ++ (token_text ts ++ (codes " {\n" ++ rest)))
          o
  unfolding parse_token lex lex_step
  Ends-open last depth [] w r h = absurd w
  Ends-open last depth (t ∷ ts) (w, ws) r h =
      Ends-tokens c below n last depth t ts (b' ' ∷ b'{' ∷ b'\n' ∷ rest) o r w ws refl (
        Ends-same _ (b' ' ∷ b'{' ∷ b'\n' ∷ rest) (b'{' ∷ b'\n' ∷ rest) o
          (parse_token-blank b' ' (b'{' ∷ b'\n' ∷ rest) refl) (omega arith)
          (Ends-byte (building (emplace_back c (simple (t ∷ ts))) below normal (pos n)) _ rest o
            b'{' start_block refl (round-open c below (pos n) (b'{' ∷ []) (t ∷ ts)) h))

  Ends-close :
      (last : TokenType) (depth : ℕ) (ts : List Bytes) (b : NginxConfig)
      → before_end_block last ≡ true
      → Ends (building (emplace_back c (block ts b)) below end_block (pos n)) rest o
      → Ends
          (building b ((c, ts) ∷ below) last (pos (suc n)))
          (indent depth ++ (codes "}\n" ++ rest))
          o
  unfolding parse_token lex lex_step
  Ends-close last depth ts b e h =
      Ends-same _ _ (b'}' ∷ b'\n' ∷ rest) o (parse_token-indent depth _)
        (omega (arith, length-append (indent depth) (codes "}\n" ++ rest)))
        (Ends-byte _ _ rest o b'}' end_block refl
          (round-close b below (pos (suc n)) (b'}' ∷ []) last c ts e) h)

block-text :
    (depth : ℕ) (ts : List Bytes) (b : NginxConfig) (rest : Bytes)
    → statement_to_string depth (block ts b) ++ rest
      ≡ indent depth
        ++ (token_text ts
            ++ (codes " {\n"
                ++ (to_string (suc depth) b ++ (indent depth ++ (codes "}\n" ++ rest)))))
unfolding statement_to_string
block-text depth ts b rest = simp append_assoc

Ends-config :
    (d c : NginxConfig) (below : Building) (last : TokenType) (n depth : ℕ) (rest : Bytes)
    (o : Outcome)
    → IsPrintable d
    → IsReady last
    → Ends (building (add c d) below (last_of last d) (pos n)) rest o
    → Ends (building c below last (pos n)) (to_string depth d ++ rest) o
unfolding to_string IsPrintable add before_normal before_end_block
Ends-config nil c below last n depth rest o p r h = h
Ends-config (cons (simple ts) d) c below last n depth rest o (p, q) r h =
    subst (λ (u : Bytes). Ends (building c below last (pos n)) u o)
      (sym (append_assoc (statement_to_string depth (simple ts)) (to_string depth d) rest))
      (Ends-simple c below n (to_string depth d ++ rest) o last depth ts p r (
        Ends-config d (emplace_back c (simple ts)) below statement_end n depth rest o q (refl, refl)
          h))
Ends-config (cons (block ts b) d) c below last n depth rest o ((w, p), q) r h =
    let tail = to_string depth d ++ rest in
    let after_block : Ends (building (emplace_back c (block ts b)) below end_block (pos n)) tail o =
      Ends-config d (emplace_back c (block ts b)) below end_block n depth rest o q (refl, refl) h in
    let is_b : add nil b ≡ b = add-join nil b in
    subst (λ (u : Bytes). Ends (building c below last (pos n)) u o)
      (sym (
        append_assoc (statement_to_string depth (block ts b)) (to_string depth d) rest
        ∙ block-text depth ts b tail))
      (Ends-open c below n _ o last depth ts w r (
        Ends-config b nil ((c, ts) ∷ below) start_block (suc n) (suc depth) _ o p (refl, refl)
          (subst
            (λ (b' : NginxConfig).
              Ends (building b' ((c, ts) ∷ below) (last_of start_block b) (pos (suc n)))
                (indent depth ++ (codes "}\n" ++ tail)) o)
            (sym is_b)
            (Ends-close c below n tail o (last_of start_block b) depth ts b
              (last_of-before_end_block start_block b refl) after_block))))

Ends-eof :
    (c : NginxConfig) (last : TokenType)
    → before_eof last ≡ true
    → Ends (building c [] last (pos 0)) [] (accepted c)
unfolding rounds round parse_token lex lex_end
Ends-eof c last e zero lt = absurd (omega arith)
Ends-eof c last e (suc fuel) lt = rw e refl

-- The printed text of a configuration, at any depth, is parsed, and the result is the
-- configuration. Every statement has at least one token, and each token is one that the lexer can
-- return.
pub parse-to_string :
    (depth : ℕ) (c : NginxConfig) → IsPrintable c → parse (to_string depth c) ≡ accepted c
unfolding parse before_normal before_eof
parse-to_string depth c p =
    subst (λ (u : Bytes). Ends first_loop u (accepted c)) (append-nil (to_string depth c))
      (Ends-config c nil [] start 0 depth [] (accepted c) p (refl, refl)
        (subst (λ (d : NginxConfig). Ends (building d [] (last_of start c) (pos 0)) [] (accepted c))
          (sym (add-join nil c)) (Ends-eof c (last_of start c) (last_of-before_eof start c refl))))
      (suc (length (to_string depth c))) (omega arith)
