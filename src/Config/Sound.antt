-- ===== src/Config/Sound.antt =====
-- What the parser accepts is printable, so it survives printing and parsing.
use web_server_development.Prelude.{
  ℕ, Bool, true, false, ◌||◌, [], ◌∷◌, ◌++◌, ◌≡◌, refl, ◌≢◌, sym, subst, arith, ◌==◌, if◌then◌else◌,
  Bool-cases, inl, inr, all, all-concat, ==_iff,
}
use web_server_development.Text.{Bytes, push_back}
use web_server_development.Config.Lexer.{
  normal, TokenParserState, initial_whitespace, single_quote, double_quote, token_type_comment,
  token_type_normal, is_delimiter, is_blank, lex, lex_step, lex_end, LexStep, returns, ungets,
  continues, parse_token,
}
use web_server_development.Config.Fuel.{left}
use web_server_development.Config.Words.{
  IsWord, bare, double_quoted, single_quoted, begins_bare, stays_bare, other_than,
}

-- What the value is while the lexer is in a state
data IsBegun : TokenParserState → Bytes → Type 0 where
  at_start : IsBegun initial_whitespace []
  in_single :
      (body : Bytes) → all (other_than b'\'') body ≡ true → IsBegun single_quote (b'\'' ∷ body)
  in_double :
      (body : Bytes) → all (other_than b'"') body ≡ true → IsBegun double_quote (b'"' ∷ body)
  in_comment : (value : Bytes) → IsBegun token_type_comment value
  in_bare :
      (c : ℕ) (cs : Bytes)
      → begins_bare c ≡ true
      → all stays_bare cs ≡ true
      → IsBegun token_type_normal (c ∷ cs)

-- What a step makes of it
abbrev IsGoodStep : LexStep → Type 0
IsGoodStep (returns t v) = t ≡ normal → IsWord v
IsGoodStep (ungets t v) = t ≡ normal → IsWord v
IsGoodStep (continues st v) = IsBegun st v

if-IsGoodStep :
    (b : Bool) (s s' : LexStep)
    → (b ≡ true → IsGoodStep s)
    → (b ≡ false → IsGoodStep s')
    → IsGoodStep (if b then s else s')
if-IsGoodStep true s s' h h' = h refl
if-IsGoodStep false s s' h h' = h' refl

IsBegun-double : (c : ℕ) → (c == b'"') ≡ true → IsBegun double_quote (c ∷ [])
IsBegun-double c e =
    subst (λ (q : ℕ). IsBegun double_quote (q ∷ [])) (sym ((==_iff c b'"').0 e)) (in_double [] refl)

IsBegun-single : (c : ℕ) → (c == b'\'') ≡ true → IsBegun single_quote (c ∷ [])
IsBegun-single c e =
    subst (λ (q : ℕ). IsBegun single_quote (q ∷ [])) (sym ((==_iff c b'\'').0 e))
      (in_single [] refl)

lex_step-IsGoodStep :
    (st : TokenParserState) (value : Bytes) (c : ℕ)
    → IsBegun st value
    → IsGoodStep (lex_step st value c)
unfolding lex_step
lex_step-IsGoodStep _ _ c at_start =
    if-IsGoodStep (c == b'{') _ _ (λ e t. absurd cc)
      (λ open_block.
        if-IsGoodStep (c == b'}') _ _ (λ e t. absurd cc)
          (λ close_block.
            if-IsGoodStep (c == b'#') _ _ (λ e. in_comment (c ∷ []))
              (λ hash.
                if-IsGoodStep (c == b'"') _ _ (λ e. IsBegun-double c e)
                  (λ double.
                    if-IsGoodStep (c == b'\'') _ _ (λ e. IsBegun-single c e)
                      (λ single.
                        if-IsGoodStep (c == b';') _ _ (λ e t. absurd cc)
                          (λ semicolon.
                            if-IsGoodStep (is_blank c) _ _ (λ e. at_start)
                              (λ blank. in_bare c [] (ground arith) refl)))))))
lex_step-IsGoodStep _ _ c (in_single body h) = elim (Bool-cases (c == b'\'')) [
  | inl stop ↦ rw stop (λ e. single_quoted body (ground arith) h)
  | inr on ↦
      rw on (in_single (body ++ c ∷ []) (ground (arith, all-concat (other_than b'\'') body c)))
]
lex_step-IsGoodStep _ _ c (in_double body h) = elim (Bool-cases (c == b'"')) [
  | inl stop ↦ rw stop (λ e. double_quoted body (ground arith) h)
  | inr on ↦
      rw on (in_double (body ++ c ∷ []) (ground (arith, all-concat (other_than b'"') body c)))
]
lex_step-IsGoodStep _ value c (in_comment _) =
    if-IsGoodStep (c == b'\n' || c == b'\r') _ _ (λ e t. absurd cc)
      (λ e. in_comment (push_back value c))
lex_step-IsGoodStep _ _ c (in_bare b bs h k) = elim (Bool-cases (is_delimiter c)) [
  | inl stop ↦ rw stop (λ e. bare b bs refl h k)
  | inr on ↦ rw on (in_bare b (bs ++ c ∷ []) h (ground (arith, all-concat stays_bare bs c)))
]

good-IsWord :
    (c : ℕ) (cs : Bytes) (s : LexStep)
    → IsGoodStep s
    → ((st : TokenParserState) (v : Bytes)
        → IsBegun st v
        → (lex st v cs).type ≡ normal
        → IsWord (lex st v cs).value)
    → (left c cs s).type ≡ normal
    → IsWord (left c cs s).value
good-IsWord c cs (returns t v) g h e = g e
good-IsWord c cs (ungets t v) g h e = g e
good-IsWord c cs (continues st v) g h e = h st v g e

lex_end-normal : (st : TokenParserState) → lex_end st ≢ normal
unfolding lex_end
lex_end-normal initial_whitespace e = cc
lex_end-normal single_quote e = cc
lex_end-normal double_quote e = cc
lex_end-normal token_type_comment e = cc
lex_end-normal token_type_normal e = cc

lex-IsWord :
    (input : Bytes) (st : TokenParserState) (v : Bytes)
    → IsBegun st v
    → (lex st v input).type ≡ normal
    → IsWord (lex st v input).value
unfolding lex
lex-IsWord [] st v b e = absurd (lex_end-normal st e)
lex-IsWord (c ∷ cs) st v b e =
    good-IsWord c cs (lex_step st v c) (lex_step-IsGoodStep st v c b) (lex-IsWord cs) e

-- Each token of type TOKEN_TYPE_NORMAL is a word.
pub parse_token-IsWord :
    (input : Bytes) → (parse_token input).type ≡ normal → IsWord (parse_token input).value
unfolding parse_token
parse_token-IsWord input e = lex-IsWord input initial_whitespace [] at_start e
