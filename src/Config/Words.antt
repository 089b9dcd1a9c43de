-- ===== src/Config/Words.antt =====
-- What the lexer reads of printed text.
use web_server_development.Prelude.{
  ℕ, zero, suc, ◌<◌, Bool, true, not, ◌||◌, [], ◌∷◌, ◌++◌, ◌≡◌, refl, ◌∙◌, sym, ap, subst, arith,
  ◌==◌, all, append_assoc, append-nil, length,
}
use web_server_development.Text.{Bytes, push_back}
use web_server_development.Config.{indent}
use web_server_development.Config.Lexer.{
  TokenType, normal, TokenParserState, initial_whitespace, single_quote, double_quote,
  token_type_normal, is_blank, is_delimiter, lex_step, lex, parse_token, ungets, continues,
}

-- A byte that a token with no quotes may begin with
abbrev pub begins_bare : ℕ → Bool
begins_bare c = not (is_delimiter c || c == b'\r' || c == b'#' || c == b'"' || c == b'\'')

abbrev pub stays_bare : ℕ → Bool
stays_bare c = not (is_delimiter c)

abbrev pub other_than : ℕ → ℕ → Bool
other_than q c = not (c == q)

-- A token as the lexer returns it: with no quotes, or one pair around bytes other than them
pub data IsWord (t : Bytes) : Type 0 where
  bare :
      (c : ℕ) (cs : Bytes) → t ≡ c ∷ cs → begins_bare c ≡ true → all stays_bare cs ≡ true → IsWord t
  double_quoted :
      (body : Bytes) → t ≡ b'"' ∷ body ++ b'"' ∷ [] → all (other_than b'"') body ≡ true → IsWord t
  single_quoted :
      (body : Bytes)
      → t ≡ b'\'' ∷ body ++ b'\'' ∷ []
      → all (other_than b'\'') body ≡ true
      → IsWord t

module _ (st : TokenParserState) (value : Bytes) (c : ℕ) (cs : Bytes) where
  lex-continues :
      {st' : TokenParserState} {v : Bytes}
      → lex_step st value c ≡ continues st' v
      → lex st value (c ∷ cs) ≡ lex st' v cs
  unfolding lex
  lex-continues e = rw (e, lex) refl

  lex-ungets :
      {type : TokenType} {v : Bytes}
      → lex_step st value c ≡ ungets type v
      → lex st value (c ∷ cs) ≡ record { type = type; value = v; rest = c ∷ cs }
  unfolding lex
  lex-ungets e = rw (e, lex) refl

lex_bare :
    (value cs rest : Bytes) (d : ℕ)
    → all stays_bare cs ≡ true
    → is_delimiter d ≡ true
    → lex token_type_normal value (cs ++ d ∷ rest)
      ≡ record { type = normal; value = value ++ cs; rest = d ∷ rest }
unfolding lex_step
lex_bare value [] rest d h e =
    lex-ungets token_type_normal value d rest {type = normal} {v = value} (ground arith)
    ∙ rw append-nil refl
lex_bare value (c ∷ cs) rest d h e =
    lex-continues token_type_normal value c _ {st' = token_type_normal} {v = push_back value c}
      (ground arith)
    ∙ lex_bare (push_back value c) cs rest d (ground arith) e
    ∙ rw append_assoc refl

lex_double :
    (value cs rest : Bytes)
    → all (other_than b'"') cs ≡ true
    → lex double_quote value (cs ++ b'"' ∷ rest)
      ≡ record { type = normal; value = value ++ (cs ++ b'"' ∷ []); rest = rest }
unfolding lex lex_step
lex_double value [] rest h = refl
lex_double value (c ∷ cs) rest h =
    lex-continues double_quote value c _ {st' = double_quote} {v = push_back value c} (ground arith)
    ∙ lex_double (push_back value c) cs rest (ground arith)
    ∙ rw append_assoc refl

lex_single :
    (value cs rest : Bytes)
    → all (other_than b'\'') cs ≡ true
    → lex single_quote value (cs ++ b'\'' ∷ rest)
      ≡ record { type = normal; value = value ++ (cs ++ b'\'' ∷ []); rest = rest }
unfolding lex lex_step
lex_single value [] rest h = refl
lex_single value (c ∷ cs) rest h =
    lex-continues single_quote value c _ {st' = single_quote} {v = push_back value c} (ground arith)
    ∙ lex_single (push_back value c) cs rest (ground arith)
    ∙ rw append_assoc refl

initial-bare :
    (c : ℕ)
    → begins_bare c ≡ true
    → lex_step initial_whitespace [] c ≡ continues token_type_normal (c ∷ [])
unfolding lex_step
initial-bare c b = ground arith

module _ (rest : Bytes) (d : ℕ) where
  -- The text is read as one token, up to the byte behind it.
  abbrev IsRead : Bytes → Type 0
  IsRead t = parse_token (t ++ d ∷ rest) ≡ record { type = normal; value = t; rest = d ∷ rest }

  bare-IsRead :
      (c : ℕ) (cs : Bytes)
      → begins_bare c ≡ true
      → all stays_bare cs ≡ true
      → is_delimiter d ≡ true
      → IsRead (c ∷ cs)
  unfolding parse_token
  bare-IsRead c cs b s h =
      lex-continues initial_whitespace [] c (cs ++ d ∷ rest) (initial-bare c b)
      ∙ lex_bare (c ∷ []) cs rest d s h

  double_quoted-IsRead :
      (body : Bytes) → all (other_than b'"') body ≡ true → IsRead (b'"' ∷ body ++ b'"' ∷ [])
  unfolding parse_token
  double_quoted-IsRead body s =
      lex-continues initial_whitespace [] b'"' ((body ++ b'"' ∷ []) ++ d ∷ rest)
        {st' = double_quote} {v = b'"' ∷ []} (unfold lex_step in refl)
      ∙ ap (lex double_quote (b'"' ∷ [])) (append_assoc body (b'"' ∷ []) (d ∷ rest))
      ∙ lex_double (b'"' ∷ []) body (d ∷ rest) s

  single_quoted-IsRead :
      (body : Bytes) → all (other_than b'\'') body ≡ true → IsRead (b'\'' ∷ body ++ b'\'' ∷ [])
  unfolding parse_token
  single_quoted-IsRead body s =
      lex-continues initial_whitespace [] b'\'' ((body ++ b'\'' ∷ []) ++ d ∷ rest)
        {st' = single_quote} {v = b'\'' ∷ []} (unfold lex_step in refl)
      ∙ ap (lex single_quote (b'\'' ∷ [])) (append_assoc body (b'\'' ∷ []) (d ∷ rest))
      ∙ lex_single (b'\'' ∷ []) body (d ∷ rest) s

parse_token-word :
    (t rest : Bytes) (d : ℕ)
    → IsWord t
    → is_delimiter d ≡ true
    → parse_token (t ++ d ∷ rest) ≡ record { type = normal; value = t; rest = d ∷ rest }
parse_token-word t rest d (bare c cs e b s) h =
    subst (IsRead rest d) (sym e) (bare-IsRead rest d c cs b s h)
parse_token-word t rest d (double_quoted body e s) h =
    subst (IsRead rest d) (sym e) (double_quoted-IsRead rest d body s)
parse_token-word t rest d (single_quoted body e s) h =
    subst (IsRead rest d) (sym e) (single_quoted-IsRead rest d body s)

pub parse_token-blank :
    (c : ℕ) (rest : Bytes) → is_blank c ≡ true → parse_token (c ∷ rest) ≡ parse_token rest
unfolding parse_token lex lex_step
parse_token-blank c rest h = ground arith

pub parse_token-indent : (n : ℕ) (rest : Bytes) → parse_token (indent n ++ rest) ≡ parse_token rest
unfolding indent
parse_token-indent zero rest = refl
parse_token-indent (suc n) rest =
    parse_token-blank b' ' (b' ' ∷ indent n ++ rest) refl
    ∙ parse_token-blank b' ' (indent n ++ rest) refl
    ∙ parse_token-indent n rest

-- The bytes begin with a delimiter.
abbrev pub BeginsWithDelimiter : Bytes → Type 0
BeginsWithDelimiter [] = ⊥
BeginsWithDelimiter (d ∷ rest) = is_delimiter d ≡ true

-- A word in front of a delimiter is read as it stands, and the delimiter is left.
pub parse_token_word :
    (t input : Bytes)
    → IsWord t
    → BeginsWithDelimiter input
    → parse_token (t ++ input) ≡ record { type = normal; value = t; rest = input }
parse_token_word t [] w h = absurd h
parse_token_word t (d ∷ rest) w h = parse_token-word t rest d w h

pub length-word : (t : Bytes) → IsWord t → 0 < length t
length-word t (bare c cs e b s) = rw e (omega arith)
length-word t (double_quoted body e s) = rw e (omega arith)
length-word t (single_quoted body e s) = rw e (omega arith)
