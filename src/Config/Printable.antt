-- ===== src/Config/Printable.antt =====
-- Configurations that can be printed, and where the parser stands behind one.
use web_server_development.Prelude.{true, List, [], ◌∷◌, ◌≡◌, refl, ◌∙◌, sym, ap, All}
use web_server_development.Text.{Bytes}
use web_server_development.Config.{NginxConfig, nil, cons, Statement, simple, block}
use web_server_development.Config.Lexer.{TokenType, end_block, statement_end}
use web_server_development.Config.Parser.{emplace_back, before_end_block, before_eof}
use web_server_development.Config.Words.{IsWord}

abbrev end_of : Statement → TokenType
end_of (simple ts) = statement_end
end_of (block ts c) = end_block

-- The type of the last token, once a configuration is read
abbrev pub last_of : TokenType → NginxConfig → TokenType
last_of last nil = last
last_of last (cons s c) = last_of (end_of s) c

-- The statements of the second are added behind those of the first.
unfoldable pub add : NginxConfig → NginxConfig → NginxConfig
unfolding emplace_back
add c nil = c
add c (cons s d) = add (emplace_back c s) d

abbrev pub HasWords : List Bytes → Type 0
HasWords [] = ⊥
HasWords (t ∷ ts) = IsWord t × All IsWord ts

-- Every statement has a token, and each token is a word.
unfoldable mutual
  pub IsPrintable : NginxConfig → Type 0
  IsPrintable nil = Unit
  IsPrintable (cons s c) = StatementIsPrintable s × IsPrintable c

  pub StatementIsPrintable : Statement → Type 0
  StatementIsPrintable (simple ts) = HasWords ts
  StatementIsPrintable (block ts c) = HasWords ts × IsPrintable c

abbrev join : NginxConfig → NginxConfig → NginxConfig
join nil d = d
join (cons s c) d = cons s (join c d)

join-emplace_back :
    (c : NginxConfig) (s : Statement) (d : NginxConfig)
    → join (emplace_back c s) d ≡ join c (cons s d)
unfolding emplace_back
join-emplace_back nil s d = refl
join-emplace_back (cons t c) s d = ap (cons t) (join-emplace_back c s d)

join-nil : (c : NginxConfig) → join c nil ≡ c
join-nil nil = refl
join-nil (cons s c) = ap (cons s) (join-nil c)

pub add-join : (c d : NginxConfig) → add c d ≡ join c d
unfolding add
add-join c nil = sym (join-nil c)
add-join c (cons s d) = add-join (emplace_back c s) d ∙ join-emplace_back c s d

pub last_of-before_end_block :
    (last : TokenType) (c : NginxConfig)
    → before_end_block last ≡ true
    → before_end_block (last_of last c) ≡ true
unfolding before_end_block
last_of-before_end_block last nil h = h
last_of-before_end_block last (cons (simple ts) c) h = last_of-before_end_block statement_end c refl
last_of-before_end_block last (cons (block ts b) c) h = last_of-before_end_block end_block c refl

pub last_of-before_eof :
    (last : TokenType) (c : NginxConfig)
    → before_eof last ≡ true
    → before_eof (last_of last c) ≡ true
unfolding before_eof
last_of-before_eof last nil h = h
last_of-before_eof last (cons (simple ts) c) h = last_of-before_eof statement_end c refl
last_of-before_eof last (cons (block ts b) c) h = last_of-before_eof end_block c refl
