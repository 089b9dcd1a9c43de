-- ===== src/RequestParser/Steps.antt =====
-- What the parser makes of one byte, state by state.
use web_server_development.Prelude.{ℕ, true, false, ◌∷◌, ◌++◌, ◌≡◌, arith, append_assoc, ◌==◌}
use web_server_development.Text.{Bytes, codes, push_back}
use web_server_development.Request.{Request}
use web_server_development.RequestParser.{
  uri, http_version_h, http_version_major_start, http_version_major, http_version_minor_start,
  http_version_minor, header_name, header_value, Parser, refused, is_tspecial, is_digit, parse,
}
use web_server_development.RequestParser.WellFormed.{is_uri_byte, is_value_byte}

-- A blank or a tab is refused as a token byte.
pub refused_blank : (c : ℕ) → refused c ≡ false → (c == b' ') ≡ false
unfolding refused is_tspecial
refused_blank c h = ground arith

pub refused_tab : (c : ℕ) → refused c ≡ false → (c == b'\t') ≡ false
unfolding refused is_tspecial
refused_tab c h = ground arith

refused_colon : (c : ℕ) → refused c ≡ false → (c == b':') ≡ false
unfolding refused is_tspecial
refused_colon c h = ground arith

pub refused_return : (c : ℕ) → refused c ≡ false → (c == b'\r') ≡ false
unfolding refused
refused_return c h = ground arith

module _ (q : Request) (p : Parser) where
  pub parse-uri_byte :
      (c : ℕ) (rest : Bytes)
      → is_uri_byte c ≡ true
      → parse q (record p { state = uri }) (c ∷ rest)
        ≡ parse (record q { uri = push_back q.uri c }) (record p { state = uri }) rest
  unfolding parse
  parse-uri_byte c rest h = ground arith

  pub parse_major_byte :
      (c : ℕ) (rest : Bytes)
      → is_digit c ≡ true
      → parse q (record p { state = http_version_major }) (c ∷ rest)
        ≡ parse
            (record q { version = push_back q.version c })
            (record p { state = http_version_major })
            rest
  unfolding parse
  parse_major_byte c rest h = ground arith

  pub parse_major_start :
      (c : ℕ) (rest : Bytes)
      → is_digit c ≡ true
      → parse q (record p { state = http_version_major_start }) (c ∷ rest)
        ≡ parse
            (record q { version = push_back q.version c })
            (record p { state = http_version_major })
            rest
  unfolding parse
  parse_major_start c rest h = ground arith

  pub parse_minor_byte :
      (c : ℕ) (rest : Bytes)
      → is_digit c ≡ true
      → parse q (record p { state = http_version_minor }) (c ∷ rest)
        ≡ parse
            (record q { version = push_back q.version c })
            (record p { state = http_version_minor })
            rest
  unfolding parse
  parse_minor_byte c rest h = ground arith

  pub parse_minor_start :
      (c : ℕ) (rest : Bytes)
      → is_digit c ≡ true
      → parse q (record p { state = http_version_minor_start }) (c ∷ rest)
        ≡ parse
            (record q { version = push_back q.version c })
            (record p { state = http_version_minor })
            rest
  unfolding parse
  parse_minor_start c rest h = ground arith

  pub parse_name_byte :
      (c : ℕ) (rest : Bytes)
      → refused c ≡ false
      → parse q (record p { state = header_name }) (c ∷ rest)
        ≡ parse q (record p { state = header_name; header_key = push_back p.header_key c }) rest
  unfolding parse
  parse_name_byte c rest h = ground (arith, refused_colon c)

  pub parse_value_byte :
      (c : ℕ) (rest : Bytes)
      → is_value_byte c ≡ true
      → parse q (record p { state = header_value }) (c ∷ rest)
        ≡ parse q (record p { state = header_value; header_val = push_back p.header_val c }) rest
  unfolding parse
  parse_value_byte c rest h = ground arith

  pub parse_http :
      (rest : Bytes)
      → parse q (record p { state = http_version_h }) (codes "HTTP/" ++ rest)
        ≡ parse
            (record q { version = q.version ++ codes "HTTP/" })
            (record p { state = http_version_major_start })
            rest
  unfolding parse
  parse_http rest = simp append_assoc
