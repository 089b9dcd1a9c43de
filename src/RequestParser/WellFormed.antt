-- ===== src/RequestParser/WellFormed.antt =====
-- Requests that the parser can produce.
use web_server_development.Prelude.{
  ℕ, Bool, true, not, ◌&&◌, [], ◌∷◌, ◌++◌, ◌≡◌, ◌≢◌, ◌==◌, all, All,
}
use web_server_development.Text.{Bytes, codes}
use web_server_development.Request.{Request}
use web_server_development.RequestParser.{is_ctl, is_digit, refused}
use web_server_development.StdMap.Laws.{IsSorted}

-- A byte of a uri
abbrev pub is_uri_byte : ℕ → Bool
is_uri_byte c = not (c == b' ') && not (is_ctl c)

-- A byte of a header's value
abbrev pub is_value_byte : ℕ → Bool
is_value_byte c = not (is_ctl c)

abbrev pub is_token_byte : ℕ → Bool
is_token_byte c = not (refused c)

-- A name of one or more token bytes
abbrev pub IsName : Bytes → Type 0
IsName s = (s ≢ []) × (all is_token_byte s ≡ true)

abbrev pub IsDigits : Bytes → Type 0
IsDigits s = (s ≢ []) × (all is_digit s ≡ true)

-- "HTTP/", a number, a dot, a number
pub record IsVersion (v : Bytes) : Type 0 where
  pub major : Bytes
  pub minor : Bytes
  pub version_is : v ≡ codes "HTTP/" ++ (major ++ (b'.' ∷ minor))
  pub major_IsDigits : IsDigits major
  pub minor_IsDigits : IsDigits minor

abbrev pub IsHeader : Bytes × Bytes → Type 0
IsHeader (k, v) = IsName k × (all is_value_byte v ≡ true)

pub record IsWellFormed (q : Request) : Type 0 where
  pub uri_clean : all is_uri_byte q.uri ≡ true
  pub version_IsVersion : IsVersion q.version
  pub headers_IsHeader : All IsHeader q.headers
  pub headers_IsSorted : IsSorted q.headers
