-- ===== src/Handlers/Proxy/Fields.antt =====
-- What the proxy makes of one line of a header of the other host.
use web_server_development.Prelude.{
  ◌+◌, true, false, [], ◌∷◌, ◌++◌, some, ◌≡◌, refl, ◌∙◌, sym, ap₂, arith, Result, ok, throws,
  out_of_range, ◌>>=◌, length, length-append, take-length-append, append_assoc, lt→ltb,
}
use web_server_development.Text.{Bytes, codes, equal, push_back, substr_from}
use web_server_development.Text.Search.{lacks, find_text, find_text-behind, substr_from-append}
use web_server_development.Response.{Response, add_header}
use web_server_development.Handlers.Proxy.Prefix.{pop_back-concat}
use web_server_development.Handlers.Proxy.Exchange.{header_value, header_token, add_line}

-- What a field is, by the bytes behind its colon
abbrev pub field_value : Bytes → Result Bytes
field_value [] = throws out_of_range
field_value (c ∷ value) = ok value

-- What the field adds to a response
abbrev pub with_field : Bytes → Bytes → Response → Result Response
with_field name [] r = throws out_of_range
with_field name (c ∷ value) r = ok (add_header name value r)

module _ (name rest : Bytes) (h : lacks b':' name ≡ true) where
  found : find_text (codes ":") (name ++ (b':' ∷ rest)) ≡ some (length name)
  found = find_text-behind b':' [] name rest h

  header_token-colon : header_token (name ++ (b':' ∷ rest)) ≡ name
  unfolding header_token
  header_token-colon = rw (found, header_token) (take-length-append name (b':' ∷ rest))

past_end :
    (name : Bytes) → substr_from (name ++ (b':' ∷ [])) (length name + 2) ≡ throws out_of_range
unfolding substr_from
past_end name =
    rw
      (lt→ltb (length (name ++ (b':' ∷ []))) (length name + 2)
        (omega (arith, length-append name (b':' ∷ []))))
      refl

pub header_value-colon :
    (name rest : Bytes)
    → lacks b':' name ≡ true
    → header_value (name ++ (b':' ∷ rest)) ≡ field_value rest
unfolding header_value
header_value-colon name [] h = rw (found name [] h, header_value) (past_end name)
header_value-colon name (c ∷ value) h =
    rw (found name (c ∷ value) h, header_value)
      (ap₂ substr_from (sym (append_assoc name (b':' ∷ c ∷ []) value))
          (sym (length-append name (b':' ∷ c ∷ [])))
        ∙ substr_from-append (name ++ (b':' ∷ c ∷ [])) value)

-- A line of a name, a colon and a carriage return, with nothing between the last two, makes the
-- proxy throw `std::out_of_range`. If there is something, its first byte is dropped, whichever it
-- is, and the rest is the value of the header. The name has no colon, and is not
-- Transfer-Encoding, which is left out of the response.
pub add_line-field :
    (name rest : Bytes) (r : Response)
    → lacks b':' name ≡ true
    → equal name (codes "Transfer-Encoding") ≡ false
    → add_line (push_back (name ++ (b':' ∷ rest)) b'\r') r ≡ with_field name rest r
unfolding add_line
add_line-field name rest r h other =
    rw (pop_back-concat (name ++ (b':' ∷ rest)) b'\r', add_line)
      (rw (header_token-colon name rest h)
        (rw other (rw (header_value-colon name rest h) (field rest))))
  where
    field :
        (rest : Bytes)
        → (do value ← field_value rest; ok (add_header name value r)) ≡ with_field name rest r
    field [] = refl
    field (c ∷ value) = refl
