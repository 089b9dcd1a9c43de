-- ===== src/RequestParser/Runs.antt =====
-- The parser over the pieces of a request, each with any `rest` behind it.
use web_server_development.Prelude.{
  ℕ, true, false, [], ◌∷◌, ◌++◌, ◌≡◌, refl, ◌≢◌, ◌∙◌, ok, arith, all, append-nil, append_assoc,
}
use web_server_development.Text.{Bytes, codes, push_back}
use web_server_development.Request.{Request, get, post, put, head, invalid, Method, empty_request}
use web_server_development.RequestParser.{
  uri, http_version_h, http_version_major_start, http_version_major, http_version_minor_start,
  http_version_minor, header_line_start, header_name, header_value, Parser, initial, refused,
  is_tspecial, is_digit, commit_header, method_of, parse,
}
use web_server_development.Response.{crlf}
use web_server_development.Handlers.Echo.{method_name}
use web_server_development.RequestParser.WellFormed.{
  is_uri_byte, is_value_byte, is_token_byte, IsName, IsDigits, IsVersion,
}
use web_server_development.RequestParser.Steps.{
  refused_blank, refused_tab, refused_return, parse-uri_byte, parse_major_byte, parse_major_start,
  parse_minor_byte, parse_minor_start, parse_name_byte, parse_value_byte, parse_http,
}

pub parse-uri :
    (u : Bytes) (q : Request) (p : Parser) (rest : Bytes)
    → all is_uri_byte u ≡ true
    → parse q (record p { state = uri }) (u ++ (b' ' ∷ rest))
      ≡ parse (record q { uri = q.uri ++ u }) (record p { state = http_version_h }) rest
parse-uri [] q p rest h = rw append-nil (unfold parse in refl)
parse-uri (c ∷ u) q p rest h =
    parse-uri_byte q p c (u ++ (b' ' ∷ rest)) (ground arith)
    ∙ parse-uri u (record q { uri = push_back q.uri c }) p rest (ground arith)
    ∙ rw append_assoc

parse_major :
    (d : Bytes) (q : Request) (p : Parser) (rest : Bytes)
    → all is_digit d ≡ true
    → parse q (record p { state = http_version_major }) (d ++ (b'.' ∷ rest))
      ≡ parse
          (record q { version = q.version ++ (d ++ (b'.' ∷ [])) })
          (record p { state = http_version_minor_start })
          rest
parse_major [] q p rest h = unfold parse in refl
parse_major (c ∷ d) q p rest h =
    parse_major_byte q p c (d ++ (b'.' ∷ rest)) (ground arith)
    ∙ parse_major d (record q { version = push_back q.version c }) p rest (ground arith)
    ∙ rw append_assoc

parse_minor :
    (d : Bytes) (q : Request) (p : Parser) (rest : Bytes)
    → all is_digit d ≡ true
    → parse q (record p { state = http_version_minor }) (d ++ (crlf ++ rest))
      ≡ parse (record q { version = q.version ++ d }) (record p { state = header_line_start }) rest
parse_minor [] q p rest h = rw append-nil (unfold parse in refl)
parse_minor (c ∷ d) q p rest h =
    parse_minor_byte q p c (d ++ (crlf ++ rest)) (ground arith)
    ∙ parse_minor d (record q { version = push_back q.version c }) p rest (ground arith)
    ∙ rw append_assoc

parse_numbers :
    (major minor : Bytes) (q : Request) (p : Parser) (rest : Bytes)
    → IsDigits major
    → IsDigits minor
    → parse q
        (record p { state = http_version_major_start })
        (major ++ (b'.' ∷ (minor ++ (crlf ++ rest))))
      ≡ parse
          (record q { version = q.version ++ (major ++ (b'.' ∷ minor)) })
          (record p { state = header_line_start })
          rest
parse_numbers [] minor q p rest (ne, h) k = absurd (ne refl)
parse_numbers (c ∷ major) [] q p rest h (ne, k) = absurd (ne refl)
parse_numbers (c ∷ major) (d ∷ minor) q p rest (_, h) (_, k) =
    parse_major_start q p c _ (ground arith)
    ∙ parse_major major _ p _ (ground arith)
    ∙ parse_minor_start _ p d _ (ground arith)
    ∙ parse_minor minor _ p rest (ground arith)
    ∙ simp append_assoc

pub parse-version :
    {v : Bytes} (q : Request) (p : Parser) (rest : Bytes)
    → IsVersion v
    → parse q (record p { state = http_version_h }) (v ++ (crlf ++ rest))
      ≡ parse (record q { version = q.version ++ v }) (record p { state = header_line_start }) rest
parse-version q p rest i =
    let v = record q { version = q.version ++ codes "HTTP/" } in
    let numbers = parse_numbers i.major i.minor v p rest i.major_IsDigits i.minor_IsDigits in
    rw (i.version_is, append_assoc, parse_http, append_assoc, numbers, append_assoc)

parse_name :
    (k : Bytes) (q : Request) (p : Parser) (rest : Bytes)
    → all is_token_byte k ≡ true
    → parse q (record p { state = header_name }) (k ++ (codes ": " ++ rest))
      ≡ parse q (record p { state = header_value; header_key = p.header_key ++ k }) rest
parse_name [] q p rest h = rw append-nil (unfold parse in refl)
parse_name (c ∷ k) q p rest h =
    parse_name_byte q p c (k ++ (codes ": " ++ rest)) (ground arith)
    ∙ parse_name k q (record p { header_key = push_back p.header_key c }) rest (ground arith)
    ∙ rw append_assoc

parse_value :
    (v : Bytes) (q : Request) (p : Parser) (rest : Bytes)
    → all is_value_byte v ≡ true
    → parse q (record p { state = header_value }) (v ++ (crlf ++ rest))
      ≡ parse q (record p { state = header_line_start; header_val = p.header_val ++ v }) rest
parse_value [] q p rest h = rw append-nil (unfold parse in refl)
parse_value (c ∷ v) q p rest h =
    parse_value_byte q p c (v ++ (crlf ++ rest)) (ground arith)
    ∙ parse_value v q (record p { header_val = push_back p.header_val c }) rest (ground arith)
    ∙ rw append_assoc

pub parse_name_start :
    (c : ℕ) (q q' : Request) (p p' : Parser) (rest : Bytes)
    → refused c ≡ false
    → commit_header q (record p { state = header_line_start }) ≡ ok (q', p')
    → parse q (record p { state = header_line_start }) (c ∷ rest)
      ≡ parse q' (record p' { state = header_name; header_key = c ∷ []; header_val = [] }) rest
unfolding parse
parse_name_start c q q' p p' rest h e =
    ground (arith, e, refused_blank c, refused_tab c, refused_return c)

-- The rest of a header line, behind the first byte of the name
pub parse_header_rest :
    (c : ℕ) (k v : Bytes) (q : Request) (p : Parser) (rest : Bytes)
    → all is_token_byte k ≡ true
    → all is_value_byte v ≡ true
    → parse q
        (record p { state = header_name; header_key = c ∷ []; header_val = [] })
        (k ++ (codes ": " ++ (v ++ (crlf ++ rest))))
      ≡ parse q (record p { state = header_line_start; header_key = c ∷ k; header_val = v }) rest
parse_header_rest c k v q p rest h g =
    parse_name k q (record p { header_key = c ∷ []; header_val = [] }) (v ++ (crlf ++ rest)) h
    ∙ parse_value v q (record p { header_key = c ∷ k; header_val = [] }) rest g

-- One header line, where a header may be pending
pub parse-header :
    (k v : Bytes) (q q' : Request) (p p' : Parser) (rest : Bytes)
    → IsName k
    → all is_value_byte v ≡ true
    → commit_header q (record p { state = header_line_start }) ≡ ok (q', p')
    → parse q (record p { state = header_line_start }) (k ++ (codes ": " ++ (v ++ (crlf ++ rest))))
      ≡ parse q' (record p' { state = header_line_start; header_key = k; header_val = v }) rest
parse-header [] v q q' p p' rest (ne, h) g e = absurd (ne refl)
parse-header (c ∷ k) v q q' p p' rest (_, h) g e =
    parse_name_start c q q' p p' (k ++ (codes ": " ++ (v ++ (crlf ++ rest)))) (ground arith) e
    ∙ parse_header_rest c k v q' p' rest (ground arith) g

-- The method of a request line
pub parse-method_name :
    (m : Method) (rest : Bytes)
    → m ≢ invalid
    → parse empty_request initial (method_name m ++ (b' ' ∷ rest))
      ≡ parse empty_request (record initial { state = uri; method_str = method_name m }) rest
unfolding parse refused is_tspecial
parse-method_name get rest h = refl
parse-method_name post rest h = refl
parse-method_name put rest h = refl
parse-method_name head rest h = refl
parse-method_name invalid rest h = absurd (h refl)

method_of-method_name : (m : Method) → m ≢ invalid → method_of (method_name m) ≡ m
unfolding method_of
method_of-method_name get h = refl
method_of-method_name post h = refl
method_of-method_name put h = refl
method_of-method_name head h = refl
method_of-method_name invalid h = absurd (h refl)

pub parse-method :
    (m : Method) (rest : Bytes)
    → m ≢ invalid
    → (s : Bytes) × (method_of s ≡ m)
      × (parse empty_request initial (method_name m ++ (b' ' ∷ rest))
          ≡ parse empty_request (record initial { state = uri; method_str = s }) rest)
parse-method m rest h = (method_name m, method_of-method_name m h, parse-method_name m rest h)
