-- ===== src/RequestParser/Cuts.antt =====
-- The text of a request, as the echo handler writes it, cut anywhere.
use web_server_development.Prelude.{
  ℕ, true, false, none, [], ◌∷◌, ◌++◌, ◌≡◌, refl, ◌≢◌, ◌∙◌, subst, ok, throws, arith, all, All,
  append_assoc, all-append, inl, inr, Bool-cases, Result-cases, length,
}
use web_server_development.Prelude.Int.{pos, below}
use web_server_development.Text.{Bytes, codes, equal}
use web_server_development.Text.Laws.{equal_iff}
use web_server_development.Text.Numbers.{stoi}
use web_server_development.StdMap.{StdMap, find}
use web_server_development.StdMap.Laws.{find-Above, IsSorted}
use web_server_development.Request.{Request, Method, get, empty_request, invalid}
use web_server_development.RequestParser.{
  header_line_start, expecting_newline_3, header_name, Parser, initial, content_length,
  commit_header, parse, refused, is_digit,
}
use web_server_development.RequestParser.WellFormed.{
  IsHeader, IsName, IsWellFormed, is_value_byte, is_token_byte, is_uri_byte, IsVersion,
}
use web_server_development.RequestParser.Runs.{
  parse_header_rest, parse-method_name, parse-uri, parse-version,
}
use web_server_development.RequestParser.Reparse.{
  AnnouncesBody, announced, announced-find-none, announced_nil, commit_header-Commits,
  header_lines-append, header_lines_nil, commit_nothing, AnnouncesBody-announced,
}
use web_server_development.RequestParser.Unsigned.{
  StaysUnsigned, StaysUnsigned-line, StaysUnsigned-header_start, StaysUnsigned-end, is_in_line,
}
use web_server_development.Response.{header_lines, crlf}
use web_server_development.Handlers.Echo.{method_name, echo_text}

-- The length that a header announces is the body's, and so not negative.
commit_header-unsigned :
    (q q' : Request) (p p' : Parser) (m : StdMap Bytes) {total : ℕ}
    → IsSorted ((p.header_key, p.header_val) ∷ m)
    → announced p.body_length ((p.header_key, p.header_val) ∷ m) ≡ ok (pos total)
    → below p.body_length 0 ≡ false
    → commit_header q p ≡ ok (q', p')
    → below p'.body_length 0 ≡ false
unfolding commit_header announced
commit_header-unsigned q q' p p' m {total} (a, s) says n e =
    elim (Bool-cases (equal p.header_key content_length)) [
      | inl same ↦
          let absent : find content_length m ≡ none =
            subst (λ j. find j m ≡ none) ((equal_iff p.header_key content_length).0 same)
              (find-Above p.header_key m a) in
          elim (Result-cases (stoi p.header_val)) [
            | inl (f, failed) ↦ let never : throws f ≡ ok (pos total) = ground arith in cc
            | inr (z, read) ↦
                let ahead : announced z m ≡ ok (pos total) = ground arith in
                let length_is : z ≡ pos total = cc (announced-find-none z m absent, ahead) in
                ground (arith, length_is)
          ]
      | inr other ↦ ground arith
    ]

-- The rest of a header line, in front of its line feed
abbrev rest_of_line : Bytes → Bytes → Bytes
rest_of_line k v = k ++ (codes ": " ++ (v ++ b'\r' ∷ []))

token_in_line : (k : Bytes) → all is_token_byte k ≡ true → all is_in_line k ≡ true
unfolding refused
token_in_line [] h = refl
token_in_line (c ∷ k) h = ground (arith, token_in_line k)

value_in_line : (v : Bytes) → all is_value_byte v ≡ true → all is_in_line v ≡ true
value_in_line [] h = refl
value_in_line (c ∷ v) h = ground (arith, value_in_line v)

rest_of_line_in_line :
    (k v : Bytes)
    → all is_token_byte k ≡ true
    → all is_value_byte v ≡ true
    → all is_in_line (rest_of_line k v) ≡ true
rest_of_line_in_line k v h g =
    rw (all-append is_in_line k, token_in_line k h, all-append is_in_line v, value_in_line v g) refl

line_is :
    (k v rest : Bytes)
    → rest_of_line k v ++ (b'\n' ∷ rest) ≡ k ++ (codes ": " ++ (v ++ (crlf ++ rest)))
line_is k v rest = simp append_assoc

-- One header line, where a header may be pending
StaysUnsigned-header :
    (k v rest : Bytes) (q q' : Request) (p p' : Parser)
    → IsName k
    → all is_value_byte v ≡ true
    → commit_header q (record p { state = header_line_start }) ≡ ok (q', p')
    → below p.body_length 0 ≡ false
    → below p'.body_length 0 ≡ false
    → StaysUnsigned q'
        (record p' { state = header_line_start; header_key = k; header_val = v })
        rest
    → StaysUnsigned q
        (record p { state = header_line_start })
        (k ++ (codes ": " ++ (v ++ (crlf ++ rest))))
StaysUnsigned-header [] v rest q q' p p' (ne, h) g e n n' later = absurd (ne refl)
StaysUnsigned-header (c ∷ k) v rest q q' p p' (_, h) g e n n' later =
    let begun = record p' { state = header_name; header_key = c ∷ []; header_val = [] } in
    let named = record p' { state = header_line_start; header_key = c ∷ k; header_val = v } in
    let tokens : all is_token_byte k ≡ true = ground arith in
    let behind : StaysUnsigned q' begun (rest_of_line k v ++ (b'\n' ∷ rest)) =
      StaysUnsigned-line (rest_of_line k v) rest q' q' begun named refl
        (rest_of_line_in_line k v tokens g) n'
        (λ more. rw line_is (parse_header_rest c k v q' p' more tokens g)) later in
    StaysUnsigned-header_start c (k ++ (codes ": " ++ (v ++ (crlf ++ rest)))) q q' p p'
      (ground arith) e n (rw line_is at behind)

-- The headers and the body, where a header is pending
StaysUnsigned-header_lines :
    (m : StdMap Bytes) (b : Bytes) (q : Request) (p : Parser)
    → p.header_key ≢ []
    → All IsHeader m
    → IsSorted (q.headers ++ (p.header_key, p.header_val) ∷ m)
    → IsSorted ((p.header_key, p.header_val) ∷ m)
    → announced p.body_length ((p.header_key, p.header_val) ∷ m) ≡ ok (pos (length b))
    → below p.body_length 0 ≡ false
    → StaysUnsigned q (record p { state = header_line_start }) (header_lines m ++ (crlf ++ b))
StaysUnsigned-header_lines [] b q p ne h s own a n =
    let c = commit_header-Commits q (record p { state = expecting_newline_3 }) [] ne s a in
    rw header_lines_nil (StaysUnsigned-end b q _ p _ c.commits n (announced_nil c.next c.announces))
StaysUnsigned-header_lines ((k, v) ∷ m) b q p ne ((name, clean), h) s own a n =
    let c = commit_header-Commits q (record p { state = header_line_start }) ((k, v) ∷ m) ne s a in
    let n' =
      commit_header-unsigned q _ (record p { state = header_line_start }) _ ((k, v) ∷ m) own a n
        c.commits in
    let q' = record q { headers = q.headers ++ (p.header_key, p.header_val) ∷ [] } in
    let p' = record p { body_length = c.next; header_key = k; header_val = v } in
    rw header_lines-append (
      StaysUnsigned-header k v (header_lines m ++ (crlf ++ b)) q q' p _ name clean c.commits n n'
        (StaysUnsigned-header_lines m b q' p' name.0 h (rw append_assoc s) own.1 c.announces n'))

-- The same where no header is pending
StaysUnsigned-All_headers :
    (m : StdMap Bytes) (b : Bytes) (q : Request) (p : Parser)
    → All IsHeader m
    → IsSorted m
    → announced p.body_length m ≡ ok (pos (length b))
    → below p.body_length 0 ≡ false
    → StaysUnsigned
        (record q { headers = [] })
        (record p { state = header_line_start; header_key = [] })
        (header_lines m ++ (crlf ++ b))
StaysUnsigned-All_headers [] b q p h s a n =
    let blank = record q { headers = [] } in
    let p' = record p { state = expecting_newline_3; header_key = [] } in
    rw header_lines_nil (
      StaysUnsigned-end b blank blank p' p' (commit_nothing blank p' refl) n
        (announced_nil p.body_length a))
StaysUnsigned-All_headers ((k, v) ∷ m) b q p ((name, clean), h) s a n =
    let blank = record q { headers = [] } in
    let p' = record p { state = header_line_start; header_key = [] } in
    let p'' = record p { header_key = k; header_val = v } in
    rw header_lines-append (
      StaysUnsigned-header k v (header_lines m ++ (crlf ++ b)) blank blank p' p' name clean
        (commit_nothing blank p' refl) n n
        (StaysUnsigned-header_lines m b blank p'' name.0 h s s a n))

uri_in_line : (u : Bytes) → all is_uri_byte u ≡ true → all is_in_line u ≡ true
uri_in_line [] h = refl
uri_in_line (c ∷ u) h = ground (arith, uri_in_line u)

digits_in_line : (d : Bytes) → all is_digit d ≡ true → all is_in_line d ≡ true
digits_in_line [] h = refl
digits_in_line (c ∷ d) h = ground (arith, digits_in_line d)

version_in_line : (v : Bytes) → IsVersion v → all is_in_line v ≡ true
version_in_line v i =
    rw
      (
        i.version_is,
        all-append is_in_line i.major,
        digits_in_line i.major i.major_IsDigits.1,
        digits_in_line i.minor i.minor_IsDigits.1,
      )
      refl

method_in_line : (m : Method) → all is_in_line (method_name m) ≡ true
method_in_line get = refl
method_in_line _ = refl

-- The request line, in front of its line feed
abbrev request_line : Request → Bytes
request_line q = method_name q.method ++ (b' ' ∷ (q.uri ++ (b' ' ∷ (q.version ++ b'\r' ∷ []))))

request_line_in_line : (q : Request) → IsWellFormed q → all is_in_line (request_line q) ≡ true
request_line_in_line q w =
    rw
      (
        all-append is_in_line (method_name q.method),
        method_in_line q.method,
        all-append is_in_line q.uri,
        uri_in_line q.uri w.uri_clean,
        all-append is_in_line q.version,
        version_in_line q.version w.version_IsVersion,
      )
      refl

request_line_is :
    (q : Request) (rest : Bytes)
    → request_line q ++ (b'\n' ∷ rest)
      ≡ method_name q.method ++ (b' ' ∷ (q.uri ++ (b' ' ∷ (q.version ++ (crlf ++ rest)))))
request_line_is q rest = simp append_assoc

parse-request_line :
    (q : Request) (rest : Bytes)
    → IsWellFormed q
    → q.method ≢ invalid
    → parse empty_request initial (request_line q ++ (b'\n' ∷ rest))
      ≡ parse
          (record empty_request { uri = q.uri; version = q.version })
          (record initial { state = header_line_start; method_str = method_name q.method })
          rest
parse-request_line q rest w m =
    let p = record initial { method_str = method_name q.method } in
    rw (request_line_is, parse-method_name q.method _ m)
      (parse-uri q.uri empty_request p (q.version ++ (crlf ++ rest)) w.uri_clean
        ∙ parse-version (record empty_request { uri = q.uri }) p rest w.version_IsVersion)

-- Wherever the text of a well-formed request is cut, the parser that reads up to there has no
-- negative `body_length`.
pub echo_text-StaysUnsigned :
    (q : Request)
    → IsWellFormed q
    → q.method ≢ invalid
    → AnnouncesBody q
    → StaysUnsigned empty_request initial (echo_text q)
unfolding echo_text
echo_text-StaysUnsigned q w m a =
    let named = record initial { method_str = method_name q.method } in
    let begun = record empty_request { uri = q.uri; version = q.version } in
    rw request_line_is at (
      StaysUnsigned-line (request_line q) (header_lines q.headers ++ (crlf ++ q.body)) empty_request
        begun initial (record named { state = header_line_start }) refl (request_line_in_line q w)
        refl (λ more. parse-request_line q more w m)
        (StaysUnsigned-All_headers q.headers q.body begun named w.headers_IsHeader
          w.headers_IsSorted (AnnouncesBody-announced q w.headers_IsSorted a) refl))
