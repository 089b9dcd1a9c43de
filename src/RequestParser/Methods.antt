-- ===== src/RequestParser/Methods.antt =====
-- src/request_parser.cc: the method of a request is set at its end alone.
use web_server_development.Prelude.{
  ℕ, [], ◌∷◌, ◌≡◌, refl, ◌∙◌, ap, Result, ok, throws, ◌>>=◌, >>=-eq-ok, arith, Result-cases, inl,
  inr,
}
use web_server_development.Text.{Bytes}
use web_server_development.Text.Numbers.{stoi}
use web_server_development.Request.{Request, Method}
use web_server_development.RequestParser.{
  State, method_start, header_line_start, expecting_newline_3, body, Parser, Parsed, Consumed, good,
  bad, indeterminate, consume_in, consume, conclude, commit_header, end_headers, start_header,
  decrement, parse,
}
use web_server_development.RequestParser.Chunks.{after, parse_step}
use web_server_development.RequestParser.Endings.{cleared}
use web_server_development.RequestParser.Bounds.{conclude_bad-ne-good, parse_end-ne-good}

abbrev pub set_method : Method → Request → Request
set_method m q = record q { method = m }

abbrev retagged : Method → Result Consumed → Result Consumed
retagged m (throws e) = throws e
retagged m (ok (r, q, p)) = ok (r, set_method m q, p)

abbrev committed : Method → Result (Request × Parser) → Result (Request × Parser)
committed m (throws e) = throws e
committed m (ok (q, p)) = ok (set_method m q, p)

commit_header-set_method :
    (m : Method) (q : Request) (p : Parser)
    → commit_header (set_method m q) p ≡ committed m (commit_header q p)
unfolding commit_header
commit_header-set_method m q p = elim (Result-cases (stoi p.header_val)) [
  | inl (f, failed) ↦ ground arith
  | inr (n, read) ↦ ground arith
]

end_headers-set_method :
    (m : Method) (q : Request) (p : Parser) (c : ℕ)
    → end_headers (set_method m q) p c ≡ retagged m (end_headers q p c)
unfolding end_headers
end_headers-set_method m q p c = ground arith

start_header-set_method :
    (m : Method) (q : Request) (p : Parser) (c : ℕ)
    → start_header (set_method m q) p c ≡ retagged m (start_header q p c)
unfolding start_header
start_header-set_method m q p c = elim (Result-cases (commit_header q p)) [
  | inl (f, failed) ↦ rw (commit_header-set_method m q p, failed) refl
  | inr ((q', p'), done) ↦ rw (commit_header-set_method m q p, done) refl
]

consume_in-set_method :
    (s : State) (m : Method) (q : Request) (p : Parser) (c : ℕ)
    → consume_in s (set_method m q) p c ≡ retagged m (consume_in s q p c)
unfolding consume_in
consume_in-set_method method_start m q p c = ground arith
consume_in-set_method header_line_start m q p c = ground (arith, start_header-set_method m q p c)
consume_in-set_method expecting_newline_3 m q p c = elim (Result-cases (commit_header q p)) [
  | inl (f, failed) ↦ rw (commit_header-set_method m q p, failed) refl
  | inr ((q', p'), done) ↦
      rw (commit_header-set_method m q p, done) (end_headers-set_method m q' (cleared p p') c)
]
consume_in-set_method body m q p c = elim (Result-cases (decrement p.body_length)) [
  | inl (f, failed) ↦ rw failed refl
  | inr (n, counted) ↦ rw counted (ground arith)
]
consume_in-set_method _ m q p c = ground arith

conclude-set_method :
    (m : Method) (q : Request) (p : Parser) (cs : Bytes)
    → conclude good (set_method m q) p cs ≡ conclude good q p cs
unfolding conclude
conclude-set_method m q p cs = refl

after-set_method :
    (m : Method) (cs : Bytes) (t : Consumed) {r : Parsed}
    → ((q : Request) (p : Parser) → parse q p cs ≡ ok r → parse (set_method m q) p cs ≡ ok r)
    → after cs t ≡ ok r
    → r.result ≡ good
    → (retagged m (ok t) >>= after cs) ≡ ok r
after-set_method m cs (indeterminate, q, p) ih e k = ih q p e
after-set_method m cs (good, q, p) ih e k = ap ok (conclude-set_method m q p cs) ∙ e
after-set_method m cs (bad, q, p) {r} ih e k =
    let same : conclude bad q p cs ≡ r = cc in absurd (conclude_bad-ne-good q p cs (rw same k))

-- Where `parse` completes a request, the method that the request had before does not matter.
pub parse-set_method :
    (m : Method) (xs : Bytes) (q : Request) (p : Parser) {r : Parsed}
    → parse q p xs ≡ ok r
    → r.result ≡ good
    → parse (set_method m q) p xs ≡ ok r
parse-set_method m [] q p e k = absurd (parse_end-ne-good q p e k)
parse-set_method m (x ∷ xs) q p e k =
    let (t, s, later) = >>=-eq-ok (consume q p x) (after xs) (rw parse_step at e) in
    rw (parse_step, consume_in-set_method p.state m q p x, s)
      (after-set_method m xs t (λ q' p' h. parse-set_method m xs q' p' h k) later k)
