-- ===== src/RequestParser/Endings.antt =====
-- How the parser ends a request: the empty line and the body.
use web_server_development.Prelude.{
  ℕ, suc, [], ◌∷◌, ◌++◌, ◌≡◌, refl, sym, subst, ◌>>=◌, Result, ok, arith, append-nil, append_assoc,
  if◌then◌else◌, length,
}
use web_server_development.Prelude.Int.{ℤ, pos, is_zero}
use web_server_development.Text.{Bytes, push_back, is_empty}
use web_server_development.Request.{Request}
use web_server_development.RequestParser.{
  header_line_start, expecting_newline_3, body, Parser, Parsed, Consumed, good, indeterminate,
  conclude, end_headers, commit_header, decrement, method_of, parse,
}
use web_server_development.Response.{crlf}
use web_server_development.RequestParser.Chunks.{after}

-- `parse` comes to `good` at the end of its input, with the request `q`.
pub record Accepts (outcome : Result Parsed) (q : Request) : Type 0 where
  pub parsed : Parsed
  pub outcome_is : outcome ≡ ok parsed
  pub result_is : parsed.result ≡ good
  pub rest_is : parsed.rest ≡ []
  pub body_len_is : parsed.body_len ≡ pos 0
  pub req_is : parsed.req ≡ q

pub parse_body_byte :
    (n c : ℕ) (rest : Bytes) (q : Request) (p : Parser)
    → parse q (record p { state = body; body_length = pos (suc (suc n)) }) (c ∷ rest)
      ≡ parse
          (record q { body = push_back q.body c })
          (record p { state = body; body_length = pos (suc n) })
          rest
unfolding parse decrement
parse_body_byte n c rest q p = ground arith

conclude_good-Accepts :
    (q : Request) (p : Parser)
    → p.body_length ≡ pos 0
    → Accepts (ok (conclude good q p [])) (record q { method = method_of p.method_str })
unfolding conclude
conclude_good-Accepts q p e = record {
  parsed = conclude good q p [];
  outcome_is = refl;
  result_is = ground arith;
  rest_is = refl;
  body_len_is = e;
  req_is = refl;
}

pub parse_body_end :
    (c : ℕ) (q : Request) (p : Parser)
    → Accepts
        (parse q (record p { state = body; body_length = pos 1 }) (c ∷ []))
        (record q { body = push_back q.body c; method = method_of p.method_str })
unfolding parse decrement
parse_body_end c q p =
    conclude_good-Accepts (record q { body = push_back q.body c })
      (record p { state = body; body_length = pos 0 }) refl

-- A body of the announced length ends the request.
pub parse-body :
    (c : ℕ) (cs : Bytes) (q : Request) (p : Parser)
    → Accepts
        (parse q (record p { state = body; body_length = pos (length (c ∷ cs)) }) (c ∷ cs))
        (record q { body = q.body ++ c ∷ cs; method = method_of p.method_str })
parse-body c [] q p = parse_body_end c q p
parse-body c (d ∷ cs) q p =
    rw parse_body_byte
      (rw append_assoc at (parse-body d cs (record q { body = push_back q.body c }) p))

abbrev pub at_line_feed : ℤ → Request → Parser → Result Consumed
at_line_feed z q p =
    if is_zero z then ok (good, q, p) else ok (indeterminate, q, record p { state = body })

pub at_line_feed-suc :
    (n : ℕ) (q : Request) (p : Parser)
    → at_line_feed (pos (suc n)) q p ≡ ok (indeterminate, q, record p { state = body })
at_line_feed-suc n q p = ground arith

-- The line feed behind the headers, once a pending header is committed
end_headers-Accepts :
    (b : Bytes) (q : Request) (p : Parser)
    → p.body_length ≡ pos (length b)
    → Accepts
        (end_headers q p b'\n' >>= after b)
        (record q { body = q.body ++ b; method = method_of p.method_str })
unfolding end_headers
end_headers-Accepts [] q p e = rw append-nil (
    subst
      (λ z.
        Accepts (at_line_feed z q p >>= after []) (record q { method = method_of p.method_str }))
      (sym e) (conclude_good-Accepts q p e))
end_headers-Accepts (c ∷ cs) q p e =
    let q' = record q { body = q.body ++ c ∷ cs; method = method_of p.method_str } in
    subst (λ z. Accepts (at_line_feed z q p >>= after (c ∷ cs)) q') (sym e)
      (rw (at_line_feed-suc (length cs) q p) (
        subst (λ z. Accepts (parse q (record p { state = body; body_length = z }) (c ∷ cs)) q')
          (sym e) (parse-body c cs q p)))

abbrev pub cleared : Parser → Parser → Parser
cleared p p' = if is_empty p.header_key then p' else record p' { header_key = []; header_val = [] }

pub parse_line_feed :
    (b : Bytes) (q q' : Request) (p p' : Parser)
    → commit_header q (record p { state = expecting_newline_3 }) ≡ ok (q', p')
    → parse q (record p { state = header_line_start }) (crlf ++ b)
      ≡ (end_headers q' (cleared p p') b'\n' >>= after b)
unfolding parse
parse_line_feed b q q' p p' e = rw (e, parse)

-- The end of the headers, where a header may be pending
pub parse_end :
    (b : Bytes) (q q' : Request) (p p' : Parser)
    → commit_header q (record p { state = expecting_newline_3 }) ≡ ok (q', p')
    → p'.body_length ≡ pos (length b)
    → Accepts
        (parse q (record p { state = header_line_start }) (crlf ++ b))
        (record q' { body = q'.body ++ b; method = method_of p'.method_str })
parse_end b q q' p p' e n =
    let kept : (cleared p p').method_str ≡ p'.method_str = ground arith in
    rw (parse_line_feed b q q' p p' e) (
      subst
        (λ t.
          Accepts (end_headers q' (cleared p p') b'\n' >>= after b)
            (record q' { body = q'.body ++ b; method = method_of t }))
        kept (end_headers-Accepts b q' (cleared p p') (ground arith)))
