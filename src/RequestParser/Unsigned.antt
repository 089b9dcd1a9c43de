-- ===== src/RequestParser/Unsigned.antt =====
-- src/request_parser.cc: `body_length` over the lines of a request.
use web_server_development.Prelude.{
  ℕ, zero, suc, ◌+◌, ◌≤◌, Bool, true, false, not, [], ◌∷◌, ◌++◌, ◌≡◌, refl, ◌∙◌, ◌⊎◌, inl, inr,
  Result, ok, throws, ◌>>=◌, >>=-eq-ok, arith, all, ◌==◌, ap, sym, append-nil, append_assoc, length,
  length-append,
}
use web_server_development.Prelude.Int.{ℤ, pos, below}
use web_server_development.Text.{Bytes, push_back}
use web_server_development.Request.{Request}
use web_server_development.RequestParser.{
  State, method_start, header_line_start, header_name, expecting_newline_3, body, Parser, Parsed,
  Consumed, ResultType, good, bad, indeterminate, consume_in, consume, conclude, end_headers,
  commit_header, refused, parse,
}
use web_server_development.Response.{crlf}
use web_server_development.RequestParser.Chunks.{after, parse_step, parse-append, parse_later}
use web_server_development.RequestParser.Bounds.{parse-InBounds}
use web_server_development.RequestParser.Runs.{parse_name_start}
use web_server_development.RequestParser.Endings.{
  parse_body_byte, parse_body_end, parse_line_feed, cleared, at_line_feed-suc,
}

-- Wherever the text is cut, the parser that reads up to there has no negative `body_length`.
abbrev pub StaysUnsigned : Request → Parser → Bytes → Type 0
StaysUnsigned q p text =
    (xs ys : Bytes) (h : Parsed)
    → text ≡ xs ++ ys
    → parse q p xs ≡ ok h
    → below h.body_len 0 ≡ false

-- The states in which a header is not committed, and behind which no header is for a line
abbrev is_quiet : State → Bool
is_quiet header_line_start = false
is_quiet expecting_newline_3 = false
is_quiet body = false
is_quiet _ = true

abbrev pub is_in_line : ℕ → Bool
is_in_line c = not (c == b'\n')

abbrev Keeps : ℤ → Result Consumed → Type 0
Keeps n (ok (r, q, p)) = (p.body_length ≡ n) × (is_quiet p.state ≡ true)
Keeps n (throws e) = Unit

consume_in-Keeps :
    (s : State) (q : Request) (p : Parser) (c : ℕ)
    → p.state ≡ s
    → is_quiet s ≡ true
    → is_in_line c ≡ true
    → Keeps p.body_length (consume_in s q p c)
unfolding consume_in
consume_in-Keeps method_start q p c e h l = ground arith
consume_in-Keeps _ q p c e h l = ground arith

conclude-body_len :
    (r : ResultType) (q : Request) (p : Parser) (cs : Bytes)
    → (conclude r q p cs).body_len ≡ p.body_length
unfolding conclude
conclude-body_len r q p cs = refl

after-Keeps :
    (cs : Bytes) (n : ℤ) (t : Consumed) {h : Parsed}
    → ((q : Request) (p : Parser)
        → is_quiet p.state ≡ true
        → parse q p cs ≡ ok h
        → h.body_len ≡ p.body_length)
    → Keeps n (ok t)
    → after cs t ≡ ok h
    → h.body_len ≡ n
after-Keeps cs n (indeterminate, q, p) ih (same, quiet) e = ih q p quiet e ∙ same
after-Keeps cs n (good, q, p) {h} ih (same, quiet) e = let b = conclude-body_len good q p cs in cc
after-Keeps cs n (bad, q, p) {h} ih (same, quiet) e = let b = conclude-body_len bad q p cs in cc

-- Within a line `body_length` does not change.
parse-quiet :
    (xs : Bytes) (q : Request) (p : Parser) {h : Parsed}
    → is_quiet p.state ≡ true
    → all is_in_line xs ≡ true
    → parse q p xs ≡ ok h
    → h.body_len ≡ p.body_length
parse-quiet [] q p quiet l e = unfold parse in cc e
parse-quiet (x ∷ xs) q p quiet l e =
    let (t, s, later) = >>=-eq-ok (consume q p x) (after xs) (rw parse_step at e) in
    after-Keeps xs p.body_length t (λ q' p' k e'. parse-quiet xs q' p' k (ground arith) e')
      (rw s at (consume_in-Keeps p.state q p x refl quiet (ground arith))) later

-- A line is cut within it, or behind it.
cut_line :
    (line rest xs ys : Bytes)
    → all is_in_line line ≡ true
    → line ++ (b'\n' ∷ rest) ≡ xs ++ ys
    → (all is_in_line xs ≡ true)
      ⊎ ((zs : Bytes) × ((xs ≡ line ++ (b'\n' ∷ zs)) × (rest ≡ zs ++ ys)))
cut_line line rest [] ys l e = inl refl
cut_line [] rest (x ∷ xs) ys l e = inr (xs, (cc e, cc e))
cut_line (c ∷ line) rest (x ∷ xs) ys l e =
    let same : c ≡ x = cc e in
    let behind : line ++ (b'\n' ∷ rest) ≡ xs ++ ys = cc e in
    elim (cut_line line rest xs ys (ground arith) behind) [
      | inl inside ↦ inl (ground (arith, same))
      | inr (zs, (begins, ends)) ↦ inr (zs, (cc (same, begins), ends))
    ]

-- One line, and what is behind it
pub StaysUnsigned-line :
    (line rest : Bytes) (q q' : Request) (p p' : Parser)
    → is_quiet p.state ≡ true
    → all is_in_line line ≡ true
    → below p.body_length 0 ≡ false
    → ((more : Bytes) → parse q p (line ++ (b'\n' ∷ more)) ≡ parse q' p' more)
    → StaysUnsigned q' p' rest
    → StaysUnsigned q p (line ++ (b'\n' ∷ rest))
StaysUnsigned-line line rest q q' p p' quiet l n reads later xs ys h cut e =
    elim (cut_line line rest xs ys l cut) [
      | inl inside ↦ rw (parse-quiet xs q p quiet inside e) n
      | inr (zs, (begins, ends)) ↦ later zs ys h ends (cc (reads zs, begins, e))
    ]

-- The first byte of a header commits the header before.
pub StaysUnsigned-header_start :
    (c : ℕ) (text : Bytes) (q q' : Request) (p p' : Parser)
    → refused c ≡ false
    → commit_header q (record p { state = header_line_start }) ≡ ok (q', p')
    → below p.body_length 0 ≡ false
    → StaysUnsigned q'
        (record p' { state = header_name; header_key = c ∷ []; header_val = [] })
        text
    → StaysUnsigned q (record p { state = header_line_start }) (c ∷ text)
StaysUnsigned-header_start c text q q' p p' clean commits n later [] ys h cut e =
    unfold parse in ground arith
StaysUnsigned-header_start c text q q' p p' clean commits n later (x ∷ xs) ys h cut e =
    let same : c ≡ x = cc cut in
    let started = parse_name_start c q q' p p' xs clean commits in
    later xs ys h (cc cut) (cc (started, same, e))

-- The body, as far as it was announced
parse_body-unsigned :
    (xs : Bytes) (n : ℕ) (q : Request) (p : Parser) {h : Parsed}
    → length xs ≤ n
    → parse q (record p { state = body; body_length = pos n }) xs ≡ ok h
    → below h.body_len 0 ≡ false
parse_body-unsigned [] n q p le e = unfold parse in ground arith
parse_body-unsigned (x ∷ xs) zero q p le e = absurd (omega (arith, le))
parse_body-unsigned (x ∷ []) (suc zero) q p {h} le e =
    let a = parse_body_end x q p in
    let same : a.parsed ≡ h = cc (a.outcome_is, e) in
    let none_left : h.body_len ≡ pos 0 = cc (same, a.body_len_is) in rw none_left refl
parse_body-unsigned (x ∷ y ∷ xs) (suc zero) q p le e = absurd (omega (arith, le))
parse_body-unsigned (x ∷ xs) (suc (suc n)) q p le e =
    parse_body-unsigned xs (suc n) (record q { body = push_back q.body x }) p (omega arith)
      (rw parse_body_byte at e)

-- The line feed behind the headers, and what follows of the body
end_headers-unsigned :
    (xs : Bytes) (n : ℕ) (q : Request) (p : Parser) {h : Parsed}
    → length xs ≤ n
    → p.body_length ≡ pos n
    → (end_headers q p b'\n' >>= after xs) ≡ ok h
    → below h.body_len 0 ≡ false
unfolding end_headers
end_headers-unsigned xs zero q p {h} le z e =
    let done : ok (conclude good q (record p { body_length = pos 0 }) xs) ≡ ok h = rw z at e in
    let none_left : h.body_len ≡ pos 0 =
      cc (conclude-body_len good q (record p { body_length = pos 0 }) xs, done) in
    rw none_left refl
end_headers-unsigned xs (suc n) q p {h} le z e =
    let more : parse q (record p { state = body; body_length = pos (suc n) }) xs ≡ ok h =
      rw at_line_feed-suc at (rw z at e) in
    parse_body-unsigned xs (suc n) q p le more

-- The empty line and the body
pub StaysUnsigned-end :
    (b : Bytes) (q q' : Request) (p p' : Parser)
    → commit_header q (record p { state = expecting_newline_3 }) ≡ ok (q', p')
    → below p.body_length 0 ≡ false
    → p'.body_length ≡ pos (length b)
    → StaysUnsigned q (record p { state = header_line_start }) (crlf ++ b)
StaysUnsigned-end b q q' p p' commits n z [] ys h cut e = unfold parse in ground arith
StaysUnsigned-end b q q' p p' commits n z (c ∷ []) ys h cut e =
    let first : c ≡ b'\r' = cc cut in unfold parse in ground (arith, first)
StaysUnsigned-end b q q' p p' commits n z (c ∷ d ∷ xs) ys h cut e =
    let first : c ≡ b'\r' = cc cut in
    let second : d ≡ b'\n' = cc cut in
    let behind : b ≡ xs ++ ys = cc cut in
    let long : length b ≡ length xs + length ys = ap length behind ∙ length-append xs ys in
    let kept : (cleared p p').body_length ≡ p'.body_length = ground arith in
    end_headers-unsigned xs (length b) q' (cleared p p') {h = h} (omega (arith, long)) (kept ∙ z)
      (cc (parse_line_feed xs q q' p p' commits, first, second, e))

-- Behind a first part, of an input that `parse` reads whole
pub StaysUnsigned-half :
    (xs : Bytes) (y : ℕ) (ys : Bytes) (q : Request) (p : Parser) {r : Parsed} (h : Parsed)
    → parse q p (xs ++ y ∷ ys) ≡ ok r
    → r.rest ≡ []
    → parse q p xs ≡ ok h
    → StaysUnsigned q p (xs ++ y ∷ ys)
    → StaysUnsigned h.req h.parser (y ∷ ys)
StaysUnsigned-half xs y ys q p {r} h e d eh u [] vs g cut eg =
    let same : g.body_len ≡ h.body_len =
      unfold parse in cc (eg, (parse-InBounds xs q p eh).length_is) in
    rw same (u xs (y ∷ ys) h refl eh)
StaysUnsigned-half xs y ys q p {r} h e d eh u (z ∷ zs) [] g cut eg =
    let (i, k, later) = parse_later xs y ys q p e d eh in
    let same : r ≡ g = cc (later, cut, eg, append-nil zs) in
    u (xs ++ y ∷ ys) [] g (sym (append-nil (xs ++ y ∷ ys))) (e ∙ ap ok same)
StaysUnsigned-half xs y ys q p {r} h e d eh u (z ∷ zs) (v ∷ vs) g cut eg =
    let w = parse-append (xs ++ z ∷ zs) v vs q p {r = r} (rw (append_assoc, ← cut) e) d in
    let (i, k, later) = parse_later xs z zs q p w.parsed w.rest_is eh in
    let same : w.half ≡ g = cc (later, eg) in
    u (xs ++ z ∷ zs) (v ∷ vs) g (rw (append_assoc, ← cut) refl) (w.parsed ∙ ap ok same)
