-- ===== src/RequestParser/Reparse.antt =====
-- The text of a request, as the echo handler writes it, is read back as that request.
use web_server_development.Prelude.{
  false, [], ◌∷◌, ◌++◌, none, some, ◌≡◌, refl, ◌≢◌, ◌∙◌, subst, Result, ok, throws, ◌>>=◌,
  Result-cases, Bool-cases, Option-cases, inl, inr, arith, All, append_assoc, if◌then◌else◌, length,
}
use web_server_development.Prelude.Int.{ℤ, pos}
use web_server_development.Text.{Bytes, codes, equal, is_empty}
use web_server_development.Text.Laws.{equal_iff, less_irrefl, less_asymm}
use web_server_development.Text.Numbers.{stoi}
use web_server_development.StdMap.{StdMap, find, insert}
use web_server_development.StdMap.Laws.{find-Above, IsSorted}
use web_server_development.StdMap.Writes.{Above-middle}
use web_server_development.Request.{Request, empty_request, invalid}
use web_server_development.RequestParser.{
  header_line_start, expecting_newline_3, Parser, initial, content_length, commit_header, method_of,
  parse,
}
use web_server_development.RequestParser.WellFormed.{IsHeader, IsWellFormed}
use web_server_development.RequestParser.Runs.{parse-uri, parse-version, parse-header, parse-method}
use web_server_development.RequestParser.Endings.{parse_end, Accepts}
use web_server_development.Response.{header_lines, crlf}
use web_server_development.Handlers.Echo.{echo_text}

-- The Content-Length that the headers announce is the length of the body; without that header
-- there is no body.
abbrev pub AnnouncesBody : Request → Type 0
AnnouncesBody q = elim (find content_length q.headers) [
  | none ↦ q.body ≡ []
  | some v ↦ stoi v ≡ ok (pos (length q.body))
]

-- `body_length` once the headers are committed in turn
unfoldable pub announced : ℤ → StdMap Bytes → Result ℤ
announced n [] = ok n
announced n ((k, v) ∷ m) =
    let rest = announced n m in
    if equal k content_length then (do z ← stoi v; announced z m) else rest

pub announced-find-none :
    (n : ℤ) (m : StdMap Bytes) → find content_length m ≡ none → announced n m ≡ ok n
unfolding find announced
announced-find-none n [] e = refl
announced-find-none n ((k, v) ∷ m) e = ground (arith, announced-find-none n m)

announced_done :
    (w v : Bytes) (m : StdMap Bytes)
    → w ≡ v
    → find content_length m ≡ none
    → (stoi w >>= λ z. announced z m) ≡ stoi v
announced_done w v m e absent = elim (Result-cases (stoi w)) [
  | inl (_, failed) ↦ rw (← e, failed)
  | inr (z, read) ↦ rw (← e, read) (announced-find-none z m absent)
]

announced-find-some :
    (n : ℤ) (m : StdMap Bytes) {v : Bytes}
    → IsSorted m
    → find content_length m ≡ some v
    → announced n m ≡ stoi v
unfolding announced
announced-find-some n [] s e = unfold find in cc
announced-find-some n ((k, w) ∷ m) {v} (a, s) e = elim (Bool-cases (equal k content_length)) [
  | inl same ↦
      let here : w ≡ v = unfold find in ground arith in
      let absent : find content_length m ≡ none =
        subst (λ j. find j m ≡ none) ((equal_iff k content_length).0 same) (find-Above k m a) in
      rw same (announced_done w v m here absent)
  | inr other ↦ rw other (announced-find-some n m s (unfold find in ground arith))
]

insert_last :
    (h : StdMap Bytes) (k v : Bytes) (m : StdMap Bytes)
    → IsSorted (h ++ (k, v) ∷ m)
    → insert k v h ≡ h ++ (k, v) ∷ []
unfolding insert
insert_last [] k v m s = refl
insert_last ((j, w) ∷ h) k v m (a, s) =
    let below = Above-middle j k v h m a in
    ground (arith, below, less_asymm j k below, equal_iff j k, less_irrefl j, insert_last h k v m s)

not_empty : (s : Bytes) → s ≢ [] → is_empty s ≡ false
not_empty [] ne = absurd (ne refl)
not_empty (c ∷ s) ne = refl

-- A pending header that is committed
pub record Commits (q : Request) (p : Parser) (k v : Bytes) (m : StdMap Bytes) (total : ℤ)
    : Type 0 where
  pub next : ℤ
  pub commits :
      commit_header q p
      ≡ ok (record q { headers = q.headers ++ (k, v) ∷ [] }, record p { body_length = next })
  pub announces : announced next m ≡ ok total

pub commit_header-Commits :
    (q : Request) (p : Parser) (m : StdMap Bytes) {total : ℤ}
    → p.header_key ≢ []
    → IsSorted (q.headers ++ (p.header_key, p.header_val) ∷ m)
    → announced p.body_length ((p.header_key, p.header_val) ∷ m) ≡ ok total
    → Commits q p p.header_key p.header_val m total
unfolding commit_header announced
commit_header-Commits q p m {total} ne s a = elim (Bool-cases (equal p.header_key content_length)) [
  | inl same ↦ elim (Result-cases (stoi p.header_val)) [
    | inl (e, failed) ↦ let never : throws e ≡ ok total = ground arith in cc
    | inr (z, read) ↦ record {
      next = z;
      commits = ground (arith, named, last);
      announces = ground arith;
    }
  ]
  | inr other ↦ record {
    next = p.body_length;
    commits = ground (arith, named, last);
    announces = ground arith;
  }
]
  where
    last :
        insert p.header_key p.header_val q.headers ≡ q.headers ++ (p.header_key, p.header_val) ∷ []
    last = insert_last q.headers p.header_key p.header_val m s

    named : is_empty p.header_key ≡ false
    named = not_empty p.header_key ne

pub header_lines_nil : header_lines [] ≡ []
unfolding header_lines
header_lines_nil = refl

pub announced_nil : (n : ℤ) {total : ℤ} → announced n [] ≡ ok total → n ≡ total
unfolding announced
announced_nil n e = ground arith

pub header_lines-append :
    (k v : Bytes) (m : StdMap Bytes) (rest : Bytes)
    → header_lines ((k, v) ∷ m) ++ rest
      ≡ k ++ (codes ": " ++ (v ++ (crlf ++ (header_lines m ++ rest))))
unfolding header_lines
header_lines-append k v m rest = simp append_assoc

-- The request once the pending header and `m` are in and the body `b` is read
abbrev finished : Request → Parser → StdMap Bytes → Bytes → Request
finished q p m b = record q {
  headers = q.headers ++ (p.header_key, p.header_val) ∷ m;
  body = q.body ++ b;
  method = method_of p.method_str;
}

parse-header_lines :
    (m : StdMap Bytes) (b : Bytes) (q : Request) (p : Parser)
    → p.header_key ≢ []
    → All IsHeader m
    → IsSorted (q.headers ++ (p.header_key, p.header_val) ∷ m)
    → announced p.body_length ((p.header_key, p.header_val) ∷ m) ≡ ok (pos (length b))
    → Accepts
        (parse q (record p { state = header_line_start }) (header_lines m ++ (crlf ++ b)))
        (finished q p m b)
parse-header_lines [] b q p ne h s a =
    let c = commit_header-Commits q (record p { state = expecting_newline_3 }) [] ne s a in
    rw header_lines_nil (parse_end b q _ p _ c.commits (announced_nil c.next c.announces))
parse-header_lines ((k, v) ∷ m) b q p ne ((name, clean), h) s a =
    let c = commit_header-Commits q (record p { state = header_line_start }) ((k, v) ∷ m) ne s a in
    let q' = record q { headers = q.headers ++ (p.header_key, p.header_val) ∷ [] } in
    let p' = record p { body_length = c.next; header_key = k; header_val = v } in
    rw header_lines-append (
      rw (parse-header k v q q' p _ (header_lines m ++ (crlf ++ b)) name clean c.commits) (
        rw append_assoc at (parse-header_lines m b q' p' name.0 h (rw append_assoc s) c.announces)))

pub commit_nothing : (q : Request) (p : Parser) → p.header_key ≡ [] → commit_header q p ≡ ok (q, p)
unfolding commit_header
commit_nothing q p e = ground arith

-- The same where no header is pending
parse-All_headers :
    (m : StdMap Bytes) (b : Bytes) (q : Request) (p : Parser)
    → All IsHeader m
    → IsSorted m
    → announced p.body_length m ≡ ok (pos (length b))
    → Accepts
        (parse
          (record q { headers = [] })
          (record p { state = header_line_start; header_key = [] })
          (header_lines m ++ (crlf ++ b)))
        (record q { headers = m; body = q.body ++ b; method = method_of p.method_str })
parse-All_headers [] b q p h s a =
    let blank = record q { headers = [] } in
    let p' = record p { state = expecting_newline_3; header_key = [] } in
    rw header_lines_nil
      (parse_end b blank blank p' p' (commit_nothing blank p' refl) (announced_nil p.body_length a))
parse-All_headers ((k, v) ∷ m) b q p ((name, clean), h) s a =
    let blank = record q { headers = [] } in
    let p' = record p { state = header_line_start; header_key = [] } in
    let p'' = record p { header_key = k; header_val = v } in
    let first =
      parse-header k v blank blank p' p' (header_lines m ++ (crlf ++ b)) name clean
        (commit_nothing blank p' refl) in
    rw (header_lines-append, first) (parse-header_lines m b blank p'' name.0 h s a)

pub AnnouncesBody-announced :
    (q : Request)
    → IsSorted q.headers
    → AnnouncesBody q
    → announced (pos 0) q.headers ≡ ok (pos (length q.body))
AnnouncesBody-announced q s h = elim (Option-cases (find content_length q.headers)) [
  | inl absent ↦
      let blank : q.body ≡ [] = rw (absent, AnnouncesBody) at h in
      announced-find-none (pos 0) q.headers absent ∙ rw blank
  | inr (v, present) ↦
      announced-find-some (pos 0) q.headers s present ∙ (rw (present, AnnouncesBody) at h)
]

-- The text that the echo handler sends back for a well-formed request is read by a fresh parser as
-- that request, to the last byte, with the result `good`. The request has one of the four methods,
-- and announces its body: Content-Length is the body's length, or is absent and the body empty.
pub parse-echo_text :
    (q : Request)
    → IsWellFormed q
    → q.method ≢ invalid
    → AnnouncesBody q
    → Accepts (parse empty_request initial (echo_text q)) q
unfolding echo_text
parse-echo_text q w m a =
    let tail = header_lines q.headers ++ (crlf ++ q.body) in
    let after_method = q.uri ++ (b' ' ∷ (q.version ++ (crlf ++ tail))) in
    let (s, names, begins) = parse-method q.method after_method m in
    let p = record initial { method_str = s } in
    let with_uri = record empty_request { uri = q.uri } in
    rw begins (
      rw (parse-uri q.uri empty_request p (q.version ++ (crlf ++ tail)) w.uri_clean) (
        rw (parse-version with_uri p tail w.version_IsVersion) (
          rw names at (
            parse-All_headers q.headers q.body (record with_uri { version = q.version }) p
              w.headers_IsHeader w.headers_IsSorted
              (AnnouncesBody-announced q w.headers_IsSorted a)))))
