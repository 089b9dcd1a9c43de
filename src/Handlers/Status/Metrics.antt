-- ===== src/Handlers/Status/Metrics.antt =====
-- What the status page reads of the lines that `log_metrics` writes.
use web_server_development.Prelude.{
  ℕ, ◌+◌, ◌^◌, ◌<◌, ◌≤◌, true, ◌∷◌, ◌++◌, some, ◌≡◌, refl, ◌∙◌, ap, arith, ok, length, drop, take,
  drop-add-append, lt→ltb, le→ltb_false, length-append,
}
use web_server_development.Text.{Bytes, codes, substr}
use web_server_development.Text.Cut.{until, until-append}
use web_server_development.Text.Search.{lacks, find_text, find_text-lacks, is_prefix}
use web_server_development.Response.{StatusCode, bad_req, not_found, okay, crlf}
use web_server_development.Log.{code_text}
use web_server_development.Handlers.Status.{Records, pad, request_url, add_row, read_metrics}

-- A message with the code `c`, and `rest` from the uri on
abbrev with_code : StatusCode → Bytes → Bytes
with_code c rest =
    codes "ResponseMetrics: "
    ++ (codes " Response code : " ++ (code_text c ++ (codes " Request path: " ++ rest)))

-- Where the marks stand in a message, and what is behind them
record Marked (c : StatusCode) (rest : Bytes) : Type 0 where
  metrics_at : find_text (codes "ResponseMetrics") (with_code c rest) ≡ some 0
  code_at : find_text (codes "Response code : ") (with_code c rest) ≡ some 18
  path_at : find_text (codes "Request path: ") (with_code c rest) ≡ some 38
  code_behind : take 3 (drop 34 (with_code c rest)) ≡ code_text c
  path_behind : drop 52 (with_code c rest) ≡ rest

with_code-Marked : (c : StatusCode) (rest : Bytes) → Marked c rest
unfolding find_text is_prefix
with_code-Marked bad_req rest = record {
  metrics_at = refl;
  code_at = refl;
  path_at = refl;
  code_behind = refl;
  path_behind = refl;
}
with_code-Marked not_found rest = record {
  metrics_at = refl;
  code_at = refl;
  path_at = refl;
  code_behind = refl;
  path_behind = refl;
}
with_code-Marked okay rest = record {
  metrics_at = refl;
  code_at = refl;
  path_at = refl;
  code_behind = refl;
  path_behind = refl;
}

module _ (stamp uri rest : Bytes) (c : StatusCode) (clean : lacks b'R' stamp ≡ true) where
  abbrev line : Bytes
  line = stamp ++ with_code c (uri ++ b' ' ∷ rest)

  abbrev marked : Marked c (uri ++ b' ' ∷ rest)
  marked = with_code-Marked c (uri ++ b' ' ∷ rest)

  -- What is left `m` bytes behind a mark at `n`
  drop-line :
      (n m : ℕ) → drop (length stamp + n + m) line ≡ drop (n + m) (with_code c (uri ++ b' ' ∷ rest))
  drop-line n m =
      let at : length stamp + n + m ≡ length stamp + (n + m) = omega arith in
      ap (λ (k : ℕ). drop k line) at
      ∙ drop-add-append stamp (with_code c (uri ++ b' ' ∷ rest)) (n + m)

  request_url-line : lacks b' ' uri ≡ true → request_url line ≡ uri
  unfolding request_url
  request_url-line h =
      rw (find_text-lacks b'R' (codes "equest path: ") stamp _ clean marked.path_at, request_url)
        (ap (until b' ') (drop-line 38 14 ∙ marked.path_behind) ∙ until-append b' ' uri rest h)

  substr-line : substr line (length stamp + 18 + 16) 3 ≡ ok (code_text c)
  unfolding substr
  substr-line =
      let long : length stamp + 18 + 16 ≤ length line =
        omega (arith, length-append stamp (with_code c (uri ++ b' ' ∷ rest))) in
      rw (le→ltb_false (length line) (length stamp + 18 + 16) long)
        (ap ok (ap (take 3) (drop-line 18 16) ∙ marked.code_behind))

  pub read_metrics-line :
      (r : Records)
      → lacks b' ' uri ≡ true
      → r.num_requests + 1 < 2 ^ 31
      → read_metrics line r
        ≡ ok (record r {
          num_requests = r.num_requests + 1;
          rows = r.rows ++ (pad uri ++ (code_text c ++ crlf));
        })
  unfolding read_metrics add_row
  read_metrics-line r h few =
      rw
        (
          find_text-lacks b'R' (codes "esponseMetrics") stamp _ clean marked.metrics_at,
          read_metrics,
        )
        (rw (find_text-lacks b'R' (codes "esponse code : ") stamp _ clean marked.code_at) (
          rw (substr-line, add_row)
            (rw (lt→ltb (r.num_requests + 1) (2 ^ 31) few) (rw (request_url-line h) refl))))
