-- ===== src/Handlers/Status/Answers.antt =====
-- The status page is answered, with its length.
use web_server_development.Prelude.{
  ℕ, ◌+◌, ◌^◌, ◌<◌, ◌≤◌, List, [], ◌∷◌, Option, none, some, ◌≡◌, refl, arith, Result, ok, length,
  inl, inr, Option-cases, lt→ltb, le→ltb_false, Result-cases, ok-injective, subst,
}
use web_server_development.Text.{Bytes, codes, equal, substr}
use web_server_development.Text.Numbers.{to_string}
use web_server_development.Text.Search.{find_text, find_text-length}
use web_server_development.Text.Stream.{lines_from}
use web_server_development.StdMap.Laws.{find-assign}
use web_server_development.Response.{Response, empty_response, okay, set_code, add_header, add_body}
use web_server_development.Response.Laws.{HasLength, make_date_servername_headers-HasLength}
use web_server_development.World.{World}
use web_server_development.Handlers.Status.{
  Records, add_row, read_handlers, read_metrics, read_line, read_lines, read_files, read_records,
  no_records, full_record, status_body, status_response, handle_status,
}

-- The lines of all files
abbrev pub line_count : List (Option Bytes) → ℕ
line_count [] = 0
line_count (none ∷ files) = line_count files
line_count (some text ∷ files) = length (lines_from [] text) + line_count files

-- A read that returns, and counts no more than `n` requests
record Counts (st : Records) (n : ℕ) (outcome : Result Records) : Type 0 where
  records : Records
  outcome_is : outcome ≡ ok records
  num_le : records.num_requests ≤ st.num_requests + n

read_metrics-Counts :
    (line : Bytes) (st : Records)
    → st.num_requests + 1 < 2 ^ 31
    → Counts st 1 (read_metrics line st)
unfolding read_metrics add_row substr
read_metrics-Counts line st few = elim (Option-cases (find_text (codes "ResponseMetrics") line)) [
  | inl absent ↦ rw (absent, read_metrics) unchanged
  | inr (i, present) ↦ elim (Option-cases (find_text (codes "Response code : ") line)) [
    | inl absent ↦ rw (present, read_metrics) (rw absent unchanged)
    | inr (j, found) ↦
        let long : j + 16 ≤ length line = find_text-length (codes "Response code : ") line found in
        rw (present, read_metrics)
          (rw found (
            rw (le→ltb_false (length line) (j + 16) long, add_row)
              (rw (lt→ltb (st.num_requests + 1) (2 ^ 31) few)
                (record { records = _; outcome_is = refl; num_le = omega arith }))))
  ]
]
  where
    unchanged : Counts st 1 (ok st)
    unchanged = record { records = st; outcome_is = refl; num_le = omega arith }

read_line-Counts :
    (line : Bytes) (st : Records) → st.num_requests + 1 < 2 ^ 31 → Counts st 1 (read_line line st)
unfolding read_line
read_line-Counts line st few =
    let c =
      read_metrics-Counts line (record st { handlers = read_handlers line st.handlers }) few in
    record { records = c.records; outcome_is = c.outcome_is; num_le = c.num_le }

read_lines-Counts :
    (lines : List Bytes) (st : Records)
    → st.num_requests + length lines < 2 ^ 31
    → Counts st (length lines) (read_lines lines st)
unfolding read_lines
read_lines-Counts [] st few = record { records = st; outcome_is = refl; num_le = omega arith }
read_lines-Counts (line ∷ lines) st few =
    let c = read_line-Counts line st (omega arith) in
    let cs = read_lines-Counts lines c.records (omega (arith, c.num_le)) in
    record {
      records = cs.records;
      outcome_is = rw (c.outcome_is, read_lines) cs.outcome_is;
      num_le = omega (arith, c.num_le, cs.num_le);
    }

read_files-Counts :
    (files : List (Option Bytes)) (st : Records)
    → st.num_requests + line_count files < 2 ^ 31
    → Counts st (line_count files) (read_files files st)
unfolding read_files
read_files-Counts [] st few = record { records = st; outcome_is = refl; num_le = omega arith }
read_files-Counts (none ∷ files) st few = read_files-Counts files st few
read_files-Counts (some text ∷ files) st few =
    let c = read_lines-Counts (lines_from [] text) st (omega arith) in
    let cs = read_files-Counts files c.records (omega (arith, c.num_le)) in
    record {
      records = cs.records;
      outcome_is = rw (c.outcome_is, read_files) cs.outcome_is;
      num_le = omega (arith, c.num_le, cs.num_le);
    }

status_response-HasLength : (w : World) (body : Bytes) → HasLength (status_response w body)
unfolding status_response equal
status_response-HasLength w body =
    make_date_servername_headers-HasLength w
      (add_body body (
        add_header (codes "Content-Length") (to_string (length body))
          (add_header (codes "Content-Type") (codes "text/plain") (set_code okay empty_response))))
      (rw find-assign refl)

status_body_total :
    (w : World) (files : List (Option Bytes)) (name : Bytes)
    → w.logs ≡ some files
    → w.host_name ≡ some name
    → line_count files < 2 ^ 31
    → (body : Bytes) × (status_body w ≡ ok body)
unfolding status_body read_records full_record
status_body_total w files name logs host few =
    let c = read_files-Counts files no_records (omega arith) in
    elim (Result-cases (status_body w)) [
      | inl (x, failed) ↦
          absurd (cc (rw host at (rw c.outcome_is at (rw (logs, status_body) at failed))))
      | inr made ↦ made
    ]

-- Every response of the status handler has the length of its body.
pub handle_status-HasLength : (w : World) {r : Response} → handle_status w ≡ ok r → HasLength r
unfolding handle_status
handle_status-HasLength w {r} e = elim (Result-cases (status_body w)) [
  | inl (x, failed) ↦ absurd (cc (rw (failed, handle_status) at e))
  | inr (body, made) ↦
      subst HasLength (ok-injective (status_response w body) r (rw (made, handle_status) at e))
        (status_response-HasLength w body)
]

status_response-code : (w : World) (body : Bytes) → (status_response w body).code ≡ okay
unfolding status_response
status_response-code w body = refl

-- Where the directory of the logs and the name of the host can be read, and the logs have fewer than
-- 2^31 lines, whatever is in them, the status handler answers with code 200 and the length of its
-- page: no call of `substr` is out of range, and the count of requests does not overflow.
pub handle_status_total :
    (w : World) (files : List (Option Bytes)) (name : Bytes)
    → w.logs ≡ some files
    → w.host_name ≡ some name
    → line_count files < 2 ^ 31
    → (r : Response) × (handle_status w ≡ ok r) × (r.code ≡ okay) × HasLength r
unfolding handle_status
handle_status_total w files name logs host few =
    let (body, made) = status_body_total w files name logs host few in
    (
      status_response w body,
      rw (made, handle_status) refl,
      status_response-code w body,
      status_response-HasLength w body,
    )
