-- ===== src/Handlers/Status/Requests.antt =====
-- The status page of a server whose log holds the requests that `log_metrics` has written there.
use web_server_development.Prelude.{
  ◌+◌, ◌^◌, ◌<◌, true, List, [], ◌∷◌, ◌++◌, map, some, none, ◌≡◌, refl, ◌∙◌, sym, ap, arith, Result,
  ok, ◌==◌, length, All, append-nil, append_assoc, Bool-cases, inl, inr,
}
use web_server_development.Text.{Bytes, codes, push_back}
use web_server_development.Text.Search.{lacks, find_text}
use web_server_development.Text.Stream.{lines_from}
use web_server_development.Request.{Request}
use web_server_development.Response.{Response, crlf}
use web_server_development.World.{World}
use web_server_development.Log.{Remote, code_text, log_metrics}
use web_server_development.Handlers.Status.{
  Records, pad, read_handlers, read_line, read_lines, read_files, read_records, no_records,
}
use web_server_development.Handlers.Status.Metrics.{read_metrics-line}

-- A line of the log: the stamp that Boost.Log puts in front of a message of `log_metrics`, and what
-- the message is about
pub record Entry : Type 0 where
  pub stamp : Bytes
  pub req : Request
  pub res : Response
  pub remote : Remote
  pub handler_name : Bytes

abbrev pub entry_line : Entry → Bytes
entry_line e = e.stamp ++ log_metrics e.req e.res e.remote e.handler_name

-- The row of the page
abbrev pub row : Entry → Bytes
row e = pad e.req.uri ++ (code_text e.res.code ++ crlf)

abbrev pub rows_of : List Entry → Bytes
rows_of [] = []
rows_of (e ∷ es) = row e ++ rows_of es

-- The stamp has no letter R, the uri no space, and the line no line feed.
pub record IsEntry (e : Entry) : Type 0 where
  pub stamp_clean : lacks b'R' e.stamp ≡ true
  pub uri_clean : lacks b' ' e.req.uri ≡ true
  pub is_line : lacks b'\n' (entry_line e) ≡ true

-- The line does not have the mark of the handlers' line.
abbrev pub IsSilent : Entry → Type 0
IsSilent e = find_text (codes "all handlers:") (entry_line e) ≡ none

-- The text of a file with these lines
abbrev pub log_file : List Bytes → Bytes
log_file [] = []
log_file (line ∷ lines) = line ++ b'\n' ∷ log_file lines

-- What is counted and listed
pub record Lists (st : Records) (es : List Entry) (outcome : Result Records) : Type 0 where
  pub records : Records
  pub outcome_is : outcome ≡ ok records
  pub num_is : records.num_requests ≡ st.num_requests + length es
  pub rows_is : records.rows ≡ st.rows ++ rows_of es
  pub handlers_is : All IsSilent es → records.handlers ≡ st.handlers

pub read_line-entry_line :
    (e : Entry) (st : Records)
    → IsEntry e
    → st.num_requests + 1 < 2 ^ 31
    → Lists st (e ∷ []) (read_line (entry_line e) st)
unfolding read_line read_handlers log_metrics
read_line-entry_line e st h few = record {
  records = _;
  outcome_is = read_metrics-line e.stamp e.req.uri _ e.res.code h.stamp_clean _ h.uri_clean few;
  num_is = refl;
  rows_is = ap (λ (s : Bytes). st.rows ++ s) (sym (append-nil (row e)));
  handlers_is = λ (silent, none_left). keeps silent;
}
  where
    keeps : IsSilent e → read_handlers (entry_line e) st.handlers ≡ st.handlers
    keeps silent = rw (silent, read_handlers) refl

pub Lists-cons :
    (e : Entry) (es : List Entry) (lines : List Bytes) (st : Records)
    → (first : Lists st (e ∷ []) (read_line (entry_line e) st))
    → Lists first.records es (read_lines lines first.records)
    → Lists st (e ∷ es) (read_lines (entry_line e ∷ lines) st)
unfolding read_lines
Lists-cons e es lines st first later = record {
  records = later.records;
  outcome_is = rw (first.outcome_is, read_lines) later.outcome_is;
  num_is = omega (arith, first.num_is, later.num_is);
  rows_is =
      later.rows_is
      ∙ ap (λ (s : Bytes). s ++ rows_of es)
          (first.rows_is ∙ ap (λ (s : Bytes). st.rows ++ s) (append-nil (row e)))
      ∙ append_assoc st.rows (row e) (rows_of es);
  handlers_is =
      λ (silent, later_silent). later.handlers_is later_silent ∙ first.handlers_is (silent, tt);
}

pub read_lines-entries :
    (es : List Entry) (st : Records)
    → All IsEntry es
    → st.num_requests + length es < 2 ^ 31
    → Lists st es (read_lines (map entry_line es) st)
unfolding read_lines
read_lines-entries [] st h few = record {
  records = st;
  outcome_is = refl;
  num_is = omega arith;
  rows_is = sym (append-nil st.rows);
  handlers_is = λ none_left. refl;
}
read_lines-entries (e ∷ es) st (h, hs) few =
    let first = read_line-entry_line e st h (omega arith) in
    Lists-cons e es (map entry_line es) st first
      (read_lines-entries es first.records hs (omega (arith, first.num_is)))

pub lines_from-line :
    (line acc rest : Bytes)
    → lacks b'\n' line ≡ true
    → lines_from acc (line ++ b'\n' ∷ rest) ≡ (acc ++ line) ∷ lines_from [] rest
unfolding lines_from
lines_from-line [] acc rest h = ap (λ (s : Bytes). s ∷ lines_from [] rest) (sym (append-nil acc))
lines_from-line (c ∷ line) acc rest h = elim (Bool-cases (c == b'\n')) [
  | inl feed ↦ absurd (cc (rw feed at h))
  | inr byte ↦
      rw (byte, lines_from)
        (lines_from-line line (push_back acc c) rest (rw byte at h)
          ∙ ap (λ (s : Bytes). s ∷ lines_from [] rest) (append_assoc acc (c ∷ []) line))
]

pub lines_from-log_file :
    (es : List Entry)
    → All IsEntry es
    → lines_from [] (log_file (map entry_line es)) ≡ map entry_line es
unfolding lines_from
lines_from-log_file [] h = refl
lines_from-log_file (e ∷ es) (h, hs) =
    lines_from-line (entry_line e) [] (log_file (map entry_line es)) h.is_line
    ∙ ap (◌∷◌ (entry_line e)) (lines_from-log_file es hs)

-- When the one file of the logs consists of lines that `log_metrics` wrote, fewer than 2^31, the
-- page counts every one of them and lists its uri and its code, in their order. The stamps in
-- front have no letter R, the uris no space, and the lines no line feed.
pub read_records-entries :
    (w : World) (es : List Entry)
    → w.logs ≡ some (some (log_file (map entry_line es)) ∷ [])
    → All IsEntry es
    → length es < 2 ^ 31
    → (r : Records) × (read_records w ≡ ok r) × (r.num_requests ≡ length es) × (r.rows ≡ rows_of es)
unfolding read_files read_records
read_records-entries w es logs h few =
    let read = read_lines-entries es no_records h (omega arith) in
    (
      read.records,
      rw (logs, read_records) (rw (lines_from-log_file es h) (rw read.outcome_is refl)),
      omega (arith, read.num_is),
      read.rows_is,
    )
