-- ===== src/Handlers/Status/Page.antt =====
-- The whole page, of a server whose log holds what it wrote when it started, and its requests.
use web_server_development.Prelude.{
  ℕ, ◌^◌, ◌<◌, true, List, [], ◌∷◌, ◌++◌, map, none, some, ◌≡◌, refl, ◌∙◌, ap, arith, ok, length,
  All,
}
use web_server_development.Text.{Bytes, codes}
use web_server_development.Text.Numbers.{to_string}
use web_server_development.Text.Search.{lacks, find_text}
use web_server_development.Text.Stream.{lines_from}
use web_server_development.Response.{crlf}
use web_server_development.World.{World}
use web_server_development.Log.{log_all_handlers}
use web_server_development.Config.{Location}
use web_server_development.Handlers.Status.{
  Records, pad, read_metrics, read_line, read_lines, read_files, read_records, no_records,
  full_record, status_body, status_response, handle_status,
}
use web_server_development.Handlers.Status.Requests.{Entry, rows_of, log_file, lines_from-line}
use web_server_development.Handlers.Status.Mixed.{
  Line, line_text, entries_of, IsLine, read_lines-mixed, lines_from-mixed, All-IsSilent, IsOther,
  lines_from-others, read_lines-others,
}
use web_server_development.Handlers.Status.Table.{
  IsWords, handler_rows, read_handlers-log_all_handlers,
}

abbrev handlers_line : Bytes → List Location → Bytes
handlers_line stamp ls = stamp ++ log_all_handlers ls

-- The line that the server logs when it starts is a line, its mark does not begin in its stamp, it
-- does not have the mark of a request, and its words have no space.
pub record IsFirstLine (stamp : Bytes) (ls : List Location) : Type 0 where
  pub mark_is_first : find_text (codes "all handlers:") (stamp ++ codes "all handlers") ≡ none
  pub is_no_request : find_text (codes "ResponseMetrics") (stamp ++ log_all_handlers ls) ≡ none
  pub is_line : lacks b'\n' (stamp ++ log_all_handlers ls) ≡ true
  pub words_IsWords : All IsWords ls

-- The page
abbrev pub page : Bytes → List Location → List Entry → Bytes
page name ls es =
    pad (codes "handlers name")
    ++ (codes "URL prefixes\r\n"
        ++ (handler_rows ls
            ++ (crlf
                ++ (codes "Total Requests: "
                    ++ (to_string (length es)
                        ++ (codes "\nCurrent Host Name: "
                            ++ (name
                                ++ (codes "\n\n"
                                    ++ (pad (codes "requests URL")
                                        ++ (codes "response codes\r\n" ++ rows_of es))))))))))

-- The log of the server: what `main` logs in front of the server's construction, the line of the
-- handlers, and the others
abbrev pub log_of : List Bytes → Bytes → List Location → List Line → Bytes
log_of before stamp ls lines =
    log_file (before ++ (stamp ++ log_all_handlers ls) ∷ map line_text lines)

abbrev listed : List Location → Records
listed ls = record { handlers = handler_rows ls; num_requests = 0; rows = [] }

read_line-handlers_line :
    (stamp : Bytes) (ls : List Location)
    → IsFirstLine stamp ls
    → read_line (handlers_line stamp ls) no_records ≡ ok (listed ls)
unfolding read_line read_metrics
read_line-handlers_line stamp ls f =
    rw (f.is_no_request, read_metrics)
      (ap (λ (s : Bytes). ok (record no_records { handlers = s }))
        (read_handlers-log_all_handlers stamp [] ls f.mark_is_first f.words_IsWords))

same_records :
    (r : Records) {h s : Bytes} {n : ℕ}
    → r.handlers ≡ h
    → r.num_requests ≡ n
    → r.rows ≡ s
    → ok r ≡ ok (record { handlers = h; num_requests = n; rows = s })
same_records r e f g i = ok (record { handlers = e i; num_requests = f i; rows = g i })

read_records-log_of :
    (w : World) (before : List Bytes) (stamp : Bytes) (ls : List Location) (lines : List Line)
    → w.logs ≡ some (some (log_of before stamp ls lines) ∷ [])
    → All IsOther before
    → IsFirstLine stamp ls
    → All IsLine lines
    → length (entries_of lines) < 2 ^ 31
    → read_records w
      ≡ ok (record {
        handlers = handler_rows ls;
        num_requests = length (entries_of lines);
        rows = rows_of (entries_of lines);
      })
unfolding read_files read_records read_lines
read_records-log_of w before stamp ls lines logs b f h few =
    let es = entries_of lines in
    let read = read_lines-mixed lines (listed ls) h (omega arith) in
    let behind = handlers_line stamp ls ∷ map line_text lines in
    let split : lines_from [] (log_file behind) ≡ behind =
      lines_from-line (handlers_line stamp ls) [] (log_file (map line_text lines)) f.is_line
      ∙ ap (◌∷◌ (handlers_line stamp ls)) (lines_from-mixed lines h) in
    let num : read.records.num_requests ≡ length es = omega (arith, read.num_is) in
    rw (logs, read_records)
      (rw (lines_from-others before behind b, split, read_lines-others before behind no_records b)
        (rw (read_line-handlers_line stamp ls f, read_lines)
          (rw read.outcome_is (
            same_records read.records (read.handlers_is (All-IsSilent lines h)) num read.rows_is))))

-- When the one file of the logs holds any lines that `main` wrote, then the line of the handlers that
-- the server wrote when it was made, and then any other lines, among them those of its requests,
-- fewer than 2^31, each with its stamp, the page lists exactly every location and every request with
-- its code, in their order, and the number of the requests. In the lines of the requests, the stamp has no letter R, the uri no space, and the
-- mark of the first line is not in them; the others, in front too, have neither that mark nor the mark of a
-- request; the first line has no mark of a request, its own mark does not begin in its stamp, and
-- its words have no space; no line has a line feed.
pub handle_status-page :
    (w : World) (name : Bytes) (before : List Bytes) (stamp : Bytes) (ls : List Location)
    (lines : List Line)
    → w.logs ≡ some (some (log_of before stamp ls lines) ∷ [])
    → w.host_name ≡ some name
    → All IsOther before
    → IsFirstLine stamp ls
    → All IsLine lines
    → length (entries_of lines) < 2 ^ 31
    → handle_status w ≡ ok (status_response w (page name ls (entries_of lines)))
unfolding handle_status status_body full_record
handle_status-page w name before stamp ls lines logs host b f h few =
    rw (read_records-log_of w before stamp ls lines logs b f h few, handle_status)
      (rw (host, full_record) refl)
