-- ===== src/Handlers/Status.antt =====
-- src/status_request_handler.cc: the page that lists the handlers and the requests, from the logs.
-- A fault ends the program, so `all_handlers` is empty whenever `handle_request` begins. A line has
-- fewer than 2^31 spaces, so `count` does not overflow; only its parity counts.
pub mod Metrics
pub mod Requests
pub mod Mixed
pub mod Table
pub mod Page
pub mod Answers
mod Tests
use web_server_development.Prelude.{
  ℕ, zero, suc, ◌+◌, ◌-◌, ◌^◌, Bool, true, false, not, List, [], ◌∷◌, ◌++◌, Option, none, some,
  Result, ok, throws, undefined, system_error, ◌>>=◌, ltb, ◌==◌, if◌then◌else◌, length, drop,
}
use web_server_development.Text.{Bytes, codes, push_back, substr}
use web_server_development.Text.Cut.{until}
use web_server_development.Text.Numbers.{to_string}
use web_server_development.Text.Search.{find_text}
use web_server_development.Text.Stream.{lines_from}
use web_server_development.Response.{
  Response, empty_response, okay, set_code, add_header, add_body, make_date_servername_headers,
  crlf,
}
use web_server_development.World.{World}

abbrev spaces : ℕ → Bytes
spaces zero = []
spaces (suc n) = b' ' ∷ spaces n

-- `std::left << std::setfill(' ') << std::setw(interval_len) << s`, with `interval_len` 50
unfoldable pub pad : Bytes → Bytes
pad s = s ++ spaces (50 - length s)

-- The loop over an `all handlers:` line; `odd` is `count % 2 != 0`, of an `int` that
-- is taken without bound, and `temp` the word read so far.
unfoldable pub handlers_table : Bool → Bytes → Bytes → Bytes
unfolding pad
handlers_table odd temp [] = []
handlers_table odd temp (c ∷ cs) = elim (c == b' ') [
  | true ↦ (if odd then temp ++ crlf else pad temp) ++ handlers_table (not odd) [] cs
  | false ↦ handlers_table odd (push_back temp c) cs
]

-- What the loops have read: the text of `all_handlers`, `num_requests`, and the text of `records`
-- below its first line
pub record Records : Type 0 where
  pub handlers : Bytes
  pub num_requests : ℕ
  pub rows : Bytes

-- `all_handlers` behind a line
unfoldable pub read_handlers : Bytes → Bytes → Bytes
unfolding find_text handlers_table
read_handlers line old = elim (find_text (codes "all handlers:") line) [
  | none ↦ old
  | some found ↦ handlers_table false [] (drop (found + 14) line)
]

-- `request_url`; `npos + 14` is 13.
unfoldable pub request_url : Bytes → Bytes
unfolding find_text until
request_url line = elim (find_text (codes "Request path: ") line) [
  | none ↦ until b' ' (drop 13 line)
  | some found ↦ until b' ' (drop (found + 14) line)
]

-- The row of a request with the code at `found`; `num_requests` is an `int`.
unfoldable pub add_row : Bytes → ℕ → Records → Result Records
unfolding substr request_url pad
add_row line found r = do
  code ← substr line (found + 16) 3
  let added = record r {
    num_requests = r.num_requests + 1;
    rows = r.rows ++ (pad (request_url line) ++ (code ++ crlf));
  }
  if ltb (r.num_requests + 1) (2 ^ 31) then ok added else throws undefined

-- The part of a `ResponseMetrics` line
unfoldable pub read_metrics : Bytes → Records → Result Records
unfolding find_text add_row
read_metrics line r = elim (find_text (codes "ResponseMetrics") line) [
  | none ↦ ok r
  | some i ↦ elim (find_text (codes "Response code : ") line) [
    | none ↦ ok r
    | some found ↦ add_row line found r
  ]
]

unfoldable pub read_line : Bytes → Records → Result Records
unfolding read_handlers read_metrics
read_line line r = read_metrics line (record r { handlers = read_handlers line r.handlers })

unfoldable pub read_lines : List Bytes → Records → Result Records
unfolding read_line
read_lines [] r = ok r
read_lines (line ∷ lines) r = do r' ← read_line line r; read_lines lines r'

-- The loop over the files
unfoldable pub read_files : List (Option Bytes) → Records → Result Records
unfolding read_lines lines_from
read_files [] r = ok r
read_files (none ∷ files) r = read_files files r
read_files (some text ∷ files) r = do r' ← read_lines (lines_from [] text) r; read_files files r'

abbrev pub no_records : Records
no_records = record { handlers = []; num_requests = 0; rows = [] }

-- `get_request_records`, up to the text that it makes of what it has read
unfoldable pub read_records : World → Result Records
unfolding read_files
read_records w = elim w.logs [
  | none ↦ throws system_error
  | some files ↦ read_files files no_records
]

-- What `get_request_records` returns
unfoldable pub full_record : World → Records → Result Bytes
unfolding to_string pad
full_record w r = elim w.host_name [
  | none ↦ throws system_error
  | some name ↦ ok (
      codes "Total Requests: "
      ++ (to_string r.num_requests
          ++ (codes "\nCurrent Host Name: "
              ++ (name
                  ++ (codes "\n\n"
                      ++ (pad (codes "requests URL") ++ (codes "response codes\r\n" ++ r.rows)))))))
]

-- The body of the page
unfoldable pub status_body : World → Result Bytes
unfolding read_records full_record pad
status_body w = do
  r ← read_records w
  requests ← full_record w r
  ok (
      pad (codes "handlers name")
      ++ (codes "URL prefixes\r\n" ++ (r.handlers ++ (crlf ++ requests))))

-- The response that carries the page
unfoldable pub status_response : World → Bytes → Response
unfolding make_date_servername_headers
status_response w body = make_date_servername_headers w (
    add_body body (
      add_header (codes "Content-Length") (to_string (length body))
        (add_header (codes "Content-Type") (codes "text/plain") (set_code okay empty_response))))

-- `handle_request`, which does not look at its request
unfoldable pub handle_status : World → Result Response
unfolding status_body status_response
handle_status w = do body ← status_body w; ok (status_response w body)
