-- ===== src/Handlers/Status/Mixed.antt =====
-- What the status page reads of a log that holds the lines of requests among others.
use web_server_development.Prelude.{
  ◌+◌, ◌<◌, ◌^◌, true, List, [], ◌∷◌, ◌++◌, map, none, ◌≡◌, refl, ◌∙◌, sym, ap, arith, ok, length,
  All, append-nil,
}
use web_server_development.Text.{Bytes, codes}
use web_server_development.Text.Search.{lacks, find_text}
use web_server_development.Text.Stream.{lines_from}
use web_server_development.Handlers.Status.{
  Records, read_handlers, read_metrics, read_line, read_lines,
}
use web_server_development.Handlers.Status.Requests.{
  Entry, entry_line, IsEntry, IsSilent, log_file, Lists, Lists-cons, read_line-entry_line,
  lines_from-line,
}

-- A line of the log: of a request, or another
pub data Line : Type 0 where
  entry : Entry → Line
  other : Bytes → Line

abbrev pub line_text : Line → Bytes
line_text (entry e) = entry_line e
line_text (other text) = text

abbrev pub entries_of : List Line → List Entry
entries_of [] = []
entries_of (entry e ∷ lines) = e ∷ entries_of lines
entries_of (other text ∷ lines) = entries_of lines

-- Neither the mark of the handlers' line nor the mark of a request, and no line feed
abbrev pub IsOther : Bytes → Type 0
IsOther text =
    (find_text (codes "all handlers:") text ≡ none)
    × (find_text (codes "ResponseMetrics") text ≡ none)
    × (lacks b'\n' text ≡ true)

-- A line of a request has no mark of the handlers' line; another has none of the marks.
abbrev pub IsLine : Line → Type 0
IsLine (entry e) = IsEntry e × IsSilent e
IsLine (other text) = IsOther text

-- Another line changes nothing.
read_line-other :
    (text : Bytes) (st : Records)
    → find_text (codes "all handlers:") text ≡ none
    → find_text (codes "ResponseMetrics") text ≡ none
    → read_line text st ≡ ok st
unfolding read_line read_handlers read_metrics
read_line-other text st h m = rw (m, read_metrics) (rw (h, read_handlers) refl)

read_lines-other :
    (text : Bytes) (lines : List Bytes) (st : Records)
    → read_line text st ≡ ok st
    → read_lines (text ∷ lines) st ≡ read_lines lines st
unfolding read_lines
read_lines-other text lines st e = rw (e, read_lines) refl

Lists-nil : (st : Records) → Lists st [] (read_lines [] st)
unfolding read_lines
Lists-nil st = record {
  records = st;
  outcome_is = refl;
  num_is = omega arith;
  rows_is = sym (append-nil st.rows);
  handlers_is = λ none_left. refl;
}

pub All-IsSilent : (lines : List Line) → All IsLine lines → All IsSilent (entries_of lines)
All-IsSilent [] h = tt
All-IsSilent (entry e ∷ lines) ((i, silent), h) = (silent, All-IsSilent lines h)
All-IsSilent (other text ∷ lines) (o, h) = All-IsSilent lines h

pub read_lines-mixed :
    (lines : List Line) (st : Records)
    → All IsLine lines
    → st.num_requests + length (entries_of lines) < 2 ^ 31
    → Lists st (entries_of lines) (read_lines (map line_text lines) st)
read_lines-mixed [] st h few = Lists-nil st
read_lines-mixed (entry e ∷ lines) st ((i, silent), h) few =
    let first = read_line-entry_line e st i (omega arith) in
    Lists-cons e (entries_of lines) (map line_text lines) st first
      (read_lines-mixed lines first.records h (omega (arith, first.num_is)))
read_lines-mixed (other text ∷ lines) st ((handlers, metrics, is_line), h) few =
    rw (read_lines-other text (map line_text lines) st (read_line-other text st handlers metrics))
      (read_lines-mixed lines st h few)

line_text-lacks : (l : Line) → IsLine l → lacks b'\n' (line_text l) ≡ true
line_text-lacks (entry e) (i, silent) = i.is_line
line_text-lacks (other text) (handlers, metrics, is_line) = is_line

-- The lines in front change nothing, and are lines.
pub read_lines-others :
    (before lines : List Bytes) (st : Records)
    → All IsOther before
    → read_lines (before ++ lines) st ≡ read_lines lines st
read_lines-others [] lines st h = refl
read_lines-others (b ∷ before) lines st ((handlers, metrics, is_line), h) =
    read_lines-other b (before ++ lines) st (read_line-other b st handlers metrics)
    ∙ read_lines-others before lines st h

pub lines_from-others :
    (before lines : List Bytes)
    → All IsOther before
    → lines_from [] (log_file (before ++ lines)) ≡ before ++ lines_from [] (log_file lines)
lines_from-others [] lines h = refl
lines_from-others (b ∷ before) lines ((handlers, metrics, is_line), h) =
    lines_from-line b [] (log_file (before ++ lines)) is_line
    ∙ ap (◌∷◌ b) (lines_from-others before lines h)

pub lines_from-mixed :
    (lines : List Line)
    → All IsLine lines
    → lines_from [] (log_file (map line_text lines)) ≡ map line_text lines
unfolding lines_from
lines_from-mixed [] h = refl
lines_from-mixed (l ∷ lines) (i, h) =
    lines_from-line (line_text l) [] (log_file (map line_text lines)) (line_text-lacks l i)
    ∙ ap (◌∷◌ (line_text l)) (lines_from-mixed lines h)
