-- ===== src/Session/Reported.antt =====
-- src/session.cc, src/log_helper.cc, src/status_request_handler.cc: the status page of a server whose
-- log file holds what a session has logged.
use web_server_development.Prelude.{
  ℕ, suc, ◌+◌, ◌^◌, ◌<◌, List, [], ◌∷◌, ◌++◌, map, none, some, ◌≡◌, refl, ◌∙◌, sym, ap, ok, length,
  All, append_assoc, arith, Option-cases, inl, inr,
}
use web_server_development.Text.{Bytes}
use web_server_development.Request.{Request}
use web_server_development.World.{World}
use web_server_development.Config.{Location}
use web_server_development.Connection.{remote_endpoint}
use web_server_development.Log.{log_all_handlers, log_metrics}
use web_server_development.Handlers.Status.{status_response, handle_status}
use web_server_development.Handlers.Status.Requests.{log_file}
use web_server_development.Handlers.Status.Mixed.{
  Line, entry, other, line_text, entries_of, IsLine, IsOther,
}
use web_server_development.Handlers.Status.Page.{IsFirstLine, page, log_of, handle_status-page}
use web_server_development.Session.Routing.{Locations, Shared}
use web_server_development.Session.Receive.{Session, serve}
use web_server_development.Session.Memo.{Answer, Memory, Agrees, memo_all}
use web_server_development.Session.Logged.{arrival, lines_for, serve-Served}

-- The text that Boost.Log puts in front of each message, by the number of the line
abbrev pub Stamps : Type 0
Stamps = ℕ → Bytes

-- The lines of the log file for some messages, the first of them line `n`
abbrev pub stamped : Stamps → ℕ → List Bytes → List Bytes
stamped stamps n [] = []
stamped stamps n (m ∷ ms) = (stamps n ++ m) ∷ stamped stamps (suc n) ms

stamped-append :
    (stamps : Stamps) (n : ℕ) (ms ms' : List Bytes)
    → stamped stamps n (ms ++ ms') ≡ stamped stamps n ms ++ stamped stamps (n + length ms) ms'
stamped-append stamps n [] ms' = ap (λ (k : ℕ). stamped stamps k ms') (omega arith)
stamped-append stamps n (m ∷ ms) ms' = ap (◌∷◌ (stamps n ++ m)) (
    stamped-append stamps (suc n) ms ms'
    ∙ ap (λ (k : ℕ). stamped stamps (suc n) ms ++ stamped stamps k ms') (omega arith))

-- The lines of the log file for some requests and their answers, each with what it is about
abbrev pub lines_of : Stamps → ℕ → Bytes × ℕ → List Request → List Answer → List Line
lines_of stamps n peer [] answers = []
lines_of stamps n peer (q ∷ qs) [] = []
lines_of stamps n peer (q ∷ qs) (a ∷ answers) =
    other (stamps n ++ arrival peer q) ∷ elim a.made_by [
      | none ↦ lines_of stamps (suc n) peer qs answers
      | some name ↦
          entry (record {
            stamp = stamps (suc n);
            req = q;
            res = a.response;
            remote = some peer;
            handler_name = name;
          })
          ∷ lines_of stamps (suc (suc n)) peer qs answers
    ]

lines_of-stamped :
    (stamps : Stamps) (n : ℕ) (peer : Bytes × ℕ) (qs : List Request) (answers : List Answer)
    → map line_text (lines_of stamps n peer qs answers)
      ≡ stamped stamps n (lines_for peer qs answers)
lines_of-stamped stamps n peer [] answers = refl
lines_of-stamped stamps n peer (q ∷ qs) [] = refl
lines_of-stamped stamps n peer (q ∷ qs) (a ∷ answers) = elim (Option-cases a.made_by) [
  | inl nobody ↦
      rw nobody
        (ap (◌∷◌ (stamps n ++ arrival peer q)) (lines_of-stamped stamps (suc n) peer qs answers))
  | inr (name, handler) ↦ rw handler (
      ap
        (λ (ls : List Bytes).
          (stamps n ++ arrival peer q)
          ∷ (stamps (suc n) ++ log_metrics q a.response (some peer) name)
          ∷ ls)
        (lines_of-stamped stamps (suc (suc n)) peer qs answers))
]

-- Other lines in front
abbrev others : List Bytes → List Line → List Line
others texts lines = map other texts ++ lines

others-line_text :
    (texts : List Bytes) (lines : List Line)
    → map line_text (others texts lines) ≡ texts ++ map line_text lines
others-line_text [] lines = refl
others-line_text (t ∷ texts) lines = ap (◌∷◌ t) (others-line_text texts lines)

others-entries_of :
    (texts : List Bytes) (lines : List Line) → entries_of (others texts lines) ≡ entries_of lines
others-entries_of [] lines = refl
others-entries_of (t ∷ texts) lines = others-entries_of texts lines

others-IsLine :
    (texts : List Bytes) (lines : List Line)
    → All IsOther texts
    → All IsLine lines
    → All IsLine (others texts lines)
others-IsLine [] lines h i = i
others-IsLine (t ∷ texts) lines (o, h) i = (o, others-IsLine texts lines h i)

-- The log file, once the lines of some requests are behind what the server has logged before
module _ (stamps : Stamps) (ls : List Location) (before between : List Bytes) where
  abbrev pub first : ℕ
  first = length before

  abbrev pub lines_from_here : ℕ
  lines_from_here = suc first + length between

  log_file-log_of :
      (lines : List Line) (ms : List Bytes)
      → map line_text lines ≡ stamped stamps lines_from_here ms
      → log_file (stamped stamps 0 ((before ++ log_all_handlers ls ∷ between) ++ ms))
        ≡ log_of
            (stamped stamps 0 before)
            (stamps first)
            ls
            (others (stamped stamps (suc first) between) lines)
  log_file-log_of lines ms e =
      let behind : stamped stamps (suc first) (between ++ ms)
          ≡ map line_text (others (stamped stamps (suc first) between) lines) =
        stamped-append stamps (suc first) between ms
        ∙ ap (λ (texts : List Bytes). stamped stamps (suc first) between ++ texts) (sym e)
        ∙ sym (others-line_text (stamped stamps (suc first) between) lines) in
      let starts_at : 0 + length before ≡ first = omega arith in
      ap (λ (ms' : List Bytes). log_file (stamped stamps 0 ms'))
        (append_assoc before (log_all_handlers ls ∷ between) ms)
      ∙ ap (λ (texts : List Bytes). log_file texts)
          (stamped-append stamps 0 before (log_all_handlers ls ∷ (between ++ ms)))
      ∙ ap
          (λ (k : ℕ).
            log_file
              (stamped stamps 0 before ++ stamped stamps k (log_all_handlers ls ∷ (between ++ ms))))
          starts_at
      ∙ ap
          (λ (texts : List Bytes).
            log_file (stamped stamps 0 before ++ (stamps first ++ log_all_handlers ls) ∷ texts))
          behind

-- A session of a server serves some requests, which the server that remembers by uri answers with
-- `answers`, and then the log, each message with its stamp, is the one file of the logs. The server
-- has logged its locations before, and any other lines in front of that and behind it. Then the
-- status page lists the locations and exactly those of the requests for which a handler was called,
-- in their order, each with the code of its answer. The lines are such as the page can tell apart,
-- and fewer than 2^31 are of requests; the peer is connected, and the cache holds what is remembered
-- at the start.
pub handle_status-serve :
    (w : World) (name : Bytes) (stamps : Stamps) (ls : List Location) (before between : List Bytes)
    (locations : Locations) (peer : Bytes × ℕ) (qs : List Request) (c c' : Session) (s s' : Shared)
    (f : Memory) (answers : List Answer)
    → remote_endpoint c.connection ≡ some peer
    → Agrees s f
    → memo_all locations qs f ≡ ok answers
    → s.log ≡ before ++ log_all_handlers ls ∷ between
    → serve locations qs c s ≡ ok (c', s')
    → w.logs ≡ some (some (log_file (stamped stamps 0 s'.log)) ∷ [])
    → w.host_name ≡ some name
    → IsFirstLine (stamps (length before)) ls
    → All IsOther (stamped stamps 0 before)
    → All IsOther (stamped stamps (suc (length before)) between)
    → All IsLine (lines_of stamps (suc (length before) + length between) peer qs answers)
    → length (entries_of (lines_of stamps (suc (length before) + length between) peer qs answers))
      < 2 ^ 31
    → handle_status w
      ≡ ok (
          status_response w (
            page name ls (
              entries_of (lines_of stamps (suc (length before) + length between) peer qs answers))))
handle_status-serve w name stamps ls before between locations peer qs c c' s s' f answers there a e
      starts run logs host first_is before_is between_is lines_are few =
    let lines = lines_of stamps (lines_from_here stamps ls before between) peer qs answers in
    let texts = stamped stamps (suc (length before)) between in
    let t = serve-Served locations peer qs c s f answers there a e in
    let same : t.shared ≡ s' = cc (t.run_is, run) in
    let logged : s'.log ≡ (before ++ log_all_handlers ls ∷ between) ++ lines_for peer qs answers =
      ap (λ (u : Shared). u.log) (sym same)
      ∙ t.log_is
      ∙ ap (λ (l : List Bytes). l ++ lines_for peer qs answers) starts in
    let file =
      ap (λ (l : List Bytes). some (some (log_file (stamped stamps 0 l)) ∷ [])) logged
      ∙ ap (λ (text : Bytes). some (some text ∷ []))
          (log_file-log_of stamps ls before between lines (lines_for peer qs answers)
            (lines_of-stamped stamps (lines_from_here stamps ls before between) peer qs answers)) in
    handle_status-page w name (stamped stamps 0 before) (stamps (length before)) ls
      (others texts lines) (logs ∙ file) host before_is first_is
      (others-IsLine texts lines between_is lines_are) (rw (others-entries_of texts lines) few)
    ∙ ap (λ es. ok (status_response w (page name ls es))) (others-entries_of texts lines)
