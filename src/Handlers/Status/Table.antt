-- ===== src/Handlers/Status/Table.antt =====
-- What the status page reads of the line that `log_all_handlers` writes.
use web_server_development.Prelude.{
  Bool, true, false, not, List, [], ◌∷◌, ◌++◌, none, ◌≡◌, refl, ◌∙◌, sym, ap, ◌==◌, if◌then◌else◌,
  All, drop-add-append, append_assoc, append-nil, Bool-cases, inl, inr,
}
use web_server_development.Text.{Bytes, codes, push_back}
use web_server_development.Text.Search.{lacks, find_text, find_text-first}
use web_server_development.Config.{Location}
use web_server_development.Response.{crlf}
use web_server_development.Log.{location_words, log_all_handlers}
use web_server_development.Handlers.Status.{pad, handlers_table, read_handlers}

-- The name and the uri have no space.
pub record IsWords (l : Location) : Type 0 where
  pub name_clean : lacks b' ' l.handler_name ≡ true
  pub uri_clean : lacks b' ' l.uri ≡ true

-- The rows of the page
abbrev pub handler_rows : List Location → Bytes
handler_rows [] = []
handler_rows (l ∷ ls) = pad l.handler_name ++ (l.uri ++ (crlf ++ handler_rows ls))

-- A word, and the space behind it
handlers_table-word :
    (odd : Bool) (word temp rest : Bytes)
    → lacks b' ' word ≡ true
    → handlers_table odd temp (word ++ b' ' ∷ rest)
      ≡ (if odd then (temp ++ word) ++ crlf else pad (temp ++ word))
        ++ handlers_table (not odd) [] rest
unfolding handlers_table
handlers_table-word odd [] temp rest h =
    ap (λ (s : Bytes). (if odd then s ++ crlf else pad s) ++ handlers_table (not odd) [] rest)
      (sym (append-nil temp))
handlers_table-word odd (c ∷ word) temp rest h = elim (Bool-cases (c == b' ')) [
  | inl space ↦ absurd (cc (rw space at h))
  | inr letter ↦
      rw (letter, handlers_table)
        (handlers_table-word odd word (push_back temp c) rest (rw letter at h)
          ∙ ap
              (λ (s : Bytes).
                (if odd then s ++ crlf else pad s) ++ handlers_table (not odd) [] rest)
              (append_assoc temp (c ∷ []) word))
]

handlers_table-location_words :
    (ls : List Location)
    → All IsWords ls
    → handlers_table false [] (location_words ls) ≡ handler_rows ls
unfolding handlers_table location_words
handlers_table-location_words [] h = refl
handlers_table-location_words (l ∷ ls) (h, hs) =
    handlers_table-word false l.handler_name [] (l.uri ++ b' ' ∷ location_words ls) h.name_clean
    ∙ ap (λ (s : Bytes). pad l.handler_name ++ s)
        (handlers_table-word true l.uri [] (location_words ls) h.uri_clean
          ∙ append_assoc l.uri crlf (handlers_table false [] (location_words ls))
          ∙ ap (λ (s : Bytes). l.uri ++ (crlf ++ s)) (handlers_table-location_words ls hs))

-- From the line that the server logs when it starts, the page takes the name and the uri of every
-- location, in their order, whatever it has taken before. They have no space, and the mark does not
-- begin in the stamp in front of the message.
pub read_handlers-log_all_handlers :
    (stamp old : Bytes) (ls : List Location)
    → find_text (codes "all handlers:") (stamp ++ codes "all handlers") ≡ none
    → All IsWords ls
    → read_handlers (stamp ++ log_all_handlers ls) old ≡ handler_rows ls
unfolding log_all_handlers read_handlers
read_handlers-log_all_handlers stamp old ls fresh h =
    rw
      (
        find_text-first (codes "all handlers") b':' stamp (b' ' ∷ location_words ls) fresh,
        read_handlers,
      )
      (ap (handlers_table false [])
          (drop-add-append stamp (codes "all handlers: " ++ location_words ls) 14)
        ∙ handlers_table-location_words ls h)
