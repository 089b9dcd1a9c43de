-- ===== src/Session/Pipeline.antt =====
-- Which requests a session serves of what it receives.
use web_server_development.Prelude.{
  ℕ, suc, true, false, List, [], ◌∷◌, ◌++◌, some, ◌≡◌, refl, ◌∙◌, sym, ok, ◌>>=◌, arith, append-nil,
  length,
}
use web_server_development.Prelude.Int.{ℤ, pos, below}
use web_server_development.Text.{Bytes}
use web_server_development.Request.{Request, empty_request}
use web_server_development.RequestParser.{Parser, Parsed, good, indeterminate, initial, parse}
use web_server_development.Connection.{Connection}
use web_server_development.RequestParser.Chunks.{parse_later}
use web_server_development.RequestParser.Bounds.{parse-InBounds, parse_extends}
use web_server_development.Session.Routing.{Locations, Shared}
use web_server_development.Session.Receive.{
  Extracted, extract_once, extract, Session, serve, wait_for_req, received_req, advance,
}

-- What a fresh parser makes of no input
abbrev idle : Parsed
idle = record {
  result = indeterminate;
  rest = [];
  body_len = pos 0;
  req = empty_request;
  parser = initial;
}

advance_nothing : (received rest : Bytes) (n : ℤ) → n ≡ pos 0 → advance received rest n ≡ ok rest
unfolding advance
advance_nothing received rest n e = rw (e, advance) (ground arith)

-- One round of the loop, where `parse` completes a request
pub extract_once-good :
    (received : Bytes) (requests : List Request) (q : Request) (p : Parser) {r next : Parsed}
    → parse q p received ≡ ok r
    → r.result ≡ good
    → r.body_len ≡ pos 0
    → parse empty_request initial r.rest ≡ ok next
    → extract_once received requests q p
      ≡ ok (record { requests = requests ++ r.req ∷ []; last = next })
unfolding extract_once
extract_once-good received requests q p {r} e k z n =
    rw (e, extract_once) (ground (arith, advance_nothing received r.rest r.body_len z))

pub extract_once-indeterminate :
    (received : Bytes) (requests : List Request) (q : Request) (p : Parser) {r : Parsed}
    → parse q p received ≡ ok r
    → r.result ≡ indeterminate
    → extract_once received requests q p ≡ ok (record { requests = requests; last = r })
unfolding extract_once
extract_once-indeterminate received requests q p e k = rw (e, extract_once) (ground arith)

extract_stops :
    (fuel : ℕ) (received : Bytes) (requests : List Request) (q : Request) (p : Parser)
    {x : Extracted}
    → extract_once received requests q p ≡ ok x
    → below x.last.body_len (length x.last.rest) ≡ false
    → extract (suc fuel) received requests q p ≡ some (ok x)
unfolding extract
extract_stops fuel received requests q p e n = rw (e, extract) (ground arith)

pub extract_repeats :
    (fuel : ℕ) (received : Bytes) (requests : List Request) (q : Request) (p : Parser)
    {x : Extracted}
    → extract_once received requests q p ≡ ok x
    → below x.last.body_len (length x.last.rest) ≡ true
    → extract (suc fuel) received requests q p
      ≡ extract fuel received x.requests x.last.req x.last.parser
unfolding extract
extract_repeats fuel received requests q p e n = rw (e, extract) (ground arith)

-- A session that has read no part of a request
abbrev pub refreshed : Session → Session
refreshed c = record c { request = empty_request; request_parser = initial }

-- A session in the middle of a request
abbrev pub waiting : Session → Parsed → Session
waiting c r = record c { request = r.req; request_parser = r.parser }

-- The session with its connection in another state
abbrev pub connected_by : Connection → Session → Session
connected_by k c = record c { connection = k }

parse_nothing :
    (q : Request) (p : Parser)
    → parse q p [] ≡ ok (record idle { body_len = p.body_length; req = q; parser = p })
unfolding parse
parse_nothing q p = refl

extract-good :
    (fuel : ℕ) (xs ys : Bytes) (q : Request) (p : Parser) {r next : Parsed}
    → parse q p xs ≡ ok r
    → r.result ≡ good
    → r.rest ≡ []
    → parse empty_request initial ys ≡ ok next
    → below next.body_len (length next.rest) ≡ false
    → extract (suc fuel) (xs ++ ys) [] q p
      ≡ some (ok (record { requests = r.req ∷ []; last = next }))
extract-good fuel xs ys q p {r} {next} e k d n stop =
    let b = parse-InBounds xs q p e in
    extract_stops fuel (xs ++ ys) [] q p
      (extract_once-good (xs ++ ys) [] q p (parse_extends xs ys q p e k) k (b.good_needs_none k)
        (rw d n))
      stop

module _ (locations : Locations) where
  received_req-extract :
      (fuel : ℕ) (received : Bytes) (c : Session) (s : Shared) {x : Extracted}
      → extract fuel received [] c.request c.request_parser ≡ some (ok x)
      → received_req locations fuel false received c s
        ≡ some (do
          (c', s') ← serve locations x.requests (waiting c x.last) s
          ok (wait_for_req c', s'))
  unfolding received_req
  received_req-extract fuel received c s e = rw (e, received_req)

-- One read brings the rest of a request to its last byte, and behind it a second input `ys` that
-- the parser takes whole. Then the session serves that request, once, and no other. It waits for
-- the next read with what `parse` made of `ys`, even where that is a complete request.
pub received_req-serves_one :
    (locations : Locations) (fuel : ℕ) (xs ys : Bytes) (c : Session) (s : Shared) {r next : Parsed}
    → parse c.request c.request_parser xs ≡ ok r
    → r.result ≡ good
    → r.rest ≡ []
    → parse empty_request initial ys ≡ ok next
    → below next.body_len (length next.rest) ≡ false
    → received_req locations (suc fuel) false (xs ++ ys) c s
      ≡ some
          (do (c', s') ← serve locations (r.req ∷ []) (waiting c next) s; ok (wait_for_req c', s'))
received_req-serves_one locations fuel xs ys c s e k d n stop =
    received_req-extract locations (suc fuel) (xs ++ ys) c s
      (extract-good fuel xs ys c.request c.request_parser e k d n stop)

-- The same with nothing behind the request
pub received_req-whole :
    (locations : Locations) (fuel : ℕ) (xs : Bytes) (c : Session) (s : Shared) {r : Parsed}
    → parse c.request c.request_parser xs ≡ ok r
    → r.result ≡ good
    → r.rest ≡ []
    → received_req locations (suc fuel) false xs c s
      ≡ some (do (c', s') ← serve locations (r.req ∷ []) (refreshed c) s; ok (wait_for_req c', s'))
received_req-whole locations fuel xs c s e k d = rw append-nil at (
    received_req-serves_one locations fuel xs [] c s e k d (parse_nothing empty_request initial)
      refl)

pub received_req-partial :
    (locations : Locations) (fuel : ℕ) (xs : Bytes) (c : Session) (s : Shared) {h : Parsed}
    → parse c.request c.request_parser xs ≡ ok h
    → h.result ≡ indeterminate
    → h.rest ≡ []
    → below h.body_len 0 ≡ false
    → received_req locations (suc fuel) false xs c s ≡ some (ok (wait_for_req (waiting c h), s))
unfolding serve
received_req-partial locations fuel xs c s e i d stop =
    received_req-extract locations (suc fuel) xs c s (
      extract_stops fuel xs [] c.request c.request_parser
        (extract_once-indeterminate xs [] c.request c.request_parser e i) (rw d stop))

-- A request that arrives in two reads is served as if it had arrived in one: the first read
-- serves nothing, changes nothing outside the session and waits, and the second does what one
-- read of the whole would do, in whatever state the connection is by then. The body length
-- announced in the first part is not negative.
pub received_req-append :
    (locations : Locations) (fuel : ℕ) (xs : Bytes) (y : ℕ) (ys : Bytes) (c : Session) (s : Shared)
    (k : Connection) {r h : Parsed}
    → parse c.request c.request_parser (xs ++ y ∷ ys) ≡ ok r
    → r.result ≡ good
    → r.rest ≡ []
    → parse c.request c.request_parser xs ≡ ok h
    → below h.body_len 0 ≡ false
    → (received_req locations (suc fuel) false xs c s ≡ some (ok (wait_for_req (waiting c h), s)))
      × (received_req locations (suc fuel) false (y ∷ ys) (connected_by k (waiting c h)) s
          ≡ received_req locations (suc fuel) false (xs ++ y ∷ ys) (connected_by k c) s)
received_req-append locations fuel xs y ys c s k {r} {h} e i d eh stop =
    let later = parse_later xs y ys c.request c.request_parser e d eh in
    (
      received_req-partial locations fuel xs c s eh later.0 later.1 stop,
      received_req-whole locations fuel (y ∷ ys) (connected_by k (waiting c h)) s later.2 i d
          ∙ sym (received_req-whole locations fuel (xs ++ y ∷ ys) (connected_by k c) s e i d),
    )
