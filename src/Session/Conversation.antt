-- ===== src/Session/Conversation.antt =====
-- A client that sends requests over one connection, each in any number of reads.
use web_server_development.Prelude.{
  ℕ, suc, false, List, [], ◌∷◌, ◌++◌, Option, none, some, ◌≡◌, refl, ◌∙◌, sym, subst, Result, ok,
  throws, ap, Option-cases, Result-cases, inl, inr, append-nil,
}
use web_server_development.Text.{Bytes}
use web_server_development.Request.{Request, empty_request}
use web_server_development.RequestParser.{Parsed, good, initial, parse}
use web_server_development.RequestParser.Chunks.{parse-append}
use web_server_development.RequestParser.Unsigned.{StaysUnsigned, StaysUnsigned-half}
use web_server_development.Response.{Response, build}
use web_server_development.Connection.{remote_endpoint, expires_from_now, read, read_ends, write}
use web_server_development.Log.{log_request_info}
use web_server_development.Session.Routing.{Locations, Shared, process_req}
use web_server_development.Session.Receive.{Session, thread_work, serve, wait_for_req, received_req}
use web_server_development.Session.Pipeline.{
  refreshed, waiting, received_req-whole, received_req-partial,
}

-- What one read brings: a byte, and more bytes
abbrev pub Arrival : Type 0
Arrival = ℕ × Bytes

abbrev pub bytes_of : Arrival → Bytes
bytes_of (b, bs) = b ∷ bs

-- The bytes of some reads, in a row
abbrev pub joined : List Arrival → Bytes
joined [] = []
joined (a ∷ later) = bytes_of a ++ joined later

-- The session when a read of its connection is over
abbrev pub called_back : Session → Session
called_back c = record c { connection = read_ends c.connection }

pub called_back_peer :
    (c : Session) → remote_endpoint (called_back c).connection ≡ remote_endpoint c.connection
unfolding remote_endpoint read_ends
called_back_peer c = refl

-- One read after the other, each with its `received_req`
unfoldable pub receive_all :
    Locations → ℕ → List Arrival → Session → Shared → Option (Result (Session × Shared))
unfolding received_req read_ends
receive_all locations fuel [] c s = some (ok (c, s))
receive_all locations fuel (a ∷ later) c s =
    elim (received_req locations fuel false (bytes_of a) (called_back c) s) [
      | none ↦ none
      | some (throws e) ↦ some (throws e)
      | some (ok (c', s')) ↦ receive_all locations fuel later c' s'
    ]

-- A session at the start of a request
abbrev pub IsIdle : Session → Type 0
IsIdle c = (c.request ≡ empty_request) × (c.request_parser ≡ initial)

-- The reads end: the session `c` has written `answers`, and is at the start of a request.
pub record Answered (c : Session) (s' : Shared) (answers : List (Bytes × Bytes))
    (run : Option (Result (Session × Shared))) : Type 0 where
  pub session : Session
  pub run_is : run ≡ some (ok (session, s'))
  pub idle : IsIdle session
  pub peer_is : remote_endpoint session.connection ≡ remote_endpoint c.connection
  pub written_is : session.connection.written ≡ c.connection.written ++ answers

pub receive_all-step :
    (locations : Locations) (fuel : ℕ) (a : Arrival) (later : List Arrival) (c c' : Session)
    (s s' : Shared)
    → received_req locations fuel false (bytes_of a) (called_back c) s ≡ some (ok (c', s'))
    → receive_all locations fuel (a ∷ later) c s ≡ receive_all locations fuel later c' s'
unfolding receive_all
receive_all-step locations fuel a later c c' s s' e = rw (e, receive_all) refl

pub receive_all-append :
    (locations : Locations) (fuel : ℕ) (later bs : List Arrival) (c c' : Session) (s s' : Shared)
    → receive_all locations fuel later c s ≡ some (ok (c', s'))
    → receive_all locations fuel (later ++ bs) c s ≡ receive_all locations fuel bs c' s'
unfolding receive_all
receive_all-append locations fuel [] bs c c' s s' e = cc
receive_all-append locations fuel (a ∷ later) bs c c' s s' e =
    elim (Option-cases (received_req locations fuel false (bytes_of a) (called_back c) s)) [
      | inl running ↦ absurd (cc (rw (running, receive_all) at e))
      | inr (outcome, ended) ↦ elim (Result-cases outcome) [
        | inl (f, failed) ↦ absurd (cc (rw (ended, failed, receive_all) at e))
        | inr ((c1, s1), done) ↦
            let once = ended ∙ ap some done in
            receive_all-step locations fuel a (later ++ bs) c c1 s s1 once
            ∙ receive_all-append locations fuel later bs c1 c' s1 s'
                (sym (receive_all-step locations fuel a later c c1 s s1 once) ∙ e)
      ]
    ]

pub thread_work-answered :
    (locations : Locations) (q : Request) (c : Session) (s s' : Shared) (r : Response)
    → process_req locations (remote_endpoint c.connection) q s ≡ ok (r, s')
    → thread_work locations q c s ≡ ok (record c { connection = write (build r) c.connection }, s')
unfolding thread_work write
thread_work-answered locations q c s s' r e = rw (e, thread_work) refl

-- One request is served, and its answer written.
serve_one :
    (locations : Locations) (peer : Bytes × ℕ) (q : Request) (c : Session) (s s' : Shared)
    (r : Response) {line : Bytes}
    → remote_endpoint c.connection ≡ some peer
    → log_request_info q (some peer) ≡ ok line
    → process_req locations (some peer) q (record s { log = s.log ++ line ∷ [] }) ≡ ok (r, s')
    → serve locations (q ∷ []) c s ≡ ok (record c { connection = write (build r) c.connection }, s')
unfolding serve write
serve_one locations peer q c s s' r {line} there told answered =
    let known : log_request_info q (remote_endpoint c.connection) ≡ ok line = rw there told in
    let worked =
      thread_work-answered locations q c (record s { log = s.log ++ line ∷ [] }) s' r
        (subst (λ o. process_req locations o q (record s { log = s.log ++ line ∷ [] }) ≡ ok (r, s'))
          (sym there) answered) in
    rw (known, serve) (rw worked refl)

-- A request comes in reads, the first of them `a`, and is answered behind the last.
pub receive_all-request :
    (locations : Locations) (fuel : ℕ) (peer : Bytes × ℕ) (later : List Arrival) (a : Arrival)
    (c : Session) (s s' : Shared) (answer : Response) {r : Parsed} {line : Bytes}
    → parse c.request c.request_parser (joined (a ∷ later)) ≡ ok r
    → r.result ≡ good
    → r.rest ≡ []
    → StaysUnsigned c.request c.request_parser (joined (a ∷ later))
    → remote_endpoint c.connection ≡ some peer
    → log_request_info r.req (some peer) ≡ ok line
    → process_req locations (some peer) r.req (record s { log = s.log ++ line ∷ [] })
      ≡ ok (answer, s')
    → Answered c s' (build answer ∷ []) (receive_all locations (suc fuel) (a ∷ later) c s)
unfolding write wait_for_req
receive_all-request locations fuel peer [] a c s s' answer {r} e k d u there told answered =
    let c1 = refreshed (called_back c) in
    let c2 = record c1 { connection = write (build answer) c1.connection } in
    let whole =
      received_req-whole locations fuel (bytes_of a) (called_back c) s (rw append-nil at e) k d in
    let served =
      serve_one locations peer r.req c1 s s' answer (rw (called_back_peer c) there) told answered in
    let step =
      receive_all-step locations (suc fuel) a [] c (wait_for_req c2) s s'
        (whole ∙ rw served refl) in
    record {
      session = wait_for_req c2;
      run_is = step ∙ (unfold receive_all in refl);
      idle = (refl, refl);
      peer_is = unfold read_ends read expires_from_now remote_endpoint in refl;
      written_is = unfold read_ends read expires_from_now in refl;
    }
receive_all-request locations fuel peer ((y, ys) ∷ later) a c s s' answer {r} e k d u there told
      answered =
    let w = parse-append (bytes_of a) y (ys ++ joined later) c.request c.request_parser e d in
    let c1 = wait_for_req (waiting (called_back c) w.half) in
    let first =
      received_req-partial locations fuel (bytes_of a) (called_back c) s w.parsed w.result_is
        w.rest_is (u (bytes_of a) (joined ((y, ys) ∷ later)) w.half refl w.parsed) in
    let same : remote_endpoint c1.connection ≡ remote_endpoint c.connection =
      unfold read_ends read expires_from_now remote_endpoint in refl in
    let rest =
      receive_all-request locations fuel peer later (y, ys) c1 s s' answer w.resumes k d
        (StaysUnsigned-half (bytes_of a) y (ys ++ joined later) c.request c.request_parser w.half e
          d w.parsed u)
        (same ∙ there) told answered in
    record {
      session = rest.session;
      run_is =
          receive_all-step locations (suc fuel) a ((y, ys) ∷ later) c c1 s s first ∙ rest.run_is;
      idle = rest.idle;
      peer_is = rest.peer_is ∙ same;
      written_is = rest.written_is ∙ (unfold read_ends read expires_from_now in refl);
    }
