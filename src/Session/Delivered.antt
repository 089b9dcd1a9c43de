-- ===== src/Session/Delivered.antt =====
-- The bytes of a client's requests, in any reads, against the requests themselves.
use web_server_development.Prelude.{
  ℕ, suc, List, [], ◌∷◌, ◌++◌, some, ◌≡◌, refl, ◌≢◌, ◌∙◌, sym, subst, ok-injective, ok, >>=-eq-ok,
  All, map, append_assoc, append-nil,
}
use web_server_development.Text.{Bytes}
use web_server_development.Request.{Request, empty_request, invalid}
use web_server_development.RequestParser.{Parsed, good, initial, parse}
use web_server_development.RequestParser.WellFormed.{IsWellFormed}
use web_server_development.RequestParser.Reparse.{AnnouncesBody, parse-echo_text}
use web_server_development.RequestParser.Unsigned.{StaysUnsigned}
use web_server_development.RequestParser.Cuts.{echo_text-StaysUnsigned}
use web_server_development.Response.{Response, build}
use web_server_development.Handlers.Echo.{echo_text}
use web_server_development.Connection.{remote_endpoint}
use web_server_development.Log.{log_request_info}
use web_server_development.Session.Routing.{Locations, Shared, process_req}
use web_server_development.Session.Receive.{Session}
use web_server_development.Session.Memo.{
  Answer, Memory, Agrees, Agrees-logged, both_fail, both_answer, process_req-Refines, memo_step,
  memo_all,
}
use web_server_development.Session.Conversation.{
  Arrival, joined, receive_all, receive_all-append, receive_all-request, IsIdle, Answered,
}

-- A request, and the reads that bring its text
pub record Delivery : Type 0 where
  pub request : Request
  pub first : Arrival
  pub later : List Arrival

-- The text that the reads bring, however it is cut, is read by a fresh parser as the request, to its
-- end, and no part of it in front of a cut announces a body of a length below zero.
pub record IsDelivered (d : Delivery) : Type 0 where
  pub parsed : Parsed
  pub outcome_is : parse empty_request initial (joined (d.first ∷ d.later)) ≡ ok parsed
  pub result_is : parsed.result ≡ good
  pub rest_is : parsed.rest ≡ []
  pub req_is : parsed.req ≡ d.request
  pub unsigned : StaysUnsigned empty_request initial (joined (d.first ∷ d.later))

-- The text that spells a well-formed request, in any reads, is such.
pub echo_text-IsDelivered :
    (d : Delivery)
    → joined (d.first ∷ d.later) ≡ echo_text d.request
    → IsWellFormed d.request
    → d.request.method ≢ invalid
    → AnnouncesBody d.request
    → IsDelivered d
echo_text-IsDelivered d t w m b =
    let a = parse-echo_text d.request w m b in
    record {
      parsed = a.parsed;
      outcome_is = rw t a.outcome_is;
      result_is = a.result_is;
      rest_is = a.rest_is;
      req_is = a.req_is;
      unsigned = rw t (echo_text-StaysUnsigned d.request w m b);
    }

abbrev pub all_reads : List Delivery → List Arrival
all_reads [] = []
all_reads (d ∷ ds) = (d.first ∷ d.later) ++ all_reads ds

told_to :
    (q : Request) (peer : Bytes × ℕ) → (line : Bytes) × (log_request_info q (some peer) ≡ ok line)
unfolding log_request_info
told_to q (address, port) = (_, refl)

-- One delivery, where `process_req` answers its request
receive_all-delivery :
    (locations : Locations) (fuel : ℕ) (peer : Bytes × ℕ) (d : Delivery) (c : Session)
    (s s' : Shared) (answer : Response) {line : Bytes}
    → IsDelivered d
    → IsIdle c
    → remote_endpoint c.connection ≡ some peer
    → log_request_info d.request (some peer) ≡ ok line
    → process_req locations (some peer) d.request (record s { log = s.log ++ line ∷ [] })
      ≡ ok (answer, s')
    → Answered c s' (build answer ∷ []) (receive_all locations (suc fuel) (d.first ∷ d.later) c s)
receive_all-delivery locations fuel peer d c s s' answer {line} i (empty, fresh) there told
      answered =
    let parsed : parse c.request c.request_parser (joined (d.first ∷ d.later)) ≡ ok i.parsed =
      rw (empty, fresh) i.outcome_is in
    receive_all-request locations fuel peer d.later d.first c s s' answer {line = line} parsed
      i.result_is i.rest_is (rw (empty, fresh) i.unsigned) there (rw i.req_is told)
      (rw i.req_is answered)

-- What is written for some answers
abbrev pub written_for : List Answer → List (Bytes × Bytes)
written_for answers = map (λ a. build a.response) answers

-- What a session makes of some deliveries, where their requests are answered with `answers`
abbrev pub Converses : Locations → ℕ → List Delivery → Session → Shared → List Answer → Type 0
Converses locations fuel ds c s answers =
    (s' : Shared) × Answered c s' (written_for answers)
      (receive_all locations fuel (all_reads ds) c s)

Converses-nil :
    (locations : Locations) (fuel : ℕ) (c : Session) (s : Shared)
    → IsIdle c
    → Converses locations fuel [] c s []
unfolding receive_all
Converses-nil locations fuel c s idle = (
  s,
  record {
    session = c;
    run_is = refl;
    idle = idle;
    peer_is = refl;
    written_is = sym (append-nil c.connection.written);
  },
)

-- One delivery and then the others
Converses-cons :
    (locations : Locations) (fuel : ℕ) (d : Delivery) (ds : List Delivery) (c : Session)
    (s s' : Shared) (answer : Answer) (answers : List Answer)
    (a : Answered c s'
      (build answer.response ∷ [])
      (receive_all locations fuel (d.first ∷ d.later) c s))
    → Converses locations fuel ds a.session s' answers
    → Converses locations fuel (d ∷ ds) c s (answer ∷ answers)
Converses-cons locations fuel d ds c s s' answer answers a (s'', rest) =
    let written = build answer.response ∷ [] in
    (
      s'',
      record {
        session = rest.session;
        run_is =
            receive_all-append locations fuel (d.first ∷ d.later) (all_reads ds) c a.session s s'
              a.run_is
            ∙ rest.run_is;
        idle = rest.idle;
        peer_is = rest.peer_is ∙ a.peer_is;
        written_is = rest.written_is ∙ rw (a.written_is, append_assoc) refl;
      },
    )

-- Over one connection, a client sends any requests, one after the other, each as any text that the
-- parser reads as that request, in any number of reads, however the text is cut. Then the session
-- serves each of them once, in their order, and writes for them exactly the answers of the server
-- that remembers by uri, if that server answers them all. At the start the session is at the start
-- of a request, the peer is connected, and the cache holds what is remembered. The loop of
-- `received_req` needs one round for each read.
pub Delivered-Converses :
    (locations : Locations) (fuel : ℕ) (peer : Bytes × ℕ) (ds : List Delivery) (c : Session)
    (s : Shared) (f : Memory) (answers : List Answer)
    → All IsDelivered ds
    → IsIdle c
    → remote_endpoint c.connection ≡ some peer
    → Agrees s f
    → memo_all locations (map (λ d. d.request) ds) f ≡ ok answers
    → Converses locations (suc fuel) ds c s answers
unfolding memo_all
Delivered-Converses locations fuel peer [] c s f answers i idle there a e =
    subst (Converses locations (suc fuel) [] c s) (ok-injective [] answers e)
      (Converses-nil locations (suc fuel) c s idle)
Delivered-Converses locations fuel peer (d ∷ ds) c s f answers (i, is) idle there a e =
    let ((r, g), said, rest) = >>=-eq-ok (memo_step locations d.request f) _ e in
    let (rs, others, done) = >>=-eq-ok (memo_all locations (map (λ d'. d'.request) ds) g) _ rest in
    let (line, told) = told_to d.request peer in
    elim (process_req-Refines locations (some peer) d.request
      (record s { log = s.log ++ line ∷ [] }) f (Agrees-logged s f (s.log ++ line ∷ []) a)) [
        | both_fail fault here failed ↦ absurd (cc (said, failed))
        | both_answer r' s' f' here agreed agree logged ↦
            let one =
              receive_all-delivery locations fuel peer d c s s' r'.response i idle there told
                here in
            let same : r' ≡ r = cc (said, agreed) in
            let held : f' ≡ g = cc (said, agreed) in
            let all_said : r' ∷ rs ≡ answers = cc (same, done) in
            subst (Converses locations (suc fuel) (d ∷ ds) c s) all_said (
              Converses-cons locations (suc fuel) d ds c s s' r' rs one (
                Delivered-Converses locations fuel peer ds one.session s' f' rs is one.idle
                  (one.peer_is ∙ there) agree (rw held others)))
      ]
