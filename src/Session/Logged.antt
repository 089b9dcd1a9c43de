-- ===== src/Session/Logged.antt =====
-- What a session logs of the requests that it serves, and what it writes for them.
use web_server_development.Prelude.{
  ℕ, List, [], ◌∷◌, ◌++◌, some, ◌≡◌, refl, ◌∙◌, sym, ap, Result, ok, throws, >>=-eq-ok, append-nil,
  append_assoc, subst, ok-injective,
}
use web_server_development.Text.{Bytes}
use web_server_development.Request.{Request}
use web_server_development.Response.{build}
use web_server_development.Connection.{remote_endpoint, write}
use web_server_development.Log.{log_request_info}
use web_server_development.Session.Routing.{Locations, Shared, process_req}
use web_server_development.Session.Receive.{Session, serve}
use web_server_development.Session.Conversation.{thread_work-answered}
use web_server_development.Session.Delivered.{written_for}
use web_server_development.Session.Memo.{
  Answer, Memory, Agrees, both_fail, both_answer, process_req-Refines, memo_step, memo_all,
  metrics_of, Agrees-logged,
}

abbrev pub line_of : Result Bytes → Bytes
line_of (ok line) = line
line_of (throws e) = []

-- The line of a request that arrives
unfoldable pub arrival : Bytes × ℕ → Request → Bytes
unfolding log_request_info
arrival peer q = line_of (log_request_info q (some peer))

arrival_is : (peer : Bytes × ℕ) (q : Request) → log_request_info q (some peer) ≡ ok (arrival peer q)
unfolding arrival
arrival_is (address, port) q = refl

-- The lines of some requests: for each its arrival and then, if a handler made its answer, the line
-- of that
abbrev pub lines_for : Bytes × ℕ → List Request → List Answer → List Bytes
lines_for peer [] answers = []
lines_for peer (q ∷ qs) [] = []
lines_for peer (q ∷ qs) (a ∷ answers) =
    arrival peer q ∷ (metrics_of (some peer) q a ++ lines_for peer qs answers)

-- What the loop over `requests` has done, with `answers`
pub record Served (locations : Locations) (peer : Bytes × ℕ) (qs : List Request) (c : Session)
    (s : Shared) (answers : List Answer) : Type 0 where
  pub session : Session
  pub shared : Shared
  pub run_is : serve locations qs c s ≡ ok (session, shared)
  pub log_is : shared.log ≡ s.log ++ lines_for peer qs answers
  pub written_is : session.connection.written ≡ c.connection.written ++ written_for answers

write_peer :
    (b : Bytes × Bytes) (c : Session)
    → remote_endpoint (write b c.connection) ≡ remote_endpoint c.connection
unfolding write remote_endpoint
write_peer b c = refl

write_written :
    (b : Bytes × Bytes) (c : Session)
    → (write b c.connection).written ≡ c.connection.written ++ b ∷ []
unfolding write
write_written b c = refl

module _ (locations : Locations) (peer : Bytes × ℕ) where
  Served-nil : (c : Session) (s : Shared) → Served locations peer [] c s []
  unfolding serve
  Served-nil c s = record {
    session = c;
    shared = s;
    run_is = refl;
    log_is = sym (append-nil s.log);
    written_is = sym (append-nil c.connection.written);
  }

  -- One request in front of others
  Served-cons :
      (q : Request) (qs : List Request) (c : Session) (s s1 : Shared) (a : Answer)
      (answers : List Answer)
      → remote_endpoint c.connection ≡ some peer
      → process_req locations (some peer) q (record s { log = s.log ++ arrival peer q ∷ [] })
        ≡ ok (a.response, s1)
      → s1.log ≡ (s.log ++ arrival peer q ∷ []) ++ metrics_of (some peer) q a
      → Served locations peer qs
          (record c { connection = write (build a.response) c.connection })
          s1
          answers
      → Served locations peer (q ∷ qs) c s (a ∷ answers)
  unfolding serve
  Served-cons q qs c s s1 a answers there answered logged t =
      let line = arrival peer q in
      let known : log_request_info q (remote_endpoint c.connection) ≡ ok line =
        subst (λ o. log_request_info q o ≡ ok line) (sym there) (arrival_is peer q) in
      let worked =
        thread_work-answered locations q c (record s { log = s.log ++ line ∷ [] }) s1 a.response
          (subst
            (λ o.
              process_req locations o q (record s { log = s.log ++ line ∷ [] })
              ≡ ok (a.response, s1))
            (sym there) answered) in
      record {
        session = t.session;
        shared = t.shared;
        run_is = rw (known, serve) (rw worked t.run_is);
        log_is =
            t.log_is
            ∙ ap (λ (l : List Bytes). l ++ lines_for peer qs answers) logged
            ∙ append_assoc (s.log ++ line ∷ []) (metrics_of (some peer) q a)
                (lines_for peer qs answers)
            ∙ append_assoc s.log (line ∷ [])
                (metrics_of (some peer) q a ++ lines_for peer qs answers);
        written_is =
            t.written_is
            ∙ ap (λ (l : List (Bytes × Bytes)). l ++ written_for answers)
                (write_written (build a.response) c)
            ∙ append_assoc c.connection.written (build a.response ∷ []) (written_for answers);
      }

-- The loop over `requests` of a connected session serves them one by one, in their order, and
-- returns, where the server that remembers by uri answers them all: it writes exactly that server's
-- answers, and its log gets, for each request, the line of its arrival and right behind it, if a
-- handler was called for it, one line with that handler's name and the code of the answer, and no
-- other line. The cache holds what is remembered at the start.
pub serve-Served :
    (locations : Locations) (peer : Bytes × ℕ) (qs : List Request) (c : Session) (s : Shared)
    (f : Memory) (answers : List Answer)
    → remote_endpoint c.connection ≡ some peer
    → Agrees s f
    → memo_all locations qs f ≡ ok answers
    → Served locations peer qs c s answers
unfolding memo_all
serve-Served locations peer [] c s f answers there a e =
    subst (Served locations peer [] c s) (ok-injective [] answers e) (Served-nil locations peer c s)
serve-Served locations peer (q ∷ qs) c s f answers there a e =
    let ((r, g), said, rest) = >>=-eq-ok (memo_step locations q f) _ e in
    let (rs, others, done) = >>=-eq-ok (memo_all locations qs g) _ rest in
    let arrived = s.log ++ arrival peer q ∷ [] in
    elim (process_req-Refines locations (some peer) q (record s { log = arrived }) f
      (Agrees-logged s f arrived a)) [
        | both_fail fault here failed ↦ absurd (cc (said, failed))
        | both_answer r' s1 f' here agreed agree logged ↦
            let same : r' ≡ r = cc (said, agreed) in
            let held : f' ≡ g = cc (said, agreed) in
            let all_said : r' ∷ rs ≡ answers = cc (same, done) in
            subst (Served locations peer (q ∷ qs) c s) all_said (
              Served-cons locations peer q qs c s s1 r' rs there here logged (
                serve-Served locations peer qs
                  (record c { connection = write (build r'.response) c.connection }) s1 f' rs
                  (write_peer (build r'.response) c ∙ there) agree (rw held others)))
      ]
