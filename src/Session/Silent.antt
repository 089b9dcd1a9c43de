-- ===== src/Session/Silent.antt =====
-- src/session.cc, src/connection.cc: a session whose peer has left, or whose socket the timeout has
-- closed.
use web_server_development.Prelude.{
  ℕ, suc, ◌≤◌, true, false, List, [], ◌∷◌, some, ◌≡◌, refl, ◌∙◌, ◌⊎◌, inl, inr, Result, ok, throws,
  ◌>>=◌, none, system_error, arith, Option-cases, Result-cases, sym, ap, subst, Bool,
}
use web_server_development.Text.{Bytes}
use web_server_development.Request.{Request}
use web_server_development.Log.{log_request_info}
use web_server_development.Connection.{
  Connection, remote_endpoint, expires_from_now, read, timeout, read_ends, write_ends, expires,
  calls_expired, calls_cancelled,
}
use web_server_development.Session.Routing.{Locations, Shared}
use web_server_development.Session.Receive.{
  Session, Extracted, extract, serve, wait_for_req, received_req,
}
use web_server_development.Session.Pipeline.{waiting}
use web_server_development.Session.Lifetime.{
  Running, connection_of, with_connection, Step, Steps, receives, completes, times, times_out,
  is_cancelled, is_left, others_run, stays, goes_on,
}

-- What is left of `received_req` behind its loop, for the requests that this found
abbrev unserved : List Request → Session → Shared → Result (Session × Shared)
unserved [] c s = ok (wait_for_req c, s)
unserved (q ∷ qs) c s = throws system_error

-- The same for the loop over the requests
serve_unreachable :
    (locations : Locations) (qs : List Request) (c : Session) (s : Shared)
    → remote_endpoint c.connection ≡ none
    → (serve locations qs c s >>= λ (c', s'). ok (wait_for_req c', s')) ≡ unserved qs c s
unfolding serve log_request_info
serve_unreachable locations [] c s gone = refl
serve_unreachable locations (q ∷ qs) c s gone = rw gone refl

-- Where the address of the peer cannot be had, since it has left or since the timeout has closed the
-- socket, a read that completes a request makes `received_req` throw the error of
-- `remote_endpoint`, with nothing answered; a read that completes none waits for the next. The loop
-- over the received bytes returns.
received_req-unreachable :
    (locations : Locations) (fuel : ℕ) (received : Bytes) (c : Session) (s : Shared) (x : Extracted)
    → remote_endpoint c.connection ≡ none
    → extract fuel received [] c.request c.request_parser ≡ some (ok x)
    → received_req locations fuel false received c s
      ≡ some (unserved x.requests (waiting c x.last) s)
unfolding received_req
received_req-unreachable locations fuel received c s x gone found =
    rw (found, received_req)
      (ap some (serve_unreachable locations x.requests (waiting c x.last) s gone))

-- No response is written to the connection any more.
abbrev pub IsSilent : Connection → Type 0
IsSilent k = (k.is_open ≡ false) ⊎ (k.reads ≡ 0)

-- What a step leaves of a silent connection
pub record StaysSilent (k k' : Connection) : Type 0 where
  pub silent : IsSilent k'
  pub written_is : k'.written ≡ k.written
  pub writes_le : k'.writes ≤ k.writes

read-StaysSilent : (k : Connection) → k.is_open ≡ false → StaysSilent k (read (read_ends k))
unfolding read expires_from_now read_ends
read-StaysSilent k shut = record { silent = inl shut; written_is = refl; writes_le = omega arith }

remote_endpoint-closed : (k : Connection) → k.is_open ≡ false → remote_endpoint k ≡ none
unfolding remote_endpoint
remote_endpoint-closed k shut = rw shut refl

-- A read that comes through a closed socket, if the call returns
unserved-StaysSilent :
    (qs : List Request) (c c' : Session) (s s' : Shared)
    → unserved qs c s ≡ ok (c', s')
    → c'.connection ≡ read c.connection
unfolding wait_for_req
unserved-StaysSilent [] c c' s s' e = cc e
unserved-StaysSilent (q ∷ qs) c c' s s' e = cc e

-- If the call returns, its loop did.
received_req-extracts :
    (locations : Locations) (fuel : ℕ) (received : Bytes) (c c' : Session) (s s' : Shared)
    → received_req locations fuel false received c s ≡ some (ok (c', s'))
    → (x : Extracted) × (extract fuel received [] c.request c.request_parser ≡ some (ok x))
unfolding received_req
received_req-extracts locations fuel received c c' s s' e =
    elim (Option-cases (extract fuel received [] c.request c.request_parser)) [
      | inl running ↦ absurd (cc (rw (running, received_req) at e))
      | inr (outcome, ended) ↦ elim (Result-cases outcome) [
        | inl (f, failed) ↦ absurd (cc (rw (ended, failed, received_req) at e))
        | inr (x, done) ↦ (x, ended ∙ ap some done)
      ]
    ]

pub received_req-closed :
    (locations : Locations) (fuel : ℕ) (received : Bytes) (c c' : Session) (s s' : Shared)
    → c.connection.is_open ≡ false
    → received_req locations fuel false received c s ≡ some (ok (c', s'))
    → c'.connection ≡ read c.connection
received_req-closed locations fuel received c c' s s' shut e =
    let (x, found) = received_req-extracts locations fuel received c c' s s' e in
    let said =
      received_req-unreachable locations fuel received c s x
        (remote_endpoint-closed c.connection shut) found in
    unserved-StaysSilent x.requests (waiting c x.last) c' s s' (cc (said, e))

received_req-StaysSilent :
    (locations : Locations) (fuel n : ℕ) (failed : Bool) (received : Bytes) (r : Running)
    (c : Session) (s : Shared)
    → (connection_of r).reads ≡ suc n
    → received_req locations fuel failed received
        (with_connection r (read_ends (connection_of r))).session
        r.shared
      ≡ some (ok (c, s))
    → IsSilent (connection_of r)
    → StaysSilent (connection_of r) c.connection
received_req-StaysSilent locations fuel n failed received r c s some_read e (inr idle) =
    absurd (cc (some_read, idle))
received_req-StaysSilent locations fuel n true received r c s some_read e (inl shut) =
    let same : c.connection ≡ read_ends (connection_of r) = unfold received_req in cc e in
    subst (StaysSilent (connection_of r)) (sym same)
      (unfold read_ends in record { silent = inl shut; written_is = refl; writes_le = omega arith })
received_req-StaysSilent locations fuel n false received r c s some_read e (inl shut) =
    let k = read_ends (connection_of r) in
    let again =
      received_req-closed locations fuel received (with_connection r k).session c r.shared s
        (unfold read_ends in shut) e in
    subst (StaysSilent (connection_of r)) (sym again) (read-StaysSilent (connection_of r) shut)

-- A step that leaves the reads and what was written, and opens no socket
leaves-StaysSilent :
    (k k' : Connection)
    → (k.is_open ≡ false → k'.is_open ≡ false)
    → k'.reads ≡ k.reads
    → k'.written ≡ k.written
    → k'.writes ≤ k.writes
    → IsSilent k
    → StaysSilent k k'
leaves-StaysSilent k k' o r w n (inl shut) = record {
  silent = inl (o shut);
  written_is = w;
  writes_le = n;
}
leaves-StaysSilent k k' o r w n (inr idle) = record {
  silent = inr (r ∙ idle);
  written_is = w;
  writes_le = n;
}

pub Step-StaysSilent :
    (locations : Locations) (r r' : Running)
    → Step locations r r'
    → IsSilent (connection_of r)
    → StaysSilent (connection_of r) (connection_of r')
unfolding write_ends expires calls_expired calls_cancelled timeout
Step-StaysSilent locations r _ (receives fuel n failed received c s some_read opened short e) h =
    received_req-StaysSilent locations fuel n failed received r c s some_read e h
Step-StaysSilent locations r _ (completes n failed some_write) h =
    leaves-StaysSilent (connection_of r) _ (λ e. e) refl refl (omega arith) h
Step-StaysSilent locations r _ (times armed held) h =
    leaves-StaysSilent (connection_of r) _ (λ e. e) refl refl (omega arith) h
Step-StaysSilent locations r _ (times_out n queued held) h =
    leaves-StaysSilent (connection_of r) _ (λ e. refl) refl refl (omega arith) h
Step-StaysSilent locations r _ (is_cancelled n queued held) h =
    leaves-StaysSilent (connection_of r) _ (λ e. e) refl refl (omega arith) h
Step-StaysSilent locations r _ is_left h =
    leaves-StaysSilent (connection_of r) _ (λ e. e) refl refl (omega arith) h
Step-StaysSilent locations r _ (others_run s) h =
    leaves-StaysSilent (connection_of r) _ (λ e. e) refl refl (omega arith) h

-- Once the timeout has closed the socket, or a read has failed and none is under way, this stays so
-- whatever happens, and the session writes no response any more: the writes under way only get
-- fewer.
pub Steps-StaysSilent :
    (locations : Locations) (r r' : Running)
    → Steps locations r r'
    → IsSilent (connection_of r)
    → StaysSilent (connection_of r) (connection_of r')
Steps-StaysSilent locations r _ stays h =
    leaves-StaysSilent (connection_of r) (connection_of r) (λ e. e) refl refl (omega arith) h
Steps-StaysSilent locations r _ (goes_on r' r'' before step) h =
    let first = Steps-StaysSilent locations r r' before h in
    let then_ = Step-StaysSilent locations r' r'' step first.silent in
    record {
      silent = then_.silent;
      written_is = then_.written_is ∙ first.written_is;
      writes_le = omega (arith, then_.writes_le, first.writes_le);
    }
