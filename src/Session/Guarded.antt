-- ===== src/Session/Guarded.antt =====
-- What holds of a session and its connection throughout the life of the session.
use web_server_development.Prelude.{
  ℕ, suc, ◌+◌, ◌≤◌, ◌<◌, Bool, true, false, List, [], ◌∷◌, ◌++◌, some, ◌≡◌, refl, ◌⊎◌, inl, inr, ok,
  arith, length, Option-cases, Result-cases, >>=-eq-ok, length-append, subst, sym,
}
use web_server_development.Text.{Bytes}
use web_server_development.Request.{Request}
use web_server_development.Response.{build}
use web_server_development.Log.{Remote, log_request_info}
use web_server_development.Connection.{
  Connection, remote_endpoint, expires_from_now, read, write, timeout, read_ends, write_ends,
  expires, calls_expired, calls_cancelled,
}
use web_server_development.Session.Routing.{Locations, Shared, process_req}
use web_server_development.Session.Receive.{
  Session, start, extract, thread_work, serve, wait_for_req, received_req,
}
use web_server_development.Session.Pipeline.{waiting}
use web_server_development.Session.Lifetime.{
  Running, connection_of, with_connection, Step, Steps, receives, completes, times, times_out,
  is_cancelled, is_left, others_run, stays, goes_on, begun,
}

-- `k'` is `k` with `n` more writes.
pub record HasWritten (n : ℕ) (k k' : Connection) : Type 0 where
  pub is_open_is : k'.is_open ≡ k.is_open
  pub reads_is : k'.reads ≡ k.reads
  pub writes_is : k'.writes ≡ n + k.writes
  pub armed_is : k'.armed ≡ k.armed
  pub expired_is : k'.expired ≡ k.expired
  pub written_is : length k'.written ≡ n + length k.written

-- One request is answered with one write.
thread_work-write :
    (locations : Locations) (q : Request) (c c' : Session) (s s' : Shared)
    → thread_work locations q c s ≡ ok (c', s')
    → (b : Bytes × Bytes) × (c'.connection ≡ write b c.connection)
unfolding thread_work
thread_work-write locations q c c' s s' e =
    elim (Result-cases (process_req locations (remote_endpoint c.connection) q s)) [
      | inl (f, failed) ↦ absurd (cc (rw (thread_work, failed) at e))
      | inr ((r, t), answered) ↦ (build r, cc (rw (thread_work, answered) at e))
    ]

write-HasWritten :
    (n : ℕ) (b : Bytes × Bytes) (k k' : Connection)
    → HasWritten n (write b k) k'
    → HasWritten (suc n) k k'
unfolding write
write-HasWritten n b k k' h = record {
  is_open_is = h.is_open_is;
  reads_is = h.reads_is;
  writes_is = omega (arith, h.writes_is);
  armed_is = h.armed_is;
  expired_is = h.expired_is;
  written_is = omega (arith, h.written_is, length-append k.written (b ∷ []));
}

HasWritten-refl : (k k' : Connection) → k ≡ k' → HasWritten 0 k k'
HasWritten-refl k k' e = subst (HasWritten 0 k) e (record {
  is_open_is = refl;
  reads_is = refl;
  writes_is = omega arith;
  armed_is = refl;
  expired_is = refl;
  written_is = omega arith;
})

serve-HasWritten :
    (locations : Locations) (qs : List Request) (c c' : Session) (s s' : Shared)
    → serve locations qs c s ≡ ok (c', s')
    → HasWritten (length qs) c.connection c'.connection
unfolding serve
serve-HasWritten locations [] c c' s s' e = HasWritten-refl c.connection c'.connection (cc e)
serve-HasWritten locations (q ∷ qs) c c' s s' e =
    let (line, told, rest) = >>=-eq-ok (log_request_info q (remote_endpoint c.connection)) _ e in
    let ((c1, s1), worked, later) =
      >>=-eq-ok (thread_work locations q c (record s { log = s.log ++ line ∷ [] })) _ rest in
    let (b, written) =
      thread_work-write locations q c c1 (record s { log = s.log ++ line ∷ [] }) s1 worked in
    write-HasWritten (length qs) b c.connection c'.connection (
      subst (λ k. HasWritten (length qs) k c'.connection) written
        (serve-HasWritten locations qs c1 c' s1 s' later))

-- What a session's connection is like between two calls
pub record IsGuarded (k : Connection) : Type 0 where
  pub reads_le : k.reads ≤ 1
  pub ends : (k.armed ≡ true) ⊎ (0 < k.expired) ⊎ (k.is_open ≡ false)
  pub writes_le : k.writes ≤ length k.written

-- `received_req` without an error: what it writes, and then the next read
pub received_req-HasWritten :
    (locations : Locations) (fuel : ℕ) (received : Bytes) (c c' : Session) (s s' : Shared)
    → received_req locations fuel false received c s ≡ some (ok (c', s'))
    → (n : ℕ) × ((k : Connection) × (HasWritten n c.connection k × (c'.connection ≡ read k)))
unfolding received_req wait_for_req
received_req-HasWritten locations fuel received c c' s s' e =
    elim (Option-cases (extract fuel received [] c.request c.request_parser)) [
      | inl running ↦ absurd (cc (rw (running, received_req) at e))
      | inr (outcome, ended) ↦ elim (Result-cases outcome) [
        | inl (f, failed) ↦ absurd (cc (rw (ended, failed, received_req) at e))
        | inr (x, done) ↦ elim (Result-cases (serve locations x.requests (waiting c x.last) s)) [
          | inl (f, failed) ↦ absurd (cc (rw (ended, done, failed, received_req) at e))
          | inr ((c1, s1), served) ↦ (
            length x.requests,
            (
              c1.connection,
              (
                serve-HasWritten locations x.requests (waiting c x.last) c1 s s1 served,
                cc (rw (ended, done, served, received_req) at e),
              ),
            ),
          )
        ]
      ]
    ]

-- A read that is started guards itself by the timer.
read-IsGuarded :
    (n : ℕ) (k k' : Connection)
    → k.reads ≡ 0
    → k.writes ≤ length k.written
    → HasWritten n k k'
    → IsGuarded (read k')
unfolding read expires_from_now
read-IsGuarded n k k' r w h = record {
  reads_le = omega (arith, h.reads_is);
  ends = inl refl;
  writes_le = omega (arith, h.writes_is, h.written_is);
}

ended_reads : (k : Connection) → k.reads ≤ 1 → (read_ends k).reads ≡ 0
unfolding read_ends
ended_reads k h = omega arith

received_req-IsGuarded :
    (locations : Locations) (fuel : ℕ) (failed : Bool) (received : Bytes) (r : Running)
    (c : Session) (s : Shared)
    → received_req locations fuel failed received
        (with_connection r (read_ends (connection_of r))).session
        r.shared
      ≡ some (ok (c, s))
    → IsGuarded (connection_of r)
    → IsGuarded c.connection
unfolding received_req read_ends
received_req-IsGuarded locations fuel true received r c s e g =
    let k = connection_of r in
    let same : c.connection ≡ read_ends k = cc e in
    subst IsGuarded (sym same)
      (record { reads_le = omega (arith, g.reads_le); ends = g.ends; writes_le = g.writes_le })
received_req-IsGuarded locations fuel false received r c s e g =
    let k = read_ends (connection_of r) in
    let (n, (k', (h, again))) =
      received_req-HasWritten locations fuel received (with_connection r k).session c r.shared s
        e in
    subst IsGuarded (sym again)
      (read-IsGuarded n k k' (ended_reads (connection_of r) g.reads_le) g.writes_le h)

pub Step-IsGuarded :
    (locations : Locations) (r r' : Running)
    → Step locations r r'
    → IsGuarded (connection_of r)
    → IsGuarded (connection_of r')
unfolding write_ends expires calls_expired calls_cancelled timeout
Step-IsGuarded locations r _ (receives fuel n failed received c s some_read opened short e) g =
    received_req-IsGuarded locations fuel failed received r c s e g
Step-IsGuarded locations r _ (completes n failed some_write) g = record {
  reads_le = g.reads_le;
  ends = g.ends;
  writes_le = omega (arith, g.writes_le);
}
Step-IsGuarded locations r _ (times armed held) g = record {
  reads_le = g.reads_le;
  ends = inr (inl (omega arith));
  writes_le = g.writes_le;
}
Step-IsGuarded locations r _ (times_out n queued held) g = record {
  reads_le = g.reads_le;
  ends = inr (inr refl);
  writes_le = g.writes_le;
}
Step-IsGuarded locations r _ (is_cancelled n queued held) g = record {
  reads_le = g.reads_le;
  ends = g.ends;
  writes_le = g.writes_le;
}
Step-IsGuarded locations r _ is_left g = record {
  reads_le = g.reads_le;
  ends = g.ends;
  writes_le = g.writes_le;
}
Step-IsGuarded locations r _ (others_run s) g = g

-- The same from any state that is guarded
pub Steps-IsGuarded :
    (locations : Locations) (r r' : Running)
    → Steps locations r r'
    → IsGuarded (connection_of r)
    → IsGuarded (connection_of r')
Steps-IsGuarded locations r _ stays g = g
Steps-IsGuarded locations r _ (goes_on r' r'' before step) g =
    Step-IsGuarded locations r' r'' step (Steps-IsGuarded locations r r' before g)

begun-IsGuarded : (peer : Remote) (s : Shared) → IsGuarded (connection_of (begun peer s))
unfolding begun start read expires_from_now
begun-IsGuarded peer s = record { reads_le = omega arith; ends = inl refl; writes_le = omega arith }

-- Whatever happens to a session, in whatever order, and whatever other sessions do, it never has two
-- reads under way; its timer is set, or the call that closes the socket is to come, or the socket is
-- closed; and no more writes are under way than responses were written.
pub begun-Steps-IsGuarded :
    (locations : Locations) (peer : Remote) (s : Shared) (r : Running)
    → Steps locations (begun peer s) r
    → IsGuarded (connection_of r)
begun-Steps-IsGuarded locations peer s r steps =
    Steps-IsGuarded locations (begun peer s) r steps (begun-IsGuarded peer s)
