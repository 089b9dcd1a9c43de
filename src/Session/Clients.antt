-- ===== src/Session/Clients.antt =====
-- The conversation of a client as a run of its session's life.
use web_server_development.Prelude.{
  ℕ, suc, ◌≤◌, true, false, List, [], ◌∷◌, some, ◌≡◌, refl, ◌∙◌, sym, ap, subst, inr, inl, ok, All,
  length, map, arith, Option-cases, Result-cases,
}
use web_server_development.Text.{Bytes}
use web_server_development.Connection.{
  Connection, remote_endpoint, expires_from_now, read, read_ends,
}
use web_server_development.Session.Routing.{Locations, Shared}
use web_server_development.Session.Receive.{Session, start, received_req}
use web_server_development.Session.Memo.{Answer, Memory, Agrees, memo_all}
use web_server_development.Session.Conversation.{
  Arrival, bytes_of, receive_all, receive_all-step, called_back, IsIdle,
}
use web_server_development.Session.Lifetime.{
  Running, connection_of, max_len, Step, Steps, receives, stays, goes_on, begun,
}
use web_server_development.Session.Guarded.{HasWritten, received_req-HasWritten}
use web_server_development.Session.Delivered.{
  Delivery, IsDelivered, all_reads, written_for, Delivered-Converses,
}

-- What one read brings fits into `data_`.
abbrev pub IsShort : Arrival → Type 0
IsShort a = length (bytes_of a) ≤ max_len

-- One read is under way, on an open socket.
record IsReading (k : Connection) : Type 0 where
  reads_is : k.reads ≡ 1
  is_open_is : k.is_open ≡ true
  read_is_open_is : k.read_is_open ≡ true

Step-Steps :
    (locations : Locations) (r r' r'' : Running)
    → Step locations r r'
    → Steps locations r' r''
    → Steps locations r r''
Step-Steps locations r r' _ step stays = goes_on r r' stays step
Step-Steps locations r r' _ step (goes_on m m' before last) =
    goes_on m m' (Step-Steps locations r r' m step before) last

read-IsReading :
    (n : ℕ) (k k' : Connection) → IsReading k → HasWritten n (read_ends k) k' → IsReading (read k')
unfolding read expires_from_now read_ends
read-IsReading n k k' i h = record {
  reads_is = omega (arith, h.reads_is, i.reads_is);
  is_open_is = h.is_open_is ∙ i.is_open_is;
  read_is_open_is = h.is_open_is ∙ i.is_open_is;
}

receive_all-Steps :
    (locations : Locations) (fuel : ℕ) (later : List Arrival) (r : Running) (c' : Session)
    (s' : Shared)
    → All IsShort later
    → IsReading (connection_of r)
    → receive_all locations fuel later r.session r.shared ≡ some (ok (c', s'))
    → Steps locations r (record { session = c'; shared = s' })
unfolding receive_all
receive_all-Steps locations fuel [] r c' s' h i e =
    let same : r ≡ record { session = c'; shared = s' } = cc e in
    subst (Steps locations r) same stays
receive_all-Steps locations fuel (a ∷ later) r c' s' (short, h) i e =
    elim (Option-cases
      (received_req locations fuel false (bytes_of a) (called_back r.session) r.shared)) [
        | inl running ↦ absurd (cc (rw (running, receive_all) at e))
        | inr (outcome, ended) ↦ elim (Result-cases outcome) [
          | inl (f, failed) ↦ absurd (cc (rw (ended, failed, receive_all) at e))
          | inr ((c1, s1), done) ↦
              let once = ended ∙ ap some done in
              let (n, (k, (wrote, again))) =
                received_req-HasWritten locations fuel (bytes_of a) (called_back r.session) c1
                  r.shared s1 once in
              let r1 : Running = record { session = c1; shared = s1 } in
              Step-Steps locations r r1 (record { session = c'; shared = s' })
                (receives fuel 0 false (bytes_of a) c1 s1 i.reads_is (inr i.read_is_open_is) short
                  once)
                (receive_all-Steps locations fuel later r1 c' s' h
                  (subst IsReading (sym again) (read-IsReading n (connection_of r) k i wrote))
                  (sym (receive_all-step locations fuel a later r.session c1 r.shared s1 once) ∙ e))
        ]
      ]

-- The session in which a client's requests have been answered
pub record Serves (locations : Locations) (fuel : ℕ) (ds : List Delivery) (r : Running)
    (answers : List Answer) : Type 0 where
  pub ended : Running
  -- It is what the reads come to, one after the other,
  pub run_is :
      receive_all locations fuel (all_reads ds) r.session r.shared
      ≡ some (ok (ended.session, ended.shared))
  -- and they are steps of the session's life.
  pub steps : Steps locations r ended
  pub idle : IsIdle ended.session
  pub written_is : (connection_of ended).written ≡ written_for answers

begun-IsReading : (peer : Bytes × ℕ) (s : Shared) → IsReading (connection_of (begun (some peer) s))
unfolding begun start read expires_from_now
begun-IsReading peer s = record {
  reads_is = omega arith;
  is_open_is = refl;
  read_is_open_is = refl;
}

-- A session begins, and its client sends any requests, one after the other. Each is sent as any text
-- that a fresh parser reads as that request to its end, with no body announced below zero in front
-- of a cut, in any number of reads of at most `max_len` bytes, however the text is cut. Then the
-- session serves each of them once, in their order, and all that it has written at the end is the
-- answers of the server that remembers by uri, its handlers on the same machine as it is at each of
-- their calls, if that server answers them all; it is at the start of a request again, and the
-- reads are steps of its life. At the start, the cache holds what is remembered. The loop of
-- `received_req` needs one round for each read.
pub begun-Serves :
    (locations : Locations) (fuel : ℕ) (peer : Bytes × ℕ) (ds : List Delivery) (s : Shared)
    (f : Memory) (answers : List Answer)
    → All IsDelivered ds
    → All IsShort (all_reads ds)
    → Agrees s f
    → memo_all locations (map (λ d. d.request) ds) f ≡ ok answers
    → Serves locations (suc fuel) ds (begun (some peer) s) answers
unfolding begun start read expires_from_now remote_endpoint
begun-Serves locations fuel peer ds s f answers i short a e =
    let r = begun (some peer) s in
    let (s', done) =
      Delivered-Converses locations fuel peer ds r.session s f answers i (refl, refl) refl a e in
    record {
      ended = record { session = done.session; shared = s' };
      run_is = done.run_is;
      steps =
          receive_all-Steps locations (suc fuel) (all_reads ds) r done.session s' short
            (begun-IsReading peer s) done.run_is;
      idle = done.idle;
      written_is = done.written_is;
    }
