-- ===== src/Server/Accepting.antt =====
-- src/server.cc: `start_accept`, `handle_accept` and `signal_handler`, as what the service of
-- Boost.Asio calls them for: an accept that ends, a timer that fires, a signal.
use web_server_development.Prelude.{
  ℕ, suc, ◌+◌, ◌-◌, ◌≤◌, Bool, true, false, not, List, [], ◌∷◌, ◌++◌, ◌≡◌, refl, ◌∙◌, sym, ap,
  arith, ltb, if◌then◌else◌,
}
use web_server_development.Text.{Bytes, codes}
use web_server_development.Text.Numbers.{to_string}
use web_server_development.Log.{log_trace_file, log_warning_file}
use web_server_development.Server.Connections.{
  Counters, no_connections, start_accept, end_connection,
}

pub record Acceptor : Type 0 where
  pub counters : Counters
  -- An `async_accept` is under way, with the connection that it is to fill.
  pub waiting : Bool
  -- The accept that was under way when `acceptor_.close()` aborted it: its connection is not
  -- destroyed, since the service is stopped before it calls back.
  pub aborted : Bool
  -- `acceptor_` is open.
  pub is_open : Bool
  -- The timer is set.
  pub timed : Bool
  -- The sessions that have started and have not ended
  pub sessions : ℕ
  -- `io_` is stopped: it calls nothing any more.
  pub stopped : Bool
  pub log : List Bytes

-- `start_accept`, with its line in the log
unfoldable pub accept_next : Acceptor → Acceptor
unfolding start_accept to_string
accept_next a =
    let line = log_trace_file (codes "Number of Connections: " ++ to_string a.counters.cnt) in
    record a {
      counters = start_accept a.counters;
      waiting = if ltb 100 a.counters.cnt then a.waiting else true;
      timed = if ltb 100 a.counters.cnt then true else a.timed;
      log = a.log ++ line ∷ [];
    }

-- `handle_accept`, with what its session leaves: with an error, the session has not started, and
-- is destroyed when the call is over.
unfoldable pub handle_accept : Bool → Acceptor → Acceptor
unfolding accept_next end_connection
handle_accept error a =
    let begun =
      accept_next
        (record a { waiting = false; sessions = if error then a.sessions else suc a.sessions }) in
    record begun { counters = if error then end_connection begun.counters else begun.counters }

-- `signal_handler`: the acceptor is closed, which aborts its accept, and the service stopped.
unfoldable pub signal_handler : Acceptor → Acceptor
signal_handler a = record a {
  waiting = false;
  aborted = a.waiting;
  is_open = false;
  stopped = true;
  log = a.log ++ log_warning_file (codes "server is shutting down") ∷ [];
}

-- A session that has started ends, and its connection with it.
unfoldable pub end_session : Acceptor → Acceptor
unfolding end_connection
end_session a = record a { counters = end_connection a.counters; sessions = a.sessions - 1 }

-- In front of the `start_accept` of the constructor
abbrev pub idle : Acceptor
idle = record {
  counters = no_connections;
  waiting = false;
  aborted = false;
  is_open = true;
  timed = false;
  sessions = 0;
  stopped = false;
  log = [];
}

-- What has happened, in any order. The service calls back only for what was asked of it, and until
-- it is stopped.
pub data Runs : Acceptor → Type 0 where
  constructed : Runs (accept_next idle)
  accepted :
      (a : Acceptor) (error : Bool)
      → a.waiting ≡ true
      → a.stopped ≡ false
      → Runs a
      → Runs (handle_accept error a)
  fires :
      (a : Acceptor)
      → a.timed ≡ true
      → a.stopped ≡ false
      → Runs a
      → Runs (accept_next (record a { timed = false }))
  signalled : (a : Acceptor) → a.stopped ≡ false → Runs a → Runs (signal_handler a)
  ended : (a : Acceptor) (n : ℕ) → a.sessions ≡ suc n → Runs a → Runs (end_session a)

-- How many connection objects an accept under way holds
abbrev pub held : Bool → ℕ
held true = 1
held false = 0

-- Until the server is stopped, its acceptor is open, and it waits for a connection or for its timer,
-- for one of them; then the acceptor is closed. Every connection object is counted: those of the
-- sessions, the one that waits, and the one of an accept that was aborted.
pub record IsAlive (a : Acceptor) : Type 0 where
  pub is_open_is : a.is_open ≡ not a.stopped
  pub timed_is : a.stopped ≡ false → a.timed ≡ not a.waiting
  pub waiting_is : a.stopped ≡ true → a.waiting ≡ false
  pub aborted_is : a.stopped ≡ false → a.aborted ≡ false
  pub cnt_is : a.counters.cnt ≡ a.sessions + held a.waiting + held a.aborted
  pub connections_is : a.counters.connections ≡ a.counters.cnt
  pub cnt_le : a.counters.cnt ≤ 101

-- No signal has come.
record IsOpen (a : Acceptor) : Type 0 where
  open_is : a.is_open ≡ true
  stopped_is : a.stopped ≡ false
  intact : a.aborted ≡ false

IsAlive-IsOpen : (a : Acceptor) → a.stopped ≡ false → IsAlive a → IsOpen a
IsAlive-IsOpen a s h = record {
  open_is = h.is_open_is ∙ ap not s;
  stopped_is = s;
  intact = h.aborted_is s;
}

-- The same while `extra` connection objects are about to be destroyed
record IsCounted (extra : ℕ) (a : Acceptor) : Type 0 where
  opened : IsOpen a
  alternates : a.timed ≡ not a.waiting
  counts : a.counters.cnt ≡ a.sessions + held a.waiting + extra
  agrees : a.counters.connections ≡ a.counters.cnt
  bounded : a.counters.cnt ≤ 101

-- `start_accept` where nothing is asked of the service
accept_next-IsCounted :
    (extra : ℕ) (a : Acceptor)
    → IsOpen a
    → a.waiting ≡ false
    → a.timed ≡ false
    → a.counters.cnt ≡ a.sessions + extra
    → a.counters.connections ≡ a.counters.cnt
    → a.counters.cnt ≤ 101
    → IsCounted extra (accept_next a)
unfolding accept_next start_accept
accept_next-IsCounted extra a i w t c o b = record {
  opened = record { open_is = i.open_is; stopped_is = i.stopped_is; intact = i.intact };
  alternates = ground arith;
  counts = ground arith;
  agrees = ground arith;
  bounded = ground arith;
}

IsCounted-IsAlive : (a : Acceptor) → IsCounted 0 a → IsAlive a
IsCounted-IsAlive a c = record {
  is_open_is = c.opened.open_is ∙ sym (ap not c.opened.stopped_is);
  timed_is = λ s. c.alternates;
  waiting_is = λ s. absurd (cc (s, c.opened.stopped_is));
  aborted_is = λ s. c.opened.intact;
  cnt_is = rw c.opened.intact (omega (arith, c.counts));
  connections_is = c.agrees;
  cnt_le = c.bounded;
}

-- What is counted before a signal
counted_open :
    (a : Acceptor) {b : Bool}
    → IsOpen a
    → IsAlive a
    → a.waiting ≡ b
    → a.counters.cnt ≡ a.sessions + held b
counted_open a {b} i h w =
    let all_held : a.counters.cnt ≡ a.sessions + held b + held false =
      h.cnt_is
      ∙ ap (λ (waits : Bool). a.sessions + held waits + held a.aborted) w
      ∙ ap (λ (aborts : Bool). a.sessions + held b + held aborts) i.intact in
    omega (arith, all_held)

-- Behind an accept, whose connection belongs to the session that starts, or is destroyed
handle_accept-IsAlive :
    (a : Acceptor) (error : Bool)
    → a.waiting ≡ true
    → a.stopped ≡ false
    → IsAlive a
    → IsAlive (handle_accept error a)
unfolding handle_accept end_connection
handle_accept-IsAlive a false w s h =
    let i = IsAlive-IsOpen a s h in
    let freed : a.timed ≡ false = h.timed_is s ∙ ap not w in
    let count : a.counters.cnt ≡ a.sessions + 1 = counted_open a i h w in
    IsCounted-IsAlive _ (
      accept_next-IsCounted 0 (record a { waiting = false; sessions = suc a.sessions })
        (record { open_is = i.open_is; stopped_is = i.stopped_is; intact = i.intact }) refl freed
        (omega (arith, count)) h.connections_is h.cnt_le)
handle_accept-IsAlive a true w s h =
    let i = IsAlive-IsOpen a s h in
    let freed : a.timed ≡ false = h.timed_is s ∙ ap not w in
    let c =
      accept_next-IsCounted 1 (record a { waiting = false })
        (record { open_is = i.open_is; stopped_is = i.stopped_is; intact = i.intact }) refl freed
        (counted_open a i h w) h.connections_is h.cnt_le in
    record {
      is_open_is = c.opened.open_is ∙ sym (ap not c.opened.stopped_is);
      timed_is = λ t. c.alternates;
      waiting_is = λ t. absurd (cc t);
      aborted_is = λ t. c.opened.intact;
      cnt_is = rw c.opened.intact (omega (arith, c.counts));
      connections_is = ap (λ (n : ℕ). n - 1) c.agrees;
      cnt_le = omega (arith, c.bounded);
    }

-- Whatever happens in whatever order, accepts with and without an error, the timer, ends of
-- sessions and a signal: until a signal stops the server, its acceptor is open, and it waits either
-- for a connection or for its timer, never for both or neither; from the signal on, the acceptor is
-- closed, and it waits for no connection. At all times the counter is the number of the sessions
-- that run, of the connection that waits, and of the one whose accept the signal aborted, and is at
-- most 101.
pub Runs-IsAlive : (a : Acceptor) → Runs a → IsAlive a
unfolding signal_handler end_session end_connection
Runs-IsAlive _ constructed = IsCounted-IsAlive _ (
    accept_next-IsCounted 0 idle (record { open_is = refl; stopped_is = refl; intact = refl }) refl
      refl refl refl (omega arith))
Runs-IsAlive _ (accepted a error w s r) = handle_accept-IsAlive a error w s (Runs-IsAlive a r)
Runs-IsAlive _ (fires a t s r) =
    let h = Runs-IsAlive a r in
    let i = IsAlive-IsOpen a s h in
    let alternates = h.timed_is s in
    let idles : a.waiting ≡ false = ground arith in
    IsCounted-IsAlive _ (
      accept_next-IsCounted 0 (record a { timed = false })
        (record { open_is = i.open_is; stopped_is = i.stopped_is; intact = i.intact }) idles refl
        (omega (arith, counted_open a i h idles)) h.connections_is h.cnt_le)
Runs-IsAlive _ (signalled a s r) =
    let h = Runs-IsAlive a r in
    record {
      is_open_is = refl;
      timed_is = λ t. absurd (cc t);
      waiting_is = λ t. refl;
      aborted_is = λ t. absurd (cc t);
      cnt_is = omega (arith, counted_open a (IsAlive-IsOpen a s h) h refl);
      connections_is = h.connections_is;
      cnt_le = h.cnt_le;
    }
Runs-IsAlive _ (ended a n some_open r) =
    let h = Runs-IsAlive a r in
    record {
      is_open_is = h.is_open_is;
      timed_is = h.timed_is;
      waiting_is = h.waiting_is;
      aborted_is = h.aborted_is;
      cnt_is = omega (arith, h.cnt_is);
      connections_is = ap (λ (n : ℕ). n - 1) h.connections_is;
      cnt_le = omega (arith, h.cnt_le);
    }
