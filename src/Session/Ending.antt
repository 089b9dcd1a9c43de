-- ===== src/Session/Ending.antt =====
-- src/session.cc, src/connection.cc: the end of a session, once its socket is closed or no read is
-- under way.
use web_server_development.Prelude.{
  ℕ, suc, ◌+◌, ◌≤◌, ◌⊎◌, Bool, true, false, some, ◌≡◌, sym, subst, inl, inr, ok, ◌==◌,
  if◌then◌else◌, arith,
}
use web_server_development.Text.{Bytes}
use web_server_development.Connection.{
  Connection, expires_from_now, read, timeout, read_ends, write_ends, expires, calls_expired,
  calls_cancelled,
}
use web_server_development.Session.Routing.{Locations, Shared}
use web_server_development.Session.Receive.{Session, received_req}
use web_server_development.Session.Lifetime.{
  Running, connection_of, with_connection, Step, Steps, receives, completes, times, times_out,
  is_cancelled, is_left, others_run, stays, goes_on, weight, callbacks,
}
use web_server_development.Session.Guarded.{IsGuarded, Step-IsGuarded}
use web_server_development.Session.Silent.{
  IsSilent, StaysSilent, Steps-StaysSilent, received_req-closed,
}

-- How many reads may still be called back: one, and a second where the one under way was started on
-- an open socket
abbrev pub reads_to_come : Connection → ℕ
reads_to_come k = if k.reads == 0 then 0 else if k.read_is_open then 2 else 1

abbrev pub to_come : Connection → ℕ
to_come k = reads_to_come k + k.writes

received_req-to_come :
    (locations : Locations) (fuel n : ℕ) (failed : Bool) (received : Bytes) (r : Running)
    (c : Session) (s : Shared)
    → (connection_of r).reads ≡ suc n
    → (failed ≡ true) ⊎ ((connection_of r).read_is_open ≡ true)
    → received_req locations fuel failed received
        (with_connection r (read_ends (connection_of r))).session
        r.shared
      ≡ some (ok (c, s))
    → IsGuarded (connection_of r)
    → IsSilent (connection_of r)
    → 1 + to_come c.connection ≤ to_come (connection_of r)
received_req-to_come locations fuel n failed received r c s some_read opened e g (inr idle) =
    absurd (cc (some_read, idle))
received_req-to_come locations fuel n true received r c s some_read opened e g (inl shut) =
    let same : c.connection ≡ read_ends (connection_of r) = unfold received_req in cc e in
    subst (λ k. 1 + to_come k ≤ to_come (connection_of r)) (sym same)
      (unfold read_ends in ground (arith, g.reads_le))
received_req-to_come locations fuel n false received r c s some_read (inl never) e g (inl shut) =
    absurd (cc never)
received_req-to_come locations fuel n false received r c s some_read (inr opened) e g (inl shut) =
    let k = read_ends (connection_of r) in
    let again =
      received_req-closed locations fuel received (with_connection r k).session c r.shared s
        (unfold read_ends in shut) e in
    subst (λ j. 1 + to_come j ≤ to_come (connection_of r)) (sym again)
      (unfold read_ends read expires_from_now in ground (arith, g.reads_le))

Step-to_come :
    (locations : Locations) (r r' : Running) (step : Step locations r r')
    → IsGuarded (connection_of r)
    → IsSilent (connection_of r)
    → weight step + to_come (connection_of r') ≤ to_come (connection_of r)
unfolding write_ends expires calls_expired calls_cancelled timeout
Step-to_come locations r _ (receives fuel n failed received c s some_read opened short e) g h =
    received_req-to_come locations fuel n failed received r c s some_read opened e g h
Step-to_come locations r _ (completes n failed some_write) g h = ground arith
Step-to_come locations r _ (times armed held) g h = ground arith
Step-to_come locations r _ (times_out n queued held) g h = ground arith
Step-to_come locations r _ (is_cancelled n queued held) g h = ground arith
Step-to_come locations r _ is_left g h = ground arith
Step-to_come locations r _ (others_run s) g h = ground arith

-- What is left of a session that is at its end
pub record Ends {locations : Locations} {r r' : Running} (steps : Steps locations r r')
    : Type 0 where
  pub guarded : IsGuarded (connection_of r')
  pub silent : StaysSilent (connection_of r) (connection_of r')
  pub called : callbacks steps + to_come (connection_of r') ≤ to_come (connection_of r)

-- Once the timeout has closed the socket, or a read has failed and none is under way, this stays
-- so whatever happens, and the session writes no response any more. It is called back at most once
-- for each write under way, and for reads at most twice, once where the read under way was started
-- on the closed socket, and never where none is. At most one read is under way at the start.
pub Steps-Ends :
    (locations : Locations) (r r' : Running) (steps : Steps locations r r')
    → IsGuarded (connection_of r)
    → IsSilent (connection_of r)
    → Ends steps
Steps-Ends locations r _ stays g h = record {
  guarded = g;
  silent = Steps-StaysSilent locations r r stays h;
  called = omega arith;
}
Steps-Ends locations r _ (goes_on r' r'' before step) g h =
    let first = Steps-Ends locations r r' before g h in
    let once = Step-to_come locations r' r'' step first.guarded first.silent.silent in
    record {
      guarded = Step-IsGuarded locations r' r'' step first.guarded;
      silent = Steps-StaysSilent locations r r'' (goes_on r' r'' before step) h;
      called = omega (arith, once, first.called);
    }
