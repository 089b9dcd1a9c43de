-- ===== src/Connection.antt =====
-- include/connection.h, src/connection.cc: a connection, as what it has asked of Boost.Asio and not
-- yet been called back for. The counter of its destructor is in the model of the server.
use web_server_development.Prelude.{
  ℕ, suc, ◌-◌, Bool, true, false, List, [], ◌∷◌, ◌++◌, none, if◌then◌else◌,
}
use web_server_development.Text.{Bytes}
use web_server_development.Log.{Remote}

pub record Connection : Type 0 where
  -- `socket_`: whether it is open, and who is at its other end, if anyone still is
  pub is_open : Bool
  pub peer : Remote
  -- How many calls of `async_read_some`, and of `async_write`, have not called back
  pub reads : ℕ
  pub writes : ℕ
  -- The socket was open when the last read was started: if not, that read fails.
  pub read_is_open : Bool
  -- `timer_` waits.
  pub armed : Bool
  -- How many calls of `timeout` the strand has still to make: without an error, for waits that have
  -- expired, and with one, for waits that were cancelled
  pub expired : ℕ
  pub cancelled : ℕ
  -- All that `async_write` was given, oldest first: the two buffers of each response
  pub written : List (Bytes × Bytes)

-- A connection whose socket has been accepted
abbrev pub connected : Remote → Connection
connected peer = record {
  is_open = true;
  peer = peer;
  reads = 0;
  writes = 0;
  read_is_open = false;
  armed = false;
  expired = 0;
  cancelled = 0;
  written = [];
}

-- `socket()->remote_endpoint()`, which fails where the socket is closed
unfoldable pub remote_endpoint : Connection → Remote
remote_endpoint c = if c.is_open then c.peer else none

-- `timer_.expires_from_now`, which cancels a wait that has not expired
unfoldable pub expires_from_now : Connection → Connection
expires_from_now c = record c {
  armed = false;
  cancelled = if c.armed then suc c.cancelled else c.cancelled;
}

-- `tcp_connection::read`
unfoldable pub read : Connection → Connection
unfolding expires_from_now
read c =
    let waits = record (expires_from_now c) { armed = true } in
    record waits { reads = suc waits.reads; read_is_open = c.is_open }

-- `tcp_connection::write`
unfoldable pub write : Bytes × Bytes → Connection → Connection
write buffers c = record c { writes = suc c.writes; written = c.written ++ buffers ∷ [] }

-- `tcp_connection::timeout`, where `failed` is the error of the wait
unfoldable pub timeout : Bool → Connection → Connection
timeout true c = c
timeout false c = record c { is_open = false }

-- What the service of Boost.Asio does with a connection before it calls back: for a read, for a
-- write, for a wait that expires, and for a call of `timeout`
unfoldable pub read_ends : Connection → Connection
read_ends c = record c { reads = c.reads - 1 }

unfoldable pub write_ends : Connection → Connection
write_ends c = record c { writes = c.writes - 1 }

unfoldable pub expires : Connection → Connection
expires c = record c { armed = false; expired = suc c.expired }

unfoldable pub calls_expired : Connection → Connection
unfolding timeout
calls_expired c = timeout false (record c { expired = c.expired - 1 })

unfoldable pub calls_cancelled : Connection → Connection
unfolding timeout
calls_cancelled c = timeout true (record c { cancelled = c.cancelled - 1 })

-- The other end breaks the connection.
abbrev pub breaks : Connection → Connection
breaks c = record c { peer = none }
