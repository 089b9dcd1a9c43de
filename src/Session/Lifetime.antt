-- ===== src/Session/Lifetime.antt =====
-- src/session.cc, src/connection.cc: the life of a session, as the callbacks that Boost.Asio makes
-- for what the session has asked of it. They come in any order, one after the other, as the strand
-- of the connection makes them, and other sessions run in between.
use web_server_development.Prelude.{ℕ, suc, ◌+◌, ◌≤◌, ◌<◌, ◌⊎◌, Bool, true, some, ◌≡◌, ok, length}
use web_server_development.Text.{Bytes}
use web_server_development.Log.{Remote}
use web_server_development.Connection.{
  Connection, connected, read_ends, write_ends, expires, calls_expired, calls_cancelled, breaks,
}
use web_server_development.Session.Routing.{Locations, Shared}
use web_server_development.Session.Receive.{
  Session, new_session, start, completed_request, received_req,
}

-- A session with what it shares with the others
pub record Running : Type 0 where
  pub session : Session
  pub shared : Shared

abbrev pub connection_of : Running → Connection
connection_of r = r.session.connection

abbrev pub with_connection : Running → Connection → Running
with_connection r k = record r { session = record r.session { connection = k } }

-- A read or a write under way holds the session, and nothing else does.
abbrev pub IsHeld : Running → Type 0
IsHeld r = 0 < (connection_of r).reads + (connection_of r).writes

-- `max_len`
abbrev pub max_len : ℕ
max_len = 8192

-- One callback, or what happens elsewhere. What a call that throws, or never returns, leaves is no
-- state of the session.
pub data Step (locations : Locations) (r : Running) : Running → Type 0 where
  receives :
      (fuel n : ℕ) (failed : Bool) (received : Bytes) (c : Session) (s : Shared)
      → (connection_of r).reads ≡ suc n
      → (failed ≡ true) ⊎ ((connection_of r).read_is_open ≡ true)
      → length received ≤ max_len
      → received_req locations fuel failed received
          (with_connection r (read_ends (connection_of r))).session
          r.shared
        ≡ some (ok (c, s))
      → Step locations r (record { session = c; shared = s })
  completes :
      (n : ℕ) (failed : Bool)
      → (connection_of r).writes ≡ suc n
      → Step locations r (record (with_connection r (write_ends (connection_of r))) {
        shared = completed_request failed r.shared;
      })
  times :
      (connection_of r).armed ≡ true
      → IsHeld r
      → Step locations r (with_connection r (expires (connection_of r)))
  times_out :
      (n : ℕ)
      → (connection_of r).expired ≡ suc n
      → IsHeld r
      → Step locations r (with_connection r (calls_expired (connection_of r)))
  is_cancelled :
      (n : ℕ)
      → (connection_of r).cancelled ≡ suc n
      → IsHeld r
      → Step locations r (with_connection r (calls_cancelled (connection_of r)))
  is_left : Step locations r (with_connection r (breaks (connection_of r)))
  others_run : (s : Shared) → Step locations r (record r { shared = s })

-- Whether it is a callback of a read or a write
abbrev pub weight : {locations : Locations} {r r' : Running} → Step locations r r' → ℕ
weight (receives fuel n failed received c s some_read opened short e) = 1
weight (completes n failed some_write) = 1
weight _ = 0

-- Any number of them
pub data Steps (locations : Locations) (r : Running) : Running → Type 0 where
  stays : Steps locations r r
  goes_on :
      (r' r'' : Running) → Steps locations r r' → Step locations r' r'' → Steps locations r r''

-- How many callbacks of reads and writes there were
abbrev pub callbacks : {locations : Locations} {r r' : Running} → Steps locations r r' → ℕ
callbacks stays = 0
callbacks (goes_on r' r'' before step) = weight step + callbacks before

-- Behind `start`, which the server calls for a connection it has accepted
unfoldable pub begun : Remote → Shared → Running
unfolding start
begun peer s = record { session = start (new_session (connected peer)); shared = s }
