-- ===== src/Server/Connections.antt =====
-- src/server.cc, `start_accept`; include/connection.h, the destructor of a connection. Its steps
-- and the ends of connections come in any order.
use web_server_development.Prelude.{ℕ, suc, ◌-◌, ◌≤◌, ◌≡◌, arith, ltb, if◌then◌else◌}

-- `*cnt_`, and how many connection objects there are
pub record Counters : Type 0 where
  pub cnt : ℕ
  pub connections : ℕ

abbrev pub no_connections : Counters
no_connections = record { cnt = 0; connections = 0 }

-- `start_accept`: a connection is made unless too many are open, and then a timer calls it again.
unfoldable pub start_accept : Counters → Counters
start_accept s =
    if ltb 100 s.cnt then s else record { cnt = suc s.cnt; connections = suc s.connections }

-- `~connection`
unfoldable pub end_connection : Counters → Counters
end_connection s = record { cnt = s.cnt - 1; connections = s.connections - 1 }

-- The states of a server: `start_accept` is called, or one of the connections there are ends.
pub data Reachable : Counters → Type 0 where
  begins : Reachable no_connections
  accepts : (s : Counters) → Reachable s → Reachable (start_accept s)
  ends : (s : Counters) (n : ℕ) → s.connections ≡ suc n → Reachable s → Reachable (end_connection s)

-- Whatever order the calls of `start_accept` and the ends of connections come in, the counter is
-- the number of connection objects, which is at most 101.
pub Reachable-counts :
    (s : Counters) → Reachable s → (s.cnt ≡ s.connections) × (s.connections ≤ 101)
unfolding start_accept end_connection
Reachable-counts _ begins = ground arith
Reachable-counts _ (accepts s r) = let (e, b) = Reachable-counts s r in ground arith
Reachable-counts _ (ends s n some_open r) = let (e, b) = Reachable-counts s r in ground arith
