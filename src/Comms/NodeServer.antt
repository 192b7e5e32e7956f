-- ===== src/Comms/NodeServer.antt =====
-- include/crisp/comms/NodeServer.hh and include/crisp/comms/bits/NodeServer.tcc: the server that accepts
-- connections. A connected node is a number, given out in order. What `server_main` does from one test of
-- its loops to the next is one step, as is what others do in between: a node that disconnects, and
-- `halt`. The nodes that `halt` halts leave the set as they disconnect, which are steps of their own;
-- the handler of a disconnection takes its node by a reference that no longer stands, so it may take
-- any number from the set.
pub mod Laws
pub mod Tests
use robocrisp.Base.{
  ℕ, zero, ◌+◌, ◌-◌, ◌<◌, ◌≡◌, Bool, true, false, not, ◌&&◌, ◌||◌, List, [], ◌∷◌, length, size_mod,
  ltb, leb, ◌==◌, if◌then◌else◌,
}
use robocrisp.Util.Signal.{erase}

-- Where `server_main` stands: before it, at the test of the loop, waiting for a connection slot, in
-- `accept`, waiting for the connections to close, and behind its end.
pub data Position : Type 0 where
  starting guarding waiting accepting draining ended : Position

pub record Server : Type 0 where
  pub nodes : List ℕ
  pub next_node : ℕ
  pub max_simultaneous_connections : ℕ
  pub max_cumulative_connections : ℕ
  pub num_cumulative_connections : ℕ
  pub halting : Bool
  pub stopped : Bool
  pub position : Position

-- The constructor, which leaves the bound on simultaneous connections at 0.
abbrev pub new : ℕ → ℕ → Server
new simultaneous cumulative = record {
  nodes = [];
  next_node = 0;
  max_simultaneous_connections = 0;
  max_cumulative_connections = cumulative;
  num_cumulative_connections = 0;
  halting = false;
  stopped = false;
  position = starting;
}

-- `halt`.
unfoldable pub halt : Server → Server
halt s = if s.halting then s else record s { halting = true; stopped = true }

-- The condition of the loop, and the one for waiting.
abbrev pub goes_on : Server → Bool
goes_on s =
    (ltb s.num_cumulative_connections s.max_cumulative_connections
      || (s.max_cumulative_connections == 0))
    && not s.stopped

abbrev pub is_full : Server → Bool
is_full s =
    ltb 0 s.max_simultaneous_connections && ltb s.max_simultaneous_connections (length s.nodes)

-- `SIZE_MAX` where there is to be no bound.
abbrev pub or_unlimited : ℕ → ℕ
or_unlimited n = if n == 0 then size_mod - 1 else n

-- `server_main` from where it stands; in `accept` it waits for an outcome.
unfoldable pub main : Position → Server → Server
main starting s = record s {
  max_cumulative_connections = or_unlimited s.max_cumulative_connections;
  position = guarding;
}
main guarding s =
    if goes_on s
    then (if is_full s then record s { position = waiting } else record s { position = accepting })
    else record s { position = draining }
main waiting s =
    if leb s.max_simultaneous_connections (length s.nodes)
    then s
    else record s { position = accepting }
main accepting s = s
main draining s = if ltb 0 (length s.nodes) then s else record (halt s) { position = ended }
main ended s = s

-- A connection that is accepted.
unfoldable pub accept : Server → Server
accept s = record s {
  nodes = s.next_node ∷ s.nodes;
  next_node = s.next_node + 1;
  num_cumulative_connections = s.num_cumulative_connections + 1;
  position = guarding;
}

-- The handler of `on_disconnect`.
unfoldable pub disconnect : ℕ → Server → Server
disconnect x s = record s { nodes = erase x s.nodes }

-- The bound on simultaneous connections is a public member, which is set before the server starts.
pub data Step : Server → Server → Type 0 where
  limits :
      {s : Server} (n : ℕ)
      → s.position ≡ starting
      → Step s (record s { max_simultaneous_connections = n })
  advances : {s : Server} → Step s (main s.position s)
  accepts : {s : Server} → s.position ≡ accepting → Step s (accept s)
  refuses : {s : Server} → s.position ≡ accepting → Step s (record s { position = draining })
  disconnects : {s : Server} (x : ℕ) → Step s (disconnect x s)
  halts : {s : Server} → Step s (halt s)

pub data Reach (start : Server) : Server → Type 0 where
  stays : Reach start start
  goes : {s s' : Server} → Reach start s → Step s s' → Reach start s'
