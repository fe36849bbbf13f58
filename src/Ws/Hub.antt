-- ===== src/Ws/Hub.antt =====
-- internal/dashboard/ws/hub.go: the table of agent connections. A connection is an object on a
-- heap, since a handler that holds one goes on using it after it has left the table; its channel
-- holds at most 64 messages, and a send on a closed channel panics. Times are nanoseconds.
pub mod Connections
pub mod Races
pub mod Tests
use klever_node_hub.Prelude.{
  ℕ, suc, ◌+◌, ◌/◌, String, Bool, true, false, List, [], ◌∷◌, ◌++◌, Option, none, some, Map, lookup,
  insert, delete, ◌==◌, string_eq, nat_eq, ltb, leb, if◌then◌else◌, length, ◌||◌,
}
use klever_node_hub.Alerting.Process.{unix}

pub record AgentConn : Type 0 where
  pub server_id : String
  pub send_ch : List String
  pub closed : Bool
  pub last_heartbeat : ℕ
  pub capabilities : List String

-- What the hub writes to the stores of servers and nodes.
pub data Write : Type 0 where
  server_heartbeat : String → ℕ → Write
  server_status : String → String → Write
  node_status : String → String → Write

-- `connections` gives each server the address of its connection; `writes` and `events` are what
-- was written and what browsers were told, the oldest first.
pub record Hub : Type 0 where
  pub heap : Map ℕ AgentConn
  pub next : ℕ
  pub connections : Map String ℕ
  pub writes : List Write
  pub events : List (String × String)

pub data SendResult : Type 0 where
  sent not_connected buffer_full panics : SendResult

abbrev pub capacity : ℕ
capacity = 64

unfoldable pub new_hub : Hub
new_hub = record { heap = []; next = 0; connections = []; writes = []; events = [] }

-- Changes the object at an address.
abbrev pub put_conn :
    (AgentConn → AgentConn) → ℕ → Map ℕ AgentConn → Option AgentConn → Map ℕ AgentConn
put_conn f c heap none = heap
put_conn f c heap (some conn) = insert c (f conn) heap

abbrev pub with_conn : (AgentConn → AgentConn) → ℕ → Map ℕ AgentConn → Map ℕ AgentConn
with_conn f c heap = put_conn f c heap (lookup c heap)

abbrev pub close_conn : AgentConn → AgentConn
close_conn conn = record conn { closed = true }

close_existing : Option ℕ → Map ℕ AgentConn → Map ℕ AgentConn
close_existing none heap = heap
close_existing (some c) heap = with_conn close_conn c heap

abbrev pub new_conn : String → ℕ → AgentConn
new_conn id now = record {
  server_id = id;
  send_ch = [];
  closed = false;
  last_heartbeat = now;
  capabilities = [];
}

-- Register: the hub, and the address of the new connection.
unfoldable pub register : String → ℕ → Hub → Hub × ℕ
unfolding close_existing
register id now h = (
  record h {
    heap = insert h.next (new_conn id now) (close_existing (lookup id h.connections) h.heap);
    next = suc h.next;
    connections = insert id h.next h.connections;
    writes = h.writes ++ server_heartbeat id (unix now) ∷ server_status id "online" ∷ [];
  },
  h.next,
)

unregister_found : String → Hub → Option ℕ → Hub
unregister_found id h none = h
unregister_found id h (some c) = record h {
  heap = with_conn close_conn c h.heap;
  connections = delete id h.connections;
  writes = h.writes ++ server_status id "offline" ∷ node_status id "unknown" ∷ [];
}

unfoldable pub unregister : String → Hub → Hub
unfolding unregister_found
unregister id h = unregister_found id h (lookup id h.connections)

-- `select { case conn.SendCh <- data: … default: … }`
push : String → ℕ → Hub → AgentConn → Hub × SendResult
push msg c h conn =
    if conn.closed
    then (h, panics)
    else if leb capacity (length conn.send_ch)
    then (h, buffer_full)
    else (
      record h { heap = insert c (record conn { send_ch = conn.send_ch ++ msg ∷ [] }) h.heap },
      sent,
    )

push_at : String → ℕ → Hub → Option AgentConn → Hub × SendResult
unfolding push
push_at msg c h none = (h, panics)
push_at msg c h (some conn) = push msg c h conn

-- The send on a connection that was looked up before.
unfoldable pub send_to : ℕ → String → Hub → Hub × SendResult
unfolding push_at
send_to c msg h = push_at msg c h (lookup c h.heap)

send_found : String → Hub → Option ℕ → Hub × SendResult
unfolding send_to
send_found msg h none = (h, not_connected)
send_found msg h (some c) = send_to c msg h

-- Send, where nothing comes between the lookup and the send. `msg` is the marshalled message.
unfoldable pub send : String → String → Hub → Hub × SendResult
unfolding send_found
send id msg h = send_found msg h (lookup id h.connections)

-- Broadcast
broadcast_over : String → Map String ℕ → Hub → Hub
unfolding send_to
broadcast_over msg [] h = h
broadcast_over msg ((id, c) ∷ m) h = broadcast_over msg m (send_to c msg h).0

unfoldable pub broadcast : String → Hub → Hub
unfolding broadcast_over
broadcast msg h = broadcast_over msg h.connections h

is_some : Option ℕ → Bool
is_some none = false
is_some (some c) = true

unfoldable pub is_connected : String → Hub → Bool
unfolding is_some
is_connected id h = is_some (lookup id h.connections)

unfoldable pub connected_count : Hub → ℕ
connected_count h = length h.connections

update_found : (AgentConn → AgentConn) → Hub → Option ℕ → Hub
update_found f h none = h
update_found f h (some c) = record h { heap = with_conn f c h.heap }

-- SetAgentCapabilities
unfoldable pub set_agent_capabilities : String → List String → Hub → Hub
unfolding update_found
set_agent_capabilities id caps h =
    update_found (λ conn. record conn { capabilities = caps }) h (lookup id h.connections)

pub contains : String → List String → Bool
contains cap [] = false
contains cap (c ∷ cs) = c == cap || contains cap cs

conn_has : String → Option AgentConn → Bool
unfolding contains
conn_has cap none = false
conn_has cap (some conn) = contains cap conn.capabilities

agent_has : String → Hub → Option ℕ → Bool
unfolding conn_has
agent_has cap h none = false
agent_has cap h (some c) = conn_has cap (lookup c h.heap)

unfoldable pub agent_has_capability : String → String → Hub → Bool
unfolding agent_has
agent_has_capability id cap h = agent_has cap h (lookup id h.connections)

-- AgentConn.UpdateHeartbeat, on the connection that the handler holds.
unfoldable pub update_heartbeat : ℕ → ℕ → Hub → Hub
update_heartbeat c now h = record h {
  heap = with_conn (λ conn. record conn { last_heartbeat = now }) c h.heap;
}

-- `time.Since(conn.LastHeartbeat()) > timeout`
unfoldable pub is_stale : Map ℕ AgentConn → ℕ → ℕ → ℕ → Bool
is_stale heap now timeout c = elim (lookup c heap) [
  | none ↦ false
  | some conn ↦ ltb (conn.last_heartbeat + timeout) now
]

unfoldable pub stale_ids : Map ℕ AgentConn → ℕ → ℕ → Map String ℕ → List String
unfolding is_stale
stale_ids heap now timeout [] = []
stale_ids heap now timeout ((id, c) ∷ m) =
    let rest = stale_ids heap now timeout m in
    if is_stale heap now timeout c then id ∷ rest else rest

-- The second loop of checkHeartbeats. `meanwhile` is what the agents and the other handlers do before
-- each Unregister, since the lock is free between the two loops and between their passes.
unfoldable pub drop_all : (String → Hub → Hub) → List String → Hub → Hub
unfolding unregister
drop_all meanwhile [] h = h
drop_all meanwhile (id ∷ ids) h =
    let h' = unregister id (meanwhile id h) in
    drop_all meanwhile ids (record h' { events = h'.events ++ ("agent.disconnected", id) ∷ [] })

-- checkHeartbeats
unfoldable pub check_heartbeats : ℕ → ℕ → (String → Hub → Hub) → Hub → Hub
unfolding stale_ids drop_all
check_heartbeats now timeout meanwhile h =
    drop_all meanwhile (stale_ids h.heap now timeout h.connections) h

-- The end of HandleUpgrade, for the connection at an address: which connection it is makes no
-- difference to it.
unfoldable pub end_connection : String → ℕ → Hub → Hub
unfolding unregister
end_connection id conn h =
    let h' = unregister id h in record h' { events = h'.events ++ ("agent.disconnected", id) ∷ [] }
