-- ===== src/Ws/Hub/Races.antt =====
-- What an agent that reconnects meets, and what the health check leaves.
use klever_node_hub.Prelude.{
  ℕ, ◌<◌, ◌≡◌, ◌≢◌, refl, ◌∙◌, String, Bool, true, false, [], ◌∷◌, ◌++◌, Option, none, some, Map,
  lookup, insert, ◌==◌, string_eq, nat_eq, nat_beq_iff, eq_iff, if◌then◌else◌, arith, lookup-insert,
  lookup-delete,
}
use klever_node_hub.Ws.Hub.{
  end_connection, server_status, node_status, AgentConn, Hub, panics, close_conn, close_existing,
  new_conn, register, unregister, unregister_found, push, push_at, send_to, is_stale, is_connected,
  is_some,
}
use klever_node_hub.Ws.Hub.Connections.{IsSound, OpenFor}

conn_of : (id : String) (o : Option AgentConn) → OpenFor id o → (conn : AgentConn) × (o ≡ some conn)
conn_of id none p = absurd p
conn_of id (some conn) p = (conn, refl)

-- Register closes the connection that the server had.
closed_by_register :
    (id : String) (now c : ℕ) (h : Hub) (conn : AgentConn)
    → c < h.next
    → lookup id h.connections ≡ some c
    → lookup c h.heap ≡ some conn
    → lookup c (register id now h).0.heap ≡ some (close_conn conn)
unfolding register close_existing
closed_by_register id now c h conn l found at =
    rw (found, close_existing, at)
      (ground (
        arith,
        nat_beq_iff h.next c,
        nat_beq_iff c c,
        lookup-insert h.next c (new_conn id now) (insert c (close_conn conn) h.heap),
        lookup-insert c c (close_conn conn) h.heap,
      ))

-- A sender looked up the connection of a server; then the agent reconnects; then the sender sends:
-- it meets the closed channel, and panics.
pub send_races_register :
    (id msg : String) (now c : ℕ) (h : Hub)
    → IsSound h
    → lookup id h.connections ≡ some c
    → (send_to c msg (register id now h).0).1 ≡ panics
unfolding send_to push_at push
send_races_register id msg now c h s found =
    let (conn, at) = conn_of id (lookup c h.heap) (s.open_for id c found) in
    rw (closed_by_register id now c h conn (s.below id c found) found at, push_at)

-- What the end of the handler of a connection leaves, if another connection has taken its place.
abbrev pub IsDropped : String → ℕ → ℕ → Hub → Hub → Type 0
IsDropped id now new h h' =
    (is_connected id h' ≡ false)
    × (lookup new h'.heap ≡ some (close_conn (new_conn id now)))
    × (h'.writes ≡ h.writes ++ server_status id "offline" ∷ node_status id "unknown" ∷ [])
    × (h'.events ≡ h.events ++ ("agent.disconnected", id) ∷ [])

end-IsDropped :
    (id : String) (now c : ℕ) (h : Hub)
    → let (h', new) = register id now h in
      (is_connected id h' ≡ true) × IsDropped id now new h' (end_connection id c h')
unfolding is_connected is_some unregister register unregister_found end_connection
end-IsDropped id now c h =
    let closed = close_existing (lookup id h.connections) h.heap in
    let in_table : lookup id (insert id h.next h.connections) ≡ some h.next =
      lookup-insert id id h.next h.connections ∙ ground (arith, eq_iff id id) in
    let on_heap : lookup h.next (insert h.next (new_conn id now) closed) ≡ some (new_conn id now) =
      lookup-insert h.next h.next (new_conn id now) closed
      ∙ ground (arith, nat_beq_iff h.next h.next) in
    (
      rw (in_table, is_some),
      (
        ground
            (arith, in_table, lookup-delete id id (insert id h.next h.connections), eq_iff id id),
        rw (in_table, unregister_found, on_heap)
            (lookup-insert h.next h.next (close_conn (new_conn id now))
                (insert h.next (new_conn id now) closed)
              ∙ ground (arith, nat_beq_iff h.next h.next)),
        rw (in_table, unregister_found) refl,
        rw (in_table, unregister_found) refl,
      ),
    )

-- An agent reconnects, so that Register closes its old connection and makes a new one. When the
-- handler of the old connection then ends, it takes the new connection out of the table and closes
-- it, writes that the server is offline and its nodes unknown, and tells the browsers that the agent
-- has disconnected.
pub end_connection-drops_successor :
    (id : String) (now old : ℕ) (h : Hub)
    → IsSound h
    → lookup id h.connections ≡ some old
    → let (h', new) = register id now h in
      (old ≢ new)
      × ((conn : AgentConn) × (lookup old h'.heap ≡ some (close_conn conn)))
      × (lookup id h'.connections ≡ some new)
      × IsDropped id now new h' (end_connection id old h')
unfolding register
end_connection-drops_successor id now old h s found =
    let (conn, at) = conn_of id (lookup old h.heap) (s.open_for id old found) in
    let below = s.below id old found in
    (
      different below,
      (conn, closed_by_register id now old h conn below found at),
      in_table,
      (end-IsDropped id now old h).1,
    )
  where
    different : {a b : ℕ} → a < b → a ≢ b
    different below e = omega (arith, below, e)

    in_table : lookup id (register id now h).0.connections ≡ some (register id now h).1
    in_table =
        unfold register in lookup-insert id id h.next h.connections ∙ ground (arith, eq_iff id id)

-- The others change the entry of a server, if at all, right before its own Unregister.
abbrev pub LeavesToLast : (String → Hub → Hub) → String → Type 0
LeavesToLast meanwhile j =
    (i : String) (h : Hub)
    → (i == j) ≡ false
    → lookup j (meanwhile i h).connections ≡ lookup j h.connections

abbrev stale_entry : Map ℕ AgentConn → ℕ → ℕ → Option ℕ → Bool
stale_entry heap now timeout none = false
stale_entry heap now timeout (some c) = is_stale heap now timeout c

-- What the health check leaves of an entry.
abbrev pub fresh_entry : Map ℕ AgentConn → ℕ → ℕ → Option ℕ → Option ℕ
fresh_entry heap now timeout none = none
fresh_entry heap now timeout (some c) = if is_stale heap now timeout c then none else some c
