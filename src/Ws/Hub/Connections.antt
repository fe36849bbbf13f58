-- ===== src/Ws/Hub/Connections.antt =====
-- Every connection in the table is open and belongs to its server.
use klever_node_hub.Prelude.{
  ℕ, suc, ◌<◌, ◌≡◌, refl, sym, ◌∙◌, subst, ◌≢◌, inl, inr, String, true, false, Option, none, some,
  Map, lookup, delete, ◌==◌, string_eq, nat_eq, nat_beq_iff, eq_iff, arith, lookup-insert,
  lookup-delete, Bool-cases, IsUnique, insert-IsUnique, delete-IsUnique, ◌⊎◌,
}
use klever_node_hub.Ws.Hub.{
  AgentConn, Hub, sent, not_connected, buffer_full, new_hub, with_conn, close_conn, close_existing,
  new_conn, register, unregister, unregister_found, push, push_at, send_to, send_found, send,
  is_connected, is_some, put_conn,
}

-- The connection at an address is open and is the server's.
abbrev pub OpenFor : String → Option AgentConn → Type 0
OpenFor id none = ⊥
OpenFor id (some conn) = (conn.closed ≡ false) × (conn.server_id ≡ id)

pub record IsSound (h : Hub) : Type 0 where
  pub unique : IsUnique h.connections
  pub open_for :
      (id : String) (c : ℕ) → lookup id h.connections ≡ some c → OpenFor id (lookup c h.heap)
  pub below : (id : String) (c : ℕ) → lookup id h.connections ≡ some c → c < h.next

pub new_hub-IsSound : IsSound new_hub
unfolding new_hub lookup
new_hub-IsSound = record { unique = tt; open_for = λ id c h. cc; below = λ id c h. cc }

lookup-put_conn :
    (f : AgentConn → AgentConn) (c d : ℕ) (heap : Map ℕ AgentConn) (o : Option AgentConn)
    → c ≢ d
    → lookup d (put_conn f c heap o) ≡ lookup d heap
lookup-put_conn f c d heap none h = refl
lookup-put_conn f c d heap (some conn) h =
    ground (arith, lookup-insert c d (f conn) heap, nat_beq_iff c d)

lookup-with_conn :
    (f : AgentConn → AgentConn) (c d : ℕ) (heap : Map ℕ AgentConn)
    → c ≢ d
    → lookup d (with_conn f c heap) ≡ lookup d heap
lookup-with_conn f c d heap h = lookup-put_conn f c d heap (lookup c heap) h

OpenFor-same : (i j : String) (o : Option AgentConn) → OpenFor i o → OpenFor j o → i ≡ j
OpenFor-same i j none p q = absurd p
OpenFor-same i j (some conn) p q = sym p.1 ∙ q.1

-- Two servers never share a connection.
apart :
    (h : Hub) (i j : String) (c d : ℕ)
    → IsSound h
    → lookup i h.connections ≡ some c
    → lookup j h.connections ≡ some d
    → i ≢ j
    → c ≢ d
apart h i j c d s p q ne e = ne (
    OpenFor-same i j (lookup c h.heap) (s.open_for i c p)
      (subst (λ a. OpenFor j (lookup a h.heap)) (sym e) (s.open_for j d q)))

-- Closing a server's connection leaves those of the others alone.
close_existing-other :
    (h : Hub) (i j : String) (c : ℕ) (o : Option ℕ)
    → IsSound h
    → lookup i h.connections ≡ o
    → lookup j h.connections ≡ some c
    → i ≢ j
    → lookup c (close_existing o h.heap) ≡ lookup c h.heap
unfolding close_existing
close_existing-other h i j c none s p q ne = refl
close_existing-other h i j c (some d) s p q ne =
    lookup-with_conn close_conn d c h.heap (apart h i j d c s p q ne)

ne_of_beq : (i j : String) → (i == j) ≡ false → i ≢ j
ne_of_beq i j h e = ground (arith, eq_iff i j)

register-OpenFor :
    (id : String) (now : ℕ) (h : Hub) (j : String) (c : ℕ)
    → IsSound h
    → lookup j (register id now h).0.connections ≡ some c
    → OpenFor j (lookup c (register id now h).0.heap) × (c < suc h.next)
unfolding register
register-OpenFor id now h j c s p = elim (Bool-cases (id == j)) [
  | inl same ↦
      let at_next : c ≡ h.next = ground (arith, lookup-insert id j h.next h.connections) in
      let closed = close_existing (lookup id h.connections) h.heap in
      let new_entry : lookup c (register id now h).0.heap ≡ some (new_conn id now) =
        lookup-insert h.next c (new_conn id now) closed
        ∙ ground (arith, nat_beq_iff h.next c, at_next) in
      (subst (OpenFor j) (sym new_entry) (refl, (eq_iff id j).0 same), omega (arith, at_next))
  | inr other ↦
      let old : lookup j h.connections ≡ some c =
        ground (arith, lookup-insert id j h.next h.connections) in
      let less = s.below j c old in
      let closed = close_existing (lookup id h.connections) h.heap in
      let kept : lookup c closed ≡ lookup c h.heap =
        close_existing-other h id j c (lookup id h.connections) s refl old (ne_of_beq id j other) in
      let same_heap : lookup c (register id now h).0.heap ≡ lookup c h.heap =
        lookup-insert h.next c (new_conn id now) closed
        ∙ ground (arith, nat_beq_iff h.next c, kept, less) in
      (subst (OpenFor j) (sym same_heap) (s.open_for j c old), omega (arith, less))
]

-- Register keeps the table sound: no server is in it twice, and each one in it has an open connection
-- that was made for it.
pub register-IsSound : (id : String) (now : ℕ) (h : Hub) → IsSound h → IsSound (register id now h).0
unfolding register
register-IsSound id now h s = record {
  unique = insert-IsUnique id h.next h.connections s.unique;
  open_for = λ j c p. (register-OpenFor id now h j c s p).0;
  below = λ j c p. (register-OpenFor id now h j c s p).1;
}

unregister_found-IsSound :
    (id : String) (h : Hub) (o : Option ℕ)
    → lookup id h.connections ≡ o
    → IsSound h
    → IsSound (unregister_found id h o)
unfolding unregister_found
unregister_found-IsSound id h none e s = s
unregister_found-IsSound id h (some d) e s = record {
  unique = delete-IsUnique id h.connections s.unique;
  open_for = λ j c p.
      let (ne, old) = kept j c p in
      subst (OpenFor j) (sym (lookup-with_conn close_conn d c h.heap (apart h id j d c s e old ne)))
        (s.open_for j c old);
  below = λ j c p. s.below j c (kept j c p).1;
}
  where
    kept :
        (j : String) (c : ℕ)
        → lookup j (delete id h.connections) ≡ some c
        → (id ≢ j) × (lookup j h.connections ≡ some c)
    kept j c p = elim (Bool-cases (id == j)) [
      | inl same ↦
          let gone : lookup j (delete id h.connections) ≡ none =
            ground (arith, lookup-delete id j h.connections, same) in
          cc (sym p ∙ gone)
      | inr other ↦ (ne_of_beq id j other, ground (arith, lookup-delete id j h.connections, other))
    ]

-- Unregister keeps the table sound, whether the server was connected or not.
unregister-IsSound : (id : String) (h : Hub) → IsSound h → IsSound (unregister id h)
unfolding unregister
unregister-IsSound id h s = unregister_found-IsSound id h _ refl s

-- In a sound table every server has its own connection, which is open: it stays sound when an agent
-- connects, whether its server was connected or not, and when one is cleaned up.
pub connections-IsSound :
    (id : String) (now : ℕ) (h : Hub)
    → IsSound h
    → IsSound (register id now h).0 × IsSound (unregister id h)
connections-IsSound id now h s = (register-IsSound id now h s, unregister-IsSound id h s)

-- In a sound table, and while nothing comes between the lookup and the send, a send never meets a
-- closed channel: it is refused if the server is not connected, and else is delivered or finds the
-- buffer full.
pub send-IsSafe :
    (id msg : String) (h : Hub)
    → IsSound h
    → (is_connected id h ≡ false → (send id msg h).1 ≡ not_connected)
      × (is_connected id h ≡ true → ((send id msg h).1 ≡ sent) ⊎ ((send id msg h).1 ≡ buffer_full))
unfolding send is_connected
send-IsSafe id msg h s = send_found_safe (lookup id h.connections) refl
  where
    push_safe :
        (c : ℕ) (o : Option AgentConn)
        → OpenFor id o
        → ((push_at msg c h o).1 ≡ sent) ⊎ ((push_at msg c h o).1 ≡ buffer_full)
    push_safe c none p = absurd p
    push_safe c (some conn) p = unfold push_at push in ground arith

    send_found_safe :
        (o : Option ℕ)
        → lookup id h.connections ≡ o
        → (is_some o ≡ false → (send_found msg h o).1 ≡ not_connected)
          × (is_some o ≡ true
              → ((send_found msg h o).1 ≡ sent) ⊎ ((send_found msg h o).1 ≡ buffer_full))
    send_found_safe none e = unfold send_found is_some in (λ _. refl, λ t. cc)
    send_found_safe (some c) e =
        unfold send_found is_some send_to in
        (λ t. cc, λ _. push_safe c (lookup c h.heap) (s.open_for id c e))
