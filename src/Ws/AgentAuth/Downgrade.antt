-- ===== src/Ws/AgentAuth/Downgrade.antt =====
-- What becomes of the column `signed_auth`, and of a timestamp that lies far ahead.
use Prim.Native.String.{len}
use klever_node_hub.Prelude.{
  ℕ, ◌+◌, ◌*◌, ◌^◌, ◌≤◌, ◌<◌, ◌≡◌, ◌≢◌, length, refl, sym, subst, String, Bool, true, false, List,
  [], ◌∷◌, Option, none, some, lookup, lookup-insert, ◌==◌, string_eq, nat_eq, arith, eq_iff,
  beq_refl,
}
use klever_node_hub.Alerting.Process.{second}
use klever_node_hub.Ws.AgentAuth.{
  AgentHandler, Request, Server, Primitives, Int64, pos, AuthError, in_window, verify_agent_auth,
  check_signature, remember_nonce, mark_signed, verified, check_signed, check_required,
  authenticate_agent, unix_wrap, agent_auth_message,
}
use klever_node_hub.Ws.AgentAuth.Replay.{Attempt, try, run}

-- The server has signed before.
abbrev pub HasSigned : String → AgentHandler → Type 0
HasSigned id h = lookup id h.signed ≡ some true

mark_signed-HasSigned :
    (ok : Bool) (id other : String) (only : Bool) (h : AgentHandler)
    → HasSigned id h
    → HasSigned id (mark_signed ok other only h)
unfolding mark_signed
mark_signed-HasSigned ok id other only h s = ground (arith, lookup-insert other id true h.signed, s)

module _ (p : Primitives) where
  verified-HasSigned :
      (id : String) (ok : Bool) (srv : Server) (r : Request) (only : Bool) (now : ℕ)
      (h : AgentHandler) (o : Option AuthError)
      → HasSigned id h
      → HasSigned id (verified ok srv r only now h o).0
  unfolding verified remember_nonce
  verified-HasSigned id ok srv r only now h (some err) s = s
  verified-HasSigned id ok srv r only now h none s =
      ground
        (arith, mark_signed-HasSigned ok id srv.id only (remember_nonce srv.id r.nonce now h).0 s)

  check_signed-HasSigned :
      (id : String) (ok : Bool) (srv : Server) (r : Request) (only : Bool) (now : ℕ)
      (h : AgentHandler) (ts : Option Int64) (k : Option (List ℕ))
      → HasSigned id h
      → HasSigned id (check_signed p ok srv r only now h ts k).0
  unfolding check_signed
  check_signed-HasSigned id ok srv r only now h none k s = s
  check_signed-HasSigned id ok srv r only now h (some ts) none s = s
  check_signed-HasSigned id ok srv r only now h (some ts) (some k) s =
      verified-HasSigned id ok srv r only now h _ s

  check_required-HasSigned :
      (id : String) (req ok : Bool) (srv : Server) (r : Request) (now : ℕ) (h : AgentHandler)
      (o : Option Bool)
      → HasSigned id h
      → HasSigned id (check_required p req ok srv r now h o).0
  unfolding check_required
  check_required-HasSigned id req ok srv r now h none s = s
  check_required-HasSigned id req ok srv r now h (some only) s =
      ground (arith, check_signed-HasSigned id ok srv r only now h r.timestamp srv.key s)

  run-HasSigned :
      (id : String) (h : AgentHandler) (attempts : List Attempt)
      → HasSigned id h
      → HasSigned id (run p h attempts)
  unfolding run authenticate_agent
  run-HasSigned id h [] s = s
  run-HasSigned id h (a ∷ rest) s =
      run-HasSigned id (try p a h).0 rest
        (check_required-HasSigned id a.require_signed a.update_ok a.server a.request a.now h _ s)

  marks :
      (srv : Server) (r : Request) (now : ℕ) (h : AgentHandler) (o : Option AuthError)
      → (verified true srv r false now h o).1 ≡ true
      → HasSigned srv.id (verified true srv r false now h o).0
  unfolding verified mark_signed
  marks srv r now h (some err) t = cc
  marks srv r now h none t = ground (
    arith,
    lookup-insert srv.id srv.id true (remember_nonce srv.id r.nonce now h).0.signed,
    beq_refl srv.id,
  )

  check_signed-marks :
      (srv : Server) (r : Request) (now : ℕ) (h : AgentHandler) (ts : Option Int64)
      (k : Option (List ℕ))
      → (check_signed p true srv r false now h ts k).1 ≡ true
      → HasSigned srv.id (check_signed p true srv r false now h ts k).0
  unfolding check_signed
  check_signed-marks srv r now h none k t = cc
  check_signed-marks srv r now h (some ts) none t = cc
  check_signed-marks srv r now h (some ts) (some k) t = marks srv r now h _ t

  records :
      (req ok : Bool) (srv : Server) (r : Request) (now : ℕ) (h : AgentHandler) (o : Option Bool)
      → lookup srv.id h.signed ≡ o
      → (r.signature == "") ≡ false
      → ok ≡ true
      → (check_required p req ok srv r now h o).1 ≡ true
      → HasSigned srv.id (check_required p req ok srv r now h o).0
  unfolding check_required
  records req ok srv r now h none e s up t = cc
  records req ok srv r now h (some true) e s up t =
      check_required-HasSigned srv.id req ok srv r now h (some true) e
  records req ok srv r now h (some false) e s up t =
      rw (s, up) (check_signed-marks srv r now h r.timestamp srv.key (rw (s, up) at t))

  refuse_unsigned :
      (b : Attempt) (h : AgentHandler)
      → b.request.signature ≡ ""
      → HasSigned b.server.id h
      → (try p b h).1 ≡ false
  unfolding authenticate_agent check_required
  refuse_unsigned b h unsigned s = ground (arith, eq_iff b.request.signature "")

  -- After a signed upgrade of a server was accepted and recorded, no unsigned upgrade of that
  -- server is accepted any more, after any attempts in between and whatever the operator's setting.
  pub no_downgrade :
      (h : AgentHandler) (a b : Attempt) (between : List Attempt)
      → (a.request.signature == "") ≡ false
      → a.update_ok ≡ true
      → (try p a h).1 ≡ true
      → b.server.id ≡ a.server.id
      → b.request.signature ≡ ""
      → (try p b (run p (try p a h).0 between)).1 ≡ false
  unfolding authenticate_agent
  no_downgrade h a b between signed up accepted same unsigned = refuse_unsigned b later unsigned (
      subst (λ id. HasSigned id later) (sym same)
        (run-HasSigned a.server.id (try p a h).0 between (
          records a.require_signed a.update_ok a.server a.request a.now h
            (lookup a.server.id h.signed) refl signed up accepted)))
    where
      later : AgentHandler
      later = run p (try p a h).0 between

  -- A timestamp at least 2 ^ 63 nanoseconds ahead, which time.Unix still represents.
  abbrev pub IsFarAhead : ℕ → ℕ → Type 0
  IsFarAhead now s = (now + 2 ^ 63 ≤ s * second) × (s < unix_wrap)

  far_in_window : (now s : ℕ) → IsFarAhead now s → in_window now (pos s) ≡ true
  unfolding in_window
  far_in_window now s far = ground (arith, far.0, far.1)

  -- A valid signature, with a nonce of the right length, over a timestamp that lies 2 ^ 63
  -- nanoseconds ahead or more, and that time.Unix represents, passes at every such time.
  pub far_ahead_never_expires :
      (key bytes : List ℕ) (id nonce sig : String) (s now : ℕ)
      → IsFarAhead now s
      → nonce ≢ ""
      → len nonce ≤ 64
      → length key ≡ 32
      → p.decode_base64 sig ≡ some bytes
      → p.verify key (agent_auth_message p id (pos s) nonce) bytes ≡ true
      → verify_agent_auth p key id (pos s) nonce sig now ≡ none
  unfolding verify_agent_auth check_signature
  far_ahead_never_expires key bytes id nonce sig s now far some_nonce short size decodes valid =
      ground
        (arith, far_in_window now s far, eq_iff nonce "", some_nonce, short, size, decodes, valid)
