-- ===== src/Ws/AgentAuth/Replay.antt =====
-- A signed upgrade is accepted once, and an agent that has signed is not let in without.
use klever_node_hub.Prelude.{
  ℕ, ◌+◌, ◌*◌, ◌^◌, ◌≤◌, ◌<◌, ◌≡◌, refl, sym, ap, ◌∙◌, subst, inl, inr, String, Bool, true, false,
  List, [], ◌∷◌, Option, none, some, Map, lookup, IsUnique, lookup-insert, lookup-retain,
  retain-IsUnique, insert-IsUnique, ◌==◌, string_eq, nat_eq, arith, eq_iff, Bool-cases, beq_refl,
}
use mathlib.Core.Option.{some-injective}
use klever_node_hub.Alerting.Process.{second}
use klever_node_hub.Ws.AgentAuth.{
  AgentHandler, Request, Server, Primitives, Int64, pos, negsuc, AuthError, max_skew, in_window,
  verify_agent_auth, check_signature, nonce_key, prune_nonces, remember, remember_nonce,
  mark_signed, verified, check_signed, check_required, authenticate_agent,
}

-- One call of authenticateAgent.
pub record Attempt : Type 0 where
  pub now : ℕ
  pub require_signed : Bool
  pub update_ok : Bool
  pub server : Server
  pub request : Request

module _ (p : Primitives) where
  abbrev pub try : Attempt → AgentHandler → AgentHandler × Bool
  try a h = authenticate_agent p a.require_signed a.update_ok a.server a.request a.now h

  unfoldable pub run : AgentHandler → List Attempt → AgentHandler
  run h [] = h
  run h (a ∷ rest) = run (try a h).0 rest

-- The attempts come in order of time, from `from` to `to`.
abbrev pub InOrder : ℕ → List Attempt → ℕ → Type 0
InOrder from [] to = from ≤ to
InOrder from (a ∷ rest) to = (from ≤ a.now) × InOrder a.now rest to

-- The nonce stays in the cache until it expires.
record IsCached (key : String) (exp : ℕ) (now : ℕ) (seen : Map String ℕ) : Type 0 where
  unique : IsUnique seen
  cached : now ≤ exp → lookup key seen ≡ some exp

prune-IsCached :
    (key : String) (exp from now : ℕ) (seen : Map String ℕ)
    → from ≤ now
    → IsCached key exp from seen
    → IsCached key exp now (prune_nonces now seen)
prune-IsCached key exp from now seen h c = record {
  unique = retain-IsUnique _ seen c.unique;
  cached = λ l. lookup-retain _ key seen c.unique ∙ rw (c.cached (omega arith)) (ground arith);
}

remember-IsCached :
    (key other : String) (exp now : ℕ) (seen : Map String ℕ) (o : Option ℕ)
    → lookup other seen ≡ o
    → IsCached key exp now seen
    → IsCached key exp now (remember other now seen o).0
unfolding remember
remember-IsCached key other exp now seen none h c = record {
  unique = insert-IsUnique other _ seen c.unique;
  cached = λ l.
      ground
        (arith, lookup-insert other key (now + 2 * max_skew) seen, c.cached l, eq_iff other key);
}
remember-IsCached key other exp now seen (some e) h c = c

remember_nonce-IsCached :
    (key server_id nonce : String) (exp from now : ℕ) (h : AgentHandler)
    → from ≤ now
    → IsCached key exp from h.seen_nonces
    → IsCached key exp now (remember_nonce server_id nonce now h).0.seen_nonces
unfolding remember_nonce
remember_nonce-IsCached key server_id nonce exp from now h l c =
    remember-IsCached key (nonce_key server_id nonce) exp now _ _ refl
      (prune-IsCached key exp from now h.seen_nonces l c)

later-IsCached :
    (key : String) (exp from now : ℕ) (seen : Map String ℕ)
    → from ≤ now
    → IsCached key exp from seen
    → IsCached key exp now seen
later-IsCached key exp from now seen l c = record {
  unique = c.unique;
  cached = λ h. c.cached (omega arith);
}

seen-mark_signed :
    (ok : Bool) (id : String) (only : Bool) (h : AgentHandler)
    → (mark_signed ok id only h).seen_nonces ≡ h.seen_nonces
unfolding mark_signed
seen-mark_signed ok id only h = ground arith

seen-verified :
    (ok : Bool) (srv : Server) (r : Request) (only : Bool) (now : ℕ) (h : AgentHandler)
    → (verified ok srv r only now h none).0.seen_nonces
      ≡ (remember_nonce srv.id r.nonce now h).0.seen_nonces
unfolding verified
seen-verified ok srv r only now h =
    ground (arith, seen-mark_signed ok srv.id only (remember_nonce srv.id r.nonce now h).0)

module _ (p : Primitives) (key : String) (exp from : ℕ) where
  verified-IsCached :
      (ok : Bool) (srv : Server) (r : Request) (only : Bool) (now : ℕ) (h : AgentHandler)
      (o : Option AuthError)
      → from ≤ now
      → IsCached key exp from h.seen_nonces
      → IsCached key exp now (verified ok srv r only now h o).0.seen_nonces
  unfolding verified
  verified-IsCached ok srv r only now h (some err) l c = later-IsCached key exp from now _ l c
  verified-IsCached ok srv r only now h none l c =
      subst (IsCached key exp now) (sym (seen-verified ok srv r only now h))
        (remember_nonce-IsCached key srv.id r.nonce exp from now h l c)

  check_signed-IsCached :
      (ok : Bool) (srv : Server) (r : Request) (only : Bool) (now : ℕ) (h : AgentHandler)
      (ts : Option Int64) (k : Option (List ℕ))
      → from ≤ now
      → IsCached key exp from h.seen_nonces
      → IsCached key exp now (check_signed p ok srv r only now h ts k).0.seen_nonces
  unfolding check_signed
  check_signed-IsCached ok srv r only now h none k l c = later-IsCached key exp from now _ l c
  check_signed-IsCached ok srv r only now h (some ts) none l c =
      later-IsCached key exp from now _ l c
  check_signed-IsCached ok srv r only now h (some ts) (some k) l c =
      verified-IsCached ok srv r only now h _ l c

  check_required-IsCached :
      (req ok : Bool) (srv : Server) (r : Request) (now : ℕ) (h : AgentHandler) (o : Option Bool)
      → from ≤ now
      → IsCached key exp from h.seen_nonces
      → IsCached key exp now (check_required p req ok srv r now h o).0.seen_nonces
  unfolding check_required
  check_required-IsCached req ok srv r now h none l c = later-IsCached key exp from now _ l c
  check_required-IsCached req ok srv r now h (some only) l c = ground (
    arith,
    later-IsCached key exp from now h.seen_nonces l c,
    check_signed-IsCached ok srv r only now h r.timestamp srv.key l c,
  )

module _ (p : Primitives) where
  run-IsCached :
      (key : String) (exp from to : ℕ) (h : AgentHandler) (attempts : List Attempt)
      → InOrder from attempts to
      → IsCached key exp from h.seen_nonces
      → IsCached key exp to (run p h attempts).seen_nonces
  unfolding run authenticate_agent
  run-IsCached key exp from to h [] o c = later-IsCached key exp from to h.seen_nonces o c
  run-IsCached key exp from to h (a ∷ rest) o c =
      run-IsCached key exp a.now to (try p a h).0 rest o.1 (
        check_required-IsCached p key exp from a.require_signed a.update_ok a.server a.request a.now
          h _ o.0 c)

  -- What a signed attempt passed when it was accepted.
  record Passed (srv : Server) (r : Request) (now : ℕ) (h h' : AgentHandler) : Type 0 where
    stamp : Int64
    stamped : r.timestamp ≡ some stamp
    recent : in_window now stamp ≡ true
    fresh : (remember_nonce srv.id r.nonce now h).1 ≡ true
    seen : h'.seen_nonces ≡ (remember_nonce srv.id r.nonce now h).0.seen_nonces

  in_window_of_verified :
      (key : List ℕ) (id : String) (ts : Int64) (nonce sig : String) (now : ℕ)
      → verify_agent_auth p key id ts nonce sig now ≡ none
      → in_window now ts ≡ true
  unfolding verify_agent_auth check_signature
  in_window_of_verified key id ts nonce sig now h = ground arith

  fresh_of_verified :
      (ok : Bool) (srv : Server) (r : Request) (only : Bool) (now : ℕ) (h : AgentHandler)
      (o : Option AuthError)
      → (verified ok srv r only now h o).1 ≡ true
      → (o ≡ none) × ((remember_nonce srv.id r.nonce now h).1 ≡ true)
  unfolding verified
  fresh_of_verified ok srv r only now h none t = (refl, ground arith)
  fresh_of_verified ok srv r only now h (some err) t = cc

  check_signed-Passed :
      (ok : Bool) (srv : Server) (r : Request) (only : Bool) (now : ℕ) (h : AgentHandler)
      (ts : Option Int64) (k : Option (List ℕ))
      → r.timestamp ≡ ts
      → (check_signed p ok srv r only now h ts k).1 ≡ true
      → Passed srv r now h (check_signed p ok srv r only now h ts k).0
  unfolding check_signed
  check_signed-Passed ok srv r only now h none k e t = cc
  check_signed-Passed ok srv r only now h (some ts) none e t = cc
  check_signed-Passed ok srv r only now h (some ts) (some k) e t =
      let answer = verify_agent_auth p k srv.id ts r.nonce r.signature now in
      let (good, fresh) = fresh_of_verified ok srv r only now h answer t in
      record {
        stamp = ts;
        stamped = e;
        recent = in_window_of_verified k srv.id ts r.nonce r.signature now good;
        fresh = fresh;
        seen =
            ap (λ o. (verified ok srv r only now h o).0.seen_nonces) good
            ∙ seen-verified ok srv r only now h;
      }

  check_required-Passed :
      (req ok : Bool) (srv : Server) (r : Request) (now : ℕ) (h : AgentHandler) (o : Option Bool)
      → (r.signature == "") ≡ false
      → (check_required p req ok srv r now h o).1 ≡ true
      → Passed srv r now h (check_required p req ok srv r now h o).0
  unfolding check_required
  check_required-Passed req ok srv r now h none s t = cc
  check_required-Passed req ok srv r now h (some only) s t =
      rw s (check_signed-Passed ok srv r only now h r.timestamp srv.key refl (rw s at t))

  -- A stamp that was recent is not recent any more when the nonce has expired.
  abbrev pub IsNear : ℕ → Option Int64 → Type 0
  IsNear now none = Unit
  IsNear now (some (pos s)) = s * second < now + 2 ^ 63
  IsNear now (some (negsuc k)) = Unit

  in_window_once :
      (now later : ℕ) (ts : Int64)
      → IsNear now (some ts)
      → in_window now ts ≡ true
      → in_window later ts ≡ true
      → now ≤ later
      → later ≤ now + 2 * max_skew
  unfolding in_window
  in_window_once now later (pos s) near a b l = ground arith
  in_window_once now later (negsuc k) near a b l = ground arith

  fresh-IsCached :
      (server_id nonce : String) (now : ℕ) (h : AgentHandler)
      → IsUnique h.seen_nonces
      → (remember_nonce server_id nonce now h).1 ≡ true
      → IsCached
          (nonce_key server_id nonce)
          (now + 2 * max_skew)
          now
          (remember_nonce server_id nonce now h).0.seen_nonces
  unfolding remember_nonce
  fresh-IsCached server_id nonce now h u f =
      fresh_entry (nonce_key server_id nonce) now (prune_nonces now h.seen_nonces) _
        (retain-IsUnique _ h.seen_nonces u) f
    where
      fresh_entry :
          (key : String) (now : ℕ) (seen : Map String ℕ) (o : Option ℕ)
          → IsUnique seen
          → (remember key now seen o).1 ≡ true
          → IsCached key (now + 2 * max_skew) now (remember key now seen o).0
      fresh_entry key now seen none u f =
          unfold remember in
          record {
            unique = insert-IsUnique key _ seen u;
            cached = λ _. lookup-insert key key _ seen ∙ rw beq_refl;
          }
      fresh_entry key now seen (some t) u f = unfold remember in cc f

  stale_of_fresh :
      (server_id nonce : String) (exp now : ℕ) (h : AgentHandler)
      → IsCached (nonce_key server_id nonce) exp now h.seen_nonces
      → now ≤ exp
      → (remember_nonce server_id nonce now h).1 ≡ false
  unfolding remember_nonce remember
  stale_of_fresh server_id nonce exp now h c l = rw (
    (prune-IsCached (nonce_key server_id nonce) exp now now h.seen_nonces (omega arith) c).cached l,
    remember,
  )

  refused_later :
      (h : AgentHandler) (a b : Attempt) (stamp : Int64)
      → IsNear a.now (some stamp)
      → in_window a.now stamp ≡ true
      → a.now ≤ b.now
      → IsCached (nonce_key b.server.id b.request.nonce) (a.now + 2 * max_skew) b.now h.seen_nonces
      → b.request.timestamp ≡ some stamp
      → Passed b.server b.request b.now h (try p b h).0
      → ⊥
  refused_later h a b stamp near recent l c at passed =
      let same = some-injective _ _ (sym passed.stamped ∙ at) in
      let early =
        in_window_once a.now b.now stamp near recent
          (subst (λ ts. in_window b.now ts ≡ true) same passed.recent) l in
      let dup = stale_of_fresh b.server.id b.request.nonce (a.now + 2 * max_skew) b.now h c early in
      cc (sym dup ∙ passed.fresh)

  InOrder-le : (from to : ℕ) (attempts : List Attempt) → InOrder from attempts to → from ≤ to
  InOrder-le from to [] o = o
  InOrder-le from to (a ∷ rest) o = omega (arith, InOrder-le a.now to rest o.1, o.0)

  -- From a cache with one entry for each nonce: a signed upgrade that was accepted is refused
  -- whenever it is presented again later, after any other attempts in between in order of time, if
  -- its timestamp was not 2 ^ 63 nanoseconds ahead or more.
  pub no_replay :
      (h : AgentHandler) (a b : Attempt) (between : List Attempt)
      → IsUnique h.seen_nonces
      → (a.request.signature == "") ≡ false
      → (try p a h).1 ≡ true
      → IsNear a.now a.request.timestamp
      → InOrder a.now between b.now
      → b.server.id ≡ a.server.id
      → b.request ≡ a.request
      → (try p b (run p (try p a h).0 between)).1 ≡ false
  no_replay h a b between u signed accepted near order same_server same_request =
      elim (Bool-cases (try p b later).1) [
        | inr refused ↦ refused
        | inl again ↦ absurd (
            refused_later later a b first.stamp (subst (IsNear a.now) first.stamped near)
              first.recent (InOrder-le a.now b.now between order) cached
              (ap (λ r. r.timestamp) same_request ∙ first.stamped)
              (accept_Passed b later (ap (λ r. r.signature == "") same_request ∙ signed) again))
      ]
    where
      later : AgentHandler
      later = run p (try p a h).0 between

      accept_Passed :
          (c : Attempt) (h : AgentHandler)
          → (c.request.signature == "") ≡ false
          → (try p c h).1 ≡ true
          → Passed c.server c.request c.now h (try p c h).0
      accept_Passed c h s t =
          unfold authenticate_agent in
          check_required-Passed c.require_signed c.update_ok c.server c.request c.now h _ s
            (unfold authenticate_agent in t)

      first : Passed a.server a.request a.now h (try p a h).0
      first = accept_Passed a h signed accepted

      cached :
          IsCached
            (nonce_key b.server.id b.request.nonce)
            (a.now + 2 * max_skew)
            b.now
            later.seen_nonces
      cached =
          subst (λ k. IsCached k (a.now + 2 * max_skew) b.now later.seen_nonces)
            (λ i. nonce_key (sym same_server i) (sym same_request i).nonce)
            (run-IsCached (nonce_key a.server.id a.request.nonce) (a.now + 2 * max_skew) a.now b.now
              (try p a h).0 between order
              (subst (IsCached (nonce_key a.server.id a.request.nonce) (a.now + 2 * max_skew) a.now)
                (sym first.seen)
                (fresh-IsCached a.server.id a.request.nonce a.now h u first.fresh)))
