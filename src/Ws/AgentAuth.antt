-- ===== src/Ws/AgentAuth.antt =====
-- internal/crypto/wsauth.go and the authentication in internal/dashboard/ws/agent_handler.go: an
-- agent that opens its WebSocket signs its server ID, a timestamp and a nonce. Times are
-- nanoseconds since 1970.
pub mod Replay
pub mod Downgrade
pub mod Tests
use Prim.Native.String.{len}
use klever_node_hub.Prelude.{
  ℕ, suc, ◌+◌, ◌-◌, ◌*◌, ◌^◌, String, Bool, true, false, not, ◌&&◌, ◌||◌, List, [], ◌∷◌, Option,
  none, some, Map, lookup, insert, retain, ◌==◌, string_eq, nat_eq, ltb, leb, if◌then◌else◌, length,
}
use klever_node_hub.Alerting.Rules.{sprint}
use klever_node_hub.Alerting.Process.{second}

-- AgentAuthMaxSkew
abbrev pub max_skew : ℕ
max_skew = 300 * second

-- An int64: a number, or -(k + 1).
pub data Int64 : Type 0 where
  pos : ℕ → Int64
  negsuc : ℕ → Int64

-- What the Go libraries compute: base64, Ed25519 and strconv.FormatInt.
pub record Primitives : Type 0 where
  pub decode_base64 : String → Option (List ℕ)
  pub verify : List ℕ → String → List ℕ → Bool
  pub format_int : Int64 → String

pub data AuthError : Type 0 where
  invalid_nonce malformed_signature signature_mismatch outside_window : AuthError

-- The headers of an upgrade; `timestamp` is what strconv.ParseInt makes of its header.
pub record Request : Type 0 where
  pub signature : String
  pub timestamp : Option Int64
  pub nonce : String

-- A row of `servers`. `key` is the Ed25519 key of the stored certificate, `none` where the
-- certificate does not parse or holds another kind of key.
pub record Server : Type 0 where
  pub id : String
  pub key : Option (List ℕ)

-- `seen_nonces` gives each nonce its expiry; `signed` is the column `signed_auth` of `servers`.
pub record AgentHandler : Type 0 where
  pub seen_nonces : Map String ℕ
  pub signed : Map String Bool

-- agentAuthMessage
abbrev pub agent_auth_message : Primitives → String → Int64 → String → String
agent_auth_message p server_id ts nonce =
    sprint ("kvh-agent-ws-v2|" ∷ server_id ∷ "|" ∷ p.format_int ts ∷ "|" ∷ nonce ∷ [])

-- The first second whose distance from the year 1 is no int64.
abbrev pub unix_wrap : ℕ
unix_wrap = 2 ^ 63 - 62135596800

-- `skew <= AgentAuthMaxSkew` for the absolute value that the code computes. Sub stops at the
-- least int64, which is its own negation: so a timestamp 2 ^ 63 nanoseconds ahead has a negative
-- skew. From `unix_wrap` on, time.Unix itself wraps to a time far in the past.
unfoldable pub in_window : ℕ → Int64 → Bool
in_window now (pos s) =
    if leb (s * second) now
    then leb (now - s * second) max_skew
    else if leb (2 ^ 63) (s * second - now)
    then ltb s unix_wrap
    else leb (s * second - now) max_skew
in_window now (negsuc k) = leb (now + suc k * second) max_skew

check_signature :
    Primitives → List ℕ → String → Int64 → String → ℕ → Option (List ℕ) → Option AuthError
unfolding in_window
check_signature p key server_id ts nonce now none = some malformed_signature
check_signature p key server_id ts nonce now (some sig) =
    if not (length key == 32) || not (p.verify key (agent_auth_message p server_id ts nonce) sig)
    then some signature_mismatch
    else if not (in_window now ts)
    then some outside_window
    else none

-- VerifyAgentAuth; `none` is success.
unfoldable pub verify_agent_auth :
    Primitives → List ℕ → String → Int64 → String → String → ℕ → Option AuthError
unfolding check_signature
verify_agent_auth p key server_id ts nonce sig now =
    if nonce == "" || ltb 64 (len nonce)
    then some invalid_nonce
    else check_signature p key server_id ts nonce now (p.decode_base64 sig)

abbrev pub nonce_key : String → String → String
nonce_key server_id nonce = sprint (server_id ∷ "|" ∷ nonce ∷ [])

abbrev pub prune_nonces : ℕ → Map String ℕ → Map String ℕ
prune_nonces now seen = retain (λ k exp. not (ltb exp now)) seen

remember : String → ℕ → Map String ℕ → Option ℕ → Map String ℕ × Bool
remember key now seen none = (insert key (now + 2 * max_skew) seen, true)
remember key now seen (some exp) = (seen, false)

-- rememberNonce
unfoldable pub remember_nonce : String → String → ℕ → AgentHandler → AgentHandler × Bool
unfolding remember
remember_nonce server_id nonce now h =
    let seen = prune_nonces now h.seen_nonces in
    let key = nonce_key server_id nonce in
    let (seen', fresh) = remember key now seen (lookup key seen) in
    (record h { seen_nonces = seen' }, fresh)

-- MarkSignedAuth, which only logs an error.
mark_signed : Bool → String → Bool → AgentHandler → AgentHandler
mark_signed update_ok id signed_only h =
    if signed_only
    then h
    else if update_ok
    then record h { signed = insert id true h.signed }
    else h

verified :
    Bool → Server → Request → Bool → ℕ → AgentHandler → Option AuthError → AgentHandler × Bool
unfolding remember_nonce mark_signed
verified update_ok srv r signed_only now h (some err) = (h, false)
verified update_ok srv r signed_only now h none =
    let (h', fresh) = remember_nonce srv.id r.nonce now h in
    if fresh then (mark_signed update_ok srv.id signed_only h', true) else (h', false)

check_signed :
    Primitives
    → Bool
    → Server
    → Request
    → Bool
    → ℕ
    → AgentHandler
    → Option Int64
    → Option (List ℕ)
    → AgentHandler × Bool
unfolding verified verify_agent_auth
check_signed p update_ok srv r signed_only now h none key = (h, false)
check_signed p update_ok srv r signed_only now h (some ts) none = (h, false)
check_signed p update_ok srv r signed_only now h (some ts) (some key) =
    verified update_ok srv r signed_only now h
      (verify_agent_auth p key srv.id ts r.nonce r.signature now)

check_required :
    Primitives
    → Bool
    → Bool
    → Server
    → Request
    → ℕ
    → AgentHandler
    → Option Bool
    → AgentHandler × Bool
unfolding check_signed
check_required p require_signed update_ok srv r now h none = (h, false)
check_required p require_signed update_ok srv r now h (some signed_only) =
    if r.signature == ""
    then (if signed_only || require_signed then (h, false) else (h, true))
    else check_signed p update_ok srv r signed_only now h r.timestamp srv.key

-- authenticateAgent. RequiresSignedAuth fails for a server that has no row. `require_signed` is
-- the operator's setting; `update_ok` says whether the database takes MarkSignedAuth's write.
unfoldable pub authenticate_agent :
    Primitives → Bool → Bool → Server → Request → ℕ → AgentHandler → AgentHandler × Bool
unfolding check_required
authenticate_agent p require_signed update_ok srv r now h =
    check_required p require_signed update_ok srv r now h (lookup srv.id h.signed)
