-- ===== src/Dashboard/Registration.antt =====
-- internal/dashboard/registration.go: one-time tokens for agents that register. Times are
-- nanoseconds, and `now` is what `time.Now()` returns inside the call; `bytes` is what `rand.Read`
-- filled, `none` if it failed, and `encode` is base64.RawURLEncoding.
pub mod Tokens
pub mod Tests
use klever_node_hub.Prelude.{
  ℕ, ◌+◌, ◌*◌, String, Bool, true, false, not, List, [], Option, none, some, Map, lookup, insert,
  delete, retain, length, ltb, if◌then◌else◌, string_eq,
}

-- time.Hour
abbrev pub token_expiry : ℕ
token_expiry = 3600 * 1000000000

pub record RegistrationToken : Type 0 where
  pub token : String
  pub created_at : ℕ
  pub expires_at : ℕ

pub record TokenManager : Type 0 where
  pub tokens : Map String RegistrationToken

unfoldable pub new_token_manager : TokenManager
new_token_manager = record { tokens = [] }

unfoldable pub clean_expired : TokenManager → ℕ → TokenManager
clean_expired tm now = record { tokens = retain (λ k rt. not (ltb rt.expires_at now)) tm.tokens }

issue : TokenManager → String → ℕ → TokenManager
unfolding clean_expired
issue tm token now = clean_expired (record { tokens = insert token rt tm.tokens }) now
  where
    rt : RegistrationToken
    rt = record { token = token; created_at = now; expires_at = now + token_expiry }

-- `none` is the error of a failed read of random bytes.
unfoldable pub generate :
    (List ℕ → String) → TokenManager → Option (List ℕ) → ℕ → TokenManager × Option String
unfolding issue
generate encode tm none now = (tm, none)
generate encode tm (some bytes) now = (issue tm (encode bytes) now, some (encode bytes))

consume : TokenManager → String → ℕ → Option RegistrationToken → TokenManager × Bool
consume tm token now none = (tm, false)
consume tm token now (some rt) =
    if ltb rt.expires_at now
    then (record { tokens = delete token tm.tokens }, false)
    else (record { tokens = delete token tm.tokens }, true)

unfoldable pub validate : TokenManager → String → ℕ → TokenManager × Bool
unfolding consume
validate tm token now = consume tm token now (lookup token tm.tokens)

unfoldable pub pending_count : TokenManager → ℕ → TokenManager × ℕ
unfolding clean_expired
pending_count tm now = let tm' = clean_expired tm now in (tm', length tm'.tokens)
