-- ===== src/Auth/RateLimit.antt =====
-- internal/auth/ratelimit.go: the limiter of failed logins. Times and the window are nanoseconds;
-- `now` is what `time.Now()` returns inside the call. A method returns the new limiter.
pub mod Window
pub mod Tests
use klever_node_hub.Prelude.{
  ℕ, ◌+◌, String, ◌≡◌, Bool, List, [], ◌∷◌, ◌++◌, Map, lookup, insert, delete, keep, length, ltb,
  or_nil, string_eq,
}

pub record RateLimiter : Type 0 where
  pub attempts : Map String (List ℕ)
  pub window : ℕ
  pub max_fails : ℕ

unfoldable pub new_rate_limiter : ℕ → ℕ → RateLimiter
new_rate_limiter window max_fails = record { attempts = []; window = window; max_fails = max_fails }

abbrev pub attempts_of : RateLimiter → String → List ℕ
attempts_of rl ip = or_nil (lookup ip rl.attempts)

-- `t.After(now.Add(-window))`
abbrev pub is_recent : ℕ → ℕ → ℕ → Bool
is_recent window now t = ltb now (t + window)

-- The write back: an empty slice is not kept in the map.
store_valid : RateLimiter → String → List ℕ → RateLimiter
store_valid rl ip [] = record rl { attempts = delete ip rl.attempts }
store_valid rl ip (t ∷ ts) = record rl { attempts = insert ip (t ∷ ts) rl.attempts }

prune_found : RateLimiter → String → ℕ → List ℕ → RateLimiter
unfolding store_valid
prune_found rl ip now [] = rl
prune_found rl ip now (t ∷ ts) = store_valid rl ip (keep (is_recent rl.window now) (t ∷ ts))

unfoldable pub prune_expired : RateLimiter → String → ℕ → RateLimiter
unfolding prune_found
prune_expired rl ip now = prune_found rl ip now (attempts_of rl ip)

unfoldable pub allow : RateLimiter → String → ℕ → RateLimiter × Bool
unfolding prune_expired
allow rl ip now =
    let rl' = prune_expired rl ip now in (rl', ltb (length (attempts_of rl' ip)) rl'.max_fails)

unfoldable pub record_failure : RateLimiter → String → ℕ → RateLimiter
unfolding prune_expired
record_failure rl ip now =
    let rl' = prune_expired rl ip now in
    record rl' { attempts = insert ip (attempts_of rl' ip ++ now ∷ []) rl'.attempts }

unfoldable pub reset : RateLimiter → String → RateLimiter
reset rl ip = record rl { attempts = delete ip rl.attempts }
