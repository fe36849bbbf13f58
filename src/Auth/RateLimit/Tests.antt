-- ===== src/Auth/RateLimit/Tests.antt =====
-- The limiter on short histories.
use klever_node_hub.Prelude.{◌≡◌, true, false, List, [], ◌∷◌, arith, ℕ, keep, refl, lookup, insert}
use klever_node_hub.Auth.RateLimit.{new_rate_limiter, allow, prune_expired, record_failure}
use klever_node_hub.Auth.RateLimit.Window.{
  Event, fails, checks, run, step, failure_log, log_step, allow-run,
}

abbrev two_failures : List (ℕ × Event)
two_failures = (10, fails "a") ∷ (30, fails "b") ∷ (50, fails "a") ∷ (60, checks "a") ∷ []

-- The third attempt within the window is refused.
allow-run_example : (allow (run (new_rate_limiter 100 2) two_failures) "a" 70).1 ≡ false
unfolding keep failure_log log_step
allow-run_example = allow-run 100 2 two_failures "a" 70 (omega arith)

-- The failure at 10 no longer counts at 110.
reopened : (allow (run (new_rate_limiter 100 2) two_failures) "a" 110).1 ≡ true
unfolding allow run step new_rate_limiter record_failure prune_expired lookup insert keep
reopened = refl
