-- ===== src/Auth/RateLimit/Window.antt =====
-- The limiter against a log that is never pruned: the failures of each address since its last reset.
use klever_node_hub.Prelude.{
  ℕ, ◌≤◌, String, ◌≡◌, refl, sym, ap, ◌∙◌, inl, inr, Bool, List, [], ◌∷◌, ◌++◌, lookup, keep,
  length, ltb, string_eq, ◌==◌, eq_iff, if◌then◌else◌, lookup-insert, lookup-delete, beq_refl,
  arith, Bool-cases, subst,
}
use klever_node_hub.Auth.RateLimit.{
  RateLimiter, new_rate_limiter, attempts_of, is_recent, store_valid, prune_found, prune_expired,
  allow, record_failure, reset,
}

-- What a caller does, and when.
pub data Event : Type 0 where
  checks : String → Event
  fails : String → Event
  succeeds : String → Event

unfoldable pub step : RateLimiter → ℕ × Event → RateLimiter
unfolding allow record_failure reset
step rl (now, checks ip) = (allow rl ip now).0
step rl (now, fails ip) = record_failure rl ip now
step rl (now, succeeds ip) = reset rl ip

unfoldable pub run : RateLimiter → List (ℕ × Event) → RateLimiter
run rl [] = rl
run rl (e ∷ es) = run (step rl e) es

-- The log of one address.
unfoldable pub log_step : String → List ℕ → ℕ × Event → List ℕ
log_step ip log (now, checks j) = log
log_step ip log (now, fails j) = if j == ip then log ++ now ∷ [] else log
log_step ip log (now, succeeds j) = if j == ip then [] else log

unfoldable pub failure_log : String → List ℕ → List (ℕ × Event) → List ℕ
failure_log ip log [] = log
failure_log ip log (e ∷ es) = failure_log ip (log_step ip log e) es

-- The events come in order of time, from `from` to `to`.
abbrev pub InOrder : ℕ → List (ℕ × Event) → ℕ → Type 0
InOrder from [] to = from ≤ to
InOrder from ((t, e) ∷ es) to = (from ≤ t) × InOrder t es to

keep-append : (p : ℕ → Bool) (xs ys : List ℕ) → keep p (xs ++ ys) ≡ keep p xs ++ keep p ys
unfolding keep
keep-append p [] ys = refl
keep-append p (x ∷ xs) ys = ground (arith, keep-append p xs ys)

-- What was pruned earlier is not missed later.
keep-keep_earlier :
    (w now later : ℕ) (xs : List ℕ)
    → now ≤ later
    → keep (is_recent w later) (keep (is_recent w now) xs) ≡ keep (is_recent w later) xs
unfolding keep
keep-keep_earlier w now later [] h = refl
keep-keep_earlier w now later (x ∷ xs) h = ground (arith, keep-keep_earlier w now later xs h)

attempts_of-store_valid :
    (rl : RateLimiter) (ip j : String) (ts : List ℕ)
    → attempts_of (store_valid rl ip ts) j ≡ (if ip == j then ts else attempts_of rl j)
unfolding store_valid
attempts_of-store_valid rl ip j [] = ground (arith, lookup-delete ip j rl.attempts)
attempts_of-store_valid rl ip j (t ∷ ts) = ground (arith, lookup-insert ip j (t ∷ ts) rl.attempts)

attempts_of-prune_found :
    (rl : RateLimiter) (ip j : String) (now : ℕ) (ts : List ℕ)
    → attempts_of rl ip ≡ ts
    → attempts_of (prune_found rl ip now ts) j
      ≡ (if ip == j then keep (is_recent rl.window now) ts else attempts_of rl j)
unfolding prune_found keep
attempts_of-prune_found rl ip j now [] h = elim (Bool-cases (ip == j)) [
  | inl same ↦ rw (same, ← (eq_iff ip j).0 same) h
  | inr other ↦ rw other
]
attempts_of-prune_found rl ip j now (t ∷ ts) h = attempts_of-store_valid rl ip j _

attempts_of-prune :
    (rl : RateLimiter) (ip j : String) (now : ℕ)
    → attempts_of (prune_expired rl ip now) j
      ≡ (if ip == j then keep (is_recent rl.window now) (attempts_of rl ip) else attempts_of rl j)
unfolding prune_expired
attempts_of-prune rl ip j now = attempts_of-prune_found rl ip j now (attempts_of rl ip) refl

-- The settings never change.
settings-store_valid :
    (rl : RateLimiter) (ip : String) (ts : List ℕ)
    → ((store_valid rl ip ts).window ≡ rl.window)
      × ((store_valid rl ip ts).max_fails ≡ rl.max_fails)
unfolding store_valid
settings-store_valid rl ip [] = (refl, refl)
settings-store_valid rl ip (t ∷ ts) = (refl, refl)

settings-prune_found :
    (rl : RateLimiter) (ip : String) (now : ℕ) (ts : List ℕ)
    → ((prune_found rl ip now ts).window ≡ rl.window)
      × ((prune_found rl ip now ts).max_fails ≡ rl.max_fails)
unfolding prune_found
settings-prune_found rl ip now [] = (refl, refl)
settings-prune_found rl ip now (t ∷ ts) = settings-store_valid rl ip _

settings-step :
    (rl : RateLimiter) (e : ℕ × Event)
    → ((step rl e).window ≡ rl.window) × ((step rl e).max_fails ≡ rl.max_fails)
unfolding step prune_expired
settings-step rl (now, checks ip) = settings-prune_found rl ip now _
settings-step rl (now, fails ip) = settings-prune_found rl ip now _
settings-step rl (now, succeeds ip) = (refl, refl)

-- Pruning hides no failure that still counts later.
keep-prune_own :
    (rl : RateLimiter) (ip j : String) (t later : ℕ)
    → t ≤ later
    → keep (is_recent rl.window later) (attempts_of (prune_expired rl j t) ip)
      ≡ keep (is_recent rl.window later) (attempts_of rl ip)
keep-prune_own rl ip j t later h = rw (attempts_of-prune rl j ip t) (elim (Bool-cases (j == ip)) [
  | inl same ↦
      rw same (rw (keep-keep_earlier rl.window t later (attempts_of rl j) h, (eq_iff j ip).0 same))
  | inr other ↦ rw other
])

attempts_of-record_failure :
    (rl : RateLimiter) (ip j : String) (t : ℕ)
    → attempts_of (record_failure rl j t) ip ≡ (
        if j == ip
        then attempts_of (prune_expired rl j t) ip ++ t ∷ []
        else attempts_of (prune_expired rl j t) ip)
unfolding record_failure
attempts_of-record_failure rl ip j t = ground (
  arith,
  eq_iff j ip,
  lookup-insert j ip (attempts_of (prune_expired rl j t) j ++ t ∷ [])
      (prune_expired rl j t).attempts,
)

-- From `now` on, the limiter, whose window is `w`, counts for `ip` what the log counts.
record Agrees (w : ℕ) (rl : RateLimiter) (ip : String) (log : List ℕ) (now : ℕ) : Type 0 where
  window : rl.window ≡ w
  counts :
      (later : ℕ)
      → now ≤ later
      → keep (is_recent w later) (attempts_of rl ip) ≡ keep (is_recent w later) log

keep-prune :
    (w : ℕ) (rl : RateLimiter) (ip j : String) (log : List ℕ) (from t later : ℕ)
    → Agrees w rl ip log from
    → from ≤ t
    → t ≤ later
    → keep (is_recent w later) (attempts_of (prune_expired rl j t) ip)
      ≡ keep (is_recent w later) log
keep-prune w rl ip j log from t later a h l =
    subst
      (λ v.
        keep (is_recent v later) (attempts_of (prune_expired rl j t) ip)
        ≡ keep (is_recent v later) (attempts_of rl ip))
      a.window (keep-prune_own rl ip j t later l)
    ∙ a.counts later (omega arith)

step-Agrees :
    (w : ℕ) (rl : RateLimiter) (ip : String) (log : List ℕ) (from t : ℕ) (e : Event)
    → from ≤ t
    → Agrees w rl ip log from
    → Agrees w (step rl (t, e)) ip (log_step ip log (t, e)) t
unfolding step log_step
step-Agrees w rl ip log from t (checks j) h a = record {
  window = (settings-step rl (t, checks j)).0 ∙ a.window;
  counts = λ later l. keep-prune w rl ip j log from t later a h l;
}
step-Agrees w rl ip log from t (fails j) h a = record {
  window = (settings-step rl (t, fails j)).0 ∙ a.window;
  counts = λ later l.
      let pruned = keep-prune w rl ip j log from t later a h l in
      rw (attempts_of-record_failure rl ip j t) (elim (Bool-cases (j == ip)) [
        | inl same ↦ rw same (
            keep-append (is_recent w later) (attempts_of (prune_expired rl j t) ip) (t ∷ [])
            ∙ ap (λ xs. xs ++ keep (is_recent w later) (t ∷ [])) pruned
            ∙ sym (keep-append (is_recent w later) log (t ∷ [])))
        | inr other ↦ rw other pruned
      ]);
}
step-Agrees w rl ip log from t (succeeds j) h a = record {
  window = a.window;
  counts = λ later l. ground (arith, lookup-delete j ip rl.attempts, a.counts later);
}

run-Agrees :
    (w : ℕ) (rl : RateLimiter) (ip : String) (log : List ℕ) (from to : ℕ) (es : List (ℕ × Event))
    → InOrder from es to
    → Agrees w rl ip log from
    → Agrees w (run rl es) ip (failure_log ip log es) to
unfolding run failure_log
run-Agrees w rl ip log from to [] o a = record {
  window = a.window;
  counts = λ later l. a.counts later (omega arith);
}
run-Agrees w rl ip log from to ((t, e) ∷ es) o a =
    run-Agrees w (step rl (t, e)) ip (log_step ip log (t, e)) t to es o.1
      (step-Agrees w rl ip log from t e o.0 a)

max_fails-run : (rl : RateLimiter) (es : List (ℕ × Event)) → (run rl es).max_fails ≡ rl.max_fails
unfolding run
max_fails-run rl [] = refl
max_fails-run rl (e ∷ es) = max_fails-run (step rl e) es ∙ (settings-step rl e).1

allow-Agrees :
    (w : ℕ) (rl : RateLimiter) (ip : String) (log : List ℕ) (now : ℕ)
    → Agrees w rl ip log now
    → (allow rl ip now).1 ≡ ltb (length (keep (is_recent w now) log)) rl.max_fails
unfolding allow
allow-Agrees w rl ip log now a =
    let counted =
      attempts_of-prune rl ip ip now
      ∙ rw beq_refl (ap (λ v. keep (is_recent v now) (attempts_of rl ip)) a.window)
      ∙ a.counts now (omega arith) in
    rw ((settings-prune_found rl ip now (attempts_of rl ip)).1, counted)

-- After any calls in order of time, a new limiter lets an address try again exactly when fewer
-- than `max_fails` of its failures since its last successful login lie within the window.
pub allow-run :
    (window max_fails : ℕ) (es : List (ℕ × Event)) (ip : String) (now : ℕ)
    → InOrder 0 es now
    → (allow (run (new_rate_limiter window max_fails) es) ip now).1
      ≡ ltb (length (keep (is_recent window now) (failure_log ip [] es))) max_fails
unfolding new_rate_limiter lookup
allow-run window max_fails es ip now o =
    let fresh = new_rate_limiter window max_fails in
    allow-Agrees window (run fresh es) ip (failure_log ip [] es) now
      (run-Agrees window fresh ip [] 0 now es o (record { window = refl; counts = λ l h. refl }))
    ∙ ap (λ n. ltb (length (keep (is_recent window now) (failure_log ip [] es))) n)
        (max_fails-run fresh es)
