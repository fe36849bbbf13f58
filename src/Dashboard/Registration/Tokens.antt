-- ===== src/Dashboard/Registration/Tokens.antt =====
-- What becomes of one token over a history of calls.
use klever_node_hub.Prelude.{
  ℕ, ◌+◌, ◌≤◌, String, ◌≡◌, refl, Bool, true, false, not, List, [], ◌∷◌, Option, none, some, lookup,
  insert, IsUnique, insert-IsUnique, delete-IsUnique, retain-IsUnique, lookup-insert, lookup-delete,
  lookup-retain, ltb, leb, if◌then◌else◌, string_eq, ◌==◌, eq_iff, arith, Option-cases, inl, inr,
  Bool-cases, ◌∙◌, beq_refl,
}
use klever_node_hub.Dashboard.Registration.{
  TokenManager, RegistrationToken, token_expiry, new_token_manager, generate, validate,
  pending_count, clean_expired, issue, consume,
}

-- The calls, with the bytes that were drawn for a new token.
pub data Call : Type 0 where
  generates : Option (List ℕ) → Call
  validates : String → Call
  counts : Call

module _ (encode : List ℕ → String) where
  unfoldable pub step : TokenManager → ℕ × Call → TokenManager
  unfolding generate validate pending_count
  step tm (now, generates bytes) = (generate encode tm bytes now).0
  step tm (now, validates token) = (validate tm token now).0
  step tm (now, counts) = (pending_count tm now).0

  unfoldable pub run : TokenManager → List (ℕ × Call) → TokenManager
  run tm [] = tm
  run tm (c ∷ cs) = run (step tm c) cs

  -- Until when a token stands: an hour after it was issued last, unless it was presented since.
  unfoldable pub stand_step : String → Option ℕ → ℕ × Call → Option ℕ
  stand_step token s (now, generates none) = s
  stand_step token s (now, generates (some bytes)) =
      if encode bytes == token then some (now + token_expiry) else s
  stand_step token s (now, validates other) = if other == token then none else s
  stand_step token s (now, counts) = s

  unfoldable pub standing : String → Option ℕ → List (ℕ × Call) → Option ℕ
  standing token s [] = s
  standing token s (c ∷ cs) = standing token (stand_step token s c) cs

-- The calls come in order of time, from `from` to `to`.
abbrev pub InOrder : ℕ → List (ℕ × Call) → ℕ → Type 0
InOrder from [] to = from ≤ to
InOrder from ((t, c) ∷ cs) to = (from ≤ t) × InOrder t cs to

abbrev pub stands_at : ℕ → Option ℕ → Bool
stands_at now none = false
stands_at now (some until) = leb now until

abbrev until : Option RegistrationToken → Option ℕ
until none = none
until (some rt) = some rt.expires_at

-- From `now` on, the manager takes `token` for valid when `s` does.
record Agrees (tm : TokenManager) (token : String) (s : Option ℕ) (now : ℕ) : Type 0 where
  unique : IsUnique tm.tokens
  agrees :
      (later : ℕ)
      → now ≤ later
      → stands_at later (until (lookup token tm.tokens)) ≡ stands_at later s

stands_at-clean :
    (tm : TokenManager) (token : String) (now later : ℕ)
    → IsUnique tm.tokens
    → now ≤ later
    → stands_at later (until (lookup token (clean_expired tm now).tokens))
      ≡ stands_at later (until (lookup token tm.tokens))
unfolding clean_expired
stands_at-clean tm token now later u h =
    ground (arith, lookup-retain (λ k rt. not (ltb rt.expires_at now)) token tm.tokens u)

clean-IsUnique :
    (tm : TokenManager) (now : ℕ) → IsUnique tm.tokens → IsUnique (clean_expired tm now).tokens
unfolding clean_expired
clean-IsUnique tm now u = retain-IsUnique _ tm.tokens u

-- Presenting a token removes it, whatever the answer.
lookup-validate :
    (tm : TokenManager) (token other : String) (now : ℕ)
    → lookup token (validate tm other now).0.tokens
      ≡ (if other == token then none else lookup token tm.tokens)
unfolding validate
lookup-validate tm token other now = elim (Option-cases (lookup other tm.tokens)) [
  | inl missing ↦
      rw (missing, consume)
        (elim (Bool-cases (other == token)) [
          | inl same ↦ rw same (rw (← (eq_iff other token).0 same) missing)
          | inr differ ↦ rw differ
        ])
  | inr (rt, found) ↦ rw (found, consume) (ground (arith, lookup-delete other token tm.tokens))
]

validate-IsUnique :
    (tm : TokenManager) (token : String) (now : ℕ)
    → IsUnique tm.tokens
    → IsUnique (validate tm token now).0.tokens
unfolding validate
validate-IsUnique tm token now u = ground (arith, delete-IsUnique token tm.tokens u)

module _ (encode : List ℕ → String) where
  step-Agrees :
      (tm : TokenManager) (token : String) (s : Option ℕ) (from t : ℕ) (c : Call)
      → from ≤ t
      → Agrees tm token s from
      → Agrees (step encode tm (t, c)) token (stand_step encode token s (t, c)) t
  unfolding step stand_step generate
  step-Agrees tm token s from t (generates none) h a = record {
    unique = a.unique;
    agrees = λ later l. a.agrees later (omega arith);
  }
  step-Agrees tm token s from t (generates (some bytes)) h a =
      let rt : RegistrationToken = record {
        token = encode bytes;
        created_at = t;
        expires_at = t + token_expiry;
      } in
      let tm' : TokenManager = record { tokens = insert (encode bytes) rt tm.tokens } in
      let u = insert-IsUnique (encode bytes) rt tm.tokens a.unique in
      record {
        unique = clean-IsUnique tm' t u;
        agrees = λ later l.
            unfold issue in
            ground (
              arith,
              stands_at-clean tm' token t later u l,
              lookup-insert (encode bytes) token rt tm.tokens,
              a.agrees later,
            );
      }
  step-Agrees tm token s from t (validates other) h a = record {
    unique = validate-IsUnique tm other t a.unique;
    agrees = λ later l. ground (arith, lookup-validate tm token other t, a.agrees later);
  }
  step-Agrees tm token s from t counts h a = record {
    unique = clean-IsUnique tm t a.unique;
    agrees = λ later l. ground (arith, stands_at-clean tm token t later a.unique, a.agrees later);
  }

  run-Agrees :
      (tm : TokenManager) (token : String) (s : Option ℕ) (from to : ℕ) (cs : List (ℕ × Call))
      → InOrder from cs to
      → Agrees tm token s from
      → Agrees (run encode tm cs) token (standing encode token s cs) to
  unfolding run standing
  run-Agrees tm token s from to [] o a = record {
    unique = a.unique;
    agrees = λ later l. a.agrees later (omega arith);
  }
  run-Agrees tm token s from to ((t, c) ∷ cs) o a =
      run-Agrees (step encode tm (t, c)) token (stand_step encode token s (t, c)) t to cs o.1
        (step-Agrees tm token s from t c o.0 a)

validate-stands_at :
    (tm : TokenManager) (token : String) (now : ℕ)
    → (validate tm token now).1 ≡ stands_at now (until (lookup token tm.tokens))
unfolding validate
validate-stands_at tm token now = ground arith

-- After any calls in order of time, a token is accepted exactly when it was issued at most an hour
-- ago and was not presented since: no clean-up drops a valid token, and none is accepted twice.
pub validate-run :
    (encode : List ℕ → String) (cs : List (ℕ × Call)) (token : String) (now : ℕ)
    → InOrder 0 cs now
    → (validate (run encode new_token_manager cs) token now).1
      ≡ stands_at now (standing encode token none cs)
unfolding new_token_manager lookup
validate-run encode cs token now o =
    let start : Agrees new_token_manager token none 0 = record {
      unique = tt;
      agrees = λ later l. refl;
    } in
    let a = run-Agrees encode new_token_manager token none 0 now cs o start in
    validate-stands_at _ token now ∙ a.agrees now (omega arith)

-- A token that was accepted once is refused when it is presented again.
validate_twice :
    (tm : TokenManager) (token : String) (now later : ℕ)
    → (validate tm token now).1 ≡ true
    → (validate (validate tm token now).0 token later).1 ≡ false
validate_twice tm token now later h =
    validate-stands_at (validate tm token now).0 token later
    ∙ rw (lookup-validate tm token token now, beq_refl)
