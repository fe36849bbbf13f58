-- ===== src/Auth/Klever/Challenges.antt =====
-- A challenge is good for one login.
use klever_node_hub.Prelude.{
  ℕ, ◌+◌, ◌≡◌, ◌≤◌, refl, String, Bool, true, false, not, List, [], ◌∷◌, Option, none, some, Map,
  lookup, delete, retain, lookup-insert, lookup-delete, string_eq, ◌==◌, eq_iff, if◌then◌else◌, ltb,
  ◌&&◌, arith, ap, codes,
}
use klever_node_hub.Auth.Klever.{
  KleverChallenge, KleverAuth, KleverError, Wallet, Issued, issued, not_issued, clean, set_address,
  remove_address, create_challenge, create_setup_challenge, add_challenge, verify_found,
  verify_setup_signature, verify_signature, challenge_ttl, verify_ed25519_signature,
  challenge_expired, address_mismatch, no_klever_address, invalid_address,
}
use klever_node_hub.Auth.Klever.Address.{is_valid_klever_address}

-- The calls of an authentication manager.
pub data Op : Type 0 where
  set : String → Op
  remove : Op
  challenge setup_challenge : String → Option (List ℕ) → ℕ → Op
  verify verify_setup : String → String → String → ℕ → Op

-- What a call did with the nonce that is watched: how often it issued it and accepted it.
pub record Seen : Type 0 where
  pub state : KleverAuth
  pub issues : ℕ
  pub accepts : ℕ

abbrev issue_count : String → Issued → ℕ
issue_count n (issued nonce) = if nonce == n then 1 else 0
issue_count n (not_issued e) = 0

abbrev accept_count : String → String → Option KleverError → ℕ
accept_count n nonce none = if nonce == n then 1 else 0
accept_count n nonce (some e) = 0

abbrev none_seen : KleverAuth → Seen
none_seen k = record { state = k; issues = 0; accepts = 0 }

abbrev issue_seen : String → KleverAuth × Issued → Seen
issue_seen n r = record { state = r.0; issues = issue_count n r.1; accepts = 0 }

abbrev verify_seen : String → String → KleverAuth × Option KleverError → Seen
verify_seen n nonce r = record { state = r.0; issues = 0; accepts = accept_count n nonce r.1 }

unfoldable pub step : Wallet → String → KleverAuth → Op → Seen
step w n k (set address) = none_seen (set_address k address).0
step w n k remove = none_seen (remove_address k)
step w n k (challenge a random now) = issue_seen n (create_challenge w k a random now)
step w n k (setup_challenge a random now) = issue_seen n (create_setup_challenge w k a random now)
step w n k (verify a nonce sig now) = verify_seen n nonce (verify_signature w k a nonce sig now)
step w n k (verify_setup a nonce sig now) =
    verify_seen n nonce (verify_setup_signature w k a nonce sig now)

unfoldable pub run : Wallet → String → KleverAuth → List Op → Seen
run w n k [] = none_seen k
run w n k (op ∷ ops) =
    let now = step w n k op in
    let later = run w n now.state ops in
    record {
      state = later.state;
      issues = now.issues + later.issues;
      accepts = now.accepts + later.accepts;
    }

abbrev count_held : Option KleverChallenge → ℕ
count_held none = 0
count_held (some ch) = 1

-- Whether a challenge with the nonce is held.
abbrev pub held : String → KleverAuth → ℕ
held n k = count_held (lookup n k.challenges)

clean_held :
    (n : String) (now : ℕ) (m : Map String KleverChallenge)
    → count_held (lookup n (clean now m)) ≤ count_held (lookup n m)
unfolding retain lookup
clean_held n now [] = omega arith
clean_held n now ((k, ch) ∷ m) = ground (arith, clean_held n now m)

-- No call lets the nonce be accepted, or held, without issuing it.
record IsSpent (n : String) (k : KleverAuth) (s : Seen) : Type 0 where
  spent : s.accepts + held n s.state ≤ s.issues + held n k

add_challenge-IsSpent :
    (w : Wallet) (n : String) (k : KleverAuth) (a : String) (random : Option (List ℕ)) (now : ℕ)
    → IsSpent n k (issue_seen n (add_challenge w k a random now))
add_challenge-IsSpent w n k a none now = record { spent = omega arith }
add_challenge-IsSpent w n k a (some bytes) now =
    let nonce = w.hex_encode bytes in
    let ch : KleverChallenge = record {
      nonce = nonce;
      address = a;
      expires_at = now + challenge_ttl;
    } in
    record {
      spent = ground (
        arith,
        lookup-insert nonce n ch (clean now k.challenges),
        eq_iff nonce n,
        clean_held n now k.challenges,
      );
    }

delete_held :
    (n nonce : String) (m : Map String KleverChallenge)
    → count_held (lookup n (delete nonce m)) ≡ (if nonce == n then 0 else count_held (lookup n m))
delete_held n nonce m = ground (arith, lookup-delete nonce n m, eq_iff nonce n)

-- A nonce that is held may be accepted once, since it is held no longer.
spend-IsSpent :
    (n nonce : String) (k : KleverAuth) (ch : KleverChallenge) (o : Option KleverError)
    → lookup nonce k.challenges ≡ some ch
    → IsSpent n k (verify_seen n nonce (record k { challenges = delete nonce k.challenges }, o))
spend-IsSpent n nonce k ch none e = record {
  spent = ground (arith, delete_held n nonce k.challenges, eq_iff nonce n, e);
}
spend-IsSpent n nonce k ch (some err) e = record {
  spent = ground (arith, delete_held n nonce k.challenges, eq_iff nonce n, e);
}

if-IsSpent :
    (n nonce : String) (k : KleverAuth) (b : Bool) (x y : KleverAuth × Option KleverError)
    → IsSpent n k (verify_seen n nonce x)
    → IsSpent n k (verify_seen n nonce y)
    → IsSpent n k (verify_seen n nonce (if b then x else y))
if-IsSpent n nonce k true x y hx hy = hx
if-IsSpent n nonce k false x y hx hy = hy

verify_found-IsSpent :
    (w : Wallet) (n : String) (k : KleverAuth) (same : String → Bool) (a nonce sig : String)
    (now : ℕ) (o : Option KleverChallenge)
    → lookup nonce k.challenges ≡ o
    → IsSpent n k (verify_seen n nonce (verify_found w k same a nonce sig now o))
verify_found-IsSpent w n k same a nonce sig now none e = record {
  spent = ground (arith, delete_held n nonce k.challenges, eq_iff nonce n);
}
verify_found-IsSpent w n k same a nonce sig now (some ch) e =
    let dropped = spend-IsSpent n nonce k ch (some challenge_expired) e in
    let kept : IsSpent n k (verify_seen n nonce (k, some address_mismatch)) = record {
      spent = omega arith;
    } in
    let spent = spend-IsSpent n nonce k ch (verify_ed25519_signature w a nonce sig) e in
    if-IsSpent n nonce k (ltb ch.expires_at now) _ _ dropped
      (if-IsSpent n nonce k (not (same ch.address)) _ _ kept spent)

if_issue-IsSpent :
    (n : String) (k : KleverAuth) (b : Bool) (x y : KleverAuth × Issued)
    → IsSpent n k (issue_seen n x)
    → IsSpent n k (issue_seen n y)
    → IsSpent n k (issue_seen n (if b then x else y))
if_issue-IsSpent n k true x y hx hy = hx
if_issue-IsSpent n k false x y hx hy = hy

none_seen-IsSpent :
    (n : String) (k next : KleverAuth)
    → next.challenges ≡ k.challenges
    → IsSpent n k (none_seen next)
none_seen-IsSpent n k next e = record { spent = omega (arith, ap (λ m. count_held (lookup n m)) e) }

not_issued-IsSpent :
    (n : String) (k : KleverAuth) (e : KleverError) → IsSpent n k (issue_seen n (k, not_issued e))
not_issued-IsSpent n k e = record { spent = omega arith }

step-IsSpent : (w : Wallet) (n : String) (k : KleverAuth) (op : Op) → IsSpent n k (step w n k op)
unfolding step set_address remove_address create_challenge create_setup_challenge verify_signature
    verify_setup_signature
step-IsSpent w n k (set a) = none_seen-IsSpent n k (set_address k a).0 (ground arith)
step-IsSpent w n k remove = none_seen-IsSpent n k (remove_address k) refl
step-IsSpent w n k (challenge a random now) =
    if_issue-IsSpent n k (k.admin == "") _ _ (not_issued-IsSpent n k no_klever_address) (
      if_issue-IsSpent n k (w.equal_fold a k.admin) _ _ (add_challenge-IsSpent w n k a random now)
        (not_issued-IsSpent n k address_mismatch))
step-IsSpent w n k (setup_challenge a random now) =
    if_issue-IsSpent n k (is_valid_klever_address (codes a)) _ _
      (add_challenge-IsSpent w n k a random now) (not_issued-IsSpent n k invalid_address)
step-IsSpent w n k (verify a nonce sig now) =
    verify_found-IsSpent w n k (λ other. w.equal_fold other a && w.equal_fold k.admin a) a nonce sig
      now (lookup nonce k.challenges) refl
step-IsSpent w n k (verify_setup a nonce sig now) =
    verify_found-IsSpent w n k (λ other. w.equal_fold other a) a nonce sig now
      (lookup nonce k.challenges) refl

-- Whatever calls are made, of login and of setup: the times that a nonce is accepted, and one more if
-- it is still held, are at most the times that it was issued, and one more if it was held before.
pub run-spent :
    (w : Wallet) (n : String) (k : KleverAuth) (ops : List Op)
    → let seen = run w n k ops in seen.accepts + held n seen.state ≤ seen.issues + held n k
unfolding run
run-spent w n k [] = omega arith
run-spent w n k (op ∷ ops) =
    let now = step w n k op in
    omega (arith, (step-IsSpent w n k op).spent, run-spent w n now.state ops)
