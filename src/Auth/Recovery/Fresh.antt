-- ===== src/Auth/Recovery/Fresh.antt =====
-- The codes that were generated are the codes that are accepted.
use klever_node_hub.Prelude.{ℕ, ◌+◌, ◌≤◌, String, ◌≡◌, true, List, [], ◌∷◌, Option, none, some, All}
use klever_node_hub.Auth.Recovery.{
  RecoveryCode, Codes, Generated, verify, remaining, recovery_code_count,
}

-- Argon2id verifies a text against its own hash.
pub record IsMatching (io : Codes) : Type 0 where
  pub verify_hash :
      (p : List ℕ) (h : String) → io.hash_argon2id p ≡ some h → io.verify_argon2id p h ≡ true

-- The first text is the second one typed with dashes put in or left out and with some of its
-- capital letters small.
pub data Spelling : List ℕ → List ℕ → Type 0 where
  done : Spelling [] []
  leave_dash : {typed code : List ℕ} → Spelling typed code → Spelling typed (45 ∷ code)
  put_dash : {typed code : List ℕ} → Spelling typed code → Spelling (45 ∷ typed) code
  same : {typed code : List ℕ} (c : ℕ) → Spelling typed code → Spelling (c ∷ typed) (c ∷ code)
  small :
      {typed code : List ℕ} (c : ℕ)
      → 65 ≤ c
      → c ≤ 90
      → Spelling typed code
      → Spelling ((c + 32) ∷ typed) (c ∷ code)

-- Every spelling of the text is accepted.
abbrev IsAccepted : Codes → List RecoveryCode → List ℕ → Type 0
IsAccepted io held code = (typed : List ℕ) → Spelling typed code → (verify io typed held).1 ≡ true

-- n unused codes, and every text that was given out is accepted.
pub record IsFresh (io : Codes) (n : ℕ) (held : List RecoveryCode) (given : List (List ℕ))
    : Type 0 where
  pub count : remaining held ≡ n
  pub accepted : All (IsAccepted io held) given

abbrev IsFreshIf : Codes → ℕ → Option Generated → Type 0
IsFreshIf io n none = Unit
IsFreshIf io n (some g) = IsFresh io n g.hashed_codes g.plaintext_codes

-- What is held and what is returned agree.
abbrev pub IsGenerated : Codes → List RecoveryCode → List RecoveryCode × Option Generated → Type 0
IsGenerated io before (after, none) = after ≡ before
IsGenerated io before (after, some g) =
    (after ≡ g.hashed_codes) × IsFresh io recovery_code_count after g.plaintext_codes
