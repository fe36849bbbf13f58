-- ===== src/Auth/Recovery/Once.antt =====
-- A recovery code works once.
use klever_node_hub.Prelude.{ℕ, suc, ◌+◌, ◌≡◌, refl, Bool, List, [], ◌∷◌, if◌then◌else◌, arith}
use klever_node_hub.Auth.Recovery.{
  RecoveryCode, Codes, normalize_code, verify_loop, verify, remaining,
}

-- Some codes are tried one after the other: what is held then, and how many were accepted.
unfoldable pub try_codes : Codes → List (List ℕ) → List RecoveryCode → List RecoveryCode × ℕ
try_codes io [] held = (held, 0)
try_codes io (code ∷ rest) held =
    let now = verify io code held in
    let later = try_codes io rest now.0 in (later.0, if now.1 then suc later.1 else later.1)

abbrev one_if : Bool → ℕ
one_if b = if b then 1 else 0

verify_loop-remaining :
    (io : Codes) (code : List ℕ) (held : List RecoveryCode)
    → let after = verify_loop io code held in one_if after.1 + remaining after.0 ≡ remaining held
unfolding verify_loop remaining
verify_loop-remaining io code [] = refl
verify_loop-remaining io code (c ∷ held) = ground (arith, verify_loop-remaining io code held)

verify-remaining :
    (io : Codes) (code : List ℕ) (held : List RecoveryCode)
    → let after = verify io code held in one_if after.1 + remaining after.0 ≡ remaining held
unfolding verify
verify-remaining io code held = verify_loop-remaining io (normalize_code code) held

-- Whatever codes are tried: each one that is accepted uses up one of the codes that were left, so
-- that no more are accepted than there were.
pub try_codes-remaining :
    (io : Codes) (tried : List (List ℕ)) (held : List RecoveryCode)
    → let after = try_codes io tried held in after.1 + remaining after.0 ≡ remaining held
unfolding try_codes
try_codes-remaining io [] held = omega arith
try_codes-remaining io (code ∷ rest) held =
    let now = verify io code held in
    ground (arith, verify-remaining io code held, try_codes-remaining io rest now.0)
