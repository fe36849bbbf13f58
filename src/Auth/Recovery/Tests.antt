-- ===== src/Auth/Recovery/Tests.antt =====
-- A generator of codes with a transparent hash, and the theorems on recovery codes at it.
use klever_node_hub.Prelude.{
  ℕ, ◌+◌, ◌≡◌, refl, true, false, List, [], ◌∷◌, some, nat_beq, codes, ◌==◌, string_eq,
  if◌then◌else◌, String,
}
use klever_node_hub.Auth.Recovery.{
  RecoveryCode, Codes, generate_from, generate_codes, normalize_code, verify_loop, verify,
  remaining,
}
use klever_node_hub.Auth.Recovery.Once.{try_codes, try_codes-remaining}

abbrev digits_at : ℕ → List ℕ
digits_at i = (97 + i) ∷ 48 ∷ 48 ∷ 48 ∷ 49 ∷ 48 ∷ 48 ∷ 48 ∷ 50 ∷ 48 ∷ 48 ∷ 102 ∷ []

-- The hash tells texts apart by their first character.
abbrev hash_of : List ℕ → String
hash_of [] = "none"
hash_of (c ∷ cs) = if nat_beq c 65 then "a" else if nat_beq c 66 then "b" else "other"

abbrev small_codes : Codes
small_codes = record {
  random_bytes = λ i. some (digits_at i);
  hash_argon2id = λ p. some (hash_of p);
  verify_argon2id = λ p h. hash_of p == h;
}

abbrev two_codes : List RecoveryCode
two_codes = record { hash = "a"; used = false } ∷ record { hash = "b"; used = false } ∷ []

abbrev tried : List (List ℕ)
tried = codes "a000-1000" ∷ codes "A000-1000" ∷ codes "C" ∷ []

try_codes-remaining_example :
    (try_codes small_codes tried two_codes).1 + remaining (try_codes small_codes tried two_codes).0
    ≡ 2
unfolding remaining
try_codes-remaining_example = try_codes-remaining small_codes tried two_codes

second_try_fails : (try_codes small_codes tried two_codes).1 ≡ 1
unfolding try_codes verify verify_loop normalize_code
second_try_fails = refl

first_of_eight :
    (verify small_codes (codes "a000-1000-200f") (generate_codes small_codes []).0).1 ≡ true
unfolding generate_codes generate_from verify verify_loop normalize_code
first_of_eight = refl
