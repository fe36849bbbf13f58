-- ===== src/Auth/Recovery.antt =====
-- internal/auth/recovery.go: one-time recovery codes. The random generator and Argon2id are the
-- operations of `Codes`; `none` is an error of theirs.
use Prim.Native.Char.{Char, code}
use Prim.Native.String.{String, ◌++◌}
use klever_node_hub.Prelude.{
  ℕ, zero, suc, ◌+◌, ◌-◌, Bool, true, false, List, [], ◌∷◌, Option, none, some, if◌then◌else◌,
  nat_beq, not, codes, leb, ◌&&◌,
}
pub mod Once
pub mod Fresh
pub mod Tests

abbrev pub recovery_code_count : ℕ
recovery_code_count = 8

pub record RecoveryCode : Type 0 where
  pub hash : String
  pub used : Bool

-- strings.ToUpper on ASCII, over code points; other characters are out of the alphabet of codes.
abbrev pub upper : ℕ → ℕ
upper c = if leb 97 c && leb c 122 then c - 32 else c

abbrev pub dash : ℕ
dash = 45

-- normalizeCode
unfoldable pub normalize_code : List ℕ → List ℕ
normalize_code [] = []
normalize_code (c ∷ cs) =
    let rest = normalize_code cs in if nat_beq c dash then rest else upper c ∷ rest

pub record Codes : Type 0 where
  pub random_bytes : ℕ → Option (List ℕ)  -- 12 hexadecimal digits, at the i-th call
  pub hash_argon2id : List ℕ → Option String
  pub verify_argon2id : List ℕ → String → Bool

-- strings.ToUpper of the digits, in three groups of four
abbrev pub grouped : List ℕ → List ℕ
grouped (a ∷ b ∷ c ∷ d ∷ e ∷ f ∷ g ∷ h ∷ i ∷ j ∷ k ∷ l ∷ _) =
    upper a
    ∷ upper b
    ∷ upper c
    ∷ upper d
    ∷ dash
    ∷ upper e
    ∷ upper f
    ∷ upper g
    ∷ upper h
    ∷ dash
    ∷ upper i
    ∷ upper j
    ∷ upper k
    ∷ upper l
    ∷ []
grouped _ = []

-- What GenerateCodes returns.
pub record Generated : Type 0 where
  pub plaintext_codes : List (List ℕ)
  pub hashed_codes : List RecoveryCode

abbrev pub add_generated : List ℕ → String → Option Generated → Option Generated
add_generated plain hash none = none
add_generated plain hash (some g) = some record {
  plaintext_codes = plain ∷ g.plaintext_codes;
  hashed_codes = record { hash = hash; used = false } ∷ g.hashed_codes;
}

abbrev pub stored : List RecoveryCode → Option Generated → List RecoveryCode × Option Generated
stored held none = (held, none)
stored held (some g) = (g.hashed_codes, some g)

module _ (io : Codes) where
  -- generateRandomCode
  abbrev pub generate_random_code : ℕ → Option (List ℕ)
  generate_random_code i = elim (io.random_bytes i) [ none ↦ none | some h ↦ some (grouped h) ]

  abbrev pub add_hashed : List ℕ → Option String → Option Generated → Option Generated
  add_hashed code none rest = none
  add_hashed code (some hash) rest = add_generated code hash rest

  abbrev pub add_random : Option (List ℕ) → Option Generated → Option Generated
  add_random none rest = none
  add_random (some code) rest = add_hashed code (io.hash_argon2id (normalize_code code)) rest

  -- The loop of GenerateCodes from the i-th code.
  unfoldable pub generate_from : ℕ → ℕ → Option Generated
  generate_from i zero = some record { plaintext_codes = []; hashed_codes = [] }
  generate_from i (suc n) = add_random (generate_random_code i) (generate_from (suc i) n)

  -- GenerateCodes: the codes held before are replaced unless there is an error.
  unfoldable pub generate_codes : List RecoveryCode → List RecoveryCode × Option Generated
  generate_codes held = stored held (generate_from 0 recovery_code_count)

  -- The loop of Verify.
  unfoldable pub verify_loop : List ℕ → List RecoveryCode → List RecoveryCode × Bool
  verify_loop normalized [] = ([], false)
  verify_loop normalized (c ∷ cs) =
      let rest = verify_loop normalized cs in
      if c.used
      then (c ∷ rest.0, rest.1)
      else if io.verify_argon2id normalized c.hash
      then (record { hash = c.hash; used = true } ∷ cs, true)
      else (c ∷ rest.0, rest.1)

  -- Verify
  unfoldable pub verify : List ℕ → List RecoveryCode → List RecoveryCode × Bool
  unfolding verify_loop normalize_code
  verify code held = verify_loop (normalize_code code) held

-- Remaining
unfoldable pub remaining : List RecoveryCode → ℕ
remaining [] = 0
remaining (c ∷ cs) = if c.used then remaining cs else suc (remaining cs)
