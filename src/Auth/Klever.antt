-- ===== src/Auth/Klever.antt =====
-- internal/auth/klever.go: login with a Klever wallet, by a challenge that the wallet signs. Times are
-- nanoseconds. What the standard library and the Keccak and Ed25519 packages do is in `Wallet`.
use klever_node_hub.Prelude.{
  ℕ, ◌+◌, ◌*◌, String, Bool, true, false, not, List, [], ◌∷◌, ◌++◌, Option, none, some, Map, lookup,
  insert, delete, retain, string_eq, ◌==◌, if◌then◌else◌, nat_beq, ltb, ◌&&◌, ◌||◌, length, codes,
}
use klever_node_hub.Auth.Klever.Address.{is_valid_klever_address, klever_address_to_public_key}
pub mod Address
pub mod Challenges
pub mod Tests

-- 5 * time.Minute
abbrev pub challenge_ttl : ℕ
challenge_ttl = 300 * 1000000000

pub record KleverChallenge : Type 0 where
  pub nonce : String
  pub address : String
  pub expires_at : ℕ

pub record KleverAuth : Type 0 where
  pub admin : String  -- the field `address`
  pub challenges : Map String KleverChallenge

pub data KleverError : Type 0 where
  no_klever_address invalid_address challenge_expired address_mismatch : KleverError
  invalid_signature no_random undecodable : KleverError

pub record Wallet : Type 0 where
  pub equal_fold : String → String → Bool  -- strings.EqualFold
  pub hex_encode : List ℕ → String
  pub hex_decode : String → Option (List ℕ)
  pub decimal : ℕ → List ℕ  -- fmt.Sprintf with %d
  pub keccak : List ℕ → List ℕ
  pub ed25519_verify : List ℕ → List ℕ → List ℕ → Bool

-- SetAddress
unfoldable pub set_address : KleverAuth → String → KleverAuth × Option KleverError
set_address k address =
    if is_valid_klever_address (codes address)
    then (record k { admin = address }, none)
    else (k, some invalid_address)

-- RemoveAddress
unfoldable pub remove_address : KleverAuth → KleverAuth
remove_address k = record k { admin = "" }

-- HasAddress
unfoldable pub has_address : KleverAuth → Bool
has_address k = not (k.admin == "")

-- A nonce, or the error.
pub data Issued : Type 0 where
  issued : String → Issued
  not_issued : KleverError → Issued

-- The challenges that have not expired.
abbrev pub clean : ℕ → Map String KleverChallenge → Map String KleverChallenge
clean now m = retain (λ id ch. not (ltb ch.expires_at now)) m

-- "Klever Signed Message:\n" after the byte 0x17
abbrev pub message_prefix : List ℕ
message_prefix = 23 ∷ (codes "Klever Signed Message:" ++ (10 ∷ []))

module _ (w : Wallet) where
  -- The end of both functions that make a challenge; `none` is a failed read of random bytes.
  abbrev pub add_challenge : KleverAuth → String → Option (List ℕ) → ℕ → KleverAuth × Issued
  add_challenge k address none now = (k, not_issued no_random)
  add_challenge k address (some bytes) now =
      let nonce = w.hex_encode bytes in
      let ch : KleverChallenge = record {
        nonce = nonce;
        address = address;
        expires_at = now + challenge_ttl;
      } in
      (record k { challenges = insert nonce ch (clean now k.challenges) }, issued nonce)

  -- CreateChallenge
  unfoldable pub create_challenge : KleverAuth → String → Option (List ℕ) → ℕ → KleverAuth × Issued
  create_challenge k address random now =
      if k.admin == ""
      then (k, not_issued no_klever_address)
      else if w.equal_fold address k.admin
      then add_challenge k address random now
      else (k, not_issued address_mismatch)

  -- CreateSetupChallenge
  unfoldable pub create_setup_challenge :
      KleverAuth → String → Option (List ℕ) → ℕ → KleverAuth × Issued
  create_setup_challenge k address random now =
      if is_valid_klever_address (codes address)
      then add_challenge k address random now
      else (k, not_issued invalid_address)

  -- kleverSignedMessageHash, of a message with one byte for each character
  abbrev pub signed_message_hash : List ℕ → List ℕ
  signed_message_hash message = w.keccak (message_prefix ++ (w.decimal (length message) ++ message))

  abbrev pub verify_bytes : List ℕ → List ℕ → Option (List ℕ) → Option KleverError
  verify_bytes key message none = some invalid_signature
  verify_bytes key message (some sig) =
      if not (nat_beq (length sig) 64)
      then some invalid_signature
      else if w.ed25519_verify key (signed_message_hash message) sig
      then none
      else some invalid_signature

  abbrev pub verify_with : Option (List ℕ) → String → String → Option KleverError
  verify_with none message signature = some undecodable
  verify_with (some key) message signature =
      verify_bytes key (codes message) (w.hex_decode signature)

  -- verifyEd25519Signature; `none` is nil.
  unfoldable pub verify_ed25519_signature : String → String → String → Option KleverError
  verify_ed25519_signature address message signature =
      verify_with (klever_address_to_public_key (codes address)) message signature

  -- The steps that both functions of verification share, with the test of the addresses.
  abbrev pub verify_found :
      KleverAuth
      → (String → Bool)
      → String
      → String
      → String
      → ℕ
      → Option KleverChallenge
      → KleverAuth × Option KleverError
  verify_found k is_same address nonce signature now none =
      (record k { challenges = delete nonce k.challenges }, some challenge_expired)
  verify_found k is_same address nonce signature now (some ch) =
      if ltb ch.expires_at now
      then (record k { challenges = delete nonce k.challenges }, some challenge_expired)
      else if not (is_same ch.address)
      then (k, some address_mismatch)
      else (
        record k { challenges = delete nonce k.challenges },
        verify_ed25519_signature address nonce signature,
      )

  -- VerifySetupSignature
  unfoldable pub verify_setup_signature :
      KleverAuth → String → String → String → ℕ → KleverAuth × Option KleverError
  verify_setup_signature k address nonce signature now =
      verify_found k (λ held. w.equal_fold held address) address nonce signature now
        (lookup nonce k.challenges)

  -- VerifySignature
  unfoldable pub verify_signature :
      KleverAuth → String → String → String → ℕ → KleverAuth × Option KleverError
  verify_signature k address nonce signature now =
      verify_found k (λ held. w.equal_fold held address && w.equal_fold k.admin address) address
        nonce signature now (lookup nonce k.challenges)
