-- ===== src/Auth/Jwt.antt =====
-- internal/auth/jwt.go: signed tokens of operators. Times are seconds since 1970. base64, JSON and
-- HMAC are the operations of `Codec`; a byte is a number.
use Prim.Native.Char.{Char, code}
use Prim.Native.String.{String, ◌++◌}
use klever_node_hub.Prelude.{
  ℕ, ◌+◌, ◌*◌, ◌≡◌, Bool, true, false, List, [], ◌∷◌, Option, none, some, ◌==◌, Eq, nat_eq,
  string_eq, if◌then◌else◌, ltb, nat_beq, ◌&&◌,
}
pub mod Tokens
pub mod Forgery
pub mod Tests

abbrev pub access_token_expiry : ℕ
access_token_expiry = 15 * 60

abbrev pub refresh_token_expiry : ℕ
refresh_token_expiry = 7 * 24 * 3600

pub record TokenPair : Type 0 where
  pub access_token : String
  pub refresh_token : String
  pub expires_in : ℕ

pub record JwtClaims : Type 0 where
  pub subject : String
  pub issued_at : ℕ
  pub expires_at : ℕ
  pub token_type : String

-- The dot between the parts of a token.
abbrev pub dot_code : ℕ
dot_code = 46

unfoldable pub has_dot : String → Bool
has_dot String.[] = false
has_dot (String.◌∷◌ c s) = if nat_beq (code c) dot_code then true else has_dot s

abbrev pub access_claims : String → ℕ → ℕ → JwtClaims
access_claims subject issued end = record {
  subject = subject;
  issued_at = issued;
  expires_at = end;
  token_type = "access";
}

abbrev pub refresh_claims : String → ℕ → ℕ → JwtClaims
refresh_claims subject issued end = record {
  subject = subject;
  issued_at = issued;
  expires_at = end;
  token_type = "refresh";
}

pub record Codec : Type 0 where
  pub encode : List ℕ → String  -- base64.RawURLEncoding
  pub decode : String → Option (List ℕ)
  pub header : List ℕ  -- the JSON of jwtHeader
  pub marshal : JwtClaims → List ℕ
  pub unmarshal : List ℕ → Option JwtClaims
  pub hmac : List ℕ → String → List ℕ  -- HMAC-SHA256 under a key

abbrev pub IsReadBack : Codec → JwtClaims → Type 0
IsReadBack c claims = c.unmarshal (c.marshal claims) ≡ some claims

-- What is relied on: decoding undoes encoding, the alphabet of base64 has no dot, and JSON reads back
-- the claims of a subject's tokens.
pub record IsCodec (c : Codec) (subject : String) : Type 0 where
  pub decode_encode : (bs : List ℕ) → c.decode (c.encode bs) ≡ some bs
  pub no_dot : (bs : List ℕ) → has_dot (c.encode bs) ≡ false
  pub unmarshal_access : (issued end : ℕ) → IsReadBack c (access_claims subject issued end)
  pub unmarshal_refresh : (issued end : ℕ) → IsReadBack c (refresh_claims subject issued end)

pub data JwtError : Type 0 where
  bad_format bad_encoding bad_signature bad_claims expired wrong_type : JwtError

pub data Validated : Type 0 where
  claims_of : JwtClaims → Validated
  refused : JwtError → Validated

unfoldable pub bytes_beq : List ℕ → List ℕ → Bool
bytes_beq [] [] = true
bytes_beq [] (b ∷ bs) = false
bytes_beq (a ∷ xs) [] = false
bytes_beq (a ∷ xs) (b ∷ bs) = nat_beq a b && bytes_beq xs bs

-- strings.Split(token, ".")
abbrev pub onto_first : Char → List String → List String
onto_first c [] = String.◌∷◌ c "" ∷ []
onto_first c (p ∷ ps) = String.◌∷◌ c p ∷ ps

unfoldable pub split_dots : String → List String
split_dots String.[] = "" ∷ []
split_dots (String.◌∷◌ c s) =
    let rest = split_dots s in if nat_beq (code c) dot_code then "" ∷ rest else onto_first c rest

module _ (c : Codec) where
  -- createToken
  unfoldable pub create_token : List ℕ → JwtClaims → String
  create_token key claims =
      let signing_input = c.encode c.header ++ ("." ++ c.encode (c.marshal claims)) in
      signing_input ++ ("." ++ c.encode (c.hmac key signing_input))

  unfoldable pub issue_token_pair : List ℕ → String → ℕ → TokenPair
  unfolding create_token
  issue_token_pair key subject now = record {
    access_token = create_token key (access_claims subject now (now + access_token_expiry));
    refresh_token = create_token key (refresh_claims subject now (now + refresh_token_expiry));
    expires_in = access_token_expiry;
  }

  abbrev pub unexpired : ℕ → Option JwtClaims → Validated
  unexpired now none = refused bad_claims
  unexpired now (some claims) =
      if ltb claims.expires_at now then refused expired else claims_of claims

  abbrev pub decoded : ℕ → Option (List ℕ) → Validated
  decoded now none = refused bad_encoding
  decoded now (some bs) = unexpired now (c.unmarshal bs)

  abbrev pub verified : List ℕ → ℕ → String → String → Option (List ℕ) → Validated
  verified key now first second none = refused bad_encoding
  verified key now first second (some sig) =
      if bytes_beq (c.hmac key (first ++ ("." ++ second))) sig
      then decoded now (c.decode second)
      else refused bad_signature

  abbrev pub validate_parts : List ℕ → ℕ → List String → Validated
  validate_parts key now (first ∷ second ∷ third ∷ []) =
      verified key now first second (c.decode third)
  validate_parts key now _ = refused bad_format

  -- validateToken
  unfoldable pub validate_token : List ℕ → String → ℕ → Validated
  unfolding split_dots
  validate_token key token now = validate_parts key now (split_dots token)

  abbrev pub of_type : String → Validated → Validated
  of_type type (refused e) = refused e
  of_type type (claims_of claims) =
      if claims.token_type == type then claims_of claims else refused wrong_type

  unfoldable pub validate_access_token : List ℕ → String → ℕ → Validated
  validate_access_token key token now = of_type "access" (validate_token key token now)

  unfoldable pub validate_refresh_token : List ℕ → String → ℕ → Validated
  validate_refresh_token key token now = of_type "refresh" (validate_token key token now)

  abbrev pub reissued : List ℕ → ℕ → Validated → Option TokenPair
  reissued key now (refused e) = none
  reissued key now (claims_of claims) = some (issue_token_pair key claims.subject now)

  -- RefreshTokenPair; `none` for an error.
  unfoldable pub refresh_token_pair : List ℕ → String → ℕ → Option TokenPair
  refresh_token_pair key token now = reissued key now (validate_refresh_token key token now)
