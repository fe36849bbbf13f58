-- ===== src/Auth/Jwt/Tokens.antt =====
-- What becomes of a token that was issued.
use Prim.Native.Char.{Char, code}
use Prim.Native.String.{String, ◌++◌}
use text.Mathlib.TextLemmas.{nil-append, cons-append, append_assoc}
use klever_node_hub.Prelude.{
  ℕ, ◌+◌, ◌≡◌, refl, ap, ◌∙◌, true, false, List, [], ◌∷◌, none, some, string_eq, if◌then◌else◌, ltb,
  nat_beq, arith, Bool-cases, inl, inr,
}
use klever_node_hub.Auth.Jwt.{
  IsReadBack, access_claims, refresh_claims, JwtClaims, Codec, IsCodec, expired, wrong_type,
  Validated, unexpired, claims_of, refused, has_dot, dot_code, split_dots, onto_first, bytes_beq,
  create_token, issue_token_pair, validate_token, of_type, reissued, access_token_expiry,
  refresh_token_expiry, validate_access_token, validate_refresh_token, refresh_token_pair,
}

has_dot-none :
    (c : Char) (s : String)
    → has_dot (String.◌∷◌ c s) ≡ false
    → (nat_beq (code c) dot_code ≡ false) × (has_dot s ≡ false)
unfolding has_dot
has_dot-none c s h = ground arith

split_dots-other :
    (c : Char) (s : String)
    → nat_beq (code c) dot_code ≡ false
    → split_dots (String.◌∷◌ c s) ≡ onto_first c (split_dots s)
unfolding split_dots
split_dots-other c s h = rw (h)

split_dots-dot : (s : String) → split_dots ("." ++ s) ≡ "" ∷ split_dots s
unfolding split_dots
split_dots-dot s = rw (cons-append, nil-append)

split_dots-append :
    (a b : String) → has_dot a ≡ false → split_dots (a ++ ("." ++ b)) ≡ a ∷ split_dots b
split_dots-append String.[] b h = rw (nil-append, split_dots-dot b)
split_dots-append (String.◌∷◌ c a) b h =
    let u = has_dot-none c a h in
    rw (cons-append, split_dots-other c (a ++ ("." ++ b)) u.0, split_dots-append a b u.1)

split_dots-one : (a : String) → has_dot a ≡ false → split_dots a ≡ a ∷ []
unfolding split_dots
split_dots-one String.[] h = refl
split_dots-one (String.◌∷◌ c a) h =
    let u = has_dot-none c a h in rw (split_dots-other c a u.0, split_dots-one a u.1)

bytes_beq-same : (bs : List ℕ) → bytes_beq bs bs ≡ true
unfolding bytes_beq
bytes_beq-same [] = refl
bytes_beq-same (b ∷ bs) = ground (arith, bytes_beq-same bs)

split_dots-three :
    (a b d : String)
    → has_dot a ≡ false
    → has_dot b ≡ false
    → has_dot d ≡ false
    → split_dots ((a ++ ("." ++ b)) ++ ("." ++ d)) ≡ a ∷ b ∷ d ∷ []
split_dots-three a b d ha hb hd = rw (
  append_assoc a ("." ++ b) ("." ++ d),
  append_assoc "." b ("." ++ d),
  split_dots-append a (b ++ ("." ++ d)) ha,
  split_dots-append b d hb,
  split_dots-one d hd,
)

validate_token-create_token :
    (c : Codec) (subject : String)
    → IsCodec c subject
    → (key : List ℕ) (claims : JwtClaims) (now : ℕ) → IsReadBack c claims
    → validate_token c key (create_token c key claims) now ≡ unexpired c now (some claims)
unfolding validate_token create_token
validate_token-create_token c subject ok key claims now read =
    let first = c.encode c.header in
    let second = c.encode (c.marshal claims) in
    let sig = c.hmac key (first ++ ("." ++ second)) in
    rw (
      split_dots-three first second (c.encode sig) (ok.no_dot c.header)
          (ok.no_dot (c.marshal claims)) (ok.no_dot sig),
      ok.decode_encode sig,
      bytes_beq-same sig,
      ok.decode_encode (c.marshal claims),
      read,
    )

abbrev pub until : ℕ → ℕ → Validated → Validated
until end now v = if ltb end now then refused expired else v

of_type-unexpired :
    (c : Codec) (now : ℕ) (type : String) (claims : JwtClaims)
    → of_type c type (unexpired c now (some claims))
      ≡ until claims.expires_at now (of_type c type (claims_of claims))
of_type-unexpired c now type claims = elim (Bool-cases (ltb claims.expires_at now)) [
  | inl late ↦ rw late
  | inr early ↦ rw early
]

reissued-until :
    (c : Codec) (key : List ℕ) (now end : ℕ) (v : Validated)
    → reissued c key now (until end now v) ≡ (if ltb end now then none else reissued c key now v)
reissued-until c key now end v = elim (Bool-cases (ltb end now)) [
  | inl late ↦ rw late
  | inr early ↦ rw early
]

-- Given a codec that reads back the claims of the subject: each token of a pair that was issued is
-- accepted as what it is, with its claims, up to the end of its life and not after; it is never
-- accepted as the other; and the refresh token gives a pair for the same subject until it ends.
pub issue_token_pair-validate :
    (c : Codec) (key : List ℕ) (subject : String) (issued now : ℕ)
    → IsCodec c subject
    → let pair = issue_token_pair c key subject issued in
      let access_end = issued + access_token_expiry in
      let refresh_end = issued + refresh_token_expiry in
      (validate_access_token c key pair.access_token now
        ≡ until access_end now (claims_of (access_claims subject issued access_end)))
      × (validate_refresh_token c key pair.access_token now
          ≡ until access_end now (refused wrong_type))
      × (validate_access_token c key pair.refresh_token now
          ≡ until refresh_end now (refused wrong_type))
      × (validate_refresh_token c key pair.refresh_token now
          ≡ until refresh_end now (claims_of (refresh_claims subject issued refresh_end)))
      × (refresh_token_pair c key pair.refresh_token now
          ≡ (if ltb refresh_end now then none else some (issue_token_pair c key subject now)))
unfolding issue_token_pair validate_access_token validate_refresh_token refresh_token_pair
issue_token_pair-validate c key subject issued now ok =
    let access = access_claims subject issued (issued + access_token_expiry) in
    let refresh = refresh_claims subject issued (issued + refresh_token_expiry) in
    let a =
      validate_token-create_token c subject ok key access now
        (ok.unmarshal_access issued access.expires_at) in
    let r =
      validate_token-create_token c subject ok key refresh now
        (ok.unmarshal_refresh issued refresh.expires_at) in
    (
      ap (of_type c "access") a ∙ of_type-unexpired c now "access" access,
      ap (of_type c "refresh") a ∙ of_type-unexpired c now "refresh" access,
      ap (of_type c "access") r ∙ of_type-unexpired c now "access" refresh,
      ap (of_type c "refresh") r ∙ of_type-unexpired c now "refresh" refresh,
      ap (λ v. reissued c key now (of_type c "refresh" v)) r
          ∙ ap (reissued c key now) (of_type-unexpired c now "refresh" refresh)
          ∙ reissued-until c key now (refresh.expires_at) (claims_of refresh),
    )
