-- ===== src/Auth/Jwt/Forgery.antt =====
-- What a token must be to be accepted.
use Prim.Native.String.{String, ◌++◌}
use klever_node_hub.Prelude.{
  ℕ, ◌≡◌, ◌≤◌, refl, true, List, [], ◌∷◌, Option, none, some, ◌==◌, string_eq, arith,
}
use klever_node_hub.Auth.Jwt.{
  JwtClaims, Codec, Validated, claims_of, refused, split_dots, bytes_beq, unexpired, decoded,
  verified, validate_parts, validate_token, of_type, validate_access_token,
}

bytes_beq_sound : (xs ys : List ℕ) → bytes_beq xs ys ≡ true → xs ≡ ys
unfolding bytes_beq
bytes_beq_sound [] [] h = refl
bytes_beq_sound [] (y ∷ ys) h = ground arith
bytes_beq_sound (x ∷ xs) [] h = ground arith
bytes_beq_sound (x ∷ xs) (y ∷ ys) h = ground (arith, bytes_beq_sound xs ys)

-- The parts of a token that bears the signature of the key over these claims, which have not ended.
pub record IsSigned (c : Codec) (key : List ℕ) (token : String) (now : ℕ) (claims : JwtClaims)
    : Type 0 where
  pub first : String
  pub second : String
  pub third : String
  pub body : List ℕ
  pub parts : split_dots token ≡ first ∷ second ∷ third ∷ []
  pub signature : c.decode third ≡ some (c.hmac key (first ++ ("." ++ second)))
  pub payload : c.decode second ≡ some body
  pub content : c.unmarshal body ≡ some claims
  pub in_time : now ≤ claims.expires_at

unexpired-claims :
    (c : Codec) (now : ℕ) (read : Option JwtClaims) (claims : JwtClaims)
    → unexpired c now read ≡ claims_of claims
    → (read ≡ some claims) × (now ≤ claims.expires_at)
unexpired-claims c now none claims h = ground arith
unexpired-claims c now (some found) claims h = ground arith

-- The bytes of a payload with these claims.
record IsRead (c : Codec) (now : ℕ) (o : Option (List ℕ)) (claims : JwtClaims) : Type 0 where
  bytes : List ℕ
  same : o ≡ some bytes
  inside : c.unmarshal bytes ≡ some claims
  early : now ≤ claims.expires_at

decoded-claims :
    (c : Codec) (now : ℕ) (o : Option (List ℕ)) (claims : JwtClaims)
    → decoded c now o ≡ claims_of claims
    → IsRead c now o claims
decoded-claims c now none claims h = ground arith
decoded-claims c now (some bytes) claims h =
    let u = unexpired-claims c now (c.unmarshal bytes) claims h in
    record { bytes = bytes; same = refl; inside = u.0; early = u.1 }

verified-claims :
    (c : Codec) (key : List ℕ) (now : ℕ) (a b : String) (o : Option (List ℕ)) (claims : JwtClaims)
    → verified c key now a b o ≡ claims_of claims
    → (o ≡ some (c.hmac key (a ++ ("." ++ b)))) × (decoded c now (c.decode b) ≡ claims_of claims)
verified-claims c key now a b none claims h = ground arith
verified-claims c key now a b (some sig) claims h =
    let mac = c.hmac key (a ++ ("." ++ b)) in ground (arith, bytes_beq_sound mac sig)

validate_parts-claims :
    (c : Codec) (key : List ℕ) (now : ℕ) (token : String) (ps : List String) (claims : JwtClaims)
    → split_dots token ≡ ps
    → validate_parts c key now ps ≡ claims_of claims
    → IsSigned c key token now claims
validate_parts-claims c key now token (a ∷ b ∷ d ∷ []) claims e h =
    let v = verified-claims c key now a b (c.decode d) claims h in
    let r = decoded-claims c now (c.decode b) claims v.1 in
    record {
      first = a;
      second = b;
      third = d;
      body = r.bytes;
      parts = e;
      signature = v.0;
      payload = r.same;
      content = r.inside;
      in_time = r.early;
    }
validate_parts-claims c key now token [] claims e h = ground arith
validate_parts-claims c key now token (a ∷ []) claims e h = ground arith
validate_parts-claims c key now token (a ∷ b ∷ []) claims e h = ground arith
validate_parts-claims c key now token (a ∷ b ∷ d ∷ f ∷ ps) claims e h = ground arith

of_type-claims :
    (c : Codec) (type : String) (v : Validated) (claims : JwtClaims)
    → of_type c type v ≡ claims_of claims
    → (v ≡ claims_of claims) × ((claims.token_type == type) ≡ true)
of_type-claims c type (refused e) claims h = ground arith
of_type-claims c type (claims_of found) claims h = ground arith

-- Whatever text comes as an access token: if it is accepted, then it has three parts, the third is
-- the signature of the first two under the key, the second holds the claims, they are those of an
-- access token, and they have not ended.
pub validate_access_token_sound :
    (c : Codec) (key : List ℕ) (token : String) (now : ℕ) (claims : JwtClaims)
    → validate_access_token c key token now ≡ claims_of claims
    → IsSigned c key token now claims × ((claims.token_type == "access") ≡ true)
unfolding validate_access_token validate_token
validate_access_token_sound c key token now claims h =
    let t = of_type-claims c "access" (validate_token c key token now) claims h in
    (validate_parts-claims c key now token (split_dots token) claims refl t.0, t.1)
