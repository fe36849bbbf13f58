-- ===== src/Auth/Jwt/Tests.antt =====
-- A concrete codec, and the theorems on tokens at it.
use Prim.Native.Char.{code}
use Prim.Native.String.{String}
use klever_node_hub.Prelude.{
  ℕ, zero, suc, ◌+◌, ◌≡◌, refl, true, false, List, [], ◌∷◌, Option, none, some, ◌==◌, string_eq,
  if◌then◌else◌, nat_beq, arith, length, codes,
}
use klever_node_hub.Auth.Jwt.{
  JwtClaims, TokenPair, expired, wrong_type, refused, issue_token_pair, validate_refresh_token,
  refresh_token_pair, Codec, IsCodec, has_dot, access_claims, refresh_claims, claims_of,
  create_token, validate_access_token, split_dots, bytes_beq, validate_token,
}
use klever_node_hub.Auth.Jwt.Tokens.{issue_token_pair-validate}
use klever_node_hub.Auth.Jwt.Forgery.{IsSigned, validate_access_token_sound}

-- n marks and an end
abbrev unary : ℕ → String → String
unary zero s = String.◌∷◌ "b" s
unary (suc n) s = String.◌∷◌ "a" (unary n s)

abbrev unary_encode : List ℕ → String
unary_encode [] = ""
unary_encode (n ∷ ns) = unary n (unary_encode ns)

abbrev onto : ℕ → Option (List ℕ) → Option (List ℕ)
onto n none = none
onto n (some ns) = some (n ∷ ns)

abbrev read_on : ℕ → String → Option (List ℕ)
read_on n String.[] = some []
read_on n (String.◌∷◌ c s) = if nat_beq (code c) 97 then read_on (suc n) s else onto n (read_on 0 s)

abbrev type_mark : String → ℕ
type_mark type = if type == "access" then 0 else 1

abbrev read_claims : List ℕ → Option JwtClaims
read_claims (zero ∷ issued ∷ end ∷ []) = some (access_claims "admin" issued end)
read_claims (suc n ∷ issued ∷ end ∷ []) = some (refresh_claims "admin" issued end)
read_claims _ = none

abbrev unary_codec : Codec
unary_codec = record {
  encode = unary_encode;
  decode = read_on 0;
  header = 3 ∷ [];
  marshal = λ claims. type_mark claims.token_type ∷ claims.issued_at ∷ claims.expires_at ∷ [];
  unmarshal = read_claims;
  hmac = λ key text. length (codes text) ∷ key;
}

read_on-unary :
    (acc n : ℕ) (s : String) (ns : List ℕ)
    → read_on 0 s ≡ some ns
    → read_on acc (unary n s) ≡ some ((acc + n) ∷ ns)
read_on-unary acc zero s ns h = ground (arith, h)
read_on-unary acc (suc n) s ns h = ground (arith, read_on-unary (suc acc) n s ns h)

read_on-unary_encode : (ns : List ℕ) → read_on 0 (unary_encode ns) ≡ some ns
read_on-unary_encode [] = refl
read_on-unary_encode (n ∷ ns) =
    ground (arith, read_on-unary 0 n (unary_encode ns) ns (read_on-unary_encode ns))

unary_no_dot : (n : ℕ) (s : String) → has_dot s ≡ false → has_dot (unary n s) ≡ false
unfolding has_dot
unary_no_dot zero s h = h
unary_no_dot (suc n) s h = unary_no_dot n s h

unary_encode_no_dot : (ns : List ℕ) → has_dot (unary_encode ns) ≡ false
unfolding has_dot
unary_encode_no_dot [] = refl
unary_encode_no_dot (n ∷ ns) = unary_no_dot n (unary_encode ns) (unary_encode_no_dot ns)

abbrev admin_pair : ℕ → TokenPair
admin_pair now = issue_token_pair unary_codec (7 ∷ 9 ∷ []) "admin" now

unary_codec-IsCodec : IsCodec unary_codec "admin"
unary_codec-IsCodec = record {
  decode_encode = read_on-unary_encode;
  no_dot = unary_encode_no_dot;
  unmarshal_access = λ issued end. refl;
  unmarshal_refresh = λ issued end. refl;
}

issue_token_pair-validate_example :
    (validate_access_token unary_codec (7 ∷ 9 ∷ []) (admin_pair 1000).access_token 1901
      ≡ refused expired)
    × (validate_refresh_token unary_codec (7 ∷ 9 ∷ []) (admin_pair 1000).access_token 1901
        ≡ refused expired)
    × (validate_access_token unary_codec (7 ∷ 9 ∷ []) (admin_pair 1000).refresh_token 1901
        ≡ refused wrong_type)
    × (validate_refresh_token unary_codec (7 ∷ 9 ∷ []) (admin_pair 1000).refresh_token 1901
        ≡ claims_of (refresh_claims "admin" 1000 605800))
    × (refresh_token_pair unary_codec (7 ∷ 9 ∷ []) (admin_pair 1000).refresh_token 1901
        ≡ some (admin_pair 1901))
issue_token_pair-validate_example =
    issue_token_pair-validate unary_codec (7 ∷ 9 ∷ []) "admin" 1000 1901 unary_codec-IsCodec

abbrev small_token : String
small_token = create_token unary_codec (2 ∷ []) (access_claims "admin" 1 4)

small_token_accepted :
    validate_access_token unary_codec (2 ∷ []) small_token 3 ≡ claims_of (access_claims "admin" 1 4)
unfolding validate_access_token validate_token create_token split_dots bytes_beq
small_token_accepted = refl

validate_access_token_sound_example :
    IsSigned unary_codec (2 ∷ []) small_token 3 (access_claims "admin" 1 4)
    × (((access_claims "admin" 1 4).token_type == "access") ≡ true)
validate_access_token_sound_example =
    validate_access_token_sound unary_codec (2 ∷ []) small_token 3 (access_claims "admin" 1 4)
      small_token_accepted
