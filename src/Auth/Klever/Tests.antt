-- ===== src/Auth/Klever/Tests.antt =====
-- A login with a wallet whose signatures are all good.
use klever_node_hub.Prelude.{
  ℕ, zero, suc, ◌+◌, ◌≡◌, ◌≤◌, refl, String, true, List, [], ◌∷◌, some, ◌==◌, string_eq, lookup,
  insert, delete, retain,
}
use klever_node_hub.Auth.Klever.{
  KleverAuth, Wallet, create_challenge, verify_signature, verify_ed25519_signature,
}
use klever_node_hub.Auth.Klever.Address.{
  index_rune, bech32_char_to_value, after_hrp, emit, take_group, take_groups, convert_bits,
  bech32_values, take_first, bech32_decode, klever_address_to_public_key,
}
use klever_node_hub.Auth.Klever.Challenges.{Op, challenge, verify, run, step, held, run-spent}

abbrev zeros : ℕ → List ℕ
zeros zero = []
zeros (suc n) = 0 ∷ zeros n

abbrev good_wallet : Wallet
good_wallet = record {
  equal_fold = λ s t. s == t;
  hex_encode = λ bytes. "nonce";
  hex_decode = λ s. some (zeros 64);
  decimal = λ n. n ∷ [];
  keccak = λ bytes. bytes;
  ed25519_verify = λ key message sig. true;
}

abbrev admin_address : String
admin_address = "klv10gh7yq7swv77efwfcqy2znp37cmeughxzgldsmn6ck6w4p325xdsqqqqqq"

abbrev linked : KleverAuth
linked = record { admin = admin_address; challenges = [] }

-- One challenge, presented twice.
abbrev two_logins : List Op
two_logins =
    challenge admin_address (some (1 ∷ [])) 100
    ∷ verify admin_address "nonce" "sig" 200
    ∷ verify admin_address "nonce" "sig" 300
    ∷ []

run-spent_example :
    (run good_wallet "nonce" linked two_logins).accepts
      + held "nonce" (run good_wallet "nonce" linked two_logins).state
    ≤ (run good_wallet "nonce" linked two_logins).issues + held "nonce" linked
run-spent_example = run-spent good_wallet "nonce" linked two_logins

first_login_only : (run good_wallet "nonce" linked two_logins).accepts ≡ 1
unfolding run step create_challenge verify_signature verify_ed25519_signature lookup insert delete
    retain klever_address_to_public_key bech32_decode bech32_values bech32_char_to_value index_rune
    after_hrp emit take_group take_groups convert_bits take_first
first_login_only = refl
