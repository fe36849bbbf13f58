-- ===== src/Auth/Klever/Address/Tests.antt =====
-- An address, with two endings.
use klever_node_hub.Prelude.{ℕ, ◌≡◌, refl, List, [], ◌∷◌, some, codes, length}
use klever_node_hub.Auth.Klever.Address.{
  index_rune, bech32_char_to_value, after_hrp, emit, take_group, take_groups, convert_bits,
  bech32_values, take_first, bech32_decode, klever_address_to_public_key,
}
use klever_node_hub.Auth.Klever.Address.Injective.{klever_address_to_public_key_inj}

abbrev wallet : List ℕ
wallet = codes "klv10gh7yq7swv77efwfcqy2znp37cmeughxzgldsmn6ck6w4p325xdsqqqqqq"

abbrev other_ending : List ℕ
other_ending = codes "klv10gh7yq7swv77efwfcqy2znp37cmeughxzgldsmn6ck6w4p325xdszzzzzz"

abbrev wallet_key : List ℕ
wallet_key =
    122 ∷ 47 ∷ 226 ∷ 3 ∷ 208 ∷ 115 ∷ 61 ∷ 236 ∷ 165 ∷ 201 ∷ 192 ∷ 8 ∷ 161 ∷ 76 ∷ 49 ∷ 246 ∷ 55 ∷ 158
    ∷ 34 ∷ 230 ∷ 18 ∷ 62 ∷ 216 ∷ 110 ∷ 122 ∷ 197 ∷ 180 ∷ 234 ∷ 134 ∷ 42 ∷ 161 ∷ 155 ∷ []

wallet_decodes : klever_address_to_public_key wallet ≡ some wallet_key
unfolding klever_address_to_public_key bech32_decode bech32_values bech32_char_to_value index_rune
    after_hrp emit take_group take_groups convert_bits take_first
wallet_decodes = refl

other_decodes : klever_address_to_public_key other_ending ≡ some wallet_key
unfolding klever_address_to_public_key bech32_decode bech32_values bech32_char_to_value index_rune
    after_hrp emit take_group take_groups convert_bits take_first
other_decodes = refl

klever_address_to_public_key_inj_example :
    (length wallet ≡ 62)
    × (length other_ending ≡ 62)
    × (take_first 56 wallet ≡ take_first 56 other_ending)
klever_address_to_public_key_inj_example =
    klever_address_to_public_key_inj wallet other_ending wallet_key wallet_decodes other_decodes
