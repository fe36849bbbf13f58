-- ===== src/Auth/Klever/Address.antt =====
-- internal/auth/klever.go: the addresses of wallets, which are public keys in bech32. Texts are lists
-- of code points. A value of a group is below 2 to the width of the group, so that `|` of the source
-- is `+` here.
pub mod Value
pub mod Characters
pub mod Injective
pub mod Tests
use klever_node_hub.Prelude.{
  ℕ, zero, suc, ◌+◌, ◌-◌, ◌*◌, ◌/◌, ◌%◌, ◌^◌, Bool, true, false, not, List, [], ◌∷◌, ◌++◌, Option,
  none, some, if◌then◌else◌, nat_beq, ltb, leb, ◌&&◌, length, codes,
}

abbrev pub bech32_charset : List ℕ
bech32_charset = codes "qpzry9x8gf2tvdw0s3jn54khce6mua7l"

abbrev pub next_index : Option ℕ → Option ℕ
next_index none = none
next_index (some i) = some (suc i)

-- strings.IndexRune, on a text of one byte for each character; `none` is -1.
unfoldable pub index_rune : List ℕ → ℕ → Option ℕ
index_rune [] c = none
index_rune (d ∷ ds) c =
    let rest = index_rune ds c in if nat_beq d c then some 0 else next_index rest

-- bech32CharToValue
unfoldable pub bech32_char_to_value : ℕ → Option ℕ
bech32_char_to_value c = index_rune bech32_charset c

-- isBech32Char
abbrev pub is_some : Option ℕ → Bool
is_some none = false
is_some (some n) = true

unfoldable pub all_bech32 : List ℕ → Bool
all_bech32 [] = true
all_bech32 (c ∷ cs) = is_some (bech32_char_to_value c) && all_bech32 cs

-- What follows "klv1".
unfoldable pub after_hrp : List ℕ → Option (List ℕ)
after_hrp (a ∷ b ∷ c ∷ d ∷ rest) =
    if nat_beq a 107 && nat_beq b 108 && nat_beq c 118 && nat_beq d 49 then some rest else none
after_hrp _ = none

abbrev pub valid_rest : Option (List ℕ) → Bool
valid_rest none = false
valid_rest (some rest) = nat_beq (length rest) 58 && all_bech32 rest

-- isValidKleverAddress
unfoldable pub is_valid_klever_address : List ℕ → Bool
is_valid_klever_address address = valid_rest (after_hrp address)

-- The state of convertBits.
pub record Bits : Type 0 where
  pub acc : ℕ
  pub bits : ℕ
  pub result : List ℕ

-- The inner loop of convertBits, for at most so many rounds.
unfoldable pub emit : ℕ → ℕ → Bits → Bits
emit to_bits zero s = s
emit to_bits (suc rounds) s =
    if leb to_bits s.bits
    then emit to_bits rounds record {
      acc = s.acc;
      bits = s.bits - to_bits;
      result = s.result ++ (((s.acc / 2 ^ (s.bits - to_bits)) % 2 ^ to_bits) ∷ []);
    }
    else s

-- One round of the outer loop. Each round of the inner loop takes away from `bits`.
unfoldable pub take_group : ℕ → ℕ → Bits → ℕ → Bits
take_group from_bits to_bits s b =
    let bits = s.bits + from_bits in
    emit to_bits bits
      record { acc = (s.acc * 2 ^ from_bits + b) % 2 ^ 32; bits = bits; result = s.result }

unfoldable pub take_groups : ℕ → ℕ → Bits → List ℕ → Bits
take_groups from_bits to_bits s [] = s
take_groups from_bits to_bits s (b ∷ bs) =
    take_groups from_bits to_bits (take_group from_bits to_bits s b) bs

-- What is left at the end: the accumulator, moved up to a whole group.
abbrev pub left_over : ℕ → Bits → ℕ
left_over to_bits s = ((s.acc * 2 ^ (to_bits - s.bits)) % 2 ^ 32) % 2 ^ to_bits

-- The end of convertBits; `none` for an error of the padding.
abbrev pub finish_bits : ℕ → ℕ → Bool → Bits → Option (List ℕ)
finish_bits from_bits to_bits true s =
    some (if ltb 0 s.bits then s.result ++ (left_over to_bits s ∷ []) else s.result)
finish_bits from_bits to_bits false s =
    if leb from_bits s.bits
    then none
    else if nat_beq (left_over to_bits s) 0
    then some s.result
    else none

-- convertBits
unfoldable pub convert_bits : List ℕ → ℕ → ℕ → Bool → Option (List ℕ)
convert_bits groups from_bits to_bits pad =
    finish_bits from_bits to_bits pad
      (take_groups from_bits to_bits (record { acc = 0; bits = 0; result = [] }) groups)

abbrev pub onto_values : Option ℕ → Option (List ℕ) → Option (List ℕ)
onto_values (some v) (some vs) = some (v ∷ vs)
onto_values _ _ = none

unfoldable pub bech32_values : List ℕ → Option (List ℕ)
bech32_values [] = some []
bech32_values (c ∷ cs) = onto_values (bech32_char_to_value c) (bech32_values cs)

unfoldable pub take_first : ℕ → List ℕ → List ℕ
take_first zero xs = []
take_first (suc n) [] = []
take_first (suc n) (x ∷ xs) = x ∷ take_first n xs

abbrev pub decode_values : Option (List ℕ) → Option (List ℕ)
decode_values none = none
decode_values (some values) =
    if ltb (length values) 7
    then none
    else convert_bits (take_first (length values - 6) values) 5 8 false

-- bech32Decode5to8; `none` for an error.
unfoldable pub bech32_decode : List ℕ → Option (List ℕ)
bech32_decode text = decode_values (bech32_values text)

abbrev pub klever_addr_len : ℕ
klever_addr_len = 32

abbrev pub of_length : Option (List ℕ) → Option (List ℕ)
of_length none = none
of_length (some key) = if nat_beq (length key) klever_addr_len then some key else none

abbrev pub decode_rest : Option (List ℕ) → Option (List ℕ)
decode_rest none = none
decode_rest (some rest) = of_length (bech32_decode rest)

-- kleverAddressToPublicKey; `none` for an error.
unfoldable pub klever_address_to_public_key : List ℕ → Option (List ℕ)
klever_address_to_public_key address = decode_rest (after_hrp address)
