-- ===== src/Auth/Klever/Address/Injective.antt =====
-- Different addresses are different keys.
use klever_node_hub.Prelude.{
  ℕ, zero, suc, ◌-◌, ◌*◌, ◌^◌, ◌≡◌, ◌≤◌, ◌<◌, refl, sym, ap, ◌∙◌, Bool, true, false, List, [], ◌∷◌,
  Option, none, some, if◌then◌else◌, ltb, length, arith, All,
}
use klever_node_hub.Auth.Klever.Address.{
  after_hrp, convert_bits, bech32_values, take_first, decode_values, bech32_decode, of_length,
  decode_rest, klever_address_to_public_key,
}
use klever_node_hub.Auth.Klever.Address.Value.{number_from, convert_bits-value}
use klever_node_hub.Auth.Klever.Address.Characters.{
  number_from_inj, bech32_values-IsValues, bech32_values-inj,
}

abbrev address_of : List ℕ → List ℕ
address_of rest = 107 ∷ 108 ∷ 118 ∷ 49 ∷ rest

after_hrp-some : (a rest : List ℕ) → after_hrp a ≡ some rest → a ≡ address_of rest
unfolding after_hrp
after_hrp-some [] rest h = ground arith
after_hrp-some (x ∷ []) rest h = ground arith
after_hrp-some (x ∷ y ∷ []) rest h = ground arith
after_hrp-some (x ∷ y ∷ z ∷ []) rest h = ground arith
after_hrp-some (x ∷ y ∷ z ∷ w ∷ a) rest h = ground arith

-- What an address that has a key is made of.
record IsDecoded (rest key : List ℕ) : Type 0 where
  values : List ℕ
  read : bech32_values rest ≡ some values
  bytes : convert_bits (take_first (length values - 6) values) 5 8 false ≡ some key
  size : length key ≡ 32

of_length-some :
    (o : Option (List ℕ)) (key : List ℕ)
    → of_length o ≡ some key
    → (o ≡ some key) × (length key ≡ 32)
of_length-some none key h = ground arith
of_length-some (some k) key h = ground arith

if-some :
    (b : Bool) (o : Option (List ℕ)) (key : List ℕ)
    → (if b then none else o) ≡ some key
    → o ≡ some key
if-some true o key h = ground arith
if-some false o key h = h

decode_values-some :
    (o : Option (List ℕ)) (key rest : List ℕ)
    → bech32_values rest ≡ o
    → of_length (decode_values o) ≡ some key
    → IsDecoded rest key
decode_values-some none key rest r h = ground arith
decode_values-some (some values) key rest r h =
    let u = of_length-some (decode_values (some values)) key h in
    let groups = take_first (length values - 6) values in
    record {
      values = values;
      read = r;
      bytes = if-some (ltb (length values) 7) (convert_bits groups 5 8 false) key u.0;
      size = u.1;
    }

record IsAddress (a key : List ℕ) : Type 0 where
  rest : List ℕ
  shape : a ≡ address_of rest
  decoded : IsDecoded rest key

decode_rest-IsAddress :
    (a key : List ℕ) (o : Option (List ℕ))
    → after_hrp a ≡ o
    → decode_rest o ≡ some key
    → IsAddress a key
unfolding bech32_decode
decode_rest-IsAddress a key none e h = ground arith
decode_rest-IsAddress a key (some rest) e h = record {
  rest = rest;
  shape = after_hrp-some a rest e;
  decoded = decode_values-some (bech32_values rest) key rest refl h;
}

length-take_first : (n : ℕ) (xs : List ℕ) → n ≤ length xs → length (take_first n xs) ≡ n
unfolding take_first
length-take_first zero xs h = refl
length-take_first (suc n) [] h = ground arith
length-take_first (suc n) (x ∷ xs) h = ap suc (length-take_first n xs (omega (arith, h)))

take_first-small :
    (n : ℕ) (xs : List ℕ) → All (λ b. b < 32) xs → All (λ b. b < 32) (take_first n xs)
unfolding take_first
take_first-small zero xs h = tt
take_first-small (suc n) [] h = tt
take_first-small (suc n) (x ∷ xs) h = (h.0, take_first-small n xs h.1)

-- The 52 groups of an address, as a number.
record IsCounted (rest key values : List ℕ) : Type 0 where
  read : bech32_values rest ≡ some values
  characters : length rest ≡ 58
  groups : length (take_first 52 values) ≡ 52
  small : All (λ b. b < 32) (take_first 52 values)
  value : number_from 32 0 (take_first 52 values) ≡ number_from 256 0 key * 2 ^ 4

decoded-IsCounted : (rest key : List ℕ) (d : IsDecoded rest key) → IsCounted rest key d.values
decoded-IsCounted rest key d =
    let v = bech32_values-IsValues rest d.values d.read in
    let n = length d.values - 6 in
    let taken = length-take_first n d.values (omega arith) in
    let c =
      convert_bits-value (take_first n d.values) key (take_first-small n d.values v.small)
        d.bytes in
    let full : n ≡ 52 = omega (arith, taken, c.0, c.1, d.size) in
    let spare : 5 * length (take_first n d.values) - 8 * length key ≡ 4 =
      omega (arith, taken, full, d.size) in
    record {
      read = d.read;
      characters = omega (arith, full, v.same_length);
      groups = length-take_first 52 d.values (omega (arith, full));
      small = take_first-small 52 d.values v.small;
      value =
          ap (λ k. number_from 32 0 (take_first k d.values)) (sym full)
          ∙ c.2
          ∙ ap (λ k. number_from 256 0 key * 2 ^ k) spare;
    }

address_of-take :
    (xs ys : List ℕ)
    → take_first 52 xs ≡ take_first 52 ys
    → take_first 56 (address_of xs) ≡ take_first 56 (address_of ys)
unfolding take_first
address_of-take xs ys e = ap address_of e

-- Two texts that decode to the same public key are addresses of 62 characters, and they differ at most
-- in the last six of them, the checksum.
pub klever_address_to_public_key_inj :
    (a b key : List ℕ)
    → klever_address_to_public_key a ≡ some key
    → klever_address_to_public_key b ≡ some key
    → (length a ≡ 62) × (length b ≡ 62) × (take_first 56 a ≡ take_first 56 b)
unfolding klever_address_to_public_key
klever_address_to_public_key_inj a b key ha hb =
    let x = decode_rest-IsAddress a key (after_hrp a) refl ha in
    let y = decode_rest-IsAddress b key (after_hrp b) refl hb in
    let p = decoded-IsCounted x.rest key x.decoded in
    let q = decoded-IsCounted y.rest key y.decoded in
    let va = x.decoded.values in
    let vb = y.decoded.values in
    let groups =
      number_from_inj (take_first 52 va) (take_first 52 vb) 0 0 (p.groups ∙ sym q.groups) p.small
        q.small (p.value ∙ sym q.value) in
    let texts =
      bech32_values-inj 52 x.rest y.rest va vb p.read q.read (p.characters ∙ sym q.characters)
        groups.1 in
    (
      omega (arith, ap length x.shape, p.characters),
      omega (arith, ap length y.shape, q.characters),
      ap (take_first 56) x.shape
          ∙ address_of-take x.rest y.rest texts
          ∙ ap (take_first 56) (sym y.shape),
    )
