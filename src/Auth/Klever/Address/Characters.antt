-- ===== src/Auth/Klever/Address/Characters.antt =====
-- What the characters of an address tell.
use klever_node_hub.Prelude.{
  ℕ, zero, suc, ◌+◌, ◌*◌, ◌≡◌, ◌<◌, refl, sym, ap, subst, ◌∙◌, List, [], ◌∷◌, Option, none, some,
  length, get_elem?, arith, All,
}
use klever_node_hub.Auth.Klever.Address.{
  bech32_charset, index_rune, bech32_char_to_value, onto_values, bech32_values, take_first,
}
use klever_node_hub.Auth.Klever.Address.Value.{number_from}

pub number_from_inj :
    (xs ys : List ℕ) (n m : ℕ)
    → length xs ≡ length ys
    → All (λ b. b < 32) xs
    → All (λ b. b < 32) ys
    → number_from 32 n xs ≡ number_from 32 m ys
    → (n ≡ m) × (xs ≡ ys)
unfolding number_from
number_from_inj [] [] n m l hx hy e = (e, refl)
number_from_inj [] (y ∷ ys) n m l hx hy e = ground arith
number_from_inj (x ∷ xs) [] n m l hx hy e = ground arith
number_from_inj (x ∷ xs) (y ∷ ys) n m l hx hy e =
    let rest = number_from_inj xs ys (n * 32 + x) (m * 32 + y) (omega arith) hx.1 hy.1 e in
    let same : n ≡ m = omega (arith, rest.0, hx.0, hy.0) in
    let first : x ≡ y = omega (arith, rest.0, hx.0, hy.0) in
    (same, ap (λ z. z ∷ xs) first ∙ ap (λ zs. y ∷ zs) rest.1)

index_rune-get_elem :
    (ds : List ℕ) (c i : ℕ) → index_rune ds c ≡ some i → (get_elem? ds i ≡ some c) × (i < length ds)
unfolding index_rune
index_rune-get_elem [] c i h = ground arith
index_rune-get_elem (d ∷ ds) c zero h = ground arith
index_rune-get_elem (d ∷ ds) c (suc i) h = ground (arith, index_rune-get_elem ds c i)

char_inj : (c d v : ℕ) → bech32_char_to_value c ≡ some v → bech32_char_to_value d ≡ some v → c ≡ d
unfolding bech32_char_to_value
char_inj c d v h k =
    ground
      (arith, index_rune-get_elem bech32_charset c v h, index_rune-get_elem bech32_charset d v k)

record IsOnto (o : Option ℕ) (r : Option (List ℕ)) (values : List ℕ) : Type 0 where
  head : ℕ
  tail : List ℕ
  from_head : o ≡ some head
  from_tail : r ≡ some tail
  whole : values ≡ head ∷ tail

onto_values-IsOnto :
    (o : Option ℕ) (r : Option (List ℕ)) (values : List ℕ)
    → onto_values o r ≡ some values
    → IsOnto o r values
onto_values-IsOnto none r values h = ground arith
onto_values-IsOnto (some v) none values h = ground arith
onto_values-IsOnto (some v) (some vs) values h = record {
  head = v;
  tail = vs;
  from_head = refl;
  from_tail = refl;
  whole = ground arith;
}

-- What the values of a text are.
pub record IsValues (text values : List ℕ) : Type 0 where
  pub same_length : length values ≡ length text
  pub small : All (λ b. b < 32) values

char_small : (c v : ℕ) → bech32_char_to_value c ≡ some v → v < 32
unfolding bech32_char_to_value
char_small c v h = (index_rune-get_elem bech32_charset c v h).1

pub bech32_values-IsValues :
    (text values : List ℕ) → bech32_values text ≡ some values → IsValues text values
unfolding bech32_values
bech32_values-IsValues [] values h =
    let e : [] ≡ values = ground arith in
    subst (IsValues []) e (record { same_length = refl; small = tt })
bech32_values-IsValues (c ∷ cs) values h =
    let o = onto_values-IsOnto (bech32_char_to_value c) (bech32_values cs) values h in
    let rest = bech32_values-IsValues cs o.tail o.from_tail in
    let whole : IsValues (c ∷ cs) (o.head ∷ o.tail) = record {
      same_length = ap suc rest.same_length;
      small = (char_small c o.head o.from_head, rest.small);
    } in
    subst (IsValues (c ∷ cs)) (sym o.whole) whole

-- The first values tell the first characters.
pub bech32_values-inj :
    (n : ℕ) (a b va vb : List ℕ)
    → bech32_values a ≡ some va
    → bech32_values b ≡ some vb
    → length a ≡ length b
    → take_first n va ≡ take_first n vb
    → take_first n a ≡ take_first n b
unfolding bech32_values take_first
bech32_values-inj zero a b va vb ha hb l e = refl
bech32_values-inj (suc n) [] [] va vb ha hb l e = refl
bech32_values-inj (suc n) [] (d ∷ b) va vb ha hb l e = ground arith
bech32_values-inj (suc n) (c ∷ a) [] va vb ha hb l e = ground arith
bech32_values-inj (suc n) (c ∷ a) (d ∷ b) va vb ha hb l e =
    let oa = onto_values-IsOnto (bech32_char_to_value c) (bech32_values a) va ha in
    let ob = onto_values-IsOnto (bech32_char_to_value d) (bech32_values b) vb hb in
    let both : oa.head ∷ take_first n oa.tail ≡ ob.head ∷ take_first n ob.tail =
      ap (take_first (suc n)) (sym oa.whole) ∙ e ∙ ap (take_first (suc n)) ob.whole in
    let heads : oa.head ≡ ob.head = ground (arith, both) in
    let tails : take_first n oa.tail ≡ take_first n ob.tail = ground (arith, both) in
    let first = char_inj c d ob.head (oa.from_head ∙ ap some heads) ob.from_head in
    let rest =
      bech32_values-inj n a b oa.tail ob.tail oa.from_tail ob.from_tail (omega (arith, l)) tails in
    ap (λ z. z ∷ take_first n a) first ∙ ap (λ zs. d ∷ zs) rest
