-- ===== src/Auth/Klever/Address/Value.antt =====
-- The bytes of an address are the number that its characters write.
use klever_node_hub.Prelude.{
  ℕ, zero, suc, ◌+◌, ◌-◌, ◌*◌, ◌/◌, ◌%◌, ◌^◌, ◌≡◌, ◌≤◌, ◌<◌, refl, sym, ap, ◌∙◌, false, List, [],
  ◌∷◌, ◌++◌, some, length, length-append, arith, All,
}
use klever_node_hub.Auth.Klever.Address.{
  Bits, emit, take_group, take_groups, left_over, finish_bits, convert_bits,
}

-- The number that digits write after n, the first digit first.
unfoldable pub number_from : ℕ → ℕ → List ℕ → ℕ
number_from base n [] = n
number_from base n (d ∷ ds) = number_from base (n * base + d) ds

number_from-append :
    (base n : ℕ) (ds : List ℕ) (d : ℕ)
    → number_from base n (ds ++ (d ∷ [])) ≡ number_from base n ds * base + d
unfolding number_from
number_from-append base n [] d = refl
number_from-append base n (x ∷ ds) d = number_from-append base (n * base + x) ds d

-- The number that has been read.
abbrev read_number : Bits → ℕ
read_number s = number_from 256 0 s.result * 2 ^ s.bits + s.acc % 2 ^ s.bits

-- One more group: the state after it, for which there are fewer than eight bits again.
record IsNext (b : ℕ) (s t : Bits) : Type 0 where
  few : t.bits < 8
  value : read_number t ≡ read_number s * 32 + b
  count : 8 * length t.result + t.bits ≡ 8 * length s.result + s.bits + 5

take_group-IsNext :
    (acc bits : ℕ) (result : List ℕ) (b : ℕ)
    → bits < 8
    → b < 32
    → let s : Bits = record { acc = acc; bits = bits; result = result } in
      IsNext b s (take_group 5 8 s b)
unfolding take_group emit
take_group-IsNext acc zero result b h k = record {
  few = omega arith;
  value = omega arith;
  count = omega arith;
}
take_group-IsNext acc (suc zero) result b h k = record {
  few = omega arith;
  value = omega arith;
  count = omega arith;
}
take_group-IsNext acc (suc (suc zero)) result b h k = record {
  few = omega arith;
  value = omega arith;
  count = omega arith;
}
take_group-IsNext acc (suc (suc (suc zero))) result b h k =
    let byte = ((acc * 32 + b) % 2 ^ 32) / 1 % 256 in
    record {
      few = omega arith;
      value = omega (arith, number_from-append 256 0 result byte);
      count = omega (arith, length-append result (byte ∷ []));
    }
take_group-IsNext acc (suc (suc (suc (suc zero)))) result b h k =
    let byte = ((acc * 32 + b) % 2 ^ 32) / 2 % 256 in
    record {
      few = omega arith;
      value = omega (arith, number_from-append 256 0 result byte);
      count = omega (arith, length-append result (byte ∷ []));
    }
take_group-IsNext acc (suc (suc (suc (suc (suc zero))))) result b h k =
    let byte = ((acc * 32 + b) % 2 ^ 32) / 4 % 256 in
    record {
      few = omega arith;
      value = omega (arith, number_from-append 256 0 result byte);
      count = omega (arith, length-append result (byte ∷ []));
    }
take_group-IsNext acc (suc (suc (suc (suc (suc (suc zero)))))) result b h k =
    let byte = ((acc * 32 + b) % 2 ^ 32) / 8 % 256 in
    record {
      few = omega arith;
      value = omega (arith, number_from-append 256 0 result byte);
      count = omega (arith, length-append result (byte ∷ []));
    }
take_group-IsNext acc (suc (suc (suc (suc (suc (suc (suc zero))))))) result b h k =
    let byte = ((acc * 32 + b) % 2 ^ 32) / 16 % 256 in
    record {
      few = omega arith;
      value = omega (arith, number_from-append 256 0 result byte);
      count = omega (arith, length-append result (byte ∷ []));
    }
take_group-IsNext acc (suc (suc (suc (suc (suc (suc (suc (suc bits)))))))) result b h k =
    ground arith

record IsRead (groups : List ℕ) (s t : Bits) : Type 0 where
  few : t.bits < 8
  value : read_number t ≡ number_from 32 (read_number s) groups
  count : 8 * length t.result + t.bits ≡ 8 * length s.result + s.bits + 5 * length groups

take_groups-IsRead :
    (groups : List ℕ) (s : Bits)
    → All (λ b. b < 32) groups
    → s.bits < 8
    → IsRead groups s (take_groups 5 8 s groups)
unfolding take_groups number_from
take_groups-IsRead [] s small h = record { few = h; value = refl; count = omega arith }
take_groups-IsRead (b ∷ bs) s small h =
    let now = take_group-IsNext s.acc s.bits s.result b h small.0 in
    let next = take_group 5 8 s b in
    let rest = take_groups-IsRead bs next small.1 now.few in
    record {
      few = rest.few;
      value = rest.value ∙ ap (λ n. number_from 32 n bs) now.value;
      count = omega (arith, rest.count, now.count);
    }

-- Nothing is left over only if the last bits are zero.
left_over_zero :
    (acc bits : ℕ) (result : List ℕ)
    → bits < 5
    → left_over 8 (record { acc = acc; bits = bits; result = result }) ≡ 0
    → acc % 2 ^ bits ≡ 0
left_over_zero acc zero result h e = omega arith
left_over_zero acc (suc zero) result h e = omega arith
left_over_zero acc (suc (suc zero)) result h e = omega arith
left_over_zero acc (suc (suc (suc zero))) result h e = omega arith
left_over_zero acc (suc (suc (suc (suc zero)))) result h e = omega arith
left_over_zero acc (suc (suc (suc (suc (suc bits))))) result h e = ground arith

finish_bits-some :
    (s : Bits) (bytes : List ℕ)
    → finish_bits 5 8 false s ≡ some bytes
    → (s.bits < 5) × (s.acc % 2 ^ s.bits ≡ 0) × (s.result ≡ bytes)
finish_bits-some s bytes h =
    let few : s.bits < 5 = ground arith in
    let none_left : left_over 8 s ≡ 0 = ground arith in
    (few, left_over_zero s.acc s.bits s.result few none_left, ground arith)

plus_zero : (n z : ℕ) → z ≡ 0 → n + z ≡ n
plus_zero n z e = omega arith

-- Characters of five bits make these bytes: all bits are used but fewer than five, which are zero,
-- and the two write the same number.
pub convert_bits-value :
    (groups bytes : List ℕ)
    → All (λ b. b < 32) groups
    → convert_bits groups 5 8 false ≡ some bytes
    → let spare = 5 * length groups - 8 * length bytes in
      (8 * length bytes ≤ 5 * length groups)
      × (spare < 5)
      × (number_from 32 0 groups ≡ number_from 256 0 bytes * 2 ^ spare)
unfolding convert_bits number_from
convert_bits-value groups bytes small h =
    let s = take_groups 5 8 (record { acc = 0; bits = 0; result = [] }) groups in
    let f = finish_bits-some s bytes h in
    let r =
      take_groups-IsRead groups (record { acc = 0; bits = 0; result = [] }) small (omega arith) in
    let same = ap length f.2 in
    let spare_same : s.bits ≡ 5 * length groups - 8 * length bytes =
      omega (arith, r.count, same, f.0) in
    let whole = plus_zero (number_from 256 0 s.result * 2 ^ s.bits) (s.acc % 2 ^ s.bits) f.1 in
    let written = λ (bs : List ℕ) (n : ℕ). number_from 256 0 bs * 2 ^ n in
    (
      omega (arith, r.count, same),
      omega (arith, r.count, same, f.0),
      sym r.value ∙ whole ∙ ap (λ bs. written bs s.bits) f.2 ∙ ap (written bytes) spare_same,
    )
