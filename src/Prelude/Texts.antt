-- ===== src/Prelude/Texts.antt =====
-- Texts as code points, signed integers, and what strconv and fmt read of them.
use Prim.Native.Nat.{ℕ, zero, suc, ◌+◌, ◌-◌, ◌*◌, ◌^◌}
use Prim.Native.Char.{code}
use Prim.Native.String.{String}
use mathlib.Core.Bool.{Bool, true, false, ◌&&◌}
use mathlib.Core.List.{List, [], ◌∷◌}
use mathlib.Core.Option.{Option, none, some}
use klever_node_hub.Prelude.Tests.{ltb, leb, nat_beq, if◌then◌else◌}

-- The code points of a text.
abbrev pub codes : String → List ℕ
codes String.[] = []
codes (String.◌∷◌ c s) = code c ∷ codes s

-- `negsuc n` is -(n + 1).
pub data ℤ : Type 0 where
  pos : ℕ → ℤ
  negsuc : ℕ → ℤ

abbrev pub neg : ℕ → ℤ
neg zero = pos 0
neg (suc n) = negsuc n

-- a > b
abbrev pub gt_int : ℤ → ℤ → Bool
gt_int (pos a) (pos b) = ltb b a
gt_int (pos a) (negsuc b) = true
gt_int (negsuc a) (pos b) = false
gt_int (negsuc a) (negsuc b) = ltb a b

abbrev pub is_digit : ℕ → Bool
is_digit c = leb 48 c && leb c 57

abbrev pub max_int64 : ℕ
max_int64 = 2 ^ 63 - 1

-- A value that an int64 does not hold is an error.
abbrev pub signed : Bool → ℕ → Option ℤ
signed true v = if leb v (max_int64 + 1) then some (neg v) else none
signed false v = if leb v max_int64 then some (pos v) else none

-- All characters are digits.
unfoldable pub value_of : ℕ → List ℕ → Option ℕ
value_of acc [] = some acc
value_of acc (c ∷ cs) =
    let rest = value_of (acc * 10 + (c - 48)) cs in if is_digit c then rest else none

unfoldable pub unsigned_of : Bool → List ℕ → Option ℤ
unfolding value_of
unsigned_of negative [] = none
unsigned_of negative (c ∷ cs) = elim (value_of 0 (c ∷ cs)) [
  | none ↦ none
  | some v ↦ signed negative v
]

abbrev pub plus_code : ℕ
plus_code = 43

abbrev pub minus_code : ℕ
minus_code = 45

-- strconv.Atoi
unfoldable pub atoi : List ℕ → Option ℤ
unfolding unsigned_of
atoi [] = none
atoi (c ∷ cs) =
    if nat_beq c minus_code
    then unsigned_of true cs
    else if nat_beq c plus_code
    then unsigned_of false cs
    else unsigned_of false (c ∷ cs)

-- The longest prefix of digits.
unfoldable pub digits : List ℕ → List ℕ
digits [] = []
digits (c ∷ cs) = let rest = digits cs in if is_digit c then c ∷ rest else []

unfoldable pub skip_spaces : List ℕ → List ℕ
skip_spaces [] = []
skip_spaces (c ∷ cs) = let rest = skip_spaces cs in if nat_beq c 32 then rest else c ∷ cs

abbrev or_zero : Option ℤ → ℤ
or_zero none = pos 0
or_zero (some z) = z

-- fmt.Sscanf with %d into a variable that holds 0.
unfoldable pub scan_int : List ℕ → ℤ
unfolding unsigned_of digits skip_spaces
scan_int s = elim (skip_spaces s) [
  | [] ↦ pos 0
  | c ∷ cs ↦
      if nat_beq c minus_code
      then or_zero (unsigned_of true (digits cs))
      else if nat_beq c plus_code
      then or_zero (unsigned_of false (digits cs))
      else or_zero (unsigned_of false (digits (c ∷ cs)))
]
