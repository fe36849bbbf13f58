-- ===== src/Dashboard/Version.antt =====
-- internal/dashboard/version_checker.go: which of two releases is newer. Texts are lists of code
-- points.
use klever_node_hub.Prelude.{
  ℕ, zero, suc, String, Bool, true, false, not, List, [], ◌∷◌, Option, none, some, ◌==◌, nat_eq,
  if◌then◌else◌, nat_beq, ◌&&◌, ◌||◌, get_elem?, codes, ℤ, pos, negsuc, gt_int, scan_int,
}
pub mod Order
pub mod Tests

abbrev pub dot : ℕ
dot = 46

abbrev pub code_v : ℕ
code_v = 118

unfoldable pub text_beq : List ℕ → List ℕ → Bool
text_beq [] [] = true
text_beq [] (b ∷ bs) = false
text_beq (a ∷ xs) [] = false
text_beq (a ∷ xs) (b ∷ bs) = nat_beq a b && text_beq xs bs

-- strings.TrimPrefix(s, "v")
abbrev pub trim_v : List ℕ → List ℕ
trim_v [] = []
trim_v (c ∷ cs) = if nat_beq c code_v then cs else c ∷ cs

abbrev pub onto_part : ℕ → List (List ℕ) → List (List ℕ)
onto_part c [] = (c ∷ []) ∷ []
onto_part c (p ∷ ps) = (c ∷ p) ∷ ps

-- strings.Split(s, ".")
unfoldable pub split : List ℕ → List (List ℕ)
split [] = [] ∷ []
split (c ∷ cs) = let rest = split cs in if nat_beq c dot then [] ∷ rest else onto_part c rest

-- What follows a prefix.
unfoldable pub after_prefix : List ℕ → List ℕ → Option (List ℕ)
after_prefix [] s = some s
after_prefix (p ∷ ps) [] = none
after_prefix (p ∷ ps) (c ∷ cs) = let rest = after_prefix ps cs in if nat_beq p c then rest else none

abbrev pub first_some : Option (List ℕ) → Option (List ℕ) → Option (List ℕ)
first_some (some s) other = some s
first_some none other = other

-- strings.Cut: what follows the first occurrence of the separator.
unfoldable pub cut : List ℕ → List ℕ → Option (List ℕ)
cut sep [] = after_prefix sep []
cut sep (c ∷ cs) = first_some (after_prefix sep (c ∷ cs)) (cut sep cs)

abbrev pub fork_mark : List ℕ
fork_mark = 45 ∷ 107 ∷ 110 ∷ 104 ∷ 46 ∷ []  -- "-knh."

abbrev pub revision_of : Option (List ℕ) → ℤ
revision_of none = pos 0
revision_of (some suffix) = scan_int suffix

-- forkRevision
unfoldable pub fork_revision : List ℕ → ℤ
fork_revision v = revision_of (cut fork_mark v)

abbrev pub number_of : Option (List ℕ) → ℤ
number_of none = pos 0
number_of (some part) = scan_int part

-- One comparison, and what follows if the two are equal.
unfoldable pub compare_numbers : ℤ → ℤ → ℤ → ℤ
compare_numbers a b rest = if gt_int a b then pos 1 else if gt_int b a then negsuc 0 else rest

-- The loop of compareVersions, with what follows it.
unfoldable pub compare_parts : ℕ → ℕ → List (List ℕ) → List (List ℕ) → ℤ → ℤ
compare_parts zero i xs ys rest = rest
compare_parts (suc n) i xs ys rest =
    compare_numbers (number_of (get_elem? xs i)) (number_of (get_elem? ys i))
      (compare_parts n (suc i) xs ys rest)

-- compareVersions
unfoldable pub compare_versions : List ℕ → List ℕ → ℤ
compare_versions a b =
    compare_parts 3 0 (split a) (split b)
      (compare_numbers (fork_revision a) (fork_revision b) (pos 0))

abbrev pub dev : List ℕ
dev = 100 ∷ 101 ∷ 118 ∷ []

-- A version that was not built for a release.
unfoldable pub is_dev : List ℕ → Bool
is_dev v = text_beq v dev || text_beq v []

-- isNewer
unfoldable pub is_newer : List ℕ → List ℕ → Bool
is_newer remote local =
    if is_dev local
    then not (text_beq remote []) && not (text_beq remote dev)
    else if text_beq (trim_v remote) (trim_v local)
    then false
    else gt_int (compare_versions (trim_v remote) (trim_v local)) (pos 0)
