-- ===== src/Dashboard/Version/Order.antt =====
-- Releases are in a strict order, up to equal numbers.
use klever_node_hub.Prelude.{
  ℕ, zero, suc, ◌≡◌, refl, sym, ap, ◌∙◌, Bool, true, false, List, [], ◌∷◌, get_elem?, ℤ, pos,
  negsuc, gt_int, arith, Bool-cases, inl, inr,
}
use klever_node_hub.Dashboard.Version.{
  text_beq, trim_v, split, fork_revision, number_of, compare_numbers, compare_parts,
  compare_versions, is_dev, is_newer,
}

is_positive : ℤ → Bool
is_positive r = gt_int r (pos 0)

gt_int_asym : (a b : ℤ) → gt_int a b ≡ true → gt_int b a ≡ false
gt_int_asym (pos a) (pos b) h = ground arith
gt_int_asym (pos a) (negsuc b) h = refl
gt_int_asym (negsuc a) (pos b) h = ground arith
gt_int_asym (negsuc a) (negsuc b) h = ground arith

gt_int_trans : (a b c : ℤ) → gt_int a b ≡ true → gt_int b c ≡ true → gt_int a c ≡ true
gt_int_trans (pos a) (pos b) (pos c) h k = ground arith
gt_int_trans (pos a) b (negsuc c) h k = refl
gt_int_trans (pos a) (negsuc b) (pos c) h k = ground arith
gt_int_trans (negsuc a) (pos b) c h k = ground arith
gt_int_trans (negsuc a) (negsuc b) (pos c) h k = ground arith
gt_int_trans (negsuc a) (negsuc b) (negsuc c) h k = ground arith

-- Neither is greater.
gt_int_total : (a b : ℤ) → gt_int a b ≡ false → gt_int b a ≡ false → a ≡ b
gt_int_total (pos a) (pos b) h k = ground arith
gt_int_total (pos a) (negsuc b) h k = ground arith
gt_int_total (negsuc a) (pos b) h k = ground arith
gt_int_total (negsuc a) (negsuc b) h k = ground arith

compare_numbers_asym :
    (a b r s : ℤ)
    → (is_positive r ≡ true → is_positive s ≡ false)
    → is_positive (compare_numbers a b r) ≡ true
    → is_positive (compare_numbers b a s) ≡ false
unfolding compare_numbers is_positive
compare_numbers_asym a b r s rest h = ground (arith, gt_int_asym a b, gt_int_asym b a)

compare_numbers_trans :
    (a b c r s t : ℤ)
    → (is_positive r ≡ true → is_positive s ≡ true → is_positive t ≡ true)
    → is_positive (compare_numbers a b r) ≡ true
    → is_positive (compare_numbers b c s) ≡ true
    → is_positive (compare_numbers a c t) ≡ true
unfolding compare_numbers is_positive
compare_numbers_trans a b c r s t rest h k = ground (
  arith,
  gt_int_asym a b,
  gt_int_asym b c,
  gt_int_trans a b c,
  gt_int_total a b,
  gt_int_total b c,
  gt_int_total a c,
  gt_int_asym a c,
  gt_int_asym c a,
)

compare_parts_asym :
    (n i : ℕ) (xs ys : List (List ℕ)) (r s : ℤ)
    → (is_positive r ≡ true → is_positive s ≡ false)
    → is_positive (compare_parts n i xs ys r) ≡ true
    → is_positive (compare_parts n i ys xs s) ≡ false
unfolding compare_parts
compare_parts_asym zero i xs ys r s rest h = rest h
compare_parts_asym (suc n) i xs ys r s rest h =
    compare_numbers_asym (number_of (get_elem? xs i)) (number_of (get_elem? ys i))
      (compare_parts n (suc i) xs ys r) (compare_parts n (suc i) ys xs s)
      (compare_parts_asym n (suc i) xs ys r s rest) h

compare_parts_trans :
    (n i : ℕ) (xs ys zs : List (List ℕ)) (r s t : ℤ)
    → (is_positive r ≡ true → is_positive s ≡ true → is_positive t ≡ true)
    → is_positive (compare_parts n i xs ys r) ≡ true
    → is_positive (compare_parts n i ys zs s) ≡ true
    → is_positive (compare_parts n i xs zs t) ≡ true
unfolding compare_parts
compare_parts_trans zero i xs ys zs r s t rest h k = rest h k
compare_parts_trans (suc n) i xs ys zs r s t rest h k =
    compare_numbers_trans (number_of (get_elem? xs i)) (number_of (get_elem? ys i))
      (number_of (get_elem? zs i)) (compare_parts n (suc i) xs ys r)
      (compare_parts n (suc i) ys zs s) (compare_parts n (suc i) xs zs t)
      (compare_parts_trans n (suc i) xs ys zs r s t rest) h k

compare_versions_asym :
    (a b : List ℕ)
    → is_positive (compare_versions a b) ≡ true
    → is_positive (compare_versions b a) ≡ false
unfolding compare_versions is_positive
compare_versions_asym a b h =
    compare_parts_asym 3 0 (split a) (split b)
      (compare_numbers (fork_revision a) (fork_revision b) (pos 0))
      (compare_numbers (fork_revision b) (fork_revision a) (pos 0))
      (compare_numbers_asym (fork_revision a) (fork_revision b) (pos 0) (pos 0) (λ e. refl)) h

compare_versions_trans :
    (a b c : List ℕ)
    → is_positive (compare_versions a b) ≡ true
    → is_positive (compare_versions b c) ≡ true
    → is_positive (compare_versions a c) ≡ true
unfolding compare_versions is_positive
compare_versions_trans a b c h k =
    compare_parts_trans 3 0 (split a) (split b) (split c)
      (compare_numbers (fork_revision a) (fork_revision b) (pos 0))
      (compare_numbers (fork_revision b) (fork_revision c) (pos 0))
      (compare_numbers (fork_revision a) (fork_revision c) (pos 0))
      (compare_numbers_trans (fork_revision a) (fork_revision b) (fork_revision c) (pos 0) (pos 0)
        (pos 0) (λ e f. e))
      h k

-- The three numbers and the revision of the fork are the same.
pub record IsSameRelease (a b : List ℕ) : Type 0 where
  pub major : number_of (get_elem? (split a) 0) ≡ number_of (get_elem? (split b) 0)
  pub minor : number_of (get_elem? (split a) 1) ≡ number_of (get_elem? (split b) 1)
  pub patch : number_of (get_elem? (split a) 2) ≡ number_of (get_elem? (split b) 2)
  pub revision : fork_revision a ≡ fork_revision b

compare_numbers_total :
    (a b r s : ℤ)
    → is_positive (compare_numbers a b r) ≡ false
    → is_positive (compare_numbers b a s) ≡ false
    → (a ≡ b) × (is_positive r ≡ false) × (is_positive s ≡ false)
unfolding compare_numbers is_positive
compare_numbers_total a b r s h k = (
  ground (arith, gt_int_total a b, gt_int_asym a b),
  ground (arith, gt_int_asym a b),
  ground (arith, gt_int_asym a b),
)

compare_versions_total :
    (a b : List ℕ)
    → is_positive (compare_versions a b) ≡ false
    → is_positive (compare_versions b a) ≡ false
    → IsSameRelease a b
unfolding compare_versions compare_parts
compare_versions_total a b h k =
    let at = λ (v : List ℕ) (i : ℕ). number_of (get_elem? (split v) i) in
    let x = compare_numbers_total (at a 0) (at b 0) _ _ h k in
    let y = compare_numbers_total (at a 1) (at b 1) _ _ x.1 x.2 in
    let z = compare_numbers_total (at a 2) (at b 2) _ _ y.1 y.2 in
    let r = compare_numbers_total (fork_revision a) (fork_revision b) _ _ z.1 z.2 in
    record { major = x.0; minor = y.0; patch = z.0; revision = r.0 }

text_beq_sound : (xs ys : List ℕ) → text_beq xs ys ≡ true → xs ≡ ys
unfolding text_beq
text_beq_sound [] [] h = refl
text_beq_sound [] (y ∷ ys) h = ground arith
text_beq_sound (x ∷ xs) [] h = ground arith
text_beq_sound (x ∷ xs) (y ∷ ys) h = ground (arith, text_beq_sound xs ys)

same_release : (a b : List ℕ) → a ≡ b → IsSameRelease a b
same_release a b e = record {
  major = ap (λ v. number_of (get_elem? (split v) 0)) e;
  minor = ap (λ v. number_of (get_elem? (split v) 1)) e;
  patch = ap (λ v. number_of (get_elem? (split v) 2)) e;
  revision = ap fork_revision e;
}

compare_numbers_same : (a r : ℤ) → compare_numbers a a r ≡ r
unfolding compare_numbers
compare_numbers_same a r = ground (arith, gt_int_asym a a)

compare_versions_same : (v : List ℕ) → compare_versions v v ≡ pos 0
unfolding compare_versions compare_parts
compare_versions_same v =
    let at = λ (i : ℕ). number_of (get_elem? (split v) i) in
    let r = fork_revision v in
    rw (
      compare_numbers_same (at 0),
      compare_numbers_same (at 1),
      compare_numbers_same (at 2),
      compare_numbers_same r,
    )

-- For a release, the test for equal texts changes nothing.
is_newer-positive :
    (a b : List ℕ)
    → is_dev b ≡ false
    → is_newer a b ≡ is_positive (compare_versions (trim_v a) (trim_v b))
unfolding is_newer is_positive
is_newer-positive a b h =
    let same = λ (e : text_beq (trim_v a) (trim_v b) ≡ true).
      ap (λ v. compare_versions v (trim_v b)) (text_beq_sound (trim_v a) (trim_v b) e)
      ∙ compare_versions_same (trim_v b) in
    elim (Bool-cases (text_beq (trim_v a) (trim_v b))) [
      | inl e ↦ rw (h, e, same e)
      | inr n ↦ rw (h, n)
    ]

-- Of releases, neither "dev" nor without a version: if one is newer than another, the other is not
-- newer than it; one that is newer than a second that is newer than a third is newer than the third;
-- and if neither of two is newer, then they have the same three numbers and fork revision.
pub is_newer_order :
    (a b c : List ℕ)
    → is_dev a ≡ false
    → is_dev b ≡ false
    → is_dev c ≡ false
    → (is_newer a b ≡ true → is_newer b a ≡ false)
      × (is_newer a b ≡ true → is_newer b c ≡ true → is_newer a c ≡ true)
      × (is_newer a b ≡ false → is_newer b a ≡ false → IsSameRelease (trim_v a) (trim_v b))
is_newer_order a b c ha hb hc =
    let ab = is_newer-positive a b hb in
    let ba = is_newer-positive b a ha in
    let bc = is_newer-positive b c hc in
    let ac = is_newer-positive a c hc in
    let x = trim_v a in
    let y = trim_v b in
    let z = trim_v c in
    (
      λ h. ba ∙ compare_versions_asym x y (sym ab ∙ h),
      λ h k. ac ∙ compare_versions_trans x y z (sym ab ∙ h) (sym bc ∙ k),
      λ h k. compare_versions_total x y (sym ab ∙ h) (sym ba ∙ k),
    )
