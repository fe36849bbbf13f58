-- ===== src/Dashboard/Monitor/Window.antt =====
-- The rolling window of blocks.
use klever_node_hub.Prelude.{
  ℕ, zero, suc, ◌+◌, ◌-◌, ◌≤◌, ◌<◌, ◌≡◌, refl, ap, ◌∙◌, Bool, true, false, not, ◌||◌, List, [], ◌∷◌,
  Option, none, some, Map, lookup, insert, ◌==◌, nat_eq, nat_beq_iff, if◌then◌else◌, ltb, arith,
  lookup-insert, lookup-retain, keep_if, IsUnique, insert-IsUnique, ◌≢◌,
}
use klever_node_hub.Dashboard.Monitor.{
  Strings, IndexerBlock, BlockRec, Monitor, prune, missing_from, count_missing, to_rec,
  merge_blocks,
}

module _ (s : Strings) where
  insert_unless-IsUnique :
      (c : Bool) (n : ℕ) (r : BlockRec) (have : Map ℕ BlockRec)
      → IsUnique have
      → IsUnique (if c then have else insert n r have)
  insert_unless-IsUnique true n r have u = u
  insert_unless-IsUnique false n r have u = insert-IsUnique n r have u

  merge_blocks-IsUnique :
      (have : Map ℕ BlockRec) (bs : List IndexerBlock) (start head : ℕ)
      → IsUnique have
      → IsUnique (merge_blocks s have bs start head)
  unfolding merge_blocks
  merge_blocks-IsUnique have [] start head u = u
  merge_blocks-IsUnique have (b ∷ bs) start head u =
      let c = ltb b.nonce start || ltb head b.nonce in
      merge_blocks-IsUnique (if c then have else insert b.nonce (to_rec s b) have) bs start head
        (insert_unless-IsUnique c b.nonce (to_rec s b) have u)

  -- The block that a fetch shows for a nonce: the last one, if it shows several.
  unfoldable pub fetched : ℕ → List IndexerBlock → Option BlockRec → Option BlockRec
  fetched n [] o = o
  fetched n (b ∷ bs) o = fetched n bs (if b.nonce == n then some (to_rec s b) else o)

  merge_blocks_lem :
      (have : Map ℕ BlockRec) (bs : List IndexerBlock) (start head n : ℕ)
      → start ≤ n
      → n ≤ head
      → lookup n (merge_blocks s have bs start head) ≡ fetched n bs (lookup n have)
  unfolding merge_blocks fetched
  merge_blocks_lem have [] start head n lo hi = refl
  merge_blocks_lem have (b ∷ bs) start head n lo hi =
      let r = to_rec s b in
      let o = lookup n have in
      let have' = if ltb b.nonce start || ltb head b.nonce then have else insert b.nonce r have in
      let here : lookup n have' ≡ (if b.nonce == n then some r else o) =
        ground (arith, lo, hi, lookup-insert b.nonce n r have, nat_beq_iff b.nonce n) in
      merge_blocks_lem have' bs start head n lo hi ∙ ap (λ p. fetched n bs p) here

  abbrev is_inside : ℕ → ℕ → ℕ → BlockRec → Bool
  is_inside start head n rec = not (ltb n start || ltb head n)

  keep_inside :
      (start head n : ℕ) (o p : Option BlockRec)
      → (start ≤ n → n ≤ head → o ≡ p)
      → keep_if (is_inside start head) n o ≡ (if ltb n start || ltb head n then none else p)
  keep_inside start head n none p h = ground (arith, h)
  keep_inside start head n (some r) p h = ground (arith, h)

  -- From a window with one entry for each nonce: after a poll has merged what it fetched and
  -- pruned the rest, the window holds a block exactly for the nonces from `start` to `head` that
  -- were held before or fetched now, and for each of them the one that was fetched last, if any.
  pub prune-merge_blocks :
      (m : Monitor) (bs : List IndexerBlock) (start head n : ℕ)
      → IsUnique m.have
      → lookup n (prune start head (record m { have = merge_blocks s m.have bs start head })).have
        ≡ (if ltb n start || ltb head n then none else fetched n bs (lookup n m.have))
  unfolding prune
  prune-merge_blocks m bs start head n u =
      let have' = merge_blocks s m.have bs start head in
      lookup-retain (is_inside start head) n have' (merge_blocks-IsUnique m.have bs start head u)
      ∙ keep_inside start head n (lookup n have') (fetched n bs (lookup n m.have))
          (merge_blocks_lem m.have bs start head n)

-- The nonces that are missing are counted one by one.
missing_from_lem :
    (k n : ℕ) (have : Map ℕ BlockRec) (i : ℕ)
    → missing_from k n have ≡ 0
    → n ≤ i
    → i < n + k
    → lookup i have ≢ none
unfolding missing_from
missing_from_lem zero n have i h lo hi = absurd (omega (arith, lo, hi))
missing_from_lem (suc k) n have i h lo hi =
    ground (arith, h, lo, hi, missing_from_lem k (suc n) have i)

-- If no nonce is counted as missing, which ends the backfill, the window holds a block for each nonce
-- from `start` to `head`.
count_missing_complete :
    (have : Map ℕ BlockRec) (start head i : ℕ)
    → count_missing have start head ≡ 0
    → start ≤ i
    → i ≤ head
    → lookup i have ≢ none
unfolding count_missing
count_missing_complete have start head i h lo hi =
    missing_from_lem (suc head - start) start have i h lo (omega (arith, lo, hi))
