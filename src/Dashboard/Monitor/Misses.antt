-- ===== src/Dashboard/Monitor/Misses.antt =====
-- Missed signings: each block of an epoch is scored once, however often it is fetched.
use klever_node_hub.Prelude.{
  ℕ, nat_beq_iff, suc, ◌+◌, ◌≡◌, refl, ap, ◌∙◌, String, Bool, true, false, not, ◌&&◌, ◌||◌, List,
  [], ◌∷◌, ◌++◌, Map, lookup, ◌==◌, string_eq, nat_eq, eq_iff, if◌then◌else◌, length, map, keep,
  nat_beq, arith, lookup-insert,
}
use klever_node_hub.Dashboard.Monitor.{
  is_member, add_member, Strings, ManagedNode, IndexerBlock, Validator, Monitor, count_at,
  increment, normalize_bls, normalize_all, bump_absent, list_of, elected_managed, score,
  enter_epoch, track_epoch_misses,
}

-- No key is in the list twice.
abbrev pub IsDistinct : List String → Type 0
IsDistinct [] = Unit
IsDistinct (k ∷ keys) = (is_member k keys ≡ false) × IsDistinct keys

bump_absent_lem :
    (elected signers : List String) (misses : Map String ℕ) (bls : String)
    → IsDistinct elected
    → count_at bls (bump_absent elected signers misses)
      ≡ count_at bls misses
        + (if is_member bls elected && not (is_member bls signers) then 1 else 0)
unfolding bump_absent is_member
bump_absent_lem [] signers misses bls d = ground arith
bump_absent_lem (k ∷ elected) signers misses bls d =
    let misses' = if is_member k signers then misses else increment k misses in
    ground (
      arith,
      d,
      eq_iff k bls,
      lookup-insert k bls (suc (count_at k misses)) misses,
      bump_absent_lem elected signers misses' bls d.1,
    )

-- A set stays a set.
grow-IsDistinct :
    (c : Bool) (k : String) (keys : List String)
    → is_member k keys ≡ c
    → IsDistinct keys
    → IsDistinct (if c then keys else k ∷ keys)
grow-IsDistinct true k keys e d = d
grow-IsDistinct false k keys e d = (e, d)

add_if-IsDistinct :
    (b : Bool) (k : String) (keys : List String)
    → IsDistinct keys
    → IsDistinct (if b then add_member k keys else keys)
add_if-IsDistinct true k keys d = grow-IsDistinct (is_member k keys) k keys refl d
add_if-IsDistinct false k keys d = d

module _ (s : Strings) where
  elected_managed-IsDistinct :
      (validators : Map String Validator) (managed : List ManagedNode)
      → IsDistinct (elected_managed s validators managed)
  unfolding elected_managed is_member
  elected_managed-IsDistinct validators [] = tt
  elected_managed-IsDistinct validators (node ∷ nodes) =
      let bls = normalize_bls s node.bls in
      add_if-IsDistinct (not (bls == "") && list_of s bls validators == "elected") bls
        (elected_managed s validators nodes) (elected_managed-IsDistinct validators nodes)

  -- A block that is scored: of the epoch, with signers, and not seen before.
  abbrev pub is_new : ℕ → List ℕ → IndexerBlock → Bool
  is_new epoch seen b =
      b.epoch == epoch && not (is_member b.nonce seen) && not (nat_beq (length b.validators) 0)

  -- The blocks among those fetched that are scored, each nonce once.
  unfoldable pub new_blocks : ℕ → List ℕ → List IndexerBlock → List IndexerBlock
  unfolding is_member
  new_blocks epoch seen [] = []
  new_blocks epoch seen (b ∷ bs) =
      let others = new_blocks epoch seen bs in
      let next = new_blocks epoch (b.nonce ∷ seen) bs in
      if is_new epoch seen b then b ∷ next else others

  -- The validator is not among the signers of the block.
  abbrev pub is_absent : String → IndexerBlock → Bool
  is_absent bls b = not (is_member bls (normalize_all s b.validators))

  score_lem :
      (epoch : ℕ) (elected : List String) (bs : List IndexerBlock) (m : Monitor) (bls : String)
      → IsDistinct elected
      → count_at bls (score s epoch elected bs m).epoch_misses
        ≡ count_at bls m.epoch_misses
          + (if is_member bls elected
              then length (keep (is_absent bls) (new_blocks epoch m.epoch_seen_nonce bs))
              else 0)
  unfolding score new_blocks keep
  score_lem epoch elected [] m bls d = ground arith
  score_lem epoch elected (b ∷ bs) m bls d =
      let m' = record m {
        epoch_seen_nonce = b.nonce ∷ m.epoch_seen_nonce;
        epoch_misses = bump_absent elected (normalize_all s b.validators) m.epoch_misses;
      } in
      ground (
        arith,
        bump_absent_lem elected (normalize_all s b.validators) m.epoch_misses bls d,
        score_lem epoch elected bs m bls d,
        score_lem epoch elected bs m' bls d,
      )

  -- The nonces that were scored.
  score-seen :
      (epoch : ℕ) (elected : List String) (bs : List IndexerBlock) (m : Monitor) (n : ℕ)
      → is_member n (score s epoch elected bs m).epoch_seen_nonce ≡ (
          is_member n m.epoch_seen_nonce
          || is_member n (map (λ b. b.nonce) (new_blocks epoch m.epoch_seen_nonce bs)))
  unfolding score new_blocks is_member
  score-seen epoch elected [] m n = ground arith
  score-seen epoch elected (b ∷ bs) m n =
      let m' = record m {
        epoch_seen_nonce = b.nonce ∷ m.epoch_seen_nonce;
        epoch_misses = bump_absent elected (normalize_all s b.validators) m.epoch_misses;
      } in
      ground (arith, score-seen epoch elected bs m n, score-seen epoch elected bs m' n)

  -- What was seen before a poll of an epoch: nothing if the epoch is new.
  abbrev pub seen_before : ℕ → Monitor → List ℕ
  seen_before epoch m = if epoch == m.epoch_miss_epoch then m.epoch_seen_nonce else []

  abbrev pub misses_before : ℕ → String → Monitor → ℕ
  misses_before epoch bls m = if epoch == m.epoch_miss_epoch then count_at bls m.epoch_misses else 0

  score-append :
      (epoch : ℕ) (elected : List String) (bs cs : List IndexerBlock) (m : Monitor)
      → score s epoch elected cs (score s epoch elected bs m) ≡ score s epoch elected (bs ++ cs) m
  unfolding score
  score-append epoch elected [] cs m = refl
  score-append epoch elected (b ∷ bs) cs m =
      let m' = record m {
        epoch_seen_nonce = b.nonce ∷ m.epoch_seen_nonce;
        epoch_misses = bump_absent elected (normalize_all s b.validators) m.epoch_misses;
      } in
      ground (arith, score-append epoch elected bs cs m, score-append epoch elected bs cs m')

  -- Polls of one epoch, one after the other: the blocks of each in its two pages.
  unfoldable pub run_polls :
      ℕ → List ManagedNode → List (List IndexerBlock × List IndexerBlock) → Monitor → Monitor
  run_polls epoch managed [] m = m
  run_polls epoch managed ((blocks1, blocks2) ∷ polls) m =
      run_polls epoch managed polls (track_epoch_misses s epoch blocks1 blocks2 managed m)

  -- All the blocks that polls fetch.
  unfoldable pub all_blocks : List (List IndexerBlock × List IndexerBlock) → List IndexerBlock
  all_blocks [] = []
  all_blocks ((blocks1, blocks2) ∷ polls) = (blocks1 ++ blocks2) ++ all_blocks polls

  score-keeps :
      (epoch : ℕ) (elected : List String) (bs : List IndexerBlock) (m : Monitor)
      → let m' = score s epoch elected bs m in
        (m'.epoch_miss_epoch ≡ m.epoch_miss_epoch) × (m'.validators ≡ m.validators)
  unfolding score
  score-keeps epoch elected [] m = (refl, refl)
  score-keeps epoch elected (b ∷ bs) m =
      let m' = record m {
        epoch_seen_nonce = b.nonce ∷ m.epoch_seen_nonce;
        epoch_misses = bump_absent elected (normalize_all s b.validators) m.epoch_misses;
      } in
      ground (arith, score-keeps epoch elected bs m, score-keeps epoch elected bs m')

  track-score :
      (epoch : ℕ) (blocks1 blocks2 : List IndexerBlock) (managed : List ManagedNode) (m : Monitor)
      → track_epoch_misses s epoch blocks1 blocks2 managed m
        ≡ score s epoch
            (elected_managed s m.validators managed)
            (blocks1 ++ blocks2)
            (enter_epoch s epoch m)
  unfolding track_epoch_misses
  track-score epoch blocks1 blocks2 managed m =
      score-append epoch (elected_managed s m.validators managed) blocks1 blocks2
        (enter_epoch s epoch m)

  enter_epoch-same :
      (epoch : ℕ) (m : Monitor) → m.epoch_miss_epoch ≡ epoch → enter_epoch s epoch m ≡ m
  unfolding enter_epoch
  enter_epoch-same epoch m e = ground (arith, e, nat_beq_iff epoch m.epoch_miss_epoch)

  enter_epoch-keeps :
      (epoch : ℕ) (m : Monitor)
      → let m' = enter_epoch s epoch m in
        (m'.epoch_miss_epoch ≡ epoch) × (m'.validators ≡ m.validators)
  unfolding enter_epoch
  enter_epoch-keeps epoch m = ground (arith, nat_beq_iff epoch m.epoch_miss_epoch)

  run_polls-score :
      (epoch : ℕ) (managed : List ManagedNode)
      (polls : List (List IndexerBlock × List IndexerBlock)) (m : Monitor)
      → m.epoch_miss_epoch ≡ epoch
      → run_polls epoch managed polls m
        ≡ score s epoch (elected_managed s m.validators managed) (all_blocks polls) m
  unfolding run_polls all_blocks score
  run_polls-score epoch managed [] m e = refl
  run_polls-score epoch managed ((blocks1, blocks2) ∷ polls) m e =
      let elected = elected_managed s m.validators managed in
      let m' = score s epoch elected (blocks1 ++ blocks2) m in
      let tracked : track_epoch_misses s epoch blocks1 blocks2 managed m ≡ m' =
        track-score epoch blocks1 blocks2 managed m
        ∙ ap (score s epoch elected (blocks1 ++ blocks2)) (enter_epoch-same epoch m e) in
      let kept = score-keeps epoch elected (blocks1 ++ blocks2) m in
      ap (run_polls epoch managed polls) tracked
      ∙ run_polls-score epoch managed polls m' (kept.0 ∙ e)
      ∙ ap (λ vs. score s epoch (elected_managed s vs managed) (all_blocks polls) m') kept.1
      ∙ score-append epoch elected (blocks1 ++ blocks2) (all_blocks polls) m

  entered :
      (epoch : ℕ) (blocks1 blocks2 : List IndexerBlock)
      (polls : List (List IndexerBlock × List IndexerBlock)) (managed : List ManagedNode)
      (m : Monitor)
      → run_polls epoch managed ((blocks1, blocks2) ∷ polls) m
        ≡ score s epoch
            (elected_managed s m.validators managed)
            (all_blocks ((blocks1, blocks2) ∷ polls))
            (enter_epoch s epoch m)
  unfolding run_polls all_blocks
  entered epoch blocks1 blocks2 polls managed m =
      let elected = elected_managed s m.validators managed in
      let m1 = score s epoch elected (blocks1 ++ blocks2) (enter_epoch s epoch m) in
      let start = enter_epoch-keeps epoch m in
      let kept = score-keeps epoch elected (blocks1 ++ blocks2) (enter_epoch s epoch m) in
      ap (run_polls epoch managed polls) (track-score epoch blocks1 blocks2 managed m)
      ∙ run_polls-score epoch managed polls m1 (kept.0 ∙ start.0)
      ∙ ap (λ vs. score s epoch (elected_managed s vs managed) (all_blocks polls) m1)
          (kept.1 ∙ start.1)
      ∙ score-append epoch elected (blocks1 ++ blocks2) (all_blocks polls) (enter_epoch s epoch m)

  -- Over any number of polls of one epoch, with the same nodes and validators, the misses of a managed
  -- validator that is elected grow by the number of blocks of the epoch without its signature, among
  -- all that the polls fetch, each nonce once over all polls and pages and not if it was scored in
  -- the epoch before; a new epoch starts from 0, and no other counter moves.
  pub run_polls-misses :
      (epoch : ℕ) (blocks1 blocks2 : List IndexerBlock)
      (polls : List (List IndexerBlock × List IndexerBlock)) (managed : List ManagedNode)
      (m : Monitor) (bls : String)
      → count_at bls (run_polls epoch managed ((blocks1, blocks2) ∷ polls) m).epoch_misses
        ≡ misses_before epoch bls m
          + (if is_member bls (elected_managed s m.validators managed)
              then length (
                  keep (is_absent bls) (
                    new_blocks epoch
                      (seen_before epoch m)
                      (all_blocks ((blocks1, blocks2) ∷ polls))))
              else 0)
  unfolding lookup
  run_polls-misses epoch blocks1 blocks2 polls managed m bls =
      let elected = elected_managed s m.validators managed in
      let m' = enter_epoch s epoch m in
      let all = all_blocks ((blocks1, blocks2) ∷ polls) in
      ap (λ m. count_at bls m.epoch_misses) (entered epoch blocks1 blocks2 polls managed m)
      ∙ score_lem epoch elected all m' bls (elected_managed-IsDistinct m.validators managed)
      ∙ unfold enter_epoch in ground arith
