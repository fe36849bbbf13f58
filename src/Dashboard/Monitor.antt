-- ===== src/Dashboard/Monitor.antt =====
-- internal/dashboard/klever/monitor.go: what the monitor of the managed validators keeps between
-- polls. Nonces, epochs and counters are natural numbers, sets are lists of their elements, and the
-- functions of the package strings are the operations of `Strings`.
use klever_node_hub.Prelude.{
  ℕ, zero, suc, ◌+◌, ◌-◌, ◌*◌, ◌/◌, ◌≤◌, String, Bool, true, false, not, ◌&&◌, ◌||◌, List, [], ◌∷◌,
  ◌++◌, Option, none, some, Map, lookup, insert, retain, Eq, ◌==◌, string_eq, nat_eq, if◌then◌else◌,
  length, ltb, leb, nat_beq,
}
pub mod Elections
pub mod Misses
pub mod Window
pub mod Timeline
pub mod Tests

unfoldable pub is_member : {A : Type 0} ⦃e : Eq A⦄ → A → List A → Bool
is_member a [] = false
is_member a (b ∷ bs) = b == a || is_member a bs

-- `set[a] = struct{}{}`
abbrev pub add_member : {A : Type 0} ⦃e : Eq A⦄ → A → List A → List A
add_member a bs = if is_member a bs then bs else a ∷ bs

pub record Strings : Type 0 where
  pub to_lower : String → String
  pub trim_space : String → String
  pub trim_prefix : String → String → String

pub record ManagedNode : Type 0 where
  pub id : String
  pub server_id : String
  pub bls : String
  pub name : String

-- The fields of IndexerBlock and RawValidator that the monitor reads.
pub record IndexerBlock : Type 0 where
  pub nonce : ℕ
  pub epoch : ℕ
  pub producer_bls : String
  pub validators : List String

pub record Validator : Type 0 where
  pub list : String
  pub leader_failures : ℕ
  pub validator_failures : ℕ

pub record BlockRec : Type 0 where
  pub nonce : ℕ
  pub epoch : ℕ
  pub producer_bls : String
  pub signers : List String
  pub has_signers : Bool

pub record ElectionHistory : Type 0 where
  pub current_month : String
  pub last_epoch : ℕ
  pub history : Map String (Map String ℕ)

pub record Monitor : Type 0 where
  pub window : ℕ
  pub max_per_tick : ℕ
  pub elect : Option ElectionHistory
  pub epoch_miss_epoch : ℕ
  pub epoch_misses : Map String ℕ
  pub epoch_seen_nonce : List ℕ
  pub have : Map ℕ BlockRec
  pub validators : Map String Validator
  pub epoch : ℕ

-- A missing counter reads as 0.
abbrev pub count_at : String → Map String ℕ → ℕ
count_at k m = elim (lookup k m) [ none ↦ 0 | some n ↦ n ]

abbrev pub increment : String → Map String ℕ → Map String ℕ
increment k m = insert k (suc (count_at k m)) m

abbrev pub bucket_at : String → Map String (Map String ℕ) → Map String ℕ
bucket_at k m = elim (lookup k m) [ none ↦ [] | some b ↦ b ]

-- The first nonce of the window, in tick.
unfoldable pub desired_start : ℕ → ℕ → ℕ
desired_start window head = if leb window head then head - window + 1 else 0

-- pruneLocked
unfoldable pub prune : ℕ → ℕ → Monitor → Monitor
prune start head m = record m { have = retain (λ n rec. not (ltb n start || ltb head n)) m.have }

-- countMissing, over the `k` nonces from `n` on.
unfoldable pub missing_from : ℕ → ℕ → Map ℕ BlockRec → ℕ
missing_from zero n have = 0
missing_from (suc k) n have =
    let rest = missing_from k (suc n) have in
    elim (lookup n have) [ none ↦ suc rest | some rec ↦ rest ]

unfoldable pub count_missing : Map ℕ BlockRec → ℕ → ℕ → ℕ
unfolding missing_from
count_missing have start head = missing_from (suc head - start) start have

-- The signers of the blocks of an epoch that lie in the window.
unfoldable pub elected_set : ℕ → Map ℕ BlockRec → List String
elected_set epoch [] = []
elected_set epoch ((n, rec) ∷ have) =
    let rest = elected_set epoch have in
    if rec.epoch == epoch && rec.has_signers then rec.signers ++ rest else rest

unfoldable pub bump_absent : List String → List String → Map String ℕ → Map String ℕ
unfolding is_member
bump_absent [] signers misses = misses
bump_absent (bls ∷ elected) signers misses =
    bump_absent elected signers (if is_member bls signers then misses else increment bls misses)

-- blockChunk
abbrev pub block_chunk : ℕ
block_chunk = 100

-- The record that a read of an absent nonce yields.
abbrev pub zero_rec : BlockRec
zero_rec = record { nonce = 0; epoch = 0; producer_bls = ""; signers = []; has_signers = false }

-- The `switch` of buildLocked: the status of a cell.
unfoldable pub cell_status : Bool → Bool → ℕ → String → Option BlockRec → String
unfolding is_member
cell_status can_mark_skipped elected epoch bls found =
    let exists : Bool = elim found [ none ↦ false | some r ↦ true ] in
    let rec : BlockRec = elim found [ none ↦ zero_rec | some r ↦ r ] in
    if not exists && can_mark_skipped
    then "skipped"
    else if rec.producer_bls == bls
    then "produced"
    else if elected && rec.has_signers && rec.epoch == epoch && not (is_member bls rec.signers)
    then "missed"
    else "idle"

-- The cells of `k` nonces from `n` on.
unfoldable pub cells_from : Bool → Bool → String → Monitor → ℕ → ℕ → List (ℕ × String)
unfolding cell_status
cells_from can_mark_skipped elected bls m zero n = []
cells_from can_mark_skipped elected bls m (suc k) n =
    let rest = cells_from can_mark_skipped elected bls m k (suc n) in
    (n, cell_status can_mark_skipped elected m.epoch bls (lookup n m.have)) ∷ rest

-- The timeline of a validator in buildLocked; `elected` is whether the validator list says so.
unfoldable pub timeline : Bool → String → ℕ → ℕ → Monitor → List (ℕ × String)
unfolding cells_from
timeline elected bls head window_start m =
    let start = if window_start == 0 then 1 else window_start in
    let can_mark_skipped = leb ((m.window + block_chunk - 1) / block_chunk) (1 + m.max_per_tick) in
    cells_from can_mark_skipped elected bls m (suc head - start) start

module _ (s : Strings) where
  unfoldable pub normalize_bls : String → String
  normalize_bls bls = s.trim_prefix (s.to_lower (s.trim_space bls)) "0x"

  unfoldable pub normalize_all : List String → List String
  unfolding normalize_bls is_member
  normalize_all [] = []
  normalize_all (bls ∷ rest) = add_member (normalize_bls bls) (normalize_all rest)

  unfoldable pub to_rec : IndexerBlock → BlockRec
  unfolding normalize_all normalize_bls
  to_rec blk = record {
    nonce = blk.nonce;
    epoch = blk.epoch;
    producer_bls = normalize_bls blk.producer_bls;
    signers = normalize_all blk.validators;
    has_signers = ltb 0 (length blk.validators);
  }

  unfoldable pub merge_blocks : Map ℕ BlockRec → List IndexerBlock → ℕ → ℕ → Map ℕ BlockRec
  unfolding to_rec
  merge_blocks have [] start head = have
  merge_blocks have (b ∷ bs) start head =
      merge_blocks
        (if ltb b.nonce start || ltb head b.nonce then have else insert b.nonce (to_rec b) have) bs
        start head

  -- The loop of updateElectionsLocked over the managed nodes.
  unfoldable pub count_nodes :
      List String → List String → List ManagedNode → Map String ℕ → Map String ℕ
  unfolding normalize_bls is_member
  count_nodes elected seen [] bucket = bucket
  count_nodes elected seen (node ∷ nodes) bucket =
      let bls = normalize_bls node.bls in
      let skipped = count_nodes elected seen nodes bucket in
      let counted =
        count_nodes elected (bls ∷ seen) nodes
          (if is_member bls elected then increment bls bucket else bucket) in
      if bls == "" || is_member bls seen then skipped else counted

  count_epoch : String → ℕ → List ManagedNode → List String → ElectionHistory → ElectionHistory
  unfolding count_nodes
  count_epoch month epoch managed elected e = record e {
    history = insert month (count_nodes elected [] managed (bucket_at month e.history)) e.history;
    last_epoch = epoch;
  }

  -- The election history that there is: the new one, and whether it is to be written.
  update_history :
      String → ℕ → List ManagedNode → Map ℕ BlockRec → ElectionHistory → ElectionHistory × Bool
  unfolding count_epoch elected_set
  update_history month epoch managed have e =
      let dirty = not (e.current_month == month) in
      let e' = record e { current_month = month } in
      let elected = elected_set epoch have in
      if leb epoch e.last_epoch || nat_beq (length elected) 0
      then (e', dirty)
      else (count_epoch month epoch managed elected e', true)

  -- updateElectionsLocked
  unfoldable pub update_elections : String → ℕ → List ManagedNode → Monitor → Monitor × Bool
  unfolding update_history
  update_elections month epoch managed m = elim m.elect [
    | none ↦ (m, false)
    | some e ↦
        let r = update_history month epoch managed m.have e in (record m { elect = some r.0 }, r.1)
  ]

  unfoldable pub list_of : String → Map String Validator → String
  list_of bls validators = elim (lookup bls validators) [ none ↦ "unknown" | some v ↦ v.list ]

  -- The managed keys that the validator list has as elected.
  unfoldable pub elected_managed : Map String Validator → List ManagedNode → List String
  unfolding normalize_bls is_member list_of
  elected_managed validators [] = []
  elected_managed validators (node ∷ nodes) =
      let bls = normalize_bls node.bls in
      let rest = elected_managed validators nodes in
      if not (bls == "") && list_of bls validators == "elected" then add_member bls rest else rest

  -- `score`, in trackEpochMissesLocked
  unfoldable pub score : ℕ → List String → List IndexerBlock → Monitor → Monitor
  unfolding is_member normalize_all bump_absent
  score epoch elected [] m = m
  score epoch elected (b ∷ bs) m =
      let skipped = score epoch elected bs m in
      let scored = score epoch elected bs record m {
        epoch_seen_nonce = b.nonce ∷ m.epoch_seen_nonce;
        epoch_misses = bump_absent elected (normalize_all b.validators) m.epoch_misses;
      } in
      if not (b.epoch == epoch)
        || is_member b.nonce m.epoch_seen_nonce
        || nat_beq (length b.validators) 0
      then skipped
      else scored

  -- The counters, cleared if the epoch is new.
  unfoldable pub enter_epoch : ℕ → Monitor → Monitor
  enter_epoch epoch m =
      if epoch == m.epoch_miss_epoch
      then m
      else record m { epoch_miss_epoch = epoch; epoch_misses = []; epoch_seen_nonce = [] }

  -- trackEpochMissesLocked
  unfoldable pub track_epoch_misses :
      ℕ → List IndexerBlock → List IndexerBlock → List ManagedNode → Monitor → Monitor
  unfolding score elected_managed enter_epoch
  track_epoch_misses epoch blocks1 blocks2 managed m =
      let elected = elected_managed m.validators managed in
      score epoch elected blocks2 (score epoch elected blocks1 (enter_epoch epoch m))
