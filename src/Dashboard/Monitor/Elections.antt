-- ===== src/Dashboard/Monitor/Elections.antt =====
-- The elections of the managed validators: each epoch counts once, and each validator once in it.
use klever_node_hub.Prelude.{
  ℕ, nat_eq, suc, ◌+◌, ◌≡◌, refl, String, Bool, true, false, ◌++◌, length-append, not, ◌&&◌, ◌||◌,
  List, [], ◌∷◌, none, some, Map, ◌==◌, string_eq, eq_iff, if◌then◌else◌, length, ltb, arith,
  lookup-insert,
}
use klever_node_hub.Dashboard.Monitor.{
  is_member, Strings, ManagedNode, BlockRec, ElectionHistory, Monitor, count_at, increment,
  bucket_at, elected_set, normalize_bls, count_nodes, count_epoch, update_history, update_elections,
}

-- How many elections a history has for a validator in a month.
abbrev pub tally : String → String → ElectionHistory → ℕ
tally month bls e = count_at bls (bucket_at month e.history)

abbrev pub tally_of : String → String → Monitor → ℕ
tally_of month bls m = elim m.elect [ none ↦ 0 | some e ↦ tally month bls e ]

-- Some block of the epoch in the window has the validator among its signers.
unfoldable pub signed_in : ℕ → String → Map ℕ BlockRec → Bool
signed_in epoch bls [] = false
signed_in epoch bls ((nonce, rec) ∷ have) =
    (rec.epoch == epoch && rec.has_signers && is_member bls rec.signers) || signed_in epoch bls have

-- Some block of the epoch in the window shows a signer.
unfoldable pub has_signed : ℕ → Map ℕ BlockRec → Bool
has_signed epoch [] = false
has_signed epoch ((nonce, rec) ∷ have) =
    (rec.epoch == epoch && rec.has_signers && ltb 0 (length rec.signers)) || has_signed epoch have

is_member-append :
    (bls : String) (xs ys : List String)
    → is_member bls (xs ++ ys) ≡ (is_member bls xs || is_member bls ys)
unfolding is_member
is_member-append bls [] ys = refl
is_member-append bls (x ∷ xs) ys = ground (arith, is_member-append bls xs ys)

signed_in_lem :
    (epoch : ℕ) (bls : String) (have : Map ℕ BlockRec)
    → is_member bls (elected_set epoch have) ≡ signed_in epoch bls have
unfolding elected_set signed_in is_member
signed_in_lem epoch bls [] = refl
signed_in_lem epoch bls ((nonce, rec) ∷ have) =
    ground (
      arith,
      signed_in_lem epoch bls have,
      is_member-append bls rec.signers (elected_set epoch have),
    )

has_signed_lem :
    (epoch : ℕ) (have : Map ℕ BlockRec)
    → ltb 0 (length (elected_set epoch have)) ≡ has_signed epoch have
unfolding elected_set has_signed
has_signed_lem epoch [] = refl
has_signed_lem epoch ((nonce, rec) ∷ have) =
    ground (arith, has_signed_lem epoch have, length-append rec.signers (elected_set epoch have))

is_member-pos :
    (bls : String) (keys : List String) → is_member bls keys ≡ true → ltb 0 (length keys) ≡ true
unfolding is_member
is_member-pos bls [] h = h
is_member-pos bls (k ∷ keys) h = ground arith

signed_in-has_signed :
    (epoch : ℕ) (bls : String) (have : Map ℕ BlockRec)
    → signed_in epoch bls have ≡ true
    → has_signed epoch have ≡ true
unfolding signed_in has_signed is_member
signed_in-has_signed epoch bls [] h = h
signed_in-has_signed epoch bls ((nonce, rec) ∷ have) h =
    ground (arith, h, is_member-pos bls rec.signers, signed_in-has_signed epoch bls have)

-- 1 for what holds.
abbrev pub one_if : Bool → ℕ
one_if b = if b then 1 else 0

module _ (s : Strings) where
  -- Some managed node has the key.
  unfoldable pub is_managed : String → List ManagedNode → Bool
  is_managed bls [] = false
  is_managed bls (node ∷ nodes) = normalize_bls s node.bls == bls || is_managed bls nodes

  count_nodes_lem :
      (elected seen : List String) (nodes : List ManagedNode) (bucket : Map String ℕ) (bls : String)
      → count_at bls (count_nodes s elected seen nodes bucket)
        ≡ count_at bls bucket
          + one_if (
              not (bls == "")
              && not (is_member bls seen)
              && is_managed bls nodes
              && is_member bls elected)
  unfolding count_nodes is_managed is_member
  count_nodes_lem elected seen [] bucket bls = ground arith
  count_nodes_lem elected seen (node ∷ nodes) bucket bls =
      let key = normalize_bls s node.bls in
      let bucket' = if is_member key elected then increment key bucket else bucket in
      ground (
        arith,
        eq_iff key bls,
        eq_iff key "",
        eq_iff bls "",
        lookup-insert key bls (suc (count_at key bucket)) bucket,
        count_nodes_lem elected seen nodes bucket bls,
        count_nodes_lem elected (key ∷ seen) nodes bucket' bls,
      )

  is_member-empty :
      (bls : String) (keys : List String) → length keys ≡ 0 → is_member bls keys ≡ false
  unfolding is_member
  is_member-empty bls [] h = refl
  is_member-empty bls (k ∷ keys) h = absurd (omega (arith, h))

  update_history_lem :
      (month : String) (epoch : ℕ) (managed : List ManagedNode) (have : Map ℕ BlockRec)
      (e : ElectionHistory) (mo bls : String)
      → tally mo bls (update_history s month epoch managed have e).0
        ≡ tally mo bls e
          + one_if (
              ltb e.last_epoch epoch
              && month == mo
              && not (bls == "")
              && is_managed bls managed
              && signed_in epoch bls have)
  unfolding update_history count_epoch is_member
  update_history_lem month epoch managed have e mo bls =
      let elected = elected_set epoch have in
      let bucket = bucket_at month e.history in
      let counted = count_nodes s elected [] managed bucket in
      ground (
        arith,
        eq_iff month mo,
        lookup-insert month mo counted e.history,
        count_nodes_lem elected [] managed bucket bls,
        is_member-empty bls elected,
        signed_in_lem epoch bls have,
      )

  update_elections-counts :
      (month : String) (epoch : ℕ) (managed : List ManagedNode) (m : Monitor) (e : ElectionHistory)
      (mo bls : String)
      → m.elect ≡ some e
      → tally_of mo bls (update_elections s month epoch managed m).0
        ≡ tally mo bls e
          + one_if (
              ltb e.last_epoch epoch
              && month == mo
              && not (bls == "")
              && is_managed bls managed
              && signed_in epoch bls m.have)
  unfolding update_elections
  update_elections-counts month epoch managed m e mo bls h =
      ground (arith, h, update_history_lem month epoch managed m.have e mo bls)

  -- One update: the month and the epoch, the managed nodes and the blocks of the window then.
  pub record Update : Type 0 where
    pub month : String
    pub epoch : ℕ
    pub managed : List ManagedNode
    pub blocks : Map ℕ BlockRec

  unfoldable pub run_updates : List Update → Monitor → Monitor
  run_updates [] m = m
  run_updates (u ∷ us) m =
      run_updates us (update_elections s u.month u.epoch u.managed (record m { have = u.blocks })).0

  -- An update whose epoch is later than the last one that counted, and has signers.
  abbrev pub is_counted : ℕ → Update → Bool
  is_counted last u = ltb last u.epoch && has_signed u.epoch u.blocks

  -- How many updates count the validator for the month, each epoch at the first update at which some
  -- block of it shows its signers.
  unfoldable pub elections_won : ℕ → String → String → List Update → ℕ
  elections_won last month bls [] = 0
  elections_won last month bls (u ∷ us) =
      let skipped = elections_won last month bls us in
      let counted = elections_won u.epoch month bls us in
      if is_counted last u
      then one_if (
          u.month == month
          && not (bls == "")
          && is_managed bls u.managed
          && signed_in u.epoch bls u.blocks)
        + counted
      else skipped

  update_elections-last :
      (month : String) (epoch : ℕ) (managed : List ManagedNode) (m : Monitor) (e : ElectionHistory)
      → m.elect ≡ some e
      → (e' : ElectionHistory) × ((update_elections s month epoch managed m).0.elect ≡ some e')
        × (e'.last_epoch
            ≡ (if ltb e.last_epoch epoch && has_signed epoch m.have then epoch else e.last_epoch))
  unfolding update_elections update_history count_epoch
  update_elections-last month epoch managed m e h = (
    (update_history s month epoch managed m.have e).0,
    rw h refl,
    ground (arith, has_signed_lem epoch m.have),
  )

  -- If the history is loaded: over any updates, whatever the month, the nodes and the window are at
  -- each, the elections of a validator in a month grow by one for each epoch that an update counts in
  -- that month and in which a block of the window then has its signature, if a managed node has it.
  -- An epoch counts once, at the first update at which some block of it shows its signers, and only if
  -- it is later than the epochs counted before, however many nodes have the same key.
  pub run_updates-counts :
      (updates : List Update) (m : Monitor) (e : ElectionHistory) (month bls : String)
      → m.elect ≡ some e
      → tally_of month bls (run_updates updates m)
        ≡ tally month bls e + elections_won e.last_epoch month bls updates
  unfolding run_updates elections_won
  run_updates-counts [] m e month bls h = ground (arith, h)
  run_updates-counts (u ∷ us) m e month bls h =
      let m0 = record m { have = u.blocks } in
      let m' = (update_elections s u.month u.epoch u.managed m0).0 in
      let (e', now, last) = update_elections-last u.month u.epoch u.managed m0 e h in
      ground (
        arith,
        run_updates-counts us m' e' month bls now,
        now,
        last,
        update_elections-counts u.month u.epoch u.managed m0 e month bls h,
        signed_in-has_signed u.epoch bls u.blocks,
      )
