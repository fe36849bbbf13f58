-- ===== src/Store/Metrics.antt =====
-- internal/store/metrics_store.go: raw metrics, their decimation into buckets, and the purges. Times
-- are seconds since 1970. `io` says whether the database executes the statements of a call. `F` is
-- float64, and AVG, MIN and MAX of the database are the operations of `Aggregates`.
use klever_node_hub.Prelude.{
  ℕ, zero, suc, ◌+◌, ◌-◌, ◌*◌, ◌/◌, ◌≤◌, String, Bool, true, false, not, ◌&&◌, ◌||◌, List, [], ◌∷◌,
  ◌++◌, map, Option, none, some, Map, lookup, insert, Eq, ◌==◌, string_eq, nat_eq, if◌then◌else◌,
  length, keep, ltb, leb,
}
pub mod Decimation
pub mod Purges
pub mod System
pub mod Queries
pub mod Tests

pub record Aggregates (F : Type 0) : Type 0 where
  pub avg : List F → F
  pub min : List F → F
  pub max : List F → F

-- A row of metrics_recent.
pub record RawRow (F : Type 0) : Type 0 where
  pub node_id : String
  pub server_id : String
  pub metric_name : String
  pub metric_value : F
  pub collected_at : ℕ

-- A row of metrics_archive.
pub record ArchiveRow (F : Type 0) : Type 0 where
  pub node_id : String
  pub server_id : String
  pub metric_name : String
  pub avg_value : F
  pub min_value : F
  pub max_value : F
  pub sample_count : ℕ
  pub bucket_start : ℕ
  pub bucket_end : ℕ

pub record MetricsStore (F : Type 0) : Type 0 where
  pub recent : List (RawRow F)
  pub archive : List (ArchiveRow F)

-- The rows of a GROUP BY: all that has the key of the group.
pub record Group (F : Type 0) : Type 0 where
  pub node_id : String
  pub server_id : String
  pub metric_name : String
  pub bucket : ℕ
  pub samples : List F

abbrev pub bucket_of : ℕ → ℕ → ℕ
bucket_of size t = t / size * size

module _ {F : Type 0} where
  -- InsertNodeMetrics; the transaction writes all metrics or none.
  unfoldable pub insert_node_metrics :
      Bool → String → String → List (String × F) → ℕ → MetricsStore F → MetricsStore F × Bool
  insert_node_metrics io node server metrics ts s =
      let rows : List (RawRow F) =
        map
          (λ m. record {
            node_id = node;
            server_id = server;
            metric_name = m.0;
            metric_value = m.1;
            collected_at = ts;
          })
          metrics in
      if io then (record s { recent = s.recent ++ rows }, true) else (s, false)

  abbrev pub is_in : ℕ → RawRow F → Group F → Bool
  is_in size r g =
      g.node_id == r.node_id
      && g.server_id == r.server_id
      && g.metric_name == r.metric_name
      && g.bucket == bucket_of size r.collected_at

  unfoldable pub add_sample : ℕ → RawRow F → List (Group F) → List (Group F)
  add_sample size r [] =
      record {
        node_id = r.node_id;
        server_id = r.server_id;
        metric_name = r.metric_name;
        bucket = bucket_of size r.collected_at;
        samples = r.metric_value ∷ [];
      }
      ∷ []
  add_sample size r (g ∷ gs) =
      let rest = add_sample size r gs in
      if is_in size r g then record g { samples = r.metric_value ∷ g.samples } ∷ gs else g ∷ rest

  unfoldable pub group_by : ℕ → List (RawRow F) → List (Group F)
  unfolding add_sample
  group_by size [] = []
  group_by size (r ∷ rows) = add_sample size r (group_by size rows)

  -- The oldest time below the cutoff.
  unfoldable pub min_ts : ℕ → List (RawRow F) → Option ℕ
  min_ts cutoff [] = none
  min_ts cutoff (r ∷ rows) =
      let rest = min_ts cutoff rows in
      if ltb r.collected_at cutoff
      then elim rest [
        | none ↦ some r.collected_at
        | some m ↦ some (if ltb r.collected_at m then r.collected_at else m)
      ]
      else rest

  abbrev pub is_between : ℕ → ℕ → RawRow F → Bool
  is_between from to r = leb from r.collected_at && ltb r.collected_at to

  module _ (a : Aggregates F) where
    abbrev pub archived : ℕ → Group F → ArchiveRow F
    archived size g = record {
      node_id = g.node_id;
      server_id = g.server_id;
      metric_name = g.metric_name;
      avg_value = a.avg g.samples;
      min_value = a.min g.samples;
      max_value = a.max g.samples;
      sample_count = length g.samples;
      bucket_start = g.bucket;
      bucket_end = g.bucket + size;
    }

    -- The transaction of decimateSlice, for the oldest time that there is below the cutoff.
    unfoldable pub move_slice : ℕ → ℕ → ℕ → MetricsStore F → Option ℕ → Bool × ℕ × MetricsStore F
    unfolding group_by
    move_slice cutoff size span s none = (true, 0, s)
    move_slice cutoff size span s (some m) =
        let start = bucket_of size m in
        let end = if ltb cutoff (start + span) then cutoff else start + span in
        let slice = keep (is_between start end) s.recent in
        (
          leb cutoff end,
          length slice,
          record {
            recent = keep (λ r. not (is_between start end r)) s.recent;
            archive = s.archive ++ map (archived size) (group_by size slice);
          },
        )

    -- decimateSlice; `none` for an error, which rolls the transaction back.
    unfoldable pub decimate_slice :
        Bool → ℕ → ℕ → ℕ → MetricsStore F → Option (Bool × ℕ × MetricsStore F)
    unfolding move_slice min_ts
    decimate_slice io cutoff size span s =
        if io then some (move_slice cutoff size span s (min_ts cutoff s.recent)) else none

    -- What Decimate does after a slice: it ends by an error, or ends, or goes on.
    unfoldable pub after_slice :
        (MetricsStore F → ℕ → MetricsStore F × ℕ × Option Bool)
        → MetricsStore F
        → ℕ
        → Option (Bool × ℕ × MetricsStore F)
        → MetricsStore F × ℕ × Option Bool
    after_slice next s total none = (s, total, some false)
    after_slice next s total (some (true, n, s')) = (s', total + n, some true)
    after_slice next s total (some (false, n, s')) = next s' (total + n)

    -- The loop of Decimate on fuel: the store, the total, and whether the loop ended without an error;
    -- `none` if the fuel ran out. `io k` is for the slice with k rounds left.
    unfoldable pub decimate_loop :
        ℕ → (ℕ → Bool) → ℕ → ℕ → ℕ → MetricsStore F → ℕ → MetricsStore F × ℕ × Option Bool
    unfolding decimate_slice after_slice
    decimate_loop zero io cutoff size span s total = (s, total, none)
    decimate_loop (suc fuel) io cutoff size span s total =
        after_slice (decimate_loop fuel io cutoff size span) s total
          (decimate_slice (io fuel) cutoff size span s)

    -- Decimate
    unfoldable pub decimate :
        (ℕ → Bool) → ℕ → ℕ → ℕ → MetricsStore F → MetricsStore F × ℕ × Option Bool
    unfolding decimate_loop
    decimate io now older_than bucket_size s =
        let size = if bucket_size == 0 then 300 else bucket_size in
        decimate_loop (suc (length s.recent)) io (now - older_than) size (size * 6) s 0

-- purgeBatch
abbrev pub purge_batch : ℕ
purge_batch = 2000

module _ {A : Type 0} (is_old : A → Bool) where
  -- Deletes the first rows that are old, at most so many: what is left, and how many went.
  unfoldable pub delete_first : ℕ → List A → List A × ℕ
  delete_first zero rows = (rows, 0)
  delete_first (suc k) [] = ([], 0)
  delete_first (suc k) (r ∷ rows) =
      let gone = delete_first k rows in
      let kept = delete_first (suc k) rows in
      if is_old r then (gone.0, suc gone.1) else (r ∷ kept.0, kept.1)

  -- The loop of purgeOldRows on fuel, in batches of `batch` rows.
  unfoldable pub purge_loop : ℕ → (ℕ → Bool) → ℕ → List A → ℕ → List A × ℕ × Option Bool
  unfolding delete_first
  purge_loop zero io batch rows total = (rows, total, none)
  purge_loop (suc fuel) io batch rows total =
      let deleted = delete_first batch rows in
      let next = purge_loop fuel io batch deleted.0 (total + deleted.1) in
      if io fuel
      then if ltb deleted.1 batch then (deleted.0, total + deleted.1, some true) else next
      else (rows, total, some false)

  unfoldable pub purge_old_rows : (ℕ → Bool) → List A → List A × ℕ × Option Bool
  unfolding purge_loop
  purge_old_rows io rows = purge_loop (suc (length rows)) io purge_batch rows 0

module _ {F : Type 0} where
  -- Purge
  unfoldable pub purge : (ℕ → Bool) → ℕ → ℕ → MetricsStore F → MetricsStore F × ℕ × Option Bool
  unfolding purge_old_rows
  purge io now older_than s =
      let r = purge_old_rows (λ row. ltb row.bucket_end (now - older_than)) io s.archive in
      (record s { archive = r.0 }, r.1, r.2)

  -- ORDER BY collected_at
  unfoldable pub insert_raw : RawRow F → List (RawRow F) → List (RawRow F)
  insert_raw r [] = r ∷ []
  insert_raw r (q ∷ qs) =
      let rest = insert_raw r qs in
      if leb r.collected_at q.collected_at then r ∷ q ∷ qs else q ∷ rest

  unfoldable pub sort_raw : List (RawRow F) → List (RawRow F)
  unfolding insert_raw
  sort_raw [] = []
  sort_raw (r ∷ rows) = insert_raw r (sort_raw rows)

  abbrev pub is_asked : String → String → ℕ → ℕ → RawRow F → Bool
  is_asked node metric from to r =
      r.node_id == node
      && r.metric_name == metric
      && leb from r.collected_at
      && leb r.collected_at to

  -- QueryRecent: the points as rows, oldest first.
  unfoldable pub query_recent :
      Bool → String → String → ℕ → ℕ → MetricsStore F → Option (List (RawRow F))
  unfolding sort_raw
  query_recent io node metric from to s =
      if io then some (sort_raw (keep (is_asked node metric from to) s.recent)) else none

  -- ORDER BY bucket_start
  unfoldable pub insert_archived : ArchiveRow F → List (ArchiveRow F) → List (ArchiveRow F)
  insert_archived r [] = r ∷ []
  insert_archived r (q ∷ qs) =
      let rest = insert_archived r qs in
      if leb r.bucket_start q.bucket_start then r ∷ q ∷ qs else q ∷ rest

  unfoldable pub sort_archived : List (ArchiveRow F) → List (ArchiveRow F)
  unfolding insert_archived
  sort_archived [] = []
  sort_archived (r ∷ rows) = insert_archived r (sort_archived rows)

  abbrev pub is_archived : String → String → ℕ → ℕ → ArchiveRow F → Bool
  is_archived node metric from to r =
      r.node_id == node && r.metric_name == metric && leb from r.bucket_start && leb r.bucket_end to

  unfoldable pub query_archive :
      Bool → String → String → ℕ → ℕ → MetricsStore F → Option (List (ArchiveRow F))
  unfolding sort_archived
  query_archive io node metric from to s =
      if io then some (sort_archived (keep (is_archived node metric from to) s.archive)) else none

-- What QueryAutoResolution returns.
pub data Resolution (F : Type 0) : Type 0 where
  raw : List (RawRow F) → Resolution F
  buckets : List (ArchiveRow F) → Resolution F
  merged : List (ArchiveRow F) → List (RawRow F) → Resolution F

module _ {F : Type 0} where
  abbrev pub as_raw : Option (List (RawRow F)) → Option (Resolution F)
  as_raw none = none
  as_raw (some rows) = some (raw rows)

  abbrev pub as_buckets : Option (List (ArchiveRow F)) → Option (Resolution F)
  as_buckets none = none
  as_buckets (some rows) = some (buckets rows)

  abbrev pub as_merged :
      Option (List (ArchiveRow F)) → Option (List (RawRow F)) → Option (Resolution F)
  as_merged none o = none
  as_merged (some old) none = none
  as_merged (some old) (some rows) = some (merged old rows)

  -- QueryAutoResolution
  unfoldable pub query_auto_resolution :
      Bool → ℕ → ℕ → String → String → ℕ → ℕ → MetricsStore F → Option (Resolution F)
  unfolding query_recent query_archive
  query_auto_resolution io now hot_window node metric from to s =
      let cutoff = now - hot_window in
      if leb cutoff from
      then as_raw (query_recent io node metric from to s)
      else if ltb to cutoff
      then as_buckets (query_archive io node metric from to s)
      else as_merged (query_archive io node metric from cutoff s)
          (query_recent io node metric cutoff to s)
