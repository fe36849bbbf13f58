-- ===== src/Store/Versions.antt =====
-- internal/store/version_history_store.go: the table `node_version_history`, in the order of its row
-- IDs. `io` says whether the database executes a statement. Times are seconds since 1970.
use klever_node_hub.Prelude.{
  ℕ, suc, ◌+◌, String, Bool, true, false, not, ◌&&◌, ◌||◌, List, [], ◌∷◌, ◌++◌, Option, none, some,
  ◌==◌, string_eq, nat_eq, if◌then◌else◌, keep, ltb, leb,
}

pub record VersionChange : Type 0 where
  pub id : ℕ
  pub node_id : String
  pub server_id : String
  pub version : String
  pub detected_at : ℕ
  pub evaluated : Bool

pub record VersionHistory : Type 0 where
  pub rows : List VersionChange
  pub next_id : ℕ

-- `a` comes before `b` in ORDER BY detected_at DESC, id DESC.
abbrev pub is_later : VersionChange → VersionChange → Bool
is_later a b = ltb b.detected_at a.detected_at || (a.detected_at == b.detected_at && ltb b.id a.id)

-- The first row of that order among those that pass a test.
unfoldable pub latest : (VersionChange → Bool) → List VersionChange → Option VersionChange
latest p [] = none
latest p (c ∷ cs) =
    let rest = latest p cs in
    if p c
    then elim rest [ none ↦ some c | some d ↦ if is_later c d then some c else some d ]
    else rest

-- LatestVersion; an empty text if there is none, `none` for an error.
unfoldable pub latest_version : Bool → String → VersionHistory → Option String
unfolding latest
latest_version io node h =
    if io
    then some (elim (latest (λ c. c.node_id == node) h.rows) [ none ↦ "" | some c ↦ c.version ])
    else none

abbrev pub with_version : String → String → String → ℕ → VersionHistory → VersionHistory
with_version node server version at h = record {
  rows =
      h.rows
      ++ record {
        id = h.next_id;
        node_id = node;
        server_id = server;
        version = version;
        detected_at = at;
        evaluated = false;
      }
        ∷ [];
  next_id = suc h.next_id;
}

-- RecordVersion: whether a row was inserted, `none` for an error.
unfoldable pub record_version :
    Bool → Bool → String → String → String → ℕ → VersionHistory → VersionHistory × Option Bool
unfolding latest_version
record_version reads writes node server version at h =
    if node == "" || version == "" then (h, some false) else elim (latest_version reads node h) [
      | none ↦ (h, none)
      | some last ↦
          if last == version
          then (h, some false)
          else if writes
          then (with_version node server version at h, some true)
          else (h, none)
    ]

-- ORDER BY detected_at ASC
unfoldable pub insert_change : VersionChange → List VersionChange → List VersionChange
insert_change c [] = c ∷ []
insert_change c (d ∷ ds) =
    let rest = insert_change c ds in
    if leb c.detected_at d.detected_at then c ∷ d ∷ ds else d ∷ rest

unfoldable pub sort_changes : List VersionChange → List VersionChange
unfolding insert_change
sort_changes [] = []
sort_changes (c ∷ cs) = insert_change c (sort_changes cs)

abbrev pub is_pending : ℕ → ℕ → ℕ → VersionChange → Bool
is_pending now min_age max_age c =
    not c.evaluated && leb (c.detected_at + min_age) now && leb now (c.detected_at + max_age)

unfoldable pub pending_evaluations : Bool → ℕ → ℕ → ℕ → VersionHistory → Option (List VersionChange)
unfolding sort_changes
pending_evaluations io now min_age max_age h =
    if io then some (sort_changes (keep (is_pending now min_age max_age) h.rows)) else none

-- PreviousChange; `none` also for an error.
unfoldable pub previous_change : Bool → VersionChange → VersionHistory → Option VersionChange
unfolding latest
previous_change io change h =
    if io
    then latest (λ c. c.node_id == change.node_id && ltb c.detected_at change.detected_at) h.rows
    else none

unfoldable pub mark_rows : ℕ → List VersionChange → List VersionChange
mark_rows id [] = []
mark_rows id (c ∷ cs) = (if c.id == id then record c { evaluated = true } else c) ∷ mark_rows id cs

unfoldable pub mark_evaluated : Bool → ℕ → VersionHistory → VersionHistory × Bool
unfolding mark_rows
mark_evaluated io id h = if io then (record h { rows = mark_rows id h.rows }, true) else (h, false)

-- LastChange
unfoldable pub last_change_of : Bool → String → VersionHistory → Option VersionChange
unfolding latest
last_change_of io node h = if io then latest (λ c. c.node_id == node) h.rows else none
