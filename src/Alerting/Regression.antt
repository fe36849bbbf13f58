-- ===== src/Alerting/Regression.antt =====
-- internal/dashboard/alerting/regression.go: the detector of slower versions. It reads the raw metrics
-- and the version history, and writes alerts. Times are nanoseconds since 1970 in `now`, seconds
-- elsewhere. `M` holds the arithmetic of float64 that the detector needs.
use klever_node_hub.Prelude.{
  ℕ, zero, suc, ◌+◌, ◌-◌, ◌*◌, ◌/◌, ◌%◌, String, Bool, true, false, not, ◌&&◌, ◌||◌, List, [], ◌∷◌,
  ◌++◌, map, Option, none, some, ◌==◌, string_eq, nat_eq, if◌then◌else◌, length, get_elem?, ltb,
  leb,
}
use klever_node_hub.Notify.Alert.{Alert, severity_warning}
use klever_node_hub.Store.Alerts.{AlertRecord, Table, regression_id, firing, create_alert}
use klever_node_hub.Store.Metrics.{RawRow, MetricsStore, query_recent}
use klever_node_hub.Store.Versions.{
  VersionChange, VersionHistory, pending_evaluations, previous_change, mark_evaluated,
}
use klever_node_hub.Alerting.Rules.{Numbers, sprint}
use klever_node_hub.Alerting.Process.{unix}
pub mod Rows
pub mod Reports
pub mod Once
pub mod Tests

abbrev pub regression_metric : String
regression_metric = "klv_block_process_duration_ms"

abbrev pub regression_min_age_sec : ℕ
regression_min_age_sec = 12 * 3600

abbrev pub regression_max_age_sec : ℕ
regression_max_age_sec = 7 * 24 * 3600

abbrev pub regression_baseline_window_sec : ℕ
regression_baseline_window_sec = 24 * 3600

abbrev pub regression_min_points : ℕ
regression_min_points = 20

-- Further arithmetic of float64.
pub record Medians (F : Type 0) : Type 0 where
  pub less : F → F → Bool  -- a < b
  pub midway : F → F → F  -- (a + b) / 2
  pub ratio : F → F  -- a * regressionRatio
  pub minus : F → F → F
  pub abs_ms : F  -- regressionAbsMs
  pub percent : F → F → F  -- (b - a) / a * 100

-- The names of a node, as far as they are set.
pub record NodeNames : Type 0 where
  pub display_name : String
  pub container_name : String

-- What the database does during a check, and the time of the check and of an alert.
pub record DetectorIo : Type 0 where
  pub now : ℕ
  pub list_ok : Bool
  pub query_ok : Bool
  pub previous_ok : Bool
  pub create_ok : Bool
  pub mark_ok : Bool

pub record Detector (F : Type 0) : Type 0 where
  pub versions : VersionHistory
  pub metrics : MetricsStore F
  pub db : Table
  pub sent : List Alert
  pub id_counter : ℕ

module _ {F : Type 0} (n : Numbers F) (d : Medians F) (names : String → Option NodeNames) where
  unfoldable pub insert_value : F → List F → List F
  insert_value v [] = v ∷ []
  insert_value v (w ∷ ws) =
      let rest = insert_value v ws in if d.less w v then w ∷ rest else v ∷ w ∷ ws

  -- sort.Float64s
  unfoldable pub sort_values : List F → List F
  unfolding insert_value
  sort_values [] = []
  sort_values (v ∷ vs) = insert_value v (sort_values vs)

  abbrev pub at_index : List F → ℕ → F
  at_index vs i = elim (get_elem? vs i) [ none ↦ n.zero | some v ↦ v ]

  unfoldable pub median : List (RawRow F) → F
  unfolding sort_values
  median points =
      let values = sort_values (map (λ r. r.metric_value) points) in
      let mid = length values / 2 in
      if length points == 0
      then n.zero
      else if length values % 2 == 1
      then at_index values mid
      else d.midway (at_index values (mid - 1)) (at_index values mid)

  abbrev pub node_name : String → String
  node_name id = elim (names id) [
    | none ↦ id
    | some node ↦
        if not (node.display_name == "")
        then node.display_name
        else if not (node.container_name == "")
        then node.container_name
        else id
  ]

  unfoldable pub regression_message : VersionChange → String → F → F → String
  regression_message change previous before after =
      let percent = if n.above before n.zero then d.percent before after else n.zero in
      sprint (
        "node:"
        ∷ node_name change.node_id
        ∷ " — block processing median rose from "
        ∷ n.format_0 before
        ∷ "ms to "
        ∷ n.format_0 after
        ∷ "ms (+"
        ∷ n.format_0 percent
        ∷ "%) after upgrade "
        ∷ (if previous == "" then "to " else sprint (previous ∷ " -> " ∷ []))
        ∷ change.version
        ∷ [])

  abbrev pub regression_record : DetectorIo → ℕ → VersionChange → String → AlertRecord
  regression_record io counter change message = record {
    id = regression_id io.now counter;
    rule_id = "builtin-version-regression";
    rule_name = "Version Performance Regression";
    node_id = change.node_id;
    server_id = change.server_id;
    severity = severity_warning;
    state = firing;
    message = message;
    fired_at = unix io.now;
    resolved_at = 0;
    notified_at = unix io.now;
    acked = false;
    created_at = unix io.now;
  }

  abbrev pub regression_alert : DetectorIo → VersionChange → String → Alert
  regression_alert io change message = record {
    title = "warning: Version Performance Regression";
    message = message;
    severity = severity_warning;
    source = sprint ("node:" ∷ node_name change.node_id ∷ []);
    alert_type = "version";
    time = unix io.now;
  }

  unfoldable pub raise_alert : DetectorIo → VersionChange → F → F → Detector F → Detector F
  unfolding regression_message
  raise_alert io change before after s =
      let previous : String = elim (previous_change io.previous_ok change s.versions) [
        | none ↦ ""
        | some c ↦ c.version
      ] in
      let message = regression_message change previous before after in
      let counter = suc s.id_counter in
      let created =
        create_alert io.create_ok (unix io.now) (regression_record io counter change message)
          s.db in
      record s {
        id_counter = counter;
        db = created.0;
        sent = if created.1 then s.sent ++ regression_alert io change message ∷ [] else s.sent;
      }

  abbrev pub has_regressed : F → F → Bool
  has_regressed before after =
      n.at_least after (d.ratio before) && n.at_least (d.minus after before) d.abs_ms

  -- The verdict of evaluateChange on two medians.
  unfoldable pub decide : DetectorIo → VersionChange → F → F → Detector F → Detector F
  decide io change before after s =
      let s' = if has_regressed before after then raise_alert io change before after s else s in
      record s' { versions = (mark_evaluated io.mark_ok change.id s'.versions).0 }

  -- evaluateChange, for the points of both windows.
  unfoldable pub judge :
      DetectorIo → VersionChange → List (RawRow F) → List (RawRow F) → Detector F → Detector F
  judge io change baseline post s =
      if ltb (length baseline) regression_min_points || ltb (length post) regression_min_points
      then s
      else decide io change (median baseline) (median post) s

  unfoldable pub judge_answers :
      DetectorIo
      → VersionChange
      → Option (List (RawRow F))
      → Option (List (RawRow F))
      → Detector F
      → Detector F
  judge_answers io change none o s = s
  judge_answers io change (some baseline) none s = s
  judge_answers io change (some baseline) (some post) s = judge io change baseline post s

  -- evaluateChange
  unfoldable pub evaluate_change : DetectorIo → VersionChange → Detector F → Detector F
  evaluate_change io change s =
      let at = change.detected_at in
      let from = at - regression_baseline_window_sec in
      judge_answers io change
        (query_recent io.query_ok change.node_id regression_metric from at s.metrics)
        (query_recent io.query_ok change.node_id regression_metric at (unix io.now) s.metrics) s

  unfoldable pub evaluate_all : DetectorIo → List VersionChange → Detector F → Detector F
  evaluate_all io [] s = s
  evaluate_all io (c ∷ cs) s = evaluate_all io cs (evaluate_change io c s)

  unfoldable pub check : DetectorIo → Detector F → Detector F
  check io s =
      elim (pending_evaluations io.list_ok (unix io.now) regression_min_age_sec
        regression_max_age_sec s.versions) [ none ↦ s | some changes ↦ evaluate_all io changes s ]
