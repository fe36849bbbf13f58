-- ===== src/Alerting/Evaluate.antt =====
-- internal/dashboard/alerting/evaluator.go: how a rule is evaluated for nodes and servers. A metric
-- query is answered with an error (`none`) or with points, oldest first: `query id metric from to`.
-- Times of points are seconds, of the evaluator nanoseconds, both since 1970.
use klever_node_hub.Prelude.{
  ℕ, ◌+◌, ◌-◌, ◌*◌, String, Bool, true, false, not, ◌&&◌, ◌||◌, List, [], ◌∷◌, ◌++◌, Option, none,
  some, ◌==◌, string_eq, nat_eq, if◌then◌else◌, ltb,
}
use klever_node_hub.Alerting.Rules.{Numbers, Condition, stall, AlertRule, sprint, check_condition}
use klever_node_hub.Alerting.Process.{
  Io, Sample, Evaluator, process_result, mark_normal, unix, second,
}
pub mod Stall
pub mod Round
pub mod Tests

-- The fields of models.Node and models.Server that the evaluator reads.
pub record Node : Type 0 where
  pub id : String
  pub server_id : String
  pub container_name : String
  pub status : String
  pub maintenance : Bool

pub record Server : Type 0 where
  pub id : String
  pub name : String
  pub hostname : String
  pub last_heartbeat : ℕ

pub record Point (F : Type 0) : Type 0 where
  pub value : F
  pub collected_at : ℕ

abbrev pub newest_first : {F : Type 0} → List (Point F) → List (Point F)
newest_first [] = []
newest_first (p ∷ ps) = newest_first ps ++ p ∷ []

abbrev pub is_stall : Condition → Bool
is_stall stall = true
is_stall _ = false

-- A rule whose filter leaves the node out.
abbrev pub filtered_out : {F : Type 0} → AlertRule F → Node → Bool
filtered_out rule node = not (rule.node_filter == "*") && not (rule.node_filter == node.id)

abbrev pub node_key : {F : Type 0} → AlertRule F → Node → String
node_key rule node = sprint (rule.id ∷ ":" ∷ node.id ∷ [])

abbrev pub server_key : {F : Type 0} → AlertRule F → Server → String
server_key rule srv = sprint (rule.id ∷ ":server:" ∷ srv.id ∷ [])

abbrev pub server_source : Server → String
server_source srv = sprint ("server:" ∷ srv.name ∷ " (" ∷ srv.hostname ∷ ")" ∷ [])

module _ {F : Type 0} (n : Numbers F) where
  -- The loop of evaluateStall: the earliest time of the newest points with the same value.
  unfoldable pub last_change : F → ℕ → List (Point F) → ℕ
  last_change value at [] = at
  last_change value at (p ∷ ps) =
      let rest = last_change value p.collected_at ps in if n.same p.value value then rest else at

  unfoldable pub stall_lookback : AlertRule F → ℕ
  stall_lookback rule =
      let seconds = n.whole rule.threshold * 3 in if ltb seconds 300 then 300 else seconds

  node_sample : AlertRule F → Node → F → Bool → Sample F
  node_sample rule node value breached = record {
    rule = rule;
    state_key = node_key rule node;
    node_id = node.id;
    server_id = node.server_id;
    source = sprint ("node:" ∷ node.container_name ∷ []);
    value = value;
    breached = breached;
  }

  -- evaluateStall, for the points that its query returned, newest first.
  unfoldable pub judge_stall :
      Io → AlertRule F → Node → ℕ → Option (List (Point F)) → Evaluator F → Evaluator F
  unfolding last_change node_sample
  judge_stall io rule node to (some (p ∷ q ∷ ps)) e =
      let at = last_change p.value p.collected_at (q ∷ ps) in
      process_result n io
        (node_sample rule node p.value (n.at_least (n.difference to at) rule.threshold)) e
  judge_stall io rule node to (some (p ∷ [])) e = mark_normal n io (node_key rule node) e
  judge_stall io rule node to (some []) e =
      if n.above rule.threshold n.zero
      then process_result n io (node_sample rule node n.zero true) e
      else mark_normal n io (node_key rule node) e
  judge_stall io rule node to none e =
      if n.above rule.threshold n.zero
      then process_result n io (node_sample rule node n.zero true) e
      else mark_normal n io (node_key rule node) e

  -- evaluateThreshold, for the points that its query returned, newest first.
  unfoldable pub judge_threshold :
      Io → AlertRule F → Node → Option (List (Point F)) → Evaluator F → Evaluator F
  unfolding node_sample
  judge_threshold io rule node (some (p ∷ ps)) e =
      let breached = check_condition n rule.condition p.value rule.threshold in
      process_result n io (node_sample rule node p.value breached) e
  judge_threshold io rule node (some []) e = mark_normal n io (node_key rule node) e
  judge_threshold io rule node none e = mark_normal n io (node_key rule node) e

  -- The answer of a query, newest first.
  abbrev pub turned : Option (List (Point F)) → Option (List (Point F))
  turned none = none
  turned (some ps) = some (newest_first ps)

  -- The loop of evaluateNodeRule; `query id metric from to` is QueryRecent.
  unfoldable pub evaluate_node_rule :
      (String → String → ℕ → ℕ → Option (List (Point F)))
      → Io
      → AlertRule F
      → ℕ
      → ℕ
      → List Node
      → Evaluator F
      → Evaluator F
  unfolding judge_stall judge_threshold stall_lookback
  evaluate_node_rule query io rule from to [] e = e
  evaluate_node_rule query io rule from to (node ∷ nodes) e =
      let start = if is_stall rule.condition then to - stall_lookback rule else from in
      let points = turned (query node.id rule.metric_name start to) in
      let judged =
        if is_stall rule.condition
        then judge_stall io rule node to points e
        else judge_threshold io rule node points e in
      evaluate_node_rule query io rule from to nodes (if filtered_out rule node then e else judged)

  -- evaluateNodeStatusRule
  unfoldable pub evaluate_node_status_rule :
      Io → AlertRule F → List Node → Evaluator F → Evaluator F
  unfolding node_sample
  evaluate_node_status_rule io rule [] e = e
  evaluate_node_status_rule io rule (node ∷ nodes) e =
      let breached = not (node.status == "running") && not (node.status == "") in
      let value = if breached then n.one else n.zero in
      let judged = process_result n io (node_sample rule node value breached) e in
      evaluate_node_status_rule io rule nodes
        (if filtered_out rule node || node.maintenance then e else judged)

  pub server_sample : AlertRule F → Server → F → Bool → Sample F
  server_sample rule srv value breached = record {
    rule = rule;
    state_key = server_key rule srv;
    node_id = "";
    server_id = srv.id;
    source = server_source srv;
    value = value;
    breached = breached;
  }

  -- evaluateHeartbeatRule; `limit` is the timeout of the settings, or else the rule's threshold.
  unfoldable pub evaluate_heartbeat_rule :
      (String → Bool) → F → Io → AlertRule F → List Server → Evaluator F → Evaluator F
  unfolding server_sample
  evaluate_heartbeat_rule connected limit io rule [] e = e
  evaluate_heartbeat_rule connected limit io rule (srv ∷ srvs) e =
      let stale = n.difference (unix io.now) srv.last_heartbeat in
      let judged = process_result n io (server_sample rule srv stale (n.above stale limit)) e in
      evaluate_heartbeat_rule connected limit io rule srvs (
        if srv.last_heartbeat == 0
        then e
        else if connected srv.id
        then mark_normal n io (server_key rule srv) e
        else judged)
