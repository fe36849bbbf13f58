-- ===== src/Alerting/Defaults.antt =====
-- internal/dashboard/alerting/defaults.go, and EnsureDefaults and migrateRules of evaluator.go: the
-- built-in rules, and how a start brings the table of rules up to date. `reads` and `writes` say
-- whether the database answers the queries and executes the statements of the call.
use klever_node_hub.Prelude.{
  ℕ, String, Bool, true, false, not, ◌&&◌, ◌||◌, List, [], ◌∷◌, Option, none, some, ◌==◌, string_eq,
  nat_eq, if◌then◌else◌, lookup, insert, delete, ltb,
}
use klever_node_hub.Alerting.Rules.{Numbers, Condition, gt, lt, eq, stall, AlertRule}
use klever_node_hub.Store.Rules.{
  RuleRow, RuleTable, create_rule, update_rule, delete_rule, get_rule, rule_count,
}
pub mod Complete
pub mod Tests

-- `literal` is a number of the source as a float64.
module _ {F : Type 0} (n : Numbers F) (literal : ℕ → F) where
  abbrev pub default_rule : String → String → String → Condition → ℕ → ℕ → String → ℕ → AlertRule F
  default_rule id name metric condition threshold duration severity cooldown = record {
    id = id;
    name = name;
    enabled = true;
    metric_name = metric;
    condition = condition;
    threshold = literal threshold;
    duration_sec = duration;
    severity = severity;
    node_filter = "*";
    cooldown_min = cooldown;
    builtin = true;
  }

  unfoldable pub default_rules : List (AlertRule F)
  default_rules =
      default_rule "builtin-nonce-stall" "Nonce Stall" "klv_nonce" stall 120 60 "critical" 15
      ∷ default_rule "builtin-node-offline" "Node Offline" "node.status" eq 1 30 "critical" 5
      ∷ default_rule "builtin-agent-offline" "Agent Offline" "agent.heartbeat" stall 60 0 "critical"
          5
      ∷ default_rule "builtin-high-cpu" "High CPU" "cpu_percent" gt 90 300 "warning" 15
      ∷ default_rule "builtin-high-memory" "High Memory" "mem_percent" gt 90 300 "warning" 15
      ∷ default_rule "builtin-disk-full" "Disk Full" "disk_percent" gt 85 0 "warning" 30
      ∷ default_rule "builtin-low-peers" "Low Peers" "klv_connectedPeers" lt 3 0 "warning" 10
      ∷ default_rule "builtin-sync-lag" "Sync Lag" "klv_is_syncing" eq 1 1800 "warning" 30
      ∷ default_rule "builtin-validator-missed-blocks" "Validator Missed Blocks"
          "validator_missed_blocks" gt 10 60 "warning" 30
      ∷ default_rule "builtin-validator-jailed" "Validator Jailed" "validator_jailed" eq 1 0
          "critical" 60
      ∷ []

  new_row : AlertRule F → RuleRow F
  new_row rule = record { rule = rule; created_at = 0; updated_at = 0 }

  -- "Node Offline" on the heartbeat becomes "Agent Offline".
  unfoldable pub migrate_offline : Bool → Bool → ℕ → RuleTable F → RuleTable F
  migrate_offline reads writes now t = elim (get_rule reads "builtin-node-offline" t) [
    | none ↦ t
    | some old ↦
        let moved : RuleRow F = record old {
          rule = record old.rule { id = "builtin-agent-offline"; name = "Agent Offline" };
        } in
        let created = create_rule writes now moved t in
        if old.rule.metric_name == "agent.heartbeat" && created.1
        then (delete_rule writes "builtin-node-offline" created.0).0
        else t
  ]

  unfoldable pub migrate_stall : Bool → Bool → ℕ → RuleTable F → RuleTable F
  migrate_stall reads writes now t = elim (get_rule reads "builtin-nonce-stall" t) [
    | none ↦ t
    | some row ↦
        let rule : AlertRule F = record row.rule {
          threshold = literal 120;
          duration_sec = 60;
          cooldown_min = 15;
        } in
        if n.same row.rule.threshold (literal 15) then (update_rule writes now rule t).0 else t
  ]

  unfoldable pub migrate_sync : Bool → Bool → ℕ → RuleTable F → RuleTable F
  migrate_sync reads writes now t = elim (get_rule reads "builtin-sync-lag" t) [
    | none ↦ t
    | some row ↦
        let rule : AlertRule F = record row.rule { metric_name = "klv_is_syncing" } in
        if row.rule.metric_name == "klv_isSyncing" then (update_rule writes now rule t).0 else t
  ]

  -- The last loop of migrateRules.
  unfoldable pub add_missing : Bool → Bool → ℕ → List (AlertRule F) → RuleTable F → RuleTable F
  unfolding new_row
  add_missing reads writes now [] t = t
  add_missing reads writes now (rule ∷ rules) t =
      let missing : Bool = elim (get_rule reads rule.id t) [ none ↦ true | some row ↦ false ] in
      add_missing reads writes now rules
        (if rule.builtin && missing then (create_rule writes now (new_row rule) t).0 else t)

  unfoldable pub migrate_rules : Bool → Bool → ℕ → RuleTable F → RuleTable F
  unfolding migrate_offline migrate_stall migrate_sync add_missing default_rules
  migrate_rules reads writes now t = add_missing reads writes now default_rules (
      migrate_sync reads writes now
        (migrate_stall reads writes now (migrate_offline reads writes now t)))

  -- The loop of EnsureDefaults.
  unfoldable pub create_all : Bool → ℕ → List (AlertRule F) → RuleTable F → RuleTable F
  unfolding new_row
  create_all writes now [] t = t
  create_all writes now (rule ∷ rules) t =
      create_all writes now rules (create_rule writes now (new_row rule) t).0

  unfoldable pub ensure_defaults : Bool → Bool → ℕ → RuleTable F → RuleTable F
  unfolding migrate_rules create_all default_rules
  ensure_defaults reads writes now t =
      let t' = migrate_rules reads writes now t in
      elim (rule_count reads t') [
        | none ↦ t'
        | some count ↦ if ltb 0 count then t' else create_all writes now default_rules t'
      ]
