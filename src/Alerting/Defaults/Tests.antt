-- ===== src/Alerting/Defaults/Tests.antt =====
-- A table that an older version wrote: "Node Offline" still watches the heartbeat.
use klever_node_hub.Prelude.{
  ℕ, ◌≡◌, refl, true, false, [], ◌∷◌, string_eq, lookup, insert, delete, ltb, leb, nat_beq, ◌-◌,
}
use klever_node_hub.Alerting.Rules.{Numbers, AlertRule, stall}
use klever_node_hub.Store.Rules.{RuleTable, has_row, create_rule, delete_rule, get_rule}
use klever_node_hub.Alerting.Defaults.{default_rules, migrate_offline, ensure_defaults}
use klever_node_hub.Alerting.Defaults.Complete.{has_rule, ensure_defaults_complete}

abbrev pub whole_numbers : Numbers ℕ
whole_numbers = record {
  zero = 0;
  one = 1;
  above = λ a b. ltb b a;
  below = λ a b. ltb a b;
  same = λ a b. nat_beq a b;
  at_least = λ a b. leb b a;
  difference = λ a b. a - b;
  of_seconds = λ a. a;
  whole = λ a. a;
  format_0 = λ a. "";
  format_1 = λ a. "";
}

abbrev old_rule : AlertRule ℕ
old_rule = record {
  id = "builtin-node-offline";
  name = "Node Offline";
  enabled = false;
  metric_name = "agent.heartbeat";
  condition = stall;
  threshold = 60;
  duration_sec = 0;
  severity = "critical";
  node_filter = "*";
  cooldown_min = 5;
  builtin = true;
}

abbrev old_table : RuleTable ℕ
old_table =
    ("builtin-node-offline", record { rule = old_rule; created_at = 4; updated_at = 4 }) ∷ []

ensure_defaults_complete_example :
    has_row "builtin-high-cpu" (ensure_defaults whole_numbers (λ k. k) true true 9 old_table) ≡ true
unfolding has_rule default_rules
ensure_defaults_complete_example =
    ensure_defaults_complete whole_numbers (λ k. k) 9 old_table "builtin-high-cpu" refl

-- The operator had switched the rule off, and it stays off under its new ID.
moved :
    (migrate_offline whole_numbers (λ k. k) true true 9 old_table)
    ≡ (
      "builtin-agent-offline",
      record {
        rule = record old_rule { id = "builtin-agent-offline"; name = "Agent Offline" };
        created_at = 4;
        updated_at = 9;
      },
    )
      ∷ []
unfolding migrate_offline get_rule create_rule delete_rule lookup insert delete
moved = refl
