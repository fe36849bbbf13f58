-- ===== src/Alerting/Hydrate/Tests.antt =====
-- A restart with one active alert in the database.
use klever_node_hub.Prelude.{ℕ, true, false, [], ◌∷◌, All, keep}
use klever_node_hub.Store.Alerts.{alert_id, AlertRecord, firing, is_active_row}
use klever_node_hub.Alerting.Process.{Evaluator}
use klever_node_hub.Alerting.Defaults.Tests.{whole_numbers}
use klever_node_hub.Alerting.Hydrate.{hydrate_from_db, IsTaken, hydrate_from_db-takes}

abbrev row : AlertRecord
row = record {
  id = alert_id 5 1;
  rule_id = "r";
  rule_name = "Rule";
  node_id = "a";
  server_id = "s";
  severity = "critical";
  state = firing;
  message = "a is down";
  fired_at = 5;
  resolved_at = 0;
  notified_at = 5;
  acked = false;
  created_at = 5;
}

abbrev restarted : Evaluator ℕ
restarted = record { states = []; db = row ∷ []; sent = []; id_counter = 0 }

hydrate_from_db-takes_example :
    All
      (IsTaken whole_numbers
        (keep is_active_row (row ∷ []))
        (hydrate_from_db whole_numbers true restarted).states)
      (keep is_active_row (row ∷ []))
hydrate_from_db-takes_example = hydrate_from_db-takes whole_numbers restarted
