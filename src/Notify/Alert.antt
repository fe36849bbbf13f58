-- ===== src/Notify/Alert.antt =====
-- internal/notify/notify.go: what a channel is given to deliver.
use klever_node_hub.Prelude.{ℕ, String}

pub record Alert : Type 0 where
  pub title : String
  pub message : String
  pub severity : String
  pub source : String
  pub alert_type : String
  pub time : ℕ

-- SeverityInfo, SeverityWarning and SeverityCritical
abbrev pub severity_info : String
severity_info = "info"

abbrev pub severity_warning : String
severity_warning = "warning"

abbrev pub severity_critical : String
severity_critical = "critical"
