-- ===== src/Alerting/Rules.antt =====
-- internal/dashboard/alerting/evaluator.go: rules, and what is computed from a rule and a value.
-- `F` is float64, whose arithmetic and printing are the operations of `Numbers`.
use Prim.Native.String.{◌++◌}
use klever_node_hub.Prelude.{
  ℕ, String, Bool, false, List, [], ◌∷◌, ◌==◌, string_eq, ◌||◌, if◌then◌else◌,
}

pub record Numbers (F : Type 0) : Type 0 where
  pub zero : F
  pub one : F
  pub above : F → F → Bool  -- a > b
  pub below : F → F → Bool  -- a < b
  pub same : F → F → Bool  -- a == b
  pub at_least : F → F → Bool  -- a >= b
  pub difference : ℕ → ℕ → F  -- float64(a - b), for int64 a and b
  pub of_seconds : ℕ → F  -- Duration.Seconds()
  pub whole : F → ℕ  -- int64(a), and 0 where that is negative
  pub format_0 : F → String  -- %.0f
  pub format_1 : F → String  -- %.1f

-- The texts "gt", "lt", "eq" and "stall"; `other` is any other text.
pub data Condition : Type 0 where
  gt lt eq stall other : Condition

pub record AlertRule (F : Type 0) : Type 0 where
  pub id : String
  pub name : String
  pub enabled : Bool
  pub metric_name : String
  pub condition : Condition
  pub threshold : F
  pub duration_sec : ℕ
  pub severity : String
  pub node_filter : String
  pub cooldown_min : ℕ
  pub builtin : Bool

-- fmt.Sprintf on texts.
abbrev pub sprint : List String → String
sprint [] = ""
sprint (s ∷ ss) = s ++ sprint ss

module _ {F : Type 0} (n : Numbers F) where
  -- checkCondition
  unfoldable pub check_condition : Condition → F → F → Bool
  check_condition gt value threshold = n.above value threshold
  check_condition lt value threshold = n.below value threshold
  check_condition eq value threshold = n.same value threshold
  check_condition _ value threshold = false

  message_for : Condition → AlertRule F → String → F → String
  message_for gt rule source value = sprint (
      source
      ∷ ": "
      ∷ rule.metric_name
      ∷ " is "
      ∷ n.format_1 value
      ∷ " (threshold: >"
      ∷ n.format_1 rule.threshold
      ∷ ")"
      ∷ [])
  message_for lt rule source value = sprint (
      source
      ∷ ": "
      ∷ rule.metric_name
      ∷ " is "
      ∷ n.format_1 value
      ∷ " (threshold: <"
      ∷ n.format_1 rule.threshold
      ∷ ")"
      ∷ [])
  message_for eq rule source value =
      sprint (source ∷ ": " ∷ rule.metric_name ∷ " equals " ∷ n.format_0 value ∷ [])
  message_for stall rule source value =
      sprint (source ∷ ": " ∷ rule.metric_name ∷ " stalled at " ∷ n.format_0 value ∷ [])
  message_for other rule source value =
      sprint (source ∷ ": " ∷ rule.metric_name ∷ " = " ∷ n.format_1 value ∷ [])

  -- formatAlertMessage
  pub format_alert_message : AlertRule F → String → F → String
  format_alert_message rule source value = message_for rule.condition rule source value

-- alertTypeFromRule
pub alert_type_from_rule : {F : Type 0} → AlertRule F → String
alert_type_from_rule rule =
    if rule.metric_name == "agent.heartbeat"
    then "node_down"
    else if rule.metric_name == "klv_nonce"
    then "nonce_stall"
    else if rule.metric_name == "cpu_percent"
        || rule.metric_name == "mem_percent"
        || rule.metric_name == "disk_percent"
    then "resource"
    else "metric"
