-- ===== src/Alerting/Process.antt =====
-- internal/dashboard/alerting/evaluator.go: what becomes of one result of a rule. Times are
-- nanoseconds since 1970; the text "normal" of AlertState.State is never written.
pub mod Dedup
pub mod Lifecycle
pub mod Outcomes
pub mod Recovery
pub mod Tests
use klever_node_hub.Prelude.{
  ℕ, zero, suc, ◌+◌, ◌*◌, ◌/◌, String, Bool, true, false, not, ◌&&◌, List, [], ◌∷◌, ◌++◌, Option,
  none, some, Map, lookup, insert, delete, retain, ◌==◌, string_eq, ltb, leb, if◌then◌else◌,
}
use klever_node_hub.Store.Alerts.{
  AlertRecord, State, pending, firing, resolved, is_active, alert_id, Table, create_alert,
  update_alert, get_active_alert_by_rule_and_node, get_active_alert_by_rule_and_server,
}
use klever_node_hub.Notify.Alert.{Alert, severity_info}
use klever_node_hub.Alerting.Rules.{
  Numbers, AlertRule, sprint, format_alert_message, alert_type_from_rule,
}

-- What a call meets outside: the clock, and whether the database executes its statements.
pub record Io : Type 0 where
  pub now : ℕ
  pub query_ok : Bool
  pub create_ok : Bool
  pub update_ok : Bool

-- `none` is the zero time.
pub record AlertState (F : Type 0) : Type 0 where
  pub rule_id : String
  pub node_id : String
  pub server_id : String
  pub first_seen : ℕ
  pub last_seen : ℕ
  pub last_value : F
  pub state : State
  pub notified_at : Option ℕ
  pub alert_record : Option AlertRecord

-- `sent` holds what was given to Manager.Send, the oldest first.
pub record Evaluator (F : Type 0) : Type 0 where
  pub states : Map String (AlertState F)
  pub db : Table
  pub sent : List Alert
  pub id_counter : ℕ

abbrev pub second : ℕ
second = 1000000000

-- Time.Unix, and time.Unix(s, 0)
abbrev pub unix : ℕ → ℕ
unix t = t / second

abbrev pub from_unix : ℕ → ℕ
from_unix s = s * second

-- A result as processResult is given it, with the rule that it is for.
pub record Sample (F : Type 0) : Type 0 where
  pub rule : AlertRule F
  pub state_key : String
  pub node_id : String
  pub server_id : String
  pub source : String
  pub value : F
  pub breached : Bool

module _ {F : Type 0} (n : Numbers F) where
  -- sendNotification
  abbrev pub notification : ℕ → Sample F → Alert
  notification now s = record {
    title = sprint (s.rule.severity ∷ ": " ∷ s.rule.name ∷ []);
    message = format_alert_message n s.rule s.source s.value;
    severity = s.rule.severity;
    source = s.source;
    alert_type = alert_type_from_rule s.rule;
    time = unix now;
  }

  send_notification : ℕ → Sample F → Evaluator F → Evaluator F
  send_notification now s e = record e { sent = e.sent ++ notification now s ∷ [] }

  abbrev pub recovery : ℕ → String → AlertRecord → Alert
  recovery now source rec = record {
    title = sprint ("Resolved: " ∷ rec.rule_name ∷ []);
    message = sprint (source ∷ " has recovered" ∷ []);
    severity = severity_info;
    source = source;
    alert_type = "resolved";
    time = unix now;
  }

  abbrev pub resolve_record : ℕ → AlertRecord → AlertRecord
  resolve_record now rec = record rec { state = resolved; resolved_at = unix now }

  -- resolveAlert, which is called only for a state that is then deleted.
  resolve_alert : Io → Option AlertRecord → String → Evaluator F → Evaluator F
  resolve_alert io none source e = e
  resolve_alert io (some rec) source e = record e {
    db = (update_alert io.update_ok (resolve_record io.now rec) e.db).0;
    sent = e.sent ++ recovery io.now source rec ∷ [];
  }

  -- The dedup query of fireAlert.
  find_existing : Io → Sample F → AlertState F → Table → Option AlertRecord
  find_existing io s st db =
      if not (st.node_id == "")
      then get_active_alert_by_rule_and_node io.query_ok s.rule.id st.node_id db
      else if not (st.server_id == "")
      then get_active_alert_by_rule_and_server io.query_ok s.rule.id st.server_id db
      else none

  abbrev pub new_record : ℕ → ℕ → Sample F → AlertState F → AlertRecord
  new_record now counter s st = record {
    id = alert_id now counter;
    rule_id = s.rule.id;
    rule_name = s.rule.name;
    node_id = st.node_id;
    server_id = st.server_id;
    severity = s.rule.severity;
    state = firing;
    message = format_alert_message n s.rule s.source s.value;
    fired_at = unix now;
    resolved_at = 0;
    notified_at = unix now;
    acked = false;
    created_at = unix now;
  }

  fire_found :
      Io → Sample F → AlertState F → Evaluator F → Option AlertRecord → AlertState F × Evaluator F
  unfolding send_notification
  fire_found io s st e (some existing) = (
    record st { alert_record = some existing; notified_at = some (from_unix existing.notified_at) },
    e,
  )
  fire_found io s st e none =
      let rec : AlertRecord = new_record io.now e.id_counter s st in
      (
        record st { alert_record = some rec; notified_at = some io.now },
        send_notification io.now s (record e {
          id_counter = suc e.id_counter;
          db = (create_alert io.create_ok (unix io.now) rec e.db).0;
        }),
      )

  -- fireAlert
  unfoldable pub fire_alert :
      Io → Sample F → AlertState F → Evaluator F → AlertState F × Evaluator F
  unfolding fire_found find_existing
  fire_alert io s st e = fire_found io s st e (find_existing io s st e.db)

  -- The record that a reminder writes back.
  remind_record : Io → Option AlertRecord → Table → Option AlertRecord × Table
  remind_record io none db = (none, db)
  remind_record io (some rec) db =
      let rec' : AlertRecord = record rec { notified_at = unix io.now } in
      (some rec', (update_alert io.update_ok rec' db).0)

  -- The case "firing": a reminder after each cooldown.
  remind : Io → Sample F → AlertState F → Evaluator F → Option ℕ → AlertState F × Evaluator F
  unfolding remind_record send_notification
  remind io s st e none = (st, e)
  remind io s st e (some notified) =
      if leb (notified + s.rule.cooldown_min * 60 * second) io.now
      then (
        record st {
          notified_at = some io.now;
          alert_record = (remind_record io st.alert_record e.db).0;
        },
        record (send_notification io.now s e) { db = (remind_record io st.alert_record e.db).1 },
      )
      else (st, e)

  -- The switch on state.State.
  advance : Io → Sample F → AlertState F → Evaluator F → State → AlertState F × Evaluator F
  unfolding remind fire_alert
  advance io s st e pending =
      if leb (st.first_seen + s.rule.duration_sec * second) io.now
      then fire_alert io s (record st { state = firing }) e
      else (st, e)
  advance io s st e firing = remind io s st e st.notified_at
  advance io s st e resolved = (st, e)

  new_state : Io → Sample F → AlertState F
  new_state io s = record {
    rule_id = s.rule.id;
    node_id = s.node_id;
    server_id = s.server_id;
    first_seen = io.now;
    last_seen = io.now;
    last_value = s.value;
    state = pending;
    notified_at = none;
    alert_record = none;
  }

  -- The state that the switch sees: the one at hand, or a new one.
  seen_state : Io → Sample F → Option (AlertState F) → AlertState F
  unfolding new_state
  seen_state io s none = new_state io s
  seen_state io s (some st) = record st { last_seen = io.now; last_value = s.value }

  process_breach : Io → Sample F → Option (AlertState F) → Evaluator F → Evaluator F
  unfolding seen_state advance
  process_breach io s found e =
      let st = seen_state io s found in
      let (st', e') = advance io s st e st.state in
      record e' { states = insert s.state_key st' e'.states }

  resolve_state : Io → String → Option (AlertState F) → Evaluator F → Evaluator F
  unfolding resolve_alert
  resolve_state io source none e = e
  resolve_state io source (some st) e =
      if is_active st.state then resolve_alert io st.alert_record source e else e

  -- processResult
  unfoldable pub process_result : Io → Sample F → Evaluator F → Evaluator F
  unfolding process_breach resolve_state
  process_result io s e =
      if s.breached
      then process_breach io s (lookup s.state_key e.states) e
      else (let e' = resolve_state io s.source (lookup s.state_key e.states) e in
          record e' { states = delete s.state_key e'.states })

  normal_source : Option (AlertState F) → String
  normal_source none = ""
  normal_source (some st) =
      if not (st.node_id == "")
      then sprint ("node:" ∷ st.node_id ∷ [])
      else sprint ("server:" ∷ st.server_id ∷ [])

  -- markNormal
  unfoldable pub mark_normal : Io → String → Evaluator F → Evaluator F
  unfolding resolve_state normal_source
  mark_normal io key e =
      let found = lookup key e.states in
      let e' = resolve_state io (normal_source found) found e in
      record e' { states = delete key e'.states }

  is_stale : ℕ → AlertState F → Bool
  is_stale now st = ltb (st.last_seen + 300 * second) now && is_active st.state

  write_stale : Io → Option AlertRecord → Table → Table
  write_stale io none db = db
  write_stale io (some rec) db = (update_alert io.update_ok (resolve_record io.now rec) db).0

  -- The database writes of resolveStaleAlerts, over the states that it visits.
  stale_writes : Io → Map String (AlertState F) → Table → Table
  unfolding is_stale write_stale
  stale_writes io [] db = db
  stale_writes io ((k, st) ∷ m) db =
      stale_writes io m (if is_stale io.now st then write_stale io st.alert_record db else db)

  -- resolveStaleAlerts
  unfoldable pub resolve_stale_alerts : Io → Evaluator F → Evaluator F
  unfolding stale_writes is_stale
  resolve_stale_alerts io e = record e {
    states = retain (λ k st. not (is_stale io.now st)) e.states;
    db = stale_writes io e.states e.db;
  }
