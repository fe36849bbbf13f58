-- ===== src/Alerting/Process/Dedup.antt =====
-- The rows that a result leaves in the table of alerts, and the alerts that it sends.
use klever_node_hub.Prelude.{
  ℕ, ◌+◌, ◌*◌, String, ◌≡◌, refl, ◌⊎◌, inl, inr, ◌≢◌, Bool, true, false, Option, none, some, lookup,
  ◌==◌, string_eq, leb, if◌then◌else◌, arith, eq_iff, Bool-cases,
}
use klever_node_hub.Store.Alerts.{
  AlertRecord, State, pending, firing, resolved, Table, is_active, id_eq,
  get_active_alert_by_rule_and_node, get_active_alert_by_rule_and_server,
}
use klever_node_hub.Store.Alerts.Active.{
  OneActive, IsFree, IsTracked, find_node-IsFree, find_server-IsFree, update_alert-OneActive,
  create_alert-OneActive,
}
use klever_node_hub.Alerting.Rules.{Numbers}
use klever_node_hub.Alerting.Process.{
  Io, Sample, AlertState, Evaluator, second, unix, process_result, process_breach, resolve_state,
  resolve_alert, seen_state, advance, remind, fire_alert, fire_found, find_existing, new_record,
  remind_record, resolve_record,
}

abbrev pub IsTarget : String → String → Type 0
IsTarget node_id server_id = (node_id ≢ "") ⊎ (server_id ≢ "")

abbrev pub TracksActive : Option AlertRecord → Table → Type 0
TracksActive none db = Unit
TracksActive (some rec) db = IsTracked rec db

-- The state watches something, and no row of the alert that it holds is resolved.
pub record IsSound {F : Type 0} (st : AlertState F) (db : Table) : Type 0 where
  pub target : IsTarget st.node_id st.server_id
  pub tracks : TracksActive st.alert_record db

module _ {F : Type 0} (n : Numbers F) where
  find_existing-IsFree :
      (io : Io) (s : Sample F) (st : AlertState F) (counter : ℕ) (db : Table)
      → io.query_ok ≡ true
      → IsTarget st.node_id st.server_id
      → find_existing n io s st db ≡ none
      → IsFree (new_record n io.now counter s st) db
  unfolding find_existing get_active_alert_by_rule_and_node get_active_alert_by_rule_and_server
  find_existing-IsFree io s st counter db q t h = elim (Bool-cases (st.node_id == "")) [
    | inl no_node ↦
        find_server-IsFree (new_record n io.now counter s st) db ((eq_iff st.node_id "").0 no_node)
          (ground (arith, eq_iff st.node_id "", eq_iff st.server_id ""))
    | inr node ↦
        find_node-IsFree (new_record n io.now counter s st) db
          (λ empty. ground (arith, eq_iff st.node_id "")) (ground arith)
  ]

  fire_found-OneActive :
      (io : Io) (s : Sample F) (st : AlertState F) (e : Evaluator F) (o : Option AlertRecord)
      → (o ≡ none → IsFree (new_record n io.now e.id_counter s st) e.db)
      → OneActive e.db
      → OneActive (fire_found n io s st e o).1.db
  unfolding fire_found
  fire_found-OneActive io s st e none free h =
      create_alert-OneActive io.create_ok (unix io.now) _ e.db (free refl) h
  fire_found-OneActive io s st e (some r) free h = h

  remind_record-OneActive :
      (io : Io) (o : Option AlertRecord) (db : Table)
      → TracksActive o db
      → OneActive db
      → OneActive (remind_record n io o db).1
  unfolding remind_record
  remind_record-OneActive io none db t h = h
  remind_record-OneActive io (some rec) db t h = update_alert-OneActive io.update_ok _ db (inr t) h

  remind-OneActive :
      (io : Io) (s : Sample F) (st : AlertState F) (e : Evaluator F) (o : Option ℕ)
      → TracksActive st.alert_record e.db
      → OneActive e.db
      → OneActive (remind n io s st e o).1.db
  unfolding remind
  remind-OneActive io s st e none t h = h
  remind-OneActive io s st e (some at) t h =
      elim (Bool-cases (leb (at + s.rule.cooldown_min * 60 * second) io.now)) [
        | inl due ↦ rw due (remind_record-OneActive io st.alert_record e.db t h)
        | inr early ↦ rw early h
      ]

  advance-OneActive :
      (io : Io) (s : Sample F) (st : AlertState F) (e : Evaluator F) (st_state : State)
      → io.query_ok ≡ true
      → IsSound st e.db
      → OneActive e.db
      → OneActive (advance n io s st e st_state).1.db
  unfolding advance fire_alert
  advance-OneActive io s st e pending q v h =
      elim (Bool-cases (leb (st.first_seen + s.rule.duration_sec * second) io.now)) [
        | inl due ↦ rw due (
            fire_found-OneActive io s fired e (find_existing n io s fired e.db)
              (find_existing-IsFree io s fired e.id_counter e.db q v.target) h)
        | inr early ↦ rw early h
      ]
    where
      fired : AlertState F
      fired = record st { state = firing }
  advance-OneActive io s st e firing q v h = remind-OneActive io s st e st.notified_at v.tracks h
  advance-OneActive io s st e resolved q v h = h

  seen_state-IsSound :
      (io : Io) (s : Sample F) (o : Option (AlertState F)) (db : Table)
      → IsTarget s.node_id s.server_id
      → ((st : AlertState F) → o ≡ some st → IsSound st db)
      → IsSound (seen_state n io s o) db
  unfolding seen_state
  seen_state-IsSound io s none db t v = record { target = t; tracks = tt }
  seen_state-IsSound io s (some st) db t v = record {
    target = (v st refl).target;
    tracks = (v st refl).tracks;
  }

  branch-OneActive :
      (b : Bool) (x y : Evaluator F)
      → OneActive x.db
      → OneActive y.db
      → OneActive (if b then x else y).db
  branch-OneActive true x y hx hy = hx
  branch-OneActive false x y hx hy = hy

  resolve_alert-OneActive :
      (io : Io) (o : Option AlertRecord) (source : String) (e : Evaluator F)
      → OneActive e.db
      → OneActive (resolve_alert n io o source e).db
  unfolding resolve_alert
  resolve_alert-OneActive io none source e h = h
  resolve_alert-OneActive io (some rec) source e h =
      update_alert-OneActive io.update_ok (resolve_record n io.now rec) e.db (inl refl) h

  resolve_state-OneActive :
      (io : Io) (source : String) (o : Option (AlertState F)) (e : Evaluator F)
      → OneActive e.db
      → OneActive (resolve_state n io source o e).db
  unfolding resolve_state
  resolve_state-OneActive io source none e h = h
  resolve_state-OneActive io source (some st) e h =
      branch-OneActive (is_active st.state) _ e
        (resolve_alert-OneActive io st.alert_record source e h) h

  -- A result never adds a second active alert for a rule and node, or for a rule and server, if the
  -- dedup query is answered, the result is for a node or a server, and the key's entry, if any,
  -- holds no alert whose row is resolved.
  pub process_result-OneActive :
      (io : Io) (s : Sample F) (e : Evaluator F)
      → io.query_ok ≡ true
      → IsTarget s.node_id s.server_id
      → ((st : AlertState F) → lookup s.state_key e.states ≡ some st → IsSound st e.db)
      → OneActive e.db
      → OneActive (process_result n io s e).db
  unfolding process_result process_breach
  process_result-OneActive io s e q t v h =
      let found = lookup s.state_key e.states in
      let st = seen_state n io s found in
      branch-OneActive s.breached _ _
        (advance-OneActive io s st e st.state q (seen_state-IsSound io s found e.db t v) h)
        (resolve_state-OneActive io s.source found e h)
