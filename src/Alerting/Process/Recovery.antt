-- ===== src/Alerting/Process/Recovery.antt =====
-- What a result that is no breach leaves.
use klever_node_hub.Prelude.{
  ℕ, Bool, Option, ◌&&◌, ◌==◌, if◌then◌else◌, String, ◌≡◌, refl, ◌∙◌, ap, true, false, List, [],
  ◌∷◌, ◌++◌, none, some, lookup, delete, lookup-delete, string_eq,
}
use klever_node_hub.Store.Alerts.{
  AlertRecord, Table, is_active, is_active_row, update_alert, has_id, id_eq, overwrite, resolved,
}
use klever_node_hub.Notify.Alert.{Alert}
use klever_node_hub.Alerting.Rules.{Numbers, sprint}
use klever_node_hub.Alerting.Process.{
  Io, Sample, AlertState, Evaluator, unix, process_result, resolve_state, resolve_alert,
  resolve_record, recovery,
}

-- Two tables with as many rows, which are related one by one.
abbrev pub Pairwise : (AlertRecord → AlertRecord → Type 0) → Table → Table → Type 0
Pairwise R [] [] = Unit
Pairwise R (r ∷ rs) (r' ∷ rs') = R r r' × Pairwise R rs rs'
Pairwise R _ _ = ⊥

-- The same alert, resolved at a time.
pub record IsResolved (now : ℕ) (r r' : AlertRecord) : Type 0 where
  pub id : r'.id ≡ r.id
  pub rule_id : r'.rule_id ≡ r.rule_id
  pub node_id : r'.node_id ≡ r.node_id
  pub server_id : r'.server_id ≡ r.server_id
  pub inactive : is_active_row r' ≡ false
  pub resolved_at : r'.resolved_at ≡ unix now

-- What becomes of a row, if it is the one to resolve and if not.
abbrev pub IsRowAfter : ℕ → Bool → AlertRecord → AlertRecord → Type 0
IsRowAfter now true r r' = IsResolved now r r'
IsRowAfter now false r r' = r' ≡ r

-- The notification that an alert of a source is over.
pub record IsRecovery (now : ℕ) (source rule_name : String) (a : Alert) : Type 0 where
  pub title : a.title ≡ sprint ("Resolved: " ∷ rule_name ∷ [])
  pub message : a.message ≡ sprint (source ∷ " has recovered" ∷ [])
  pub severity : a.severity ≡ "info"
  pub names_source : a.source ≡ source
  pub alert_type : a.alert_type ≡ "resolved"
  pub time : a.time ≡ unix now

resolves :
    (ok : Bool) (now : ℕ) (rec : AlertRecord) (db : Table)
    → rec.state ≡ resolved
    → rec.resolved_at ≡ unix now
    → Pairwise (λ r r'. IsRowAfter now (ok && has_id rec.id r) r r') db (update_alert ok rec db).0
unfolding update_alert
resolves true now rec [] state at = tt
resolves false now rec [] state at = tt
resolves false now rec (r ∷ rs) state at = (refl, resolves false now rec rs state at)
resolves true now rec (r ∷ rs) state at = (
  elim (has_id rec.id r) as (λ b. IsRowAfter now b r (if b then overwrite rec r else r)) [
    | true ↦ record {
      id = refl;
      rule_id = refl;
      node_id = refl;
      server_id = refl;
      inactive = ap is_active state;
      resolved_at = at;
    }
    | false ↦ refl
  ],
  resolves true now rec rs state at,
)

module _ {F : Type 0} (n : Numbers F) where
  -- The alert that an entry holds as going on.
  abbrev pub alert_of : Option (AlertState F) → Option AlertRecord
  alert_of none = none
  alert_of (some st) = if is_active st.state then st.alert_record else none

  -- What the end of a breach leaves of the alert that was going on, if there was one.
  abbrev pub IsOver :
      Io → String → Option AlertRecord → Table × List Alert → Table × List Alert → Type 0
  IsOver io source none before after = after ≡ before
  IsOver io source (some rec) (db, sent) (db', sent') =
      Pairwise (λ r r'. IsRowAfter io.now (io.update_ok && has_id rec.id r) r r') db db'
      × ((a : Alert) × (sent' ≡ sent ++ a ∷ []) × IsRecovery io.now source rec.rule_name a)

  resolve_state-IsOver :
      (io : Io) (source : String) (e : Evaluator F) (found : Option (AlertState F))
      → let e' = resolve_state n io source found e in
        (e'.states ≡ e.states) × IsOver io source (alert_of found) (e.db, e.sent) (e'.db, e'.sent)
  unfolding resolve_state resolve_alert
  resolve_state-IsOver io source e none = (refl, refl)
  resolve_state-IsOver io source e (some st) =
      elim (is_active st.state)
        as (λ b.
          let e' = if b then resolve_alert n io st.alert_record source e else e in
          (e'.states ≡ e.states)
          × IsOver io source (if b then st.alert_record else none) (e.db, e.sent)
              (e'.db, e'.sent)) [ true ↦ over st.alert_record | false ↦ (refl, refl) ]
    where
      over :
          (o : Option AlertRecord)
          → let e' = resolve_alert n io o source e in
            (e'.states ≡ e.states) × IsOver io source o (e.db, e.sent) (e'.db, e'.sent)
      over none = (refl, refl)
      over (some rec) = (
        refl,
        (
          resolves io.update_ok io.now (resolve_record n io.now rec) e.db refl refl,
          (
            recovery n io.now source rec,
            refl,
            record {
              title = refl;
              message = refl;
              severity = refl;
              names_source = refl;
              alert_type = refl;
              time = refl;
            },
          ),
        ),
      )

  -- A result that is no breach takes the entry of its key out and leaves every other entry. If the
  -- entry was firing or pending with an alert: each row with the alert's ID is resolved now and is
  -- otherwise of the same alert, if the database takes the write, every other row is as it was, and
  -- one notification is sent, which says that the source has recovered from the rule. If there was
  -- no such entry, nothing is written and nothing is sent.
  pub process_result-recovers :
      (io : Io) (s : Sample F) (e : Evaluator F) (key : String)
      → s.breached ≡ false
      → let e' = process_result n io s e in
        (lookup key e'.states ≡ (if s.state_key == key then none else lookup key e.states))
        × IsOver io s.source
            (alert_of (lookup s.state_key e.states))
            (e.db, e.sent)
            (e'.db, e'.sent)
  unfolding process_result
  process_result-recovers io s e key calm =
      let found = lookup s.state_key e.states in
      let r = resolve_state n io s.source found e in
      let over = resolve_state-IsOver io s.source e found in
      rw calm (
        ap (λ states. lookup key (delete s.state_key states)) over.0
            ∙ lookup-delete s.state_key key e.states,
        over.1,
      )
