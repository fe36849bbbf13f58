-- ===== src/Alerting/Process/Outcomes.antt =====
-- What a result leaves of an alert that is firing.
use klever_node_hub.Prelude.{
  ℕ, ◌+◌, ◌*◌, ◌≤◌, ◌<◌, String, ◌≡◌, refl, ◌∙◌, sym, ap, subst, inl, inr, true, false, List, [],
  ◌∷◌, some, lookup, insert, lookup-insert, string_eq, arith, eq_iff, Bool-cases, All-map, All,
}
use klever_node_hub.Store.Alerts.{
  AlertRecord, firing, Table, update_alert, acknowledge_alert, has_id, id_eq,
}
use klever_node_hub.Alerting.Rules.{Numbers}
use klever_node_hub.Alerting.Process.{
  Io, Sample, AlertState, Evaluator, second, unix, process_result, process_breach, seen_state,
  advance, remind, remind_record,
}
use klever_node_hub.Alerting.Process.Lifecycle.{run}

-- After a write by id, every row with that id shows the record's columns.
pub written :
    (rec : AlertRecord) (db : Table)
    → All
        (λ r. has_id rec.id r ≡ true → (r.state ≡ rec.state) × (r.acked ≡ rec.acked))
        (update_alert true rec db).0
unfolding update_alert
written rec [] = tt
written rec (r ∷ rs) = (
  elim (Bool-cases (has_id rec.id r)) [
    | inl hit ↦ rw hit (λ _. (refl, refl))
    | inr miss ↦ rw miss (λ hit. cc)
  ],
  written rec rs,
)

module _ {F : Type 0} (n : Numbers F) where
  process_result-reminds :
      (io : Io) (s : Sample F) (e : Evaluator F) (st : AlertState F) (rec : AlertRecord)
      (notified : ℕ)
      → s.breached ≡ true
      → io.update_ok ≡ true
      → lookup s.state_key e.states ≡ some st
      → st.state ≡ firing
      → st.alert_record ≡ some rec
      → st.notified_at ≡ some notified
      → notified + s.rule.cooldown_min * 60 * second ≤ io.now
      → (process_result n io s e).db
        ≡ (update_alert true (record rec { notified_at = unix io.now }) e.db).0
  unfolding process_result process_breach advance remind remind_record seen_state
  process_result-reminds io s e st rec notified breach up found fires has at due = ground arith

  -- The entry of a key that fires, and that was notified of at a time.
  abbrev FiresSince : String → ℕ → Evaluator F → Type 0
  FiresSince key notified e =
      (st : AlertState F) × (lookup key e.states ≡ some st)
      × (st.state ≡ firing)
      × (st.notified_at ≡ some notified)

  -- A breach of the key before the cooldown of its rule is over.
  pub record IsEarly (key : String) (notified : ℕ) (r : Io × Sample F) : Type 0 where
    pub own : r.1.state_key ≡ key
    pub breach : r.1.breached ≡ true
    pub early : r.0.now < notified + r.1.rule.cooldown_min * 60 * second

  process_result-early :
      (io : Io) (s : Sample F) (e : Evaluator F) (st : AlertState F) (notified : ℕ)
      → lookup s.state_key e.states ≡ some st
      → st.state ≡ firing
      → st.notified_at ≡ some notified
      → s.breached ≡ true
      → io.now < notified + s.rule.cooldown_min * 60 * second
      → process_result n io s e ≡ record e {
        states =
            insert s.state_key (record st { last_seen = io.now; last_value = s.value }) e.states;
      }
  unfolding process_result process_breach advance remind seen_state
  process_result-early io s e st notified found fires at breach early = ground arith

  step-early :
      (key : String) (notified : ℕ) (io : Io) (s : Sample F) (e : Evaluator F)
      → FiresSince key notified e
      → IsEarly key notified (io, s)
      → let e' = process_result n io s e in
        FiresSince key notified e' × (e'.sent ≡ e.sent) × (e'.db ≡ e.db)
  step-early key notified io s e (st, found, fires, at) h =
      let own_found = subst (λ k. lookup k e.states ≡ some st) (sym h.own) found in
      let ends = process_result-early io s e st notified own_found fires at h.breach h.early in
      (
        (
          record st { last_seen = io.now; last_value = s.value },
          ap (λ e'. lookup key e'.states) ends
              ∙ lookup-insert s.state_key key
                  (record st { last_seen = io.now; last_value = s.value }) e.states
              ∙ ground (arith, eq_iff s.state_key key, h.own),
          fires,
          at,
        ),
        ap (λ e'. e'.sent) ends,
        ap (λ e'. e'.db) ends,
      )

  run-early :
      (key : String) (notified : ℕ) (e : Evaluator F) (es : List (Io × Sample F))
      → FiresSince key notified e
      → All (IsEarly key notified) es
      → ((run n e es).sent ≡ e.sent) × ((run n e es).db ≡ e.db)
  unfolding run
  run-early key notified e [] f h = (refl, refl)
  run-early key notified e ((io, s) ∷ es) f h =
      let (f', sent, db) = step-early key notified io s e f h.0 in
      let (sents, dbs) = run-early key notified (process_result n io s e) es f' h.1 in
      (sents ∙ sent, dbs ∙ db)

  -- While an alert fires, breaches that come before the cooldown since its last notification is
  -- over, however many, send nothing and write nothing.
  pub run-early_quiet :
      (key : String) (notified : ℕ) (e : Evaluator F) (es : List (Io × Sample F))
      (st : AlertState F)
      → lookup key e.states ≡ some st
      → st.state ≡ firing
      → st.notified_at ≡ some notified
      → All (IsEarly key notified) es
      → ((run n e es).sent ≡ e.sent) × ((run n e es).db ≡ e.db)
  run-early_quiet key notified e es st found fires at h =
      run-early key notified e es (st, found, fires, at) h

  -- The row of an alert that fires was acknowledged. The next reminder writes the copy that the
  -- evaluator holds, which is not acknowledged, over it: the acknowledgement is lost.
  pub reminder_loses_ack :
      (io : Io) (s : Sample F) (e : Evaluator F) (st : AlertState F) (rec : AlertRecord)
      (notified : ℕ)
      → s.breached ≡ true
      → io.update_ok ≡ true
      → lookup s.state_key e.states ≡ some st
      → st.state ≡ firing
      → st.alert_record ≡ some rec
      → rec.acked ≡ false
      → st.notified_at ≡ some notified
      → notified + s.rule.cooldown_min * 60 * second ≤ io.now
      → All
          (λ r. has_id rec.id r ≡ true → r.acked ≡ false)
          (process_result n io s (record e { db = (acknowledge_alert true rec.id e.db).0 })).db
  reminder_loses_ack io s e st rec notified breach up found fires has plain at due =
      subst (λ db. All (λ r. has_id rec.id r ≡ true → r.acked ≡ false) db)
        (sym (process_result-reminds io s acked st rec notified breach up found fires has at due))
        (All-map _ _ (λ r w hit. (w hit).1 ∙ plain) _ (written reminded acked.db))
    where
      acked : Evaluator F
      acked = record e { db = (acknowledge_alert true rec.id e.db).0 }

      reminded : AlertRecord
      reminded = record rec { notified_at = unix io.now }
