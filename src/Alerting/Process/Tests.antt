-- ===== src/Alerting/Process/Tests.antt =====
-- A rule that must be breached for ten seconds, over values that are natural numbers.
use klever_node_hub.Prelude.{
  ℕ, ◌-◌, ◌*◌, String, ◌≡◌, refl, ◌≢◌, inl, Bool, true, false, List, [], ◌∷◌, some, ltb, leb,
  nat_beq, arith, lookup, All, subst, sym, ◌∙◌, string_eq,
}
use mathlib.Core.Option.{some-injective}
use klever_node_hub.Store.Alerts.{AlertRecord, firing, alert_id, has_id, acknowledge_alert}
use klever_node_hub.Store.Alerts.Active.{OneActive}
use klever_node_hub.Alerting.Rules.{Numbers, AlertRule, gt}
use klever_node_hub.Alerting.Process.{Io, Sample, AlertState, Evaluator, second, process_result}
use klever_node_hub.Alerting.Process.Lifecycle.{run, phase, phase_step, breaching, Shows, run-Shows}
use klever_node_hub.Alerting.Process.Dedup.{IsSound, process_result-OneActive}
use klever_node_hub.Alerting.Process.Recovery.{IsOver, process_result-recovers}
use klever_node_hub.Alerting.Process.Outcomes.{run-early_quiet, reminder_loses_ack}

abbrev naturals : Numbers ℕ
naturals = record {
  zero = 0;
  one = 1;
  above = λ a b. ltb b a;
  below = ltb;
  same = nat_beq;
  at_least = λ a b. leb b a;
  difference = λ a b. a - b;
  of_seconds = λ a. a;
  whole = λ a. a;
  format_0 = λ a. "n";
  format_1 = λ a. "n";
}

abbrev busy : AlertRule ℕ
busy = record {
  id = "busy";
  name = "Busy";
  enabled = true;
  metric_name = "load";
  condition = gt;
  threshold = 90;
  duration_sec = 10;
  severity = "warning";
  node_filter = "*";
  cooldown_min = 1;
  builtin = false;
}

abbrev at_second : ℕ → Io
at_second t = record { now = t * second; query_ok = true; create_ok = true; update_ok = true }

abbrev result : ℕ → Bool → Sample ℕ
result value breached = record {
  rule = busy;
  state_key = "busy:n1";
  node_id = "n1";
  server_id = "s1";
  source = "node:one";
  value = value;
  breached = breached;
}

abbrev idle : Evaluator ℕ
idle = record { states = []; db = []; sent = []; id_counter = 0 }

abbrev long_breach : List (Io × Sample ℕ)
long_breach =
    (at_second 5, result 95 true)
    ∷ (at_second 10, result 96 true)
    ∷ (at_second 20, result 97 true)
    ∷ []

run-Shows_example :
    Shows naturals
      (breaching (5 * second) true)
      (lookup "busy:n1" (run naturals idle long_breach).states)
unfolding phase phase_step
run-Shows_example = run-Shows naturals idle long_breach "busy:n1" (unfold lookup in refl)

abbrev alert : AlertRecord
alert = record {
  id = alert_id (20 * second) 0;
  rule_id = "busy";
  rule_name = "Busy";
  node_id = "n1";
  server_id = "s1";
  severity = "warning";
  state = firing;
  message = "";
  fired_at = 20;
  resolved_at = 0;
  notified_at = 20;
  acked = false;
  created_at = 20;
}

abbrev alarmed_state : AlertState ℕ
alarmed_state = record {
  rule_id = "busy";
  node_id = "n1";
  server_id = "s1";
  first_seen = 5 * second;
  last_seen = 20 * second;
  last_value = 97;
  state = firing;
  notified_at = some (20 * second);
  alert_record = some alert;
}

abbrev alarmed : Evaluator ℕ
alarmed = record {
  states = ("busy:n1", alarmed_state) ∷ [];
  db = alert ∷ [];
  sent = [];
  id_counter = 1;
}

alarmed_lookup : lookup "busy:n1" alarmed.states ≡ some alarmed_state
unfolding lookup
alarmed_lookup = refl

alarmed-IsSound :
    (st : AlertState ℕ) → lookup "busy:n1" alarmed.states ≡ some st → IsSound st alarmed.db
alarmed-IsSound st h =
    subst (λ st. IsSound st alarmed.db) (some-injective _ _ (sym alarmed_lookup ∙ h))
      (record { target = inl named; tracks = (λ _. refl, tt) })
  where
    named : ◌≢◌ {A = String} "n1" ""
    named h = cc

process_result-OneActive_example :
    OneActive (process_result naturals (at_second 90) (result 95 true) alarmed).db
process_result-OneActive_example =
    process_result-OneActive naturals (at_second 90) (result 95 true) alarmed refl (inl named)
      alarmed-IsSound (tt, tt)
  where
    named : ◌≢◌ {A = String} "n1" ""
    named h = cc

process_result-recovers_example :
    let after = process_result naturals (at_second 30) (result 50 false) alarmed in
    IsOver naturals (at_second 30) "node:one" (some alert) (alert ∷ [], []) (after.db, after.sent)
unfolding lookup
process_result-recovers_example =
    (process_result-recovers naturals (at_second 30) (result 50 false) alarmed "busy:n1" refl).1

run-early_quiet_example : (run naturals alarmed ((at_second 30, result 98 true) ∷ [])).sent ≡ []
run-early_quiet_example =
    (run-early_quiet naturals "busy:n1" (20 * second) alarmed ((at_second 30, result 98 true) ∷ [])
      alarmed_state alarmed_lookup refl refl
      (record { own = refl; breach = refl; early = omega arith }, tt)).0

reminder_loses_ack_example :
    All
      (λ r. has_id (alert_id (20 * second) 0) r ≡ true → r.acked ≡ false)
      (process_result naturals
        (at_second 90)
        (result 98 true)
        (record alarmed { db = (acknowledge_alert true alert.id alarmed.db).0 })).db
reminder_loses_ack_example =
    reminder_loses_ack naturals (at_second 90) (result 98 true) alarmed alarmed_state alert
      (20 * second) refl refl alarmed_lookup refl refl refl refl (omega arith)
