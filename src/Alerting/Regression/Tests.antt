-- ===== src/Alerting/Regression/Tests.antt =====
-- A node whose blocks take three times as long after its upgrade.
use klever_node_hub.Prelude.{
  ℕ, zero, suc, ◌+◌, ◌-◌, ◌*◌, ◌/◌, ◌≡◌, refl, String, true, false, List, [], ◌∷◌, ◌++◌, Option,
  none, length, ltb, keep,
}
use klever_node_hub.Store.Alerts.{create_alert}
use klever_node_hub.Store.Metrics.{RawRow, MetricsStore, query_recent}
use klever_node_hub.Store.Versions.{
  VersionChange, pending_evaluations, previous_change, mark_evaluated,
}
use klever_node_hub.Alerting.Defaults.Tests.{whole_numbers}
use klever_node_hub.Alerting.Regression.{
  Medians, NodeNames, DetectorIo, Detector, regression_metric, check, evaluate_all, evaluate_change,
  judge, judge_answers, decide, median, sort_values, raise_alert, regression_message,
}
use klever_node_hub.Alerting.Regression.Once.{Reported, run, run-Reported}

abbrev whole_medians : Medians ℕ
whole_medians = record {
  less = ltb;
  midway = λ a b. (a + b) / 2;
  ratio = λ a. a * 3 / 2;
  minus = λ a b. a - b;
  abs_ms = 30;
  percent = λ a b. (b - a) * 100 / a;
}

abbrev no_names : String → Option NodeNames
no_names id = none

-- Some points a second apart.
points : ℕ → ℕ → ℕ → List (RawRow ℕ)
points zero value at = []
points (suc k) value at =
    record {
      node_id = "a";
      server_id = "s";
      metric_name = regression_metric;
      metric_value = value;
      collected_at = at;
    }
    ∷ points k value (at + 1)

abbrev upgrade : VersionChange
upgrade = record {
  id = 1;
  node_id = "a";
  server_id = "s";
  version = "v2";
  detected_at = 1000;
  evaluated = false;
}

abbrev slower : MetricsStore ℕ
slower = record { recent = points 20 40 500 ++ points 20 120 1001; archive = [] }

abbrev detector : Detector ℕ
detector = record {
  versions = record { rows = upgrade ∷ []; next_id = 2 };
  metrics = slower;
  db = [];
  sent = [];
  id_counter = 0;
}

abbrev working : DetectorIo
working = record {
  now = 50000 * 1000000000;
  list_ok = true;
  query_ok = true;
  previous_ok = true;
  create_ok = true;
  mark_ok = true;
}

run-Reported_example :
    Reported whole_numbers whole_medians no_names detector (
      run whole_numbers whole_medians no_names
        ((working, slower) ∷ (working, slower) ∷ [])
        detector)
run-Reported_example =
    run-Reported whole_numbers whole_medians no_names ((working, slower) ∷ (working, slower) ∷ [])
      detector (refl, (refl, tt)) (tt, tt)

one_warning :
    length
      (run whole_numbers whole_medians no_names
        ((working, slower) ∷ (working, slower) ∷ [])
        detector).sent
    ≡ 1
unfolding run check pending_evaluations evaluate_all evaluate_change judge judge_answers decide
    median sort_values raise_alert regression_message points query_recent mark_evaluated
    create_alert keep previous_change
one_warning = refl
