-- ===== src/Alerting/Regression/Once.antt =====
-- The version changes that are notified of: each once, by a notification that names it.
use klever_node_hub.Prelude.{
  ◌-◌, ◌≡◌, refl, sym, ap, ◌∙◌, String, Bool, true, false, ◌||◌, List, [], ◌∷◌, ◌++◌, Option, none,
  some, nat_eq, if◌then◌else◌, length, keep, ltb, All, inl, inr, subst,
}
use klever_node_hub.Store.Alerts.{create_alert}
use klever_node_hub.Store.Metrics.{RawRow, MetricsStore, query_recent}
use klever_node_hub.Store.Versions.{
  VersionChange, previous_change, sort_changes, is_pending, pending_evaluations, mark_rows,
  mark_evaluated,
}
use klever_node_hub.Alerting.Rules.{Numbers}
use klever_node_hub.Alerting.Process.{unix}
use klever_node_hub.Alerting.Regression.{
  Medians, NodeNames, DetectorIo, Detector, median, has_regressed, decide, raise_alert, judge,
  judge_answers, evaluate_change, evaluate_all, check, regression_min_points,
  regression_min_age_sec, regression_max_age_sec, regression_metric, regression_baseline_window_sec,
}
use klever_node_hub.Notify.Alert.{Alert}
use klever_node_hub.Alerting.Regression.{regression_message, regression_alert}
use klever_node_hub.Alerting.Regression.Rows.{
  Differs, IsDistinct, AreOpen, OpenIn, mark_rows-IsDistinct, AreOpen-mark_rows, pending-AreOpen,
}
use klever_node_hub.Alerting.Regression.Reports.{
  Told, Reports, Reports-refl, Reports-trans, Told-Reports,
}

module _ {F : Type 0} (n : Numbers F) (d : Medians F) (names : String → Option NodeNames) where
  -- What one change does to a detector: nothing, or a verdict.
  data Outcome (c : VersionChange) (s : Detector F) : Detector F → Type 0 where
    waits : Outcome c s s
    decides :
        (s' : Detector F)
        → s'.versions.rows ≡ mark_rows c.id s.versions.rows
        → Told n d names c s.sent s'.sent
        → Outcome c s s'

  raise_alert-Told :
      (io : DetectorIo) (c : VersionChange) (before after : F) (s : Detector F)
      → Told n d names c s.sent (raise_alert n d names io c before after s).sent
  unfolding raise_alert
  raise_alert-Told io c before after s = raised (create_alert _ _ _ _).1
    where
      previous : String
      previous = elim (previous_change io.previous_ok c s.versions) [
        | none ↦ ""
        | some e ↦ e.version
      ]

      warning : Alert
      warning =
          regression_alert n d names io c (regression_message n d names c previous before after)

      raised : (b : Bool) → Told n d names c s.sent (if b then s.sent ++ warning ∷ [] else s.sent)
      raised true = inr (
        warning,
        refl,
        record {
          from_node = refl;
          kind = refl;
          previous = previous;
          before = before;
          after = after;
          text = refl;
        },
      )
      raised false = inl refl

  raise_alert-versions :
      (io : DetectorIo) (c : VersionChange) (before after : F) (s : Detector F)
      → (raise_alert n d names io c before after s).versions ≡ s.versions
  unfolding raise_alert
  raise_alert-versions io c before after s = refl

  -- The detector before the change is marked.
  marked-Outcome :
      (io : DetectorIo) (c : VersionChange) (s s' : Detector F)
      → io.mark_ok ≡ true
      → s'.versions ≡ s.versions
      → Told n d names c s.sent s'.sent
      → Outcome c s (record s' { versions = (mark_evaluated io.mark_ok c.id s'.versions).0 })
  unfolding mark_evaluated
  marked-Outcome io c s s' ok same le =
      decides (record s' { versions = (mark_evaluated io.mark_ok c.id s'.versions).0 })
        (ap (λ b. (mark_evaluated b c.id s'.versions).0.rows) ok
          ∙ ap (λ v. mark_rows c.id v.rows) same)
        le

  decide-Outcome :
      (io : DetectorIo) (c : VersionChange) (before after : F) (s : Detector F)
      → io.mark_ok ≡ true
      → Outcome c s (decide n d names io c before after s)
  unfolding decide
  decide-Outcome io c before after s ok =
      elim (has_regressed n d names before after)
        as (λ b.
          let s' = if b then raise_alert n d names io c before after s else s in
          Outcome c s (record s' { versions = (mark_evaluated io.mark_ok c.id s'.versions).0 })) [
            | true ↦
                marked-Outcome io c s (raise_alert n d names io c before after s) ok
                  (raise_alert-versions io c before after s) (raise_alert-Told io c before after s)
            | false ↦ marked-Outcome io c s s ok refl (inl refl)
          ]

  judge-Outcome :
      (io : DetectorIo) (c : VersionChange) (baseline post : List (RawRow F)) (s : Detector F)
      → io.mark_ok ≡ true
      → Outcome c s (judge n d names io c baseline post s)
  unfolding judge
  judge-Outcome io c baseline post s ok =
      elim (ltb (length baseline) regression_min_points || ltb (length post) regression_min_points)
        as (λ b. Outcome c s (
          if b
          then s
          else decide n d names io c (median n d names baseline) (median n d names post) s)) [
            | true ↦ waits
            | false ↦ decide-Outcome io c (median n d names baseline) (median n d names post) s ok
          ]

  evaluate_change-Outcome :
      (io : DetectorIo) (c : VersionChange) (s : Detector F)
      → io.mark_ok ≡ true
      → Outcome c s (evaluate_change n d names io c s)
  unfolding evaluate_change judge_answers
  evaluate_change-Outcome io c s ok =
      answered
        (query_recent io.query_ok c.node_id regression_metric
          (c.detected_at - regression_baseline_window_sec) c.detected_at s.metrics)
        (query_recent io.query_ok c.node_id regression_metric c.detected_at (unix io.now) s.metrics)
    where
      answered : (o p : Option (List (RawRow F))) → Outcome c s (judge_answers n d names io c o p s)
      answered none p = waits
      answered (some baseline) none = waits
      answered (some baseline) (some post) = judge-Outcome io c baseline post s ok

  -- From one detector to another.
  abbrev pub Reported : Detector F → Detector F → Type 0
  Reported s s' = Reports n d names s.versions.rows s.sent s'.versions.rows s'.sent

  Outcome-Reported :
      (c : VersionChange) (s s' : Detector F)
      → OpenIn c s.versions.rows
      → Outcome c s s'
      → Reported s s'
  Outcome-Reported c s s' o waits = Reports-refl n d names s.versions.rows s.sent
  Outcome-Reported c s s' o (decides s'' marked told) =
      Told-Reports n d names c s.versions.rows s'.versions.rows s.sent s'.sent marked o told

  Outcome-AreOpen :
      (c : VersionChange) (cs : List VersionChange) (s s' : Detector F)
      → All (Differs c) cs
      → AreOpen cs s.versions.rows
      → Outcome c s s'
      → AreOpen cs s'.versions.rows
  Outcome-AreOpen c cs s s' ne h waits = h
  Outcome-AreOpen c cs s s' ne h (decides s'' e told) =
      subst (AreOpen cs) (sym e) (AreOpen-mark_rows c.id cs s.versions.rows ne h)

  Outcome-IsDistinct :
      (c : VersionChange) (s s' : Detector F)
      → IsDistinct s.versions.rows
      → Outcome c s s'
      → IsDistinct s'.versions.rows
  Outcome-IsDistinct c s s' h waits = h
  Outcome-IsDistinct c s s' h (decides s'' e told) =
      subst IsDistinct (sym e) (mark_rows-IsDistinct c.id s.versions.rows h)

  evaluate_all-Reported :
      (io : DetectorIo) (cs : List VersionChange) (s : Detector F)
      → io.mark_ok ≡ true
      → AreOpen cs s.versions.rows
      → IsDistinct s.versions.rows
      → let s' = evaluate_all n d names io cs s in Reported s s' × IsDistinct s'.versions.rows
  unfolding evaluate_all
  evaluate_all-Reported io [] s ok h u = (Reports-refl n d names s.versions.rows s.sent, u)
  evaluate_all-Reported io (c ∷ cs) s ok h u =
      let s' = evaluate_change n d names io c s in
      let s'' = evaluate_all n d names io cs s' in
      let o = evaluate_change-Outcome io c s ok in
      let rest =
        evaluate_all-Reported io cs s' ok (Outcome-AreOpen c cs s s' h.1 h.2 o)
          (Outcome-IsDistinct c s s' u o) in
      (
        Reports-trans n d names s.versions.rows s'.versions.rows s''.versions.rows s.sent s'.sent
            s''.sent (Outcome-Reported c s s' h.0 o) rest.0,
        rest.1,
      )

  check-Reported :
      (io : DetectorIo) (s : Detector F)
      → io.mark_ok ≡ true
      → IsDistinct s.versions.rows
      → let s' = check n d names io s in Reported s s' × IsDistinct s'.versions.rows
  unfolding check pending_evaluations
  check-Reported io s ok u =
      let pending = is_pending (unix io.now) regression_min_age_sec regression_max_age_sec in
      let cs = sort_changes (keep pending s.versions.rows) in
      elim io.list_ok
        as (λ b.
          let s' : Detector F = elim (if b then some cs else none) [
            | none ↦ s
            | some changes ↦ evaluate_all n d names io changes s
          ] in
          Reported s s' × IsDistinct s'.versions.rows) [
            | true ↦
                evaluate_all-Reported io cs s ok
                  (pending-AreOpen (unix io.now) regression_min_age_sec regression_max_age_sec
                    s.versions.rows u)
                  u
            | false ↦ (Reports-refl n d names s.versions.rows s.sent, u)
          ]

  -- The checks over time, each with the metrics that there are then.
  unfoldable pub run : List (DetectorIo × MetricsStore F) → Detector F → Detector F
  run [] s = s
  run ((io, metrics) ∷ rest) s = run rest (check n d names io (record s { metrics = metrics }))

  -- Over any number of checks, with any metrics, if the row IDs differ and marking a change as judged
  -- does not fail: the notifications that the detector sends are, one by one, of version changes with
  -- different IDs. Each of these is a row that was still to be judged before the checks and is judged
  -- after them, and its notification has the change's node as its source and the message that the
  -- detector makes of the change.
  pub run-Reported :
      (checks : List (DetectorIo × MetricsStore F)) (s : Detector F)
      → All (λ c. c.0.mark_ok ≡ true) checks
      → IsDistinct s.versions.rows
      → Reported s (run checks s)
  unfolding run
  run-Reported [] s ok u = Reports-refl n d names s.versions.rows s.sent
  run-Reported ((io, metrics) ∷ rest) s ok u =
      let s' = check n d names io (record s { metrics = metrics }) in
      let s'' = run rest s' in
      let c = check-Reported io (record s { metrics = metrics }) ok.0 u in
      Reports-trans n d names s.versions.rows s'.versions.rows s''.versions.rows s.sent s'.sent
        s''.sent c.0 (run-Reported rest s' ok.1 c.1)
