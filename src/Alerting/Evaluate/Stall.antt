-- ===== src/Alerting/Evaluate/Stall.antt =====
-- What counts as a stall, and which nodes a status rule leaves alone.
use klever_node_hub.Prelude.{
  ℕ, ◌≡◌, refl, sym, ap, ◌∙◌, Bool, true, false, not, ◌&&◌, ◌||◌, List, [], ◌∷◌, ◌==◌, string_eq,
  nat_eq, if◌then◌else◌, arith, keep,
}
use klever_node_hub.Alerting.Rules.{Numbers, AlertRule}
use klever_node_hub.Alerting.Process.{Io, Evaluator, process_result}
use klever_node_hub.Alerting.Evaluate.{
  Node, Point, filtered_out, last_change, evaluate_node_status_rule, node_sample,
}

module _ {F : Type 0} (n : Numbers F) where
  -- The points at the head of the list that have the value.
  unfoldable pub same_run : F → List (Point F) → List (Point F)
  same_run value [] = []
  same_run value (p ∷ ps) =
      let rest = same_run value ps in if n.same p.value value then p ∷ rest else []

  unfoldable pub oldest : ℕ → List (Point F) → ℕ
  oldest at [] = at
  oldest at (p ∷ ps) = oldest p.collected_at ps

  -- The stall is counted from the oldest point of the newest run of equal values.
  last_change_lem :
      (value : F) (at : ℕ) (ps : List (Point F))
      → last_change n value at ps ≡ oldest at (same_run value ps)
  unfolding last_change same_run oldest
  last_change_lem value at [] = refl
  last_change_lem value at (p ∷ ps) = ground (arith, last_change_lem value p.collected_at ps)

  -- A node in maintenance is left out.
  abbrev pub is_watched : AlertRule F → Node → Bool
  is_watched rule node = not (filtered_out rule node) && not node.maintenance

  judged : Io → AlertRule F → Node → Evaluator F → Evaluator F
  judged io rule node e =
      let breached = not (node.status == "running") && not (node.status == "") in
      let value = if breached then n.one else n.zero in
      process_result n io (node_sample n rule node value breached) e

  -- Both sides of the theorem after one node, by whether the node is left out.
  add_node :
      (c : Bool) (io : Io) (rule : AlertRule F) (node : Node) (nodes kept : List Node)
      (e : Evaluator F)
      → c ≡ (filtered_out rule node || node.maintenance)
      → ((d : Evaluator F)
          → evaluate_node_status_rule n io rule nodes d
            ≡ evaluate_node_status_rule n io rule kept d)
      → evaluate_node_status_rule n io rule nodes (if c then e else judged io rule node e)
        ≡ evaluate_node_status_rule n io rule (if not c then node ∷ kept else kept) e
  unfolding evaluate_node_status_rule judged
  add_node true io rule node nodes kept e h same = same e
  add_node false io rule node nodes kept e h same =
      same (judged io rule node e)
      ∙ ap (λ c. evaluate_node_status_rule n io rule kept (if c then e else judged io rule node e))
          h

  watched_lem : (a b : Bool) → (not a && not b) ≡ not (a || b)
  watched_lem true b = refl
  watched_lem false b = refl

  -- A status rule changes the same as if the nodes that its filter leaves out, and those that were
  -- stopped for maintenance, were not there: they neither fire nor resolve anything.
  pub evaluate_node_status_rule-keep :
      (io : Io) (rule : AlertRule F) (nodes : List Node) (e : Evaluator F)
      → evaluate_node_status_rule n io rule nodes e
        ≡ evaluate_node_status_rule n io rule (keep (is_watched rule) nodes) e
  unfolding evaluate_node_status_rule keep judged
  evaluate_node_status_rule-keep io rule [] e = refl
  evaluate_node_status_rule-keep io rule (node ∷ nodes) e =
      let kept = keep (is_watched rule) nodes in
      add_node (filtered_out rule node || node.maintenance) io rule node nodes kept e refl
        (λ d. evaluate_node_status_rule-keep io rule nodes d)
      ∙ ap (λ c. evaluate_node_status_rule n io rule (if c then node ∷ kept else kept) e)
          (sym (watched_lem (filtered_out rule node) node.maintenance))
