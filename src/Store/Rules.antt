-- ===== src/Store/Rules.antt =====
-- internal/store/alert_store.go: the table `alert_rules`, by its primary key. `io` says whether the
-- database executes a statement; a statement that it refuses changes nothing and is an error. Times
-- are seconds since 1970. Scanning a row gives back the record that was written.
use Prim.Native.Nat.{Ordering}
use Prim.Native.String.{compare}
use klever_node_hub.Prelude.{
  ℕ, String, Bool, true, false, not, ◌&&◌, List, [], ◌∷◌, Option, none, some, Map, lookup, insert,
  delete, ◌==◌, string_eq, nat_eq, if◌then◌else◌, length,
}
use klever_node_hub.Alerting.Rules.{AlertRule}

-- The record AlertRule with its last two fields.
pub record RuleRow (F : Type 0) : Type 0 where
  pub rule : AlertRule F
  pub created_at : ℕ
  pub updated_at : ℕ

abbrev pub RuleTable : Type 0 → Type 0
RuleTable F = Map String (RuleRow F)

module _ {F : Type 0} where
  abbrev pub has_row : String → RuleTable F → Bool
  has_row id t = elim (lookup id t) [ none ↦ false | some row ↦ true ]

  -- CreateRule; the primary key refuses a second row with the ID.
  unfoldable pub create_rule : Bool → ℕ → RuleRow F → RuleTable F → RuleTable F × Bool
  create_rule io now row t =
      let created = if row.created_at == 0 then now else row.created_at in
      if io && not (has_row row.rule.id t)
      then (insert row.rule.id (record row { created_at = created; updated_at = now }) t, true)
      else (t, false)

  -- The columns that UpdateRule sets: neither `builtin` nor `created_at`.
  abbrev pub updated : ℕ → AlertRule F → RuleRow F → RuleRow F
  updated now rule row = record {
    rule = record rule { id = row.rule.id; builtin = row.rule.builtin };
    created_at = row.created_at;
    updated_at = now;
  }

  unfoldable pub update_rule : Bool → ℕ → AlertRule F → RuleTable F → RuleTable F × Bool
  update_rule io now rule t = elim (lookup rule.id t) [
    | none ↦ (t, false)
    | some row ↦ if io then (insert rule.id (updated now rule row) t, true) else (t, false)
  ]

  unfoldable pub delete_rule : Bool → String → RuleTable F → RuleTable F × Bool
  delete_rule io id t = if io && has_row id t then (delete id t, true) else (t, false)

  unfoldable pub get_rule : Bool → String → RuleTable F → Option (RuleRow F)
  get_rule io id t = if io then lookup id t else none

  -- ORDER BY name
  abbrev pub is_before : RuleRow F → RuleRow F → Bool
  is_before r q = elim (compare q.rule.name r.rule.name) [ Ordering.lt ↦ false | _ ↦ true ]

  unfoldable pub insert_by_name : RuleRow F → List (RuleRow F) → List (RuleRow F)
  insert_by_name r [] = r ∷ []
  insert_by_name r (q ∷ qs) =
      let rest = insert_by_name r qs in if is_before r q then r ∷ q ∷ qs else q ∷ rest

  unfoldable pub by_name : RuleTable F → List (RuleRow F)
  unfolding insert_by_name
  by_name [] = []
  by_name ((id, row) ∷ t) = insert_by_name row (by_name t)

  unfoldable pub enabled_rows : RuleTable F → RuleTable F
  enabled_rows [] = []
  enabled_rows ((id, row) ∷ t) =
      let rest = enabled_rows t in if row.rule.enabled then (id, row) ∷ rest else rest

  unfoldable pub list_rules : Bool → RuleTable F → Option (List (RuleRow F))
  unfolding by_name
  list_rules io t = if io then some (by_name t) else none

  unfoldable pub list_enabled_rules : Bool → RuleTable F → Option (List (RuleRow F))
  unfolding by_name enabled_rows
  list_enabled_rules io t = if io then some (by_name (enabled_rows t)) else none

  unfoldable pub rule_count : Bool → RuleTable F → Option ℕ
  rule_count io t = if io then some (length t) else none
