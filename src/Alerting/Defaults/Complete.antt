-- ===== src/Alerting/Defaults/Complete.antt =====
-- A start leaves no built-in rule missing, and the operator's own rules alone.
use klever_node_hub.Prelude.{
  ℕ, ◌≡◌, refl, String, Bool, true, false, ◌&&◌, ◌||◌, List, [], ◌∷◌, none, some, ◌==◌, string_eq,
  nat_eq, eq_iff, if◌then◌else◌, lookup, lookup-insert, ltb, arith, All, Bool-cases, inl, inr,
  subst, length,
}
use klever_node_hub.Alerting.Rules.{Numbers, AlertRule}
use klever_node_hub.Store.Rules.{RuleRow, RuleTable, has_row, create_rule, get_rule, rule_count}
use klever_node_hub.Alerting.Defaults.{
  default_rules, new_row, migrate_offline, migrate_stall, migrate_sync, add_missing, migrate_rules,
  create_all, ensure_defaults,
}

module _ {F : Type 0} where
  -- What a statement does to the rows of other IDs, and to whether a row is there.
  create_rule-lookup :
      (io : Bool) (now : ℕ) (row : RuleRow F) (t : RuleTable F) (id : String)
      → (row.rule.id == id) ≡ false
      → lookup id (create_rule io now row t).0 ≡ lookup id t
  unfolding create_rule
  create_rule-lookup io now row t id h =
      let created = if row.created_at == 0 then now else row.created_at in
      ground (
        arith,
        h,
        lookup-insert row.rule.id id (record row { created_at = created; updated_at = now }) t,
      )

  create_rule-keeps :
      (io : Bool) (now : ℕ) (row : RuleRow F) (t : RuleTable F) (id : String)
      → has_row id t ≡ true
      → has_row id (create_rule io now row t).0 ≡ true
  unfolding create_rule
  create_rule-keeps io now row t id h =
      let created = if row.created_at == 0 then now else row.created_at in
      ground (
        arith,
        h,
        lookup-insert row.rule.id id (record row { created_at = created; updated_at = now }) t,
      )

  create_rule-adds :
      (now : ℕ) (row : RuleRow F) (t : RuleTable F)
      → has_row row.rule.id (create_rule true now row t).0 ≡ true
  unfolding create_rule
  create_rule-adds now row t =
      let created = if row.created_at == 0 then now else row.created_at in
      ground (
        arith,
        lookup-insert row.rule.id row.rule.id
            (record row { created_at = created; updated_at = now }) t,
        eq_iff row.rule.id row.rule.id,
      )

  -- A list of rules has one with the ID.
  unfoldable pub has_rule : String → List (AlertRule F) → Bool
  has_rule id [] = false
  has_rule id (rule ∷ rules) = rule.id == id || has_rule id rules

  abbrev pub IsBuiltin : AlertRule F → Type 0
  IsBuiltin rule = rule.builtin ≡ true

module _ {F : Type 0} (n : Numbers F) (literal : ℕ → F) where
  add_one-keeps :
      (reads writes missing : Bool) (now : ℕ) (rule : AlertRule F) (t : RuleTable F) (id : String)
      → has_row id t ≡ true
      → has_row id (if missing then (create_rule writes now (new_row n literal rule) t).0 else t)
        ≡ true
  add_one-keeps reads writes missing now rule t id h =
      ground (arith, h, create_rule-keeps writes now (new_row n literal rule) t id)

  create_all-keeps :
      (writes : Bool) (now : ℕ) (rules : List (AlertRule F)) (t : RuleTable F) (id : String)
      → has_row id t ≡ true
      → has_row id (create_all n literal writes now rules t) ≡ true
  unfolding create_all
  create_all-keeps writes now [] t id h = h
  create_all-keeps writes now (rule ∷ rules) t id h =
      let row = new_row n literal rule in
      create_all-keeps writes now rules (create_rule writes now row t).0 id
        (create_rule-keeps writes now row t id h)

  add_missing-keeps :
      (reads writes : Bool) (now : ℕ) (rules : List (AlertRule F)) (t : RuleTable F) (id : String)
      → has_row id t ≡ true
      → has_row id (add_missing n literal reads writes now rules t) ≡ true
  unfolding add_missing
  add_missing-keeps reads writes now [] t id h = h
  add_missing-keeps reads writes now (rule ∷ rules) t id h =
      let missing : Bool = elim (get_rule reads rule.id t) [ none ↦ true | some row ↦ false ] in
      let b = rule.builtin && missing in
      let row = new_row n literal rule in
      add_missing-keeps reads writes now rules (if b then (create_rule writes now row t).0 else t)
        id (add_one-keeps reads writes b now rule t id h)

  add_one-adds :
      (now : ℕ) (rule : AlertRule F) (t : RuleTable F)
      → rule.builtin ≡ true
      → let missing : Bool = elim (get_rule true rule.id t) [ none ↦ true | some row ↦ false ] in
        has_row rule.id (
          if rule.builtin && missing
          then (create_rule true now (new_row n literal rule) t).0
          else t)
        ≡ true
  unfolding get_rule new_row
  add_one-adds now rule t b = ground (arith, b, create_rule-adds now (new_row n literal rule) t)

  add_missing-adds :
      (now : ℕ) (rules : List (AlertRule F)) (t : RuleTable F) (id : String)
      → All IsBuiltin rules
      → has_rule id rules ≡ true
      → has_row id (add_missing n literal true true now rules t) ≡ true
  unfolding add_missing has_rule
  add_missing-adds now [] t id bs h = absurd (ground (arith, h))
  add_missing-adds now (rule ∷ rules) t id bs h =
      let missing : Bool = elim (get_rule true rule.id t) [ none ↦ true | some row ↦ false ] in
      let t' =
        if rule.builtin && missing
        then (create_rule true now (new_row n literal rule) t).0
        else t in
      elim (Bool-cases (rule.id == id)) [
        | inl e ↦ add_missing-keeps true true now rules t' id (
            subst (λ i. has_row i t' ≡ true) ((eq_iff rule.id id).0 e)
              (add_one-adds now rule t bs.0))
        | inr e ↦ add_missing-adds now rules t' id bs.1 (ground (arith, e, h))
      ]

  default_rules-IsBuiltin : All IsBuiltin (default_rules n literal)
  unfolding default_rules
  default_rules-IsBuiltin =
      (refl, (refl, (refl, (refl, (refl, (refl, (refl, (refl, (refl, (refl, tt))))))))))

  unless_empty-keeps :
      (full : Bool) (now : ℕ) (rules : List (AlertRule F)) (t : RuleTable F) (id : String)
      → has_row id t ≡ true
      → has_row id (if full then t else create_all n literal true now rules t) ≡ true
  unless_empty-keeps true now rules t id h = h
  unless_empty-keeps false now rules t id h = create_all-keeps true now rules t id h

  -- Whatever the table held, also if an older version wrote it: after a start in which the database
  -- answers, there is a rule with the ID of each built-in rule.
  pub ensure_defaults_complete :
      (now : ℕ) (t : RuleTable F) (id : String)
      → has_rule id (default_rules n literal) ≡ true
      → has_row id (ensure_defaults n literal true true now t) ≡ true
  unfolding ensure_defaults migrate_rules rule_count
  ensure_defaults_complete now t id h =
      let t' = migrate_rules n literal true true now t in
      let here : has_row id t' ≡ true =
        add_missing-adds now (default_rules n literal)
          (migrate_sync n literal true true now
            (migrate_stall n literal true true now (migrate_offline n literal true true now t)))
          id default_rules-IsBuiltin h in
      unless_empty-keeps (ltb 0 (length t')) now (default_rules n literal) t' id here
