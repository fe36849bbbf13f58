-- ===== src/Store/Alerts/Active.antt =====
-- At most one active alert for a rule and what it watches.
use klever_node_hub.Prelude.{
  ℕ, ◌≡◌, refl, ◌≢◌, ◌⊎◌, inl, inr, Bool, true, false, not, ◌&&◌, ◌||◌, [], ◌∷◌, ◌++◌, Option, none,
  some, ◌==◌, string_eq, nat_eq, arith, eq_iff, All, All-append, if◌then◌else◌, Bool-cases,
}
use klever_node_hub.Store.Alerts.{
  Table, AlertRecord, is_active, is_active_row, find_row, update_rows, is_for_node, is_for_server,
  has_id, id_eq, overwrite, update_alert, create_alert, add_row, stamp, resolved,
}

-- Both are active, for one rule and one node, or for one rule, no node and one server.
abbrev pub clash : AlertRecord → AlertRecord → Bool
clash r s =
    is_active_row r
    && is_active_row s
    && r.rule_id == s.rule_id
    && r.node_id == s.node_id
    && (not (s.node_id == "") || r.server_id == s.server_id)

abbrev pub OneActive : Table → Type 0
OneActive [] = Unit
OneActive (r ∷ rs) = All (λ s. clash r s ≡ false) rs × OneActive rs

pub append-OneActive :
    (db : Table) (new : AlertRecord)
    → OneActive db
    → All (λ r. clash r new ≡ false) db
    → OneActive (db ++ new ∷ [])
append-OneActive [] new o h = (tt, tt)
append-OneActive (r ∷ rs) new o h =
    (All-append _ rs (new ∷ []) o.0 (h.0, tt), append-OneActive rs new o.1 h.1)

-- `r'` is for whom `r` is, and is active only if `r` is.
pub record Calmer (r r' : AlertRecord) : Type 0 where
  pub same_rule : r'.rule_id ≡ r.rule_id
  pub same_node : r'.node_id ≡ r.node_id
  pub same_server : r'.server_id ≡ r.server_id
  pub calm : is_active r'.state ≡ true → is_active r.state ≡ true

clash-Calmer :
    (r r' s s' : AlertRecord) → Calmer r r' → Calmer s s' → clash r s ≡ false → clash r' s' ≡ false
clash-Calmer r r' s s' cr cs h =
    rw (cr.same_rule, cr.same_node, cr.same_server, cs.same_rule, cs.same_node, cs.same_server)
      (ground (arith, cr.calm, cs.calm))

module _ (p : AlertRecord → Bool) (f : AlertRecord → AlertRecord) where
  abbrev Calms : AlertRecord → Type 0
  Calms r = Calmer r (if p r then f r else r)

  All-clash :
      (r r' : AlertRecord) (rs : Table)
      → Calmer r r'
      → All Calms rs
      → All (λ s. clash r s ≡ false) rs
      → All (λ s. clash r' s ≡ false) (update_rows p f rs)
  unfolding update_rows
  All-clash r r' [] c cs h = tt
  All-clash r r' (s ∷ rs) c cs h = (clash-Calmer r r' s _ c cs.0 h.0, All-clash r r' rs c cs.1 h.1)

  pub update_rows-OneActive :
      (db : Table)
      → All (λ r. Calmer r (if p r then f r else r)) db
      → OneActive db
      → OneActive (update_rows p f db)
  unfolding update_rows
  update_rows-OneActive [] c o = tt
  update_rows-OneActive (r ∷ rs) c o =
      (All-clash r _ rs c.0 c.1 o.0, update_rows-OneActive rs c.1 o.1)

-- No row with the record's id is resolved.
abbrev pub IsTracked : AlertRecord → Table → Type 0
IsTracked rec db = All (λ r. has_id rec.id r ≡ true → is_active_row r ≡ true) db

overwrite-Calmer :
    (rec : AlertRecord) (db : Table)
    → (rec.state ≡ resolved) ⊎ IsTracked rec db
    → All (λ r. Calmer r (if has_id rec.id r then overwrite rec r else r)) db
overwrite-Calmer rec [] t = tt
overwrite-Calmer rec (r ∷ rs) (inl done) = (
  elim (Bool-cases (has_id rec.id r)) [
    | inl hit ↦
        rw hit
          (record { same_rule = refl; same_node = refl; same_server = refl; calm = ground arith })
    | inr miss ↦
        rw miss (record { same_rule = refl; same_node = refl; same_server = refl; calm = λ h. h })
  ],
  overwrite-Calmer rec rs (inl done),
)
overwrite-Calmer rec (r ∷ rs) (inr t) = (
  elim (Bool-cases (has_id rec.id r)) [
    | inl hit ↦
        rw hit
          (record { same_rule = refl; same_node = refl; same_server = refl; calm = λ h. t.0 hit })
    | inr miss ↦
        rw miss (record { same_rule = refl; same_node = refl; same_server = refl; calm = λ h. h })
  ],
  overwrite-Calmer rec rs (inr t.1),
)

-- Writing back a resolved record, or one whose row is still active, keeps the table sound.
pub update_alert-OneActive :
    (io : Bool) (rec : AlertRecord) (db : Table)
    → (rec.state ≡ resolved) ⊎ IsTracked rec db
    → OneActive db
    → OneActive (update_alert io rec db).0
unfolding update_alert
update_alert-OneActive false rec db t o = o
update_alert-OneActive true rec db t o =
    update_rows-OneActive (has_id rec.id) (overwrite rec) db (overwrite-Calmer rec db t) o

-- No active row is for the same rule and target as the record.
abbrev pub IsFree : AlertRecord → Table → Type 0
IsFree rec db = All (λ r. clash r rec ≡ false) db

pub find_node-IsFree :
    (rec : AlertRecord) (db : Table)
    → rec.node_id ≢ ""
    → find_row (is_for_node rec.rule_id rec.node_id) db ≡ none
    → IsFree rec db
unfolding find_row
find_node-IsFree rec [] n h = tt
find_node-IsFree rec (r ∷ rs) n h =
    (ground (arith, n, eq_iff rec.node_id ""), find_node-IsFree rec rs n (ground arith))

pub find_server-IsFree :
    (rec : AlertRecord) (db : Table)
    → rec.node_id ≡ ""
    → find_row (is_for_server rec.rule_id rec.server_id) db ≡ none
    → IsFree rec db
unfolding find_row
find_server-IsFree rec [] n h = tt
find_server-IsFree rec (r ∷ rs) n h = (
  ground (arith, eq_iff r.node_id rec.node_id, eq_iff r.node_id "", eq_iff rec.node_id ""),
  find_server-IsFree rec rs n (ground arith),
)

stamp-IsFree :
    (rec : AlertRecord) (now : ℕ) (db : Table) → IsFree rec db → IsFree (stamp rec now) db
stamp-IsFree rec now db free = elim (Bool-cases (rec.created_at == 0)) [
  | inl unset ↦ rw unset free
  | inr set ↦ rw set free
]

add_row-OneActive :
    (rec : AlertRecord) (db : Table) (o : Option AlertRecord)
    → IsFree rec db
    → OneActive db
    → OneActive (add_row rec db o).0
unfolding add_row
add_row-OneActive rec db none free h = append-OneActive db rec h free
add_row-OneActive rec db (some r) free h = h

pub create_alert-OneActive :
    (io : Bool) (now : ℕ) (rec : AlertRecord) (db : Table)
    → IsFree rec db
    → OneActive db
    → OneActive (create_alert io now rec db).0
unfolding create_alert
create_alert-OneActive false now rec db free o = o
create_alert-OneActive true now rec db free o =
    add_row-OneActive (stamp rec now) db _ (stamp-IsFree rec now db free) o
