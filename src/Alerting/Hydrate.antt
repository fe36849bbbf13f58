-- ===== src/Alerting/Hydrate.antt =====
-- internal/dashboard/alerting/evaluator.go, hydrateFromDB: after a restart the evaluator takes over
-- the alerts that the database has as active.
use klever_node_hub.Prelude.{
  ℕ, ◌⊎◌, sym, ap, ◌∙◌, All-map, ◌≡◌, refl, String, Bool, true, false, not, List, [], ◌∷◌, Option,
  none, some, Map, lookup, insert, ◌==◌, string_eq, if◌then◌else◌, All, lookup-insert, eq_iff,
  arith, keep, ltb, Bool-cases, inl, inr, subst,
}
use klever_node_hub.Store.Alerts.{
  AlertRecord, Table, firing, is_active_row, list_active_alerts, newest_first,
}
use klever_node_hub.Store.Alerts.Order.{newest_first-All, All-newest_first}
use klever_node_hub.Alerting.Rules.{Numbers, sprint}
use klever_node_hub.Alerting.Process.{AlertState, Evaluator, from_unix}
pub mod Tests

-- The state key of an alert; `none` if it has no target.
abbrev pub key_of : AlertRecord → Option String
key_of a =
    if not (a.node_id == "")
    then some (sprint (a.rule_id ∷ ":" ∷ a.node_id ∷ []))
    else if not (a.server_id == "")
    then some (sprint (a.rule_id ∷ ":server:" ∷ a.server_id ∷ []))
    else none

-- A row of a listing.
pub data In (a : AlertRecord) : Table → Type 0 where
  here : {rows : Table} → In a (a ∷ rows)
  there : {b : AlertRecord} {rows : Table} → In a rows → In a (b ∷ rows)

all_In : (rows : Table) → All (λ a. In a rows) rows
all_In [] = tt
all_In (r ∷ rows) =
    (here, All-map (λ a. In a rows) (λ a. In a (r ∷ rows)) (λ a m. there m) rows (all_In rows))

module _ {F : Type 0} (n : Numbers F) where
  abbrev pub hydrated : AlertRecord → AlertState F
  hydrated a = record {
    rule_id = a.rule_id;
    node_id = a.node_id;
    server_id = a.server_id;
    first_seen = from_unix a.fired_at;
    last_seen = from_unix a.created_at;
    last_value = n.zero;
    state = firing;
    notified_at = some (from_unix a.notified_at);
    alert_record = some a;
  }

  insert_if : Option String → AlertState F → Map String (AlertState F) → Map String (AlertState F)
  insert_if none st states = states
  insert_if (some key) st states = insert key st states

  -- The loop over the alerts.
  unfoldable pub hydrate_over : Table → Map String (AlertState F) → Map String (AlertState F)
  unfolding insert_if
  hydrate_over [] states = states
  hydrate_over (a ∷ rows) states = hydrate_over rows (insert_if (key_of a) (hydrated a) states)

  unfoldable pub hydrate_from_db : Bool → Evaluator F → Evaluator F
  unfolding hydrate_over
  hydrate_from_db io e = elim (list_active_alerts io e.db) [
    | none ↦ e
    | some rows ↦ record e { states = hydrate_over rows e.states }
  ]

  -- The entry fires, and holds one of the alerts of a listing, with this key.
  pub record Holds (listed : Table) (key : String) (found : Option (AlertState F)) : Type 0 where
    pub st : AlertState F
    pub rec : AlertRecord
    pub entry : found ≡ some st
    pub fires : st.state ≡ firing
    pub alert : st.alert_record ≡ some rec
    pub own : key_of rec ≡ some key
    pub in_listing : In rec listed
    pub target :
        (st.rule_id ≡ rec.rule_id) × (st.node_id ≡ rec.node_id) × (st.server_id ≡ rec.server_id)
    pub notified : st.notified_at ≡ some (from_unix rec.notified_at)

  hydrated-Holds :
      (listed : Table) (key : String) (a : AlertRecord)
      → key_of a ≡ some key
      → In a listed
      → Holds listed key (some (hydrated a))
  hydrated-Holds listed key a own member = record {
    st = hydrated a;
    rec = a;
    entry = refl;
    fires = refl;
    alert = refl;
    own = own;
    in_listing = member;
    target = (refl, refl, refl);
    notified = refl;
  }

  insert_if-Holds :
      (listed : Table) (key : String) (a : AlertRecord) (o : Option String)
      (states : Map String (AlertState F))
      → key_of a ≡ o
      → In a listed
      → (o ≡ some key) ⊎ Holds listed key (lookup key states)
      → Holds listed key (lookup key (insert_if o (hydrated a) states))
  unfolding insert_if
  insert_if-Holds listed key a none states own member (inl e) = absurd (ground (arith, e))
  insert_if-Holds listed key a none states own member (inr h) = h
  insert_if-Holds listed key a (some k) states own member h = elim (Bool-cases (k == key)) [
    | inl same ↦
        subst (Holds listed key)
          (sym (placed ∙ ap (λ b. if b then some (hydrated a) else lookup key states) same))
          (hydrated-Holds listed key a (own ∙ ap some ((eq_iff k key).0 same)) member)
    | inr other ↦
        subst (Holds listed key)
          (sym (placed ∙ ap (λ b. if b then some (hydrated a) else lookup key states) other))
          (elim h [ inl e ↦ absurd (ground (arith, e, eq_iff k key, other)) | inr kept ↦ kept ])
  ]
    where
      placed :
          lookup key (insert k (hydrated a) states)
          ≡ (if k == key then some (hydrated a) else lookup key states)
      placed = lookup-insert k key (hydrated a) states

  hydrate_over-Holds :
      (listed : Table) (key : String) (rows : Table) (states : Map String (AlertState F))
      → All (λ a. In a listed) rows
      → Holds listed key (lookup key states)
      → Holds listed key (lookup key (hydrate_over rows states))
  unfolding hydrate_over
  hydrate_over-Holds listed key [] states member h = h
  hydrate_over-Holds listed key (a ∷ rows) states member h =
      hydrate_over-Holds listed key rows (insert_if (key_of a) (hydrated a) states) member.1
        (insert_if-Holds listed key a (key_of a) states refl member.0 (inr h))

  -- The entry of the alert's key, if it has one.
  abbrev pub IsTaken : Table → Map String (AlertState F) → AlertRecord → Type 0
  IsTaken listed states a =
      (key : String) → key_of a ≡ some key → Holds listed key (lookup key states)

  hydrate_over-takes :
      (listed rows : Table) (states : Map String (AlertState F))
      → All (λ a. In a listed) rows
      → All (IsTaken listed (hydrate_over rows states)) rows
  unfolding hydrate_over
  hydrate_over-takes listed [] states member = tt
  hydrate_over-takes listed (a ∷ rows) states member =
      let states' = insert_if (key_of a) (hydrated a) states in
      (
        λ key own.
            hydrate_over-Holds listed key rows states' member.1
              (insert_if-Holds listed key a (key_of a) states refl member.0 (inl own)),
        hydrate_over-takes listed rows states' member.1,
      )

  -- After a restart at which the database answers, each active alert of the database that has a
  -- target has an entry under its key that fires. That entry holds, as its alert, one of the active
  -- alerts of the database with the same key, and has its rule, target and last notification.
  pub hydrate_from_db-takes :
      (e : Evaluator F)
      → let active = keep is_active_row e.db in
        All (IsTaken active (hydrate_from_db true e).states) active
  unfolding hydrate_from_db list_active_alerts
  hydrate_from_db-takes e =
      let active = keep is_active_row e.db in
      let rows = newest_first active in
      newest_first-All (IsTaken active (hydrate_over rows e.states)) active (
        hydrate_over-takes active rows e.states
          (All-newest_first (λ a. In a active) active (all_In active)))
