-- ===== src/Store/Alerts.antt =====
-- internal/store/alert_store.go: the table `alerts`, as a list of rows. `io` says whether the
-- database executes a statement; a statement that it refuses changes nothing and is an error. A
-- query with `LIMIT 1` and no order takes the first row.
pub mod Active
pub mod Order
use klever_node_hub.Prelude.{
  ℕ, ◌-◌, ◌/◌, String, ◌↔◌, ◌≡◌, Bool, true, false, not, ◌&&◌, List, [], ◌∷◌, ◌++◌, map, Option,
  none, some, Eq, ◌==◌, nat_eq, string_eq, nat_beq, keep, length, ltb, if◌then◌else◌, arith, eq_iff,
  nat_beq_iff,
}

-- The texts `alert-<nanoseconds>-<counter>` and `regression-<nanoseconds>-<counter>` are given by
-- their numbers; `other_text` is any other text that a request may name.
pub data AlertId : Type 0 where
  alert_id : ℕ → ℕ → AlertId
  regression_id : ℕ → ℕ → AlertId
  other_text : String → AlertId

abbrev pub id_beq : AlertId → AlertId → Bool
id_beq (alert_id t n) (alert_id u m) = t == u && n == m
id_beq (regression_id t n) (regression_id u m) = t == u && n == m
id_beq (other_text s) (other_text t) = s == t
id_beq _ _ = false

pub id_beq_iff : (a b : AlertId) → (id_beq a b ≡ true) ↔ (a ≡ b)
id_beq_iff (alert_id t n) (alert_id u m) = ground (arith, nat_beq_iff t u, nat_beq_iff n m)
id_beq_iff (regression_id t n) (regression_id u m) =
    ground (arith, nat_beq_iff t u, nat_beq_iff n m)
id_beq_iff (other_text s) (other_text t) = ground (arith, eq_iff s t)
id_beq_iff (alert_id t n) (regression_id u m) = ground arith
id_beq_iff (alert_id t n) (other_text s) = ground arith
id_beq_iff (regression_id t n) (alert_id u m) = ground arith
id_beq_iff (regression_id t n) (other_text s) = ground arith
id_beq_iff (other_text s) (alert_id u m) = ground arith
id_beq_iff (other_text s) (regression_id u m) = ground arith

instance abbrev pub id_eq : Eq AlertId
id_eq = record { same = id_beq; same_iff = id_beq_iff }

-- The texts "pending", "firing" and "resolved".
pub data State : Type 0 where
  pending firing resolved : State

pub record AlertRecord : Type 0 where
  pub id : AlertId
  pub rule_id : String
  pub rule_name : String
  pub node_id : String
  pub server_id : String
  pub severity : String
  pub state : State
  pub message : String
  pub fired_at : ℕ
  pub resolved_at : ℕ
  pub notified_at : ℕ
  pub acked : Bool
  pub created_at : ℕ

abbrev pub Table : Type 0
Table = List AlertRecord

-- `state IN ('pending', 'firing')`
abbrev pub is_active : State → Bool
is_active pending = true
is_active firing = true
is_active resolved = false

-- The first row that satisfies a WHERE clause.
unfoldable pub find_row : (AlertRecord → Bool) → Table → Option AlertRecord
find_row p [] = none
find_row p (r ∷ rs) = let rest = find_row p rs in if p r then some r else rest

-- UPDATE: the rows that satisfy a WHERE clause are changed.
unfoldable pub update_rows : (AlertRecord → Bool) → (AlertRecord → AlertRecord) → Table → Table
update_rows p f [] = []
update_rows p f (r ∷ rs) = (if p r then f r else r) ∷ update_rows p f rs

abbrev pub has_id : AlertId → AlertRecord → Bool
has_id id r = r.id == id

add_row : AlertRecord → Table → Option AlertRecord → Table × Bool
add_row alert db none = (db ++ alert ∷ [], true)
add_row alert db (some r) = (db, false)

abbrev stamp : AlertRecord → ℕ → AlertRecord
stamp alert now = if alert.created_at == 0 then record alert { created_at = now } else alert

-- The primary key refuses a second row with one id. The result says whether there was no error.
unfoldable pub create_alert : Bool → ℕ → AlertRecord → Table → Table × Bool
unfolding add_row find_row
create_alert false now alert db = (db, false)
create_alert true now alert db = add_row (stamp alert now) db (find_row (has_id alert.id) db)

-- The columns that UpdateAlert writes.
abbrev pub overwrite : AlertRecord → AlertRecord → AlertRecord
overwrite alert row = record row {
  state = alert.state;
  message = alert.message;
  fired_at = alert.fired_at;
  resolved_at = alert.resolved_at;
  notified_at = alert.notified_at;
  acked = alert.acked;
}

unfoldable pub update_alert : Bool → AlertRecord → Table → Table × Bool
unfolding update_rows
update_alert false alert db = (db, false)
update_alert true alert db = (update_rows (has_id alert.id) (overwrite alert) db, true)

ack_row : AlertId → Table → Option AlertRecord → Table × Bool
unfolding update_rows
ack_row id db none = (db, false)
ack_row id db (some _) = (update_rows (has_id id) (λ r. record r { acked = true }) db, true)

-- No row with the id is an error too.
unfoldable pub acknowledge_alert : Bool → AlertId → Table → Table × Bool
unfolding ack_row find_row
acknowledge_alert false id db = (db, false)
acknowledge_alert true id db = ack_row id db (find_row (has_id id) db)

abbrev pub is_active_row : AlertRecord → Bool
is_active_row r = is_active r.state

-- ORDER BY created_at DESC
insert_newest : AlertRecord → Table → Table
insert_newest r [] = r ∷ []
insert_newest r (s ∷ rs) =
    let rest = insert_newest r rs in if ltb r.created_at s.created_at then s ∷ rest else r ∷ s ∷ rs

unfoldable pub newest_first : Table → Table
unfolding insert_newest
newest_first [] = []
newest_first (r ∷ rs) = insert_newest r (newest_first rs)

-- `none` is the error.
unfoldable pub list_active_alerts : Bool → Table → Option Table
unfolding newest_first keep
list_active_alerts false db = none
list_active_alerts true db = some (newest_first (keep is_active_row db))

abbrev pub is_for_node : String → String → AlertRecord → Bool
is_for_node rule_id node_id r = r.rule_id == rule_id && r.node_id == node_id && is_active r.state

-- An error and no row are both `none`: every caller drops the error.
unfoldable pub get_active_alert_by_rule_and_node :
    Bool → String → String → Table → Option AlertRecord
unfolding find_row
get_active_alert_by_rule_and_node false rule_id node_id db = none
get_active_alert_by_rule_and_node true rule_id node_id db =
    find_row (is_for_node rule_id node_id) db

abbrev pub is_for_server : String → String → AlertRecord → Bool
is_for_server rule_id server_id r =
    r.rule_id == rule_id && r.server_id == server_id && r.node_id == "" && is_active r.state

unfoldable pub get_active_alert_by_rule_and_server :
    Bool → String → String → Table → Option AlertRecord
unfolding find_row
get_active_alert_by_rule_and_server false rule_id server_id db = none
get_active_alert_by_rule_and_server true rule_id server_id db =
    find_row (is_for_server rule_id server_id) db

-- The Unix time `older_than` nanoseconds ago. No time lies before 0, where `-` stops.
abbrev pub cutoff_of : ℕ → ℕ → ℕ
cutoff_of now older_than = (now - older_than) / 1000000000

abbrev pub is_old : ℕ → AlertRecord → Bool
is_old cutoff r = not (is_active r.state) && ltb r.resolved_at cutoff

unfoldable pub purge_old_alerts : Bool → ℕ → ℕ → Table → Table × Option ℕ
unfolding keep
purge_old_alerts false now older_than db = (db, none)
purge_old_alerts true now older_than db =
    let cutoff = cutoff_of now older_than in
    (keep (λ r. not (is_old cutoff r)) db, some (length (keep (is_old cutoff) db)))

unfoldable pub resolve_all_firing : Bool → ℕ → Table → Table × Option ℕ
unfolding keep update_rows
resolve_all_firing false now db = (db, none)
resolve_all_firing true now db = (
  update_rows is_active_row (λ r. record r { state = resolved; resolved_at = now }) db,
  some (length (keep is_active_row db)),
)
