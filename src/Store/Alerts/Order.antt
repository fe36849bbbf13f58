-- ===== src/Store/Alerts/Order.antt =====
-- The order of a listing loses no row.
use klever_node_hub.Prelude.{Bool, true, false, [], ◌∷◌, All, ltb, if◌then◌else◌}
use klever_node_hub.Store.Alerts.{AlertRecord, Table, newest_first, insert_newest}

module _ (P : AlertRecord → Type 0) where
  place-All :
      (b : Bool) (r s : AlertRecord) (rows rest : Table)
      → (All P rest → P r × All P rows)
      → All P (if b then s ∷ rest else r ∷ s ∷ rows)
      → P r × All P (s ∷ rows)
  place-All true r s rows rest f h = let found = f h.1 in (found.0, (h.0, found.1))
  place-All false r s rows rest f h = h

  insert_newest-All :
      (r : AlertRecord) (rows : Table) → All P (insert_newest r rows) → P r × All P rows
  unfolding insert_newest
  insert_newest-All r [] h = h
  insert_newest-All r (s ∷ rows) h =
      place-All (ltb r.created_at s.created_at) r s rows (insert_newest r rows)
        (insert_newest-All r rows) h

  pub newest_first-All : (rows : Table) → All P (newest_first rows) → All P rows
  unfolding newest_first
  newest_first-All [] h = h
  newest_first-All (r ∷ rows) h =
      let rest = insert_newest-All r (newest_first rows) h in (rest.0, newest_first-All rows rest.1)

  All-insert_newest :
      (r : AlertRecord) (rows : Table) → P r → All P rows → All P (insert_newest r rows)
  unfolding insert_newest
  All-insert_newest r [] p h = (p, tt)
  All-insert_newest r (s ∷ rows) p h =
      elim (ltb r.created_at s.created_at)
        as (λ b. All P (if b then s ∷ insert_newest r rows else r ∷ s ∷ rows)) [
          | true ↦ (h.0, All-insert_newest r rows p h.1)
          | false ↦ (p, h)
        ]

  pub All-newest_first : (rows : Table) → All P rows → All P (newest_first rows)
  unfolding newest_first
  All-newest_first [] h = tt
  All-newest_first (r ∷ rows) h =
      All-insert_newest r (newest_first rows) h.0 (All-newest_first rows h.1)
