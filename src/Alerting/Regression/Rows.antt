-- ===== src/Alerting/Regression/Rows.antt =====
-- The rows of version changes that are to be judged, and that are marked as judged.
use klever_node_hub.Prelude.{
  ◌⊎◌, All-map, ℕ, ◌≡◌, refl, ap, ◌∙◌, Bool, true, false, not, ◌&&◌, ◌||◌, List, [], ◌∷◌, ◌==◌,
  nat_eq, nat_beq_iff, if◌then◌else◌, keep, leb, All, arith, inl, inr,
}
use klever_node_hub.Store.Versions.{
  VersionChange, insert_change, sort_changes, is_pending, mark_rows,
}

All-keep : {A : Type 0} (P : A → Type 0) (p : A → Bool) (xs : List A) → All P xs → All P (keep p xs)
unfolding keep
All-keep P p [] h = tt
All-keep P p (x ∷ xs) h = elim (p x) as (λ b. All P (if b then x ∷ keep p xs else keep p xs)) [
  | true ↦ (h.0, All-keep P p xs h.1)
  | false ↦ All-keep P p xs h.1
]

-- Some row with the ID is still to be judged.
unfoldable pub is_open : ℕ → List VersionChange → Bool
is_open id [] = false
is_open id (c ∷ cs) = (c.id == id && not c.evaluated) || is_open id cs

abbrev pub Differs : VersionChange → VersionChange → Type 0
Differs c e = (c.id == e.id) ≡ false

-- No two rows have the same ID: the ID is the table's key.
abbrev pub IsDistinct : List VersionChange → Type 0
IsDistinct [] = Unit
IsDistinct (c ∷ cs) = All (Differs c) cs × IsDistinct cs

-- The change is one of the rows, and is still to be judged.
abbrev pub OpenIn : VersionChange → List VersionChange → Type 0
OpenIn c [] = ⊥
OpenIn c (r ∷ rows) = ((r ≡ c) × (c.evaluated ≡ false)) ⊎ OpenIn c rows

pub OpenIn-is_open :
    (c : VersionChange) (rows : List VersionChange) → OpenIn c rows → is_open c.id rows ≡ true
unfolding is_open
OpenIn-is_open c [] o = absurd o
OpenIn-is_open c (r ∷ rows) (inl (e, free)) =
    ground (arith, ap (λ r. r.id) e, ap (λ r. r.evaluated) e, free, nat_beq_iff r.id c.id)
OpenIn-is_open c (r ∷ rows) (inr o) = ground (arith, OpenIn-is_open c rows o)

-- Marking another row.
OpenIn-mark :
    (id : ℕ) (c : VersionChange) (rows : List VersionChange)
    → (id == c.id) ≡ false
    → OpenIn c rows
    → OpenIn c (mark_rows id rows)
unfolding mark_rows
OpenIn-mark id c [] ne o = o
OpenIn-mark id c (r ∷ rows) ne (inl (e, free)) =
    inl (ap (λ b. if b then record r { evaluated = true } else r) missed ∙ e, free)
  where
    missed : (r.id == id) ≡ false
    missed = ground (arith, ap (λ r. r.id) e, ne, nat_beq_iff r.id id, nat_beq_iff id c.id)
OpenIn-mark id c (r ∷ rows) ne (inr o) = inr (OpenIn-mark id c rows ne o)

pub OpenIn-unmark :
    (id : ℕ) (c : VersionChange) (rows : List VersionChange)
    → OpenIn c (mark_rows id rows)
    → OpenIn c rows
unfolding mark_rows
OpenIn-unmark id c [] o = o
OpenIn-unmark id c (r ∷ rows) (inl (e, free)) = inl (unmarked (r.id == id) e, free)
  where
    unmarked : (b : Bool) → (if b then record r { evaluated = true } else r) ≡ c → r ≡ c
    unmarked true e = absurd (ground (arith, ap (λ r. r.evaluated) e, free))
    unmarked false e = e
OpenIn-unmark id c (r ∷ rows) (inr o) = inr (OpenIn-unmark id c rows o)

pub mark_rows-closes : (id : ℕ) (rows : List VersionChange) → is_open id (mark_rows id rows) ≡ false
unfolding mark_rows is_open
mark_rows-closes id [] = refl
mark_rows-closes id (r ∷ rows) = ground (arith, mark_rows-closes id rows, nat_beq_iff r.id id)

pub mark_rows-closed :
    (id j : ℕ) (rows : List VersionChange)
    → is_open j rows ≡ false
    → is_open j (mark_rows id rows) ≡ false
unfolding mark_rows is_open
mark_rows-closed id j [] h = h
mark_rows-closed id j (r ∷ rows) h = ground (arith, h, mark_rows-closed id j rows)

mark_rows-Differs :
    (id : ℕ) (c : VersionChange) (rows : List VersionChange)
    → All (Differs c) rows
    → All (Differs c) (mark_rows id rows)
unfolding mark_rows
mark_rows-Differs id c [] h = tt
mark_rows-Differs id c (e ∷ es) h = (ground (arith, h.0), mark_rows-Differs id c es h.1)

pub mark_rows-IsDistinct :
    (id : ℕ) (rows : List VersionChange) → IsDistinct rows → IsDistinct (mark_rows id rows)
unfolding mark_rows
mark_rows-IsDistinct id [] d = tt
mark_rows-IsDistinct id (c ∷ cs) d =
    elim (c.id == id)
      as (λ b. IsDistinct ((if b then record c { evaluated = true } else c) ∷ mark_rows id cs)) [
        | true ↦ (mark_rows-Differs id c cs d.0, mark_rows-IsDistinct id cs d.1)
        | false ↦ (mark_rows-Differs id c cs d.0, mark_rows-IsDistinct id cs d.1)
      ]

-- Changes that are to be judged one after the other.
abbrev pub AreOpen : List VersionChange → List VersionChange → Type 0
AreOpen [] rows = Unit
AreOpen (c ∷ cs) rows = OpenIn c rows × All (Differs c) cs × AreOpen cs rows

pub AreOpen-mark_rows :
    (id : ℕ) (cs rows : List VersionChange)
    → All (λ e. (id == e.id) ≡ false) cs
    → AreOpen cs rows
    → AreOpen cs (mark_rows id rows)
AreOpen-mark_rows id [] rows ne h = tt
AreOpen-mark_rows id (c ∷ cs) rows ne h =
    (OpenIn-mark id c rows ne.0 h.0, h.1, AreOpen-mark_rows id cs rows ne.1 h.2)

AreOpen-of :
    (cs rows : List VersionChange) → All (λ c. OpenIn c rows) cs → IsDistinct cs → AreOpen cs rows
AreOpen-of [] rows o d = tt
AreOpen-of (c ∷ cs) rows o d = (o.0, d.0, AreOpen-of cs rows o.1 d.1)

insert_change-All :
    (P : VersionChange → Type 0) (c : VersionChange) (cs : List VersionChange)
    → P c
    → All P cs
    → All P (insert_change c cs)
unfolding insert_change
insert_change-All P c [] h hs = (h, tt)
insert_change-All P c (e ∷ es) h hs =
    elim (leb c.detected_at e.detected_at)
      as (λ b. All P (if b then c ∷ e ∷ es else e ∷ insert_change c es)) [
        | true ↦ (h, hs)
        | false ↦ (hs.0, insert_change-All P c es h hs.1)
      ]

sort_changes-All :
    (P : VersionChange → Type 0) (cs : List VersionChange) → All P cs → All P (sort_changes cs)
unfolding sort_changes
sort_changes-All P [] h = tt
sort_changes-All P (c ∷ cs) h =
    insert_change-All P c (sort_changes cs) h.0 (sort_changes-All P cs h.1)

insert_change-IsDistinct :
    (c : VersionChange) (cs : List VersionChange)
    → All (Differs c) cs
    → IsDistinct cs
    → IsDistinct (insert_change c cs)
unfolding insert_change
insert_change-IsDistinct c [] ne d = (tt, tt)
insert_change-IsDistinct c (e ∷ es) ne d =
    elim (leb c.detected_at e.detected_at)
      as (λ b. IsDistinct (if b then c ∷ e ∷ es else e ∷ insert_change c es)) [
        | true ↦ (ne, d)
        | false ↦ (
          insert_change-All (Differs e) c es
              (ground (arith, ne.0, nat_beq_iff c.id e.id, nat_beq_iff e.id c.id)) d.0,
          insert_change-IsDistinct c es ne.1 d.1,
        )
      ]

sort_changes-IsDistinct : (cs : List VersionChange) → IsDistinct cs → IsDistinct (sort_changes cs)
unfolding sort_changes
sort_changes-IsDistinct [] d = tt
sort_changes-IsDistinct (c ∷ cs) d =
    insert_change-IsDistinct c (sort_changes cs) (sort_changes-All (Differs c) cs d.0)
      (sort_changes-IsDistinct cs d.1)

keep-IsDistinct :
    (p : VersionChange → Bool) (cs : List VersionChange) → IsDistinct cs → IsDistinct (keep p cs)
unfolding keep
keep-IsDistinct p [] d = tt
keep-IsDistinct p (c ∷ cs) d =
    elim (p c) as (λ b. IsDistinct (if b then c ∷ keep p cs else keep p cs)) [
      | true ↦ (All-keep (Differs c) p cs d.0, keep-IsDistinct p cs d.1)
      | false ↦ keep-IsDistinct p cs d.1
    ]

keep-pending :
    (now lo hi : ℕ) (rows : List VersionChange)
    → All (λ c. OpenIn c rows) (keep (is_pending now lo hi) rows)
unfolding keep
keep-pending now lo hi [] = tt
keep-pending now lo hi (c ∷ cs) =
    placed (is_pending now lo hi c) (λ q. ground (arith, q))
      (All-map (λ e. OpenIn e cs) (λ e. OpenIn e (c ∷ cs)) (λ e o. inr o)
        (keep (is_pending now lo hi) cs) (keep-pending now lo hi cs))
  where
    placed :
        (b : Bool)
        → (b ≡ true → c.evaluated ≡ false)
        → All (λ e. OpenIn e (c ∷ cs)) (keep (is_pending now lo hi) cs)
        → All
            (λ e. OpenIn e (c ∷ cs))
            (if b then c ∷ keep (is_pending now lo hi) cs else keep (is_pending now lo hi) cs)
    placed true free h = (inl (refl, free refl), h)
    placed false free h = h

-- The changes that a check takes up.
pub pending-AreOpen :
    (now lo hi : ℕ) (rows : List VersionChange)
    → IsDistinct rows
    → AreOpen (sort_changes (keep (is_pending now lo hi) rows)) rows
pending-AreOpen now lo hi rows u =
    let pending = is_pending now lo hi in
    AreOpen-of (sort_changes (keep pending rows)) rows
      (sort_changes-All (λ c. OpenIn c rows) (keep pending rows) (keep-pending now lo hi rows))
      (sort_changes-IsDistinct (keep pending rows) (keep-IsDistinct pending rows u))
